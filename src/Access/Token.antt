-- ===== src/Access/Token.antt =====
-- The check of bearer tokens: internal/auth/verifier.go. The library go-oidc is a parameter: the
-- discovery of an issuer, which gives a check of signatures, expiry and issuer of a raw token.
use okdp_control_plane_serve.Base.{
  String, Bool, Option, none, some, List, [], ◌∷◌, ◌==◌, ◌||◌, if◌then◌else◌,
}
use okdp_control_plane_serve.Base.Go.{Result, ok, err}

-- `idClaims`
pub record IdClaims : Type 0 where
  pub azp : String
  pub client_id : String
  pub preferred_username : String
  pub email : String

-- `oidc.IDToken`; `claims` is `none` where they cannot be decoded.
pub record IdToken : Type 0 where
  pub subject : String
  pub audience : List String
  pub claims : Option IdClaims

pub record Identity : Type 0 where
  pub subject : String
  pub username : String

pub record Config : Type 0 where
  pub issuer : String
  pub insecure_skip_verify : Bool
  pub client_id : String

pub data TokenError : Type 0 where
  no_client_id unreadable_claims not_for_this_client : TokenError
  unreachable : String → String → TokenError
  rejected : String → TokenError

-- `oidcVerifier`
pub record OidcVerifier : Type 0 where
  pub verifier : String → Result String IdToken
  pub client_id : String

-- `NewVerifier`
unfoldable pub new_verifier :
    (String → Bool → Result String (String → Result String IdToken))
    → Config
    → Result TokenError OidcVerifier
new_verifier new_provider cfg =
    if cfg.client_id == ""
    then err no_client_id
    else elim (new_provider cfg.issuer cfg.insecure_skip_verify) [
      | err e ↦ err (unreachable cfg.issuer e)
      | ok check ↦ ok (record { verifier = check; client_id = cfg.client_id })
    ]

-- The loop over the audience.
unfoldable pub named_in : Bool → String → List String → Bool
named_in named client [] = named
named_in named client (aud ∷ audience) = named_in (named || aud == client) client audience

unfoldable pub identity_of : IdToken → IdClaims → Identity
identity_of token claims = record {
  subject = token.subject;
  username = if claims.preferred_username == "" then claims.email else claims.preferred_username;
}

-- `Verify` once the token was checked and decoded.
unfoldable pub verify_claims : String → IdToken → IdClaims → Result TokenError Identity
unfolding named_in identity_of
verify_claims client token claims =
    if named_in (claims.client_id == client || claims.azp == client) client token.audience
    then ok (identity_of token claims)
    else err not_for_this_client

-- `oidcVerifier.Verify`
unfoldable pub verify : OidcVerifier → String → Result TokenError Identity
unfolding verify_claims
verify v raw_token = elim (v.verifier raw_token) [
  | err e ↦ err (rejected e)
  | ok token ↦ elim token.claims [
    | none ↦ err unreadable_claims
    | some claims ↦ verify_claims v.client_id token claims
  ]
]

pub data SettingError : Type 0 where
  unreadable : String → SettingError
  missing : SettingError

-- `ResolveIssuer`, which `ResolveClientID` repeats; the second argument is what the platform Context
-- answers.
unfoldable pub resolve_issuer : String → Result String String → Result SettingError String
resolve_issuer override from_context =
    if override == ""
    then elim from_context [
      | err e ↦ err (unreadable e)
      | ok issuer ↦ if issuer == "" then err missing else ok issuer
    ]
    else ok override

unfoldable pub resolve_client_id : String → Result String String → Result SettingError String
resolve_client_id override from_context =
    if override == ""
    then elim from_context [
      | err e ↦ err (unreadable e)
      | ok client_id ↦ if client_id == "" then err missing else ok client_id
    ]
    else ok override
