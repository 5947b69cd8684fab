-- ===== src/Access/Laws.antt =====
-- Which callers and which projects pass the guards.
use okdp_control_plane_serve.Base.{
  String, Bool, true, false, Option, none, some, List, [], ◌∷◌, ◌≡◌, refl, ◌≢◌, ◌↔◌, ◌⊎◌, inl, inr,
  arith, ◌==◌, contains, eq_iff, Bool-cases, Option-cases, test_false_ne,
}
use okdp_control_plane_serve.Base.Go.{Result, ok}
use okdp_control_plane_serve.Base.Steps.{Result-cases}
use okdp_control_plane_serve.Access.Token.{
  IdClaims, IdToken, Identity, Config, OidcVerifier, new_verifier, named_in, identity_of,
  verify_claims, verify, resolve_issuer, resolve_client_id,
}
use okdp_control_plane_serve.Access.Guards.{
  bearer_token, proceeds, public_path, require_authentication, LookupError, resolved,
  require_project, PlatformIdentity, validate_identity, provisions_with_kubauth,
}

named_in-true : (client : String) (audience : List String) → named_in true client audience ≡ true
unfolding named_in
named_in-true client [] = refl
named_in-true client (aud ∷ audience) = named_in-true client audience

named_in-false :
    (client : String) (audience : List String)
    → named_in false client audience ≡ contains audience client
unfolding named_in
named_in-false client [] = refl
named_in-false client (aud ∷ audience) =
    ground (arith, named_in-true client audience, named_in-false client audience)

-- A token names the client, as one of the three claims.
abbrev pub Names : String → IdToken → IdClaims → Type 0
Names client token claims =
    (claims.client_id ≡ client) ⊎ (claims.azp ≡ client) ⊎ (contains token.audience client ≡ true)

verify_claims_iff :
    (client : String) (token : IdToken) (claims : IdClaims) (identity : Identity)
    → (verify_claims client token claims ≡ ok identity)
      ↔ (Names client token claims × (identity ≡ identity_of token claims))
unfolding verify_claims
verify_claims_iff client token claims identity = (
  λ h. ground (
    arith,
    eq_iff claims.client_id client,
    eq_iff claims.azp client,
    named_in-true client token.audience,
    named_in-false client token.audience,
  ),
  λ h. ground (
    arith,
    eq_iff claims.client_id client,
    eq_iff claims.azp client,
    named_in-true client token.audience,
    named_in-false client token.audience,
  ),
)

-- A token is accepted exactly when the issuer's check accepts it, its claims can be read, and one of
-- `client_id`, `azp` and the audience names this client; the identity is the token's.
pub verify_iff :
    (v : OidcVerifier) (raw : String) (identity : Identity)
    → (verify v raw ≡ ok identity) ↔ (
        (token : IdToken) × (claims : IdClaims) × (v.verifier raw ≡ ok token)
        × (token.claims ≡ some claims)
        × Names v.client_id token claims
        × (identity ≡ identity_of token claims))
unfolding verify
verify_iff v raw identity = (sound, complete)
  where
    sound :
        verify v raw ≡ ok identity
        → (token : IdToken) × (claims : IdClaims) × (v.verifier raw ≡ ok token)
          × (token.claims ≡ some claims)
          × Names v.client_id token claims
          × (identity ≡ identity_of token claims)
    sound h = elim (Result-cases (v.verifier raw)) [
      | inr (e, bad) ↦ absurd (ground arith)
      | inl (token, good) ↦ elim (Option-cases token.claims) [
        | inl unread ↦ absurd (ground arith)
        | inr (claims, read) ↦
            let accepted : verify_claims v.client_id token claims ≡ ok identity =
              rw (good, verify, read) at h in
            let (names, same) = (verify_claims_iff v.client_id token claims identity).0 accepted in
            (token, claims, good, read, names, same)
      ]
    ]

    complete :
        ((token : IdToken) × (claims : IdClaims) × (v.verifier raw ≡ ok token)
          × (token.claims ≡ some claims)
          × Names v.client_id token claims
          × (identity ≡ identity_of token claims))
        → verify v raw ≡ ok identity
    complete (token, claims, good, read, names, same) =
        rw (good, verify, read)
          ((verify_claims_iff v.client_id token claims identity).1 (names, same))

-- A verifier that could be made never accepts a token whose three claims are empty: there is no
-- configuration under which naming no client is naming this one.
new_verifier-verify :
    (provider : String → Bool → Result String (String → Result String IdToken)) (cfg : Config)
    {v : OidcVerifier} {token : IdToken} {claims : IdClaims} (raw : String) (identity : Identity)
    → new_verifier provider cfg ≡ ok v
    → v.verifier raw ≡ ok token
    → token.claims ≡ some claims
    → claims.client_id ≡ ""
    → claims.azp ≡ ""
    → token.audience ≡ []
    → verify v raw ≢ ok identity
unfolding new_verifier
new_verifier-verify provider cfg {v} {token} {claims} raw identity made good read no_id no_azp
      no_aud h =
    let (t, c, good', read', names, same) = (verify_iff v raw identity).0 h in
    let client : v.client_id ≢ "" = λ e. client_ne e in
    let same_token : t ≡ token = ground arith in
    let same_claims : c ≡ claims = ground arith in ground arith
  where
    client_ne : v.client_id ≢ ""
    client_ne e = elim (Result-cases (provider cfg.issuer cfg.insecure_skip_verify)) [
      | inl (check, found) ↦ ground (arith, eq_iff cfg.client_id "")
      | inr (x, failed) ↦ ground (arith, eq_iff cfg.client_id "")
    ]

-- A request gets past the authentication exactly when its route is the public one, and then without
-- an identity, or its header holds a bearer token that the verifier accepts, and then as that
-- token's identity.
pub require_authentication_iff :
    (v : OidcVerifier) (full_path header : String) (caller : Option Identity)
    → (require_authentication v full_path header ≡ proceeds caller) ↔ (
        ((full_path ≡ public_path) × (caller ≡ none))
        ⊎ ((raw : String) × (identity : Identity) × (full_path ≢ public_path)
            × (bearer_token header ≡ ok raw)
            × (verify v raw ≡ ok identity)
            × (caller ≡ some identity)))
unfolding require_authentication
require_authentication_iff v full_path header caller = (sound, complete)
  where
    sound :
        require_authentication v full_path header ≡ proceeds caller
        → ((full_path ≡ public_path) × (caller ≡ none))
          ⊎ ((raw : String) × (identity : Identity) × (full_path ≢ public_path)
              × (bearer_token header ≡ ok raw)
              × (verify v raw ≡ ok identity)
              × (caller ≡ some identity))
    sound h = elim (Bool-cases (full_path == public_path)) [
      | inl open_route ↦ inl (ground (arith, eq_iff full_path public_path), ground arith)
      | inr guarded ↦ elim (Result-cases (bearer_token header)) [
        | inr (e, bad) ↦ absurd (ground arith)
        | inl (raw, present) ↦ elim (Result-cases (verify v raw)) [
          | inr (e, bad) ↦ absurd (ground arith)
          | inl (identity, good) ↦ inr (
            raw,
            identity,
            test_false_ne full_path public_path guarded,
            present,
            good,
            ground arith,
          )
        ]
      ]
    ]

    complete :
        ((full_path ≡ public_path) × (caller ≡ none))
          ⊎ ((raw : String) × (identity : Identity) × (full_path ≢ public_path)
              × (bearer_token header ≡ ok raw)
              × (verify v raw ≡ ok identity)
              × (caller ≡ some identity))
        → require_authentication v full_path header ≡ proceeds caller
    complete (inl (open_route, nobody)) = ground (arith, eq_iff full_path public_path)
    complete (inr (raw, identity, guarded, present, good, same)) =
        ground (arith, eq_iff full_path public_path)

-- The issuer that start-up settles on is never empty: it is the override, or else the one that the
-- platform Context declares.
resolve_issuer_iff :
    (override : String) (from_context : Result String String) (issuer : String)
    → (resolve_issuer override from_context ≡ ok issuer)
      ↔ ((issuer ≢ "") × ((override ≡ issuer) ⊎ ((override ≡ "") × (from_context ≡ ok issuer))))
unfolding resolve_issuer
resolve_issuer_iff override from_context issuer = (
  λ h. ground (arith, eq_iff override "", eq_iff issuer ""),
  λ h. ground (arith, eq_iff override "", eq_iff issuer ""),
)

-- Likewise the client id that start-up settles on is never empty: it is the override, or else the
-- one that the platform Context declares.
resolve_client_id_iff :
    (override : String) (from_context : Result String String) (client_id : String)
    → (resolve_client_id override from_context ≡ ok client_id) ↔ (
        (client_id ≢ "")
        × ((override ≡ client_id) ⊎ ((override ≡ "") × (from_context ≡ ok client_id))))
unfolding resolve_client_id
resolve_client_id_iff override from_context client_id = (
  λ h. ground (arith, eq_iff override "", eq_iff client_id ""),
  λ h. ground (arith, eq_iff override "", eq_iff client_id ""),
)

-- A handler under a project's path runs exactly for a non-empty name that the lookup resolves to a
-- project, without error, and on that project.
pub require_project_iff :
    {P : Type 0} (get : String → Result LookupError (Option P)) (name : String) (project : P)
    → (require_project get name ≡ resolved project) ↔ ((name ≢ "") × (get name ≡ ok (some project)))
unfolding require_project
require_project_iff get name project =
    (λ h. ground (arith, eq_iff name ""), λ h. ground (arith, eq_iff name ""))

-- An identity block is valid exactly when it names one of the three ways of provisioning, with a
-- namespace where it provisions with kubauth; so a platform with a valid block that posts OidcClient
-- objects has a namespace for them.
pub validate_identity_iff :
    (i : PlatformIdentity)
    → (validate_identity i ≡ none) ↔ (
        (i.client_provisioning ≡ "existing")
        ⊎ (i.client_provisioning ≡ "dcr")
        ⊎ ((provisions_with_kubauth (some i) ≡ true) × (i.kubauth_namespace ≢ "")))
unfolding validate_identity provisions_with_kubauth
validate_identity_iff i = (
  λ h. ground (
    arith,
    eq_iff i.client_provisioning "existing",
    eq_iff i.client_provisioning "dcr",
    eq_iff i.client_provisioning "kubauth",
    eq_iff i.kubauth_namespace "",
  ),
  λ h. ground (
    arith,
    eq_iff i.client_provisioning "existing",
    eq_iff i.client_provisioning "dcr",
    eq_iff i.client_provisioning "kubauth",
    eq_iff i.kubauth_namespace "",
  ),
)
