-- ===== src/Access/Tests.antt =====
-- The theorems on tokens and guards, on one client and one token.
use okdp_control_plane_serve.Base.{
  String, Bool, Option, none, some, [], ◌∷◌, ◌≡◌, refl, ◌≢◌, ◌↔◌, ◌⊎◌, if◌then◌else◌, ◌==◌,
}
use okdp_control_plane_serve.Base.Go.{Result, ok, err}
use okdp_control_plane_serve.Access.Token.{
  IdClaims, IdToken, Identity, Config, OidcVerifier, new_verifier, identity_of, verify,
}
use okdp_control_plane_serve.Access.Guards.{
  bearer_token, proceeds, public_path, require_authentication, LookupError, absent, resolved,
  require_project, PlatformIdentity, validate_identity, provisions_with_kubauth,
}
use okdp_control_plane_serve.Access.Laws.{
  Names, verify_iff, require_authentication_iff, require_project_iff, validate_identity_iff,
}

abbrev claims : IdClaims
claims = record { azp = "console"; client_id = ""; preferred_username = ""; email = "ada@okdp.io" }

abbrev token : IdToken
token = record { subject = "42"; audience = "account" ∷ []; claims = some claims }

abbrev nameless : IdToken
nameless = record {
  subject = "42";
  audience = [];
  claims = some (record { azp = ""; client_id = ""; preferred_username = "ada"; email = "" });
}

abbrev check : String → Result String IdToken
check raw = if raw == "t1" then ok token else if raw == "t2" then ok nameless else err "signature"

abbrev console : OidcVerifier
console = record { verifier = check; client_id = "console" }

abbrev ada : Identity
ada = record { subject = "42"; username = "ada@okdp.io" }

abbrev provider : String → Bool → Result String (String → Result String IdToken)
provider issuer insecure = ok check

abbrev config : Config
config = record { issuer = "https://idp"; insecure_skip_verify = Bool.false; client_id = "console" }

verify_iff_example : (verify console "t1" ≡ ok ada) ↔ (
    (t : IdToken) × (c : IdClaims) × (console.verifier "t1" ≡ ok t)
    × (t.claims ≡ some c)
    × Names console.client_id t c
    × (ada ≡ identity_of t c))
verify_iff_example = verify_iff console "t1" ada

made : new_verifier provider config ≡ ok console
unfolding new_verifier
made = refl

require_authentication_iff_example :
    (require_authentication console "/api/projects" "bearer t1" ≡ proceeds (some ada)) ↔ (
      (("/api/projects" ≡ public_path) × (some ada ≡ none))
      ⊎ ((raw : String) × (identity : Identity) × ("/api/projects" ≢ public_path)
          × (bearer_token "bearer t1" ≡ ok raw)
          × (verify console raw ≡ ok identity)
          × (some ada ≡ some identity)))
require_authentication_iff_example =
    require_authentication_iff console "/api/projects" "bearer t1" (some ada)

abbrev issuer_url : String
issuer_url = "https://idp"

abbrev unset : String
unset = ""

abbrev declared : Result String String
declared = ok issuer_url

abbrev timed_out : Result String String
timed_out = err "timeout"

abbrev demo : String
demo = "demo"

abbrev projects : String → Result LookupError (Option String)
projects name = if name == "demo" then ok (some "the demo project") else err absent

require_project_iff_example :
    (require_project projects "demo" ≡ resolved "the demo project")
    ↔ ((demo ≢ "") × (projects "demo" ≡ ok (some "the demo project")))
require_project_iff_example = require_project_iff projects "demo" "the demo project"

abbrev kubauth : PlatformIdentity
kubauth = record { client_provisioning = "kubauth"; kubauth_namespace = "kubauth-users" }

validate_identity_iff_example : (validate_identity kubauth ≡ none) ↔ (
    (kubauth.client_provisioning ≡ "existing")
    ⊎ (kubauth.client_provisioning ≡ "dcr")
    ⊎ ((provisions_with_kubauth (some kubauth) ≡ Bool.true) × (kubauth.kubauth_namespace ≢ "")))
validate_identity_iff_example = validate_identity_iff kubauth
