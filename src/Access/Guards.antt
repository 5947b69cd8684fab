-- ===== src/Access/Guards.antt =====
-- The guards of the routes: internal/api/middleware/auth.go and project.go, and the check of the
-- identity block, internal/models/platform_identity.go.
use Prim.Native.String.{[], ◌∷◌}
use okdp_control_plane_serve.Base.{
  ℕ, String, Bool, false, Option, none, some, ◌==◌, ◌||◌, ◌&&◌, not, if◌then◌else◌, code, ◌+◌,
  nat_eq,
}
use okdp_control_plane_serve.Base.Go.{Result, ok, err}
use okdp_control_plane_serve.Base.Text.{cut, trim_space}
use okdp_control_plane_serve.Access.Token.{Identity, OidcVerifier, verify}

-- `strings.EqualFold(c, d)` of one letter with an ASCII letter `d` in lower case, other than k and s.
abbrev same_letter : ℕ → ℕ → Bool
same_letter c d = nat_eq c d || nat_eq (c + 32) d

-- `strings.EqualFold(scheme, "Bearer")`
unfoldable pub is_bearer : String → Bool
is_bearer (c1 ∷ c2 ∷ c3 ∷ c4 ∷ c5 ∷ c6 ∷ []) =
    same_letter (code c1) b'b'
    && same_letter (code c2) b'e'
    && same_letter (code c3) b'a'
    && same_letter (code c4) b'r'
    && same_letter (code c5) b'e'
    && same_letter (code c6) b'r'
is_bearer _ = false

pub data HeaderError : Type 0 where
  missing_token malformed_header : HeaderError

-- `bearerToken`
unfoldable pub bearer_token : String → Result HeaderError String
unfolding cut is_bearer trim_space
bearer_token header = if header == "" then err missing_token else elim (cut b' ' header) [
  | none ↦ err malformed_header
  | some (scheme, token) ↦
      if not (is_bearer scheme) || trim_space token == ""
      then err malformed_header
      else ok (trim_space token)
]

-- What the middleware does with a request: it goes on, with the identity it stored in the context,
-- or it is answered 401.
pub data Admission : Type 0 where
  proceeds : Option Identity → Admission
  unauthorized : Option HeaderError → Admission

abbrev pub public_path : String
public_path = "/api/capabilities"

-- `RequireAuthentication`
unfoldable pub require_authentication : OidcVerifier → String → String → Admission
unfolding bearer_token verify
require_authentication verifier full_path header =
    if full_path == public_path then proceeds none else elim (bearer_token header) [
      | err e ↦ unauthorized (some e)
      | ok raw_token ↦ elim (verify verifier raw_token) [
        | err _ ↦ unauthorized none
        | ok identity ↦ proceeds (some identity)
      ]
    ]

-- The answer of the lookup of a project: an error that is NotFound or another.
pub data LookupError : Type 0 where
  absent : LookupError
  failed : String → LookupError

pub data Resolution (P : Type 0) : Type 0 where
  name_required could_not_resolve not_a_project : Resolution P
  resolved : P → Resolution P

-- `RequireProject`, for a lookup that may return no project and no error.
unfoldable pub require_project :
    {P : Type 0} → (String → Result LookupError (Option P)) → String → Resolution P
require_project get name = if name == "" then name_required else elim (get name) [
  | err absent ↦ not_a_project
  | err (failed _) ↦ could_not_resolve
  | ok none ↦ not_a_project
  | ok (some project) ↦ resolved project
]

pub record PlatformIdentity : Type 0 where
  pub client_provisioning : String
  pub kubauth_namespace : String

pub data IdentityError : Type 0 where
  kubauth_namespace_required : IdentityError
  unknown_provisioning : String → IdentityError

-- `PlatformIdentity.Validate`
unfoldable pub validate_identity : PlatformIdentity → Option IdentityError
validate_identity i =
    if i.client_provisioning == "existing" || i.client_provisioning == "dcr"
    then none
    else if i.client_provisioning == "kubauth"
    then (if i.kubauth_namespace == "" then some kubauth_namespace_required else none)
    else some (unknown_provisioning i.client_provisioning)

-- `ProvisionsWithKubauth`; nil is `none`.
unfoldable pub provisions_with_kubauth : Option PlatformIdentity → Bool
provisions_with_kubauth none = false
provisions_with_kubauth (some i) = i.client_provisioning == "kubauth"
