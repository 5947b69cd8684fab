-- ===== src/Connection/Credentials.antt =====
-- Requests, rejections, and where a connection keeps its credentials: the helpers of
-- internal/service/connection_service.go.
pub mod Laws
use Prim.Native.String
use okdp_control_plane_serve.Base.{
  String, Bool, true, false, Option, none, some, List, [], ◌∷◌, ◌≡◌, ◌==◌, if◌then◌else◌, ◌&&◌,
  ◌||◌, not, contains, is_some,
}
use okdp_control_plane_serve.Base.Dict.{Dict, lookup, insert, delete}
use okdp_control_plane_serve.Base.Go.{
  Result, ok, err, Action, pure, raise, try, ◌>>=◌, ◌>>◌, sort_by,
}
use okdp_control_plane_serve.Base.Text.{cut, parse_bool, format_bool}
use okdp_control_plane_serve.Connection.Model.{
  Value, string, ContractDescriptor, ConnectionField, field, secret_fields,
}
use okdp_control_plane_serve.Connection.Catalog.{
  Floats, ValueError, normalize, validate, validate_update,
}
use okdp_control_plane_serve.Connection.Catalog as Catalog
use okdp_control_plane_serve.Connection.Repository as Repo
use okdp_control_plane_serve.Connection.Repository.{
  Kube, KubeError, not_found, already_exists, RepoError, kube, foreign_secret, Connection,
  ConnectionSpec, ConnectionStatus, SecretContent, is_managed, label_managed_by, managed_by_value,
  text_at,
}

abbrev pub annotation_credentials_secret : String
annotation_credentials_secret = "okdp.io/credentials-secret"

abbrev pub annotation_credentials_owned : String
annotation_credentials_owned = "okdp.io/credentials-owned"

abbrev pub value_secret_ref : String
value_secret_ref = "secretRef"

-- `name + credentialsSecretSuffix`
abbrev pub conventional_secret : String → String
conventional_secret name = String.◌++◌ name "-credentials"

-- The rejected inputs: `ValidationError`, by the call of `invalid` that makes it.
pub data Rejection : Type 0 where
  invalid_name : String → Rejection
  unknown_type not_declarable : String → Rejection
  foreign : RepoError → Rejection
  no_such_secret belongs_to_another : String → Rejection
  missing_keys : String → List String → Rejection
  bad_values : ValueError → Rejection
  managed_edit managed_delete : String → Rejection

pub data ServiceError : Type 0 where
  unavailable : ServiceError
  invalid : Rejection → ServiceError
  name_taken : String → ServiceError
  repo : RepoError → ServiceError
  store_failed read_failed : RepoError → ServiceError

pub record ConnectionRequest (F : Type 0) : Type 0 where
  pub name : String
  pub type : String
  pub description : String
  pub values : Dict (Value F)
  pub existing_secret : String

-- `DefaultConnectionService`, with the checks that it takes from libraries: `name_error` is
-- `validation.IsDNS1123Subdomain`, `none` for a valid name.
pub record ConnectionService (F W : Type 0) : Type 0 where
  pub cluster : Kube F W
  pub catalog : List (ContractDescriptor F)
  pub floats : Floats F
  pub name_error : String → Option String

-- `errors.Is(err, ErrForeignSecret)`
unfoldable pub is_foreign_secret : RepoError → Bool
is_foreign_secret (foreign_secret _ _) = true
is_foreign_secret _ = false

-- `apierrors.IsNotFound`
unfoldable pub is_not_found : RepoError → Bool
is_not_found (kube not_found) = true
is_not_found _ = false

-- `apierrors.IsAlreadyExists`
unfoldable pub is_already_exists : RepoError → Bool
is_already_exists (kube already_exists) = true
is_already_exists _ = false

-- `storeCredentialsError`
unfoldable pub store_credentials_error : RepoError → ServiceError
unfolding is_foreign_secret
store_credentials_error e = if is_foreign_secret e then invalid (foreign e) else store_failed e

-- `credentialsOwned`
unfoldable pub credentials_owned : Dict String → String → String → Bool
unfolding parse_bool
credentials_owned annotations connection_name secret_name =
    elim (lookup annotation_credentials_owned annotations) [
      | some raw ↦ elim (parse_bool raw) [ none ↦ false | some owned ↦ owned ]
      | none ↦ secret_name == conventional_secret connection_name
    ]

-- The name that the annotation gives, or else the conventional one.
unfoldable pub credentials_name : Dict String → String → String
unfolding cut text_at
credentials_name annotations name =
    elim (cut b'/' (text_at annotation_credentials_secret annotations)) [
      | none ↦ conventional_secret name
      | some (_, referenced) ↦ if referenced == "" then conventional_secret name else referenced
    ]

-- `credentialsSecretOf`
unfoldable pub credentials_secret_of : {F : Type 0} → Connection F → String → String × Bool
unfolding credentials_name credentials_owned
credentials_secret_of connection name =
    let secret_name = credentials_name connection.annotations name in
    (secret_name, credentials_owned connection.annotations name secret_name)

-- `withCredentialsSecret`
unfoldable pub with_credentials_secret : Dict String → String → Bool → Dict String
unfolding format_bool
with_credentials_secret annotations reference owned =
    insert annotation_credentials_owned (format_bool owned)
      (insert annotation_credentials_secret reference annotations)

-- The required keys that the Secret does not carry.
unfoldable pub missing_from : List String → List String → List String
missing_from present [] = []
missing_from present (f ∷ fields) =
    if contains present f then missing_from present fields else f ∷ missing_from present fields

module _ {F : Type 0} where
  -- One pass of the loop of `splitValues`.
  unfoldable pub split_value :
      ContractDescriptor F
      → String
      → Value F
      → Dict (Value F) × Dict String
      → Dict (Value F) × Dict String
  split_value d name value (public, secrets) = elim (field d name) [
    | none ↦ (public, secrets)
    | some f ↦
        if f.secret
        then elim value [
          | string s ↦ if s == "" then (public, secrets) else (public, insert name s secrets)
          | _ ↦ (public, secrets)
        ]
        else (insert name value public, secrets)
  ]

  unfoldable pub split_from :
      ContractDescriptor F
      → Dict (Value F)
      → Dict (Value F) × Dict String
      → Dict (Value F) × Dict String
  split_from d [] split = split
  split_from d ((name, value) ∷ values) split = split_from d values (split_value d name value split)

  -- `splitValues`: the values for the spec, and the credentials for the Secret.
  unfoldable pub split_values : ContractDescriptor F → Dict (Value F) → Dict (Value F) × Dict String
  split_values d values = split_from d values ([], [])
