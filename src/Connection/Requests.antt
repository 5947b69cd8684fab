-- ===== src/Connection/Requests.antt =====
-- Validation of a request and the writing of its credentials: `validateRequest`,
-- `checkExistingSecret` and the first half of `Create`, internal/service/connection_service.go.
pub mod Laws
use Prim.Native.String
use okdp_control_plane_serve.Base.{
  String, Bool, true, false, Option, none, some, List, [], ◌∷◌, ◌≡◌, ◌==◌, if◌then◌else◌, ◌&&◌,
  ◌||◌, not, contains, is_some,
}
use okdp_control_plane_serve.Base.Dict.{Dict, lookup, insert, delete}
use okdp_control_plane_serve.Base.Go.{
  Result, ok, err, Action, pure, raise, try, ◌>>=◌, ◌>>◌, sort_by,
}
use okdp_control_plane_serve.Base.Text.{cut, parse_bool, format_bool}
use okdp_control_plane_serve.Connection.Model.{
  Value, string, ContractDescriptor, ConnectionField, field, secret_fields,
}
use okdp_control_plane_serve.Connection.Catalog.{
  Floats, ValueError, normalize, validate, validate_update,
}
use okdp_control_plane_serve.Connection.Catalog as Catalog
use okdp_control_plane_serve.Connection.Repository as Repo
use okdp_control_plane_serve.Connection.Repository.{
  Kube, KubeError, not_found, already_exists, RepoError, kube, foreign_secret, Connection,
  ConnectionSpec, ConnectionStatus, SecretContent, is_managed, label_managed_by, managed_by_value,
  text_at,
}
use okdp_control_plane_serve.Connection.Credentials.{
  annotation_credentials_secret, annotation_credentials_owned, value_secret_ref,
  conventional_secret, Rejection, invalid_name, unknown_type, not_declarable, foreign,
  no_such_secret, belongs_to_another, missing_keys, bad_values, managed_edit, managed_delete,
  ServiceError, unavailable, invalid, name_taken, repo, store_failed, read_failed,
  ConnectionRequest, ConnectionService, is_foreign_secret, is_not_found, is_already_exists,
  store_credentials_error, credentials_owned, credentials_name, credentials_secret_of,
  with_credentials_secret, missing_from, split_values,
}

-- The credentials of a request: the Secret's name, whether it is ours, whether there are credential
-- values for it, and the values for the spec.
pub record Prepared (F : Type 0) : Type 0 where
  pub secret_name : String
  pub own_secret : Bool
  pub has_secrets : Bool
  pub public : Dict (Value F)

-- `len(secrets) > 0`
abbrev pub any_entry {ℓ} : {V : Type ℓ} → Dict V → Bool
any_entry [] = false
any_entry (_ ∷ _) = true

module _ {W E A : Type 0} where
  -- An error of the repository under the service's name for it.
  abbrev pub wrap : (RepoError → E) → Action W RepoError A → Action W E A
  wrap name m = try m (λ r. elim r [ ok a ↦ pure a | err e ↦ raise (name e) ])

module _ {F : Type 0} where
  unfoldable pub prepared_own : String → Bool → Dict (Value F) → Prepared F
  prepared_own name has_secrets public = record {
    secret_name = name;
    own_secret = true;
    has_secrets = has_secrets;
    public = public;
  }

  unfoldable pub prepared_existing : String → Dict (Value F) → Prepared F
  prepared_existing name public = record {
    secret_name = name;
    own_secret = false;
    has_secrets = false;
    public = insert value_secret_ref (string name) public;
  }

module _ {F W : Type 0} where
  -- `checkExistingSecret` once the Secret was read.
  unfoldable pub judge_secret :
      ConnectionRequest F
      → ContractDescriptor F
      → Option SecretContent
      → Action W ServiceError (Unit {0})
  judge_secret req d none = raise (invalid (no_such_secret req.existing_secret))
  judge_secret req d (some found) =
      if found.managed
      then raise (invalid (belongs_to_another req.existing_secret))
      else elim (missing_from found.keys (secret_fields d)) [
        | [] ↦ pure tt
        | f ∷ fields ↦ raise (invalid (missing_keys req.existing_secret (f ∷ fields)))
      ]

  -- The verdict on the values, with what is stored if they are accepted.
  unfoldable pub judge_values :
      ContractDescriptor F
      → Dict (Value F)
      → Option ValueError
      → Action W ServiceError (ContractDescriptor F × Dict (Value F))
  judge_values d values (some e) = raise (invalid (bad_values e))
  judge_values d values none = pure (d, values)

module _ {F W : Type 0} (s : ConnectionService F W) where
  -- `checkExistingSecret`
  unfoldable pub check_existing_secret :
      String → ConnectionRequest F → ContractDescriptor F → Action W ServiceError (Unit {0})
  unfolding judge_secret
  check_existing_secret namespace req d =
      wrap read_failed (Repo.inspect_secret s.cluster namespace req.existing_secret)
      >>= judge_secret req d

  -- The values are checked as an edit, or for an existing Secret.
  unfoldable pub check_values : ConnectionRequest F → Dict (Value F) → Bool → Option ValueError
  check_values req values tolerant =
      if tolerant
      then validate_update s.floats s.catalog req.type values
      else validate s.floats s.catalog req.type values

  -- The values to store: normalised, less the reference to the Secret.
  unfoldable pub stored_values : ConnectionRequest F → Dict (Value F)
  stored_values req = delete value_secret_ref (normalize s.catalog req.type req.values)

  -- The check of an existing Secret, where the request names one.
  unfoldable pub check_reference :
      String → ConnectionRequest F → ContractDescriptor F → Action W ServiceError (Unit {0})
  unfolding check_existing_secret
  check_reference namespace req d =
      if req.existing_secret == "" then pure tt else check_existing_secret namespace req d

  -- `validateRequest` from the normalisation on, for a contract that may be declared by hand.
  unfoldable pub check_request :
      String
      → ConnectionRequest F
      → Bool
      → ContractDescriptor F
      → Action W ServiceError (ContractDescriptor F × Dict (Value F))
  unfolding check_reference check_values judge_values stored_values
  check_request namespace req is_update d = do
    check_reference namespace req d
    let values = stored_values req
    judge_values d values (check_values req values (is_update || not (req.existing_secret == "")))

  -- `validateRequest`
  unfoldable pub validate_request :
      String
      → ConnectionRequest F
      → Bool
      → Action W ServiceError (ContractDescriptor F × Dict (Value F))
  unfolding check_request
  validate_request namespace req is_update w =
      if s.cluster.available w
      then elim (s.name_error req.name) [
        | some _ ↦ (err (invalid (invalid_name req.name)), w)
        | none ↦ elim (Catalog.get s.catalog req.type) [
          | none ↦ (err (invalid (unknown_type req.type)), w)
          | some d ↦
              if d.external
              then check_request namespace req is_update d w
              else (err (invalid (not_declarable req.type)), w)
        ]
      ]
      else (err unavailable, w)

  -- The credentials go to a Secret of ours, if there are any.
  unfoldable pub write_credentials :
      String → String → Dict (Value F) → Dict String → Action W ServiceError (Prepared F)
  unfolding prepared_own
  write_credentials namespace name public secrets =
      if any_entry secrets
      then wrap store_credentials_error
          (Repo.create_or_update_secret s.cluster namespace name secrets)
        >> pure (prepared_own name true (insert value_secret_ref (string name) public))
      else pure (prepared_own name false public)

  -- The credentials of a new connection: a Secret that exists already is only named.
  unfoldable pub prepare_credentials :
      String
      → ConnectionRequest F
      → Dict (Value F)
      → Dict String
      → Action W ServiceError (Prepared F)
  unfolding write_credentials prepared_existing
  prepare_credentials namespace req public secrets =
      if req.existing_secret == ""
      then write_credentials namespace (conventional_secret req.name) public secrets
      else pure (prepared_existing req.existing_secret public)
