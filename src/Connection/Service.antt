-- ===== src/Connection/Service.antt =====
-- The write operations on connections, and their list: `Create`, `Update`, `Delete` and `List` of
-- internal/service/connection_service.go. What is only logged is left out.
pub mod Safety
pub mod Create
pub mod Delete
pub mod Update
pub mod Stored
use Prim.Native.String
use okdp_control_plane_serve.Base.{
  String, Bool, true, false, Option, none, some, List, [], ◌∷◌, ◌==◌, if◌then◌else◌, ◌&&◌, ◌||◌,
  not, filter_by, map,
}
use okdp_control_plane_serve.Base.Dict.{Dict, lookup, insert}
use okdp_control_plane_serve.Base.Go.{
  Result, ok, err, Action, pure, raise, try, ◌>>=◌, ◌>>◌, sort_by,
}
use okdp_control_plane_serve.Base.Text.{cut, format_bool}
use okdp_control_plane_serve.Connection.Model.{Value, string, ContractDescriptor, secret_fields}
use okdp_control_plane_serve.Connection.Catalog as Catalog
use okdp_control_plane_serve.Connection.Repository as Repo
use okdp_control_plane_serve.Connection.Repository.{
  RepoError, Connection, is_managed, label_managed_by, managed_by_value, text_at,
}
use okdp_control_plane_serve.Connection.Credentials.{
  annotation_credentials_secret, annotation_credentials_owned, value_secret_ref,
  conventional_secret, managed_edit, managed_delete, ServiceError, unavailable, invalid, name_taken,
  repo, ConnectionRequest, ConnectionService, is_not_found, is_already_exists,
  store_credentials_error, credentials_owned, credentials_secret_of, with_credentials_secret,
  split_values,
}
use okdp_control_plane_serve.Connection.Requests.{
  Prepared, any_entry, wrap, validate_request, prepare_credentials,
}
use okdp_control_plane_serve.Connection.Submitted.{
  CredentialsSecretRef, ConnectionResponse, new_connection, secret_ref_of, Edit, point_elsewhere,
  carry_over, edited, reference,
}

module _ {F W : Type 0} (s : ConnectionService F W) where
  -- `toResponse`
  unfoldable pub to_response : Connection F → String → ConnectionResponse F
  unfolding secret_ref_of
  to_response connection namespace =
      let fields = elim (Catalog.get s.catalog connection.spec.contract) as (λ _. List String) [
        | none ↦ []
        | some d ↦ secret_fields d
      ] in
      record {
        name = connection.name;
        type = connection.spec.contract;
        scope = "project";
        namespace = namespace;
        description = connection.spec.description;
        status = connection.status.phase;
        message = connection.status.message;
        values = connection.spec.values;
        secret_fields = fields;
        credentials_secret = secret_ref_of connection fields;
        created_at = connection.creation_timestamp;
      }

  -- `List`: the connections that users declared, by name.
  unfoldable pub list : String → Action W ServiceError (List (ConnectionResponse F))
  unfolding to_response
  list namespace w =
      if s.cluster.available w
      then (do
        connections ← wrap repo (Repo.list s.cluster namespace)
        pure (
            sort_by (λ (r : ConnectionResponse F). r.name)
              (map (λ c. to_response c namespace)
                (filter_by (λ (c : Connection F). not (is_managed c)) connections))))
          w
      else (ok [], w)

  -- The Secret of a connection that was refused is removed, if it is ours; a failure to remove it is
  -- only logged.
  unfoldable pub roll_back :
      String → Prepared F → RepoError → Action W ServiceError (ConnectionResponse F)
  unfolding is_already_exists
  roll_back namespace p e =
      if p.own_secret && p.has_secrets && not (is_already_exists e)
      then try (Repo.delete_secret s.cluster namespace p.secret_name) (λ _. raise (repo e))
      else raise (repo e)

  -- What `Create` does with the outcome of `repo.Create`.
  unfoldable pub submitted :
      String
      → Prepared F
      → Connection F
      → Result RepoError (Unit {0})
      → Action W ServiceError (ConnectionResponse F)
  unfolding roll_back to_response
  submitted namespace p connection (ok _) = pure (to_response connection namespace)
  submitted namespace p connection (err e) = roll_back namespace p e

  unfoldable pub submit :
      String → Prepared F → Connection F → Action W ServiceError (ConnectionResponse F)
  unfolding submitted
  submit namespace p connection =
      try (Repo.create s.cluster namespace connection) (submitted namespace p connection)

  -- `Create` once the name is known to be free.
  unfoldable pub create_free :
      String
      → ConnectionRequest F
      → ContractDescriptor F
      → Dict (Value F)
      → Action W ServiceError (ConnectionResponse F)
  unfolding prepare_credentials new_connection submit
  create_free namespace req d values = do
    let (public, secrets) = split_values d values
    p ← prepare_credentials s namespace req public secrets
    submit namespace p (new_connection namespace req d p)

  -- `Create` once the name was looked up.
  unfoldable pub create_named :
      String
      → ConnectionRequest F
      → ContractDescriptor F
      → Dict (Value F)
      → Result RepoError (Connection F)
      → Action W ServiceError (ConnectionResponse F)
  unfolding create_free is_not_found
  create_named namespace req d values (ok _) = raise (name_taken req.name)
  create_named namespace req d values (err e) =
      if is_not_found e then create_free namespace req d values else raise (repo e)

  -- `Create` of a valid request.
  unfoldable pub create_valid :
      String
      → ConnectionRequest F
      → ContractDescriptor F
      → Dict (Value F)
      → Action W ServiceError (ConnectionResponse F)
  unfolding create_named
  create_valid namespace req d values =
      try (Repo.get s.cluster namespace req.name) (create_named namespace req d values)

  unfoldable pub create :
      String → ConnectionRequest F → Action W ServiceError (ConnectionResponse F)
  unfolding validate_request create_valid
  create namespace req = do
    (d, values) ← validate_request s namespace req false
    create_valid namespace req d values

  -- New credentials of an edit go to a Secret of ours.
  unfoldable pub store_credentials :
      String
      → ConnectionRequest F
      → Connection F
      → Dict (Value F)
      → Dict String
      → Action W ServiceError (Edit F)
  unfolding with_credentials_secret
  store_credentials namespace req existing public secrets = do
    let name = conventional_secret req.name
    wrap store_credentials_error (Repo.create_or_update_secret s.cluster namespace name secrets)
    pure (record {
      annotations = with_credentials_secret existing.annotations (reference namespace name) true;
      values = insert value_secret_ref (string name) public;
      orphaned = "";
    })

  -- The three ways in which an edit treats the credentials.
  unfoldable pub prepare_edit :
      String
      → ConnectionRequest F
      → Connection F
      → Dict (Value F)
      → Dict String
      → Action W ServiceError (Edit F)
  unfolding point_elsewhere store_credentials carry_over
  prepare_edit namespace req existing public secrets =
      if req.existing_secret == ""
      then if any_entry secrets
        then store_credentials namespace req existing public secrets
        else pure (carry_over existing public)
      else pure (point_elsewhere namespace req existing public)

  -- The Secret that an edit left behind is removed; a failure is only logged.
  unfoldable pub drop_orphan : String → String → Action W ServiceError (Unit {0})
  drop_orphan namespace orphaned =
      if orphaned == ""
      then pure tt
      else try (Repo.delete_secret s.cluster namespace orphaned) (λ _. pure tt)

  -- `Update` of a connection that was found and is not managed.
  unfoldable pub update_existing :
      String
      → ConnectionRequest F
      → ContractDescriptor F
      → Dict (Value F)
      → Connection F
      → Action W ServiceError (ConnectionResponse F)
  unfolding prepare_edit edited drop_orphan to_response
  update_existing namespace req d values existing = do
    let (public, secrets) = split_values d values
    e ← prepare_edit namespace req existing public secrets
    let connection = edited req d existing e
    wrap repo (Repo.update s.cluster namespace connection)
    drop_orphan namespace e.orphaned
    pure (to_response connection namespace)

  unfoldable pub update :
      String → String → ConnectionRequest F → Action W ServiceError (ConnectionResponse F)
  unfolding validate_request update_existing is_managed
  update namespace name request = do
    let req = record request { name = name }
    (d, values) ← validate_request s namespace req true
    existing ← wrap repo (Repo.get s.cluster namespace name)
    if is_managed existing
        then raise (invalid (managed_edit name))
        else update_existing namespace req d values existing

  -- The Secret of a connection that is gone is removed if it is ours; a failure is only logged.
  unfoldable pub drop_credentials :
      String → String → Connection F → Action W ServiceError (Unit {0})
  unfolding credentials_secret_of
  drop_credentials namespace name existing =
      let (secret_name, owned) = credentials_secret_of existing name in
      if owned
      then try (Repo.delete_secret s.cluster namespace secret_name) (λ _. pure tt)
      else pure tt

  -- `Delete` of a connection that was found and is not managed.
  unfoldable pub remove : String → String → Connection F → Action W ServiceError (Unit {0})
  unfolding drop_credentials
  remove namespace name existing = do
    wrap repo (Repo.delete s.cluster namespace name)
    drop_credentials namespace name existing

  unfoldable pub delete : String → String → Action W ServiceError (Unit {0})
  unfolding remove is_managed
  delete namespace name w =
      if s.cluster.available w
      then (do
        existing ← wrap repo (Repo.get s.cluster namespace name)
        if is_managed existing
            then raise (invalid (managed_delete name))
            else remove namespace name existing)
          w
      else (err unavailable, w)
