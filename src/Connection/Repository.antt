-- ===== src/Connection/Repository.antt =====
-- Access to the connection CRDs and to the Secrets that hold credentials:
-- internal/repository/connection_repository.go. The Kubernetes API is a parameter, `Kube`: its calls
-- act on a world `W`, of which `connection_at` and `secret_at` say what is stored. An empty
-- namespace addresses the cluster-wide scope, as in `resource`.
pub mod Assumptions
pub mod Relations
pub mod Laws
use okdp_control_plane_serve.Base.{
  String, Bool, true, false, Option, none, some, List, [], ◌∷◌, ◌≡◌, ◌==◌, if◌then◌else◌, map, ◌&&◌,
}
use okdp_control_plane_serve.Base.Dict.{Dict, lookup, insert}
use okdp_control_plane_serve.Base.Go.{
  Result, ok, err, Action, pure, raise, try, ◌>>=◌, ◌>>◌, sort_by,
}
use okdp_control_plane_serve.Connection.Model.{Value}

-- `crd.ConnectionSpec`, less the priority, which the server neither reads nor sets. A nil map of
-- values is an empty one.
pub record ConnectionSpec (F : Type 0) : Type 0 where
  pub contract : String
  pub values : Dict (Value F)
  pub output_name : String
  pub description : String

-- `crd.ConnectionStatus`
pub record ConnectionStatus : Type 0 where
  pub phase : String
  pub parent : String
  pub message : String
  pub contract_kind : String
  pub contract_display : String

-- `crd.Connection` with the metadata that the server reads or writes.
pub record Connection (F : Type 0) : Type 0 where
  pub api_version : String
  pub kind : String
  pub name : String
  pub namespace : String
  pub resource_version : String
  pub creation_timestamp : String
  pub labels : Dict String
  pub annotations : Dict String
  pub spec : ConnectionSpec F
  pub status : ConnectionStatus

-- `corev1.Secret`, less what the server does not look at.
pub record Secret : Type 0 where
  pub name : String
  pub namespace : String
  pub resource_version : String
  pub labels : Dict String
  pub contents : Dict String

-- `Connection.IsManaged`
unfoldable pub is_managed : {F : Type 0} → Connection F → Bool
is_managed c = if c.spec.output_name == "" then false else true

abbrev pub label_managed_by : String
label_managed_by = "app.kubernetes.io/managed-by"

abbrev pub managed_by_value : String
managed_by_value = "okdp-control-plane"

abbrev pub connection_api_version : String
connection_api_version = "kubocd.kubotal.io/v1alpha1"

-- `k8sConnectionRepository.kind`
unfoldable pub kind : String → String
kind namespace = if namespace == "" then "ClusterConnection" else "Connection"

-- `m[k]` on a map of texts: the empty text where the key is missing.
unfoldable pub text_at : String → Dict String → String
text_at k m = elim (lookup k m) [ none ↦ "" | some v ↦ v ]

-- The answers of the API that the code tells apart.
pub data KubeError : Type 0 where
  not_found already_exists : KubeError
  failed : String → KubeError

pub data RepoError : Type 0 where
  kube : KubeError → RepoError
  conversion namespace_required : RepoError
  foreign_secret : String → String → RepoError

-- An unstructured object: its resource version, and the connection that it converts to, if it does.
pub record Item (F : Type 0) : Type 0 where
  pub version : String
  pub object : Option (Connection F)

-- The calls of client-go. `encodes` says whether a connection can be converted to unstructured.
-- `available` is the answer of `APIProbe.Available`.
pub record Kube (F W : Type 0) : Type 0 where
  pub available : W → Bool
  pub encodes : Connection F → Bool
  pub list_connections : String → Action W KubeError (List (Item F))
  pub get_connection : String → String → Action W KubeError (Item F)
  pub create_connection : String → Connection F → Action W KubeError (Unit {0})
  pub update_connection : String → Connection F → Action W KubeError (Unit {0})
  pub delete_connection : String → String → Action W KubeError (Unit {0})
  pub get_secret : String → String → Action W KubeError Secret
  pub create_secret : String → Secret → Action W KubeError (Unit {0})
  pub update_secret : String → Secret → Action W KubeError (Unit {0})
  pub delete_secret : String → String → Action W KubeError (Unit {0})
  pub connection_at : W → String → String → Option (Connection F)
  pub secret_at : W → String → String → Option Secret

-- What a Secret exposes to the checks: `SecretContent`.
pub record SecretContent : Type 0 where
  pub keys : List String
  pub managed : Bool

-- `secret.Labels[crd.LabelManagedBy] == crd.ManagedByValue`
unfoldable pub is_ours : Secret → Bool
unfolding text_at
is_ours s = text_at label_managed_by s.labels == managed_by_value

unfoldable pub keys_of : Dict String → List String
keys_of [] = []
keys_of ((k, _) ∷ m) = k ∷ keys_of m

-- The second loop of the merge: the new entries written over the old ones.
unfoldable pub merge : Dict String → Dict String → Dict String
merge existing [] = existing
merge existing ((key, value) ∷ entries) = merge (insert key value existing) entries

-- The Secret that `CreateOrUpdateSecret` writes.
unfoldable pub our_secret : String → String → Dict String → Secret
our_secret namespace name entries = record {
  name = name;
  namespace = namespace;
  resource_version = "";
  labels = (label_managed_by, managed_by_value) ∷ [];
  contents = entries;
}

-- The Secret that it writes over one of ours: the new entries merged into the old ones.
unfoldable pub merged_secret : String → String → Dict String → Secret → Secret
unfolding our_secret merge
merged_secret namespace name entries existing = record (our_secret namespace name entries) {
  contents = merge existing.contents entries;
  resource_version = existing.resource_version;
}

module _ {W A : Type 0} where
  -- An error of the API handed on as it is.
  abbrev pub lift : Action W KubeError A → Action W RepoError A
  lift m = try m (λ r. elim r [ ok a ↦ pure a | err e ↦ raise (kube e) ])

module _ {F : Type 0} where
  unfoldable pub converted : List (Item F) → List (Connection F)
  converted [] = []
  converted (item ∷ items) =
      let rest = converted items in elim item.object [ none ↦ rest | some c ↦ c ∷ rest ]

module _ {F : Type 0} where
  -- The API version and the kind that `Create` and `Update` set.
  unfoldable pub stamped : String → Connection F → Connection F
  unfolding kind
  stamped namespace connection = record connection {
    api_version = connection_api_version;
    kind = kind namespace;
  }

  -- `connection.ResourceVersion = version`
  unfoldable pub versioned : String → Connection F → Connection F
  versioned version connection = record connection { resource_version = version }

module _ {F W : Type 0} (k : Kube F W) where
  -- `List`: what cannot be converted is skipped.
  unfoldable pub list : String → Action W RepoError (List (Connection F))
  list namespace = do items ← lift (k.list_connections namespace); pure (converted items)

  unfoldable pub get : String → String → Action W RepoError (Connection F)
  get namespace name = do
    item ← lift (k.get_connection namespace name)
    elim item.object [ none ↦ raise conversion | some c ↦ pure c ]

  unfoldable pub create : String → Connection F → Action W RepoError (Unit {0})
  create namespace connection =
      let c = stamped namespace connection in
      if k.encodes c then lift (k.create_connection namespace c) else raise conversion

  -- `Update` once the stored object was read.
  unfoldable pub update_read :
      String → Connection F → Result KubeError (Item F) → Action W RepoError (Unit {0})
  update_read namespace connection (err e) = raise (kube e)
  update_read namespace connection (ok existing) =
      let c = versioned existing.version (stamped namespace connection) in
      if k.encodes c then lift (k.update_connection namespace c) else raise conversion

  unfoldable pub update : String → Connection F → Action W RepoError (Unit {0})
  unfolding update_read
  update namespace connection =
      try (k.get_connection namespace connection.name) (update_read namespace connection)

  unfoldable pub delete : String → String → Action W RepoError (Unit {0})
  delete namespace name = lift (k.delete_connection namespace name)

  -- `InspectSecret`; a Secret that does not exist is `none`.
  unfoldable pub inspect_secret : String → String → Action W RepoError (Option SecretContent)
  unfolding is_ours keys_of
  inspect_secret namespace name =
      if namespace == ""
      then raise namespace_required
      else try (k.get_secret namespace name) (λ r. elim r [
        | err not_found ↦ pure none
        | err e ↦ raise (kube e)
        | ok secret ↦ pure (
            some (record {
              keys = sort_by (λ (key : String). key) (keys_of secret.contents);
              managed = is_ours secret;
            }))
      ])

  -- The part of `CreateOrUpdateSecret` after the Secret was found.
  unfoldable pub update_existing :
      String → String → Dict String → Secret → Action W RepoError (Unit {0})
  unfolding is_ours merged_secret
  update_existing namespace name entries existing =
      if is_ours existing
      then lift (k.update_secret namespace (merged_secret namespace name entries existing))
      else raise (foreign_secret name namespace)

  -- `CreateOrUpdateSecret` once the Secret was looked up.
  unfoldable pub write_secret :
      String → String → Dict String → Result KubeError Secret → Action W RepoError (Unit {0})
  unfolding update_existing our_secret
  write_secret namespace name entries (ok existing) =
      update_existing namespace name entries existing
  write_secret namespace name entries (err not_found) =
      lift (k.create_secret namespace (our_secret namespace name entries))
  write_secret namespace name entries (err e) = raise (kube e)

  unfoldable pub create_or_update_secret :
      String → String → Dict String → Action W RepoError (Unit {0})
  unfolding write_secret
  create_or_update_secret namespace name entries =
      if namespace == ""
      then raise namespace_required
      else try (k.get_secret namespace name) (write_secret namespace name entries)

  -- `DeleteSecret`: a Secret that is not there is deleted already.
  unfoldable pub delete_secret : String → String → Action W RepoError (Unit {0})
  delete_secret namespace name =
      try (k.delete_secret namespace name)
        (λ r. elim r [ ok _ ↦ pure tt | err not_found ↦ pure tt | err e ↦ raise (kube e) ])
