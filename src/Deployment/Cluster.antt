-- ===== src/Deployment/Cluster.antt =====
-- What the deployment of services calls: the API server, the schemas of packages and the provisioner of
-- OAuth clients, and internal/repository/service_repository.go over the API server.
use okdp_control_plane_serve.Base.{String, Bool, Option, none, some, List, [], ◌∷◌, if◌then◌else◌}
use okdp_control_plane_serve.Base.Go.{Action, pure, raise, ◌>>=◌}
use okdp_control_plane_serve.Platform.Context.{ContextError}
use okdp_control_plane_serve.Deployment.Model.{Release}

-- The errors of the service operations.
pub data ServiceError : Type 0 where
  api conversion : ServiceError
  name_required : ServiceError
  catalog_unread : ContextError → ServiceError
  not_available : String → ServiceError
  schema_unread : ServiceError → ServiceError
  invalid_parameters : ServiceError
  repository_unresolved suffix_unresolved : ContextError → ServiceError
  not_updated : ServiceError → ServiceError
  catalog_write : ContextError → ServiceError
  catalog_unavailable : ServiceError
  catalog_invalid : String → ServiceError
  exists missing : String → ServiceError

-- A stored Release, and what it converts to, if it does.
pub record StoredRelease : Type 0 where
  pub version : String
  pub release : Option Release

-- The two kinds of objects that a deleted service leaves behind.
pub data Kind : Type 0 where
  pods persistent_volume_claims : Kind

-- The calls of the API server, each with the namespace first. `encodes` says whether a Release can be
-- converted. `list_releases` is given the value of the project label.
pub record Cluster (W : Type 0) : Type 0 where
  pub encodes : Release → Bool
  pub create_release : String → Release → Action W ServiceError (Unit {0})
  pub get_release : String → String → Action W ServiceError StoredRelease
  pub list_releases : String → String → Action W ServiceError (List StoredRelease)
  pub update_release : String → Release → Action W ServiceError (Unit {0})
  pub delete_release : String → String → Action W ServiceError (Unit {0})
  pub list_objects : Kind → String → Action W ServiceError (List String)
  pub delete_object : Kind → String → String → Action W ServiceError (Unit {0})

-- The verdict of the JSON schema library on parameters. A schema that cannot be used is no objection.
pub data Verdict : Type 0 where
  unusable valid invalid : Verdict

unfoldable pub converted : List StoredRelease → List Release
converted [] = []
converted (s ∷ ss) = let rest = converted ss in elim s.release [ none ↦ rest | some r ↦ r ∷ rest ]

module _ {W : Type 0} (c : Cluster W) where
  -- `Create` of the repository.
  unfoldable pub create : String → Release → Action W ServiceError (Unit {0})
  create namespace release =
      if c.encodes release then c.create_release namespace release else raise conversion

  -- `Get`
  unfoldable pub get : String → String → Action W ServiceError Release
  get namespace name = do
    s ← c.get_release namespace name
    elim s.release [ none ↦ raise conversion | some r ↦ pure r ]

  -- `List`: what does not convert is skipped.
  unfoldable pub list : String → String → Action W ServiceError (List Release)
  unfolding converted
  list namespace project = do ss ← c.list_releases namespace project; pure (converted ss)

  -- `Update`: the current version of the object is taken over, whatever the release was read at.
  unfoldable pub update : String → Release → Action W ServiceError (Unit {0})
  update namespace release =
      if c.encodes release
      then (do
        s ← c.get_release namespace release.name
        c.update_release namespace (record release { resource_version = s.version }))
      else raise conversion

  -- `Delete`
  unfoldable pub delete : String → String → Action W ServiceError (Unit {0})
  delete namespace name = c.delete_release namespace name
