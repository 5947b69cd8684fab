-- ===== src/Deployment/Catalog.antt =====
-- The catalogue of services, as the console edits it: `AddPlatformService`, `UpdatePlatformService` and
-- `RemovePlatformService` of internal/service/service_service.go. The regular expression of service
-- names is a parameter.
use okdp_control_plane_serve.Base.{
  String, Bool, Option, none, some, List, [], ◌∷◌, ◌==◌, not, contains, if◌then◌else◌,
}
use okdp_control_plane_serve.Base.Go.{Result, ok, err, Action, pure, raise, ◌>>=◌, ◌>>◌}
use okdp_control_plane_serve.Base.Text.{trim_space}
use okdp_control_plane_serve.Platform.Model.{PlatformService}
use okdp_control_plane_serve.Platform.Context.{ContextError}
use okdp_control_plane_serve.Deployment.Cluster.{
  ServiceError, catalog_unread, catalog_write, catalog_unavailable, catalog_invalid, exists,
  missing,
}
use okdp_control_plane_serve.Deployment.Service.{wrap, service_named}

-- The part of `DefaultServiceService` that the catalogue needs: the Context, its writer, where the
-- schema service is there its listing of the tags of a package, and `serviceNameRe`. `has_writer` says
-- that the writer is not nil.
pub record CatalogAccess (W : Type 0) : Type 0 where
  pub platform_services : Action W ContextError (List PlatformService)
  pub invalidate : W → W
  pub has_writer : Bool
  pub add : PlatformService → Action W ContextError (Unit {0})
  pub update : String → PlatformService → Action W ContextError (Unit {0})
  pub remove : String → Action W ContextError (Unit {0})
  pub package_tags : Option (String → String → Action W ServiceError (List String))
  pub is_service_name : String → Bool

-- The versions that were seen, newest first, where none is blank and none comes twice.
unfoldable pub distinct_versions : List String → List String → Result ServiceError (List String)
distinct_versions seen [] = ok seen
distinct_versions seen (v ∷ vs) =
    let rest = distinct_versions (v ∷ seen) vs in
    if trim_space v == ""
    then err (catalog_invalid "version cannot be empty")
    else if contains seen v
    then err (catalog_invalid "duplicate version")
    else rest

-- The default version that a service ends up with.
unfoldable pub default_in : String → String → List String → Result ServiceError String
default_in default_version first seen =
    if default_version == ""
    then ok first
    else if contains seen default_version
    then ok default_version
    else err (catalog_invalid "default version must be one of the listed versions")

unfoldable pub with_default :
    PlatformService
    → String
    → Result ServiceError (List String)
    → Result ServiceError PlatformService
unfolding default_in
with_default svc first (err e) = err e
with_default svc first (ok seen) = elim (default_in svc.default_version first seen) [
  | err e ↦ err e
  | ok d ↦ ok (record svc { default_version = d })
]

unfoldable pub checked_versions :
    PlatformService → List String → Result ServiceError PlatformService
unfolding distinct_versions with_default
checked_versions svc [] = err (catalog_invalid "at least one version is required")
checked_versions svc (v ∷ vs) = with_default svc v (distinct_versions [] (v ∷ vs))

-- `normalizeAndValidateCatalogService`
unfoldable pub normalize_and_validate_catalog_service :
    (String → Bool) → PlatformService → Result ServiceError PlatformService
unfolding checked_versions
normalize_and_validate_catalog_service is_service_name svc =
    let name = trim_space svc.name in
    let category = trim_space svc.category in
    if name == ""
    then err (catalog_invalid "name is required")
    else if not (is_service_name name)
    then err (catalog_invalid "name must be a lowercase DNS-style identifier")
    else if category == ""
    then err (catalog_invalid "category is required")
    else checked_versions (record svc { name = name; category = category }) svc.versions

-- The versions that are not among the tags.
unfoldable pub missing_versions : List String → List String → List String
missing_versions tags [] = []
missing_versions tags (v ∷ vs) =
    let rest = missing_versions tags vs in if contains tags v then rest else v ∷ rest

module _ {W : Type 0} (c : CatalogAccess W) where
  unfoldable pub verified : List String → Action W ServiceError (Unit {0})
  verified [] = pure tt
  verified (v ∷ vs) = raise (catalog_invalid "version(s) not found in the registry")

  -- `validateVersionsInRegistry`
  unfoldable pub validate_versions_in_registry : PlatformService → Action W ServiceError (Unit {0})
  unfolding verified missing_versions wrap
  validate_versions_in_registry svc = elim c.package_tags [
    | none ↦ pure tt
    | some list ↦ (do
      tags ←
          wrap (λ e. catalog_invalid "could not verify package in the registry")
            (list svc.name svc.repository)
      verified (missing_versions tags svc.versions))
  ]

  -- A change of the catalogue, after which the cached Context is dropped.
  unfoldable pub written :
      {A : Type 0} → Action W ContextError (Unit {0}) → A → Action W ServiceError A
  unfolding wrap
  written write a = do wrap catalog_write write; λ w. (ok a, c.invalidate w)

  -- `findCatalogService`
  unfoldable pub find_catalog_service : String → Action W ServiceError PlatformService
  unfolding wrap service_named
  find_catalog_service name = do
    existing ← wrap catalog_unread c.platform_services
    elim (service_named name existing) [ none ↦ raise (missing name) | some svc ↦ pure svc ]

  unfoldable pub add_checked : PlatformService → Action W ServiceError PlatformService
  unfolding wrap service_named validate_versions_in_registry written
  add_checked svc = do
    existing ← wrap catalog_unread c.platform_services
    elim (service_named svc.name existing) [
      | some s ↦ raise (exists svc.name)
      | none ↦ (do validate_versions_in_registry svc; written (c.add svc) svc)
    ]

  unfoldable pub or_raise :
      {A B : Type 0}
      → Result ServiceError A
      → (A → Action W ServiceError B)
      → Action W ServiceError B
  or_raise (err e) f = raise e
  or_raise (ok a) f = f a

  -- `AddPlatformService`
  unfoldable pub add_platform_service : PlatformService → Action W ServiceError PlatformService
  unfolding normalize_and_validate_catalog_service or_raise add_checked
  add_platform_service svc =
      if c.has_writer
      then or_raise (normalize_and_validate_catalog_service c.is_service_name svc) add_checked
      else raise catalog_unavailable

  unfoldable pub update_checked : String → PlatformService → Action W ServiceError PlatformService
  unfolding find_catalog_service validate_versions_in_registry written
  update_checked name svc = do
    find_catalog_service name
    validate_versions_in_registry svc
    written (c.update name svc) svc

  -- `UpdatePlatformService`
  unfoldable pub update_platform_service :
      String → PlatformService → Action W ServiceError PlatformService
  unfolding normalize_and_validate_catalog_service or_raise update_checked
  update_platform_service name svc =
      if c.has_writer
      then or_raise
          (normalize_and_validate_catalog_service c.is_service_name (record svc { name = name }))
          (update_checked name)
      else raise catalog_unavailable

  -- `RemovePlatformService`
  unfoldable pub remove_platform_service : String → Action W ServiceError (Unit {0})
  unfolding find_catalog_service written
  remove_platform_service name =
      if c.has_writer
      then (do find_catalog_service name; written (c.remove name) tt)
      else raise catalog_unavailable
