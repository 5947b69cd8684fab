-- ===== src/Deployment/Service.antt =====
-- Deploying, changing and deleting a service: internal/service/service_service.go. The Context, the
-- schemas and the OAuth clients are used through interfaces.
use Prim.Native.String.{◌++◌}
use okdp_control_plane_serve.Base.{
  String, false, Option, none, some, List, [], ◌∷◌, ◌==◌, if◌then◌else◌,
}
use okdp_control_plane_serve.Base.Go.{Result, ok, err, Action, pure, raise, try, ◌>>=◌, ◌>>◌}
use okdp_control_plane_serve.Base.Dict.{insert}
use okdp_control_plane_serve.Base.Json.{Json}
use okdp_control_plane_serve.Platform.Model.{PlatformService}
use okdp_control_plane_serve.Platform.Context.{ContextError}
use okdp_control_plane_serve.Deployment.Model.{
  Parameters, Release, ServiceRequest, ServiceUpdateRequest, ServiceInstance,
}
use okdp_control_plane_serve.Deployment.Names.{owns_by_name, insecure_oci_host}
use okdp_control_plane_serve.Deployment.Instance.{release_to_instance}
use okdp_control_plane_serve.Deployment.Cluster as Cluster
use okdp_control_plane_serve.Deployment.Cluster.{
  ServiceError, api, name_required, catalog_unread, not_available, schema_unread,
  invalid_parameters, repository_unresolved, suffix_unresolved, not_updated, StoredRelease, Kind,
  pods, persistent_volume_claims, Cluster, Verdict, unusable, valid, invalid,
}

-- The part of `ContextRepository` that the services use.
pub record Contexts (W : Type 0) : Type 0 where
  pub platform_services : Action W ContextError (List PlatformService)
  pub package_repository : Action W ContextError String
  pub ingress_suffix : Action W ContextError String

-- `DefaultServiceService`. The provisioner's `DeleteClient`, the fetch of a schema, where there is a
-- schema service, and the verdict of the schema library are parameters.
pub record Services (W : Type 0) : Type 0 where
  pub cluster : Cluster W
  pub contexts : Contexts W
  pub delete_client : String → Action W ServiceError (Unit {0})
  pub parameter_schema : Option (String → String → Action W ServiceError Json)
  pub verdict : Json → Option Parameters → Verdict
  pub release_interval : String
  pub release_timeout : String
  pub insecure_registries : List String

-- A call whose error is wrapped: `return fmt.Errorf("…: %w", err)`.
unfoldable pub wrap : {W D E A : Type 0} → (D → E) → Action W D A → Action W E A
wrap f m = try m (λ r. elim r [ ok a ↦ pure a | err e ↦ raise (f e) ])

-- The text of a request, or another one where it is empty.
unfoldable pub or_else : String → String → String
or_else s other = if s == "" then other else s

unfoldable pub release_name_of : String → String → String
release_name_of project name = project ++ "-" ++ name

-- The loop of `resolvePlatformService`.
unfoldable pub service_named : String → List PlatformService → Option PlatformService
service_named name [] = none
service_named name (s ∷ ss) =
    let rest = service_named name ss in if s.name == name then some s else rest

-- The parameters of a request, entered one by one.
unfoldable pub merged : Parameters → Parameters → Parameters
merged old [] = old
merged old ((k, v) ∷ more) = merged (insert k v old) more

-- The names of the releases but one, as `cleanupUserResources` collects them.
unfoldable pub neighbours : String → List Release → List String
neighbours name [] = []
neighbours name (r ∷ rs) =
    let rest = neighbours name rs in if r.name == name then rest else r.name ∷ rest

module _ {W : Type 0} (s : Services W) where
  -- The Release of `DeployService`.
  unfoldable pub new_release : String → ServiceRequest → PlatformService → String → Release
  unfolding or_else release_name_of
  new_release project req svc package_repository =
      let instance_name = or_else req.instance_name req.service in
      let repository = or_else svc.repository package_repository in
      record {
        name = release_name_of project instance_name;
        namespace = project;
        uid = "";
        resource_version = "";
        labels =
            ("okdp.io/project", project)
            ∷ ("okdp.io/service", req.service)
            ∷ ("okdp.io/instance-name", instance_name)
            ∷ [];
        created_at = "";
        spec = record {
          description = req.service ++ " for project " ++ project;
          release_package = record {
            repository = repository ++ "/" ++ req.service;
            tag = or_else req.tag svc.default_version;
            interval = s.release_interval;
            timeout = s.release_timeout;
            insecure = insecure_oci_host repository s.insecure_registries;
          };
          parameters = req.parameters;
          contexts = [];
          target_namespace = project;
          create_namespace = false;
        };
        status = record { phase = ""; roles = []; watched = []; effective = [] };
      }

  unfoldable pub judged : Verdict → Action W ServiceError (Unit {0})
  judged invalid = raise invalid_parameters
  judged _ = pure tt

  -- `validateParameters`
  unfoldable pub validate_parameters :
      String → String → Option Parameters → Action W ServiceError (Unit {0})
  unfolding judged wrap
  validate_parameters service tag parameters = elim s.parameter_schema [
    | none ↦ pure tt
    | some fetch ↦ (do
      schema ← wrap schema_unread (fetch service tag)
      judged (s.verdict schema parameters))
  ]

  unfoldable pub found_or : String → Option PlatformService → Action W ServiceError PlatformService
  found_or name none = raise (not_available name)
  found_or name (some svc) = pure svc

  -- `resolvePlatformService`
  unfoldable pub resolve_platform_service : String → Action W ServiceError PlatformService
  unfolding wrap service_named found_or
  resolve_platform_service name = do
    services ← wrap catalog_unread s.contexts.platform_services
    found_or name (service_named name services)

  unfoldable pub deploy_release : Release → String → Action W ServiceError ServiceInstance
  deploy_release release suffix = do
    Cluster.create s.cluster release.namespace release
    pure
        (record (release_to_instance release) { url = "https://" ++ release.name ++ "." ++ suffix })

  -- `DeployService`
  unfoldable pub deploy_service : String → ServiceRequest → Action W ServiceError ServiceInstance
  unfolding resolve_platform_service validate_parameters new_release deploy_release or_else wrap
  deploy_service project req = if req.service == "" then raise name_required else (do
    svc ← resolve_platform_service req.service
    validate_parameters req.service (or_else req.tag svc.default_version) req.parameters
    package_repository ← wrap repository_unresolved s.contexts.package_repository
    suffix ← wrap suffix_unresolved s.contexts.ingress_suffix
    deploy_release (new_release project req svc package_repository) suffix)

  -- The loop of `cleanupUserResources` over the objects of one kind. What cannot be deleted is passed by.
  unfoldable pub delete_owned :
      Kind → String → String → List String → List String → Action W ServiceError (Unit {0})
  delete_owned kind namespace release_name others [] = pure tt
  delete_owned kind namespace release_name others (o ∷ os) =
      let rest = delete_owned kind namespace release_name others os in
      if owns_by_name o release_name others
      then try (s.cluster.delete_object kind namespace o) (λ _. rest)
      else rest

  unfoldable pub cleanup_listed :
      Kind
      → String
      → String
      → List String
      → Result ServiceError (List String)
      → Action W ServiceError (Unit {0})
  unfolding delete_owned
  cleanup_listed kind namespace release_name others (err e) = pure tt
  cleanup_listed kind namespace release_name others (ok os) =
      delete_owned kind namespace release_name others os

  unfoldable pub cleanup_kind :
      Kind → String → String → List String → Action W ServiceError (Unit {0})
  unfolding cleanup_listed
  cleanup_kind kind namespace release_name others =
      try (s.cluster.list_objects kind namespace)
        (cleanup_listed kind namespace release_name others)

  unfoldable pub cleanup_with :
      String → String → Result ServiceError (List Release) → Action W ServiceError (Unit {0})
  unfolding cleanup_kind neighbours
  cleanup_with namespace release_name (err e) = pure tt
  cleanup_with namespace release_name (ok survivors) =
      let others = neighbours release_name survivors in
      cleanup_kind pods namespace release_name others
      >> cleanup_kind persistent_volume_claims namespace release_name others

  -- `cleanupUserResources`
  unfoldable pub cleanup_user_resources : String → String → Action W ServiceError (Unit {0})
  unfolding cleanup_with
  cleanup_user_resources namespace release_name =
      try (Cluster.list s.cluster namespace namespace) (cleanup_with namespace release_name)

  -- `DeleteService`. `cleanupOidcClient` only logs the error of the provisioner.
  unfoldable pub delete_service : String → String → Action W ServiceError (Unit {0})
  unfolding cleanup_user_resources release_name_of
  delete_service project name =
      let release_name = release_name_of project name in
      Cluster.delete s.cluster project release_name
      >> try (s.delete_client release_name) (λ _. cleanup_user_resources project release_name)

  -- The Release with the tag and the parameters of the request.
  unfoldable pub changed : ServiceUpdateRequest → Release → Release
  unfolding or_else merged
  changed req r = record r {
    spec = record r.spec {
      release_package = record r.spec.release_package {
        tag = or_else req.tag r.spec.release_package.tag;
      };
      parameters = elim req.parameters [
        | none ↦ r.spec.parameters
        | some more ↦ some (merged (elim r.spec.parameters [ none ↦ [] | some old ↦ old ]) more)
      ];
    };
  }
