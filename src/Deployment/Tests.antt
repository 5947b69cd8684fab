-- ===== src/Deployment/Tests.antt =====
-- The theorems on deployed services at concrete inputs: a cluster with two releases, of which one has
-- the longer name, and the volumes of both.
mod Exposed
use Prim.Native.String.{◌++◌}
use mathlib.Core.Path.{subst}
use mathlib.Core.Option.{some-injective}
use okdp_control_plane_serve.Base.{
  String, true, false, Option, none, some, List, [], ◌∷◌, ◌≡◌, refl, ap, ◌≢◌, ◌==◌, ◌||◌, contains,
  arith, true_ne_false, All, filter_by, not, eq_iff,
}
use mathlib.Core.List.{Mem, Perm}
use okdp_control_plane_serve.Base.Distinct.{Distinct}
use okdp_control_plane_serve.Base.Go.{Result, ok, err, Action}
use okdp_control_plane_serve.Base.Sorting.{SortedBy}
use okdp_control_plane_serve.Base.Text.{trim_space}
use okdp_control_plane_serve.Base.Json.{Json, Fields, get, items, of_list, text_of, put}
use okdp_control_plane_serve.Platform.Model.{PlatformService}
use okdp_control_plane_serve.Platform.Tests.{
  trino, flat, version_of, flat_laws, server, versions, server_laws, once, once_law, empty_cache,
}
use okdp_control_plane_serve.Platform.Context.{Unstructured, Cached, get_context}
use okdp_control_plane_serve.Platform.Reading.{services_in, get_platform_services}
use okdp_control_plane_serve.Platform.Sections.{platform_services_of, maps_of}
use okdp_control_plane_serve.Platform.Writer as Writer
use okdp_control_plane_serve.Platform.Atomic.{Extends}
use okdp_control_plane_serve.Deployment.Console.{
  on_world, console, TagsGrow, ReadsSince, add_platform_service_reads,
}
use okdp_control_plane_serve.Platform.Refinement.{Storable, stored_form}
use okdp_control_plane_serve.Deployment.Model.{
  Release, ServiceRequest, ServiceConnection, ServiceInstance, Defaulted,
}
use okdp_control_plane_serve.Deployment.Names.{owns_by_name}
use okdp_control_plane_serve.Deployment.Ownership.{owns_by_name_unique}
use okdp_control_plane_serve.Deployment.Instance.{release_to_instance, bound_connections}
use okdp_control_plane_serve.Deployment.Cluster as Cluster
use okdp_control_plane_serve.Deployment.Cluster.{
  ServiceError, api, StoredRelease, Kind, Cluster, valid, converted,
}
use okdp_control_plane_serve.Deployment.Service.{
  Services, or_else, new_release, validate_parameters, deploy_service, neighbours, release_name_of,
  cleanup_user_resources, delete_service,
}
use okdp_control_plane_serve.Deployment.Cleanup.{
  ObjectLaws, SafeBy, before_cleanup, cleanup_user_resources-Keeps, delete_service-Keeps_neighbour,
}
use okdp_control_plane_serve.Deployment.Deploy.{Requested, Calls, deploy_service-Created}
use okdp_control_plane_serve.Deployment.Bindings.{shown_names, ref_names, bound_connections_lem}
use okdp_control_plane_serve.Deployment.Catalog.{
  add_platform_service, normalize_and_validate_catalog_service,
}
use okdp_control_plane_serve.Deployment.Accepted.{
  Accepted, DefaultOf, tidied, normalize_and_validate_catalog_service-Accepted,
}

abbrev named_release : String → Release
named_release name = record {
  name = name;
  namespace = "demo";
  uid = "";
  resource_version = "";
  labels = [];
  created_at = "";
  spec = record {
    description = "";
    release_package = record {
      repository = "";
      tag = "";
      interval = "";
      timeout = "";
      insecure = false;
    };
    parameters = none;
    contexts = [];
    target_namespace = "demo";
    create_namespace = false;
  };
  status = record {
    phase = "READY";
    roles = [];
    watched =
        record { kind = "Connection"; name = "db"; namespace = "demo" }
        ∷ record { kind = "ClusterConnection"; name = "db"; namespace = "" }
        ∷ record { kind = "Connection"; name = "bus"; namespace = "demo" }
        ∷ [];
    effective = record { kind = "Connection"; name = "db"; namespace = "demo" } ∷ [];
  };
}

-- The names of the objects that there are, whatever their kind and namespace.
abbrev World : Type 0
World = List String

unfoldable services : Services World
services = record {
  cluster = record {
    encodes = λ r. true;
    create_release = λ ns r w. (ok tt, w);
    get_release = λ ns n w. (err api, w);
    list_releases = λ ns p w.
        (ok (record { version = "1"; release = some (named_release "demo-jupyter-ds") } ∷ []), w);
    update_release = λ ns r w. (err api, w);
    delete_release = λ ns n w. (ok tt, w);
    list_objects = λ k ns w. (ok w, w);
    delete_object = λ k ns n w. (ok tt, filter_by (λ o. not (o == n)) w);
  };
  contexts = record {
    platform_services = λ w. (ok (trino ∷ []), w);
    package_repository = λ w. (ok "registry.local/packages", w);
    ingress_suffix = λ w. (ok "example.org", w);
  };
  delete_client = λ n w. (err api, w);
  parameter_schema = none;
  verdict = λ schema p. valid;
  release_interval = "10m";
  release_timeout = "5m";
  insecure_registries = "registry.local" ∷ [];
}

abbrev Has : World → Kind → String → String → Type 0
Has w k ns n = contains w n ≡ true

kept_in :
    (o n : String) (w : World)
    → o ≢ n
    → contains w n ≡ true
    → contains (filter_by (λ x. not (x == o)) w) n ≡ true
kept_in o n [] ne h = h
kept_in o n (x ∷ w) ne h =
    let rest = kept_in o n w ne in ground (arith, eq_iff x o, eq_iff x n, rest)

object_laws : ObjectLaws services Has
unfolding services
object_laws = record {
  list_objects = λ k ns w k' ns' n h. h;
  list_releases = λ ns p w k ns' n h. h;
  delete_release = λ ns m w k ns' n h. h;
  delete_client = λ m w k ns n h. h;
  delete_object = λ k ns o w k' ns' n ne h. kept_in o n w ne h;
}

unlike : ◌≢◌ {A = String} "demo-jupyter" "demo-jupyter-ds"
unlike e = true_ne_false (ap (λ (s : String). s == "demo-jupyter") e)

owns_by_name_unique_example :
    owns_by_name "demo-jupyter-ds-claim-bob" "demo-jupyter" ("demo-jupyter-ds" ∷ []) ≡ false
unfolding owns_by_name
owns_by_name_unique_example =
    owns_by_name_unique "demo-jupyter-ds-claim-bob" "demo-jupyter" "demo-jupyter-ds"
      ("demo-jupyter-ds" ∷ []) ("demo-jupyter" ∷ []) refl refl unlike refl

abbrev volumes : World
volumes = "demo-jupyter-claim-alice" ∷ "demo-jupyter-ds-claim-bob" ∷ []

not_owned :
    SafeBy services Has object_laws "demo-jupyter"
      (Cluster.list services.cluster "demo" "demo" volumes).0
      "demo-jupyter-ds-claim-bob"
unfolding services Cluster.list converted neighbours owns_by_name
not_owned = refl

cleanup_user_resources-Keeps_example :
    Has
      (cleanup_user_resources services "demo" "demo-jupyter" volumes).1
      Kind.persistent_volume_claims
      "demo"
      "demo-jupyter-ds-claim-bob"
cleanup_user_resources-Keeps_example =
    cleanup_user_resources-Keeps services Has object_laws "demo" "demo-jupyter" volumes
      Kind.persistent_volume_claims "demo" "demo-jupyter-ds-claim-bob" not_owned refl

different : ◌≢◌ {A = String} (release_name_of "demo" "jupyter") "demo-jupyter-ds"
unfolding release_name_of
different e = true_ne_false (ap (λ (s : String). s == "demo-jupyter") e)

ok_inj : {u v : List Release} → ◌≡◌ {A = Result ServiceError (List Release)} (ok u) (ok v) → u ≡ v
ok_inj e = cc

listed :
    (survivors : List Release)
    → (Cluster.list services.cluster "demo" "demo" (
        before_cleanup services Has object_laws "demo"
          (release_name_of "demo" "jupyter")
          volumes)).0
      ≡ ok survivors
    → contains (neighbours (release_name_of "demo" "jupyter") survivors) "demo-jupyter-ds" ≡ true
unfolding services Cluster.list converted neighbours release_name_of
listed survivors e =
    let it : named_release "demo-jupyter-ds" ∷ [] ≡ survivors = ok_inj e in rw⁻¹ it refl

owned : owns_by_name "demo-jupyter-ds-claim-bob" "demo-jupyter-ds" ("demo-jupyter" ∷ []) ≡ true
unfolding owns_by_name
owned = refl

delete_service-Keeps_neighbour_example :
    Has
      (delete_service services "demo" "jupyter" volumes).1
      Kind.persistent_volume_claims
      "demo"
      "demo-jupyter-ds-claim-bob"
unfolding release_name_of
delete_service-Keeps_neighbour_example =
    delete_service-Keeps_neighbour services Has object_laws "demo" "jupyter" "demo-jupyter-ds"
      ("demo-jupyter" ∷ []) volumes listed different refl Kind.persistent_volume_claims "demo"
      "demo-jupyter-ds-claim-bob" owned refl

bound_connections_lem_example :
    SortedBy (λ n. n) (shown_names (bound_connections (named_release "demo-x")))
    × Distinct (shown_names (bound_connections (named_release "demo-x")))
    × ((n : String)
        → contains (shown_names (bound_connections (named_release "demo-x"))) n ≡ (
            contains (ref_names (named_release "demo-x").status.watched) n
            || contains (ref_names (named_release "demo-x").status.effective) n))
    × All
        (λ (c : ServiceConnection).
          c.resolved ≡ contains (ref_names (named_release "demo-x").status.effective) c.name)
        (bound_connections (named_release "demo-x"))
bound_connections_lem_example = bound_connections_lem (named_release "demo-x")

abbrev request : ServiceRequest
request = record { service = "trino"; tag = ""; instance_name = "sql"; parameters = none }

abbrev created : Release
created = new_release services "demo" request trino "registry.local/packages"

abbrev shown_created : ServiceInstance
shown_created = record (release_to_instance created) {
  url = "https://" ++ created.name ++ "." ++ "example.org";
}

deploy_service-Created_example :
    (found : List PlatformService) × (svc : PlatformService) × (release : Release) × (instance_name
      tag repository package_repository suffix : String)
    × Mem svc found
    × (svc.name ≡ "trino")
    × Defaulted "sql" "trino" instance_name
    × Defaulted "" svc.default_version tag
    × Defaulted svc.repository package_repository repository
    × Requested services "demo" request instance_name tag repository release
    × Calls services "demo" request tag release found package_repository suffix volumes
        (deploy_service services "demo" request volumes).1
    × (shown_created ≡ record (release_to_instance release) {
      url = "https://" ++ release.name ++ "." ++ suffix;
    })
unfolding deploy_service services Cluster.create
deploy_service-Created_example =
    deploy_service-Created services "demo" request volumes shown_created refl

normalize_and_validate_catalog_service-Accepted_example :
    Accepted (λ name. true) trino
    × Storable trino
    × (trino ≡ tidied (record trino { name = " trino " }) "1.1")
    × DefaultOf trino "1.1"
unfolding normalize_and_validate_catalog_service trim_space
normalize_and_validate_catalog_service-Accepted_example =
    normalize_and_validate_catalog_service-Accepted (λ name. true)
      (record trino { name = " trino " }) trino refl

-- The registry has both versions of `trino`.
abbrev tags : String → String → Action (Cached (Option (List Json))) ServiceError (List String)
tags name repository s = (ok ("1.0" ∷ "1.1" ∷ []), s)

-- The state after `trino` was added to the Context with an empty section, and the one after a read.
abbrev added : Cached (Option (List Json))
added =
    (add_platform_service (console flat server once (some tags) (λ name. true)) trino empty_cache).1

abbrev read_again : Cached (Option (List Json))
read_again = (get_context server added).1

succeeds :
    (add_platform_service (console flat server once (some tags) (λ name. true)) trino empty_cache).0
    ≡ ok trino
unfolding add_platform_service server flat trim_space get_platform_services get_context
    platform_services_of maps_of get items of_list on_world Writer.add_platform_service text_of put
succeeds = refl

tags_grow :
    TagsGrow flat server once
      (some tags)
      (λ name. true)
      version_of
      versions
      flat_laws
      server_laws
      once_law
tags_grow listing there name repository s =
    subst (λ l. Extends (versions s.world) (versions (l name repository s).1.world))
      (some-injective _ _ there) ([], refl)

add_platform_service_reads_example :
    (prev stored : Fields) × (early : List Fields) × (before after : List PlatformService) × Extends
      (versions none)
      (prev ∷ early)
    × Extends (stored ∷ prev ∷ early) (versions added.world)
    × (services_in flat prev ≡ ok before)
    × (services_in flat stored ≡ ok after)
    × Perm after (stored_form trino ∷ before)
    × ((x : Fields)
        → (get_context server added).0 ≡ ok x
        → ReadsSince flat server once
            (some tags)
            (λ name. true)
            version_of
            versions
            flat_laws
            server_laws
            once_law
            (stored ∷ prev ∷ early)
            x
            read_again.world)
add_platform_service_reads_example =
    add_platform_service_reads flat server once (some tags) (λ name. true) version_of versions
      flat_laws server_laws once_law tags_grow trino empty_cache trino succeeds
