-- ===== src/Deployment/Tests/Exposed.antt =====
-- The theorems on the URL and the health of a service, at a release with one Ingress and one pod.
use okdp_control_plane_serve.Base.{
  String, none, some, [], ◌∷◌, ◌≡◌, ap, ◌≢◌, ◌==◌, ◌↔◌, true_ne_false,
}
use okdp_control_plane_serve.Base.Go.{ok}
use okdp_control_plane_serve.Base.Json.{object, entry, string, end, array, of_list}
use okdp_control_plane_serve.Platform.Context.{Unstructured}
use okdp_control_plane_serve.Platform.Tests.{flat}
use okdp_control_plane_serve.Deployment.Model.{ServiceInstance}
use okdp_control_plane_serve.Deployment.Cluster as Cluster
use okdp_control_plane_serve.Deployment.Service.{Services}
use okdp_control_plane_serve.Deployment.Workloads.{Pod, Workloads, check_pod_health}
use okdp_control_plane_serve.Deployment.Exposure.{Any}
use okdp_control_plane_serve.Deployment.Health.{Unhealthy, check_pod_health_iff}
use okdp_control_plane_serve.Deployment.Tests.{World, services, named_release}

-- One Helm release and one Ingress of it.
unfoldable reachable : Services World
unfolding services
reachable = record services {
  cluster = record services.cluster {
    get_release = λ ns n w.
        (ok (record { version = "1"; release = some (record (named_release n) { uid = "7" }) }), w);
  };
}

unfoldable workloads : Workloads World
workloads = record {
  list_pods = λ ns w. (ok [], w);
  list_helm_releases =
      λ ns w. (ok (record { name = "demo-sql-main"; owner_uids = "7" ∷ [] } ∷ []), w);
  list_ingresses = λ ns w. (
    ok (
        record {
          owner = "demo-sql-main";
          rules = object (entry "host" (string "demo-sql.example.org") end) ∷ [];
        }
        ∷ []),
    w,
  );
}

abbrev sql : ServiceInstance
sql = record {
  name = "sql";
  release_name = "demo-sql";
  service = "trino";
  service_tag = "1.1";
  status = "Ready";
  status_message = "";
  target_namespace = "demo";
  url = "";
  roles = [];
  parameters = none;
  connections = [];
  created_at = "";
}

-- A pod whose one container waits after a crash; the state of a container is read from the container.
unfoldable direct : Unstructured
unfolding flat
direct = record flat { nested_map = λ u path. ok (some u) }

abbrev crashed : Pod
crashed = record {
  name = "demo-sql-main-0";
  object =
      entry "categories"
        (array (of_list (object (entry "reason" (string "CrashLoopBackOff") end) ∷ []))) end;
}

ready_status : ◌≢◌ {A = String} "Ready" "Error"
ready_status e = true_ne_false (ap (λ (s : String). s == "Ready") e)

check_pod_health_iff_example :
    (check_pod_health direct [] (crashed ∷ []) ("demo-sql-main" ∷ []) "Ready" ≡ "Error")
    ↔ Any (Unhealthy direct [] ("demo-sql-main" ∷ [])) (crashed ∷ [])
check_pod_health_iff_example =
    check_pod_health_iff direct [] ("demo-sql-main" ∷ []) "Ready" (crashed ∷ []) ready_status
