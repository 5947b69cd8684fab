-- ===== src/Deployment/Workloads.antt =====
-- What runs for a release: its Helm releases, the health of its pods and the host that it is reached at
-- (internal/service/service_service.go).
use Prim.Native.String.{◌++◌}
use okdp_control_plane_serve.Base.{
  String, Bool, true, false, Option, none, some, List, [], ◌∷◌, ◌==◌, ◌||◌, not, contains,
  if◌then◌else◌,
}
use okdp_control_plane_serve.Base.Dict.{Dict, lookup, insert}
use okdp_control_plane_serve.Base.Go.{Result, ok, err, Action, pure, raise, try, ◌>>=◌, ◌>>◌}
use okdp_control_plane_serve.Base.Json.{Json, string, object, Fields, get}
use okdp_control_plane_serve.Platform.Context.{ContextError, Unstructured}
use okdp_control_plane_serve.Deployment.Model.{ServiceUpdateRequest, ServiceInstance}
use okdp_control_plane_serve.Deployment.Names.{matches_instance, is_infra_sidecar, candidate_hosts}
use okdp_control_plane_serve.Deployment.Instance.{text_at, release_to_instance}
use okdp_control_plane_serve.Deployment.Cluster as Cluster
use okdp_control_plane_serve.Deployment.Cluster.{
  ServiceError, api, not_updated, schema_unread, missing,
}
use okdp_control_plane_serve.Deployment.Service.{
  Services, wrap, release_name_of, changed, validate_parameters,
}

-- A pod, a HelmRelease with the UIDs of its owners, and an Ingress with the value of the label that names
-- its HelmRelease, empty where it has none, and its rules.
pub record Pod : Type 0 where
  pub name : String
  pub object : Fields

pub record HelmRelease : Type 0 where
  pub name : String
  pub owner_uids : List String

pub record Ingress : Type 0 where
  pub owner : String
  pub rules : List Json

-- The lists that the API server gives of a namespace.
pub record Workloads (W : Type 0) : Type 0 where
  pub list_pods : String → Action W ServiceError (List Pod)
  pub list_helm_releases : String → Action W ServiceError (List HelmRelease)
  pub list_ingresses : String → Action W ServiceError (List Ingress)

-- The loop of `releaseInstanceNames`.
unfoldable pub owned_names : String → List HelmRelease → List String
owned_names uid [] = []
owned_names uid (h ∷ hs) =
    let rest = owned_names uid hs in if contains h.owner_uids uid then h.name ∷ rest else rest

-- `s, ok := x.(string)`
unfoldable pub string_of : Option Json → Option String
string_of (some (string s)) = some s
string_of _ = none

unfoldable pub host_of : Json → Option String
unfolding string_of
host_of (object rule) = elim (string_of (get "host" rule)) [
  | none ↦ none
  | some host ↦ if host == "" then none else some host
]
host_of _ = none

unfoldable pub add_host : Option String → String → Dict String → Dict String
add_host none owner hosts = hosts
add_host (some host) owner hosts = insert host owner hosts

unfoldable pub add_rules : String → List Json → Dict String → Dict String
unfolding host_of add_host
add_rules owner [] hosts = hosts
add_rules owner (rule ∷ rules) hosts = add_rules owner rules (add_host (host_of rule) owner hosts)

-- `ingressHostsFromItems`, going on from the hosts that are known.
unfoldable pub ingress_hosts : List Ingress → Dict String → Dict String
unfolding add_rules
ingress_hosts [] hosts = hosts
ingress_hosts (i ∷ is) hosts =
    ingress_hosts is (if i.owner == "" then hosts else add_rules i.owner i.rules hosts)

-- The first of the hosts that an Ingress of one of the Helm releases serves.
unfoldable pub exposed_host : Dict String → List String → List String → Option String
exposed_host hosts names [] = none
exposed_host hosts names (host ∷ more) =
    let rest = exposed_host hosts names more in
    elim (lookup host hosts) [
      | none ↦ rest
      | some owner ↦ if contains names owner then some host else rest
    ]

unfoldable pub with_host : ServiceInstance → Option String → ServiceInstance
with_host i none = i
with_host i (some host) = record i { url = "https://" ++ host }

module _ (k : Unstructured) (sidecar_prefixes : List String) where
  unfoldable pub reason_in : Result ContextError (Option Fields) → Option String
  unfolding string_of
  reason_in (ok (some m)) = string_of (get "reason" m)
  reason_in _ = none

  -- Whether the reason that a container is waiting for is one of the failures.
  unfoldable pub is_failed_wait : Option String → Bool
  is_failed_wait none = false
  is_failed_wait (some r) =
      r == "CrashLoopBackOff" || r == "Error" || r == "ImagePullBackOff" || r == "ErrImagePull"

  unfoldable pub is_failed_end : Option String → Bool
  is_failed_end none = false
  is_failed_end (some r) = r == "Error"

  unfoldable pub is_sidecar : Option String → Bool
  unfolding is_infra_sidecar
  is_sidecar none = false
  is_sidecar (some name) = is_infra_sidecar sidecar_prefixes name

  -- Whether the status of a container makes `checkPodHealth` answer with an error.
  unfoldable pub is_failing : Json → Bool
  unfolding reason_in is_failed_wait is_failed_end is_sidecar string_of
  is_failing (object cs) =
      if is_sidecar (string_of (get "name" cs))
      then false
      else if k.nested_bool cs ("ready" ∷ [])
      then false
      else if is_failed_wait (reason_in (k.nested_map cs ("state" ∷ "waiting" ∷ [])))
      then true
      else is_failed_end (reason_in (k.nested_map cs ("state" ∷ "terminated" ∷ [])))
  is_failing _ = false

  unfoldable pub any_failing : List Json → Bool
  unfolding is_failing
  any_failing [] = false
  any_failing (cs ∷ css) = if is_failing cs then true else any_failing css

  unfoldable pub statuses_in : Result ContextError (Option (List Json)) → List Json
  statuses_in (ok (some css)) = css
  statuses_in _ = []

  unfoldable pub container_statuses : Pod → List Json
  unfolding statuses_in
  container_statuses p = statuses_in (k.nested_slice p.object ("status" ∷ "containerStatuses" ∷ []))

  -- `checkPodHealth`
  unfoldable pub check_pod_health : List Pod → List String → String → String
  unfolding any_failing container_statuses
  check_pod_health [] names current = current
  check_pod_health (p ∷ ps) names current =
      let rest = check_pod_health ps names current in
      if not (matches_instance p.name names)
      then rest
      else if any_failing (container_statuses p)
      then "Error"
      else rest

  module _ {W : Type 0} (s : Services W) (l : Workloads W) where
    unfoldable pub named_or_error : String → List String → Action W ServiceError (List String)
    named_or_error release_name [] = raise (missing release_name)
    named_or_error release_name (n ∷ ns) = pure (n ∷ ns)

    -- `releaseInstanceNames`
    unfoldable pub release_instance_names : String → String → Action W ServiceError (List String)
    unfolding owned_names named_or_error
    release_instance_names project release_name = do
      release ← Cluster.get s.cluster project release_name
      helm_releases ← l.list_helm_releases project
      named_or_error release_name (owned_names release.uid helm_releases)

    unfoldable pub hosts_in : Result ServiceError (List Ingress) → Dict String
    unfolding ingress_hosts
    hosts_in (err e) = []
    hosts_in (ok items) = ingress_hosts items []

    -- `setURLIfExposed`. No error of it is reported.
    unfoldable pub set_url_if_exposed : ServiceInstance → Action W ServiceError ServiceInstance
    unfolding release_instance_names hosts_in exposed_host with_host
    set_url_if_exposed i = try s.contexts.ingress_suffix (λ suffix. elim suffix [
      | err e ↦ pure i
      | ok suffix ↦
          if i.target_namespace == ""
          then pure i
          else try (release_instance_names i.target_namespace i.release_name) (λ names. elim names [
            | err e ↦ pure i
            | ok names ↦ try (l.list_ingresses i.target_namespace) (λ items.
                pure (with_host i (exposed_host (hosts_in items) names (candidate_hosts i suffix))))
          ])
    ])

    -- `EnrichPodHealth` of an instance that is there.
    unfoldable pub enrich_pod_health : ServiceInstance → Action W ServiceError ServiceInstance
    unfolding release_instance_names check_pod_health
    enrich_pod_health i =
        if not (i.status == "Ready") || i.target_namespace == ""
        then pure i
        else try (l.list_pods i.target_namespace) (λ pods. elim pods [
          | err e ↦ pure i
          | ok pods ↦ try (release_instance_names i.target_namespace i.release_name) (λ names.
              elim names [
                | err e ↦ pure i
                | ok names ↦ pure (record i { status = check_pod_health pods names i.status })
              ])
        ])

    -- `UpdateServiceParameters`
    unfoldable pub update_service_parameters :
        String → String → ServiceUpdateRequest → Action W ServiceError ServiceInstance
    unfolding release_name_of changed wrap set_url_if_exposed
    update_service_parameters project name req = do
      old ← Cluster.get s.cluster project (release_name_of project name)
      let release = changed s req old
      validate_parameters s (text_at release.labels "okdp.io/service")
          release.spec.release_package.tag release.spec.parameters
      wrap not_updated (Cluster.update s.cluster project release)
      set_url_if_exposed (release_to_instance release)
