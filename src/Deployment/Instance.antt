-- ===== src/Deployment/Instance.antt =====
-- What a Release tells of the service: `releaseToInstance` and `boundConnections` of
-- internal/service/service_service.go and `MapPhaseToStatus` of internal/models/mapper.go.
use okdp_control_plane_serve.Base.{
  String, Bool, true, false, Option, none, some, List, [], ◌∷◌, ◌++◌, ◌==◌, ◌||◌, if◌then◌else◌,
}
use okdp_control_plane_serve.Base.Dict.{Dict, lookup, insert}
use okdp_control_plane_serve.Base.Go.{sort_by}
use okdp_control_plane_serve.Deployment.Model.{
  InputConnectionReference, Release, ServiceConnection, ServiceInstance,
}

-- `models.MapPhaseToStatus`
unfoldable pub map_phase_to_status : String → String
map_phase_to_status phase =
    if phase == "READY"
    then "Ready"
    else if phase == "ERROR" || phase == "FAILED"
    then "Error"
    else if phase == "UPGRADING"
    then "Updating"
    else "Installing"

-- The value under a key of a Go map of texts, empty where there is none.
unfoldable pub text_at : Dict String → String → String
text_at m key = elim (lookup key m) [ none ↦ "" | some s ↦ s ]

-- The variables `byName` and `order` of `boundConnections`.
pub record Remembered : Type 0 where
  pub by_name : Dict ServiceConnection
  pub order : List String

unfoldable pub connection_of : InputConnectionReference → Bool → ServiceConnection
connection_of ref resolved = record {
  name = ref.name;
  namespace = ref.namespace;
  kind = ref.kind;
  resolved = resolved;
}

-- `remember`
unfoldable pub remember_as :
    Option ServiceConnection → InputConnectionReference → Bool → Remembered → Remembered
unfolding connection_of
remember_as none ref resolved r = record {
  by_name = insert ref.name (connection_of ref resolved) r.by_name;
  order = r.order ++ (ref.name ∷ []);
}
remember_as (some current) ref resolved r =
    if current.resolved
    then r
    else record r { by_name = insert ref.name (connection_of ref resolved) r.by_name }

unfoldable pub remember : InputConnectionReference → Bool → Remembered → Remembered
unfolding remember_as
remember ref resolved r = remember_as (lookup ref.name r.by_name) ref resolved r

unfoldable pub remember_all : Bool → List InputConnectionReference → Remembered → Remembered
unfolding remember
remember_all resolved [] r = r
remember_all resolved (ref ∷ refs) r = remember_all resolved refs (remember ref resolved r)

-- The last loop of `boundConnections`. A missing key reads as the zero value.
unfoldable pub in_order : Dict ServiceConnection → List String → List ServiceConnection
in_order by_name [] = []
in_order by_name (name ∷ names) =
    let rest = in_order by_name names in
    elim (lookup name by_name) [
      | none ↦ record { name = ""; namespace = ""; kind = ""; resolved = false } ∷ rest
      | some c ↦ c ∷ rest
    ]

-- `boundConnections`
unfoldable pub bound_connections : Release → List ServiceConnection
unfolding remember_all in_order
bound_connections r =
    let effective = remember_all true r.status.effective (record { by_name = []; order = [] }) in
    let all = remember_all false r.status.watched effective in
    in_order all.by_name (sort_by (λ name. name) all.order)

-- `releaseToInstance`
unfoldable pub release_to_instance : Release → ServiceInstance
unfolding map_phase_to_status text_at bound_connections
release_to_instance r =
    let service_name = text_at r.labels "okdp.io/service" in
    let instance_name = text_at r.labels "okdp.io/instance-name" in
    record {
      name = if instance_name == "" then service_name else instance_name;
      release_name = r.name;
      service = service_name;
      service_tag = r.spec.release_package.tag;
      status = map_phase_to_status r.status.phase;
      status_message = "";
      target_namespace = r.spec.target_namespace;
      url = "";
      roles = r.status.roles;
      parameters = r.spec.parameters;
      connections = bound_connections r;
      created_at = r.created_at;
    }
