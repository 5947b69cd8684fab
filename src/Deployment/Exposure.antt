-- ===== src/Deployment/Exposure.antt =====
-- Which host a service is shown at (`setURLIfExposed` of internal/service/service_service.go).
use okdp_control_plane_serve.Base.{String, true, some, List, [], ◌∷◌, ◌≡◌, ◌≢◌, ◌⊎◌, contains}
use okdp_control_plane_serve.Base.Dict.{Dict}
use okdp_control_plane_serve.Base.Go.{ok}
use okdp_control_plane_serve.Base.Json.{Json}
use okdp_control_plane_serve.Platform.Context.{Unstructured}
use okdp_control_plane_serve.Deployment.Model.{ServiceInstance}
use okdp_control_plane_serve.Deployment.Names.{candidate_hosts}
use okdp_control_plane_serve.Deployment.Service.{Services}
use okdp_control_plane_serve.Deployment.Workloads.{
  Ingress, Workloads, host_of, release_instance_names,
}

module _ {ℓ} {A : Type ℓ} where
  -- Some element satisfies `P`.
  abbrev pub Any : (A → Type 0) → List A → Type 0
  Any P [] = ⊥
  Any P (x ∷ xs) = P x ⊎ Any P xs

-- An Ingress of the Helm release has a rule for the host.
abbrev pub Serves : String → String → Ingress → Type 0
Serves host owner i =
    (i.owner ≡ owner) × (owner ≢ "") × Any (λ rule. host_of rule ≡ some host) i.rules

module _ (k : Unstructured) (prefixes : List String) {W : Type 0} (s : Services W)
    (l : Workloads W) where
  -- Why a host is shown: it is one of the hosts that the service may have, and an Ingress that the
  -- namespace lists serves it for one of the Helm releases of the service.
  abbrev pub Justified : ServiceInstance → String → Type 0
  Justified i host =
      (u v : W) × (suffix owner : String) × (names : List String) × (items : List Ingress)
      × (contains (candidate_hosts i suffix) host ≡ true)
      × ((release_instance_names k prefixes s l i.target_namespace i.release_name u).0 ≡ ok names)
      × (contains names owner ≡ true)
      × ((l.list_ingresses i.target_namespace v).0 ≡ ok items)
      × Any (Serves host owner) items
