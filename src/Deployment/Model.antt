-- ===== src/Deployment/Model.antt =====
-- The data of deployed services: internal/repository/crd/release_types.go and
-- internal/models/service.go.
use okdp_control_plane_serve.Base.{String, Bool, Option, List, ◌≡◌, ◌≢◌, ◌⊎◌}
use okdp_control_plane_serve.Base.Dict.{Dict}
use okdp_control_plane_serve.Base.Json.{Json}

-- A `map[string]any`.
abbrev pub Parameters : Type 0
Parameters = Dict Json

-- `crd.ReleasePackage`
pub record ReleasePackage : Type 0 where
  pub repository : String
  pub tag : String
  pub interval : String
  pub timeout : String
  pub insecure : Bool

-- `crd.ContextRef`
pub record ContextRef : Type 0 where
  pub name : String
  pub namespace : String

-- `crd.ReleaseSpec`. A nil map is `none`.
pub record ReleaseSpec : Type 0 where
  pub description : String
  pub release_package : ReleasePackage
  pub parameters : Option Parameters
  pub contexts : List ContextRef
  pub target_namespace : String
  pub create_namespace : Bool

-- `crd.InputConnectionReference`
pub record InputConnectionReference : Type 0 where
  pub kind : String
  pub name : String
  pub namespace : String

-- `crd.ReleaseStatus`, without the conditions, which the program does not read.
pub record ReleaseStatus : Type 0 where
  pub phase : String
  pub roles : List String
  pub watched : List InputConnectionReference
  pub effective : List InputConnectionReference

-- `crd.Release`. The creation time is its text, empty where the time is zero.
pub record Release : Type 0 where
  pub name : String
  pub namespace : String
  pub uid : String
  pub resource_version : String
  pub labels : Dict String
  pub created_at : String
  pub spec : ReleaseSpec
  pub status : ReleaseStatus

-- `models.ServiceRequest`
pub record ServiceRequest : Type 0 where
  pub service : String
  pub tag : String
  pub instance_name : String
  pub parameters : Option Parameters

-- `models.ServiceUpdateRequest`
pub record ServiceUpdateRequest : Type 0 where
  pub tag : String
  pub parameters : Option Parameters

-- `models.ServiceConnection`
pub record ServiceConnection : Type 0 where
  pub name : String
  pub namespace : String
  pub kind : String
  pub resolved : Bool

-- `models.ServiceInstance`
pub record ServiceInstance : Type 0 where
  pub name : String
  pub release_name : String
  pub service : String
  pub service_tag : String
  pub status : String
  pub status_message : String
  pub target_namespace : String
  pub url : String
  pub roles : List String
  pub parameters : Option Parameters
  pub connections : List ServiceConnection
  pub created_at : String

-- What is taken where a text may be left empty: the given one, or another in its place.
abbrev pub Defaulted : String → String → String → Type 0
Defaulted given other taken = ((given ≡ "") × (taken ≡ other)) ⊎ ((given ≢ "") × (taken ≡ given))
