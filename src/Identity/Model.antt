-- ===== src/Identity/Model.antt =====
-- The data of users and groups: internal/models/identity.go and internal/repository/crd/identity.go.
use okdp_control_plane_serve.Base.{String, Bool, Option, List}
use okdp_control_plane_serve.Base.Int.{ℤ}

-- `models.User`
pub record User : Type 0 where
  pub name : String
  pub username : String
  pub email : List String
  pub comment : String
  pub disabled : Bool
  pub uid : ℤ
  pub groups : List String
  pub password : String
  pub password_hash : String

-- `models.Group`
pub record Group : Type 0 where
  pub name : String
  pub comment : String
  pub description : String

-- `models.GroupBinding`
pub record GroupBinding : Type 0 where
  pub user : String
  pub group : String

-- `crd.User`: the name of the object and its spec. Claims are raw JSON.
pub record CrdUser : Type 0 where
  pub object_name : String
  pub resource_version : String
  pub name : String
  pub emails : List String
  pub password_hash : String
  pub uid : Option ℤ
  pub comment : String
  pub claims : Option String
  pub disabled : Option Bool

-- `crd.Group`
pub record CrdGroup : Type 0 where
  pub object_name : String
  pub resource_version : String
  pub comment : String
  pub claims : Option String

-- `crd.GroupBinding`
pub record CrdGroupBinding : Type 0 where
  pub object_name : String
  pub user : String
  pub group : String
