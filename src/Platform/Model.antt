-- ===== src/Platform/Model.antt =====
-- The data that is read from the Context: internal/models/service.go, spark.go, capabilities.go and
-- internal/repository/provisioning/keycloak.go.
use okdp_control_plane_serve.Base.{String, Bool, Option, List, ℕ}
use okdp_control_plane_serve.Base.Int.{ℤ}

-- `models.PlatformService`
pub record PlatformService : Type 0 where
  pub name : String
  pub versions : List String
  pub default_version : String
  pub description : String
  pub icon : String
  pub category : String
  pub repository : String
  pub label : String
  pub exposes_ui : Option Bool

-- `models.MenuCategory`
pub record MenuCategory : Type 0 where
  pub key : String
  pub label : String
  pub icon : String
  pub order : ℕ

-- `models.ProfileImage` and `models.SparkImage`
pub record ProfileImage : Type 0 where
  pub label : String
  pub image : String

-- `models.SparkConfigImage`
pub record SparkConfigImage : Type 0 where
  pub registry : String
  pub repository : String
  pub tag : String

-- `models.ResourceDefaults`
pub record ResourceDefaults : Type 0 where
  pub cores : ℤ
  pub memory : String

-- `models.ExecutorDefaults`
pub record ExecutorDefaults : Type 0 where
  pub resources : ResourceDefaults
  pub instances : ℤ

-- `models.SparkDefaults`
pub record SparkDefaults : Type 0 where
  pub driver : ResourceDefaults
  pub executor : ExecutorDefaults

-- `models.SparkConfigSpark`
pub record SparkConfigSpark : Type 0 where
  pub default_version : String
  pub images : List ProfileImage
  pub defaults : SparkDefaults

-- `models.SparkConfig`
pub record SparkConfig : Type 0 where
  pub image : SparkConfigImage
  pub spark : SparkConfigSpark

-- `models.IdentityOidcConfig`
pub record IdentityOidcConfig : Type 0 where
  pub authority : String
  pub client_id : String
  pub scope : String

-- `provisioning.KeycloakSecretRef`
pub record KeycloakSecretRef : Type 0 where
  pub namespace : String
  pub name : String
  pub client_id_key : String
  pub client_secret_key : String

-- `provisioning.KeycloakConfig`
pub record KeycloakConfig : Type 0 where
  pub issuer_uri : String
  pub credentials_secret : KeycloakSecretRef
  pub insecure_skip_tls_verify : Bool
