-- ===== src/Platform/Settings.antt =====
-- The settings that the server reads of the Context: the rest of
-- internal/repository/context_repository.go.
use okdp_control_plane_serve.Base.{
  String, Bool, Option, none, some, List, [], ◌∷◌, ◌==◌, ◌||◌, not, if◌then◌else◌,
}
use okdp_control_plane_serve.Base.Go.{Result, ok, err, Action, pure, ◌>>=◌}
use okdp_control_plane_serve.Base.Dict.{Dict}
use okdp_control_plane_serve.Base.Int.{ℤ, pos}
use okdp_control_plane_serve.Base.Json.{Json, object, Fields, get, get_string, get_int}
use okdp_control_plane_serve.Platform.Model.{
  ProfileImage, SparkConfigImage, ResourceDefaults, SparkDefaults, SparkConfigSpark, SparkConfig,
  IdentityOidcConfig, KeycloakConfig,
}
use okdp_control_plane_serve.Platform.Sections.{list_at, maps_of}
use okdp_control_plane_serve.Platform.Context.{
  ContextError, malformed, absent, invalid_identity, Unstructured, ContextApi, Cached, get_context,
}
use okdp_control_plane_serve.Platform.Reading.{answer, required}
use okdp_control_plane_serve.Access.Guards.{
  PlatformIdentity, validate_identity, provisions_with_kubauth,
}

abbrev credentials_secret : String → List String
credentials_secret key = "identity" ∷ "provisioning" ∷ "keycloak" ∷ "credentialsSecret" ∷ key ∷ []

-- The first of two texts that is not empty.
unfoldable pub either_text : String → String → String
either_text first second = if first == "" then second else first

-- `m, ok := x.(map[string]interface{})`
unfoldable pub map_of : Option Json → Option Fields
map_of (some (object m)) = some m
map_of _ = none

unfoldable pub map_at : Fields → String → Option Fields
unfolding map_of
map_at m key = map_of (get key m)

-- The label and the image of each map.
unfoldable pub images_of : List Fields → List ProfileImage
images_of [] = []
images_of (m ∷ ms) =
    record { label = get_string m "label"; image = get_string m "image" } ∷ images_of ms

abbrev no_resources : ResourceDefaults
no_resources = record { cores = pos 0; memory = "" }

unfoldable pub resources_of : Option Fields → ResourceDefaults
resources_of none = no_resources
resources_of (some m) = record { cores = get_int m "cores"; memory = get_string m "memory" }

unfoldable pub instances_of : Option Fields → ℤ
instances_of none = pos 0
instances_of (some m) = get_int m "instances"

unfoldable pub defaults_of : Option Fields → SparkDefaults
unfolding resources_of instances_of map_at
defaults_of none = record {
  driver = no_resources;
  executor = record { resources = no_resources; instances = pos 0 };
}
defaults_of (some m) = record {
  driver = resources_of (map_at m "driver");
  executor = record {
    resources = resources_of (map_at m "executor");
    instances = instances_of (map_at m "executor");
  };
}

unfoldable pub spark_of : Option Fields → SparkConfigSpark
unfolding images_of defaults_of map_at
spark_of none = record { default_version = ""; images = []; defaults = defaults_of none }
spark_of (some m) = record {
  default_version = get_string m "defaultVersion";
  images = images_of (maps_of (list_at m "images"));
  defaults = defaults_of (map_at m "defaults");
}

unfoldable pub spark_image_of : Option Fields → SparkConfigImage
spark_image_of none = record { registry = ""; repository = ""; tag = "" }
spark_image_of (some m) = record {
  registry = get_string m "registry";
  repository = get_string m "repository";
  tag = get_string m "tag";
}

unfoldable pub spark_result : Result ContextError (Option Fields) → Result ContextError SparkConfig
unfolding spark_of spark_image_of map_at
spark_result (err e) = err (malformed "sparkOperator")
spark_result (ok none) = err (absent "sparkOperator")
spark_result (ok (some m)) =
    ok (record { image = spark_image_of (map_at m "image"); spark = spark_of (map_at m "spark") })

-- The images of one profile type are entered only where there are some.
unfoldable pub add_profile :
    String
    → Result ContextError (Option (List Json))
    → Dict (List ProfileImage)
    → Dict (List ProfileImage)
unfolding images_of
add_profile type (ok (some raw)) rest = elim (images_of (maps_of raw)) [
  | [] ↦ rest
  | i ∷ is ↦ (type, i ∷ is) ∷ rest
]
add_profile type _ rest = rest

module _ (k : Unstructured) where
  -- A text under `spec.context`.
  unfoldable pub setting : Fields → List String → String
  setting u path = k.nested_string u ("spec" ∷ "context" ∷ path)

  -- `kubauthNamespaceOf`
  unfoldable pub kubauth_namespace_of : Fields → String
  unfolding setting either_text
  kubauth_namespace_of u = either_text (setting u ("identity" ∷ "kubauth" ∷ "namespace" ∷ [])) (
      either_text (setting u ("oidc" ∷ "kubauth" ∷ "namespace" ∷ []))
        (setting u ("identity" ∷ "kubauthNamespace" ∷ [])))

  -- The block that `GetIdentity` builds.
  unfoldable pub identity_in : Fields → PlatformIdentity
  unfolding setting either_text kubauth_namespace_of
  identity_in u = record {
    client_provisioning =
        either_text (setting u ("oidc" ∷ "clientProvisioning" ∷ []))
          (either_text (setting u ("identity" ∷ "clientProvisioning" ∷ [])) "existing");
    kubauth_namespace = kubauth_namespace_of u;
  }

  -- The issuer that `GetOidcIssuer` reads.
  unfoldable pub issuer_in : Fields → String
  unfolding setting either_text
  issuer_in u =
      either_text (setting u ("identity" ∷ "oidc" ∷ "authority" ∷ []))
        (setting u ("oidc" ∷ "issuerUri" ∷ []))

  -- The client that `GetOidcClientID` reads.
  unfoldable pub client_id_in : Fields → String
  unfolding setting either_text
  client_id_in u =
      either_text (setting u ("oidc" ∷ "clientId" ∷ []))
        (setting u ("identity" ∷ "oidc" ∷ "clientId" ∷ []))

  -- The client that `GetIdentityOidcConfig` reads.
  unfoldable pub oidc_config_in : Fields → Option IdentityOidcConfig
  unfolding setting
  oidc_config_in u =
      let authority = setting u ("identity" ∷ "oidc" ∷ "authority" ∷ []) in
      let client_id = setting u ("identity" ∷ "oidc" ∷ "clientId" ∷ []) in
      if authority == "" || client_id == ""
      then none
      else some (record {
        authority = authority;
        client_id = client_id;
        scope = setting u ("identity" ∷ "oidc" ∷ "scope" ∷ []);
      })

  unfoldable pub checked_identity : PlatformIdentity → Result ContextError PlatformIdentity
  checked_identity i = elim (validate_identity i) [
    | none ↦ ok i
    | some e ↦ err (invalid_identity e)
  ]

  -- What `GetKeycloakProvisioningConfig` makes of a Context.
  unfoldable pub keycloak_in : Fields → Result ContextError KeycloakConfig
  unfolding setting either_text
  keycloak_in u =
      let issuer = setting u ("identity" ∷ "provisioning" ∷ "keycloak" ∷ "issuerUri" ∷ []) in
      let name = setting u (credentials_secret "name") in
      if issuer == ""
      then err (absent "identity.provisioning.keycloak.issuerUri")
      else if name == ""
      then err (absent "identity.provisioning.keycloak.credentialsSecret.name")
      else ok (record {
        issuer_uri = issuer;
        credentials_secret = record {
          namespace = setting u (credentials_secret "namespace");
          name = name;
          client_id_key = either_text (setting u (credentials_secret "clientIdKey")) "client_id";
          client_secret_key =
              either_text (setting u (credentials_secret "clientSecretKey")) "client_secret";
        };
        insecure_skip_tls_verify = k.nested_bool u (
            "spec" ∷ "context" ∷ "identity" ∷ "provisioning" ∷ "keycloak" ∷ "insecureSkipTLSVerify"
            ∷ []);
      })

  unfoldable pub profile_images : Fields → String → Result ContextError (Option (List Json))
  profile_images u type =
      k.nested_slice u ("spec" ∷ "context" ∷ "jupyter" ∷ "profiles" ∷ type ∷ "images" ∷ [])

  -- What `GetProfileImages` makes of a Context.
  unfoldable pub profiles_in : Fields → List String → Dict (List ProfileImage)
  unfolding add_profile profile_images
  profiles_in u [] = []
  profiles_in u (type ∷ types) = add_profile type (profile_images u type) (profiles_in u types)

  module _ {W : Type 0} (c : ContextApi W) where
    -- `GetIdentity`
    unfoldable pub get_identity : Action (Cached W) ContextError PlatformIdentity
    unfolding checked_identity identity_in answer
    get_identity = do u ← get_context c; answer (checked_identity (identity_in u))

    -- `GetKubauthNamespace`
    unfoldable pub get_kubauth_namespace : Action (Cached W) ContextError String
    unfolding required kubauth_namespace_of answer
    get_kubauth_namespace = do
      u ← get_context c
      answer (required "identity.kubauth.namespace" (kubauth_namespace_of u))

    -- `GetIdentityProvider`
    unfoldable pub get_identity_provider : Action (Cached W) ContextError String
    unfolding setting
    get_identity_provider = do u ← get_context c; pure (setting u ("identity" ∷ "provider" ∷ []))

    -- `GetIdentityOidcConfig`
    unfoldable pub get_identity_oidc_config :
        Action (Cached W) ContextError (Option IdentityOidcConfig)
    unfolding oidc_config_in
    get_identity_oidc_config = do u ← get_context c; pure (oidc_config_in u)

    -- `GetOidcIssuer`
    unfoldable pub get_oidc_issuer : Action (Cached W) ContextError String
    unfolding issuer_in
    get_oidc_issuer = do u ← get_context c; pure (issuer_in u)

    -- `GetOidcClientID`
    unfoldable pub get_oidc_client_id : Action (Cached W) ContextError String
    unfolding client_id_in
    get_oidc_client_id = do u ← get_context c; pure (client_id_in u)

    -- `GetOidcInsecureSkipVerify`
    unfoldable pub get_oidc_insecure_skip_verify : Action (Cached W) ContextError Bool
    get_oidc_insecure_skip_verify = do
      u ← get_context c
      pure (k.nested_bool u ("spec" ∷ "context" ∷ "oidc" ∷ "insecureSkipVerify" ∷ []))

    unfoldable pub provider_of : PlatformIdentity → String
    provider_of i = if provisions_with_kubauth (some i) then "kubauth" else "none"

    -- `GetIdentityProvisioningProvider`
    unfoldable pub get_identity_provisioning_provider : Action (Cached W) ContextError String
    unfolding setting get_identity provider_of
    get_identity_provisioning_provider = do
      u ← get_context c
      let provider = setting u ("identity" ∷ "provisioning" ∷ "provider" ∷ [])
      if not (provider == "") then pure provider else (do i ← get_identity; pure (provider_of i))

    -- `GetKeycloakProvisioningConfig`
    unfoldable pub get_keycloak_provisioning_config : Action (Cached W) ContextError KeycloakConfig
    unfolding keycloak_in answer
    get_keycloak_provisioning_config = do u ← get_context c; answer (keycloak_in u)

    -- `GetProfileImages`
    unfoldable pub get_profile_images : Action (Cached W) ContextError (Dict (List ProfileImage))
    unfolding profiles_in
    get_profile_images = do
      u ← get_context c
      pure (profiles_in u ("jupyterlab" ∷ "vscode" ∷ "rstudio" ∷ []))

    -- `GetSparkConfig`
    unfoldable pub get_spark_config : Action (Cached W) ContextError SparkConfig
    unfolding spark_result answer
    get_spark_config = do
      u ← get_context c
      answer (spark_result (k.nested_map u ("spec" ∷ "context" ∷ "sparkOperator" ∷ [])))
