-- ===== src/Platform/Reading.antt =====
-- The reads of the service catalogue: `GetPlatformServices`, `GetMenuCategories` and
-- `GetPackageRepository` of internal/repository/context_repository.go.
use okdp_control_plane_serve.Base.{String, Option, none, some, List, [], ◌∷◌, ◌==◌, if◌then◌else◌}
use okdp_control_plane_serve.Base.Go.{Result, ok, err, Action, ◌>>=◌}
use okdp_control_plane_serve.Base.Json.{Json, Fields}
use okdp_control_plane_serve.Platform.Model.{PlatformService, MenuCategory}
use okdp_control_plane_serve.Platform.Sections.{maps_of, platform_services_of, menu_categories_from}
use okdp_control_plane_serve.Platform.Context.{
  ContextError, malformed, absent, Unstructured, ContextApi, Cached, get_context,
}

abbrev pub categories_path : List String
categories_path = "spec" ∷ "context" ∷ "serviceCatalog" ∷ "categories" ∷ []

-- The result of a call, without a change of the world.
unfoldable pub answer : {W A : Type 0} → Result ContextError A → Action W ContextError A
answer r s = (r, s)

-- A text that has to be there.
unfoldable pub required : String → String → Result ContextError String
required name value = if value == "" then err (absent name) else ok value

module _ (k : Unstructured) where
  unfoldable pub sections_result :
      Result ContextError (Option (List Json)) → Result ContextError (Option (List Fields))
  sections_result (err e) = err (malformed "serviceCatalog.categories")
  sections_result (ok none) = ok none
  sections_result (ok (some raw)) = ok (some (maps_of raw))

  -- `catalogCategories`
  unfoldable pub catalog_categories : Fields → Result ContextError (Option (List Fields))
  unfolding sections_result
  catalog_categories u = sections_result (k.nested_slice u categories_path)

  unfoldable pub services_result :
      Result ContextError (Option (List Fields)) → Result ContextError (List PlatformService)
  services_result (err e) = err e
  services_result (ok none) = ok []
  services_result (ok (some cats)) = ok (platform_services_of cats)

  -- What `GetPlatformServices` makes of a Context.
  unfoldable pub services_in : Fields → Result ContextError (List PlatformService)
  unfolding catalog_categories services_result
  services_in u = services_result (catalog_categories u)

  unfoldable pub menu_result :
      Result ContextError (Option (List Fields)) → Result ContextError (List MenuCategory)
  menu_result (err e) = err e
  menu_result (ok none) = ok []
  menu_result (ok (some cats)) = ok (menu_categories_from 0 cats)

  -- What `GetMenuCategories` makes of a Context.
  unfoldable pub menu_in : Fields → Result ContextError (List MenuCategory)
  unfolding catalog_categories menu_result
  menu_in u = menu_result (catalog_categories u)

  module _ {W : Type 0} (c : ContextApi W) where
    -- `GetPlatformServices`
    unfoldable pub get_platform_services : Action (Cached W) ContextError (List PlatformService)
    unfolding services_in answer
    get_platform_services = do u ← get_context c; answer (services_in u)

    -- `GetMenuCategories`
    unfoldable pub get_menu_categories : Action (Cached W) ContextError (List MenuCategory)
    unfolding menu_in answer
    get_menu_categories = do u ← get_context c; answer (menu_in u)

    -- `GetPackageRepository`
    unfoldable pub get_package_repository : Action (Cached W) ContextError String
    unfolding required answer
    get_package_repository = do
      u ← get_context c
      answer (
          required "serviceCatalog.defaultRepository"
            (k.nested_string u ("spec" ∷ "context" ∷ "serviceCatalog" ∷ "defaultRepository" ∷ [])))

    -- `GetIngressSuffix`
    unfoldable pub get_ingress_suffix : Action (Cached W) ContextError String
    unfolding required answer
    get_ingress_suffix = do
      u ← get_context c
      answer (
          required "ingress.suffix"
            (k.nested_string u ("spec" ∷ "context" ∷ "ingress" ∷ "suffix" ∷ [])))
