-- ===== src/Platform/Sections.antt =====
-- The sections of the service catalogue, as raw JSON: what reads them and what edits them, in
-- internal/repository/context_repository.go and context_writer_repository.go.
use Prim.Native.Nat.{suc}
use okdp_control_plane_serve.Base.{
  String, Bool, false, Option, none, some, List, [], ◌∷◌, ◌++◌, map, ◌==◌, ◌||◌, ℕ, if◌then◌else◌,
}
use okdp_control_plane_serve.Base.Json.{
  Json, string, bool, array, object, Fields, end, entry, items, of_list, get, put, get_string,
  get_bool_ptr, strings,
}
use okdp_control_plane_serve.Platform.Model.{PlatformService, MenuCategory}

-- `x, _ := v.([]interface{})`
unfoldable pub list_of : Option Json → List Json
list_of (some (array vs)) = items vs
list_of _ = []

-- The list under a key of a map, empty where there is none: `x, _ := m[key].([]interface{})`.
unfoldable pub list_at : Fields → String → List Json
unfolding list_of
list_at m key = list_of (get key m)

-- `categoryServices`
unfoldable pub category_services : Fields → List Json
unfolding list_at
category_services cat = list_at cat "services"

-- The maps of a list, as the loop of `catalogCategories` keeps them.
unfoldable pub maps_of : List Json → List Fields
maps_of [] = []
maps_of (v ∷ vs) = let rest = maps_of vs in elim v [ object m ↦ m ∷ rest | _ ↦ rest ]

unfoldable pub stored_default : Fields → String
stored_default m =
    if get_string m "default" == "" then get_string m "tag" else get_string m "default"

unfoldable pub stored_versions : Fields → List String
unfolding list_at
stored_versions m = strings (list_at m "versions")

-- The versions of a service that lists none are its default version.
unfoldable pub versions_or : String → List String → List String
versions_or default_version [] = if default_version == "" then [] else default_version ∷ []
versions_or default_version (v ∷ vs) = v ∷ vs

-- `platformServiceFromMap`
unfoldable pub platform_service_from_map : Fields → String → PlatformService
unfolding stored_default stored_versions versions_or
platform_service_from_map m category = record {
  name = get_string m "name";
  versions = versions_or (stored_default m) (stored_versions m);
  default_version = stored_default m;
  description = get_string m "description";
  icon = "";
  category = category;
  repository = get_string m "repository";
  label = get_string m "label";
  exposes_ui = get_bool_ptr m "exposesUI";
}

-- The inner loop of `GetPlatformServices`.
unfoldable pub services_of : String → List Json → List PlatformService
services_of title [] = []
services_of title (v ∷ vs) =
    let rest = services_of title vs in
    elim v [ object m ↦ platform_service_from_map m title ∷ rest | _ ↦ rest ]

-- The loop of `GetPlatformServices`.
unfoldable pub platform_services_of : List Fields → List PlatformService
unfolding services_of category_services
platform_services_of [] = []
platform_services_of (cat ∷ cats) =
    services_of (get_string cat "title") (category_services cat) ++ platform_services_of cats

-- The loop of `GetMenuCategories`, from a position on.
unfoldable pub menu_categories_from : ℕ → List Fields → List MenuCategory
menu_categories_from n [] = []
menu_categories_from n (cat ∷ cats) =
    record {
      key = get_string cat "title";
      label = get_string cat "title";
      icon = get_string cat "icon";
      order = suc n;
    }
    ∷ menu_categories_from (suc n) cats

-- A text that is written only where it is not empty.
unfoldable pub put_text : String → String → Fields → Fields
put_text key value m = if value == "" then m else put key (string value) m

-- A flag that is written only where it is set.
unfoldable pub put_flag : String → Option Bool → Fields → Fields
put_flag key none m = m
put_flag key (some b) m = put key (bool b) m

-- `platformServiceToMap`
unfoldable pub platform_service_to_map : PlatformService → Fields
unfolding put_text put_flag
platform_service_to_map svc =
    let base = put "default" (string svc.default_version) (
      put "versions" (array (of_list (map string svc.versions)))
        (put "name" (string svc.name) end)) in
    put_flag "exposesUI" svc.exposes_ui (
      put_text "label" svc.label
        (put_text "repository" svc.repository (put_text "description" svc.description base)))

-- Whether a stored service has the name.
unfoldable pub is_named : String → Json → Bool
is_named name (object m) = get_string m "name" == name
is_named name _ = false

-- The services of a section that are kept: those without the name, and what is no service.
unfoldable pub kept_services : String → List Json → List Json
kept_services name [] = []
kept_services name (v ∷ vs) =
    let rest = kept_services name vs in if is_named name v then rest else v ∷ rest

unfoldable pub any_named : String → List Json → Bool
any_named name [] = false
any_named name (v ∷ vs) = is_named name v || any_named name vs

-- A section without the services of the name; what is no section stays.
unfoldable pub section_without : String → Json → Json
unfolding kept_services category_services
section_without name (object cat) =
    object (put "services" (array (of_list (kept_services name (category_services cat)))) cat)
section_without name v = v

-- What `removeServiceFromCategories` leaves of the sections.
unfoldable pub without_service : String → List Json → List Json
unfolding section_without
without_service name [] = []
without_service name (v ∷ vs) = section_without name v ∷ without_service name vs

-- What `removeServiceFromCategories` returns.
unfoldable pub found_in : String → List Json → Bool
unfolding any_named category_services
found_in name [] = false
found_in name (v ∷ vs) =
    let rest = found_in name vs in
    elim v [ object cat ↦ any_named name (category_services cat) || rest | _ ↦ rest ]

unfoldable pub has_title : String → Json → Bool
has_title title (object cat) = get_string cat "title" == title
has_title title _ = false

-- A section with one more service at its end.
unfoldable pub with_service : Fields → Json → Json
unfolding category_services
with_service svc (object cat) =
    object (put "services" (array (of_list (category_services cat ++ (object svc ∷ [])))) cat)
with_service svc v = v

-- `appendServiceToCategory`
unfoldable pub append_service_to_category : List Json → String → Fields → List Json
unfolding has_title with_service
append_service_to_category [] title svc =
    object (entry "title" (string title) (entry "services" (array (of_list (object svc ∷ []))) end))
    ∷ []
append_service_to_category (v ∷ vs) title svc =
    let rest = append_service_to_category vs title svc in
    if has_title title v then with_service svc v ∷ vs else v ∷ rest
