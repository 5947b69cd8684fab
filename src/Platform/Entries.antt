-- ===== src/Platform/Entries.antt =====
-- A service of the catalogue is read back as it was written.
use okdp_control_plane_serve.Base.{
  String, Bool, false, Option, none, some, List, ◌∷◌, map, ◌==◌, ◌≡◌, refl, ap, sym, ◌∙◌, ◌≢◌,
  Bool-cases, inl, inr, test_ne, eq_of_test,
}
use okdp_control_plane_serve.Base.Json.{
  string, bool, array, Fields, end, of_list, items-of_list, get, put, get-put_ne, get-put_self,
  text_of, get_string, flag_of, get_bool_ptr, strings-map-string,
}
use okdp_control_plane_serve.Platform.Model.{PlatformService}
use okdp_control_plane_serve.Platform.Sections.{
  list_of, list_at, stored_default, stored_versions, versions_or, platform_service_from_map,
  put_text, put_flag, platform_service_to_map,
}

text_of-put_text :
    (key value : String) (m : Fields)
    → text_of (get key m) ≡ ""
    → text_of (get key (put_text key value m)) ≡ value
unfolding put_text text_of
text_of-put_text key value m absent = elim (Bool-cases (value == "")) [
  | inl blank ↦ rw blank (absent ∙ sym (eq_of_test value "" blank))
  | inr given ↦ rw (given, get-put_self key (string value) m) refl
]

get-put_text :
    (key read value : String) (m : Fields)
    → (key == read) ≡ false
    → get read (put_text key value m) ≡ get read m
unfolding put_text
get-put_text key read value m ne = elim (Bool-cases (value == "")) [
  | inl blank ↦ rw blank refl
  | inr given ↦ rw given (get-put_ne key read (string value) m ne)
]

get-put_flag :
    (key read : String) (flag : Option Bool) (m : Fields)
    → (key == read) ≡ false
    → get read (put_flag key flag m) ≡ get read m
unfolding put_flag
get-put_flag key read none m ne = refl
get-put_flag key read (some b) m ne = get-put_ne key read (bool b) m ne

flag_of-put_flag :
    (key : String) (flag : Option Bool) (m : Fields)
    → flag_of (get key m) ≡ none
    → flag_of (get key (put_flag key flag m)) ≡ flag
unfolding put_flag flag_of
flag_of-put_flag key none m absent = absent
flag_of-put_flag key (some b) m absent = rw (get-put_self key (bool b) m) refl

-- The layers that `platform_service_to_map` writes.
abbrev base : PlatformService → Fields
base s =
    put "default" (string s.default_version)
      (put "versions" (array (of_list (map string s.versions))) (put "name" (string s.name) end))

abbrev described : PlatformService → Fields
described s = put_text "description" s.description (base s)

abbrev placed : PlatformService → Fields
placed s = put_text "repository" s.repository (described s)

abbrev labelled : PlatformService → Fields
labelled s = put_text "label" s.label (placed s)

-- What is read under a key that none of the optional texts has.
get-labelled :
    (key : String) (s : PlatformService)
    → ("exposesUI" == key) ≡ false
    → ("label" == key) ≡ false
    → ("repository" == key) ≡ false
    → ("description" == key) ≡ false
    → get key (platform_service_to_map s) ≡ get key (base s)
unfolding platform_service_to_map
get-labelled key s u l r d =
    get-put_flag "exposesUI" key s.exposes_ui (labelled s) u
    ∙ get-put_text "label" key s.label (placed s) l
    ∙ get-put_text "repository" key s.repository (described s) r
    ∙ get-put_text "description" key s.description (base s) d

-- The fields of a service that are read from what was written for it.
stored_name : (s : PlatformService) → get_string (platform_service_to_map s) "name" ≡ s.name
unfolding get_string text_of get put
stored_name s = ap text_of (get-labelled "name" s refl refl refl refl)

stored_default_lem :
    (s : PlatformService)
    → s.default_version ≢ ""
    → stored_default (platform_service_to_map s) ≡ s.default_version
unfolding stored_default get_string text_of get put
stored_default_lem s given =
    let read : get "default" (platform_service_to_map s) ≡ some (string s.default_version) =
      get-labelled "default" s refl refl refl refl in
    rw (read, test_ne s.default_version "" given) refl

stored_versions_lem :
    (s : PlatformService) → stored_versions (platform_service_to_map s) ≡ s.versions
unfolding stored_versions list_at list_of get put
stored_versions_lem s =
    let read : get "versions" (platform_service_to_map s)
        ≡ some (array (of_list (map string s.versions))) =
      get-labelled "versions" s refl refl refl refl in
    rw (read, items-of_list (map string s.versions)) (strings-map-string s.versions)

base_lacks :
    (key : String) (s : PlatformService)
    → ("default" == key) ≡ false
    → ("versions" == key) ≡ false
    → ("name" == key) ≡ false
    → get key (base s) ≡ none
unfolding get
base_lacks key s d v n =
    get-put_ne "default" key (string s.default_version) _ d
    ∙ get-put_ne "versions" key (array (of_list (map string s.versions))) _ v
    ∙ get-put_ne "name" key (string s.name) end n

stored_description :
    (s : PlatformService) → get_string (platform_service_to_map s) "description" ≡ s.description
unfolding platform_service_to_map get_string text_of
stored_description s =
    ap text_of (
      get-put_flag "exposesUI" "description" s.exposes_ui (labelled s) refl
      ∙ get-put_text "label" "description" s.label (placed s) refl
      ∙ get-put_text "repository" "description" s.repository (described s) refl)
    ∙ text_of-put_text "description" s.description (base s)
        (ap text_of (base_lacks "description" s refl refl refl))

stored_repository :
    (s : PlatformService) → get_string (platform_service_to_map s) "repository" ≡ s.repository
unfolding platform_service_to_map get_string text_of
stored_repository s =
    ap text_of (
      get-put_flag "exposesUI" "repository" s.exposes_ui (labelled s) refl
      ∙ get-put_text "label" "repository" s.label (placed s) refl)
    ∙ text_of-put_text "repository" s.repository (described s) (
        ap text_of (
          get-put_text "description" "repository" s.description (base s) refl
          ∙ base_lacks "repository" s refl refl refl))

stored_label : (s : PlatformService) → get_string (platform_service_to_map s) "label" ≡ s.label
unfolding platform_service_to_map get_string text_of
stored_label s =
    ap text_of (get-put_flag "exposesUI" "label" s.exposes_ui (labelled s) refl)
    ∙ text_of-put_text "label" s.label (placed s) (
        ap text_of (
          get-put_text "repository" "label" s.repository (described s) refl
          ∙ get-put_text "description" "label" s.description (base s) refl
          ∙ base_lacks "label" s refl refl refl))

stored_flag :
    (s : PlatformService) → get_bool_ptr (platform_service_to_map s) "exposesUI" ≡ s.exposes_ui
unfolding platform_service_to_map get_bool_ptr flag_of
stored_flag s = flag_of-put_flag "exposesUI" s.exposes_ui (labelled s) (
    ap flag_of (
      get-put_text "label" "exposesUI" s.label (placed s) refl
      ∙ get-put_text "repository" "exposesUI" s.repository (described s) refl
      ∙ get-put_text "description" "exposesUI" s.description (base s) refl
      ∙ base_lacks "exposesUI" s refl refl refl))

-- A service that is written and read back is the same service, but for its icon, which is not stored:
-- a service with versions and a default version, as every accepted one has.
pub from_map-to_map :
    (s : PlatformService) (v : String) (vs : List String)
    → s.versions ≡ v ∷ vs
    → s.default_version ≢ ""
    → platform_service_from_map (platform_service_to_map s) s.category ≡ record s { icon = "" }
unfolding platform_service_from_map versions_or
from_map-to_map s v vs listed given =
    rw
      (
        stored_name s,
        stored_versions_lem s,
        stored_default_lem s given,
        stored_description s,
        stored_repository s,
        stored_label s,
        stored_flag s,
        listed,
      )
      refl
