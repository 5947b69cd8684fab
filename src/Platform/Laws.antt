-- ===== src/Platform/Laws.antt =====
-- What an edit of the sections does to the services that are read from them, and that a service is read
-- back as it was written.
use okdp_control_plane_serve.Base.{
  String, Bool, List, [], ◌∷◌, ◌++◌, ◌==◌, not, filter_by, any_of, filter_by-append, any_of-append,
  ◌≡◌, refl, ap, sym, ◌∙◌, Bool-cases, inl, inr, eq_of_test, eq_of_test,
}
use mathlib.Core.List.{Perm, perm_middle, perm_append_singleton}
use mathlib.Core.List.Perm
use okdp_control_plane_serve.Base.Json.{
  Json, array, object, Fields, items, of_list, items-of_list, get, put, get-put_self, get-put_ne,
  text_of, get_string,
}
use okdp_control_plane_serve.Platform.Model.{PlatformService}
use okdp_control_plane_serve.Platform.Sections.{
  list_of, list_at, category_services, maps_of, platform_service_from_map, services_of,
  platform_services_of, is_named, kept_services, any_named, section_without, without_service,
  found_in, append_service_to_category,
}

-- The services that `GetPlatformServices` reads from raw sections.
abbrev pub catalog_of : List Json → List PlatformService
catalog_of sections = platform_services_of (maps_of sections)

unfoldable pub called : String → PlatformService → Bool
called name s = s.name == name

called-from_map :
    (name category : String) (m : Fields)
    → called name (platform_service_from_map m category) ≡ (get_string m "name" == name)
unfolding called platform_service_from_map
called-from_map name category m = refl

services_of-kept :
    (title name : String) (vs : List Json)
    → services_of title (kept_services name vs)
      ≡ filter_by (λ s. not (called name s)) (services_of title vs)
unfolding services_of kept_services is_named
services_of-kept title name [] = refl
services_of-kept title name (object m ∷ vs) = elim (Bool-cases (get_string m "name" == name)) [
  | inl gone ↦ rw (gone, called-from_map name title m, gone) (services_of-kept title name vs)
  | inr stays ↦
      rw (stays, called-from_map name title m, stays)
        (ap (λ l. platform_service_from_map m title ∷ l) (services_of-kept title name vs))
]
services_of-kept title name (v ∷ vs) = services_of-kept title name vs

services_of-append :
    (title : String) (vs : List Json) (svc : Fields)
    → services_of title (vs ++ (object svc ∷ []))
      ≡ services_of title vs ++ (platform_service_from_map svc title ∷ [])
unfolding services_of
services_of-append title [] svc = refl
services_of-append title (object m ∷ vs) svc =
    ap (λ l. platform_service_from_map m title ∷ l) (services_of-append title vs svc)
services_of-append title (v ∷ vs) svc = services_of-append title vs svc

-- The list under a key that was just written is the one written; other keys keep theirs.
list_at-put :
    (key : String) (vs : List Json) (m : Fields) → list_at (put key (array (of_list vs)) m) key ≡ vs
unfolding list_at list_of
list_at-put key vs m = ap list_of (get-put_self key (array (of_list vs)) m) ∙ items-of_list vs

category_services-put :
    (vs : List Json) (m : Fields) → category_services (put "services" (array (of_list vs)) m) ≡ vs
unfolding category_services
category_services-put vs m = list_at-put "services" vs m

title-put : (v : Json) (m : Fields) → get_string (put "services" v m) "title" ≡ get_string m "title"
unfolding get_string
title-put v m = ap text_of (get-put_ne "services" "title" v m refl)

-- The services that are read after `removeServiceFromCategories` are those that were read before, in
-- their order, less each one that has the name.
pub catalog-without_service :
    (name : String) (sections : List Json)
    → catalog_of (without_service name sections)
      ≡ filter_by (λ s. not (called name s)) (catalog_of sections)
unfolding without_service section_without maps_of platform_services_of
catalog-without_service name [] = refl
catalog-without_service name (object cat ∷ vs) =
    let kept = kept_services name (category_services cat) in
    let title = get_string cat "title" in
    rw
      (
        title-put (array (of_list kept)) cat,
        category_services-put kept cat,
        services_of-kept title name (category_services cat),
        catalog-without_service name vs,
      )
      (sym (
        filter_by-append (λ s. not (called name s)) (services_of title (category_services cat))
          (catalog_of vs)))
catalog-without_service name (v ∷ vs) = catalog-without_service name vs

any_named-services_of :
    (name title : String) (vs : List Json)
    → any_named name vs ≡ any_of (called name) (services_of title vs)
unfolding any_named is_named services_of
any_named-services_of name title [] = refl
any_named-services_of name title (object m ∷ vs) =
    rw (called-from_map name title m, any_named-services_of name title vs) refl
any_named-services_of name title (v ∷ vs) = any_named-services_of name title vs

-- `removeServiceFromCategories` reports that it found the name just where a service that is read from
-- the sections has it.
pub found_in-catalog :
    (name : String) (sections : List Json)
    → found_in name sections ≡ any_of (called name) (catalog_of sections)
unfolding found_in maps_of platform_services_of
found_in-catalog name [] = refl
found_in-catalog name (object cat ∷ vs) =
    let title = get_string cat "title" in
    rw (any_named-services_of name title (category_services cat), found_in-catalog name vs)
      (sym
        (any_of-append (called name) (services_of title (category_services cat)) (catalog_of vs)))
found_in-catalog name (v ∷ vs) = found_in-catalog name vs

catalog-new_section :
    (title : String) (svc : Fields)
    → catalog_of (append_service_to_category [] title svc)
      ≡ platform_service_from_map svc title ∷ []
unfolding append_service_to_category maps_of platform_services_of services_of category_services
    list_at list_of get_string text_of get items of_list
catalog-new_section title svc = refl

services-with_service :
    (xs rest : List PlatformService) (x : PlatformService)
    → Perm ((xs ++ (x ∷ [])) ++ rest) (x ∷ (xs ++ rest))
services-with_service xs rest x = Perm.append_right rest (perm_append_singleton x xs)

-- Adding a service to its section adds it, and nothing else, to what is read; where it stands depends
-- on the sections that there are.
pub catalog-append_service :
    (sections : List Json) (title : String) (svc : Fields)
    → Perm
        (catalog_of (append_service_to_category sections title svc))
        (platform_service_from_map svc title ∷ catalog_of sections)
unfolding append_service_to_category maps_of platform_services_of
catalog-append_service [] title svc =
    rw (catalog-new_section title svc) (Perm.refl (platform_service_from_map svc title ∷ []))
catalog-append_service (object cat ∷ vs) title svc =
    elim (Bool-cases (get_string cat "title" == title)) [
      | inl here ↦
          let stands : get_string cat "title" ≡ title =
            eq_of_test (get_string cat "title") title here in
          let old = category_services cat in
          rw
            (
              here,
              title-put (array (of_list (old ++ (object svc ∷ [])))) cat,
              category_services-put (old ++ (object svc ∷ [])) cat,
              stands,
              services_of-append title old svc,
            )
            (services-with_service (services_of title old) (catalog_of vs)
              (platform_service_from_map svc title))
      | inr further ↦
          let old = services_of (get_string cat "title") (category_services cat) in
          rw further (
            Perm.trans (Perm.append_left old (catalog-append_service vs title svc))
              (perm_middle old (catalog_of vs)))
    ]
catalog-append_service (v ∷ vs) title svc = catalog-append_service vs title svc
