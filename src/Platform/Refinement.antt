-- ===== src/Platform/Refinement.antt =====
-- The service catalogue as its callers see it: the services in any order of sections, and what the
-- edits of internal/repository/context_writer_repository.go promise of it.
use okdp_control_plane_serve.Base.{
  String, true, false, not, Option, none, some, List, [], ◌∷◌, ◌≡◌, refl, ap, sym, ◌∙◌, ◌≢◌, inl,
  inr, if◌then◌else◌, filter_by, any_of, Bool-cases, arith,
}
use mathlib.Core.List.{Perm}
use mathlib.Core.List.Perm
use okdp_control_plane_serve.Base.Go.{ok, Action}
use okdp_control_plane_serve.Base.Json.{Json, Fields}
use okdp_control_plane_serve.Platform.Model.{PlatformService}
use okdp_control_plane_serve.Platform.Sections.{
  maps_of, platform_services_of, platform_service_to_map, without_service, found_in,
}
use okdp_control_plane_serve.Platform.Laws.{
  catalog_of, called, catalog-without_service, found_in-catalog, catalog-append_service,
}
use okdp_control_plane_serve.Platform.Entries.{from_map-to_map}
use okdp_control_plane_serve.Platform.Context.{ContextError, Unstructured, ContextApi}
use okdp_control_plane_serve.Platform.Reading.{
  categories_path, sections_result, catalog_categories, services_result, services_in,
}
use okdp_control_plane_serve.Platform.Writer.{
  or_empty, add_edit, update_edit, remove_edit, add_platform_service, update_platform_service,
  remove_platform_service, mutate_categories,
}
use okdp_control_plane_serve.Platform.Atomic.{
  Extends, RetryLaw, UnstructuredLaws, ServerLaws, mutate_categories-Replaced,
}

-- The edits that the console asks for.
pub data Edit : Type 0 where
  add : PlatformService → Edit
  update : String → PlatformService → Edit
  remove : String → Edit

-- A service that an edit may write: the catalogue stores a version and a default version of it.
abbrev pub Storable : PlatformService → Type 0
Storable s = (v : String) × (vs : List String) × (s.versions ≡ v ∷ vs) × (s.default_version ≢ "")

abbrev pub StorableEdit : Edit → Type 0
StorableEdit (add s) = Storable s
StorableEdit (update name s) = Storable s
StorableEdit (remove name) = Unit

-- The service as it is read back.
abbrev pub stored_form : PlatformService → PlatformService
stored_form s = record s { icon = "" }

abbrev others : String → List PlatformService → List PlatformService
others name before = filter_by (λ s. not (called name s)) before

-- What an edit promises of the services before and after it, whatever their order. Of several services
-- of the same name, an update leaves the new one alone.
abbrev pub Promise : Edit → List PlatformService → List PlatformService → Type 0
Promise (add s) before after = Perm after (stored_form s ∷ before)
Promise (update name s) before after =
    Perm after (if any_of (called name) before then stored_form s ∷ others name before else before)
Promise (remove name) before after = after ≡ others name before

unfoldable pub section_edit : Edit → List Json → List Json
unfolding add_edit update_edit remove_edit
section_edit (add s) = add_edit s
section_edit (update name s) = update_edit name s
section_edit (remove name) = remove_edit name

add-Promise :
    (s : PlatformService) (sections : List Json)
    → Storable s
    → Perm (catalog_of (add_edit s sections)) (stored_form s ∷ catalog_of sections)
unfolding add_edit
add-Promise s sections (v, vs, listed, given) =
    rw⁻¹ (from_map-to_map s v vs listed given)
      (catalog-append_service sections s.category (platform_service_to_map s))

none_called :
    (name : String) (services : List PlatformService)
    → any_of (called name) services ≡ false
    → others name services ≡ services
none_called name [] h = refl
none_called name (s ∷ ss) h = elim (Bool-cases (called name s)) [
  | inl it ↦ absurd (ground arith)
  | inr other ↦ rw other (ap (λ l. s ∷ l) (none_called name ss (rw other at h)))
]

-- Each edit of the sections keeps its promise on the services that are read from them.
section_edit-Promise :
    (e : Edit) (sections : List Json)
    → StorableEdit e
    → Promise e (catalog_of sections) (catalog_of (section_edit e sections))
unfolding section_edit update_edit remove_edit
section_edit-Promise (add s) sections storable = add-Promise s sections storable
section_edit-Promise (update name s) sections storable =
    elim (Bool-cases (found_in name sections)) [
      | inl found ↦
          let here : any_of (called name) (catalog_of sections) ≡ true =
            sym (found_in-catalog name sections) ∙ found in
          rw (found, here, ← catalog-without_service name sections)
            (add-Promise s (without_service name sections) storable)
      | inr missing ↦
          let nowhere : any_of (called name) (catalog_of sections) ≡ false =
            sym (found_in-catalog name sections) ∙ missing in
          rw
            (
              missing,
              nowhere,
              catalog-without_service name sections,
              none_called name (catalog_of sections) nowhere,
            )
            (Perm.refl (catalog_of sections))
    ]
section_edit-Promise (remove name) sections storable = catalog-without_service name sections

services_in-catalog :
    (k : Unstructured) (u : Fields) (sections : Option (List Json))
    → k.nested_slice u categories_path ≡ ok sections
    → services_in k u ≡ ok (catalog_of (or_empty sections))
unfolding services_in services_result catalog_categories sections_result or_empty
    platform_services_of maps_of
services_in-catalog k u none read = ap (λ r. services_result k (sections_result k r)) read
services_in-catalog k u (some raw) read = ap (λ r. services_result k (sections_result k r)) read

-- The call of the writer for an edit.
unfoldable pub perform :
    (k : Unstructured) {W : Type 0} (c : ContextApi W)
    (retry : Action W ContextError (Unit {0}) → Action W ContextError (Unit {0}))
    → Edit
    → Action W ContextError (Unit {0})
unfolding add_platform_service update_platform_service remove_platform_service
perform k c retry (add s) = add_platform_service k c retry s
perform k c retry (update name s) = update_platform_service k c retry name s
perform k c retry (remove name) = remove_platform_service k c retry name

perform-mutate_categories :
    (k : Unstructured) {W : Type 0} (c : ContextApi W)
    (retry : Action W ContextError (Unit {0}) → Action W ContextError (Unit {0})) (e : Edit) (w : W)
    → perform k c retry e w ≡ mutate_categories k c retry (section_edit e) w
unfolding perform section_edit add_platform_service update_platform_service remove_platform_service
perform-mutate_categories k c retry (add s) w = refl
perform-mutate_categories k c retry (update name s) w = refl
perform-mutate_categories k c retry (remove name) w = refl

module _ (k : Unstructured) (version : Fields → String) {W : Type 0} (c : ContextApi W)
    (history : W → List Fields) where
  -- Two versions that follow one another in the history, both after all that there was before, and the
  -- services that are read from each.
  abbrev pub Step : (List PlatformService → List PlatformService → Type 0) → W → W → Type 0
  Step R w w' =
      (prev stored : Fields) × (early : List Fields) × (before after : List PlatformService)
      × Extends (history w) (prev ∷ early)
      × Extends (stored ∷ prev ∷ early) (history w')
      × (services_in k prev ≡ ok before)
      × (services_in k stored ≡ ok after)
      × R before after

  -- An edit of the catalogue that reports success is one step of the abstract catalogue. Two versions
  -- follow one another in the history of the Context, newer than what there was when the edit began, and
  -- the services that are read from the second are those of the first with the new service added, or
  -- in the place of all that had the name, or without those that have the name. Others may write the
  -- Context at any time, and the edit may have been attempted any number of times.
  -- The service of an edit has a version and a default version; it is stored without its icon.
  pub perform-Promise :
      UnstructuredLaws k version
      → ServerLaws k version c history
      → (retry : Action W ContextError (Unit {0}) → Action W ContextError (Unit {0}))
      → RetryLaw retry
      → (e : Edit) (w : W) → StorableEdit e
      → (perform k c retry e w).0 ≡ ok tt
      → Step (Promise e) w (perform k c retry e w).1
  unfolding section_edit or_empty
  perform-Promise unstructured server retry retries e w storable done =
      let same = perform-mutate_categories k c retry e w in
      let (prev, stored, early, sections, before, after, had, has) =
        mutate_categories-Replaced k version c history unstructured server retry retries
          (section_edit e) w (rw same at done) in
      (
        prev,
        stored,
        early,
        catalog_of (or_empty sections),
        catalog_of (section_edit e (or_empty sections)),
        before,
        rw same after,
        services_in-catalog k prev sections had,
        services_in-catalog k stored (some (section_edit e (or_empty sections))) has,
        section_edit-Promise e (or_empty sections) storable,
      )
