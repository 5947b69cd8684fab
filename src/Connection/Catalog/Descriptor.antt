-- ===== src/Connection/Catalog/Descriptor.antt =====
-- What `validateTypeDescriptor` and the loading of the catalog guarantee about the descriptors.
use okdp_control_plane_serve.Base.{
  String, false, none, List, [], ◌∷◌, ◌≡◌, refl, ◌≢◌, ◌↔◌, ◌⊎◌, All, contains, arith, eq_iff,
}
use mathlib.Core.List.{Perm}
use okdp_control_plane_serve.Base.Go.{ok, sort_by}
use okdp_control_plane_serve.Base.Sorting.{SortedBy, sort_by-SortedBy, sort_by-perm, sort_by-All}
use okdp_control_plane_serve.Connection.Model.{ConnectionField, ContractDescriptor}
use okdp_control_plane_serve.Connection.Catalog.{
  check_descriptors, check_duplicates, new_embedded_catalog, check_field_descriptor,
  check_field_descriptors, validate_type_descriptor,
}

module _ {F : Type 0} where
  -- The type of a field is one that the validation knows, and an enum has options.
  abbrev pub IsSupported : ConnectionField F → Type 0
  IsSupported f =
      (f.type ≡ "string")
      ⊎ (f.type ≡ "number")
      ⊎ (f.type ≡ "boolean")
      ⊎ ((f.type ≡ "enum") × (f.options ≢ []))

  -- Each field has a name that no earlier field and none of `seen` has, and a supported type.
  abbrev pub AreDeclared : List String → List (ConnectionField F) → Type 0
  AreDeclared seen [] = Unit
  AreDeclared seen (f ∷ fs) =
      (f.name ≢ "")
      × (contains seen f.name ≡ false)
      × IsSupported f
      × AreDeclared (f.name ∷ seen) fs

  pub record IsWellFormed (ct : ContractDescriptor F) : Type 0 where
    pub named : ct.name ≢ ""
    pub some_field : ct.fields ≢ []
    pub declared : AreDeclared [] ct.fields

  enum_options :
      (f : ConnectionField F)
      → f.options ≢ []
      → (o : String) × (os : List String) × (f.options ≡ o ∷ os)
  enum_options f h = go f.options h
    where
      go : (l : List String) → l ≢ [] → (o : String) × (os : List String) × (l ≡ o ∷ os)
      go [] h = absurd (h refl)
      go (o ∷ os) h = (o, os, refl)

  field_descriptor_sound :
      (seen : List String) (f : ConnectionField F)
      → check_field_descriptor seen f ≡ none
      → (f.name ≢ "") × (contains seen f.name ≡ false) × IsSupported f
  unfolding check_field_descriptor
  field_descriptor_sound seen f h = ground (
    arith,
    eq_iff f.name "",
    eq_iff f.type "string",
    eq_iff f.type "number",
    eq_iff f.type "boolean",
    eq_iff f.type "enum",
  )

  field_descriptor_complete :
      (seen : List String) (f : ConnectionField F)
      → f.name ≢ ""
      → contains seen f.name ≡ false
      → IsSupported f
      → check_field_descriptor seen f ≡ none
  unfolding check_field_descriptor
  field_descriptor_complete seen f named fresh supported = ground (
    arith,
    eq_iff f.name "",
    eq_iff f.type "string",
    eq_iff f.type "number",
    eq_iff f.type "boolean",
    eq_iff f.type "enum",
  )

  field_descriptors_iff :
      (seen : List String) (fs : List (ConnectionField F))
      → (check_field_descriptors seen fs ≡ none) ↔ AreDeclared seen fs
  unfolding check_field_descriptors
  field_descriptors_iff seen [] = (λ _. tt, λ _. refl)
  field_descriptors_iff seen (f ∷ fs) =
      let later = field_descriptors_iff (f.name ∷ seen) fs in
      (
        λ h.
            let good : check_field_descriptor seen f ≡ none = ground arith in
            let (named, fresh, supported) = field_descriptor_sound seen f good in
            (named, fresh, supported, later.0 (ground arith)),
        λ h.
            rw (field_descriptor_complete seen f h.0 h.1 h.2, check_field_descriptors)
              (later.1 h.3),
      )

  -- `validateTypeDescriptor` accepts exactly the descriptors with a name, at least one field, field
  -- names that are non-empty and all different, known field types, and options for each enum.
  pub validate_type_descriptor_iff :
      (ct : ContractDescriptor F) → (validate_type_descriptor ct ≡ none) ↔ IsWellFormed ct
  unfolding validate_type_descriptor
  validate_type_descriptor_iff ct = (sound, complete)
    where
      sound : validate_type_descriptor ct ≡ none → IsWellFormed ct
      sound h = record {
        named = ground (arith, eq_iff ct.name "");
        some_field = ground arith;
        declared = (field_descriptors_iff [] ct.fields).0 (ground arith);
      }

      complete : IsWellFormed ct → validate_type_descriptor ct ≡ none
      complete w = ground (
        arith,
        eq_iff ct.name "",
        w.some_field,
        (field_descriptors_iff [] ct.fields).1 w.declared,
      )

  check_descriptors_sound :
      (cts : List (ContractDescriptor F)) → check_descriptors cts ≡ none → All IsWellFormed cts
  unfolding check_descriptors
  check_descriptors_sound [] h = tt
  check_descriptors_sound (ct ∷ cts) h =
      let good : validate_type_descriptor ct ≡ none = ground arith in
      ((validate_type_descriptor_iff ct).0 good, check_descriptors_sound cts (ground arith))

  -- No two contracts of the list, and none of it and of `seen`, share a name.
  abbrev pub DistinctNames : List String → List (ContractDescriptor F) → Type 0
  DistinctNames seen [] = Unit
  DistinctNames seen (ct ∷ cts) =
      (contains seen ct.name ≡ false) × DistinctNames (ct.name ∷ seen) cts

  check_duplicates_sound :
      (seen : List String) (cts : List (ContractDescriptor F))
      → check_duplicates seen cts ≡ none
      → DistinctNames seen cts
  unfolding check_duplicates
  check_duplicates_sound seen [] h = tt
  check_duplicates_sound seen (ct ∷ cts) h =
      (ground arith, check_duplicates_sound (ct.name ∷ seen) cts (ground arith))

  -- A catalog that loads holds the decoded contracts and no other, each of them well formed, sorted
  -- by name, and no two of one name: a contract is found by its name.
  pub new_embedded_catalog_lem :
      (cts : List (ContractDescriptor F)) {types : List (ContractDescriptor F)}
      → new_embedded_catalog cts ≡ ok types
      → All IsWellFormed types
        × DistinctNames [] types
        × SortedBy (λ (ct : ContractDescriptor F). ct.name) types
        × Perm types cts
  unfolding new_embedded_catalog
  new_embedded_catalog_lem cts {types} h =
      let name : ContractDescriptor F → String = λ ct. ct.name in
      let good : check_descriptors cts ≡ none = ground arith in
      let sorted : types ≡ sort_by name cts = ground arith in
      let distinct : check_duplicates [] (sort_by name cts) ≡ none = ground arith in
      rw sorted (
        sort_by-All name IsWellFormed cts (check_descriptors_sound cts good),
        check_duplicates_sound [] (sort_by name cts) distinct,
        sort_by-SortedBy name cts,
        sort_by-perm name cts,
      )
