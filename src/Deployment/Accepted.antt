-- ===== src/Deployment/Accepted.antt =====
-- What the catalogue accepts (`normalizeAndValidateCatalogService` of
-- internal/service/service_service.go).
use okdp_control_plane_serve.Base.{
  String, Bool, true, false, List, [], ◌∷◌, ◌≡◌, refl, ap, sym, ◌∙◌, ◌≢◌, inl, inr, ◌==◌, ◌||◌,
  arith, Bool-cases, contains, All, test_false_ne, eq_of_test, eq_refl, true_ne_false,
}
use okdp_control_plane_serve.Base.Distinct.{Distinct}
use okdp_control_plane_serve.Base.Go.{ok}
use okdp_control_plane_serve.Base.Steps.{Result-cases}
use okdp_control_plane_serve.Base.Text.{trim_space, trim_left, trim_right}
use okdp_control_plane_serve.Platform.Model.{PlatformService}
use okdp_control_plane_serve.Platform.Refinement.{Storable}
use okdp_control_plane_serve.Deployment.Model.{Defaulted}
use okdp_control_plane_serve.Deployment.Catalog.{
  distinct_versions, default_in, with_default, checked_versions,
  normalize_and_validate_catalog_service,
}

-- None of the versions is blank or among those seen before, and none comes twice.
abbrev Fresh : List String → List String → Type 0
Fresh seen [] = Unit
Fresh seen (v ∷ vs) =
    ((trim_space v == "") ≡ false) × (contains seen v ≡ false) × Fresh (v ∷ seen) vs

distinct_versions-Fresh :
    (seen vs all : List String)
    → distinct_versions seen vs ≡ ok all
    → Fresh seen vs × ((n : String) → contains all n ≡ (contains vs n || contains seen n))
unfolding distinct_versions
distinct_versions-Fresh seen [] all h = (tt, λ n. ground arith)
distinct_versions-Fresh seen (v ∷ vs) all h = elim (Bool-cases (trim_space v == "")) [
  | inl blank ↦ absurd (ground arith)
  | inr full ↦ elim (Bool-cases (contains seen v)) [
    | inl again ↦ absurd (ground arith)
    | inr new ↦
        let (rest, has) = distinct_versions-Fresh (v ∷ seen) vs all (rw (full, new) at h) in
        ((full, new, rest), λ n. has n ∙ ground arith)
  ]
]

Fresh-lacks :
    (seen vs : List String) (n : String)
    → Fresh seen vs
    → contains seen n ≡ true
    → contains vs n ≡ false
Fresh-lacks seen [] n f h = refl
Fresh-lacks seen (v ∷ vs) n f h = elim (Bool-cases (v == n)) [
  | inl it ↦
      let same : contains seen v ≡ contains seen n = ap (contains seen) (eq_of_test v n it) in
      absurd (ground arith)
  | inr other ↦ rw other (Fresh-lacks (v ∷ seen) vs n f.2 (rw other h))
]

Fresh-Distinct : (seen vs : List String) → Fresh seen vs → Distinct vs
Fresh-Distinct seen [] f = tt
Fresh-Distinct seen (v ∷ vs) f =
    (Fresh-lacks (v ∷ seen) vs v f.2 (ground (arith, eq_refl v)), Fresh-Distinct (v ∷ seen) vs f.2)

-- A version that is not blank.
abbrev pub IsFilled : String → Type 0
IsFilled v = trim_space v ≢ ""

Fresh-IsFilled : (seen vs : List String) → Fresh seen vs → All IsFilled vs
Fresh-IsFilled seen [] f = tt
Fresh-IsFilled seen (v ∷ vs) f =
    (test_false_ne (trim_space v) "" f.0, Fresh-IsFilled (v ∷ seen) vs f.2)

All-contains :
    (P : String → Type 0) (xs : List String) (n : String) → All P xs → contains xs n ≡ true → P n
All-contains P [] n all h = absurd (true_ne_false (sym h))
All-contains P (x ∷ xs) n all h = elim (Bool-cases (x == n)) [
  | inl it ↦ rw⁻¹ (eq_of_test x n it) all.0
  | inr other ↦ All-contains P xs n all.1 (rw other at h)
]

trim_nothing : trim_space "" ≡ ""
unfolding trim_space trim_left trim_right
trim_nothing = refl

filled_given : (v : String) → IsFilled v → v ≢ ""
filled_given v filled blank = filled (ap trim_space blank ∙ trim_nothing)

-- What holds of a service that was accepted: it has a name of the required form and a section, versions
-- that are not blank and none twice, and one of them as its default.
abbrev pub Accepted : (String → Bool) → PlatformService → Type 0
Accepted is_service_name s =
    (s.name ≢ "")
    × (is_service_name s.name ≡ true)
    × (s.category ≢ "")
    × Distinct s.versions
    × All IsFilled s.versions
    × (contains s.versions s.default_version ≡ true)

default_lem :
    (d first : String) (rest seen : List String) (chosen : String)
    → ((n : String) → contains seen n ≡ (contains (first ∷ rest) n || false))
    → default_in d first seen ≡ ok chosen
    → (contains (first ∷ rest) chosen ≡ true) × Defaulted d first chosen
unfolding default_in
default_lem d first rest seen chosen has h = elim (Bool-cases (d == "")) [
  | inl blank ↦
      let it : first ≡ chosen = ground arith in
      (rw⁻¹ it (ground (arith, eq_refl first)), inl (eq_of_test d "" blank, sym it))
  | inr given ↦ elim (Bool-cases (contains seen d)) [
    | inr unlisted ↦ absurd (ground arith)
    | inl listed ↦
        let it : d ≡ chosen = ground arith in
        (rw⁻¹ it (ground (arith, has d)), inr (test_false_ne d "" given, sym it))
  ]
]

-- The default that is stored: the given one, or the first version where none is given.
abbrev pub DefaultOf : PlatformService → String → Type 0
DefaultOf svc chosen =
    (first : String) × (rest : List String) × (svc.versions ≡ first ∷ rest)
    × Defaulted svc.default_version first chosen

-- The service that is stored for an accepted one.
abbrev pub tidied : PlatformService → String → PlatformService
tidied svc default_version = record svc {
  name = trim_space svc.name;
  category = trim_space svc.category;
  default_version = default_version;
}

checked_versions-Accepted :
    (is_service_name : String → Bool) (svc accepted : PlatformService)
    → svc.name ≢ ""
    → is_service_name svc.name ≡ true
    → svc.category ≢ ""
    → checked_versions svc svc.versions ≡ ok accepted
    → Accepted is_service_name accepted
      × Storable accepted
      × (accepted ≡ record svc { default_version = accepted.default_version })
      × DefaultOf svc accepted.default_version
unfolding checked_versions with_default
checked_versions-Accepted is_service_name svc accepted named formed placed h =
    go svc.versions refl h
  where
    go :
        (versions : List String)
        → svc.versions ≡ versions
        → checked_versions svc versions ≡ ok accepted
        → Accepted is_service_name accepted
          × Storable accepted
          × (accepted ≡ record svc { default_version = accepted.default_version })
          × DefaultOf svc accepted.default_version
    go [] listed h = absurd (ground arith)
    go (v ∷ vs) listed h = elim (Result-cases (distinct_versions [] (v ∷ vs))) [
      | inr (e, broken) ↦ absurd (ground arith)
      | inl (seen, distinct) ↦ elim (Result-cases (default_in svc.default_version v seen)) [
        | inr (e, broken) ↦ absurd (ground arith)
        | inl (d, chosen) ↦
            let (fresh, has) = distinct_versions-Fresh [] (v ∷ vs) seen distinct in
            let it : record svc { default_version = d } ≡ accepted = ground arith in
            let (member, kept) = default_lem svc.default_version v vs seen d has chosen in
            let filled = Fresh-IsFilled [] (v ∷ vs) fresh in
            rw⁻¹ it (
              (
                named,
                formed,
                placed,
                rw listed (Fresh-Distinct [] (v ∷ vs) fresh),
                rw listed filled,
                rw listed member,
              ),
              (v, vs, listed, filled_given d (All-contains IsFilled (v ∷ vs) d filled member)),
              refl,
              (v, vs, listed, kept),
            )
      ]
    ]

-- A service is accepted only with a name of the required form, a section, versions that are not blank and
-- none twice, and a default among them. The name and the section lose their outer spaces, a missing
-- default becomes the first version, and nothing else is changed: a default that is given is kept.
pub normalize_and_validate_catalog_service-Accepted :
    (is_service_name : String → Bool) (svc accepted : PlatformService)
    → normalize_and_validate_catalog_service is_service_name svc ≡ ok accepted
    → Accepted is_service_name accepted
      × Storable accepted
      × (accepted ≡ tidied svc accepted.default_version)
      × DefaultOf svc accepted.default_version
unfolding normalize_and_validate_catalog_service
normalize_and_validate_catalog_service-Accepted is_service_name svc accepted h =
    let name = trim_space svc.name in
    let category = trim_space svc.category in
    elim (Bool-cases (name == "")) [
      | inl blank ↦ absurd (ground arith)
      | inr named ↦ elim (Bool-cases (is_service_name name)) [
        | inr wrong ↦ absurd (ground arith)
        | inl formed ↦ elim (Bool-cases (category == "")) [
          | inl blank ↦ absurd (ground arith)
          | inr placed ↦
              checked_versions-Accepted is_service_name
                (record svc { name = name; category = category }) accepted
                (test_false_ne name "" named) formed (test_false_ne category "" placed)
                (rw (named, formed, placed) at h)
        ]
      ]
    ]
