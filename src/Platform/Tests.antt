-- ===== src/Platform/Tests.antt =====
-- The theorems on the platform Context at concrete inputs: a server that stores one new version of a
-- Context with one section.
use okdp_control_plane_serve.Base.{
  String, true, false, Option, none, some, List, [], ◌∷◌, ◌≡◌, refl, ap, sym, ◌∙◌, ◌≢◌, ◌⊎◌, inl,
  inr, ◌==◌, arith, Bool-cases, true_ne_false, eq_of_test, if◌then◌else◌, ℕ, ◌+◌, ◌≤◌,
}
use okdp_control_plane_serve.Base.Go.{Result, ok, err, Action}
use okdp_control_plane_serve.Base.Json.{
  Json, string, array, object, Fields, end, entry, of_list, items-of_list, get, put, get-put_self,
  get-put_ne, text_of,
}
use okdp_control_plane_serve.Platform.Model.{PlatformService}
use okdp_control_plane_serve.Platform.Sections.{
  list_of, list_at, platform_service_from_map, platform_service_to_map,
}
use okdp_control_plane_serve.Platform.Entries.{from_map-to_map}
use okdp_control_plane_serve.Platform.Context.{
  ContextError, conflict, Unstructured, ContextApi, Cached, context_cache_ttl, get_context,
  invalidate,
}
use okdp_control_plane_serve.Platform.Reading.{categories_path}
use okdp_control_plane_serve.Platform.Atomic.{Extends, stop, RetryLaw, UnstructuredLaws, ServerLaws}
use okdp_control_plane_serve.Platform.Refinement.{
  Edit, Storable, Promise, perform, Step, perform-Promise,
}
use okdp_control_plane_serve.Platform.Freshness.{
  ReadLaws, start, next, read, get_context_age, get_context-invalidate,
}

abbrev pub trino : PlatformService
trino = record {
  name = "trino";
  versions = "1.0" ∷ "1.1" ∷ [];
  default_version = "1.1";
  description = "queries";
  icon = "";
  category = "Compute";
  repository = "";
  label = "Trino";
  exposes_ui = some true;
}

no_text : ◌≢◌ {A = String} "1.1" ""
no_text e = true_ne_false (ap (λ (s : String). s == "1.1") e)

pub trino-Storable : Storable trino
trino-Storable = ("1.0", "1.1" ∷ [], refl, no_text)

from_map-to_map_example :
    platform_service_from_map (platform_service_to_map trino) "Compute" ≡ record trino { icon = "" }
from_map-to_map_example = from_map-to_map trino "1.0" ("1.1" ∷ []) refl no_text

-- Values at a path, for objects that have their sections at the top.
unfoldable pub flat : Unstructured
flat = record {
  nested_slice = λ u path. ok (some (list_at u "categories"));
  nested_map = λ u path. ok none;
  nested_string = λ u path. "";
  nested_bool = λ u path. false;
  set_nested_slice = λ u vs path. ok (put "categories" (array (of_list vs)) u);
}

unfoldable pub version_of : Fields → String
version_of u = text_of (get "version" u)

ok_inj : {u v : Fields} → ◌≡◌ {A = Result ContextError Fields} (ok u) (ok v) → u ≡ v
ok_inj e = cc

pub flat_laws : UnstructuredLaws flat version_of
unfolding flat version_of list_at list_of
flat_laws = record {
  set_reads = λ u v vs set.
      let it : put "categories" (array (of_list vs)) u ≡ v = ok_inj set in
      rw⁻¹ it (
        ap (λ l. ok (some l))
            (ap list_of (get-put_self "categories" (array (of_list vs)) u) ∙ items-of_list vs),
        ap text_of (get-put_ne "categories" "version" (array (of_list vs)) u refl),
      );
}

-- The first version, and a second one with new sections.
unfoldable pub first : Fields
first =
    entry "version" (string "0") (
      entry "categories" (array (of_list (object (entry "title" (string "Compute") end) ∷ []))) end)

unfoldable pub second : List Json → Fields
second sections = entry "version" (string "1") (entry "categories" (array (of_list sections)) end)

unfoldable pub versions : Option (List Json) → List Fields
unfolding first second
versions none = first ∷ []
versions (some sections) = second sections ∷ first ∷ []

unfoldable pub newest : Option (List Json) → Fields
unfolding first second
newest none = first
newest (some sections) = second sections

unfoldable pub accept : Fields → Action (Option (List Json)) ContextError (Unit {0})
unfolding version_of
accept u none =
    if version_of u == "0" then (ok tt, some (list_at u "categories")) else (err conflict, none)
accept u (some sections) = (err conflict, some sections)

-- A server whose clock stands still.
unfoldable pub server : ContextApi (Option (List Json))
unfolding newest accept
server = record { get = λ w. (ok (newest w), w); update = accept; now = λ w. 7 }

abbrev pub once :
    Action (Option (List Json)) ContextError (Unit {0})
    → Action (Option (List Json)) ContextError (Unit {0})
once f = f

pub once_law : RetryLaw once
once_law f w = (w, stop, refl)

two_versions :
    (sections : List Json) (u : Fields) (before : List Fields)
    → Extends (u ∷ before) (versions (some sections))
    → (u ≡ second sections) ⊎ (u ≡ first)
unfolding versions
two_versions sections u before ([], e) = inl cc
two_versions sections u before (x ∷ [], e) = inr cc
two_versions sections u before (x ∷ y ∷ [], e) = absurd (ground arith)
two_versions sections u before (x ∷ y ∷ z ∷ more, e) = absurd (ground arith)

one_version : (u : Fields) (before : List Fields) → Extends (u ∷ before) (versions none) → u ≡ first
unfolding versions
one_version u before ([], e) = cc
one_version u before (x ∷ [], e) = absurd (ground arith)
one_version u before (x ∷ y ∷ more, e) = absurd (ground arith)

unlike : (sections : List Json) → version_of (second sections) ≢ version_of first
unfolding second first version_of text_of get
unlike sections e = true_ne_false (ap (λ (s : String). s == "1") e)

newest_reads :
    (w : Option (List Json))
    → (early : List Fields) × Extends (versions w) (newest w ∷ early)
      × Extends (newest w ∷ early) (versions w)
unfolding versions newest
newest_reads none = ([], ([], refl), ([], refl))
newest_reads (some sections) = (first ∷ [], ([], refl), ([], refl))

server_distinct :
    (w : Option (List Json)) (a b : Fields) (before_a before_b : List Fields)
    → Extends (a ∷ before_a) (versions w)
    → Extends (b ∷ before_b) (versions w)
    → version_of a ≡ version_of b
    → a ≡ b
server_distinct none a b before_a before_b in_a in_b same =
    one_version a before_a in_a ∙ sym (one_version b before_b in_b)
server_distinct (some sections) a b before_a before_b in_a in_b same =
    elim (two_versions sections a before_a in_a) [
      | inl ea ↦ elim (two_versions sections b before_b in_b) [
        | inl eb ↦ ea ∙ sym eb
        | inr eb ↦ absurd (unlike sections (ap version_of (sym ea) ∙ same ∙ ap version_of eb))
      ]
      | inr ea ↦ elim (two_versions sections b before_b in_b) [
        | inl eb ↦ absurd (unlike sections (ap version_of (sym eb) ∙ sym same ∙ ap version_of ea))
        | inr eb ↦ ea ∙ sym eb
      ]
    ]

accept-Extends :
    (u : Fields) (w : Option (List Json)) → Extends (versions w) (versions (accept u w).1)
unfolding versions accept
accept-Extends u none = elim (Bool-cases (version_of u == "0")) [
  | inl current ↦ rw current (second (list_at u "categories") ∷ [], refl)
  | inr stale ↦ rw stale ([], refl)
]
accept-Extends u (some sections) = ([], refl)

first_version : version_of first ≡ "0"
unfolding version_of first text_of get
first_version = refl

second_sections : (l : List Json) → list_at (second l) "categories" ≡ l
unfolding second list_at list_of get
second_sections l = items-of_list l

accept_replaces :
    (u : Fields) (w : Option (List Json))
    → (accept u w).0 ≡ ok tt
    → (stored prev : Fields) × (early : List Fields) × Extends (versions w) (prev ∷ early)
      × Extends (stored ∷ prev ∷ early) (versions (accept u w).1)
      × (version_of prev ≡ version_of u)
      × (flat.nested_slice stored categories_path ≡ flat.nested_slice u categories_path)
unfolding versions accept flat
accept_replaces u (some sections) h = absurd (ground arith)
accept_replaces u none h = elim (Bool-cases (version_of u == "0")) [
  | inr stale ↦ absurd (ground arith)
  | inl current ↦ (
    second (list_at u "categories"),
    first,
    [],
    ([], refl),
    rw current ([], refl),
    first_version ∙ sym (eq_of_test (version_of u) "0" current),
    ap (λ l. ok (some l)) (second_sections (list_at u "categories")),
  )
]

pub server_laws : ServerLaws flat version_of server versions
unfolding server
server_laws = record {
  distinct = server_distinct;
  get_extends = λ w. ([], refl);
  get_reads = λ w u e. rw⁻¹ (ok_inj e) (newest_reads w);
  update_extends = accept-Extends;
  update_replaces = accept_replaces;
}

perform-Promise_example :
    Step flat version_of server versions
      (Promise (Edit.add trino))
      none
      (perform flat server once (Edit.add trino) none).1
unfolding perform server flat text_of get put
perform-Promise_example =
    perform-Promise flat version_of server versions flat_laws server_laws once once_law
      (Edit.add trino) none trino-Storable refl

-- What the server had stored at the one time that its clock shows.
abbrev Shown : ℕ → Fields → Type 0
Shown t u = (t ≡ 7) × ((w : Option (List Json)) × (u ≡ newest w))

read_laws : ReadLaws server Shown 0
unfolding server
read_laws = record {
  get_answers = λ w u e. (7, (refl, (w, sym (ok_inj e))), omega arith, omega arith);
  get_takes = λ w. (omega arith, omega arith);
}

abbrev pub empty_cache : Cached (Option (List Json))
empty_cache = record { cached = none; cached_at = 0; world = none }

abbrev old_cache : Cached (Option (List Json))
old_cache = record { cached = some (second []); cached_at = 6; world = none }

abbrev read_cache : Cached (Option (List Json))
read_cache = record { cached = some first; cached_at = 7; world = none }

get_context_age_example :
    (t : ℕ) × Shown t first
    × (server.now (get_context server read_cache).1.world ≤ t + 0 + context_cache_ttl)
unfolding get_context server
get_context_age_example =
    get_context_age server Shown 0 read_laws {s = empty_cache} {s' = read_cache} first refl
      (next start read) refl

get_context-invalidate_example :
    (t : ℕ) × Shown t first
    × (server.now none ≤ t)
    × (t ≤ server.now (get_context server (invalidate old_cache)).1.world)
unfolding get_context server invalidate
get_context-invalidate_example =
    get_context-invalidate server Shown 0 read_laws old_cache first refl
