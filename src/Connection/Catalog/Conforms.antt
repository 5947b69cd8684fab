-- ===== src/Connection/Catalog/Conforms.antt =====
-- What `embeddedCatalog.validate` accepts, described without its order of tests, and that the
-- order in which Go ranges over the submitted map cannot change the verdict.
use mathlib.Core.Path.{subst}
use mathlib.Core.Option.{some-injective}
use okdp_control_plane_serve.Base.{
  String, Bool, true, false, none, some, List, [], ◌∷◌, ◌≡◌, refl, ◌≢◌, ◌↔◌, ◌⊎◌, inl, inr, All,
  contains, arith, ◌∙◌, sym, eq_iff, Bool-cases, Option-cases, ◌==◌, test_false_ne, test_ne,
  true_ne_false,
}
use okdp_control_plane_serve.Base.Dict.{Dict, lookup}
use okdp_control_plane_serve.Connection.Model.{
  Value, bool, string, number, NumberKind, ConnectionField, ContractDescriptor, applies, field,
}
use okdp_control_plane_serve.Connection.Catalog.{
  Floats, to_float, is_blank, get, below_min, above_max, validate_number, validate_string,
  validate_boolean, validate_enum, validate_field_value, check_field, check_fields, check_keys,
  validate_values, validate_update,
}

module _ {F : Type 0} (fl : Floats F) where
  -- A number is within the bounds that the field declares.
  pub record InRange (f : ConnectionField F) (n : F) : Type 0 where
    pub low : (m : F) → f.min ≡ some m → fl.lt n m ≡ false
    pub high : (m : F) → f.max ≡ some m → fl.lt m n ≡ false

  -- A value has the type that the field declares.
  pub data HasType (f : ConnectionField F) : Value F → Type 0 where
    text : {s : String} → f.type ≡ "string" → HasType f (string s)
    flag : {b : Bool} → f.type ≡ "boolean" → HasType f (bool b)
    quantity : {k : NumberKind} {n : F} → f.type ≡ "number" → InRange f n → HasType f (number k n)
    choice : {s : String} → f.type ≡ "enum" → contains f.options s ≡ true → HasType f (string s)
    unchecked :
        {v : Value F}
        → f.type ≢ "string"
        → f.type ≢ "boolean"
        → f.type ≢ "number"
        → f.type ≢ "enum"
        → HasType f v

  -- The field may be left out: it is optional, or a credential where those may be left out.
  abbrev pub MayOmit : Bool → ConnectionField F → Type 0
  MayOmit require_secrets f = (f.required ≡ false) ⊎ ((require_secrets ≡ false) × (f.secret ≡ true))

  pub data FieldConforms (rs : Bool) (values : Dict (Value F)) (f : ConnectionField F)
      : Type 0 where
    idle : applies f values ≡ false → FieldConforms rs values f
    blank :
        applies f values ≡ true
        → is_blank (lookup f.name values) ≡ true
        → MayOmit rs f
        → FieldConforms rs values f
    filled :
        {v : Value F}
        → applies f values ≡ true
        → lookup f.name values ≡ some v
        → is_blank (some v) ≡ false
        → HasType f v
        → FieldConforms rs values f

  number_sound :
      (f : ConnectionField F) (n : F) → validate_number fl f (some n) ≡ none → InRange f n
  unfolding validate_number below_min above_max
  number_sound f n h = record { low = λ m e. ground arith; high = λ m e. ground arith }

  number_complete :
      (f : ConnectionField F) (n : F) → InRange f n → validate_number fl f (some n) ≡ none
  unfolding validate_number below_min above_max
  number_complete f n r = elim (Option-cases f.min) [
    | inl no_min ↦ elim (Option-cases f.max) [
      | inl no_max ↦ ground arith
      | inr (m, e) ↦ ground (arith, r.high m e)
    ]
    | inr (l, d) ↦ elim (Option-cases f.max) [
      | inl no_max ↦ ground (arith, r.low l d)
      | inr (m, e) ↦ ground (arith, r.low l d, r.high m e)
    ]
  ]

  string_sound :
      (f : ConnectionField F) (v : Value F)
      → f.type ≡ "string"
      → validate_string fl f v ≡ none
      → HasType f v
  unfolding validate_string
  string_sound f (string s) e h = text e
  string_sound f _ e h = cc

  boolean_sound :
      (f : ConnectionField F) (v : Value F)
      → f.type ≡ "boolean"
      → validate_boolean fl f v ≡ none
      → HasType f v
  unfolding validate_boolean
  boolean_sound f (bool b) e h = flag e
  boolean_sound f _ e h = cc

  enum_sound :
      (f : ConnectionField F) (v : Value F)
      → f.type ≡ "enum"
      → validate_enum fl f v ≡ none
      → HasType f v
  unfolding validate_enum
  enum_sound f (string s) e h = choice e (ground arith)
  enum_sound f _ e h = cc

  number_ne_none : (f : ConnectionField F) → validate_number fl f none ≢ none
  unfolding validate_number
  number_ne_none f h = cc

  quantity_sound :
      (f : ConnectionField F) (v : Value F)
      → f.type ≡ "number"
      → validate_number fl f (to_float v) ≡ none
      → HasType f v
  unfolding to_float
  quantity_sound f (number k n) e h = quantity e (number_sound f n h)
  quantity_sound f _ e h = absurd (number_ne_none f h)

  value_sound :
      (f : ConnectionField F) (v : Value F) → validate_field_value fl f v ≡ none → HasType f v
  unfolding validate_field_value
  value_sound f v h = elim (Bool-cases (f.type == "string")) [
    | inl e ↦ string_sound f v ((eq_iff _ _).0 e) (rw e at h)
    | inr not_string ↦ elim (Bool-cases (f.type == "boolean")) [
      | inl e ↦ boolean_sound f v ((eq_iff _ _).0 e) (rw (not_string, e) at h)
      | inr not_boolean ↦ elim (Bool-cases (f.type == "number")) [
        | inl e ↦ quantity_sound f v ((eq_iff _ _).0 e) (rw (not_string, not_boolean, e) at h)
        | inr not_number ↦ elim (Bool-cases (f.type == "enum")) [
          | inl e ↦
              enum_sound f v ((eq_iff _ _).0 e) (rw (not_string, not_boolean, not_number, e) at h)
          | inr not_enum ↦
              unchecked (test_false_ne _ _ not_string) (test_false_ne _ _ not_boolean)
                (test_false_ne _ _ not_number) (test_false_ne _ _ not_enum)
        ]
      ]
    ]
  ]

  value_complete :
      (f : ConnectionField F) (v : Value F) → HasType f v → validate_field_value fl f v ≡ none
  unfolding validate_field_value validate_string validate_boolean validate_enum to_float
  value_complete f (string s) (text e) = rw e
  value_complete f (bool b) (flag e) = rw e
  value_complete f (number k n) (quantity e r) = simp e (number_complete f n r)
  value_complete f (string s) (choice e m) = rw (e, m)
  value_complete f v (unchecked a b c d) =
      rw (test_ne _ _ a, test_ne _ _ b, test_ne _ _ c, test_ne _ _ d)

  field_sound :
      (rs : Bool) (values : Dict (Value F)) (f : ConnectionField F)
      → check_field fl rs values f ≡ none
      → FieldConforms rs values f
  unfolding check_field is_blank
  field_sound rs values f h = elim (Bool-cases (applies f values)) [
    | inr out ↦ idle out
    | inl on ↦ elim (Option-cases (lookup f.name values)) [
      | inl missing ↦ blank on (rw missing) (ground arith)
      | inr (v, found) ↦ elim (Bool-cases (is_blank (some v))) [
        | inl b ↦ blank on (rw found b) (ground arith)
        | inr b ↦ filled on found b (value_sound f v (ground arith))
      ]
    ]
  ]

  field_complete :
      (rs : Bool) (values : Dict (Value F)) (f : ConnectionField F)
      → FieldConforms rs values f
      → check_field fl rs values f ≡ none
  unfolding check_field
  field_complete rs values f (idle out) = rw out
  field_complete rs values f (blank on b omit) = elim (Option-cases (lookup f.name values)) [
    | inl missing ↦ ground arith
    | inr (v, found) ↦ ground arith
  ]
  field_complete rs values f (filled {v} on found b typed) =
      rw (on, found, b) (value_complete f v typed)

  fields_iff :
      (rs : Bool) (values : Dict (Value F)) (fs : List (ConnectionField F))
      → (check_fields fl rs values fs ≡ none) ↔ All (FieldConforms rs values) fs
  unfolding check_fields
  fields_iff rs values [] = (λ _. tt, λ _. refl)
  fields_iff rs values (f ∷ fs) = elim (Option-cases (check_field fl rs values f)) [
    | inl good ↦ (
      λ h. (
        field_sound rs values f good,
        (fields_iff rs values fs).0 (rw (good, check_fields) at h),
      ),
      λ a. rw (good, check_fields) ((fields_iff rs values fs).1 a.1),
    )
    | inr (e, bad) ↦
        (λ h. cc (rw (bad, check_fields) at h), λ a. cc (bad, field_complete rs values f a.0))
  ]

  -- Every submitted key is a declared field.
  abbrev pub Known : ContractDescriptor F → Dict (Value F) → Type 0
  Known ct values = (key : String) → lookup key values ≢ none → field ct key ≢ none

  keys_sound :
      (ct : ContractDescriptor F) (values : Dict (Value F))
      → check_keys fl ct values ≡ none
      → Known ct values
  unfolding check_keys lookup
  keys_sound ct [] h key there = absurd (there refl)
  keys_sound ct ((k, v) ∷ values) h key there =
      ground (arith, eq_iff k key, keys_sound ct values (ground arith) key)

  keys_complete :
      (ct : ContractDescriptor F) (values : Dict (Value F))
      → Known ct values
      → check_keys fl ct values ≡ none
  unfolding check_keys lookup
  keys_complete ct [] known = refl
  keys_complete ct ((k, v) ∷ values) known =
      ground (arith, eq_iff k k, known k, keys_complete ct values later)
    where
      later : Known ct values
      later key there = known key (ground (arith, eq_iff k key))

  -- The submitted values fit the contract.
  pub record Conforms (rs : Bool) (ct : ContractDescriptor F) (values : Dict (Value F))
      : Type 0 where
    pub known : Known ct values
    pub each : All (FieldConforms rs values) ct.fields

  -- `validate` accepts exactly the values of a known contract that conform to it.
  pub validate_values_iff :
      (c : List (ContractDescriptor F)) (name : String) (values : Dict (Value F)) (rs : Bool)
      → (validate_values fl c name values rs ≡ none)
        ↔ ((ct : ContractDescriptor F) × (get c name ≡ some ct) × Conforms rs ct values)
  unfolding validate_values
  validate_values_iff c name values rs = elim (Option-cases (get c name)) [
    | inl missing ↦ (λ h. cc (rw (missing, validate_values) at h), λ s. cc (missing, s.1))
    | inr (ct, found) ↦ (sound ct found, complete)
  ]
    where
      sound :
          (ct : ContractDescriptor F)
          → get c name ≡ some ct
          → validate_values fl c name values rs ≡ none
          → (d : ContractDescriptor F) × (get c name ≡ some d) × Conforms rs d values
      sound ct found h = (
        ct,
        found,
        record {
          known = keys_sound ct values (ground arith);
          each = (fields_iff rs values ct.fields).0 (ground arith);
        },
      )

      complete :
          (ct : ContractDescriptor F) × (get c name ≡ some ct) × Conforms rs ct values
          → validate_values fl c name values rs ≡ none
      complete (ct, found, k) =
          rw (found, validate_values, keys_complete ct values k.known)
            ((fields_iff rs values ct.fields).1 k.each)

  applies_same :
      (f : ConnectionField F) (a b : Dict (Value F))
      → ((k : String) → lookup k a ≡ lookup k b)
      → applies f a ≡ applies f b
  unfolding applies
  applies_same f a b same = elim (Option-cases f.show_when) [
    | inl always ↦ ground arith
    | inr (condition, on) ↦ ground (arith, same condition.field)
  ]

  FieldConforms-same :
      (rs : Bool) (a b : Dict (Value F)) (f : ConnectionField F)
      → ((k : String) → lookup k a ≡ lookup k b)
      → FieldConforms rs a f
      → FieldConforms rs b f
  FieldConforms-same rs a b f same (idle out) = idle (rw (← applies_same f a b same) out)
  FieldConforms-same rs a b f same (blank on e omit) =
      blank (rw (← applies_same f a b same) on) (rw (← same f.name) e) omit
  FieldConforms-same rs a b f same (filled on found e typed) =
      filled (rw (← applies_same f a b same) on) (sym (same f.name) ∙ found) e typed

  fields_same :
      (rs : Bool) (a b : Dict (Value F)) (fs : List (ConnectionField F))
      → ((k : String) → lookup k a ≡ lookup k b)
      → All (FieldConforms rs a) fs
      → All (FieldConforms rs b) fs
  fields_same rs a b [] same h = tt
  fields_same rs a b (f ∷ fs) same h =
      (FieldConforms-same rs a b f same h.0, fields_same rs a b fs same h.1)

  Conforms-same :
      (rs : Bool) (a b : Dict (Value F)) (ct : ContractDescriptor F)
      → ((k : String) → lookup k a ≡ lookup k b)
      → Conforms rs ct a
      → Conforms rs ct b
  Conforms-same rs a b ct same h = record {
    known = λ key there. h.known key (λ e. there (sym (same key) ∙ e));
    each = fields_same rs a b ct.fields same h.each;
  }

  -- Two representations of one map get the same verdict: the order in which Go ranges over the
  -- submitted values decides at most which problem is reported.
  validate_order :
      (c : List (ContractDescriptor F)) (name : String) (a b : Dict (Value F)) (rs : Bool)
      → ((k : String) → lookup k a ≡ lookup k b)
      → validate_values fl c name a rs ≡ none
      → validate_values fl c name b rs ≡ none
  validate_order c name a b rs same h =
      let (ct, found, k) = (validate_values_iff c name a rs).0 h in
      (validate_values_iff c name b rs).1 (ct, found, Conforms-same rs a b ct same k)

  -- What an edit asks of a credential: that it has its type where it is in play and filled in.
  abbrev pub Typed : Dict (Value F) → ConnectionField F → Type 0
  Typed values f =
      (v : Value F)
      → applies f values ≡ true
      → lookup f.name values ≡ some v
      → is_blank (some v) ≡ false
      → HasType f v

  -- What an edit asks of a field: what a creation asks, or less for a credential.
  abbrev pub FitsEdit : Dict (Value F) → ConnectionField F → Type 0
  FitsEdit values f =
      (f.secret ≡ false → FieldConforms true values f) × (f.secret ≡ true → Typed values f)

  edit_down :
      (values : Dict (Value F)) (f : ConnectionField F)
      → FieldConforms false values f
      → FitsEdit values f
  edit_down values f (idle out) = (λ _. idle out, λ _ v on. cc)
  edit_down values f (blank on b omit) =
      (λ plain. blank on b (ground arith), λ _ v _ at filled. absurd (ground arith))
  edit_down values f (filled {v} on found b typed) = (
    λ _. filled on found b typed,
    λ _ u _ at full. subst (HasType f) (some-injective _ _ (sym found ∙ at)) typed,
  )

  edit_plain :
      (values : Dict (Value F)) (f : ConnectionField F)
      → FieldConforms true values f
      → FieldConforms false values f
  edit_plain values f (idle out) = idle out
  edit_plain values f (blank on b omit) = blank on b (ground arith)
  edit_plain values f (filled on found b typed) = filled on found b typed

  edit_secret :
      (values : Dict (Value F)) (f : ConnectionField F)
      → f.secret ≡ true
      → Typed values f
      → FieldConforms false values f
  unfolding is_blank
  edit_secret values f hidden typed = elim (Bool-cases (applies f values)) [
    | inr out ↦ idle out
    | inl on ↦ elim (Bool-cases (is_blank (lookup f.name values))) [
      | inl b ↦ blank on b (inr (refl, hidden))
      | inr full ↦ elim (Option-cases (lookup f.name values)) [
        | inl missing ↦ absurd (true_ne_false (rw missing at full))
        | inr (v, found) ↦
            let filled_in : is_blank (some v) ≡ false = rw found at full in
            filled on found filled_in (typed v on found filled_in)
      ]
    ]
  ]

  fields_edit_iff :
      (values : Dict (Value F)) (fs : List (ConnectionField F))
      → All (FieldConforms false values) fs ↔ All (FitsEdit values) fs
  fields_edit_iff values [] = (λ _. tt, λ _. tt)
  fields_edit_iff values (f ∷ fs) =
      let later = fields_edit_iff values fs in
      (
        λ h. (edit_down values f h.0, later.0 h.1),
        λ h. (
          elim (Bool-cases f.secret) [
            | inr plain ↦ edit_plain values f (h.0.0 plain)
            | inl hidden ↦ edit_secret values f hidden (h.0.1 hidden)
          ],
          later.1 h.1,
        ),
      )

  -- An edit is accepted exactly when its keys are declared and its fields fit: of a field that is no
  -- credential it asks what a creation asks; of a credential only that it has its type where it is in
  -- play and filled in, so that each credential may be left out.
  pub validate_update_iff :
      (c : List (ContractDescriptor F)) (name : String) (values : Dict (Value F))
      {ct : ContractDescriptor F}
      → get c name ≡ some ct
      → (validate_update fl c name values ≡ none)
        ↔ (Known ct values × All (FitsEdit values) ct.fields)
  unfolding validate_update
  validate_update_iff c name values {ct} found = (
    λ h.
        let (d, found', k) = (validate_values_iff c name values false).0 h in
        let same : d ≡ ct = some-injective _ _ (sym found' ∙ found) in
        let fits : Known d values × All (FitsEdit values) d.fields =
          (k.known, (fields_edit_iff values d.fields).0 k.each) in
        subst (λ e. Known e values × All (FitsEdit values) e.fields) same fits,
    λ h.
        (validate_values_iff c name values false).1
          (ct, found, record { known = h.0; each = (fields_edit_iff values ct.fields).1 h.1 }),
  )
