-- ===== src/Connection/Catalog/Normalize.antt =====
-- What `Normalize` does to each key of the submitted values.
use mathlib.Core.Path.{subst}
use mathlib.Core.Option.{some-injective}
use okdp_control_plane_serve.Base.{
  String, true, Option, none, some, List, [], ◌∷◌, ◌≡◌, refl, ◌≢◌, ◌⊎◌, inl, inr, contains, arith,
  ◌∙◌, sym, eq_iff, Bool-cases, Option-cases, ◌==◌, if◌then◌else◌, test_false_ne, eq_of_test, ap,
}
use okdp_control_plane_serve.Base.Dict.{
  Dict, lookup, lookup-insert_ne, lookup-delete_ne, lookup-insert_self, lookup-delete_self,
}
use okdp_control_plane_serve.Connection.Model.{
  text_or_empty, Value, string, ConnectionField, ContractDescriptor, FieldDerivation, applies,
  field, find_field,
}
use okdp_control_plane_serve.Connection.Catalog.{
  get, derive, fill_default, normalize_field, normalize_fields, normalize,
}
use okdp_control_plane_serve.Connection.Catalog.Descriptor.{AreDeclared, IsWellFormed}

module _ {F : Type 0} where
  derive_ne :
      (f : ConnectionField F) (d : FieldDerivation) (out : Dict (Value F)) (k : String)
      → f.name ≢ k
      → lookup k (derive f d out) ≡ lookup k out
  unfolding derive
  derive_ne f d out k ne =
      elim (Option-cases (lookup (text_or_empty (lookup d.from out)) d.table)) [
        | inl unknown ↦ rw (unknown, derive)
        | inr (s, known) ↦ rw (known, derive) (lookup-insert_ne f.name k (string s) out ne)
      ]

  fill_default_ne :
      (f : ConnectionField F) (out : Dict (Value F)) (k : String)
      → f.name ≢ k
      → lookup k (fill_default f out) ≡ lookup k out
  unfolding fill_default
  fill_default_ne f out k ne = elim (Option-cases f.default) [
    | inl no_default ↦ ground arith
    | inr (v, e) ↦ ground (arith, lookup-insert_ne f.name k v out ne)
  ]

  -- A pass over a field touches no other key.
  normalize_field_ne :
      (f : ConnectionField F) (out : Dict (Value F)) (k : String)
      → f.name ≢ k
      → lookup k (normalize_field out f) ≡ lookup k out
  unfolding normalize_field
  normalize_field_ne f out k ne = elim (Option-cases f.derived) [
    | inl plain ↦ ground (arith, fill_default_ne f out k ne, lookup-delete_ne f.name k out ne)
    | inr (d, e) ↦ ground (arith, derive_ne f d out k ne, lookup-delete_ne f.name k out ne)
  ]

  -- No field of the list has the name `k`.
  abbrev Unnamed : String → List (ConnectionField F) → Type 0
  Unnamed k fs = find_field k fs ≡ none

  normalize_fields_ne :
      (fs : List (ConnectionField F)) (out : Dict (Value F)) (k : String)
      → Unnamed k fs
      → lookup k (normalize_fields fs out) ≡ lookup k out
  unfolding normalize_fields find_field
  normalize_fields_ne [] out k h = refl
  normalize_fields_ne (f ∷ fs) out k h = elim (Bool-cases (f.name == k)) [
    | inl e ↦ cc (rw (e, find_field) at h)
    | inr ne ↦
        normalize_fields_ne fs (normalize_field out f) k (rw (ne, find_field) at h)
        ∙ normalize_field_ne f out k (test_false_ne f.name k ne)
  ]

  Unnamed-of_AreDeclared :
      (fs : List (ConnectionField F)) (seen : List String) (k : String)
      → AreDeclared seen fs
      → contains seen k ≡ true
      → Unnamed k fs
  unfolding find_field
  Unnamed-of_AreDeclared [] seen k h there = refl
  Unnamed-of_AreDeclared (f ∷ fs) seen k h there =
      ground (arith, eq_iff f.name k, h.1, Unnamed-of_AreDeclared fs (f.name ∷ seen) k h.3)

  -- What a pass does to the key of its own field.
  abbrev own_pass : ConnectionField F → Dict (Value F) → Option (Value F)
  own_pass f out = lookup f.name (normalize_field out f)

  -- The value that the pass over `f` leaves is final, and it met the submitted value.
  pub final_value :
      (fs : List (ConnectionField F)) (seen : List String) (out : Dict (Value F))
      {f : ConnectionField F} (k : String)
      → AreDeclared seen fs
      → find_field k fs ≡ some f
      → (mid : Dict (Value F)) × (f.name ≡ k)
        × (lookup k mid ≡ lookup k out)
        × (lookup k (normalize_fields fs out) ≡ lookup k (normalize_field mid f))
  unfolding normalize_fields find_field
  final_value [] seen out k h e = cc
  final_value (g ∷ fs) seen out {f} k h e = elim (Bool-cases (g.name == k)) [
    | inl same ↦
        let names : g.name ≡ k = eq_of_test g.name k same in
        let here : g ≡ f = some-injective _ _ (rw (same, find_field) at e) in
        let absent : Unnamed k fs = Unnamed-of_AreDeclared fs (g.name ∷ seen) k h.3 (rw same) in
        (
          out,
          ap (λ (x : ConnectionField F). x.name) (sym here) ∙ names,
          refl,
          normalize_fields_ne fs (normalize_field out g) k absent
              ∙ ap (λ (x : ConnectionField F). lookup k (normalize_field out x)) here,
        )
    | inr ne ↦
        let (mid, names, met, final) =
          final_value fs (g.name ∷ seen) (normalize_field out g) k h.3 (rw (ne, find_field) at e) in
        (mid, names, met ∙ normalize_field_ne g out k (test_false_ne g.name k ne), final)
  ]

  -- What a field without condition and derivation ends as, from what was submitted for it.
  abbrev pub filled_in : ConnectionField F → Option (Value F) → Option (Value F)
  filled_in f none = if f.secret then none else f.default
  filled_in f (some v) = some v

  own_pass_plain :
      (f : ConnectionField F) (mid : Dict (Value F))
      → f.show_when ≡ none
      → f.derived ≡ none
      → lookup f.name (normalize_field mid f) ≡ filled_in f (lookup f.name mid)
  unfolding normalize_field applies fill_default
  own_pass_plain f mid always plain = elim (Option-cases f.default) [
    | inl no_default ↦ elim (Option-cases (lookup f.name mid)) [
      | inl missing ↦ ground arith
      | inr (v, found) ↦ ground arith
    ]
    | inr (d, e) ↦ elim (Option-cases (lookup f.name mid)) [
      | inl missing ↦ ground (arith, lookup-insert_self f.name d mid)
      | inr (v, found) ↦ ground arith
    ]
  ]

  own_pass_secret :
      (f : ConnectionField F) (mid : Dict (Value F))
      → f.secret ≡ true
      → f.derived ≡ none
      → (lookup f.name (normalize_field mid f) ≡ none)
        ⊎ (lookup f.name (normalize_field mid f) ≡ lookup f.name mid)
  unfolding normalize_field fill_default
  own_pass_secret f mid hidden plain = elim (Bool-cases (applies f mid)) [
    | inl on ↦ inr (ground arith)
    | inr out ↦ inl (ground (arith, lookup-delete_self f.name mid))
  ]

  -- A key that the contract does not declare keeps its value, and an unknown contract changes nothing.
  normalize-undeclared :
      (c : List (ContractDescriptor F)) (name : String) (values : Dict (Value F)) (k : String)
      → (get c name ≡ none)
        ⊎ ((ct : ContractDescriptor F) × (get c name ≡ some ct) × (field ct k ≡ none))
      → lookup k (normalize c name values) ≡ lookup k values
  unfolding normalize
  normalize-undeclared c name values k (inl unknown) = rw (unknown, normalize)
  normalize-undeclared c name values k (inr (ct, found, absent)) =
      rw (found, normalize) (normalize_fields_ne ct.fields values k absent)

  -- A declared field of a well-formed contract that has neither a condition nor a derivation keeps
  -- the value submitted for it. Without one it takes the contract's default, unless it is a
  -- credential, which stays absent.
  pub normalize_plain :
      (c : List (ContractDescriptor F)) (name : String) (values : Dict (Value F))
      {ct : ContractDescriptor F} {f : ConnectionField F} (k : String)
      → get c name ≡ some ct
      → IsWellFormed ct
      → field ct k ≡ some f
      → f.show_when ≡ none
      → f.derived ≡ none
      → lookup k (normalize c name values) ≡ filled_in f (lookup k values)
  unfolding normalize
  normalize_plain c name values {ct} {f} k found w declared always plain =
      let (mid, names, met, final) = final_value ct.fields [] values k w.declared declared in
      let own : lookup k (normalize_field mid f) ≡ filled_in f (lookup k mid) =
        subst (λ n. lookup n (normalize_field mid f) ≡ filled_in f (lookup n mid)) names
          (own_pass_plain f mid always plain) in
      rw (found, normalize) (final ∙ own ∙ ap (filled_in f) met)

  -- Normalising invents no credential: a credential that is not derived ends as it was submitted, or
  -- it is dropped.
  pub normalize_secret :
      (c : List (ContractDescriptor F)) (name : String) (values : Dict (Value F))
      {ct : ContractDescriptor F} {f : ConnectionField F} (k : String)
      → get c name ≡ some ct
      → IsWellFormed ct
      → field ct k ≡ some f
      → f.secret ≡ true
      → f.derived ≡ none
      → (lookup k (normalize c name values) ≡ none)
        ⊎ (lookup k (normalize c name values) ≡ lookup k values)
  unfolding normalize
  normalize_secret c name values {ct} {f} k found w declared hidden plain =
      let (mid, names, met, final) = final_value ct.fields [] values k w.declared declared in
      let own =
        subst
          (λ n.
            (lookup n (normalize_field mid f) ≡ none)
            ⊎ (lookup n (normalize_field mid f) ≡ lookup n mid))
          names (own_pass_secret f mid hidden plain) in
      rw (found, normalize)
        (elim own [ inl gone ↦ inl (final ∙ gone) | inr kept ↦ inr (final ∙ kept ∙ met) ])
