-- ===== src/Connection/Credentials/Laws.antt =====
-- How the values of a request are split into the spec and the Secret.
use okdp_control_plane_serve.Base.{
  String, true, Option, none, some, [], ◌∷◌, ◌≡◌, refl, ◌≢◌, inl, inr, arith, ◌==◌, if◌then◌else◌,
  Bool-cases, Option-cases, ◌∙◌, ap, eq_of_test, test_false_ne,
}
use okdp_control_plane_serve.Base.Dict.{Dict, lookup, IsMap, lookup-insert_ne, lookup-insert_self}
use okdp_control_plane_serve.Connection.Model.{
  Value, string, ContractDescriptor, ConnectionField, field,
}
use okdp_control_plane_serve.Connection.Credentials.{split_value, split_from, split_values}

module _ {F : Type 0} (d : ContractDescriptor F) where
  -- What the spec keeps of a key: the value of a declared field that is no credential.
  abbrev pub public_part : String → Option (Value F) → Option (Value F)
  public_part key value = elim (field d key) [
    | none ↦ none
    | some f ↦ if f.secret then none else value
  ]

  abbrev nonempty_text : Option (Value F) → Option String
  nonempty_text (some (string s)) = if s == "" then none else some s
  nonempty_text _ = none

  -- What the Secret keeps of it: the non-empty text of a credential.
  abbrev pub secret_part : String → Option (Value F) → Option String
  secret_part key value = elim (field d key) [
    | none ↦ none
    | some f ↦ if f.secret then nonempty_text value else none
  ]

  abbrev Split : Type 0
  Split = Dict (Value F) × Dict String

  split_value_ne :
      (name key : String) (value : Value F) (split : Split)
      → name ≢ key
      → (lookup key (split_value d name value split).0 ≡ lookup key split.0)
        × (lookup key (split_value d name value split).1 ≡ lookup key split.1)
  unfolding split_value
  split_value_ne name key value split ne = elim (Option-cases (field d name)) [
    | inl unknown ↦ (ground arith, ground arith)
    | inr (f, known) ↦ elim (Bool-cases f.secret) [
      | inr open_value ↦ (ground (arith, lookup-insert_ne name key value split.0 ne), ground arith)
      | inl hidden ↦ secret_case value f known hidden
    ]
  ]
    where
      secret_case :
          (v : Value F) (f : ConnectionField F)
          → field d name ≡ some f
          → f.secret ≡ true
          → (lookup key (split_value d name v split).0 ≡ lookup key split.0)
            × (lookup key (split_value d name v split).1 ≡ lookup key split.1)
      secret_case (string s) f known hidden =
          (ground arith, ground (arith, lookup-insert_ne name key s split.1 ne))
      secret_case _ f known hidden = (ground arith, ground arith)

  -- Whatever stood at the key before is kept where the value adds nothing.
  abbrev or_else {ℓ} : {A : Type ℓ} → Option A → Option A → Option A
  or_else none b = b
  or_else (some a) b = some a

  split_value_self :
      (key : String) (value : Value F) (split : Split)
      → (lookup key (split_value d key value split).0
          ≡ or_else (public_part key (some value)) (lookup key split.0))
        × (lookup key (split_value d key value split).1
            ≡ or_else (secret_part key (some value)) (lookup key split.1))
  unfolding split_value
  split_value_self key value split = elim (Option-cases (field d key)) [
    | inl unknown ↦ (ground arith, ground arith)
    | inr (f, known) ↦ elim (Bool-cases f.secret) [
      | inr open_value ↦ (ground (arith, lookup-insert_self key value split.0), ground arith)
      | inl hidden ↦ secret_case value f known hidden
    ]
  ]
    where
      secret_case :
          (v : Value F) (f : ConnectionField F)
          → field d key ≡ some f
          → f.secret ≡ true
          → (lookup key (split_value d key v split).0
              ≡ or_else (public_part key (some v)) (lookup key split.0))
            × (lookup key (split_value d key v split).1
                ≡ or_else (secret_part key (some v)) (lookup key split.1))
      secret_case (string s) f known hidden =
          (ground arith, ground (arith, lookup-insert_self key s split.1))
      secret_case _ f known hidden = (ground arith, ground arith)

  skip_public :
      (key : String) (v : Option (Value F))
      → v ≡ none
      → (b : Option (Value F)) → or_else (public_part key v) b ≡ b
  skip_public key v e b = elim (Option-cases (field d key)) [
    | inl unknown ↦ ground arith
    | inr (f, known) ↦ ground arith
  ]

  skip_secret :
      (key : String) (v : Option (Value F))
      → v ≡ none
      → (b : Option String) → or_else (secret_part key v) b ≡ b
  skip_secret key v e b = elim (Option-cases (field d key)) [
    | inl unknown ↦ ground arith
    | inr (f, known) ↦ ground arith
  ]

  split_from_lem :
      (key : String) (values : Dict (Value F)) (split : Split)
      → IsMap values
      → (lookup key (split_from d values split).0
          ≡ or_else (public_part key (lookup key values)) (lookup key split.0))
        × (lookup key (split_from d values split).1
            ≡ or_else (secret_part key (lookup key values)) (lookup key split.1))
  unfolding split_from lookup
  split_from_lem key [] split h = elim (Option-cases (field d key)) [
    | inl unknown ↦ (ground arith, ground arith)
    | inr (f, known) ↦ (ground arith, ground arith)
  ]
  split_from_lem key ((name, value) ∷ values) split h =
      let (pub_rest, sec_rest) = split_from_lem key values (split_value d name value split) h.1 in
      elim (Bool-cases (name == key)) [
        | inr other_key ↦
            let (p, q) = split_value_ne name key value split (test_false_ne name key other_key) in
            rw (other_key, lookup, ← p, ← q) (pub_rest, sec_rest)
        | inl same ↦
            let names : name ≡ key = eq_of_test name key same in
            let last : lookup key values ≡ none = rw (← names) h.0 in
            let (p, q) = split_value_self key value split in
            let here : lookup key ((name, value) ∷ values) ≡ some value = rw (same, lookup) in
            rw here (
              pub_rest
                  ∙ skip_public key (lookup key values) last _
                  ∙ ap (λ n. lookup key (split_value d n value split).0) names
                  ∙ p,
              sec_rest
                  ∙ skip_secret key (lookup key values) last _
                  ∙ ap (λ n. lookup key (split_value d n value split).1) names
                  ∙ q,
            )
      ]

  or_none_public : (o : Option (Value F)) → or_else o none ≡ o
  or_none_public none = refl
  or_none_public (some a) = refl

  or_none_secret : (o : Option String) → or_else o none ≡ o
  or_none_secret none = refl
  or_none_secret (some a) = refl

  -- Of each key of a map of values, the spec gets the value of a declared field that is no
  -- credential, the Secret gets the non-empty text of a credential, and nothing else is kept: no
  -- credential is ever in the spec.
  pub split_values_lem :
      (key : String) (values : Dict (Value F))
      → IsMap values
      → (lookup key (split_values d values).0 ≡ public_part key (lookup key values))
        × (lookup key (split_values d values).1 ≡ secret_part key (lookup key values))
  unfolding split_values lookup
  split_values_lem key values h =
      let (p, q) = split_from_lem key values ([], []) h in
      (p ∙ or_none_public _, q ∙ or_none_secret _)

  hidden_public :
      (key : String) {f : ConnectionField F} (v : Value F) (b : Option (Value F))
      → field d key ≡ some f
      → f.secret ≡ true
      → b ≡ none
      → or_else (public_part key (some v)) b ≡ none
  hidden_public key v b known hidden none_yet = ground arith

  split_from_hides :
      (key : String) {f : ConnectionField F} (values : Dict (Value F)) (split : Split)
      → field d key ≡ some f
      → f.secret ≡ true
      → lookup key split.0 ≡ none
      → lookup key (split_from d values split).0 ≡ none
  unfolding split_from
  split_from_hides key [] split known hidden none_yet = none_yet
  split_from_hides key ((name, value) ∷ values) split known hidden none_yet =
      split_from_hides key values (split_value d name value split) known hidden
        (elim (Bool-cases (name == key)) [
          | inr apart ↦
              (split_value_ne name key value split (test_false_ne name key apart)).0 ∙ none_yet
          | inl same ↦
              ap (λ n. lookup key (split_value d n value split).0) (eq_of_test name key same)
              ∙ (split_value_self key value split).0
              ∙ hidden_public key value (lookup key split.0) known hidden none_yet
        ])

  -- No credential of the contract is among the values for the spec.
  pub split_values_hides :
      (key : String) {f : ConnectionField F} (values : Dict (Value F))
      → field d key ≡ some f
      → f.secret ≡ true
      → lookup key (split_values d values).0 ≡ none
  unfolding split_values lookup
  split_values_hides key values known hidden =
      split_from_hides key values ([], []) known hidden refl
