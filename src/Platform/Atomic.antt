-- ===== src/Platform/Atomic.antt =====
-- Edits of the catalogue while others edit the same Context: what a successful edit has put into the
-- server's history of the object.
use okdp_control_plane_serve.Base.{
  String, Option, some, List, [], ◌∷◌, ◌++◌, ◌≡◌, refl, ap, sym, ◌∙◌, inl, inr, arith,
}
use mathlib.Core.List.{append_assoc}
use okdp_control_plane_serve.Base.Go.{Result, ok, err, Action}
use okdp_control_plane_serve.Base.Steps.{Result-cases, IsPreorder, try_step}
use okdp_control_plane_serve.Base.Json.{Json, Fields}
use okdp_control_plane_serve.Platform.Context.{ContextError, Unstructured, ContextApi}
use okdp_control_plane_serve.Platform.Reading.{categories_path}
use okdp_control_plane_serve.Platform.Writer.{
  or_empty, edited, send, attempt_on, attempt, mutate_categories,
}

-- A later history of an object: newer versions stand in front.
abbrev pub Extends : List Fields → List Fields → Type 0
Extends h h' = (new : List Fields) × (h' ≡ new ++ h)

Extends-refl : (h : List Fields) → Extends h h
Extends-refl h = ([], refl)

pub Extends-trans : (a b c : List Fields) → Extends a b → Extends b c → Extends a c
Extends-trans a b c (m, e) (n, d) = (n ++ m, d ∙ ap (λ l. n ++ l) e ∙ sym (append_assoc n m a))

-- The attempts that a retry makes before its last one: each of them failed.
pub data Attempts {W : Type 0} (f : Action W ContextError (Unit {0})) : W → W → Type 0 where
  stop : {w : W} → Attempts f w w
  again : {w v : W} {e : ContextError} → (f w).0 ≡ err e → Attempts f (f w).1 v → Attempts f w v

-- `retry.RetryOnConflict`: it returns what its last attempt returns.
abbrev pub RetryLaw :
    {W : Type 0} → (Action W ContextError (Unit {0}) → Action W ContextError (Unit {0})) → Type 0
RetryLaw {W} retry =
    (f : Action W ContextError (Unit {0})) (w : W) → (v : W) × Attempts f w v × (retry f w ≡ f v)

-- `SetNestedSlice` replaces the value at the path and leaves the version of the object.
pub record UnstructuredLaws (k : Unstructured) (version : Fields → String) : Type 0 where
  pub set_reads :
      (u v : Fields) (vs : List Json)
      → k.set_nested_slice u vs categories_path ≡ ok v
      → (k.nested_slice v categories_path ≡ ok (some vs)) × (version v ≡ version u)

-- What the API server promises of the object, with others that write it too. `history` is every version
-- that it has stored, newest first, and no two of them have the same resource version. A read returns
-- one that was the newest during the call. An update that is accepted has replaced the version that its
-- resource version names, and what is stored has the sections that were sent.
pub record ServerLaws (k : Unstructured) (version : Fields → String) {W : Type 0} (c : ContextApi W)
    (history : W → List Fields) : Type 0 where
  pub distinct :
      (w : W) (a b : Fields) (before_a before_b : List Fields)
      → Extends (a ∷ before_a) (history w)
      → Extends (b ∷ before_b) (history w)
      → version a ≡ version b
      → a ≡ b
  pub get_extends : (w : W) → Extends (history w) (history (c.get w).1)
  pub get_reads :
      (w : W) (u : Fields)
      → (c.get w).0 ≡ ok u
      → (early : List Fields) × Extends (history w) (u ∷ early)
        × Extends (u ∷ early) (history (c.get w).1)
  pub update_extends : (u : Fields) (w : W) → Extends (history w) (history (c.update u w).1)
  pub update_replaces :
      (u : Fields) (w : W)
      → (c.update u w).0 ≡ ok tt
      → (stored prev : Fields) × (early : List Fields) × Extends (history w) (prev ∷ early)
        × Extends (stored ∷ prev ∷ early) (history (c.update u w).1)
        × (version prev ≡ version u)
        × (k.nested_slice stored categories_path ≡ k.nested_slice u categories_path)

module _ {W : Type 0} (c : ContextApi W) (history : W → List Fields) where
  abbrev Later : W → W → Type 0
  Later w v = Extends (history w) (history v)

  Later-preorder : IsPreorder Later
  Later-preorder = record {
    stay = λ w. Extends-refl (history w);
    join = λ u v w. Extends-trans (history u) (history v) (history w);
  }

module _ (k : Unstructured) (version : Fields → String) {W : Type 0} (c : ContextApi W)
    (history : W → List Fields) (unstructured : UnstructuredLaws k version)
    (server : ServerLaws k version c history) where
  abbrev Grows : W → W → Type 0
  Grows = Later c history

  send-Grows : (r : Result ContextError Fields) (w : W) → Grows w (send k c r w).1
  unfolding send
  send-Grows (err e) w = Extends-refl (history w)
  send-Grows (ok u) w = server.update_extends u w

  attempt_on-Grows :
      (fn : List Json → List Json) (r : Result ContextError Fields) (w : W)
      → Grows w (attempt_on k c fn r w).1
  unfolding attempt_on
  attempt_on-Grows fn (err e) w = Extends-refl (history w)
  attempt_on-Grows fn (ok cur) w = send-Grows (edited k c fn cur) w

  attempt-Grows : (fn : List Json → List Json) (w : W) → Grows w (attempt k c fn w).1
  unfolding attempt
  attempt-Grows fn w =
      try_step Grows (Later-preorder c history) c.get (attempt_on k c fn) w (server.get_extends w)
        (λ r e. attempt_on-Grows fn r (c.get w).1)

  Attempts-Grows :
      (fn : List Json → List Json) {w v : W} → Attempts (attempt k c fn) w v → Grows w v
  Attempts-Grows fn {w} stop = Extends-refl (history w)
  Attempts-Grows fn {w} {v} (again failed rest) =
      Extends-trans (history w) (history (attempt k c fn w).1) (history v) (attempt-Grows fn w)
        (Attempts-Grows fn rest)

  -- What an edit has done to the history: it put one version in front of another, both newer than all
  -- that there was before, whose sections are the edited ones of the other.
  abbrev pub Replaced : (List Json → List Json) → W → W → Type 0
  Replaced fn w w' =
      (prev stored : Fields) × (early : List Fields) × (sections : Option (List Json)) × Extends
        (history w) (prev ∷ early)
      × Extends (stored ∷ prev ∷ early) (history w')
      × (k.nested_slice prev categories_path ≡ ok sections)
      × (k.nested_slice stored categories_path ≡ ok (some (fn (or_empty sections))))

  edited-cases :
      (fn : List Json → List Json) (cur u : Fields)
      → edited k c fn cur ≡ ok u
      → (sections : Option (List Json)) × (k.nested_slice cur categories_path ≡ ok sections)
        × (k.set_nested_slice cur (fn (or_empty sections)) categories_path ≡ ok u)
  unfolding edited
  edited-cases fn cur u h = elim (Result-cases (k.nested_slice cur categories_path)) [
    | inr (e, broken) ↦ absurd (ground arith)
    | inl (sections, read) ↦ (sections, read, ground arith)
  ]

  attempt-Replaced :
      (fn : List Json → List Json) (w : W)
      → (attempt k c fn w).0 ≡ ok tt
      → Replaced fn w (attempt k c fn w).1
  unfolding attempt attempt_on send
  attempt-Replaced fn w done = elim (Result-cases (c.get w).0) [
    | inr (e, failed) ↦ absurd (ground arith)
    | inl (cur, read) ↦ elim (Result-cases (edited k c fn cur)) [
      | inr (e, failed) ↦ absurd (ground arith)
      | inl (u, made) ↦
          let v = (c.get w).1 in
          let accepted : (c.update u v).0 ≡ ok tt = ground arith in
          let end_world : (attempt k c fn w).1 ≡ (c.update u v).1 = ground arith in
          let (stored, prev, early, before, after, replaced, same) =
            server.update_replaces u v accepted in
          let (sections, had, set) = edited-cases fn cur u made in
          let (reads, kept) = unstructured.set_reads cur u (fn (or_empty sections)) set in
          let (older, newest, there) = server.get_reads w cur read in
          let is_prev : prev ≡ cur =
            server.distinct (c.update u v).1 prev cur early older
              (Extends-trans (prev ∷ early) (stored ∷ prev ∷ early) (history (c.update u v).1)
                (stored ∷ [], refl) after)
              (Extends-trans (cur ∷ older) (history v) (history (c.update u v).1) there
                (server.update_extends u v))
              (replaced ∙ kept) in
          (
            prev,
            stored,
            early,
            sections,
            Extends-trans (history w) (history v) (prev ∷ early) (server.get_extends w) before,
            rw end_world after,
            rw is_prev had,
            same ∙ reads,
          )
    ]
  ]

  module _ (retry : Action W ContextError (Unit {0}) → Action W ContextError (Unit {0}))
      (retries : RetryLaw retry) where
    -- However many attempts an edit took, and whatever others stored meanwhile: where it reports
    -- success, one version in the history is the edited form of the version right before it.
    pub mutate_categories-Replaced :
        (fn : List Json → List Json) (w : W)
        → (mutate_categories k c retry fn w).0 ≡ ok tt
        → Replaced fn w (mutate_categories k c retry fn w).1
    unfolding mutate_categories
    mutate_categories-Replaced fn w done =
        let (v, attempts, last) = retries (attempt k c fn) w in
        let (prev, stored, early, sections, before, after, had, has) =
          attempt-Replaced fn v (rw last at done) in
        (
          prev,
          stored,
          early,
          sections,
          Extends-trans (history w) (history v) (prev ∷ early) (Attempts-Grows fn attempts) before,
          rw last after,
          had,
          has,
        )
