-- ===== src/Deployment/Bindings.antt =====
-- The connections that a deployed service is shown with (`boundConnections` of
-- internal/service/service_service.go): one for each name, in order, resolved where one resolved.
use okdp_control_plane_serve.Base.{
  String, Bool, true, false, Option, none, some, List, [], ◌∷◌, map, ◌==◌, ◌||◌, ◌&&◌, ◌≡◌, refl,
  ap, sym, ◌∙◌, inl, inr, arith, Bool-cases, eq_refl, contains, All, eq_of_test, Option-cases,
}
use okdp_control_plane_serve.Base.Distinct.{
  Distinct, contains-snoc, snoc-Distinct, same_name, contains-sort_by, sort_by-Distinct,
}
use okdp_control_plane_serve.Base.Dict.{Dict, lookup, insert, lookup-insert}
use okdp_control_plane_serve.Base.Go.{sort_by}
use okdp_control_plane_serve.Base.Sorting.{SortedBy, sort_by-SortedBy}
use okdp_control_plane_serve.Deployment.Model.{InputConnectionReference, Release, ServiceConnection}
use okdp_control_plane_serve.Deployment.Instance.{
  Remembered, connection_of, remember_as, remember, remember_all, in_order, bound_connections,
}

-- What is known of the entry of a name: whether the name was seen, and whether it resolved.
abbrev Entry : Bool → Bool → String → Option ServiceConnection → Type 0
Entry live seen n none = (seen ≡ false) × (live ≡ false)
Entry live seen n (some c) = (seen ≡ true) × (c.name ≡ n) × (c.resolved ≡ live)

record IsKept (live seen : String → Bool) (r : Remembered) : Type 0 where
  order_has : (n : String) → contains r.order n ≡ seen n
  entry : (n : String) → Entry (live n) (seen n) n (lookup n r.by_name)
  once : Distinct r.order

abbrev pub ref_names : List InputConnectionReference → List String
ref_names refs = map (λ (r : InputConnectionReference). r.name) refs

module _ (live seen : String → Bool) where
  abbrev seen_too : InputConnectionReference → String → Bool
  seen_too ref n = ref.name == n || seen n

  abbrev live_too : Bool → InputConnectionReference → String → Bool
  live_too resolved ref n = (resolved && ref.name == n) || live n

  Entry-put :
      (ref : InputConnectionReference) (resolved : Bool) (m : Dict ServiceConnection) (n : String)
      → live ref.name ≡ false
      → Entry (live n) (seen n) n (lookup n m)
      → Entry
          (live_too resolved ref n)
          (seen_too ref n)
          n
          (lookup n (insert ref.name (connection_of ref resolved) m))
  unfolding connection_of
  Entry-put ref resolved m n pending before = elim (Bool-cases (ref.name == n)) [
    | inl it ↦
        let same : ref.name ≡ n = eq_of_test ref.name n it in
        let quiet : live n ≡ false = ap live (sym same) ∙ pending in
        rw (lookup-insert ref.name n (connection_of ref resolved) m, it)
          (refl, same, flag resolved quiet)
    | inr other ↦
        rw (lookup-insert ref.name n (connection_of ref resolved) m, other)
          (unchanged resolved (lookup n m) before)
  ]
    where
      flag : (b : Bool) → live n ≡ false → b ≡ ((b && true) || live n)
      flag true quiet = refl
      flag false quiet = sym quiet

      unchanged :
          (b : Bool) (o : Option ServiceConnection)
          → Entry (live n) (seen n) n o
          → Entry ((b && false) || live n) (seen n) n o
      unchanged true o e = e
      unchanged false o e = e

  live_same :
      (ref : InputConnectionReference) (resolved : Bool) (n : String)
      → live ref.name ≡ true
      → live_too resolved ref n ≡ live n
  live_same ref resolved n got = elim (Bool-cases (ref.name == n)) [
    | inl it ↦
        let same : live n ≡ true = ap live (sym (eq_of_test ref.name n it)) ∙ got in ground arith
    | inr other ↦ ground arith
  ]

  seen_same :
      (ref : InputConnectionReference) (n : String) → seen ref.name ≡ true → seen_too ref n ≡ seen n
  seen_same ref n was = elim (Bool-cases (ref.name == n)) [
    | inl it ↦
        let same : seen n ≡ true = ap seen (sym (eq_of_test ref.name n it)) ∙ was in ground arith
    | inr other ↦ ground arith
  ]

  known-Entry :
      (n : String) (o p : Option ServiceConnection)
      → o ≡ p
      → Entry (live n) (seen n) n o
      → Entry (live n) (seen n) n p
  known-Entry n o p e h = rw⁻¹ e h

  remember-IsKept :
      (ref : InputConnectionReference) (resolved : Bool) (r : Remembered)
      → IsKept live seen r
      → IsKept (live_too resolved ref) (seen_too ref) (remember ref resolved r)
  unfolding remember remember_as connection_of
  remember-IsKept ref resolved r kept = elim (Option-cases (lookup ref.name r.by_name)) [
    | inl new ↦
        let (unseen, quiet) =
          known-Entry ref.name (lookup ref.name r.by_name) none new (kept.entry ref.name) in
        rw new (record {
          order_has = λ n.
              contains-snoc r.order ref.name n ∙ ap (λ b. ref.name == n || b) (kept.order_has n);
          entry = λ n. Entry-put ref resolved r.by_name n quiet (kept.entry n);
          once = snoc-Distinct r.order ref.name kept.once (kept.order_has ref.name ∙ unseen);
        })
    | inr (current, known) ↦
        let (was, named, flag) =
          known-Entry ref.name (lookup ref.name r.by_name) (some current) known
            (kept.entry ref.name) in
        let order : (n : String) → contains r.order n ≡ seen_too ref n =
          λ n. kept.order_has n ∙ sym (seen_same ref n was) in
        elim (Bool-cases current.resolved) [
          | inl done ↦
              rw (known, done)
                (record {
                  order_has = order;
                  entry = λ n.
                      rw (seen_same ref n was, live_same ref resolved n (sym flag ∙ done))
                        (kept.entry n);
                  once = kept.once;
                })
          | inr pending ↦
              rw (known, pending)
                (record {
                  order_has = order;
                  entry =
                      λ n. Entry-put ref resolved r.by_name n (sym flag ∙ pending) (kept.entry n);
                  once = kept.once;
                })
        ]
  ]

same-IsKept :
    {live seen live' seen' : String → Bool} {r : Remembered}
    → ((n : String) → live n ≡ live' n)
    → ((n : String) → seen n ≡ seen' n)
    → IsKept live seen r
    → IsKept live' seen' r
same-IsKept {r} l s kept = record {
  order_has = λ n. kept.order_has n ∙ s n;
  entry = λ n. rw (← l n, ← s n) (kept.entry n);
  once = kept.once;
}

remember_all-IsKept :
    (live seen : String → Bool) (resolved : Bool) (refs : List InputConnectionReference)
    (r : Remembered)
    → IsKept live seen r
    → IsKept
        (λ n. (resolved && contains (ref_names refs) n) || live n)
        (λ n. contains (ref_names refs) n || seen n)
        (remember_all resolved refs r)
unfolding remember_all
remember_all-IsKept live seen resolved [] r kept = same-IsKept (λ n. ground arith) (λ n. refl) kept
remember_all-IsKept live seen resolved (ref ∷ refs) r kept =
    same-IsKept (λ n. ground arith) (λ n. ground arith)
      (remember_all-IsKept (live_too live seen resolved ref) (seen_too live seen ref) resolved refs
        (remember ref resolved r) (remember-IsKept live seen ref resolved r kept))

-- The names that are shown, one after the other.
abbrev pub shown_names : List ServiceConnection → List String
shown_names cs = map (λ (c : ServiceConnection). c.name) cs

in_order_shows :
    (live seen : String → Bool) (r : Remembered) (names : List String)
    → IsKept live seen r
    → All (λ n. seen n ≡ true) names
    → (shown_names (in_order r.by_name names) ≡ names)
      × All (λ (c : ServiceConnection). c.resolved ≡ live c.name) (in_order r.by_name names)
unfolding in_order
in_order_shows live seen r [] kept all = (refl, tt)
in_order_shows live seen r (n ∷ ns) kept all =
    let (names, flags) = in_order_shows live seen r ns kept all.1 in
    elim (Option-cases (lookup n r.by_name)) [
      | inl missing ↦
          let (unseen, quiet) =
            known-Entry live seen n (lookup n r.by_name) none missing (kept.entry n) in
          absurd (ground arith)
      | inr (c, found) ↦
          let (was, named, flag) =
            known-Entry live seen n (lookup n r.by_name) (some c) found (kept.entry n) in
          rw (found, in_order)
            (
              ap (λ x. x ∷ shown_names (in_order r.by_name ns)) named ∙ ap (λ l. n ∷ l) names,
              (flag ∙ ap live (sym named), flags),
            )
    ]

All-of_contains :
    (P : String → Type 0) (xs : List String)
    → ((n : String) → contains xs n ≡ true → P n)
    → All P xs
All-of_contains P [] h = tt
All-of_contains P (x ∷ xs) h =
    (h x (ground (arith, eq_refl x)), All-of_contains P xs (λ n m. h n (ground arith)))

-- The connections of a release are shown in the order of their names, each name once. The names are
-- those that the controller watches or has found effective, and one is shown as resolved just where an
-- effective connection has it.
pub bound_connections_lem :
    (r : Release)
    → SortedBy (λ n. n) (shown_names (bound_connections r))
      × Distinct (shown_names (bound_connections r))
      × ((n : String)
          → contains (shown_names (bound_connections r)) n ≡ (
              contains (ref_names r.status.watched) n || contains (ref_names r.status.effective) n))
      × All
          (λ (c : ServiceConnection). c.resolved ≡ contains (ref_names r.status.effective) c.name)
          (bound_connections r)
unfolding bound_connections lookup
bound_connections_lem r =
    let effective = ref_names r.status.effective in
    let empty : Remembered = record { by_name = []; order = [] } in
    let start : IsKept (λ n. false) (λ n. false) empty = record {
      order_has = λ n. refl;
      entry = λ n. (refl, refl);
      once = tt;
    } in
    let first = remember_all-IsKept (λ n. false) (λ n. false) true r.status.effective empty start in
    let first' : IsKept (contains effective) (contains effective)
        (remember_all true r.status.effective empty) =
      same-IsKept (λ n. ground arith) (λ n. ground arith) first in
    let all = remember_all false r.status.watched (remember_all true r.status.effective empty) in
    let seen : String → Bool =
      λ n. contains (ref_names r.status.watched) n || contains effective n in
    let kept : IsKept (contains effective) seen all =
      same-IsKept (λ n. refl) (λ n. refl)
        (remember_all-IsKept (contains effective) (contains effective) false r.status.watched
          (remember_all true r.status.effective empty) first') in
    let sorted = sort_by same_name all.order in
    let (names, flags) = in_order_shows (contains effective) seen all sorted kept (
      All-of_contains (λ n. seen n ≡ true) sorted
        (λ n m. sym (kept.order_has n) ∙ sym (contains-sort_by all.order n) ∙ m)) in
    (
      rw names (sort_by-SortedBy same_name all.order),
      rw names (sort_by-Distinct all.order kept.once),
      λ n. rw names (contains-sort_by all.order n ∙ kept.order_has n),
      flags,
    )
