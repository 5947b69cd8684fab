-- ===== src/Probe/Progress.antt =====
-- Every request can be answered, and a positive answer stays
-- (internal/repository/api_availability.go).
use okdp_control_plane_serve.Base.{
  Bool, true, false, none, ℕ, ◌≡◌, refl, sym, ap, ◌∙◌, ◌⊎◌, inl, inr, arith, nat_eq, Bool-cases,
  Option-cases, true_ne_false,
}
use okdp_control_plane_serve.Probe.Model.{
  Place, top, waiting, probing, answered, closing, returned, enter, publish, close, State, move,
  Step, enters, finds, publishes, closes, wakes, ticks, Reach, then_step,
}
use okdp_control_plane_serve.Probe.Invariant.Steps.{Reach-IsSound}
use okdp_control_plane_serve.Probe.Invariant.{
  is_probing, will_close, IsSound, moved_self, answers, joins, begins, entered,
}

-- A sequence of steps.
pub data Run : State → State → Type 0 where
  stop : {s : State} → Run s s
  step : {s t u : State} → Step s t → Run t u → Run s u

Run-join : {s t u : State} → Run s t → Run t u → Run s u
Run-join stop more = more
Run-join (step first rest) more = step first (Run-join rest more)

Reach-Run : {s s' : State} → Reach s → Run s s' → Reach s'
Reach-Run at stop = at
Reach-Run at (step first rest) = Reach-Run (then_step at first) rest

-- What the request of `v` can do by itself: it returns, its channel is closed, the others stay where they
-- are, and no call is in flight where the request made it or none was before.
abbrev Driven : State → ℕ → ℕ → Type 0
Driven s v ch =
    (s' : State) × Run s s'
    × (s'.shared.closed ch ≡ true)
    × ((u : ℕ) → nat_eq u v ≡ false → s'.place u ≡ s.place u)
    × ((is_probing (s.place v) ≡ true) ⊎ (s.shared.inflight ≡ none) → s'.shared.inflight ≡ none)
    × ((b : Bool) × (s'.place v ≡ returned b))

elsewhere :
    (t u : ℕ) (p : Place) (place : ℕ → Place) → nat_eq u t ≡ false → move t p place u ≡ place u
unfolding move
elsewhere t u p place other = ground arith

drive_closing : (s : State) (v ch : ℕ) (b : Bool) → s.place v ≡ closing ch b → Driven s v ch
unfolding close
drive_closing s v ch b at = (
  record { shared = close ch s.shared; place = move v (returned b) s.place },
  step (closes v ch b at) stop,
  ground arith,
  λ u other. elsewhere v u (returned b) s.place other,
  idle,
  (b, moved_self v (returned b) s.place),
)
  where
    idle : (is_probing (s.place v) ≡ true) ⊎ (s.shared.inflight ≡ none) → s.shared.inflight ≡ none
    idle (inr free) = free
    idle (inl busy) = absurd (true_ne_false (sym busy ∙ ap is_probing at))

drive_answered : (s : State) (v ch : ℕ) (b : Bool) → s.place v ≡ answered ch b → Driven s v ch
unfolding publish
drive_answered s v ch b at =
    let s1 : State = record {
      shared = publish b s.shared;
      place = move v (closing ch b) s.place;
    } in
    let (s', run, done, same, free, back) =
      drive_closing s1 v ch b (moved_self v (closing ch b) s.place) in
    (
      s',
      step (publishes v ch b at) run,
      done,
      λ u other. same u other ∙ elsewhere v u (closing ch b) s.place other,
      λ _. free (inr refl),
      back,
    )

drive_probing : (s : State) (v ch : ℕ) → s.place v ≡ probing ch → Driven s v ch
drive_probing s v ch at =
    let p = answered ch false in
    let s1 : State = record s { place = move v p s.place } in
    let here = moved_self v p s.place in
    let (s', run, done, same, free, back) = drive_answered s1 v ch false here in
    (
      s',
      step (finds v ch false at) run,
      done,
      λ u other. same u other ∙ elsewhere v u p s.place other,
      λ _. free (inl (ap is_probing here)),
      back,
    )

nat_same : (c ch : ℕ) → nat_eq c ch ≡ true → c ≡ ch
nat_same c ch h = ground arith

-- Whoever is to close a channel can do so.
drive : (s : State) (v ch : ℕ) → will_close (s.place v) ch ≡ true → Driven s v ch
drive s v ch will = go (s.place v) refl will
  where
    go : (p : Place) → s.place v ≡ p → will_close p ch ≡ true → Driven s v ch
    go (probing c) at h = drive_probing s v ch (at ∙ ap (λ x. probing x) (nat_same c ch h))
    go (answered c b) at h = drive_answered s v ch b (at ∙ ap (λ x. answered x b) (nat_same c ch h))
    go (closing c b) at h = drive_closing s v ch b (at ∙ ap (λ x. closing x b) (nat_same c ch h))
    go _ at h = absurd (ground arith)

-- The request can still be answered, by some sequence of steps.
abbrev pub CanReturn : State → ℕ → Type 0
CanReturn s t = (s' : State) × Run s s' × ((b : Bool) × (s'.place t ≡ returned b))

after-Run : {s s1 : State} (t : ℕ) → Run s s1 → CanReturn s1 t → CanReturn s t
after-Run t first (s', rest, back) = (s', Run-join first rest, back)

Driven-returns : (s : State) (t ch : ℕ) → Driven s t ch → CanReturn s t
Driven-returns s t ch (s', run, done, same, free, back) = (s', run, back)

from_free : (s : State) (t : ℕ) → s.place t ≡ top → s.shared.inflight ≡ none → CanReturn s t
from_free s t at free =
    let s1 : State = record {
      shared = (enter s.shared).1;
      place = move t (enter s.shared).0 s.place;
    } in
    let here : s1.place t ≡ (enter s.shared).0 = moved_self t (enter s.shared).0 s.place in
    elim (entered s.shared) [
      | answers b e ↦ (s1, step (enters t at) stop, (b, here ∙ ap (λ x. x.0) e))
      | joins ch flying e ↦ absurd (ground arith)
      | begins absent none_flying e ↦ after-Run t (step (enters t at) stop) (
          Driven-returns s1 t s.shared.next
            (drive_probing s1 t s.shared.next (here ∙ ap (λ x. x.0) e)))
    ]

from_top : (s : State) (t : ℕ) → s.place t ≡ top → IsSound s → CanReturn s t
from_top s t at sound = elim (Option-cases s.shared.inflight) [
  | inl free ↦ from_free s t at free
  | inr (ch, flying) ↦
      let (v, busy, will) = sound.held ch flying in
      let (s', run, done, same, free, back) = drive s v ch will in
      after-Run t run (from_free s' t (same t (apart v busy) ∙ at) (free (inl busy)))
]
  where
    apart : (v : ℕ) → is_probing (s.place v) ≡ true → nat_eq t v ≡ false
    apart v busy = elim (Bool-cases (nat_eq t v)) [
      | inr other ↦ other
      | inl it ↦ absurd (
          true_ne_false (
            sym busy ∙ ap (λ x. is_probing (s.place x)) (sym (nat_same t v it)) ∙ ap is_probing at))
    ]

from_woken :
    (s : State) (t ch : ℕ)
    → Reach s
    → s.place t ≡ waiting ch
    → s.shared.closed ch ≡ true
    → CanReturn s t
from_woken s t ch reached at done =
    let s1 : State = record s { place = move t top s.place } in
    after-Run t (step (wakes t ch at done) stop) (
      from_top s1 t (moved_self t top s.place)
        (Reach-IsSound (then_step reached (wakes t ch at done))))

from_waiting : (s : State) (t ch : ℕ) → Reach s → s.place t ≡ waiting ch → CanReturn s t
from_waiting s t ch reached at = elim ((Reach-IsSound reached).woken t ch at) [
  | inl done ↦ from_woken s t ch reached at done
  | inr (v, will) ↦
      let (s', run, done, same, free, back) = drive s v ch will in
      after-Run t run (from_woken s' t ch (Reach-Run reached run) (same t (apart v will) ∙ at) done)
]
  where
    apart : (v : ℕ) → will_close (s.place v) ch ≡ true → nat_eq t v ≡ false
    apart v will = elim (Bool-cases (nat_eq t v)) [
      | inr other ↦ other
      | inl it ↦ absurd (
          true_ne_false (
            sym will
            ∙ ap (λ x. will_close (s.place x) ch) (sym (nat_same t v it))
            ∙ ap (λ q. will_close q ch) at))
    ]

-- No request is ever stuck: from every state that can be reached, each request can still be answered.
-- Nobody waits for a channel that nobody will close, and no two requests wait for one another.
pub can_return : {s : State} (t : ℕ) → Reach s → CanReturn s t
can_return {s} t reached = go (s.place t) refl
  where
    go : (p : Place) → s.place t ≡ p → CanReturn s t
    go top at = from_top s t at (Reach-IsSound reached)
    go (waiting ch) at = from_waiting s t ch reached at
    go (probing ch) at = Driven-returns s t ch (drive_probing s t ch at)
    go (answered ch b) at = Driven-returns s t ch (drive_answered s t ch b at)
    go (closing ch b) at = Driven-returns s t ch (drive_closing s t ch b at)
    go (returned b) at = (s, stop, (b, at))

closed_keeps :
    (s : State) (ch : ℕ) → s.shared.available ≡ true → (close ch s.shared).available ≡ true
unfolding close
closed_keeps s ch found = found

-- Once the resource was found it stays found, whatever the requests do from there.
pub found_stays :
    {s s' : State} → Reach s → Run s s' → s.shared.available ≡ true → s'.shared.available ≡ true
found_stays reached stop found = found
found_stays reached (step first rest) found =
    found_stays (then_step reached first) rest (one first (Reach-IsSound reached) found)
  where
    one :
        {s s' : State}
        → Step s s'
        → IsSound s
        → s.shared.available ≡ true
        → s'.shared.available ≡ true
    one {s} (enters t at) sound found = elim (entered s.shared) [
      | answers b e ↦ ap (λ x. x.1.available) e ∙ found
      | joins ch flying e ↦ ap (λ x. x.1.available) e ∙ found
      | begins absent free e ↦ absurd (true_ne_false (sym found ∙ absent))
    ]
    one {s} (finds t ch b at) sound found = found
    one {s} (publishes t ch b at) sound found =
        absurd (true_ne_false (sym (ap is_probing at) ∙ sound.known found t))
    one {s} (closes t ch b at) sound found = closed_keeps s ch found
    one {s} (wakes t ch at done) sound found = found
    one {s} (ticks later ge) sound found = found
