-- ===== src/Probe/Invariant.antt =====
-- What holds in every state that the requests can reach (internal/repository/api_availability.go).
pub mod Steps
use okdp_control_plane_serve.Base.{
  Bool, true, false, suc, none, some, ℕ, ◌≡◌, refl, sym, ap, ◌∙◌, ◌⊎◌, inl, inr, arith, nat_eq,
  if◌then◌else◌, Bool-cases, Option-cases, true_ne_false,
}
use okdp_control_plane_serve.Probe.Model.{
  Shared, Place, top, waiting, probing, answered, closing, returned, is_recent, enter_free, enter,
  publish, close, State, move, Step, enters, finds, publishes, closes, wakes, ticks, Reach, start,
  then_step,
}

-- A request that runs the discovery call, or has its answer and not published it yet.
abbrev pub is_probing : Place → Bool
is_probing (probing ch) = true
is_probing (answered ch b) = true
is_probing _ = false

-- A request that will close the channel.
abbrev pub will_close : Place → ℕ → Bool
will_close (probing c) ch = nat_eq c ch
will_close (answered c b) ch = nat_eq c ch
will_close (closing c b) ch = nat_eq c ch
will_close _ ch = false

-- While the discovery call is under way there is a call in flight, and the other way round; only one
-- request makes it; none is
-- under way once the resource was found; and whoever waits for a channel waits for one that is closed or
-- that another request will close.
pub record IsSound (s : State) : Type 0 where
  pub in_flight : (t : ℕ) → is_probing (s.place t) ≡ true → (ch : ℕ) × (s.shared.inflight ≡ some ch)
  pub held :
      (ch : ℕ)
      → s.shared.inflight ≡ some ch
      → (v : ℕ) × (is_probing (s.place v) ≡ true) × (will_close (s.place v) ch ≡ true)
  pub single : (t u : ℕ) → is_probing (s.place t) ≡ true → is_probing (s.place u) ≡ true → t ≡ u
  pub known : s.shared.available ≡ true → (t : ℕ) → is_probing (s.place t) ≡ false
  pub woken :
      (t ch : ℕ)
      → s.place t ≡ waiting ch
      → (s.shared.closed ch ≡ true) ⊎ ((u : ℕ) × (will_close (s.place u) ch ≡ true))

pub moved :
    (t : ℕ) (p : Place) (place : ℕ → Place) (u : ℕ)
    → ((u ≡ t) × (move t p place u ≡ p)) ⊎ (((nat_eq u t) ≡ false) × (move t p place u ≡ place u))
unfolding move
moved t p place u = elim (Bool-cases (nat_eq u t)) [
  | inl it ↦ inl (ground arith, ground arith)
  | inr other ↦ inr (other, ground arith)
]

pub moved_self : (t : ℕ) (p : Place) (place : ℕ → Place) → move t p place t ≡ p
unfolding move
moved_self t p place = ground arith

-- A request that runs no discovery call after its step.
probing_before :
    (t : ℕ) (p : Place) (place : ℕ → Place) (u : ℕ)
    → is_probing p ≡ false
    → is_probing (move t p place u) ≡ true
    → is_probing (place u) ≡ true
probing_before t p place u quiet h = elim (moved t p place u) [
  | inl (it, there) ↦ absurd (true_ne_false (sym h ∙ ap is_probing there ∙ quiet))
  | inr (other, same) ↦ ap is_probing (sym same) ∙ h
]

-- A waiting request is still waited for after the step of another request, where that request closes the
-- same channels as before, or has closed the one that it would close.
woken_after :
    (t : ℕ) (p : Place) (s : State) (closed' : ℕ → Bool) (u ch : ℕ)
    → ((c : ℕ) → s.shared.closed c ≡ true → closed' c ≡ true)
    → ((c : ℕ) → will_close (s.place t) c ≡ true → (closed' c ≡ true) ⊎ (will_close p c ≡ true))
    → (s.shared.closed ch ≡ true) ⊎ ((v : ℕ) × (will_close (s.place v) ch ≡ true))
    → (closed' ch ≡ true) ⊎ ((v : ℕ) × (will_close (move t p s.place v) ch ≡ true))
woken_after t p s closed' u ch more own before = elim before [
  | inl done ↦ inl (more ch done)
  | inr (v, will) ↦ elim (moved t p s.place v) [
    | inr (other, same) ↦ inr (v, ap (λ q. will_close q ch) same ∙ will)
    | inl (it, there) ↦ elim (own ch (ap (λ x. will_close (s.place x) ch) (sym it) ∙ will)) [
      | inl done ↦ inl done
      | inr still ↦ inr (v, ap (λ q. will_close q ch) there ∙ still)
    ]
  ]
]

-- The step of a request to a place without a discovery call, that leaves what the lock guards but for
-- channels that are closed.
quiet_step :
    (s : State) (t : ℕ) (p : Place) (closed' : ℕ → Bool)
    → is_probing (s.place t) ≡ false
    → is_probing p ≡ false
    → ((c : ℕ) → s.shared.closed c ≡ true → closed' c ≡ true)
    → ((c : ℕ) → will_close (s.place t) c ≡ true → (closed' c ≡ true) ⊎ (will_close p c ≡ true))
    → ((ch : ℕ)
        → p ≡ waiting ch
        → (s.shared.closed ch ≡ true) ⊎ ((v : ℕ) × (will_close (s.place v) ch ≡ true)))
    → IsSound s
    → IsSound (record { shared = record s.shared { closed = closed' }; place = move t p s.place })
quiet_step s t p closed' idle quiet more own waits sound = record {
  in_flight = λ u h. sound.in_flight u (probing_before t p s.place u quiet h);
  held = λ ch flying.
      let (v, busy, will) = sound.held ch flying in
      elim (moved t p s.place v) [
        | inl (it, there) ↦
            absurd (true_ne_false (sym busy ∙ ap (λ x. is_probing (s.place x)) it ∙ idle))
        | inr (other, same) ↦ (v, ap is_probing same ∙ busy, ap (λ q. will_close q ch) same ∙ will)
      ];
  single = λ u v hu hv.
      sound.single u v (probing_before t p s.place u quiet hu)
        (probing_before t p s.place v quiet hv);
  known = λ found u. elim (moved t p s.place u) [
    | inl (it, there) ↦ ap is_probing there ∙ quiet
    | inr (other, same) ↦ ap is_probing same ∙ sound.known found u
  ];
  woken = λ u ch h. woken_after t p s closed' u ch more own (elim (moved t p s.place u) [
    | inl (it, there) ↦ waits ch (sym there ∙ h)
    | inr (other, same) ↦ sound.woken u ch (sym same ∙ h)
  ]);
}

-- A place at which no channel will be closed.
closes_nothing :
    (A : ℕ → Type 0) {p q : Place}
    → p ≡ q
    → ((c : ℕ) → will_close q c ≡ false)
    → (c : ℕ) → will_close p c ≡ true
    → A c
closes_nothing A at idle c h = absurd (true_ne_false (sym h ∙ ap (λ x. will_close x c) at ∙ idle c))

-- What the first critical section may do.
pub data Entered (s : Shared) : Type 0 where
  answers : (b : Bool) → enter s ≡ (returned b, s) → Entered s
  joins : (ch : ℕ) → s.inflight ≡ some ch → enter s ≡ (waiting ch, s) → Entered s
  begins :
      s.available ≡ false
      → s.inflight ≡ none
      → enter s ≡ (probing s.next, record s { inflight = some s.next; next = suc s.next })
      → Entered s

pub entered : (s : Shared) → Entered s
unfolding enter enter_free
entered s = elim (Bool-cases s.available) [
  | inl found ↦ answers true (ground arith)
  | inr absent ↦ elim (Bool-cases (is_recent s)) [
    | inl recent ↦ answers false (ground arith)
    | inr old ↦ elim (Option-cases s.inflight) [
      | inr (ch, flying) ↦ joins ch flying (ground arith)
      | inl free ↦ begins absent free (ground arith)
    ]
  ]
]
