-- ===== src/Probe/Invariant/Steps.antt =====
-- Each step of a request keeps the invariant, so that it holds in every state that can be reached
-- (internal/repository/api_availability.go).
use okdp_control_plane_serve.Base.{
  Bool, true, false, suc, none, some, ℕ, ◌≡◌, refl, sym, ap, ◌∙◌, ◌⊎◌, inl, inr, arith, nat_eq,
  if◌then◌else◌, Bool-cases, true_ne_false,
}
use okdp_control_plane_serve.Probe.Model.{
  top, waiting, probing, answered, closing, returned, enter, publish, close, State, move, Step,
  enters, finds, publishes, closes, wakes, ticks, Reach, start, then_step,
}
use okdp_control_plane_serve.Probe.Invariant.{
  is_probing, will_close, IsSound, moved, moved_self, woken_after, quiet_step, closes_nothing,
  answers, joins, begins, entered,
}

-- The request that begins a discovery call is the only one.
begin_step :
    (s : State) (t : ℕ)
    → s.place t ≡ top
    → s.shared.available ≡ false
    → s.shared.inflight ≡ none
    → IsSound s
    → IsSound (record {
      shared = record s.shared { inflight = some s.shared.next; next = suc s.shared.next };
      place = move t (probing s.shared.next) s.place;
    })
begin_step s t at absent free sound = record {
  in_flight = λ u h. (s.shared.next, refl);
  held = λ ch flying.
      let here = moved_self t (probing s.shared.next) s.place in
      (t, ap is_probing here, ap (λ q. will_close q ch) here ∙ ground arith);
  single = λ u v hu hv. only u hu ∙ sym (only v hv);
  known = λ found u. absurd (true_ne_false (sym found ∙ absent));
  woken = λ u ch h.
      woken_after t (probing s.shared.next) s s.shared.closed u ch (λ c h. h)
        (closes_nothing
          (λ c. (s.shared.closed c ≡ true) ⊎ (will_close (probing s.shared.next) c ≡ true)) at
          (λ c. refl))
        (elim (moved t (probing s.shared.next) s.place u) [
          | inl (it, there) ↦ absurd (ground arith)
          | inr (other, same) ↦ sound.woken u ch (sym same ∙ h)
        ]);
}
  where
    only : (u : ℕ) → is_probing (move t (probing s.shared.next) s.place u) ≡ true → u ≡ t
    only u h = elim (moved t (probing s.shared.next) s.place u) [
      | inl (it, there) ↦ it
      | inr (other, same) ↦
          let (ch, flying) = sound.in_flight u (ap is_probing (sym same) ∙ h) in
          absurd (ground arith)
    ]

enters-IsSound :
    (s : State) (t : ℕ)
    → s.place t ≡ top
    → IsSound s
    → IsSound (record { shared = (enter s.shared).1; place = move t (enter s.shared).0 s.place })
enters-IsSound s t at sound = elim (entered s.shared) [
  | answers b e ↦ rw e (
      quiet_step s t (returned b) s.shared.closed (ap is_probing at) refl (λ c h. h)
        (closes_nothing (λ c. (s.shared.closed c ≡ true) ⊎ (will_close (returned b) c ≡ true)) at
          (λ c. refl))
        (λ ch h. absurd (ground arith)) sound)
  | joins ch flying e ↦ rw e (
      quiet_step s t (waiting ch) s.shared.closed (ap is_probing at) refl (λ c h. h)
        (closes_nothing (λ c. (s.shared.closed c ≡ true) ⊎ (will_close (waiting ch) c ≡ true)) at
          (λ c. refl))
        (λ c h.
          let same : ch ≡ c = ground arith in
          let (v, busy, will) = sound.held ch flying in
          inr (v, ap (will_close (s.place v)) (sym same) ∙ will))
        sound)
  | begins absent free e ↦ rw e (begin_step s t at absent free sound)
]

finds-IsSound :
    (s : State) (t ch : ℕ) (b : Bool)
    → s.place t ≡ probing ch
    → IsSound s
    → IsSound (record s { place = move t (answered ch b) s.place })
finds-IsSound s t ch b at sound = record {
  in_flight = λ u h. sound.in_flight u (before u h);
  held = λ c flying.
      let (v, busy, will) = sound.held c flying in (v, after v busy, closes_too v c will);
  single = λ u v hu hv. sound.single u v (before u hu) (before v hv);
  known = λ found u. absurd (true_ne_false (sym (ap is_probing at) ∙ sound.known found t));
  woken = λ u c h. still c (sound.woken u c (unmoved u c h));
}
  where
    before :
        (u : ℕ)
        → is_probing (move t (answered ch b) s.place u) ≡ true
        → is_probing (s.place u) ≡ true
    before u h = elim (moved t (answered ch b) s.place u) [
      | inl (it, there) ↦ ap (λ x. is_probing (s.place x)) it ∙ ap is_probing at
      | inr (other, same) ↦ ap is_probing (sym same) ∙ h
    ]

    after :
        (u : ℕ)
        → is_probing (s.place u) ≡ true
        → is_probing (move t (answered ch b) s.place u) ≡ true
    after u h = elim (moved t (answered ch b) s.place u) [
      | inl (it, there) ↦ ap is_probing there
      | inr (other, same) ↦ ap is_probing same ∙ h
    ]

    unmoved : (u c : ℕ) → move t (answered ch b) s.place u ≡ waiting c → s.place u ≡ waiting c
    unmoved u c h = elim (moved t (answered ch b) s.place u) [
      | inl (it, there) ↦ absurd (ground arith)
      | inr (other, same) ↦ sym same ∙ h
    ]

    closes_too :
        (v c : ℕ)
        → will_close (s.place v) c ≡ true
        → will_close (move t (answered ch b) s.place v) c ≡ true
    closes_too v c will = elim (moved t (answered ch b) s.place v) [
      | inl (it, there) ↦
          ap (λ q. will_close q c) there
          ∙ sym (ap (λ q. will_close q c) (ap s.place it ∙ at))
          ∙ will
      | inr (other, same) ↦ ap (λ q. will_close q c) same ∙ will
    ]

    still :
        (c : ℕ)
        → (s.shared.closed c ≡ true) ⊎ ((v : ℕ) × (will_close (s.place v) c ≡ true))
        → (s.shared.closed c ≡ true)
          ⊎ ((v : ℕ) × (will_close (move t (answered ch b) s.place v) c ≡ true))
    still c (inl done) = inl done
    still c (inr (v, will)) = inr (v, closes_too v c will)

publishes-IsSound :
    (s : State) (t ch : ℕ) (b : Bool)
    → s.place t ≡ answered ch b
    → IsSound s
    → IsSound (record { shared = publish b s.shared; place = move t (closing ch b) s.place })
unfolding publish
publishes-IsSound s t ch b at sound = record {
  in_flight = λ u h. absurd (true_ne_false (sym h ∙ nobody u));
  held = λ c flying. absurd (ground arith);
  single = λ u v hu hv. absurd (true_ne_false (sym hu ∙ nobody u));
  known = λ found u. nobody u;
  woken = λ u c h.
      woken_after t (closing ch b) s s.shared.closed u c (λ x k. k)
        (λ x k. inr (sym (ap (λ q. will_close q x) at) ∙ k))
        (elim (moved t (closing ch b) s.place u) [
          | inl (it, there) ↦ absurd (ground arith)
          | inr (other, same) ↦ sound.woken u c (sym same ∙ h)
        ]);
}
  where
    nobody : (u : ℕ) → is_probing (move t (closing ch b) s.place u) ≡ false
    nobody u = elim (moved t (closing ch b) s.place u) [
      | inl (it, there) ↦ ap is_probing there
      | inr (other, same) ↦ elim (Bool-cases (is_probing (s.place u))) [
        | inr idle ↦ ap is_probing same ∙ idle
        | inl busy ↦
            let it : u ≡ t = sound.single u t busy (ap is_probing at) in absurd (ground arith)
      ]
    ]

closes-IsSound :
    (s : State) (t ch : ℕ) (b : Bool)
    → s.place t ≡ closing ch b
    → IsSound s
    → IsSound (record { shared = close ch s.shared; place = move t (returned b) s.place })
unfolding close
closes-IsSound s t ch b at sound =
    quiet_step s t (returned b) (λ c. if nat_eq c ch then true else s.shared.closed c)
      (ap is_probing at) refl (λ c done. ground arith)
      (λ c will.
        let mine : nat_eq ch c ≡ true = sym (ap (λ q. will_close q c) at) ∙ will in
        inl (ground arith))
      (λ c h. absurd (ground arith)) sound

Step-IsSound : {s s' : State} → Step s s' → IsSound s → IsSound s'
Step-IsSound {s} (enters t at) sound = enters-IsSound s t at sound
Step-IsSound {s} (finds t ch b at) sound = finds-IsSound s t ch b at sound
Step-IsSound {s} (publishes t ch b at) sound = publishes-IsSound s t ch b at sound
Step-IsSound {s} (closes t ch b at) sound = closes-IsSound s t ch b at sound
Step-IsSound {s} (wakes t ch at done) sound =
    quiet_step s t top s.shared.closed (ap is_probing at) refl (λ c h. h)
      (closes_nothing (λ c. (s.shared.closed c ≡ true) ⊎ (will_close top c ≡ true)) at (λ c. refl))
      (λ c h. absurd (ground arith)) sound
Step-IsSound {s} (ticks later ge) sound = record {
  in_flight = sound.in_flight;
  held = sound.held;
  single = sound.single;
  known = sound.known;
  woken = sound.woken;
}

-- In every state that the requests can reach, in whatever order their steps are taken and however long a
-- discovery call takes: one request at most makes the discovery call, one is in flight just where it
-- does, none is made once the resource was found, and whoever waits for a channel waits for one that is
-- closed or that another request has yet to close.
pub Reach-IsSound : {s : State} → Reach s → IsSound s
Reach-IsSound start = record {
  in_flight = λ t h. absurd (ground arith);
  held = λ ch h. absurd (ground arith);
  single = λ t u h k. absurd (ground arith);
  known = λ h t. refl;
  woken = λ t ch h. absurd (ground arith);
}
Reach-IsSound (then_step run step) = Step-IsSound step (Reach-IsSound run)
