-- ===== src/Probe/Model.antt =====
-- `APIProbe` of internal/repository/api_availability.go. Requests run side by side; what a request does
-- under the lock is one step, as is each thing that it does outside of it. The discovery call is a step
-- of its own, whose answer is any of the answers that `probe` can give.
use okdp_control_plane_serve.Base.{
  String, Bool, true, false, Option, none, some, List, [], ◌∷◌, ℕ, suc, ◌-◌, ◌≤◌, ◌≡◌, ltb, nat_eq,
  contains, if◌then◌else◌,
}
use okdp_control_plane_serve.Base.Go.{Result, ok, err}

-- `crdAvailabilityTTL`, in nanoseconds.
abbrev pub crd_availability_ttl : ℕ
crd_availability_ttl = 30000000000

-- Whether each of the required resources is among the served ones.
unfoldable pub all_served : List String → List String → Bool
all_served served [] = true
all_served served (r ∷ rs) = if contains served r then all_served served rs else false

-- `probe`, from the answer of the discovery client, if there is one.
unfoldable pub probe : Option (Result String (List String)) → String → List String → Bool
unfolding all_served
probe none resource also_required = false
probe (some (err e)) resource also_required = false
probe (some (ok served)) resource also_required = all_served served (resource ∷ also_required)

-- The fields of the probe that the lock guards, with the clock, the channels that were closed and the
-- number of the next one. A zero time is `none`.
pub record Shared : Type 0 where
  pub available : Bool
  pub checked_at : Option ℕ
  pub inflight : Option ℕ
  pub now : ℕ
  pub closed : ℕ → Bool
  pub next : ℕ

-- Where a request stands in `Available`.
pub data Place : Type 0 where
  top : Place
  waiting probing : ℕ → Place
  answered closing : ℕ → Bool → Place
  returned : Bool → Place

-- A recent negative answer.
unfoldable pub is_recent : Shared → Bool
is_recent s = elim s.checked_at [ none ↦ false | some t ↦ ltb (s.now - t) crd_availability_ttl ]

unfoldable pub enter_free : Option ℕ → Shared → Place × Shared
enter_free (some ch) s = (waiting ch, s)
enter_free none s = (probing s.next, record s { inflight = some s.next; next = suc s.next })

-- The first critical section of `Available`.
unfoldable pub enter : Shared → Place × Shared
unfolding is_recent enter_free
enter s =
    if s.available
    then (returned true, s)
    else if is_recent s
    then (returned false, s)
    else enter_free s.inflight s

-- The second one, after the discovery call answered.
unfoldable pub publish : Bool → Shared → Shared
publish b s = record s { inflight = none; checked_at = some s.now; available = b }

-- `close(done)`
unfoldable pub close : ℕ → Shared → Shared
close ch s = record s { closed = λ c. if nat_eq c ch then true else s.closed c }

-- The probe and every request.
pub record State : Type 0 where
  pub shared : Shared
  pub place : ℕ → Place

unfoldable pub move : ℕ → Place → (ℕ → Place) → ℕ → Place
move t p place u = if nat_eq u t then p else place u

-- One step of one request, or of the clock. The discovery call may take any time and answer anything.
pub data Step : State → State → Type 0 where
  enters :
      {s : State} (t : ℕ)
      → s.place t ≡ top
      → Step s (record { shared = (enter s.shared).1; place = move t (enter s.shared).0 s.place })
  finds :
      {s : State} (t ch : ℕ) (b : Bool)
      → s.place t ≡ probing ch
      → Step s (record s { place = move t (answered ch b) s.place })
  publishes :
      {s : State} (t ch : ℕ) (b : Bool)
      → s.place t ≡ answered ch b
      → Step s (record { shared = publish b s.shared; place = move t (closing ch b) s.place })
  closes :
      {s : State} (t ch : ℕ) (b : Bool)
      → s.place t ≡ closing ch b
      → Step s (record { shared = close ch s.shared; place = move t (returned b) s.place })
  wakes :
      {s : State} (t ch : ℕ)
      → s.place t ≡ waiting ch
      → s.shared.closed ch ≡ true
      → Step s (record s { place = move t top s.place })
  ticks :
      {s : State} (later : ℕ)
      → s.shared.now ≤ later
      → Step s (record s { shared = record s.shared { now = later } })

-- Every request at its beginning, and a probe as `NewAPIProbe` makes it.
abbrev pub initial : State
initial = record {
  shared = record {
    available = false;
    checked_at = none;
    inflight = none;
    now = 0;
    closed = λ c. false;
    next = 0;
  };
  place = λ t. top;
}

pub data Reach : State → Type 0 where
  start : Reach initial
  then_step : {s s' : State} → Reach s → Step s s' → Reach s'
