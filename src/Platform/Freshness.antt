-- ===== src/Platform/Freshness.antt =====
-- How old the Context can be that a read works on: the cache of
-- internal/repository/context_repository.go over every run of reads, invalidations and waiting.
use okdp_control_plane_serve.Base.{
  ℕ, ◌+◌, ◌-◌, ◌≤◌, Option, none, some, ◌≡◌, refl, inl, inr, arith, ltb, Bool-cases,
}
use okdp_control_plane_serve.Base.Go.{Result, ok, err}
use okdp_control_plane_serve.Base.Steps.{Result-cases}
use okdp_control_plane_serve.Base.Json.{Fields}
use okdp_control_plane_serve.Platform.Context.{
  ContextError, ContextApi, Cached, context_cache_ttl, remember, fetch, get_context_from,
  get_context, invalidate,
}

-- What is relied on of the API server and the clock: a read answers with what was stored at some time
-- during the call, time does not run backwards, and a call takes `latency` at most. `WasStored t u` says
-- that `u` was what the server had stored at time `t`.
pub record ReadLaws {W : Type 0} (c : ContextApi W) (WasStored : ℕ → Fields → Type 0) (latency : ℕ)
    : Type 0 where
  pub get_answers :
      (w : W) (u : Fields)
      → (c.get w).0 ≡ ok u
      → (t : ℕ) × WasStored t u × (c.now w ≤ t) × (t ≤ c.now (c.get w).1)
  pub get_takes : (w : W) → (c.now w ≤ c.now (c.get w).1) × (c.now (c.get w).1 ≤ c.now w + latency)

-- One step of the life of the repository.
pub data Step {W : Type 0} (c : ContextApi W) : Cached W → Cached W → Type 0 where
  read : {s : Cached W} → Step c s (get_context c s).1
  dropped : {s : Cached W} → Step c s (invalidate s)
  wait : {s : Cached W} {w : W} → c.now s.world ≤ c.now w → Step c s (record s { world = w })

pub data Run {W : Type 0} (c : ContextApi W) : Cached W → Cached W → Type 0 where
  start : {s : Cached W} → Run c s s
  next : {s t u : Cached W} → Run c s t → Step c t u → Run c s u

module _ {W : Type 0} (c : ContextApi W) (WasStored : ℕ → Fields → Type 0) (latency : ℕ)
    (laws : ReadLaws c WasStored latency) where
  -- What is cached was stored, at most `latency` before the time that is noted with it.
  abbrev IsFresh : Cached W → Type 0
  IsFresh s =
      (u : Fields)
      → s.cached ≡ some u
      → (t : ℕ) × WasStored t u
        × (t ≤ s.cached_at)
        × (s.cached_at ≤ t + latency)
        × (s.cached_at ≤ c.now s.world)

  fetch-IsFresh : (s : Cached W) → IsFresh s → IsFresh (fetch c s).1
  unfolding fetch remember
  fetch-IsFresh s fresh = go (c.get s.world).0 refl
    where
      go :
          (r : Result ContextError Fields)
          → (c.get s.world).0 ≡ r
          → IsFresh (remember c r (record s { world = (c.get s.world).1 })).1
      go (err e) failed u cached =
          let (t, stored, a, b, d) = fresh u cached in
          let (later, soon) = laws.get_takes s.world in (t, stored, a, b, omega arith)
      go (ok v) got u cached =
          let (t, stored, a, b) = laws.get_answers s.world v got in
          let (later, soon) = laws.get_takes s.world in
          let same : v ≡ u = ground arith in (t, rw⁻¹ same stored, b, omega arith, omega arith)

  get_context_from-IsFresh :
      (o : Option Fields) (s : Cached W) → IsFresh s → IsFresh (get_context_from c o s).1
  unfolding get_context_from
  get_context_from-IsFresh none s fresh = fetch-IsFresh s fresh
  get_context_from-IsFresh (some u) s fresh =
      elim (Bool-cases (ltb (c.now s.world - s.cached_at) context_cache_ttl)) [
        | inl recent ↦ rw recent fresh
        | inr old ↦ rw old (fetch-IsFresh s fresh)
      ]

  get_context-IsFresh : (s : Cached W) → IsFresh s → IsFresh (get_context c s).1
  unfolding get_context
  get_context-IsFresh s fresh = get_context_from-IsFresh s.cached s fresh

  Step-IsFresh : {s s' : Cached W} → Step c s s' → IsFresh s → IsFresh s'
  unfolding invalidate
  Step-IsFresh {s} read fresh = get_context-IsFresh s fresh
  Step-IsFresh dropped fresh = λ u cached. absurd (ground arith)
  Step-IsFresh (wait later) fresh =
      λ u cached. let (t, stored, a, b, d) = fresh u cached in (t, stored, a, b, omega arith)

  Run-IsFresh : {s s' : Cached W} → Run c s s' → IsFresh s → IsFresh s'
  Run-IsFresh start fresh = fresh
  Run-IsFresh (next run step) fresh = Step-IsFresh step (Run-IsFresh run fresh)

  fetch_answer :
      (s : Cached W) (u : Fields)
      → (fetch c s).0 ≡ ok u
      → (t : ℕ) × WasStored t u
        × (c.now s.world ≤ t)
        × (t ≤ c.now (fetch c s).1.world)
        × (c.now (fetch c s).1.world ≤ c.now s.world + latency)
  unfolding fetch remember
  fetch_answer s u answered = elim (Result-cases (c.get s.world).0) [
    | inr (e, failed) ↦ absurd (ground arith)
    | inl (v, got) ↦
        let (t, stored, a, b) = laws.get_answers s.world v got in
        let same : v ≡ u = ground arith in
        let moved : (fetch c s).1.world ≡ (c.get s.world).1 = ground arith in
        (t, rw⁻¹ same stored, a, rw moved b, rw moved (laws.get_takes s.world).1)
  ]

  answer_age :
      (o : Option Fields) (s : Cached W) (u : Fields)
      → s.cached ≡ o
      → IsFresh s
      → (get_context_from c o s).0 ≡ ok u
      → (t : ℕ) × WasStored t u
        × (c.now (get_context_from c o s).1.world ≤ t + latency + context_cache_ttl)
  unfolding get_context_from
  answer_age none s u cached fresh answered =
      let (t, stored, a, b, d) = fetch_answer s u answered in (t, stored, omega arith)
  answer_age (some v) s u cached fresh answered =
      elim (Bool-cases (ltb (c.now s.world - s.cached_at) context_cache_ttl)) [
        | inl recent ↦
            let same : v ≡ u = ground arith in
            let (t, stored, a, b, d) = fresh v cached in
            (t, rw⁻¹ same stored, rw recent (ground arith))
        | inr old ↦
            let (t, stored, a, b, d) = fetch_answer s u (rw old at answered) in
            (t, stored, rw old (omega arith))
      ]

  -- After any run of reads, invalidations and waiting that began with an empty cache, a read that
  -- answers works on a Context that the server had stored at most five seconds, and the time that one
  -- call of the server takes, before the read is over.
  pub get_context_age :
      {s s' : Cached W} (u : Fields)
      → s.cached ≡ none
      → Run c s s'
      → (get_context c s').0 ≡ ok u
      → (t : ℕ) × WasStored t u
        × (c.now (get_context c s').1.world ≤ t + latency + context_cache_ttl)
  unfolding get_context
  get_context_age {s} {s'} u empty run answered =
      answer_age s'.cached s' u refl (Run-IsFresh run (λ v cached. absurd (ground arith))) answered

  -- A read that follows an invalidation works on a Context that was stored after it, whatever was
  -- cached before.
  pub get_context-invalidate :
      (s : Cached W) (u : Fields)
      → (get_context c (invalidate s)).0 ≡ ok u
      → (t : ℕ) × WasStored t u
        × (c.now s.world ≤ t)
        × (t ≤ c.now (get_context c (invalidate s)).1.world)
  unfolding get_context get_context_from invalidate
  get_context-invalidate s u answered =
      let (t, stored, a, b, d) = fetch_answer (record s { cached = none }) u answered in
      (t, stored, a, b)
