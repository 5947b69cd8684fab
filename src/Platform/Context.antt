-- ===== src/Platform/Context.antt =====
-- The cached read of the Context (`getContext` and `Invalidate` of
-- internal/repository/context_repository.go). The API server and the clock are parameters; the lock is
-- held for the whole of a call, so that calls are steps one after the other.
use okdp_control_plane_serve.Base.{
  String, Bool, Option, none, some, List, ℕ, ◌-◌, ltb, if◌then◌else◌,
}
use okdp_control_plane_serve.Base.Go.{Result, ok, err, Action}
use okdp_control_plane_serve.Base.Json.{Json, Fields}
use okdp_control_plane_serve.Access.Guards.{IdentityError}

-- The errors of the reads and the writes of a Context.
pub data ContextError : Type 0 where
  api : String → ContextError
  conflict : ContextError
  read_failed : ContextError → ContextError
  malformed : String → ContextError
  absent : String → ContextError
  invalid_identity : IdentityError → ContextError

-- `unstructured.Nested…` of the Kubernetes libraries: the value at a path of keys. What is absent or of
-- another type is the empty text, or `false`, as the callers that drop the error read it.
pub record Unstructured : Type 0 where
  pub nested_slice : Fields → List String → Result ContextError (Option (List Json))
  pub nested_map : Fields → List String → Result ContextError (Option Fields)
  pub nested_string : Fields → List String → String
  pub nested_bool : Fields → List String → Bool
  pub set_nested_slice : Fields → List Json → List String → Result ContextError Fields

-- The calls on the one Context that the server is configured with, and the clock, in nanoseconds.
pub record ContextApi (W : Type 0) : Type 0 where
  pub get : Action W ContextError Fields
  pub update : Fields → Action W ContextError (Unit {0})
  pub now : W → ℕ

-- The cached part of `k8sContextRepository`, with the world.
pub record Cached (W : Type 0) : Type 0 where
  pub cached : Option Fields
  pub cached_at : ℕ
  pub world : W

-- `contextCacheTTL`
abbrev pub context_cache_ttl : ℕ
context_cache_ttl = 5000000000

-- `Invalidate`
unfoldable pub invalidate : {W : Type 0} → Cached W → Cached W
invalidate s = record s { cached = none }

module _ {W : Type 0} (c : ContextApi W) where
  -- What `getContext` does with the answer of the API server.
  unfoldable pub remember : Result ContextError Fields → Action (Cached W) ContextError Fields
  remember (ok u) s = (ok u, record s { cached = some u; cached_at = c.now s.world })
  remember (err e) s = (err e, s)

  -- The call of the API server.
  unfoldable pub fetch : Action (Cached W) ContextError Fields
  unfolding remember
  fetch s = let (r, w) = c.get s.world in remember r (record s { world = w })

  unfoldable pub get_context_from : Option Fields → Action (Cached W) ContextError Fields
  unfolding fetch
  get_context_from none s = fetch s
  get_context_from (some u) s =
      if ltb (c.now s.world - s.cached_at) context_cache_ttl then (ok u, s) else fetch s

  -- `getContext`
  unfoldable pub get_context : Action (Cached W) ContextError Fields
  unfolding get_context_from
  get_context s = get_context_from s.cached s
