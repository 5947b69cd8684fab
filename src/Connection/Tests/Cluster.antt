-- ===== src/Connection/Tests/Cluster.antt =====
-- A cluster in memory that meets the assumptions on the Kubernetes API: every call succeeds that can.
use mathlib.Core.Option.{some-injective}
use okdp_control_plane_serve.Base.{
  ℕ, String, true, Option, none, some, [], ◌≡◌, refl, arith, ◌==◌, ◌&&◌, if◌then◌else◌, eq_iff,
  eq_refl, Option-cases, Bool-cases, inl, inr, ap, sym, ◌∙◌,
}
use okdp_control_plane_serve.Base.Go.{Result, ok, err}
use okdp_control_plane_serve.Connection.Repository.{
  Kube, KubeError, not_found, already_exists, Connection, Secret, Item,
}
use okdp_control_plane_serve.Connection.Repository.Assumptions.{KubeLaws}

abbrev Table : Type 0 → Type 0
Table V = String → String → Option V

-- The table with the entry `n` of `ns` replaced.
abbrev put : {V : Type 0} → String → String → Option V → Table V → Table V
put ns n v table ns' n' = if (ns == ns') && (n == n') then v else table ns' n'

pub record World : Type 0 where
  pub connections : Table (Connection ℕ)
  pub secrets : Table Secret

abbrev with_connection : String → String → Option (Connection ℕ) → World → World
with_connection ns n c w = record w { connections = put ns n c w.connections }

abbrev with_secret : String → String → Option Secret → World → World
with_secret ns n s w = record w { secrets = put ns n s w.secrets }

abbrev found : {A : Type 0} → Option A → Result KubeError A
found none = err not_found
found (some a) = ok a

-- A connection is found under its own name only.
abbrev item : String → Option (Connection ℕ) → Result KubeError (Item ℕ)
item n none = err not_found
item n (some c) =
    if c.name == n
    then ok (record { version = c.resource_version; object = some c })
    else err (KubeError.failed "corrupt")

-- Write if the entry is absent.
abbrev added : {V : Type 0} → Option V → World → World → Result KubeError (Unit {0}) × World
added none old new = (ok tt, new)
added (some _) old new = (err already_exists, old)

-- Write if the entry is there.
abbrev changed : {V : Type 0} → Option V → World → World → Result KubeError (Unit {0}) × World
changed none old new = (err not_found, old)
changed (some _) old new = (ok tt, new)

abbrev pub memory : Kube ℕ World
memory = record {
  available = λ w. true;
  encodes = λ c. true;
  list_connections = λ ns w. (ok [], w);
  get_connection = λ ns n w. (item n (w.connections ns n), w);
  create_connection =
      λ ns c w. added (w.connections ns c.name) w (with_connection ns c.name (some c) w);
  update_connection =
      λ ns c w. changed (w.connections ns c.name) w (with_connection ns c.name (some c) w);
  delete_connection = λ ns n w. changed (w.connections ns n) w (with_connection ns n none w);
  get_secret = λ ns n w. (found (w.secrets ns n), w);
  create_secret = λ ns s w. added (w.secrets ns s.name) w (with_secret ns s.name (some s) w);
  update_secret = λ ns s w. changed (w.secrets ns s.name) w (with_secret ns s.name (some s) w);
  delete_secret = λ ns n w. changed (w.secrets ns n) w (with_secret ns n none w);
  connection_at = λ w ns n. w.connections ns n;
  secret_at = λ w ns n. w.secrets ns n;
}

put_but :
    {V : Type 0} (v : Option V) (t : Table V) (ns n ns' n' : String)
    → put ns n v t ns' n' ≡ (if (ns == ns') && (n == n') then put ns n v t ns n else t ns' n')
put_but v t ns n ns' n' = ground (arith, eq_refl ns, eq_refl n)

same_but :
    {V : Type 0} (t : Table V) (ns n ns' n' : String)
    → t ns' n' ≡ (if (ns == ns') && (n == n') then t ns n else t ns' n')
same_but t ns n ns' n' = ground (arith, eq_iff ns ns', eq_iff n n')

put_self : {V : Type 0} (v : Option V) (t : Table V) (ns n : String) → put ns n v t ns n ≡ v
put_self v t ns n = ground (arith, eq_refl ns, eq_refl n)

module _ {V A : Type 0} (p : World → Table V) (ns n : String) (v : Option V) (old new : World)
    (writes : (ns' n' : String) → p new ns' n' ≡ put ns n v (p old) ns' n') where
  added_but :
      (o : Option A) (ns' n' : String)
      → p (added o old new).1 ns' n'
        ≡ (if (ns == ns') && (n == n') then p (added o old new).1 ns n else p old ns' n')
  added_but none ns' n' = rw (writes ns' n', writes ns n) (put_but v (p old) ns n ns' n')
  added_but (some _) ns' n' = same_but (p old) ns n ns' n'

  added_stores : (o : Option A) → (added o old new).0 ≡ ok tt → p (added o old new).1 ns n ≡ v
  added_stores none h = writes ns n ∙ put_self v (p old) ns n
  added_stores (some _) h = cc

added_refused :
    {A : Type 0} (old new : World) (o : Option A) (e : KubeError)
    → (added o old new).0 ≡ err e
    → (added o old new).1 ≡ old
added_refused old new none e h = cc
added_refused old new (some _) e h = refl

added_other :
    {V A : Type 0} (p : World → Table V) (old new : World) (o : Option A) (ns n : String)
    → p new ns n ≡ p old ns n
    → p (added o old new).1 ns n ≡ p old ns n
added_other p old new none ns n h = h
added_other p old new (some _) ns n h = refl

module _ {V A : Type 0} (p : World → Table V) (ns n : String) (v : Option V) (old new : World)
    (writes : (ns' n' : String) → p new ns' n' ≡ put ns n v (p old) ns' n') where
  changed_but :
      (o : Option A) (ns' n' : String)
      → p (changed o old new).1 ns' n'
        ≡ (if (ns == ns') && (n == n') then p (changed o old new).1 ns n else p old ns' n')
  changed_but (some _) ns' n' = rw (writes ns' n', writes ns n) (put_but v (p old) ns n ns' n')
  changed_but none ns' n' = same_but (p old) ns n ns' n'

  changed_stores : (o : Option A) → (changed o old new).0 ≡ ok tt → p (changed o old new).1 ns n ≡ v
  changed_stores (some _) h = writes ns n ∙ put_self v (p old) ns n
  changed_stores none h = cc

changed_refused :
    {A : Type 0} (old new : World) (o : Option A) (e : KubeError)
    → (changed o old new).0 ≡ err e
    → (changed o old new).1 ≡ old
changed_refused old new (some _) e h = cc
changed_refused old new none e h = refl

changed_other :
    {V A : Type 0} (p : World → Table V) (old new : World) (o : Option A) (ns n : String)
    → p new ns n ≡ p old ns n
    → p (changed o old new).1 ns n ≡ p old ns n
changed_other p old new (some _) ns n h = h
changed_other p old new none ns n h = refl

item_finds :
    (n : String) (o : Option (Connection ℕ)) (i : Item ℕ) (c : Connection ℕ)
    → item n o ≡ ok i
    → i.object ≡ some c
    → (o ≡ some c) × (c.name ≡ n)
item_finds n none i c h e = cc
item_finds n (some d) i c h e = elim (Bool-cases (d.name == n)) [
  | inr other ↦ absurd (ground arith)
  | inl same ↦
      let it : i ≡ record { version = d.resource_version; object = some d } = ground arith in
      let is_d : some d ≡ some c = sym (ap (λ (x : Item ℕ). x.object) it) ∙ e in
      (
        is_d,
        ap (λ (x : Connection ℕ). x.name) (some-injective _ _ (sym is_d))
            ∙ (eq_iff d.name n).0 same,
      )
]

item_misses : (n : String) (o : Option (Connection ℕ)) → item n o ≡ err not_found → o ≡ none
item_misses n none h = refl
item_misses n (some d) h = ground arith

found_finds : {A : Type 0} (o : Option A) (a : A) → found o ≡ ok a → o ≡ some a
found_finds none a h = cc
found_finds (some b) a h = cc

found_misses : {A : Type 0} (o : Option A) → found o ≡ err not_found → o ≡ none
found_misses none h = refl
found_misses (some b) h = cc

missing_secret :
    (ns n : String) (w : World)
    → (changed (w.secrets ns n) w (with_secret ns n none w)).0 ≡ err not_found
    → (changed (w.secrets ns n) w (with_secret ns n none w)).1.secrets ns n ≡ none
missing_secret ns n w h = elim (Option-cases (w.secrets ns n)) [
  | inl e ↦ rw (e, changed) e
  | inr (x, e) ↦ cc (e, h)
]

pub memory-KubeLaws : KubeLaws memory
memory-KubeLaws = record {
  list_reads = λ ns w. (λ _ _. refl, λ _ _. refl);
  get_reads = λ ns n w. (λ _ _. refl, λ _ _. refl);
  get_finds = λ ns n w i c h e. item_finds n (w.connections ns n) i c h e;
  get_misses = λ ns n w h. item_misses n (w.connections ns n) h;
  create_writes = λ ns c w. (
    λ ns' n'.
        added_but (λ x. x.connections) ns c.name (some c) w (with_connection ns c.name (some c) w)
          (λ _ _. refl) (w.connections ns c.name) ns' n',
    λ ns' n'.
        added_other (λ x. x.secrets) w (with_connection ns c.name (some c) w)
          (w.connections ns c.name) ns' n' refl,
  );
  create_stores = λ ns c w h. (
    c,
    added_stores (λ x. x.connections) ns c.name (some c) w (with_connection ns c.name (some c) w)
        (λ _ _. refl) (w.connections ns c.name) h,
    refl,
    refl,
    refl,
    refl,
  );
  create_refused = λ ns c w e h ns' n'.
      ap (λ (x : World). x.connections ns' n')
        (added_refused w (with_connection ns c.name (some c) w) (w.connections ns c.name) e h);
  update_writes = λ ns c w. (
    λ ns' n'.
        changed_but (λ x. x.connections) ns c.name (some c) w (with_connection ns c.name (some c) w)
          (λ _ _. refl) (w.connections ns c.name) ns' n',
    λ ns' n'.
        changed_other (λ x. x.secrets) w (with_connection ns c.name (some c) w)
          (w.connections ns c.name) ns' n' refl,
  );
  update_stores = λ ns c w h. (
    c,
    changed_stores (λ x. x.connections) ns c.name (some c) w (with_connection ns c.name (some c) w)
        (λ _ _. refl) (w.connections ns c.name) h,
    refl,
    refl,
    refl,
    refl,
  );
  update_refused = λ ns c w e h ns' n'.
      ap (λ (x : World). x.connections ns' n')
        (changed_refused w (with_connection ns c.name (some c) w) (w.connections ns c.name) e h);
  delete_writes = λ ns n w. (
    λ ns' n'.
        changed_but (λ x. x.connections) ns n none w (with_connection ns n none w) (λ _ _. refl)
          (w.connections ns n) ns' n',
    λ ns' n'.
        changed_other (λ x. x.secrets) w (with_connection ns n none w) (w.connections ns n) ns' n'
          refl,
  );
  delete_removes = λ ns n w h.
      changed_stores (λ x. x.connections) ns n none w (with_connection ns n none w) (λ _ _. refl)
        (w.connections ns n) h;
  delete_refused = λ ns n w e h ns' n'.
      ap (λ (x : World). x.connections ns' n')
        (changed_refused w (with_connection ns n none w) (w.connections ns n) e h);
  get_secret_reads = λ ns n w. (λ _ _. refl, λ _ _. refl);
  get_secret_finds = λ ns n w s h. found_finds (w.secrets ns n) s h;
  get_secret_misses = λ ns n w h. found_misses (w.secrets ns n) h;
  create_secret_writes = λ ns c w. (
    λ ns' n'.
        added_other (λ x. x.connections) w (with_secret ns c.name (some c) w) (w.secrets ns c.name)
          ns' n' refl,
    λ ns' n'.
        added_but (λ x. x.secrets) ns c.name (some c) w (with_secret ns c.name (some c) w)
          (λ _ _. refl) (w.secrets ns c.name) ns' n',
  );
  create_secret_stores = λ ns c w h. (
    c,
    added_stores (λ x. x.secrets) ns c.name (some c) w (with_secret ns c.name (some c) w)
        (λ _ _. refl) (w.secrets ns c.name) h,
    refl,
    refl,
  );
  create_secret_refused = λ ns c w e h ns' n'.
      ap (λ (x : World). x.secrets ns' n')
        (added_refused w (with_secret ns c.name (some c) w) (w.secrets ns c.name) e h);
  update_secret_writes = λ ns c w. (
    λ ns' n'.
        changed_other (λ x. x.connections) w (with_secret ns c.name (some c) w)
          (w.secrets ns c.name) ns' n' refl,
    λ ns' n'.
        changed_but (λ x. x.secrets) ns c.name (some c) w (with_secret ns c.name (some c) w)
          (λ _ _. refl) (w.secrets ns c.name) ns' n',
  );
  update_secret_stores = λ ns c w h. (
    c,
    changed_stores (λ x. x.secrets) ns c.name (some c) w (with_secret ns c.name (some c) w)
        (λ _ _. refl) (w.secrets ns c.name) h,
    refl,
    refl,
  );
  update_secret_refused = λ ns c w e h ns' n'.
      ap (λ (x : World). x.secrets ns' n')
        (changed_refused w (with_secret ns c.name (some c) w) (w.secrets ns c.name) e h);
  delete_secret_writes = λ ns n w. (
    λ ns' n'.
        changed_other (λ x. x.connections) w (with_secret ns n none w) (w.secrets ns n) ns' n' refl,
    λ ns' n'.
        changed_but (λ x. x.secrets) ns n none w (with_secret ns n none w) (λ _ _. refl)
          (w.secrets ns n) ns' n',
  );
  delete_secret_removes = λ ns n w h.
      changed_stores (λ x. x.secrets) ns n none w (with_secret ns n none w) (λ _ _. refl)
        (w.secrets ns n) h;
  delete_secret_misses = λ ns n w h. missing_secret ns n w h;
  delete_secret_refused = λ ns n w e h ns' n'.
      ap (λ (x : World). x.secrets ns' n')
        (changed_refused w (with_secret ns n none w) (w.secrets ns n) e h);
}
