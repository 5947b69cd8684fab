-- ===== src/Connection/Repository/Laws.antt =====
-- What the calls of the repository do to the stored connections and Secrets.
use okdp_control_plane_serve.Base.{
  String, true, false, Option, none, some, [], ◌∷◌, ◌≡◌, refl, ◌∙◌, inl, inr, arith, ◌==◌,
  Bool-cases, eq_iff,
}
use okdp_control_plane_serve.Base.Dict.{Dict, lookup, insert, IsMap, lookup-insert}
use okdp_control_plane_serve.Base.Go.{Result, ok, err, Action}
use okdp_control_plane_serve.Base.Steps.{Result-cases, try_step}
use okdp_control_plane_serve.Connection.Repository.{
  Kube, KubeError, not_found, already_exists, failed, RepoError, kube, Connection, Secret, Item,
  is_ours, our_secret, merge, get, create, update, delete, inspect_secret, update_existing, stamped,
  versioned, update_read, merged_secret, write_secret, lift, create_or_update_secret, delete_secret,
  text_at, label_managed_by, managed_by_value,
}
use okdp_control_plane_serve.Connection.Repository.Relations.{
  KeepsForeign, KeepsForeign-preorder, SameConnections-preorder, SameSecrets-preorder,
  KeepsForeign-of_SameSecrets, KeepsForeign-of_SecretsBut, Unchanged, Holds,
}
use okdp_control_plane_serve.Connection.Repository.Assumptions.{
  SameConnections, SameSecrets, SecretsBut, Stores, KubeLaws,
}

-- The merge writes the new entries over the old ones and keeps the others.
pub lookup-merge :
    (key : String) (existing entries : Dict String)
    → IsMap entries
    → lookup key (merge existing entries)
      ≡ elim (lookup key entries) [ none ↦ lookup key existing | some v ↦ some v ]
unfolding merge lookup
lookup-merge key existing [] h = refl
lookup-merge key existing ((k, v) ∷ entries) h = ground (
  arith,
  lookup-merge key (insert k v existing) entries h.1,
  lookup-insert k key v existing,
  eq_iff k key,
  h.0,
)

-- The entry that the Secret had, if it was there.
abbrev pub entry_before : String → Option Secret → Option String
entry_before key none = none
entry_before key (some s) = lookup key s.contents

module _ {W A : Type 0} where
  lift_world : (m : Action W KubeError A) (w : W) → (lift m w).1 ≡ (m w).1
  lift_world m w = ground arith

module _ {F W : Type 0} (k : Kube F W) (laws : KubeLaws k) where
  get_world : (ns n : String) (w : W) → (get k ns n w).1 ≡ (k.get_connection ns n w).1
  unfolding get
  get_world ns n w = ground arith

  pub get_finds :
      (ns n : String) (w : W) (c : Connection F)
      → (get k ns n w).0 ≡ ok c
      → (k.connection_at w ns n ≡ some c) × (c.name ≡ n)
  unfolding get
  get_finds ns n w c h = elim (Result-cases (k.get_connection ns n w).0) [
    | inr (e, d) ↦ absurd (ground arith)
    | inl (item, d) ↦ laws.get_finds ns n w item c d (ground arith)
  ]

  pub get_misses :
      (ns n : String) (w : W)
      → (get k ns n w).0 ≡ err (kube not_found)
      → k.connection_at w ns n ≡ none
  unfolding get
  get_misses ns n w h = laws.get_misses ns n w (ground arith)

  pub get-Unchanged : (ns n : String) (w : W) → Unchanged k w (get k ns n w).1
  get-Unchanged ns n w = rw (get_world ns n w) (laws.get_reads ns n w)

  pub inspect-Unchanged : (ns n : String) (w : W) → Unchanged k w (inspect_secret k ns n w).1
  unfolding inspect_secret
  inspect-Unchanged ns n w = elim (Bool-cases (ns == "")) [
    | inl bare ↦ rw bare (λ _ _. refl, λ _ _. refl)
    | inr scoped ↦ rw (inspect_world scoped) (laws.get_secret_reads ns n w)
  ]
    where
      inspect_world : (ns == "") ≡ false → (inspect_secret k ns n w).1 ≡ (k.get_secret ns n w).1
      inspect_world h = ground arith

  -- A creation writes no Secret, and a refused one no connection.
  pub create_secrets :
      (ns : String) (c : Connection F) (w : W) → SameSecrets k w (create k ns c w).1
  unfolding create
  create_secrets ns c w n' n = ground (arith, (laws.create_writes ns (stamped ns c) w).1 n' n)

  pub create_refused :
      (ns : String) (c : Connection F) (w : W) (e : RepoError)
      → (create k ns c w).0 ≡ err e
      → SameConnections k w (create k ns c w).1
  unfolding create
  create_refused ns c w e h n' n = elim (Result-cases (k.create_connection ns (stamped ns c) w).0) [
    | inl (u, d) ↦ ground arith
    | inr (x, d) ↦ ground (arith, laws.create_refused ns (stamped ns c) w x d n' n)
  ]

  -- What a creation that succeeds stores.
  pub create-Stores :
      (ns : String) (c : Connection F) (w : W)
      → (create k ns c w).0 ≡ ok tt
      → Stores k (create k ns c w).1 ns c
  unfolding create stamped
  create-Stores ns c w h =
      let sent : (k.create_connection ns (stamped ns c) w).0 ≡ ok tt = ground arith in
      let same : (create k ns c w).1 ≡ (k.create_connection ns (stamped ns c) w).1 = ground arith in
      rw same (laws.create_stores ns (stamped ns c) w sent)

  pub delete_secret_writes :
      (ns n : String) (w : W)
      → SameConnections k w (delete_secret k ns n w).1
        × SecretsBut k ns n w (delete_secret k ns n w).1
  unfolding delete_secret
  delete_secret_writes ns n w = rw delete_world (laws.delete_secret_writes ns n w)
    where
      delete_world : (delete_secret k ns n w).1 ≡ (k.delete_secret ns n w).1
      delete_world = ground arith

  update_existing_keeps :
      (ns n : String) (entries : Dict String) (existing : Secret) (w : W)
      → k.secret_at w ns n ≡ some existing
      → KeepsForeign k w (update_existing k ns n entries existing w).1
  unfolding update_existing merged_secret
  update_existing_keeps ns n entries existing w found = elim (Bool-cases (is_ours existing)) [
    | inr not_ours ↦ rw (not_ours, update_existing) (λ _ _ _ e _. e)
    | inl ours ↦
        rw
          (
            ours,
            update_existing,
            lift_world (k.update_secret ns (merged_secret ns n entries existing)) w,
          )
          (KeepsForeign-of_SecretsBut k ns n w _
            (laws.update_secret_writes ns (merged_secret ns n entries existing) w).1
            (λ s e. ground arith))
  ]

  -- What the lookup said of the Secret, in the world after it.
  abbrev Looked : String → String → W → Result KubeError Secret → Type 0
  Looked ns n w (ok s) = k.secret_at w ns n ≡ some s
  Looked ns n w (err not_found) = k.secret_at w ns n ≡ none
  Looked ns n w (err _) = Unit

  looked :
      (ns n : String) (w : W) (r : Result KubeError Secret)
      → (k.get_secret ns n w).0 ≡ r
      → Looked ns n (k.get_secret ns n w).1 r
  looked ns n w (ok s) e = (laws.get_secret_reads ns n w).1 ns n ∙ laws.get_secret_finds ns n w s e
  looked ns n w (err not_found) e =
      (laws.get_secret_reads ns n w).1 ns n ∙ laws.get_secret_misses ns n w e
  looked ns n w (err already_exists) e = tt
  looked ns n w (err (failed _)) e = tt

  write_secret_keeps :
      (ns n : String) (entries : Dict String) (r : Result KubeError Secret) (w : W)
      → Looked ns n w r
      → KeepsForeign k w (write_secret k ns n entries r w).1
  unfolding write_secret our_secret
  write_secret_keeps ns n entries (ok s) w found = update_existing_keeps ns n entries s w found
  write_secret_keeps ns n entries (err not_found) w free =
      rw (lift_world (k.create_secret ns (our_secret ns n entries)) w) (
        KeepsForeign-of_SecretsBut k ns n w _
          (laws.create_secret_writes ns (our_secret ns n entries) w).1 (λ s e. ground arith))
  write_secret_keeps ns n entries (err _) w _ = λ _ _ _ e _. e

  -- Writing the credentials keeps every Secret that is not ours.
  pub create_or_update_keeps :
      (ns n : String) (entries : Dict String) (w : W)
      → KeepsForeign k w (create_or_update_secret k ns n entries w).1
  unfolding create_or_update_secret
  create_or_update_keeps ns n entries w = elim (Bool-cases (ns == "")) [
    | inl bare ↦ rw (bare, create_or_update_secret) (λ _ _ _ e _. e)
    | inr scoped ↦
        rw (scoped, create_or_update_secret)
          (try_step (KeepsForeign k) (KeepsForeign-preorder k) (k.get_secret ns n)
            (write_secret k ns n entries) w
            (KeepsForeign-of_SameSecrets k w _ (laws.get_secret_reads ns n w).1)
            (λ r e. write_secret_keeps ns n entries r _ (looked ns n w r e)))
  ]

  -- It writes no connection.
  update_existing_connections :
      (ns n : String) (entries : Dict String) (existing : Secret) (w : W)
      → SameConnections k w (update_existing k ns n entries existing w).1
  unfolding update_existing
  update_existing_connections ns n entries existing w n' m =
      ground (arith, (laws.update_secret_writes ns (merged_secret ns n entries existing) w).0 n' m)

  write_secret_connections :
      (ns n : String) (entries : Dict String) (r : Result KubeError Secret) (w : W)
      → SameConnections k w (write_secret k ns n entries r w).1
  unfolding write_secret
  write_secret_connections ns n entries (ok s) w = update_existing_connections ns n entries s w
  write_secret_connections ns n entries (err not_found) w =
      λ n' m. ground (arith, (laws.create_secret_writes ns (our_secret ns n entries) w).0 n' m)
  write_secret_connections ns n entries (err _) w = λ n' m. refl

  pub create_or_update_connections :
      (ns n : String) (entries : Dict String) (w : W)
      → SameConnections k w (create_or_update_secret k ns n entries w).1
  unfolding create_or_update_secret
  create_or_update_connections ns n entries w = elim (Bool-cases (ns == "")) [
    | inl bare ↦ rw (bare, create_or_update_secret) (λ _ _. refl)
    | inr scoped ↦
        rw (scoped, create_or_update_secret)
          (try_step (SameConnections k) (SameConnections-preorder k) (k.get_secret ns n)
            (write_secret k ns n entries) w (laws.get_secret_reads ns n w).0
            (λ r e. write_secret_connections ns n entries r _))
  ]

  is_ours_of_label :
      (s : Secret) → s.labels ≡ (label_managed_by, managed_by_value) ∷ [] → is_ours s ≡ true
  unfolding is_ours text_at lookup
  is_ours_of_label s e = simp e

  update_existing-Holds :
      (ns n : String) (entries : Dict String) (existing : Secret) (w : W)
      → (update_existing k ns n entries existing w).0 ≡ ok tt
      → Holds k (update_existing k ns n entries existing w).1 ns n entries (some existing)
  unfolding update_existing merged_secret our_secret
  update_existing-Holds ns n entries existing w h = elim (Bool-cases (is_ours existing)) [
    | inr not_ours ↦ cc (rw (not_ours, update_existing) at h)
    | inl ours ↦
        let sent : (k.update_secret ns (merged_secret ns n entries existing) w).0 ≡ ok tt =
          ground arith in
        let (s, at, labels, contents) =
          laws.update_secret_stores ns (merged_secret ns n entries existing) w sent in
        rw
          (
            ours,
            update_existing,
            lift_world (k.update_secret ns (merged_secret ns n entries existing)) w,
          )
          (s, at, is_ours_of_label s labels, contents)
  ]

  -- What the lookup found.
  abbrev found_secret : Result KubeError Secret → Option Secret
  found_secret (ok s) = some s
  found_secret (err _) = none

  write_secret-Holds :
      (ns n : String) (entries : Dict String) (r : Result KubeError Secret) (w : W)
      → (write_secret k ns n entries r w).0 ≡ ok tt
      → Looked ns n w r
      → Holds k (write_secret k ns n entries r w).1 ns n entries (k.secret_at w ns n)
  unfolding write_secret our_secret
  write_secret-Holds ns n entries (ok s) w h found =
      rw found (update_existing-Holds ns n entries s w h)
  write_secret-Holds ns n entries (err not_found) w h free =
      let sent : (k.create_secret ns (our_secret ns n entries) w).0 ≡ ok tt = ground arith in
      let (s, at, labels, contents) =
        laws.create_secret_stores ns (our_secret ns n entries) w sent in
      rw (free, lift_world (k.create_secret ns (our_secret ns n entries)) w)
        (s, at, is_ours_of_label s labels, contents)
  write_secret-Holds ns n entries (err already_exists) w h free = cc
  write_secret-Holds ns n entries (err (failed _)) w h free = cc

  pub create_or_update-Holds :
      (ns n : String) (entries : Dict String) (w : W)
      → (create_or_update_secret k ns n entries w).0 ≡ ok tt
      → Holds k (create_or_update_secret k ns n entries w).1 ns n entries (k.secret_at w ns n)
  unfolding create_or_update_secret
  create_or_update-Holds ns n entries w h = elim (Bool-cases (ns == "")) [
    | inl bare ↦ cc (rw (bare, create_or_update_secret) at h)
    | inr scoped ↦
        let r = (k.get_secret ns n w).0 in
        rw (scoped, create_or_update_secret, ← (laws.get_secret_reads ns n w).1 ns n)
          (write_secret-Holds ns n entries r (k.get_secret ns n w).1
            (rw (scoped, create_or_update_secret) at h) (looked ns n w r refl))
  ]

  -- When the credentials were written, the Secret is there and marked as ours. Of each key it holds the
  -- new entry, if there is one, and else the entry that the Secret had before, if it was there. No key
  -- comes twice in the new entries.
  pub create_or_update_entries :
      (ns n : String) (entries : Dict String) (w : W)
      → IsMap entries
      → (create_or_update_secret k ns n entries w).0 ≡ ok tt
      → (s : Secret) × (k.secret_at (create_or_update_secret k ns n entries w).1 ns n ≡ some s)
        × (is_ours s ≡ true)
        × ((key : String)
            → lookup key s.contents ≡ elim (lookup key entries) [
              | some new ↦ some new
              | none ↦ entry_before key (k.secret_at w ns n)
            ])
  create_or_update_entries ns n entries w distinct h =
      let (s, at, ours, contents) = create_or_update-Holds ns n entries w h in
      (s, at, ours, λ key. rw contents (holds key (k.secret_at w ns n)))
    where
      holds :
          (key : String) (old : Option Secret)
          → lookup key (elim old [ none ↦ entries | some b ↦ merge b.contents entries ])
            ≡ elim (lookup key entries) [ some new ↦ some new | none ↦ entry_before key old ]
      holds key (some b) = lookup-merge key b.contents entries distinct ∙ ground arith
      holds key none = ground arith

  pub delete_secret_removes :
      (ns n : String) (w : W)
      → (delete_secret k ns n w).0 ≡ ok tt
      → k.secret_at (delete_secret k ns n w).1 ns n ≡ none
  unfolding delete_secret
  delete_secret_removes ns n w h = elim (Result-cases (k.delete_secret ns n w).0) [
    | inl (u, d) ↦ ground (arith, laws.delete_secret_removes ns n w)
    | inr (e, d) ↦ ground (arith, laws.delete_secret_misses ns n w)
  ]

  -- Deleting a Secret that is ours, or not there, keeps the foreign ones.
  pub delete_secret_keeps :
      (ns n : String) (w : W)
      → ((s : Secret) → k.secret_at w ns n ≡ some s → is_ours s ≡ true)
      → KeepsForeign k w (delete_secret k ns n w).1
  delete_secret_keeps ns n w ours =
      KeepsForeign-of_SecretsBut k ns n w _ (delete_secret_writes ns n w).1 ours

  pub delete_unchanged_secrets : (ns n : String) (w : W) → SameSecrets k w (delete k ns n w).1
  unfolding delete
  delete_unchanged_secrets ns n w =
      rw (lift_world (k.delete_connection ns n) w) (laws.delete_writes ns n w).1

  pub update_secrets :
      (ns : String) (c : Connection F) (w : W) → SameSecrets k w (update k ns c w).1
  unfolding update
  update_secrets ns c w =
      try_step (SameSecrets k) (SameSecrets-preorder k) (k.get_connection ns c.name)
        (update_read k ns c) w (laws.get_reads ns c.name w).1 (λ r e. update_read_secrets r _)
    where
      update_read_secrets :
          (r : Result KubeError (Item F)) (v : W) → SameSecrets k v (update_read k ns c r v).1
      update_read_secrets (err e) v = λ _ _. refl
      update_read_secrets (ok item) v = λ n' n.
          ground (arith, (laws.update_writes ns (versioned item.version (stamped ns c)) v).1 n' n)

  pub delete_secret-SameConnections :
      (ns n : String) (w : W) → SameConnections k w (delete_secret k ns n w).1
  delete_secret-SameConnections ns n w = (delete_secret_writes ns n w).0
