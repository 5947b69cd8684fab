-- ===== src/Connection/Service/Delete.antt =====
-- What `Delete` removes, and what it leaves.
use mathlib.Core.Option.{some-injective}
use okdp_control_plane_serve.Base.{
  true_ne_false, String, true, false, none, some, ◌≡◌, refl, ◌⊎◌, inl, inr, arith, Bool-cases, ◌∙◌,
  ap, sym, if◌then◌else◌,
}
use okdp_control_plane_serve.Base.Dict.{Dict}
use okdp_control_plane_serve.Base.Go.{ok, err, Action}
use okdp_control_plane_serve.Base.Steps.{Result-cases, bind-ok, bind_step}
use okdp_control_plane_serve.Connection.Repository as Repo
use okdp_control_plane_serve.Connection.Repository.{
  KubeError, RepoError, Connection, Secret, is_managed, is_ours,
}
use okdp_control_plane_serve.Connection.Repository.Assumptions.{
  KubeLaws, SameSecrets, SameConnections, SecretsBut,
}
use okdp_control_plane_serve.Connection.Repository.Laws as RepoLaws
use okdp_control_plane_serve.Connection.Repository.Relations.{
  KeepsForeign, KeepsForeign-preorder, KeepsForeign-of_SameSecrets, Unchanged, SameSecrets-preorder,
}
use okdp_control_plane_serve.Connection.Credentials.{
  ConnectionService, ServiceError, repo, invalid, managed_delete, unavailable,
  credentials_secret_of,
}
use okdp_control_plane_serve.Connection.Requests.{wrap}
use okdp_control_plane_serve.Connection.Requests.Laws.{wrap_world}
use okdp_control_plane_serve.Connection.Service.{drop_credentials, remove, delete}

module _ {W E A : Type 0} where
  pub wrap_ok :
      (name : RepoError → E) (m : Action W RepoError A) (w : W) (a : A)
      → (wrap name m w).0 ≡ ok a
      → (m w).0 ≡ ok a
  wrap_ok name m w a h = ground arith

  wrap_eq :
      (name : RepoError → E) (m : Action W RepoError A) (w : W) (a : A)
      → (m w).0 ≡ ok a
      → wrap name m w ≡ (ok a, (m w).1)
  wrap_eq name m w a h = ground arith

module _ {F W : Type 0} (s : ConnectionService F W) (laws : KubeLaws s.cluster) where
  -- The Secret that goes with the connection, if the code takes it for ours, is ours.
  abbrev pub OwnsOurs : W → String → Connection F → Type 0
  OwnsOurs w ns c =
      (credentials_secret_of c c.name).1 ≡ true
      → (sec : Secret) → s.cluster.secret_at w ns (credentials_secret_of c c.name).0 ≡ some sec
      → is_ours sec ≡ true

  drop_credentials_keeps :
      (ns name : String) (c : Connection F) (w : W)
      → c.name ≡ name
      → OwnsOurs w ns c
      → KeepsForeign s.cluster w (drop_credentials s ns name c w).1
  unfolding drop_credentials
  drop_credentials_keeps ns name c w named ours =
      elim (Bool-cases (credentials_secret_of c name).1) [
        | inr left ↦ rw (left, drop_credentials) (λ _ _ _ h _. h)
        | inl owned ↦
            rw (owned, drop_credentials)
              (RepoLaws.delete_secret_keeps s.cluster laws ns (credentials_secret_of c name).0 w
                (rw named at ours owned))
      ]

  -- `Delete` looks a connection up first: either it ends there with an error, or it found one that is
  -- not managed and removes it.
  abbrev Goes : String → String → W → Type 0
  Goes ns name w =
      (((e : ServiceError) × ((delete s ns name w).0 ≡ err e))
        × Unchanged s.cluster w (delete s ns name w).1)
      ⊎ ((c : Connection F) × (s.cluster.connection_at w ns name ≡ some c)
          × (c.name ≡ name)
          × (is_managed c ≡ false)
          × (delete s ns name w ≡ remove s ns name c (Repo.get s.cluster ns name w).1))

  delete_refused :
      (ns name : String) (w : W) (e : RepoError)
      → s.cluster.available w ≡ true
      → (Repo.get s.cluster ns name w).0 ≡ err e
      → delete s ns name w ≡ (err (repo e), (Repo.get s.cluster ns name w).1)
  unfolding delete
  delete_refused ns name w e up failed = ground arith

  delete_goes :
      (ns name : String) (w : W) (c : Connection F)
      → s.cluster.available w ≡ true
      → (Repo.get s.cluster ns name w).0 ≡ ok c
      → delete s ns name w ≡ (
          if is_managed c
          then (err (invalid (managed_delete name)), (Repo.get s.cluster ns name w).1)
          else remove s ns name c (Repo.get s.cluster ns name w).1)
  unfolding delete
  delete_goes ns name w c up found = ground arith

  delete_cases : (ns name : String) (w : W) → Goes ns name w
  unfolding delete
  delete_cases ns name w = elim (Bool-cases (s.cluster.available w)) [
    | inr absent ↦ inl (rw (absent, delete) ((unavailable, refl), (λ _ _. refl, λ _ _. refl)))
    | inl up ↦ elim (Result-cases (Repo.get s.cluster ns name w).0) [
      | inr (e, failed) ↦ inl (
          rw (delete_refused ns name w e up failed)
            ((repo e, refl), RepoLaws.get-Unchanged s.cluster laws ns name w))
      | inl (c, found) ↦ elim (Bool-cases (is_managed c)) [
        | inl managed ↦ inl (
            rw (delete_goes ns name w c up found, managed)
              (
                (invalid (managed_delete name), refl),
                RepoLaws.get-Unchanged s.cluster laws ns name w,
              ))
        | inr declared ↦
            let (at, named) = RepoLaws.get_finds s.cluster laws ns name w c found in
            inr (c, at, named, declared, delete_goes ns name w c up found ∙ rw declared)
      ]
    ]
  ]

  -- Deleting a connection that a service provides fails and writes nothing.
  pub delete-managed :
      (ns name : String) {c : Connection F} (w : W)
      → s.cluster.connection_at w ns name ≡ some c
      → is_managed c ≡ true
      → ((e : ServiceError) × ((delete s ns name w).0 ≡ err e))
        × Unchanged s.cluster w (delete s ns name w).1
  delete-managed ns name {c} w at managed = elim (delete_cases ns name w) [
    | inl refused ↦ refused
    | inr (d, found, named, declared, goes) ↦
        let same : d ≡ c = some-injective _ _ (sym found ∙ at) in
        absurd (true_ne_false (sym managed ∙ ap is_managed (sym same) ∙ declared))
  ]

  remove_keeps :
      (ns name : String) (c : Connection F) (w : W)
      → c.name ≡ name
      → OwnsOurs w ns c
      → KeepsForeign s.cluster w (remove s ns name c w).1
  unfolding remove
  remove_keeps ns name c w named ours =
      bind_step (KeepsForeign s.cluster) (KeepsForeign-preorder s.cluster)
        (wrap repo (Repo.delete s.cluster ns name)) (λ _. drop_credentials s ns name c) w
        (rw (wrap_world repo (Repo.delete s.cluster ns name) w)
          (KeepsForeign-of_SameSecrets s.cluster w _ same))
        (λ u e.
          drop_credentials_keeps ns name c _ named
            (rw (wrap_world repo (Repo.delete s.cluster ns name) w) later))
    where
      same : SameSecrets s.cluster w (Repo.delete s.cluster ns name w).1
      same = RepoLaws.delete_unchanged_secrets s.cluster laws ns name w

      later : OwnsOurs (Repo.delete s.cluster ns name w).1 ns c
      later owned sec at = ours owned sec (sym (same ns (credentials_secret_of c c.name).0) ∙ at)

  -- Deleting a connection leaves every Secret as it was that the control plane does not manage, as
  -- long as the Secret that the connection is taken to own is one of ours or absent.
  pub delete-KeepsForeign :
      (ns name : String) (w : W)
      → ((c : Connection F) → s.cluster.connection_at w ns name ≡ some c → OwnsOurs w ns c)
      → KeepsForeign s.cluster w (delete s ns name w).1
  delete-KeepsForeign ns name w ours = elim (delete_cases ns name w) [
    | inl (failed, same) ↦ KeepsForeign-of_SameSecrets s.cluster w _ same.1
    | inr (c, found, named, declared, goes) ↦
        let looked = RepoLaws.get-Unchanged s.cluster laws ns name w in
        rw goes (
          (KeepsForeign-preorder s.cluster).join w (Repo.get s.cluster ns name w).1 _
            (KeepsForeign-of_SameSecrets s.cluster w _ looked.1)
            (remove_keeps ns name c _ named (λ owned sec at.
              ours c found owned sec (sym (looked.1 ns (credentials_secret_of c c.name).0) ∙ at))))
  ]

  connection_removed :
      (ns name : String) (w : W)
      → (Repo.delete s.cluster ns name w).0 ≡ ok tt
      → s.cluster.connection_at (Repo.delete s.cluster ns name w).1 ns name ≡ none
  unfolding Repo.delete
  connection_removed ns name w h =
      let sent : (s.cluster.delete_connection ns name w).0 ≡ ok tt = ground arith in
      let moved : (Repo.delete s.cluster ns name w).1 ≡ (s.cluster.delete_connection ns name w).1 =
        ground arith in
      rw moved (laws.delete_removes ns name w sent)

  drop_credentials_connections :
      (ns name : String) (c : Connection F) (w : W)
      → SameConnections s.cluster w (drop_credentials s ns name c w).1
  unfolding drop_credentials
  drop_credentials_connections ns name c w = elim (Bool-cases (credentials_secret_of c name).1) [
    | inr left ↦ rw (left, drop_credentials) (λ _ _. refl)
    | inl owned ↦
        rw (owned, drop_credentials)
          (RepoLaws.delete_secret-SameConnections s.cluster laws ns (credentials_secret_of c name).0
            w)
  ]

  -- A deletion that reached the cluster: it did, or it failed.
  remove_cases :
      (ns name : String) (c : Connection F) (w : W)
      → (remove s ns name c w).0 ≡ ok tt
      → ((Repo.delete s.cluster ns name w).0 ≡ ok tt)
        × (remove s ns name c w ≡ drop_credentials s ns name c (Repo.delete s.cluster ns name w).1)
  unfolding remove
  remove_cases ns name c w h = elim (Result-cases (Repo.delete s.cluster ns name w).0) [
    | inr (e, failed) ↦ absurd (ground arith)
    | inl (u, done) ↦
        let asked = wrap_eq repo (Repo.delete s.cluster ns name) w u done in
        (
          done,
          bind-ok (wrap repo (Repo.delete s.cluster ns name)) (λ _. drop_credentials s ns name c) w
                u (ap (λ r. r.0) asked)
              ∙ ap (λ v. drop_credentials s ns name c v)
                  (wrap_world repo (Repo.delete s.cluster ns name) w),
        )
  ]

  -- The world in which the credentials of a connection are deleted: the connection was looked up and
  -- deleted.
  abbrev pub after_connection : String → String → W → W
  after_connection ns name w = (Repo.delete s.cluster ns name (Repo.get s.cluster ns name w).1).1

  -- The Secret is gone, or the cluster refused to delete it in the world `u`.
  abbrev pub GoneOrRefused : String → String → W → W → Type 0
  GoneOrRefused ns n u v =
      (s.cluster.secret_at v ns n ≡ none)
      ⊎ ((e : KubeError) × ((s.cluster.delete_secret ns n u).0 ≡ err e))

  -- What became of the credentials: if the connection is taken to own its Secret, no other Secret
  -- changed and that one is gone or could not be deleted; if not, no Secret changed.
  abbrev pub Dropped : String → String → Connection F → W → W → Type 0
  Dropped ns name c w v =
      let secret_name = (credentials_secret_of c name).0 in
      (((credentials_secret_of c name).1 ≡ true)
        × GoneOrRefused ns secret_name (after_connection ns name w) v
        × SecretsBut s.cluster ns secret_name w v)
      ⊎ (((credentials_secret_of c name).1 ≡ false) × SameSecrets s.cluster w v)

  drop_owned :
      (ns name : String) (c : Connection F) (w u : W)
      → (credentials_secret_of c name).1 ≡ true
      → SameSecrets s.cluster w u
      → GoneOrRefused ns (credentials_secret_of c name).0 u (drop_credentials s ns name c u).1
        × SecretsBut s.cluster ns
            (credentials_secret_of c name).0
            w
            (drop_credentials s ns name c u).1
  unfolding drop_credentials Repo.delete_secret
  drop_owned ns name c w u owned same =
      let n = (credentials_secret_of c name).0 in
      rw (owned, drop_credentials)
        (
          elim (Result-cases (s.cluster.delete_secret ns n u).0) [
            | inr (e, refused) ↦ inr (e, refused)
            | inl (t, done) ↦
                inl (RepoLaws.delete_secret_removes s.cluster laws ns n u (accepted n t done))
          ],
          λ ns' n'.
              ground (
                arith,
                (RepoLaws.delete_secret_writes s.cluster laws ns n u).1 ns' n',
                same ns' n',
              ),
        )
    where
      accepted :
          (n : String) (t : Unit {0})
          → (s.cluster.delete_secret ns n u).0 ≡ ok t
          → (Repo.delete_secret s.cluster ns n u).0 ≡ ok tt
      accepted n t done = ground arith

  drop_left :
      (ns name : String) (c : Connection F) (w u : W)
      → (credentials_secret_of c name).1 ≡ false
      → SameSecrets s.cluster w u
      → SameSecrets s.cluster w (drop_credentials s ns name c u).1
  unfolding drop_credentials
  drop_left ns name c w u left same = rw (left, drop_credentials) same

  -- After a deletion that is reported as done the connection was there, declared by a user, and is
  -- gone. If it is taken to own its Secret, no other Secret changed, and that one is gone too, or the
  -- cluster refused the call that deletes it, which the report does not tell; if it is not, no Secret
  -- changed. This is for objects that carry no finalizer.
  pub delete-done :
      (ns name : String) (w : W)
      → (delete s ns name w).0 ≡ ok tt
      → (s.cluster.connection_at (delete s ns name w).1 ns name ≡ none)
        × ((c : Connection F) × (s.cluster.connection_at w ns name ≡ some c)
            × (is_managed c ≡ false)
            × Dropped ns name c w (delete s ns name w).1)
  delete-done ns name w h = elim (delete_cases ns name w) [
    | inl ((e, refused), same) ↦ cc (refused, h)
    | inr (c, found, named, declared, goes) ↦
        let v = (Repo.get s.cluster ns name w).1 in
        let (done, rest) = remove_cases ns name c v (rw goes at h) in
        let u = (Repo.delete s.cluster ns name v).1 in
        let same : SameSecrets s.cluster w u =
          (SameSecrets-preorder s.cluster).join w v u
            (RepoLaws.get-Unchanged s.cluster laws ns name w).1
            (RepoLaws.delete_unchanged_secrets s.cluster laws ns name v) in
        rw (goes, rest)
          (
            drop_credentials_connections ns name c u ns name ∙ connection_removed ns name v done,
            (
              c,
              found,
              declared,
              elim (Bool-cases (credentials_secret_of c name).1) [
                | inl owned ↦
                    let (lost, others) = drop_owned ns name c w u owned same in
                    inl (owned, lost, others)
                | inr left ↦ inr (left, drop_left ns name c w u left same)
              ],
            ),
          )
  ]
