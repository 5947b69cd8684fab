-- ===== src/Connection/Service/Update.antt =====
-- What an edit (`Update` of internal/service/connection_service.go) leaves alone.
use okdp_control_plane_serve.Base.{
  String, Bool, true, false, not, ◌&&◌, if◌then◌else◌, some, ◌≡◌, refl, inl, inr, arith, ◌==◌,
  Bool-cases, ◌∙◌, sym, eq_refl, true_ne_false,
}
use okdp_control_plane_serve.Base.Dict.{Dict}
use okdp_control_plane_serve.Base.Go.{ok, pure, ◌>>◌}
use okdp_control_plane_serve.Base.Steps.{bind_step}
use okdp_control_plane_serve.Connection.Model.{Value, ContractDescriptor}
use okdp_control_plane_serve.Connection.Repository as Repo
use okdp_control_plane_serve.Connection.Repository.{Connection, Secret, is_managed, is_ours}
use okdp_control_plane_serve.Connection.Repository.Assumptions.{KubeLaws, SameSecrets}
use okdp_control_plane_serve.Connection.Repository.Laws as RepoLaws
use okdp_control_plane_serve.Connection.Repository.Relations.{
  KeepsForeign, KeepsForeign-preorder, KeepsForeign-of_SameSecrets,
}
use okdp_control_plane_serve.Connection.Credentials.{
  ConnectionRequest, ConnectionService, repo, store_credentials_error, conventional_secret,
  credentials_secret_of, split_values,
}
use okdp_control_plane_serve.Connection.Requests.{wrap, any_entry, validate_request}
use okdp_control_plane_serve.Connection.Requests.Laws.{wrap_world, validate_request-Unchanged}
use okdp_control_plane_serve.Connection.Submitted.{Edit, point_elsewhere, carry_over, edited}
use okdp_control_plane_serve.Connection.Service.{
  to_response, store_credentials, prepare_edit, drop_orphan, update_existing, update,
}
use okdp_control_plane_serve.Connection.Service.Delete.{OwnsOurs, wrap_ok}

orphan_taken :
    (owned : Bool) (previous existing : String)
    → ((if owned && not (previous == existing) then previous else "") == "") ≡ false
    → (owned ≡ true) × ((if owned && not (previous == existing) then previous else "") ≡ previous)
orphan_taken false previous existing left = absurd (true_ne_false (sym (eq_refl "") ∙ left))
orphan_taken true previous existing left = elim (Bool-cases (previous == existing)) [
  | inl same ↦ absurd (true_ne_false (sym (eq_refl "") ∙ rw same at left))
  | inr other ↦ (refl, rw other refl)
]

module _ {F W : Type 0} (s : ConnectionService F W) (laws : KubeLaws s.cluster) where
  -- The Secret that an edit leaves behind, if there is one, is ours.
  abbrev OrphanOurs : String → Edit F → W → Type 0
  OrphanOurs ns e w =
      (e.orphaned == "") ≡ false
      → (sec : Secret) → s.cluster.secret_at w ns e.orphaned ≡ some sec
      → is_ours sec ≡ true

  store_credentials_keeps :
      (ns : String) (req : ConnectionRequest F) (c : Connection F) (public : Dict (Value F))
      (secrets : Dict String) (w : W)
      → KeepsForeign s.cluster w (store_credentials s ns req c public secrets w).1
  unfolding store_credentials
  store_credentials_keeps ns req c public secrets w =
      let write =
        Repo.create_or_update_secret s.cluster ns (conventional_secret req.name) secrets in
      bind_step (KeepsForeign s.cluster) (KeepsForeign-preorder s.cluster)
        (wrap store_credentials_error write) _ w
        (rw (wrap_world store_credentials_error write w) (
          RepoLaws.create_or_update_keeps s.cluster laws ns (conventional_secret req.name) secrets
            w))
        (λ u e _ _ _ h _. h)

  prepare_edit_keeps :
      (ns : String) (req : ConnectionRequest F) (c : Connection F) (public : Dict (Value F))
      (secrets : Dict String) (w : W)
      → KeepsForeign s.cluster w (prepare_edit s ns req c public secrets w).1
  unfolding prepare_edit
  prepare_edit_keeps ns req c public secrets w = elim (Bool-cases (req.existing_secret == "")) [
    | inr points ↦ rw (points, prepare_edit) (λ _ _ _ h _. h)
    | inl own ↦ elim (Bool-cases (any_entry secrets)) [
      | inr nothing ↦ rw (own, nothing, prepare_edit) (λ _ _ _ h _. h)
      | inl present ↦
          rw (own, present, prepare_edit) (store_credentials_keeps ns req c public secrets w)
    ]
  ]

  orphan_left :
      (ns : String) (req : ConnectionRequest F) (c : Connection F) (public : Dict (Value F))
      → ((point_elsewhere ns req c public).orphaned == "") ≡ false
      → ((credentials_secret_of c req.name).1 ≡ true)
        × ((point_elsewhere ns req c public).orphaned ≡ (credentials_secret_of c req.name).0)
  unfolding point_elsewhere
  orphan_left ns req c public left =
      let (previous, owned) = credentials_secret_of c req.name in
      orphan_taken owned previous req.existing_secret left

  point_elsewhere_orphan :
      (ns : String) (req : ConnectionRequest F) (c : Connection F) (public : Dict (Value F)) (w : W)
      → c.name ≡ req.name
      → OwnsOurs s laws w ns c
      → OrphanOurs ns (point_elsewhere ns req c public) w
  unfolding credentials_secret_of
  point_elsewhere_orphan ns req c public w named ours left sec at =
      let (owned, it) = orphan_left ns req c public left in
      let mine : (x : Secret)
          → s.cluster.secret_at w ns (credentials_secret_of c req.name).0 ≡ some x
          → is_ours x ≡ true =
        rw named at ours owned in
      mine sec (rw it at at)

  prepare_edit_orphan :
      (ns : String) (req : ConnectionRequest F) (c : Connection F) (public : Dict (Value F))
      (secrets : Dict String) (w : W) (e : Edit F)
      → c.name ≡ req.name
      → OwnsOurs s laws w ns c
      → (prepare_edit s ns req c public secrets w).0 ≡ ok e
      → OrphanOurs ns e (prepare_edit s ns req c public secrets w).1
  unfolding prepare_edit store_credentials carry_over
  prepare_edit_orphan ns req c public secrets w e named ours h =
      elim (Bool-cases (req.existing_secret == "")) [
        | inr points ↦
            let it : point_elsewhere ns req c public ≡ e = ground arith in
            rw (points, prepare_edit)
              (rw⁻¹ it (point_elsewhere_orphan ns req c public w named ours))
        | inl own ↦
            let it : e.orphaned ≡ "" = ground arith in
            λ left sec at. absurd (true_ne_false (sym (eq_refl "") ∙ rw it at left))
      ]

  drop_orphan_keeps :
      (ns : String) (e : Edit F) (w : W)
      → OrphanOurs ns e w
      → KeepsForeign s.cluster w (drop_orphan s ns e.orphaned w).1
  unfolding drop_orphan
  drop_orphan_keeps ns e w ours = elim (Bool-cases (e.orphaned == "")) [
    | inl nothing ↦ rw (nothing, drop_orphan) (λ _ _ _ h _. h)
    | inr left ↦
        rw (left, drop_orphan)
          (RepoLaws.delete_secret_keeps s.cluster laws ns e.orphaned w (ours left))
  ]

  submitted_keeps :
      {A : Type 0} (ns : String) (c : Connection F) (e : Edit F) (a : A) (w : W)
      → OrphanOurs ns e w
      → KeepsForeign s.cluster w
          ((wrap repo (Repo.update s.cluster ns c) >> (drop_orphan s ns e.orphaned >> pure a)) w).1
  submitted_keeps ns c e a w ours =
      bind_step (KeepsForeign s.cluster) (KeepsForeign-preorder s.cluster)
        (wrap repo (Repo.update s.cluster ns c)) (λ _. drop_orphan s ns e.orphaned >> pure a) w
        (rw (wrap_world repo (Repo.update s.cluster ns c) w)
          (KeepsForeign-of_SameSecrets s.cluster w _ same))
        (λ u done.
          let v = (wrap repo (Repo.update s.cluster ns c) w).1 in
          let still : OrphanOurs ns e v =
            rw (wrap_world repo (Repo.update s.cluster ns c) w)
              (λ left sec at. ours left sec (sym (same ns e.orphaned) ∙ at)) in
          bind_step (KeepsForeign s.cluster) (KeepsForeign-preorder s.cluster)
            (drop_orphan s ns e.orphaned) (λ _. pure a) v (drop_orphan_keeps ns e v still)
            (λ _ _ _ _ _ h _. h))
    where
      same : SameSecrets s.cluster w (Repo.update s.cluster ns c w).1
      same = RepoLaws.update_secrets s.cluster laws ns c w

  update_existing_keeps :
      (ns : String) (req : ConnectionRequest F) (d : ContractDescriptor F) (values : Dict (Value F))
      (c : Connection F) (w : W)
      → c.name ≡ req.name
      → OwnsOurs s laws w ns c
      → KeepsForeign s.cluster w (update_existing s ns req d values c w).1
  unfolding update_existing
  update_existing_keeps ns req d values c w named ours =
      let (public, secrets) = split_values d values in
      let prepare = prepare_edit s ns req c public secrets in
      bind_step (KeepsForeign s.cluster) (KeepsForeign-preorder s.cluster) prepare _ w
        (prepare_edit_keeps ns req c public secrets w)
        (λ e ready.
          submitted_keeps ns (edited req d c e) e (to_response s (edited req d c e) ns)
            (prepare w).1 (prepare_edit_orphan ns req c public secrets w e named ours ready))

  -- An edit of a connection, successful or not, leaves every Secret as it was that the control plane does
  -- not manage, as long as the Secret that the connection is taken to own is one of ours or absent: it
  -- neither writes credentials into one nor removes one that the connection no longer refers to.
  pub update-KeepsForeign :
      (ns name : String) (request : ConnectionRequest F) (w : W)
      → ((c : Connection F) → s.cluster.connection_at w ns name ≡ some c → OwnsOurs s laws w ns c)
      → KeepsForeign s.cluster w (update s ns name request w).1
  unfolding update
  update-KeepsForeign ns name request w ours =
      let req = record request { name = name } in
      let checked = validate_request s ns req true in
      let v = (checked w).1 in
      let checked_same = validate_request-Unchanged s laws ns req true w in
      let still : SameSecrets s.cluster w v = checked_same.1 in
      let read = (Repo.get s.cluster ns name v).1 in
      let looked : SameSecrets s.cluster v read =
        (RepoLaws.get-Unchanged s.cluster laws ns name v).1 in
      bind_step (KeepsForeign s.cluster) (KeepsForeign-preorder s.cluster) checked _ w
        (KeepsForeign-of_SameSecrets s.cluster w v still)
        (λ dv e.
          bind_step (KeepsForeign s.cluster) (KeepsForeign-preorder s.cluster)
            (wrap repo (Repo.get s.cluster ns name)) _ v
            (rw (wrap_world repo (Repo.get s.cluster ns name) v)
              (KeepsForeign-of_SameSecrets s.cluster v read looked))
            (λ c found.
              let (at, named) =
                RepoLaws.get_finds s.cluster laws ns name v c
                  (wrap_ok repo (Repo.get s.cluster ns name) v c found) in
              let stored = sym (checked_same.0 ns name) ∙ at in
              let u = (wrap repo (Repo.get s.cluster ns name) v).1 in
              let mine : OwnsOurs s laws u ns c =
                rw (wrap_world repo (Repo.get s.cluster ns name) v) (λ owned sec there.
                  ours c stored owned sec (
                    sym (still ns (credentials_secret_of c c.name).0)
                    ∙ sym (looked ns (credentials_secret_of c c.name).0)
                    ∙ there)) in
              elim (Bool-cases (is_managed c)) [
                | inl managed ↦ rw managed (λ _ _ _ h _. h)
                | inr declared ↦ rw declared (update_existing_keeps ns req dv.0 dv.1 c u named mine)
              ]))
