-- ===== src/Connection/Service/Create.antt =====
-- What `Create` stores, and that it writes nothing for a name that is taken.
use okdp_control_plane_serve.Base.{
  String, true, false, some, ◌≡◌, refl, inl, inr, arith, Bool-cases, ◌∙◌,
}
use okdp_control_plane_serve.Base.Dict.{Dict}
use okdp_control_plane_serve.Base.Go.{Result, ok, err}
use okdp_control_plane_serve.Base.Steps.{Result-cases, bind-ok, bind-err, try-eq}
use okdp_control_plane_serve.Connection.Model.{Value, ContractDescriptor}
use okdp_control_plane_serve.Connection.Repository as Repo
use okdp_control_plane_serve.Connection.Repository.{
  RepoError, kube, KubeError, not_found, Kube, Connection, Secret, is_ours, is_managed,
}
use okdp_control_plane_serve.Connection.Repository.Assumptions.{KubeLaws}
use okdp_control_plane_serve.Connection.Repository.Relations.{Unchanged, Unchanged-preorder}
use okdp_control_plane_serve.Connection.Repository.Laws as RepoLaws
use okdp_control_plane_serve.Connection.Credentials.{
  ServiceError, name_taken, repo, ConnectionRequest, ConnectionService, is_not_found,
}
use okdp_control_plane_serve.Connection.Requests.{validate_request}
use okdp_control_plane_serve.Connection.Requests.Laws.{validate_request-Unchanged}
use okdp_control_plane_serve.Connection.Service.{create, create_named, create_valid}

module _ {F W : Type 0} (s : ConnectionService F W) (laws : KubeLaws s.cluster) where
  abbrev IsErr {ℓ} : {A : Type ℓ} → Result ServiceError A → Type ℓ
  IsErr r = (e : ServiceError) × (r ≡ err e)

  pub is_not_found_lem : (e : RepoError) → is_not_found e ≡ true → e ≡ kube not_found
  unfolding is_not_found
  is_not_found_lem e h = ground arith

  -- Where the connection exists, looking its name up never says that it does not.
  named_refuses :
      (ns : String) (req : ConnectionRequest F) (d : ContractDescriptor F) (values : Dict (Value F))
      {c : Connection F} (w : W)
      → s.cluster.connection_at w ns req.name ≡ some c
      → IsErr (create_valid s ns req d values w).0
        × Unchanged s.cluster w (create_valid s ns req d values w).1
  unfolding create_valid create_named
  named_refuses ns req d values w there = elim (Result-cases (Repo.get s.cluster ns req.name w).0) [
    | inl (c, e) ↦
        rw (try-eq (Repo.get s.cluster ns req.name) (create_named s ns req d values) w (ok c) e)
          ((name_taken req.name, refl), RepoLaws.get-Unchanged s.cluster laws ns req.name w)
    | inr (x, e) ↦ elim (Bool-cases (is_not_found x)) [
      | inl missing ↦
          let gone : x ≡ kube not_found = is_not_found_lem x missing in
          absurd (cc (there, RepoLaws.get_misses s.cluster laws ns req.name w (rw (← gone) e)))
      | inr failed ↦
          rw
            (
              try-eq (Repo.get s.cluster ns req.name) (create_named s ns req d values) w (err x) e,
              create_named,
              failed,
            )
            ((repo x, refl), RepoLaws.get-Unchanged s.cluster laws ns req.name w)
    ]
  ]

  -- A creation under a name that is taken fails, and writes neither a connection nor a Secret: the
  -- credentials of the live connection are left alone.
  pub create-existing :
      (ns : String) (req : ConnectionRequest F) {c : Connection F} (w : W)
      → s.cluster.connection_at w ns req.name ≡ some c
      → ((e : ServiceError) × ((create s ns req w).0 ≡ err e))
        × Unchanged s.cluster w (create s ns req w).1
  unfolding create
  create-existing ns req {c} w there = elim (Result-cases (validate_request s ns req false w).0) [
    | inr (e, refused) ↦
        rw
          (bind-err (validate_request s ns req false)
            (λ (d, values). create_valid s ns req d values) w e refused)
          ((e, refl), checked)
    | inl ((d, values), accepted) ↦
        let still = checked.0 ns req.name ∙ there in
        let (fails, rest) =
          named_refuses ns req d values (validate_request s ns req false w).1 still in
        rw
          (bind-ok (validate_request s ns req false) (λ (d, values). create_valid s ns req d values)
            w (d, values) accepted)
          (fails, (Unchanged-preorder s.cluster).join w _ _ checked rest)
  ]
    where
      checked : Unchanged s.cluster w (validate_request s ns req false w).1
      checked = validate_request-Unchanged s laws ns req false w
