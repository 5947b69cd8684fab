-- ===== src/Connection/Service/Safety.antt =====
-- What a creation (`Create` of internal/service/connection_service.go) does to the Secrets that the
-- control plane did not write.
use okdp_control_plane_serve.Base.{
  String, true, false, some, ◌≡◌, inl, inr, arith, not, ◌&&◌, Bool-cases,
}
use okdp_control_plane_serve.Base.Dict.{Dict}
use okdp_control_plane_serve.Base.Go.{Result, ok, err}
use okdp_control_plane_serve.Base.Steps.{try_step, bind_step}
use okdp_control_plane_serve.Connection.Model.{Value, ContractDescriptor}
use okdp_control_plane_serve.Connection.Repository as Repo
use okdp_control_plane_serve.Connection.Repository.{
  RepoError, Kube, Connection, Secret, is_ours, is_managed,
}
use okdp_control_plane_serve.Connection.Repository.Assumptions.{SameSecrets, KubeLaws}
use okdp_control_plane_serve.Connection.Repository.Relations.{
  KeepsForeign, KeepsForeign-preorder, KeepsForeign-of_SameSecrets,
}
use okdp_control_plane_serve.Connection.Repository.Laws as RepoLaws
use okdp_control_plane_serve.Connection.Credentials.{
  ConnectionRequest, ConnectionService, split_values, is_already_exists, is_not_found,
}
use okdp_control_plane_serve.Connection.Requests.{Prepared, validate_request, prepare_credentials}
use okdp_control_plane_serve.Connection.Requests.Laws.{
  validate_request-Unchanged, prepare_keeps, prepare_ours,
}
use okdp_control_plane_serve.Connection.Submitted.{new_connection}
use okdp_control_plane_serve.Connection.Service.{
  roll_back, submitted, submit, create_free, create, create_named, create_valid,
}

module _ {F W : Type 0} (s : ConnectionService F W) (laws : KubeLaws s.cluster) where
  -- The Secret to roll back, if there is one, is ours.
  abbrev OursToRemove : String → Prepared F → W → Type 0
  OursToRemove ns p w =
      p.own_secret ≡ true
      → p.has_secrets ≡ true
      → (sec : Secret) × (s.cluster.secret_at w ns p.secret_name ≡ some sec) × (is_ours sec ≡ true)

  roll_back_keeps :
      (ns : String) (p : Prepared F) (e : RepoError) (w : W)
      → OursToRemove ns p w
      → KeepsForeign s.cluster w (roll_back s ns p e w).1
  unfolding roll_back
  roll_back_keeps ns p e w ours =
      elim (Bool-cases (p.own_secret && p.has_secrets && not (is_already_exists e))) [
        | inr stays ↦ rw (stays, roll_back) (λ _ _ _ h _. h)
        | inl removes ↦
            let (sec, there, mine) = ours (ground arith) (ground arith) in
            rw (removes, roll_back)
              (RepoLaws.delete_secret_keeps s.cluster laws ns p.secret_name w (λ x h. ground arith))
      ]

  submit_keeps :
      (ns : String) (p : Prepared F) (c : Connection F) (w : W)
      → OursToRemove ns p w
      → KeepsForeign s.cluster w (submit s ns p c w).1
  unfolding submit
  submit_keeps ns p c w ours =
      try_step (KeepsForeign s.cluster) (KeepsForeign-preorder s.cluster)
        (Repo.create s.cluster ns c) (submitted s ns p c) w
        (KeepsForeign-of_SameSecrets s.cluster w _ same) later
    where
      same : SameSecrets s.cluster w (Repo.create s.cluster ns c w).1
      same = RepoLaws.create_secrets s.cluster laws ns c w

      later :
          (r : Result RepoError (Unit {0}))
          → (Repo.create s.cluster ns c w).0 ≡ r
          → KeepsForeign s.cluster
              (Repo.create s.cluster ns c w).1
              (submitted s ns p c r (Repo.create s.cluster ns c w).1).1
      later (ok _) e = λ _ _ _ h _. h
      later (err x) e = roll_back_keeps ns p x _ (λ o h. rw (same ns p.secret_name) (ours o h))

  create_free_keeps :
      (ns : String) (req : ConnectionRequest F) (d : ContractDescriptor F) (values : Dict (Value F))
      (w : W)
      → KeepsForeign s.cluster w (create_free s ns req d values w).1
  unfolding create_free
  create_free_keeps ns req d values w =
      let (public, secrets) = split_values d values in
      bind_step (KeepsForeign s.cluster) (KeepsForeign-preorder s.cluster)
        (prepare_credentials s ns req public secrets)
        (λ p. submit s ns p (new_connection ns req d p)) w
        (prepare_keeps s laws ns req public secrets w)
        (λ p e. submit_keeps ns p (new_connection ns req d p) _ (λ own has.
          let (sec, there, mine, _) = prepare_ours s laws ns req public secrets w p e own has in
          (sec, there, mine)))

  create_named_keeps :
      (ns : String) (req : ConnectionRequest F) (d : ContractDescriptor F) (values : Dict (Value F))
      (r : Result RepoError (Connection F)) (w : W)
      → KeepsForeign s.cluster w (create_named s ns req d values r w).1
  unfolding create_named
  create_named_keeps ns req d values (ok _) w = λ _ _ _ h _. h
  create_named_keeps ns req d values (err e) w = elim (Bool-cases (is_not_found e)) [
    | inl free ↦ rw (free, create_named) (create_free_keeps ns req d values w)
    | inr failed ↦ rw (failed, create_named) (λ _ _ _ h _. h)
  ]

  -- Creating a connection, successfully or not, leaves every Secret as it was that the control plane
  -- does not manage: it neither writes into one nor rolls one back.
  pub create-KeepsForeign :
      (ns : String) (req : ConnectionRequest F) (w : W)
      → KeepsForeign s.cluster w (create s ns req w).1
  unfolding create create_valid
  create-KeepsForeign ns req w =
      bind_step (KeepsForeign s.cluster) (KeepsForeign-preorder s.cluster)
        (validate_request s ns req false) (λ (d, values). create_valid s ns req d values) w
        (KeepsForeign-of_SameSecrets s.cluster w _
          (validate_request-Unchanged s laws ns req false w).1)
        (λ dv e.
          try_step (KeepsForeign s.cluster) (KeepsForeign-preorder s.cluster)
            (Repo.get s.cluster ns req.name) (create_named s ns req dv.0 dv.1) _
            (KeepsForeign-of_SameSecrets s.cluster _ _
              (RepoLaws.get-Unchanged s.cluster laws ns req.name _).1)
            (λ r _. create_named_keeps ns req dv.0 dv.1 r _))
