-- ===== src/Connection/Service/Stored.antt =====
-- What a creation that succeeds has stored.
use mathlib.Core.Option.{some-injective}
use okdp_control_plane_serve.Base.{
  List, [], ◌∷◌, String, true, false, none, some, ◌≡◌, ◌≢◌, ◌⊎◌, inl, inr, arith, Bool-cases, ◌∙◌,
  ap, sym, ◌==◌, eq_of_test,
}
use okdp_control_plane_serve.Base.Dict.{Dict, lookup, insert, lookup-insert_ne}
use okdp_control_plane_serve.Base.Go.{ok, err}
use okdp_control_plane_serve.Base.Steps.{Result-cases, bind-ok, bind-err, try-eq}
use okdp_control_plane_serve.Connection.Model.{
  Value, string, ContractDescriptor, ConnectionField, field,
}
use okdp_control_plane_serve.Connection.Catalog as Catalog
use okdp_control_plane_serve.Connection.Repository as Repo
use okdp_control_plane_serve.Connection.Repository.{
  RepoError, kube, not_found, Connection, is_managed,
}
use okdp_control_plane_serve.Connection.Repository.Assumptions.{KubeLaws}
use okdp_control_plane_serve.Connection.Repository.Laws as RepoLaws
use okdp_control_plane_serve.Connection.Credentials.{
  ConnectionRequest, ConnectionService, split_values, is_not_found, value_secret_ref,
  conventional_secret,
}
use okdp_control_plane_serve.Connection.Credentials.Laws.{split_values_hides}
use okdp_control_plane_serve.Connection.Requests.{
  Prepared, validate_request, prepare_credentials, write_credentials, prepared_own,
  prepared_existing, any_entry,
}
use okdp_control_plane_serve.Connection.Requests.Laws.{
  validate_request-Unchanged, validate_request-Accepted,
}
use okdp_control_plane_serve.Connection.Submitted.{new_connection, ConnectionResponse}
use okdp_control_plane_serve.Connection.Service.Create.{is_not_found_lem}
use okdp_control_plane_serve.Connection.Service.{
  roll_back, submitted, submit, create_free, create, create_named, create_valid,
}

module _ {F : Type 0} where
  -- No credential of the contract is among the values. The reference to the Secret is none.
  abbrev pub NoCredentials : ContractDescriptor F → Dict (Value F) → Type 0
  NoCredentials d values =
      (key : String) (f : ConnectionField F)
      → field d key ≡ some f
      → f.secret ≡ true
      → key ≢ value_secret_ref
      → lookup key values ≡ none

  get_name :
      (c : List (ContractDescriptor F)) (name : String) {d : ContractDescriptor F}
      → Catalog.get c name ≡ some d
      → d.name ≡ name
  unfolding Catalog.get
  get_name [] name h = cc
  get_name (ct ∷ c) name {d} h = elim (Bool-cases (ct.name == name)) [
    | inr other ↦ get_name c name (rw (other, Catalog.get) at h)
    | inl same ↦
        let it : some ct ≡ some d = rw (same, Catalog.get) at h in
        ap (λ (x : ContractDescriptor F). x.name) (sym (some-injective _ _ it))
        ∙ eq_of_test ct.name name same
  ]

  hides_reference :
      (d : ContractDescriptor F) (values : Dict (Value F)) (n : String)
      → NoCredentials d values
      → NoCredentials d (insert value_secret_ref (string n) values)
  hides_reference d values n hidden key f known is_secret apart =
      lookup-insert_ne value_secret_ref key (string n) values (λ e. apart (sym e))
      ∙ hidden key f known is_secret apart

module _ {F W : Type 0} (s : ConnectionService F W) (laws : KubeLaws s.cluster) where
  prepared_public :
      (ns : String) (req : ConnectionRequest F) (public : Dict (Value F)) (secrets : Dict String)
      (w : W) (p : Prepared F)
      → (prepare_credentials s ns req public secrets w).0 ≡ ok p
      → (p.public ≡ public)
        ⊎ ((n : String) × (p.public ≡ insert value_secret_ref (string n) public))
  unfolding prepare_credentials write_credentials prepared_own prepared_existing
  prepared_public ns req public secrets w p h = elim (Bool-cases (req.existing_secret == "")) [
    | inr points ↦ inr (req.existing_secret, ground arith)
    | inl own ↦ elim (Bool-cases (any_entry secrets)) [
      | inr nothing ↦ inl (ground arith)
      | inl present ↦ inr (conventional_secret req.name, ground arith)
    ]
  ]

  prepared_hides :
      (ns : String) (req : ConnectionRequest F) (d : ContractDescriptor F) (values : Dict (Value F))
      (w : W) (p : Prepared F)
      → (prepare_credentials s ns req (split_values d values).0 (split_values d values).1 w).0
        ≡ ok p
      → NoCredentials d p.public
  prepared_hides ns req d values w p h =
      let hidden : NoCredentials d (split_values d values).0 =
        λ key f known is_secret apart. split_values_hides d key values known is_secret in
      elim (prepared_public ns req (split_values d values).0 (split_values d values).1 w p h) [
        | inl same ↦ rw same hidden
        | inr (n, same) ↦ rw same (hides_reference d (split_values d values).0 n hidden)
      ]

  -- The connection that is stored under a name: one that the user declared, of the contract, without
  -- credentials in its values.
  abbrev pub Declared : W → String → String → ContractDescriptor F → Type 0
  Declared w ns name d =
      (c : Connection F) × (s.cluster.connection_at w ns name ≡ some c)
      × (is_managed c ≡ false)
      × (c.spec.contract ≡ d.name)
      × NoCredentials d c.spec.values

  submit_stores :
      (ns : String) (req : ConnectionRequest F) (d : ContractDescriptor F) (p : Prepared F) (w : W)
      (r : ConnectionResponse F)
      → NoCredentials d p.public
      → (submit s ns p (new_connection ns req d p) w).0 ≡ ok r
      → Declared (submit s ns p (new_connection ns req d p) w).1 ns req.name d
  unfolding submit submitted roll_back new_connection is_managed
  submit_stores ns req d p w r hidden h =
      elim (Result-cases (Repo.create s.cluster ns (new_connection ns req d p) w).0) [
        | inr (e, failed) ↦ absurd (ground arith)
        | inl (u, done) ↦
            let (c, at, named, spec, labels, annotations) =
              RepoLaws.create-Stores s.cluster laws ns (new_connection ns req d p) w done in
            rw
              (try-eq (Repo.create s.cluster ns (new_connection ns req d p))
                (submitted s ns p (new_connection ns req d p)) w (ok u) done)
              (c, at, simp spec, simp spec, simp spec hidden)
      ]

  create_free_stores :
      (ns : String) (req : ConnectionRequest F) (d : ContractDescriptor F) (values : Dict (Value F))
      (w : W) (r : ConnectionResponse F)
      → (create_free s ns req d values w).0 ≡ ok r
      → Declared (create_free s ns req d values w).1 ns req.name d
  unfolding create_free
  create_free_stores ns req d values w r h =
      let prepare =
        prepare_credentials s ns req (split_values d values).0 (split_values d values).1 in
      let next = λ (p : Prepared F). submit s ns p (new_connection ns req d p) in
      elim (Result-cases (prepare w).0) [
        | inr (e, failed) ↦ cc (rw (bind-err prepare next w e failed) at h)
        | inl (p, ready) ↦ rw (bind-ok prepare next w p ready) (
            submit_stores ns req d p (prepare w).1 r (prepared_hides ns req d values w p ready)
              (rw (bind-ok prepare next w p ready) at h))
      ]

  create_valid_stores :
      (ns : String) (req : ConnectionRequest F) (d : ContractDescriptor F) (values : Dict (Value F))
      (w : W) (r : ConnectionResponse F)
      → (create_valid s ns req d values w).0 ≡ ok r
      → (s.cluster.connection_at w ns req.name ≡ none)
        × Declared (create_valid s ns req d values w).1 ns req.name d
  unfolding create_valid create_named
  create_valid_stores ns req d values w r h =
      elim (Result-cases (Repo.get s.cluster ns req.name w).0) [
        | inl (c, taken) ↦ cc (
            rw
              (try-eq (Repo.get s.cluster ns req.name) (create_named s ns req d values) w (ok c)
                taken)
              at h)
        | inr (e, failed) ↦ elim (Bool-cases (is_not_found e)) [
          | inr refused ↦ cc (
              rw
                (
                  try-eq (Repo.get s.cluster ns req.name) (create_named s ns req d values) w (err e)
                      failed,
                  create_named,
                  refused,
                )
                at h)
          | inl missing ↦
              let steps =
                try-eq (Repo.get s.cluster ns req.name) (create_named s ns req d values) w (err e)
                  failed in
              (
                RepoLaws.get_misses s.cluster laws ns req.name w
                    (rw (← is_not_found_lem s laws e missing) failed),
                rw (steps, create_named, missing)
                    (create_free_stores ns req d values (Repo.get s.cluster ns req.name w).1 r
                      (rw (steps, create_named, missing) at h)),
              )
        ]
      ]

  -- A creation that succeeds found its name free, and stored a connection there that counts as
  -- declared by a user and carries the contract of the request, known and open to declarations. Of the
  -- credential fields of the contract, none is in its values, but for the reference to the Secret.
  pub create-Declared :
      (ns : String) (req : ConnectionRequest F) (w : W) {r : ConnectionResponse F}
      → (create s ns req w).0 ≡ ok r
      → (s.cluster.connection_at w ns req.name ≡ none)
        × ((d : ContractDescriptor F) × (Catalog.get s.catalog req.type ≡ some d)
            × (d.external ≡ true)
            × (d.name ≡ req.type)
            × Declared (create s ns req w).1 ns req.name d)
  unfolding create
  create-Declared ns req w {r} h =
      let next = λ (dv : ContractDescriptor F × Dict (Value F)). create_valid s ns req dv.0 dv.1 in
      elim (Result-cases (validate_request s ns req false w).0) [
        | inr (e, refused) ↦
            cc (rw (bind-err (validate_request s ns req false) next w e refused) at h)
        | inl ((d, values), accepted) ↦
            let a = validate_request-Accepted s laws ns req false w d values accepted in
            let steps = bind-ok (validate_request s ns req false) next w (d, values) accepted in
            let (free, stored) =
              create_valid_stores ns req d values (validate_request s ns req false w).1 r
                (rw steps at h) in
            (
              sym ((validate_request-Unchanged s laws ns req false w).0 ns req.name) ∙ free,
              (d, a.known, a.declarable, get_name s.catalog req.type a.known, rw steps stored),
            )
      ]
