-- ===== src/Connection/Requests/Laws.antt =====
-- What the validation of a request checks, and what it and the writing of the credentials do to the cluster.
use mathlib.Core.Path.{subst}
use mathlib.Core.Option.{some-injective}
use okdp_control_plane_serve.Base.{
  String, Bool, true, false, List, ◌∷◌, contains, Option, none, some, ◌≡◌, refl, ◌⊎◌, inl, inr,
  arith, ◌==◌, not, ◌||◌, ◌&&◌, [], eq_of_test, if◌then◌else◌, eq_iff, Bool-cases, Option-cases,
  ◌∙◌, ap, sym,
}
use okdp_control_plane_serve.Base.Dict.{Dict, lookup, lookup-delete}
use okdp_control_plane_serve.Base.Go.{ok, err, Action}
use okdp_control_plane_serve.Base.Steps.{Result-cases, bind_step}
use okdp_control_plane_serve.Connection.Model.{Value, ContractDescriptor, secret_fields}
use okdp_control_plane_serve.Connection.Catalog as Catalog
use okdp_control_plane_serve.Connection.Catalog.{
  ValueError, normalize, validate, validate_update, validate_values,
}
use okdp_control_plane_serve.Connection.Catalog.Conforms.{Conforms, validate_values_iff}
use okdp_control_plane_serve.Connection.Repository as Repo
use okdp_control_plane_serve.Connection.Repository.{RepoError, SecretContent, Kube}
use okdp_control_plane_serve.Connection.Repository.Assumptions.{KubeLaws}
use okdp_control_plane_serve.Connection.Repository.Laws.{
  inspect-Unchanged, create_or_update_keeps, create_or_update-Holds,
}
use okdp_control_plane_serve.Connection.Repository.Relations.{
  KeepsForeign, KeepsForeign-preorder, Unchanged, Unchanged-preorder, Holds,
}
use okdp_control_plane_serve.Connection.Credentials.{
  missing_from, value_secret_ref, store_credentials_error, conventional_secret, ServiceError,
  unavailable, invalid_name, unknown_type, not_declarable, ConnectionRequest, ConnectionService,
  invalid, read_failed,
}
use okdp_control_plane_serve.Connection.Requests.{
  Prepared, judge_secret, judge_values, stored_values, check_reference, any_entry, prepared_own,
  prepared_existing, wrap, check_existing_secret, check_values, check_request, validate_request,
  write_credentials, prepare_credentials,
}

module _ {W E A : Type 0} where
  pub wrap_world :
      (name : RepoError → E) (m : Action W RepoError A) (w : W) → (wrap name m w).1 ≡ (m w).1
  wrap_world name m w = ground arith

none_missing :
    (keys fields : List String)
    → missing_from keys fields ≡ []
    → (key : String) → contains fields key ≡ true
    → contains keys key ≡ true
unfolding missing_from
none_missing keys [] h key has = absurd (ground arith)
none_missing keys (f ∷ fields) h key has = elim (Bool-cases (contains keys f)) [
  | inr missing ↦ absurd (ground arith)
  | inl there ↦ elim (Bool-cases (f == key)) [
    | inl it ↦ rw⁻¹ (eq_of_test f key it) there
    | inr other ↦ none_missing keys fields (rw there at h) key (rw other at has)
  ]
]

module _ {F W : Type 0} (s : ConnectionService F W) (laws : KubeLaws s.cluster) where
  judge_unchanged :
      (req : ConnectionRequest F) (d : ContractDescriptor F) (content : Option SecretContent)
      (w : W)
      → (judge_secret {W = W} req d content w).1 ≡ w
  unfolding judge_secret
  judge_unchanged req d content w = ground arith

  check_existing_secret-Unchanged :
      (ns : String) (req : ConnectionRequest F) (d : ContractDescriptor F) (w : W)
      → Unchanged s.cluster w (check_existing_secret s ns req d w).1
  unfolding check_existing_secret
  check_existing_secret-Unchanged ns req d w =
      bind_step (Unchanged s.cluster) (Unchanged-preorder s.cluster)
        (wrap read_failed (Repo.inspect_secret s.cluster ns req.existing_secret))
        (judge_secret req d) w
        (rw (wrap_world read_failed (Repo.inspect_secret s.cluster ns req.existing_secret) w)
          (inspect-Unchanged s.cluster laws ns req.existing_secret w))
        (λ content e. rw (judge_unchanged req d content) (λ _ _. refl, λ _ _. refl))

  check_reference-Unchanged :
      (ns : String) (req : ConnectionRequest F) (d : ContractDescriptor F) (w : W)
      → Unchanged s.cluster w (check_reference s ns req d w).1
  unfolding check_reference
  check_reference-Unchanged ns req d w = elim (Bool-cases (req.existing_secret == "")) [
    | inl own ↦ rw (own, check_reference) (λ _ _. refl, λ _ _. refl)
    | inr points ↦ rw (points, check_reference) (check_existing_secret-Unchanged ns req d w)
  ]

  judge_values_world :
      (d : ContractDescriptor F) (values : Dict (Value F)) (e : Option ValueError) (w : W)
      → (judge_values {W = W} d values e w).1 ≡ w
  unfolding judge_values
  judge_values_world d values e w = ground arith

  check_request-Unchanged :
      (ns : String) (req : ConnectionRequest F) (edit : Bool) (d : ContractDescriptor F) (w : W)
      → Unchanged s.cluster w (check_request s ns req edit d w).1
  unfolding check_request
  check_request-Unchanged ns req edit d w =
      bind_step (Unchanged s.cluster) (Unchanged-preorder s.cluster) (check_reference s ns req d) _
        w (check_reference-Unchanged ns req d w)
        (λ u e. rw (judge_values_world d (stored_values s req) _ _) (λ _ _. refl, λ _ _. refl))

  -- The guards of `validateRequest`, in the order in which they stand.
  abbrev Guards : ConnectionRequest F → W → ContractDescriptor F → Type 0
  Guards req w d =
      (s.cluster.available w ≡ true)
      × (s.name_error req.name ≡ none)
      × (Catalog.get s.catalog req.type ≡ some d)
      × (d.external ≡ true)

  abbrev Goes : String → ConnectionRequest F → Bool → W → Type 0
  Goes ns req edit w =
      ((e : ServiceError) × (validate_request s ns req edit w ≡ (err e, w)))
      ⊎ ((d : ContractDescriptor F) × Guards req w d
          × (validate_request s ns req edit w ≡ check_request s ns req edit d w))

  validate_request_cases :
      (ns : String) (req : ConnectionRequest F) (edit : Bool) (w : W) → Goes ns req edit w
  unfolding validate_request
  validate_request_cases ns req edit w = elim (Bool-cases (s.cluster.available w)) [
    | inr absent ↦ inl (unavailable, rw (absent, validate_request))
    | inl up ↦ elim (Option-cases (s.name_error req.name)) [
      | inr (x, bad) ↦ inl (invalid (invalid_name req.name), rw (up, validate_request, bad))
      | inl good ↦ elim (Option-cases (Catalog.get s.catalog req.type)) [
        | inl unknown ↦
            inl (invalid (unknown_type req.type), rw (up, validate_request, good, unknown))
        | inr (d, known) ↦ elim (Bool-cases d.external) [
          | inr closed ↦
              inl
                (invalid (not_declarable req.type), rw (up, validate_request, good, known, closed))
          | inl open_form ↦
              inr
                (d, (up, good, known, open_form), rw (up, validate_request, good, known, open_form))
        ]
      ]
    ]
  ]

  -- Validating a request writes nothing.
  pub validate_request-Unchanged :
      (ns : String) (req : ConnectionRequest F) (edit : Bool) (w : W)
      → Unchanged s.cluster w (validate_request s ns req edit w).1
  validate_request-Unchanged ns req edit w = elim (validate_request_cases ns req edit w) [
    | inl (e, refused) ↦ rw refused (λ _ _. refl, λ _ _. refl)
    | inr (d, guards, goes) ↦ rw goes (check_request-Unchanged ns req edit d w)
  ]

  -- The existing Secret that a request names: it was found, it is not one of ours, and it has an entry for
  -- each credential of the contract.
  abbrev pub Usable : String → ConnectionRequest F → ContractDescriptor F → W → Type 0
  Usable ns req d w =
      (found : SecretContent) × ((Repo.inspect_secret s.cluster ns req.existing_secret w).0
        ≡ ok (some found))
      × (found.managed ≡ false)
      × ((key : String) → contains (secret_fields d) key ≡ true → contains found.keys key ≡ true)

  judged_usable :
      (req : ConnectionRequest F) (d : ContractDescriptor F) (content : Option SecretContent)
      (w : W)
      → (judge_secret {W = W} req d content w).0 ≡ ok tt
      → (found : SecretContent) × (content ≡ some found)
        × (found.managed ≡ false)
        × (missing_from found.keys (secret_fields d) ≡ [])
  unfolding judge_secret
  judged_usable req d none w h = absurd (ground arith)
  judged_usable req d (some found) w h = (found, refl, ground arith, ground arith)

  check_reference-Usable :
      (ns : String) (req : ConnectionRequest F) (d : ContractDescriptor F) (w : W)
      → (check_reference s ns req d w).0 ≡ ok tt
      → (req.existing_secret ≡ "") ⊎ Usable ns req d w
  unfolding check_reference check_existing_secret
  check_reference-Usable ns req d w h = elim (Bool-cases (req.existing_secret == "")) [
    | inl own ↦ inl (eq_of_test req.existing_secret "" own)
    | inr points ↦ elim (Result-cases (Repo.inspect_secret s.cluster ns req.existing_secret w).0) [
      | inr (e, failed) ↦ absurd (ground arith)
      | inl (content, read) ↦
          let v = (Repo.inspect_secret s.cluster ns req.existing_secret w).1 in
          let judged : (judge_secret {W = W} req d content v).0 ≡ ok tt = ground arith in
          let (found, it, foreign, complete) = judged_usable req d content v judged in
          inr (
            found,
            read ∙ ap (λ x. ok x) it,
            foreign,
            none_missing found.keys (secret_fields d) complete,
          )
    ]
  ]

  -- What a request that passes has been checked for. The values are the normalised ones without the
  -- reference to the Secret; credentials are required of a creation that names no existing Secret.
  pub record Accepted (ns : String) (req : ConnectionRequest F) (edit : Bool) (w : W)
      (d : ContractDescriptor F) (values : Dict (Value F)) : Type 0 where
    pub known : Catalog.get s.catalog req.type ≡ some d
    pub declarable : d.external ≡ true
    pub valid_name : s.name_error req.name ≡ none
    pub stored :
        (key : String)
        → lookup key values ≡ (
            if key == value_secret_ref
            then none
            else lookup key (normalize s.catalog req.type req.values))
    pub fits : Conforms s.floats (not edit && (req.existing_secret == "")) d values
    pub refers : (req.existing_secret ≡ "") ⊎ Usable ns req d w

  check_request_accepted :
      (ns : String) (req : ConnectionRequest F) (edit : Bool) (d : ContractDescriptor F) (w : W)
      (d' : ContractDescriptor F) (values : Dict (Value F))
      → (check_request s ns req edit d w).0 ≡ ok (d', values)
      → (d' ≡ d)
        × (values ≡ stored_values s req)
        × (check_values s req (stored_values s req) (edit || not (req.existing_secret == ""))
            ≡ none)
  unfolding check_request judge_values
  check_request_accepted ns req edit d w d' values h = ground arith

  check_request_reference :
      (ns : String) (req : ConnectionRequest F) (edit : Bool) (d : ContractDescriptor F) (w : W)
      (d' : ContractDescriptor F) (values : Dict (Value F))
      → (check_request s ns req edit d w).0 ≡ ok (d', values)
      → (check_reference s ns req d w).0 ≡ ok tt
  unfolding check_request
  check_request_reference ns req edit d w d' values h =
      elim (Result-cases (check_reference s ns req d w).0) [
        | inl (u, passed) ↦ passed
        | inr (e, failed) ↦ absurd (ground arith)
      ]

  lookup-stored_values :
      (req : ConnectionRequest F) (key : String)
      → lookup key (stored_values s req) ≡ (
          if key == value_secret_ref
          then none
          else lookup key (normalize s.catalog req.type req.values))
  unfolding stored_values
  lookup-stored_values req key = ground (
    arith,
    lookup-delete value_secret_ref key (normalize s.catalog req.type req.values),
    eq_iff key value_secret_ref,
    eq_iff value_secret_ref key,
  )

  check_values-Conforms :
      (req : ConnectionRequest F) (values : Dict (Value F)) (edit : Bool) {d : ContractDescriptor F}
      → Catalog.get s.catalog req.type ≡ some d
      → check_values s req values (edit || not (req.existing_secret == "")) ≡ none
      → Conforms s.floats (not edit && (req.existing_secret == "")) d values
  unfolding check_values validate validate_update
  check_values-Conforms req values edit {d} known h =
      let flag = not edit && (req.existing_secret == "") in
      let passed : validate_values s.floats s.catalog req.type values flag ≡ none = ground arith in
      let (e, found, fits) =
        (validate_values_iff s.floats s.catalog req.type values flag).0 passed in
      subst (λ x. Conforms s.floats flag x values) (some-injective _ _ (sym found ∙ known)) fits

  -- A request that passes names a known contract that may be declared by hand and has a valid name. The
  -- values handed on are the normalised ones, without the reference to the Secret. They conform to the
  -- contract, with its required credentials for a creation that names no existing Secret; an edit, and
  -- a creation for an existing Secret, may leave credentials out. An existing Secret that is named was
  -- found, is not one of ours, and has an entry for each credential of the contract.
  pub validate_request-Accepted :
      (ns : String) (req : ConnectionRequest F) (edit : Bool) (w : W) (d : ContractDescriptor F)
      (values : Dict (Value F))
      → (validate_request s ns req edit w).0 ≡ ok (d, values)
      → Accepted ns req edit w d values
  validate_request-Accepted ns req edit w d values h = elim (validate_request_cases ns req edit w) [
    | inl (e, refused) ↦ cc (refused, h)
    | inr (d', (up, good, known, open_form), goes) ↦
        let (same, stored, fits) =
          check_request_accepted ns req edit d' w d values (rw goes at h) in
        let found = known ∙ ap some (sym same) in
        record {
          known = found;
          declarable = ap (λ (x : ContractDescriptor F). x.external) same ∙ open_form;
          valid_name = good;
          stored = λ key. rw stored (lookup-stored_values req key);
          fits = check_values-Conforms req values edit found (rw stored fits);
          refers = check_reference-Usable ns req d w (
              ap (λ x. (check_reference s ns req x w).0) same
              ∙ check_request_reference ns req edit d' w d values (rw goes at h));
        }
  ]

  -- Writing the credentials of a new connection keeps every Secret that is not ours.
  pub prepare_keeps :
      (ns : String) (req : ConnectionRequest F) (public : Dict (Value F)) (secrets : Dict String)
      (w : W)
      → KeepsForeign s.cluster w (prepare_credentials s ns req public secrets w).1
  unfolding prepare_credentials write_credentials
  prepare_keeps ns req public secrets w = elim (Bool-cases (req.existing_secret == "")) [
    | inr points ↦ rw (points, prepare_credentials) (λ _ _ _ e _. e)
    | inl own ↦ elim (Bool-cases (any_entry secrets)) [
      | inr nothing ↦ rw (own, prepare_credentials, nothing, write_credentials) (λ _ _ _ e _. e)
      | inl present ↦
          rw (own, prepare_credentials, present, write_credentials)
            (bind_step (KeepsForeign s.cluster) (KeepsForeign-preorder s.cluster)
              (wrap store_credentials_error
                (Repo.create_or_update_secret s.cluster ns (conventional_secret req.name) secrets))
              _ w
              (rw
                (wrap_world store_credentials_error
                  (Repo.create_or_update_secret s.cluster ns (conventional_secret req.name) secrets)
                  w)
                (create_or_update_keeps s.cluster laws ns (conventional_secret req.name) secrets w))
              (λ _ _ _ _ _ e _. e))
    ]
  ]

  -- Once they were written, they are in a Secret of ours.
  pub prepare_ours :
      (ns : String) (req : ConnectionRequest F) (public : Dict (Value F)) (secrets : Dict String)
      (w : W) (p : Prepared F)
      → (prepare_credentials s ns req public secrets w).0 ≡ ok p
      → p.own_secret ≡ true
      → p.has_secrets ≡ true
      → Holds s.cluster
          (prepare_credentials s ns req public secrets w).1
          ns
          p.secret_name
          secrets
          (s.cluster.secret_at w ns p.secret_name)
  unfolding prepare_credentials write_credentials prepared_own prepared_existing
  prepare_ours ns req public secrets w p h own has =
      let name = conventional_secret req.name in
      let sent : (Repo.create_or_update_secret s.cluster ns name secrets w).0 ≡ ok tt =
        ground arith in
      let named : p.secret_name ≡ name = ground arith in
      let moved : (prepare_credentials s ns req public secrets w).1
          ≡ (Repo.create_or_update_secret s.cluster ns name secrets w).1 =
        ground arith in
      rw (named, moved) (create_or_update-Holds s.cluster laws ns name secrets w sent)
