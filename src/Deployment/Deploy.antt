-- ===== src/Deployment/Deploy.antt =====
-- What a deployment that reports success has done (`DeployService` of
-- internal/service/service_service.go).
use Prim.Native.String.{◌++◌}
use okdp_control_plane_serve.Base.{
  test_false_ne, refl, sym, String, true, Option, none, some, List, [], ◌∷◌, ◌≡◌, ap, ◌∙◌, inl, inr,
  ◌==◌, arith, Bool-cases, eq_of_test,
}
use mathlib.Core.List.{Mem, mem-cons_self, mem-cons_of_mem}
use okdp_control_plane_serve.Base.Go.{ok, Action, ◌>>=◌}
use okdp_control_plane_serve.Base.Steps.{Result-cases, bind-ok, bind-err}
use okdp_control_plane_serve.Platform.Model.{PlatformService}
use okdp_control_plane_serve.Deployment.Model.{Release, ServiceRequest, ServiceInstance, Defaulted}
use okdp_control_plane_serve.Deployment.Names.{insecure_oci_host}
use okdp_control_plane_serve.Deployment.Instance.{release_to_instance}
use okdp_control_plane_serve.Deployment.Cluster as Cluster
use okdp_control_plane_serve.Deployment.Cluster.{
  ServiceError, catalog_unread, repository_unresolved, suffix_unresolved,
}
use okdp_control_plane_serve.Deployment.Service.{
  Services, wrap, or_else, service_named, found_or, resolve_platform_service, validate_parameters,
  release_name_of, new_release, deploy_release, deploy_service,
}

-- A chain of two calls that succeeds has two that succeed.
pub bind_ok_inv :
    {W E A B : Type 0} (m : Action W E A) (f : A → Action W E B) (w : W) (b : B)
    → ((m >>= f) w).0 ≡ ok b
    → (a : A) × ((m w).0 ≡ ok a) × ((f a (m w).1).0 ≡ ok b) × ((m >>= f) w ≡ f a (m w).1)
bind_ok_inv m f w b h = elim (Result-cases (m w).0) [
  | inl (a, e) ↦ (a, e, rw (bind-ok m f w a e) at h, bind-ok m f w a e)
  | inr (d, e) ↦ absurd (ground (arith, bind-err m f w d e))
]

pub wrap_ok_inv :
    {W D E A : Type 0} (f : D → E) (m : Action W D A) (w : W) (a : A)
    → (wrap f m w).0 ≡ ok a
    → ((m w).0 ≡ ok a) × ((wrap f m w).1 ≡ (m w).1)
unfolding wrap
wrap_ok_inv f m w a h = elim (Result-cases (m w).0) [
  | inl (b, e) ↦ (ground arith, ground arith)
  | inr (d, e) ↦ absurd (ground arith)
]

pair_of : {A B : Type 0} (x : A × B) {a : A} {b : B} → x.0 ≡ a → b ≡ x.1 → x ≡ (a, b)
pair_of x e d i = (e i, sym d i)

-- A call that succeeds under the service's name for its error succeeds with the same world.
returned :
    {W D E A : Type 0} (f : D → E) (m : Action W D A) (w : W) (a : A)
    → (wrap f m w).0 ≡ ok a
    → m w ≡ (ok a, (wrap f m w).1)
returned f m w a h =
    let (e, same) = wrap_ok_inv f m w a h in
    ap (λ x. (x, (m w).1)) e ∙ ap (λ v. (ok a, v)) (sym same)

service_named-mem :
    (name : String) (services : List PlatformService) (svc : PlatformService)
    → service_named name services ≡ some svc
    → Mem svc services × (svc.name ≡ name)
unfolding service_named
service_named-mem name [] svc h = absurd (ground arith)
service_named-mem name (s ∷ ss) svc h = elim (Bool-cases (s.name == name)) [
  | inl it ↦
      let same : s ≡ svc = ground arith in
      (rw same mem-cons_self, rw⁻¹ same (eq_of_test s.name name it))
  | inr other ↦
      let (m, e) = service_named-mem name ss svc (rw other at h) in (mem-cons_of_mem s m, e)
]

module _ {W : Type 0} (s : Services W) where
  resolved :
      (name : String) (w : W) (svc : PlatformService)
      → (resolve_platform_service s name w).0 ≡ ok svc
      → (services : List PlatformService) × (s.contexts.platform_services w
          ≡ (ok services, (resolve_platform_service s name w).1))
        × Mem svc services
        × (svc.name ≡ name)
  unfolding resolve_platform_service found_or
  resolved name w svc h =
      let (services, read, found, same) =
        bind_ok_inv (wrap catalog_unread s.contexts.platform_services)
          (λ l. found_or s name (service_named name l)) w svc h in
      let (m, e) = service_named-mem name services svc (
        found_inv name (service_named name services)
          (wrap catalog_unread s.contexts.platform_services w).1 svc found) in
      let state = ap (λ x. x.1) same ∙ found_state name (service_named name services) _ in
      (
        services,
        returned catalog_unread s.contexts.platform_services w services read
            ∙ ap (λ v. (ok services, v)) (sym state),
        m,
        e,
      )
    where
      found_state :
          (name : String) (o : Option PlatformService) (v : W) → (found_or s name o v).1 ≡ v
      found_state name none v = refl
      found_state name (some x) v = refl

      found_inv :
          (name : String) (o : Option PlatformService) (v : W) (svc : PlatformService)
          → (found_or s name o v).0 ≡ ok svc
          → o ≡ some svc
      found_inv name none v svc h = absurd (ground arith)
      found_inv name (some x) v svc h = ground arith

  deployed :
      (release : Release) (suffix : String) (v : W) (i : ServiceInstance)
      → (deploy_release s release suffix v).0 ≡ ok i
      → (s.cluster.encodes release ≡ true)
        × ((s.cluster.create_release release.namespace release v).0 ≡ ok tt)
        × ((deploy_release s release suffix v).1
            ≡ (s.cluster.create_release release.namespace release v).1)
        × (i ≡ record (release_to_instance release) {
          url = "https://" ++ release.name ++ "." ++ suffix;
        })
  unfolding deploy_release Cluster.create
  deployed release suffix v i h = elim (Bool-cases (s.cluster.encodes release)) [
    | inr broken ↦ absurd (ground arith)
    | inl encodes ↦ elim (Result-cases (s.cluster.create_release release.namespace release v).0) [
      | inr (e, refused) ↦ absurd (ground arith)
      | inl (t, created) ↦ (encodes, created, ground arith, ground arith)
    ]
  ]

  -- The Release that a request asks for, with the instance, the tag and the repository that were
  -- chosen for it.
  pub record Requested (project : String) (req : ServiceRequest)
      (instance_name tag repository : String) (release : Release) : Type 0 where
    pub named : release.name ≡ project ++ "-" ++ instance_name
    pub placed : release.namespace ≡ project
    pub labelled :
        release.labels
        ≡ ("okdp.io/project", project)
          ∷ ("okdp.io/service", req.service)
          ∷ ("okdp.io/instance-name", instance_name)
          ∷ []
    pub of_repository : release.spec.release_package.repository ≡ repository ++ "/" ++ req.service
    pub tagged : release.spec.release_package.tag ≡ tag
    pub polled : release.spec.release_package.interval ≡ s.release_interval
    pub bounded : release.spec.release_package.timeout ≡ s.release_timeout
    pub fetched :
        release.spec.release_package.insecure ≡ insecure_oci_host repository s.insecure_registries
    pub parametrised : release.spec.parameters ≡ req.parameters
    pub targeted : release.spec.target_namespace ≡ project

  or_else-Defaulted : (given other : String) → Defaulted given other (or_else given other)
  unfolding or_else
  or_else-Defaulted given other = elim (Bool-cases (given == "")) [
    | inl blank ↦ inl (eq_of_test given "" blank, rw blank)
    | inr full ↦ inr (test_false_ne given "" full, rw full)
  ]

  new_release-Requested :
      (project : String) (req : ServiceRequest) (svc : PlatformService) (repository : String)
      → Requested project req
          (or_else req.instance_name req.service)
          (or_else req.tag svc.default_version)
          (or_else svc.repository repository)
          (new_release s project req svc repository)
  unfolding new_release release_name_of
  new_release-Requested project req svc repository = record {
    named = refl;
    placed = refl;
    labelled = refl;
    of_repository = refl;
    tagged = refl;
    polled = refl;
    bounded = refl;
    fetched = refl;
    parametrised = refl;
    targeted = refl;
  }

  -- The calls of a deployment, one after the other: the catalogue is read, the parameters are validated
  -- for the tag, the repository of the packages and the suffix of the hosts are read, and the Release is
  -- created in the project's namespace.
  abbrev pub Calls :
      String
      → ServiceRequest
      → String
      → Release
      → List PlatformService
      → String
      → String
      → W
      → W
      → Type 0
  Calls project req tag release services package_repository suffix w w' =
      (w1 w2 w3 w4 : W) × (s.contexts.platform_services w ≡ (ok services, w1))
      × (validate_parameters s req.service tag req.parameters w1 ≡ (ok tt, w2))
      × (s.contexts.package_repository w2 ≡ (ok package_repository, w3))
      × (s.contexts.ingress_suffix w3 ≡ (ok suffix, w4))
      × (s.cluster.create_release project release w4 ≡ (ok tt, w'))

  -- A deployment that reports success chose a service of the requested name from the catalogue. It
  -- validated the parameters for one tag, the requested one or else the service's default, and created
  -- the Release that was asked for, with that same tag, the requested instance name or else the name of
  -- the service, and the repository of the service or else that of the platform. Besides reading the
  -- catalogue, the repository and the suffix of the hosts, it did nothing else. It returns what is read
  -- from the Release, with the URL under that suffix.
  pub deploy_service-Created :
      (project : String) (req : ServiceRequest) (w : W) (i : ServiceInstance)
      → (deploy_service s project req w).0 ≡ ok i
      → (services : List PlatformService) × (svc : PlatformService) × (release : Release)
        × (instance_name tag repository package_repository suffix : String) × Mem svc services
        × (svc.name ≡ req.service)
        × Defaulted req.instance_name req.service instance_name
        × Defaulted req.tag svc.default_version tag
        × Defaulted svc.repository package_repository repository
        × Requested project req instance_name tag repository release
        × Calls project req tag release services package_repository suffix w
            (deploy_service s project req w).1
        × (i ≡ record (release_to_instance release) {
          url = "https://" ++ release.name ++ "." ++ suffix;
        })
  unfolding deploy_service new_release
  deploy_service-Created project req w i h = elim (Bool-cases (req.service == "")) [
    | inl blank ↦ absurd (ground arith)
    | inr named ↦
        let last = λ (svc : PlatformService) (repository suffix : String).
          deploy_release s (new_release s project req svc repository) suffix in
        let third = λ (svc : PlatformService) (repository : String).
          wrap suffix_unresolved s.contexts.ingress_suffix >>= last svc repository in
        let second = λ (svc : PlatformService) (t : Unit {0}).
          wrap repository_unresolved s.contexts.package_repository >>= third svc in
        let checked = λ (svc : PlatformService).
          validate_parameters s req.service (or_else req.tag svc.default_version) req.parameters in
        let first = λ (svc : PlatformService). checked svc >>= second svc in
        let (svc, b1, r1, e1) =
          bind_ok_inv (resolve_platform_service s req.service) first w i (rw named at h) in
        let w1 = (resolve_platform_service s req.service w).1 in
        let (services, read, m, name) = resolved req.service w svc b1 in
        let (t, b2, r2, e2) = bind_ok_inv (checked svc) (second svc) w1 i r1 in
        let w2 = (checked svc w1).1 in
        let repo_call = wrap repository_unresolved s.contexts.package_repository in
        let (repository, b3, r3, e3) = bind_ok_inv repo_call (third svc) w2 i r2 in
        let w3 = (repo_call w2).1 in
        let suffix_call = wrap suffix_unresolved s.contexts.ingress_suffix in
        let (suffix, b4, r4, e4) = bind_ok_inv suffix_call (last svc repository) w3 i r3 in
        let v = (suffix_call w3).1 in
        let release = new_release s project req svc repository in
        let (encodes, created, ended, shown) = deployed release suffix v i r4 in
        let whole : (deploy_service s project req w).1
            ≡ (s.cluster.create_release project release v).1 =
          rw named (ap (λ x. x.1) (e1 ∙ e2 ∙ e3 ∙ e4) ∙ ended) in
        (
          services,
          svc,
          release,
          or_else req.instance_name req.service,
          or_else req.tag svc.default_version,
          or_else svc.repository repository,
          repository,
          suffix,
          m,
          name,
          or_else-Defaulted req.instance_name req.service,
          or_else-Defaulted req.tag svc.default_version,
          or_else-Defaulted svc.repository repository,
          new_release-Requested project req svc repository,
          (
            w1,
            w2,
            w3,
            v,
            read,
            ap (λ x. (x, w2)) b2,
            returned repository_unresolved s.contexts.package_repository w2 repository b3,
            returned suffix_unresolved s.contexts.ingress_suffix w3 suffix b4,
            pair_of (s.cluster.create_release project release v) created whole,
          ),
          shown,
        )
  ]
