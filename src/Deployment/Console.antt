-- ===== src/Deployment/Console.antt =====
-- The catalogue operations of internal/service/service_service.go over the Context of
-- internal/repository/context_repository.go and context_writer_repository.go: what a service that was
-- added means for the reads that follow.
use okdp_control_plane_serve.Base.{
  String, Bool, true, Option, none, some, List, ◌∷◌, ◌≡◌, ap, sym, refl, [], ltb, ◌-◌, Bool-cases,
  ◌∙◌, inl, inr, arith, Option-cases,
}
use mathlib.Core.List.{Perm}
use okdp_control_plane_serve.Base.Go.{ok, Action, raise, ◌>>◌}
use okdp_control_plane_serve.Base.Steps.{Result-cases, IsPreorder, bind_step}
use okdp_control_plane_serve.Base.Json.{Fields}
use okdp_control_plane_serve.Platform.Model.{PlatformService}
use okdp_control_plane_serve.Platform.Context.{
  ContextError, Unstructured, ContextApi, Cached, remember, fetch, get_context_from, get_context,
  invalidate, context_cache_ttl,
}
use okdp_control_plane_serve.Platform.Reading.{answer, services_in, get_platform_services}
use okdp_control_plane_serve.Platform.Writer as Writer
use okdp_control_plane_serve.Platform.Atomic.{
  Extends, Extends-trans, RetryLaw, UnstructuredLaws, ServerLaws,
}
use okdp_control_plane_serve.Platform.Refinement.{
  Storable, stored_form, Edit, perform, perform-Promise,
}
use okdp_control_plane_serve.Deployment.Cluster.{
  ServiceError, catalog_unread, catalog_invalid, exists,
}
use okdp_control_plane_serve.Deployment.Service.{wrap, service_named}
use okdp_control_plane_serve.Deployment.Deploy.{bind_ok_inv}
use okdp_control_plane_serve.Deployment.Catalog.{
  CatalogAccess, verified, missing_versions, validate_versions_in_registry, written, add_checked,
  or_raise, add_platform_service, normalize_and_validate_catalog_service,
}
use okdp_control_plane_serve.Deployment.Accepted.{normalize_and_validate_catalog_service-Accepted}

-- A call that acts on the world and leaves the cache.
unfoldable pub on_world : {W E A : Type 0} → Action W E A → Action (Cached W) E A
on_world m s = let (r, w) = m s.world in (r, record s { world = w })

module _ (k : Unstructured) {W : Type 0} (c : ContextApi W)
    (retry : Action W ContextError (Unit {0}) → Action W ContextError (Unit {0}))
    (package_tags : Option (String → String → Action (Cached W) ServiceError (List String)))
    (is_service_name : String → Bool) where
  -- The catalogue operations as the server wires them.
  abbrev pub console : CatalogAccess (Cached W)
  console = record {
    platform_services = get_platform_services k c;
    invalidate = invalidate;
    has_writer = true;
    add = λ s. on_world (Writer.add_platform_service k c retry s);
    update = λ name s. on_world (Writer.update_platform_service k c retry name s);
    remove = λ name. on_world (Writer.remove_platform_service k c retry name);
    package_tags = package_tags;
    is_service_name = is_service_name;
  }

  wrap_state :
      {D E A : Type 0} (f : D → E) (m : Action (Cached W) D A) (s : Cached W)
      → (wrap f m s).1 ≡ (m s).1
  unfolding wrap
  wrap_state f m s = ground arith

  verified_state : (missing : List String) (s : Cached W) → (verified console missing s).1 ≡ s
  unfolding verified
  verified_state [] s = refl
  verified_state (v ∷ vs) s = refl

  written_ok :
      (svc : PlatformService) (s : Cached W) (a : PlatformService)
      → (written console (on_world (Writer.add_platform_service k c retry svc)) svc s).0 ≡ ok a
      → (svc ≡ a)
        × ((Writer.add_platform_service k c retry svc s.world).0 ≡ ok tt)
        × ((written console (on_world (Writer.add_platform_service k c retry svc)) svc s).1
            ≡ invalidate
                (record s { world = (Writer.add_platform_service k c retry svc s.world).1 }))
  unfolding written wrap on_world
  written_ok svc s a h = elim (Result-cases (Writer.add_platform_service k c retry svc s.world).0) [
    | inr (e, failed) ↦ absurd (ground arith)
    | inl (t, done) ↦ (ground arith, done, ground arith)
  ]

  -- The state in which an addition writes: the catalogue was read and the versions were checked.
  abbrev pub at_write : PlatformService → Cached W → Cached W
  at_write a s =
      (validate_versions_in_registry console a
        (wrap catalog_unread (get_platform_services k c) s).1).1

  -- The state in which an addition of `a` ends, if it writes in `u`: the cache is empty.
  abbrev after_write : PlatformService → Cached W → Cached W
  after_write a u =
      invalidate (record u { world = (Writer.add_platform_service k c retry a u.world).1 })

  new_ok :
      (b : PlatformService) (v : Cached W) (a : PlatformService)
      → ((validate_versions_in_registry console b
            >> written console (on_world (Writer.add_platform_service k c retry b)) b)
          v).0
        ≡ ok a
      → (b ≡ a)
        × ((Writer.add_platform_service k c retry b
              (validate_versions_in_registry console b v).1.world).0
            ≡ ok tt)
        × (((validate_versions_in_registry console b
                >> written console (on_world (Writer.add_platform_service k c retry b)) b)
              v).1
            ≡ after_write b (validate_versions_in_registry console b v).1)
  new_ok b v a h =
      let write = written console (on_world (Writer.add_platform_service k c retry b)) b in
      let (t, checked, rest, same) =
        bind_ok_inv (validate_versions_in_registry console b) (λ _. write) v a h in
      let u = (validate_versions_in_registry console b v).1 in
      let (it, done, ended) = written_ok b u a rest in (it, done, ap (λ x. x.1) same ∙ ended)

  added_checked :
      (b : PlatformService) (s : Cached W) (a : PlatformService)
      → (add_checked console b s).0 ≡ ok a
      → (b ≡ a)
        × ((Writer.add_platform_service k c retry b (at_write b s).world).0 ≡ ok tt)
        × ((add_checked console b s).1 ≡ after_write b (at_write b s))
  unfolding add_checked
  added_checked b s a h =
      let read = wrap catalog_unread (get_platform_services k c) in
      let write =
        validate_versions_in_registry console b
        >> written console (on_world (Writer.add_platform_service k c retry b)) b in
      let next : List PlatformService → Action (Cached W) ServiceError PlatformService = λ existing.
        elim (service_named b.name existing) [ some x ↦ raise (exists b.name) | none ↦ write ] in
      let (existing, listed, rest, same) = bind_ok_inv read next s a h in
      elim (Option-cases (service_named b.name existing)) [
        | inr (x, there) ↦ absurd (ground arith)
        | inl new ↦
            let (it, done, ended) = new_ok b (read s).1 a (rw new at rest) in
            (it, done, ap (λ x. x.1) same ∙ rw new ended)
      ]

  -- An addition that succeeds ends with the write of the accepted service and an empty cache.
  added :
      (svc : PlatformService) (s : Cached W) (a : PlatformService)
      → (add_platform_service console svc s).0 ≡ ok a
      → (normalize_and_validate_catalog_service is_service_name svc ≡ ok a)
        × ((Writer.add_platform_service k c retry a (at_write a s).world).0 ≡ ok tt)
        × ((add_platform_service console svc s).1 ≡ after_write a (at_write a s))
  unfolding add_platform_service or_raise
  added svc s a h =
      elim (Result-cases (normalize_and_validate_catalog_service is_service_name svc)) [
        | inr (e, broken) ↦ absurd (ground arith)
        | inl (b, accepted) ↦
            let (it, done, ended) = added_checked b s a (rw accepted at h) in
            (
              rw accepted (ap (λ x. ok x) it),
              ap (λ x. (Writer.add_platform_service k c retry x (at_write x s).world).0) (sym it)
                  ∙ done,
              rw accepted ended ∙ ap (λ x. after_write x (at_write x s)) it,
            )
      ]

  module _ (version : Fields → String) (history : W → List Fields)
      (unstructured : UnstructuredLaws k version) (server : ServerLaws k version c history)
      (retries : RetryLaw retry) where
    -- The version `x` is among those that the server has stored in `w`, and it is the newest of the
    -- versions that were known or newer.
    abbrev pub ReadsSince : List Fields → Fields → W → Type 0
    ReadsSince known x w =
        (older : List Fields) × Extends known (x ∷ older) × Extends (x ∷ older) (history w)

    read_after :
        (s : Cached W) (x : Fields)
        → (get_context c (invalidate s)).0 ≡ ok x
        → ReadsSince (history s.world) x (get_context c (invalidate s)).1.world
    unfolding get_context get_context_from fetch remember invalidate
    read_after s x h = elim (Result-cases (c.get s.world).0) [
      | inr (e, failed) ↦ absurd (ground arith)
      | inl (y, got) ↦
          let (older, newest, there) = server.get_reads s.world y got in
          let it : y ≡ x = ground arith in
          let moved : (get_context c (invalidate s)).1.world ≡ (c.get s.world).1 = ground arith in
          (older, rw⁻¹ it newest, rw moved (rw⁻¹ it there))
    ]

    -- The history of the Context only grows.
    abbrev Grows : Cached W → Cached W → Type 0
    Grows s v = Extends (history s.world) (history v.world)

    Grows-preorder : IsPreorder Grows
    Grows-preorder = record {
      stay = λ w. ([], refl);
      join = λ u v w. Extends-trans (history u.world) (history v.world) (history w.world);
    }

    get_context-Grows : (s : Cached W) → Grows s (get_context c s).1
    unfolding get_context get_context_from fetch remember
    get_context-Grows s = go s.cached
      where
        fetched : Extends (history s.world) (history (fetch c s).1.world)
        fetched = elim (Result-cases (c.get s.world).0) [
          | inr (e, failed) ↦ rw failed (server.get_extends s.world)
          | inl (y, got) ↦ rw got (server.get_extends s.world)
        ]

        go : (cached : Option Fields) → Grows s (get_context_from c cached s).1
        go none = fetched
        go (some u) = elim (Bool-cases (ltb (c.now s.world - s.cached_at) context_cache_ttl)) [
          | inl fresh ↦ rw fresh ([], refl)
          | inr stale ↦ rw stale fetched
        ]

    read-Grows : (s : Cached W) → Grows s (wrap catalog_unread (get_platform_services k c) s).1
    unfolding get_platform_services answer
    read-Grows s = rw (wrap_state catalog_unread (get_platform_services k c) s) (
        bind_step Grows Grows-preorder (get_context c) _ s (get_context-Grows s)
          (λ u e. ([], refl)))

    -- The listing of the tags of a package does not take anything from the history.
    abbrev pub TagsGrow : Type 0
    TagsGrow =
        (tags : String → String → Action (Cached W) ServiceError (List String))
        → package_tags ≡ some tags
        → (name repository : String) (s : Cached W) → Grows s (tags name repository s).1

    check-Grows :
        TagsGrow
        → (a : PlatformService) (s : Cached W)
        → Grows s (validate_versions_in_registry console a s).1
    unfolding validate_versions_in_registry
    check-Grows grow a s = elim (Option-cases package_tags) [
      | inl unchecked ↦ rw unchecked ([], refl)
      | inr (tags, there) ↦ rw there (
          bind_step Grows Grows-preorder (wrap unverified (tags a.name a.repository)) _ s
            (rw (wrap_state unverified (tags a.name a.repository) s)
              (grow tags there a.name a.repository s))
            (λ found e. rw (verified_state (missing_versions found a.versions)) ([], refl)))
    ]
      where
        unverified : ServiceError → ServiceError
        unverified e = catalog_invalid "could not verify package in the registry"

    at_write-Grows : TagsGrow → (a : PlatformService) (s : Cached W) → Grows s (at_write a s)
    at_write-Grows grow a s =
        let v = (wrap catalog_unread (get_platform_services k c) s).1 in
        Grows-preorder.join s v (at_write a s) (read-Grows s) (check-Grows grow a v)

    -- A service that was added is in the catalogue, as it was accepted but for its icon, in a version of
    -- the Context that the server stored during the call, right after another which has all its other
    -- services. A later read, if it succeeds, returns that version or a later one that the server has
    -- stored by then, and never what was cached before. The listing of the tags of a package, where the
    -- versions are checked, takes nothing from the history.
    pub add_platform_service_reads :
        TagsGrow
        → (svc : PlatformService) (s : Cached W) (a : PlatformService)
        → (add_platform_service console svc s).0 ≡ ok a
        → (prev stored : Fields) × (early : List Fields) × (before after : List PlatformService)
          × Extends (history s.world) (prev ∷ early)
          × Extends (stored ∷ prev ∷ early) (history (add_platform_service console svc s).1.world)
          × (services_in k prev ≡ ok before)
          × (services_in k stored ≡ ok after)
          × Perm after (stored_form a ∷ before)
          × ((x : Fields)
              → (get_context c (add_platform_service console svc s).1).0 ≡ ok x
              → ReadsSince
                  (stored ∷ prev ∷ early)
                  x
                  (get_context c (add_platform_service console svc s).1).1.world)
    unfolding perform invalidate
    add_platform_service_reads grow svc s a h =
        let (accepted, done, ended) = added svc s a h in
        let storable : Storable a =
          (normalize_and_validate_catalog_service-Accepted is_service_name svc a accepted).1 in
        let u = at_write a s in
        let (prev, stored, early, before, after, newer, there, had, has, kept) =
          perform-Promise k version c history unstructured server retry retries (Edit.add a) u.world
            storable done in
        let v : Cached W = record u {
          world = (Writer.add_platform_service k c retry a u.world).1;
        } in
        (
          prev,
          stored,
          early,
          before,
          after,
          Extends-trans _ _ _ (at_write-Grows grow a s) newer,
          rw ended there,
          had,
          has,
          kept,
          λ x read.
              let (older, newest, known) = read_after v x (rw ended at read) in
              (older, Extends-trans _ _ _ there newest, rw ended known),
        )
