-- ===== src/Identity/Laws.antt =====
-- What an edit of a user does to the stored user and to its password, and what it reports.
use Prim.Native.String
use okdp_control_plane_serve.Base.{
  String, Option, some, List, [], ◌∷◌, ◌≡◌, refl, ◌≢◌, ◌⊎◌, inl, inr, arith, ◌==◌, contains,
  Bool-cases, Option-cases, ◌∙◌, eq_of_test, test_ne,
}
use okdp_control_plane_serve.Base.Go.{ok, ◌>>◌}
use okdp_control_plane_serve.Base.Steps.{Result-cases, IsPreorder, bind_step, bind-ok}
use okdp_control_plane_serve.Identity.Model.{User, GroupBinding, CrdUser, CrdGroupBinding}
use okdp_control_plane_serve.Identity.Repository as Repo
use okdp_control_plane_serve.Identity.Repository.{
  Item, IdentityError, IdentityRepository, delete_group_binding, delete_group_binding_by_ref,
  create_group_binding, list_group_bindings,
}
use okdp_control_plane_serve.Identity.Service.{
  crd_user, groups_of, distinct, add_missing, remove_old, sync_groups, kept_hash, password_hash,
  update_user,
}

module _ {W : Type 0} (r : IdentityRepository W) (user_at : W → String → Option CrdUser) where
  abbrev pub SameUsers : W → W → Type 0
  SameUsers w w' = (n : String) → user_at w' n ≡ user_at w n

  -- What the code relies on of the API: `user_at` is what is stored, a read changes no user, an update
  -- stores what it is given, and the calls on bindings change no user.
  pub record UserLaws : Type 0 where
    pub get_reads : (n : String) (w : W) → SameUsers w (r.users.get n w).1
    pub get_finds :
        (n : String) (w : W) (item : Item CrdUser) (u : CrdUser)
        → (r.users.get n w).0 ≡ ok item
        → item.object ≡ some u
        → user_at w n ≡ some u
    pub update_stores :
        (u : CrdUser) (w : W)
        → (r.users.update u w).0 ≡ ok tt
        → (stored : CrdUser) × (user_at (r.users.update u w).1 u.object_name ≡ some stored)
          × (stored.password_hash ≡ u.password_hash)
          × (stored.disabled ≡ u.disabled)
    pub list_bindings : (w : W) → SameUsers w (r.bindings.list w).1
    pub create_binding : (b : CrdGroupBinding) (w : W) → SameUsers w (r.bindings.create b w).1
    pub delete_binding : (n : String) (w : W) → SameUsers w (r.bindings.delete n w).1

  pub SameUsers-preorder : IsPreorder SameUsers
  SameUsers-preorder = record { stay = λ w n. refl; join = λ u v w f g n. g n ∙ f n }

module _ {W : Type 0} (r : IdentityRepository W) (hash : String → Option String) where
  add_missing_ok :
      (name : String) (current gs : List String) (w : W)
      → (add_missing r hash name current gs w).0 ≡ ok tt
  unfolding add_missing
  add_missing_ok name current [] w = refl
  add_missing_ok name current (g ∷ gs) w = elim (Bool-cases (contains current g)) [
    | inl bound ↦ rw (bound, add_missing) (add_missing_ok name current gs w)
    | inr new ↦ rw (new, add_missing) (add_missing_ok name current gs _)
  ]

  remove_old_ok :
      (name : String) (wanted gs : List String) (w : W)
      → (remove_old r hash name wanted gs w).0 ≡ ok tt
  unfolding remove_old
  remove_old_ok name wanted [] w = refl
  remove_old_ok name wanted (g ∷ gs) w = elim (Bool-cases (contains wanted g)) [
    | inl stays ↦ rw (stays, remove_old) (remove_old_ok name wanted gs w)
    | inr old ↦ rw (old, remove_old) (remove_old_ok name wanted gs _)
  ]

  -- Once the bindings of a user could be listed, the synchronisation of its groups reports success,
  -- whatever the creations and deletions of bindings answered.
  pub sync_groups_ok :
      (name : String) (wanted : List String) (w : W) {bindings : List GroupBinding}
      → (list_group_bindings r name w).0 ≡ ok bindings
      → (sync_groups r hash name wanted w).0 ≡ ok tt
  unfolding sync_groups
  sync_groups_ok name wanted w {bindings} listed =
      let current = groups_of bindings in
      let next = λ (bs : List GroupBinding).
        add_missing r hash name (groups_of bs) (distinct wanted)
        >> remove_old r hash name wanted (distinct (groups_of bs)) in
      let v = (list_group_bindings r name w).1 in
      rw
        (
          bind-ok (list_group_bindings r name) next w bindings listed,
          bind-ok (add_missing r hash name current (distinct wanted))
              (λ _. remove_old r hash name wanted (distinct current)) v tt
              (add_missing_ok name current (distinct wanted) v),
        )
        (remove_old_ok name wanted (distinct current) _)

module _ {W : Type 0} (r : IdentityRepository W) (hash : String → Option String)
    (user_at : W → String → Option CrdUser) (laws : UserLaws r user_at) where
  abbrev Same : W → W → Type 0
  Same = SameUsers r user_at

  bind-Same : (user group : String) (w : W) → Same w (create_group_binding r user group w).1
  unfolding create_group_binding
  bind-Same user group w n = ground (
    arith,
    laws.create_binding
        (record {
          object_name = String.◌++◌ (r.to_lower user) (String.◌++◌ "-" (r.to_lower group));
          user = user;
          group = group;
        })
        w n,
  )

  unbind-Same :
      (user group : String) (w : W) → Same w (delete_group_binding_by_ref r user group w).1
  unfolding delete_group_binding_by_ref delete_group_binding
  unbind-Same user group w =
      bind_step Same (SameUsers-preorder r user_at) r.bindings.list _ w (laws.list_bindings w)
        (λ items e. elim (Option-cases (Repo.binding_named user group items)) [
          | inl none_found ↦ rw none_found (λ n. refl)
          | inr (b, found) ↦ rw found (laws.delete_binding b _)
        ])

  list-Same : (name : String) (w : W) → Same w (list_group_bindings r name w).1
  unfolding list_group_bindings
  list-Same name w n = ground (arith, laws.list_bindings w n)

  add-Same :
      (name : String) (current gs : List String) (w : W)
      → Same w (add_missing r hash name current gs w).1
  unfolding add_missing
  add-Same name current [] w = λ n. refl
  add-Same name current (g ∷ gs) w = elim (Bool-cases (contains current g)) [
    | inl bound ↦ rw (bound, add_missing) (add-Same name current gs w)
    | inr new ↦
        rw (new, add_missing)
          ((SameUsers-preorder r user_at).join w _ _ (bind-Same name g w)
            (add-Same name current gs (create_group_binding r name g w).1))
  ]

  remove-Same :
      (name : String) (wanted gs : List String) (w : W)
      → Same w (remove_old r hash name wanted gs w).1
  unfolding remove_old
  remove-Same name wanted [] w = λ n. refl
  remove-Same name wanted (g ∷ gs) w = elim (Bool-cases (contains wanted g)) [
    | inl stays ↦ rw (stays, remove_old) (remove-Same name wanted gs w)
    | inr old ↦
        rw (old, remove_old)
          ((SameUsers-preorder r user_at).join w _ _ (unbind-Same name g w)
            (remove-Same name wanted gs (delete_group_binding_by_ref r name g w).1))
  ]

  sync-Same :
      (name : String) (wanted : List String) (w : W) → Same w (sync_groups r hash name wanted w).1
  unfolding sync_groups
  sync-Same name wanted w =
      bind_step Same (SameUsers-preorder r user_at) (list_group_bindings r name)
        (λ (bs : List GroupBinding).
          add_missing r hash name (groups_of bs) (distinct wanted)
          >> remove_old r hash name wanted (distinct (groups_of bs)))
        w (list-Same name w)
        (λ bs e.
          bind_step Same (SameUsers-preorder r user_at)
            (add_missing r hash name (groups_of bs) (distinct wanted))
            (λ _. remove_old r hash name wanted (distinct (groups_of bs))) _
            (add-Same name (groups_of bs) (distinct wanted) _)
            (λ u d. remove-Same name wanted (distinct (groups_of bs)) _))

  get_user_hash :
      (name : String) (w : W) (u : User)
      → (Repo.get_user r name w).0 ≡ ok u
      → (old : CrdUser) × (user_at w name ≡ some old) × (u.password_hash ≡ old.password_hash)
  unfolding Repo.get_user
  get_user_hash name w u h = elim (Result-cases (r.users.get name w).0) [
    | inr (e, failed) ↦ absurd (ground arith)
    | inl (item, found) ↦ elim (Option-cases item.object) [
      | inl opaque ↦ absurd (ground arith)
      | inr (old, decoded) ↦ (old, laws.get_finds name w item old found decoded, ground arith)
    ]
  ]

  update_stores :
      (u : CrdUser) (w : W)
      → (Repo.update_user r u w).0 ≡ ok tt
      → (stored : CrdUser) × (user_at (Repo.update_user r u w).1 u.object_name ≡ some stored)
        × (stored.password_hash ≡ u.password_hash)
        × (stored.disabled ≡ u.disabled)
  unfolding Repo.update_user
  update_stores u w h = elim (Result-cases (r.users.get u.object_name w).0) [
    | inr (e, failed) ↦ absurd (ground arith)
    | inl (item, found) ↦
        let v = (r.users.get u.object_name w).1 in
        let sent : CrdUser = record u { resource_version = item.version } in
        let done : (r.users.update sent v).0 ≡ ok tt = ground arith in
        let moved : (Repo.update_user r u w).1 ≡ (r.users.update sent v).1 = ground arith in
        rw moved (laws.update_stores sent v done)
  ]

  -- The hash that an edit stores: that of the new password, or the one that there was.
  abbrev pub Chosen : User → String → String → Type 0
  Chosen user old chosen =
      ((user.password ≡ "") × (chosen ≡ old))
      ⊎ ((h : String) × (hash user.password ≡ some h) × (chosen ≡ h))

  password_hash_world : (user : User) (w : W) → (password_hash r hash user w).1 ≡ w
  unfolding password_hash
  password_hash_world user w = ground arith

  kept_hash-Chosen :
      (user existing : User) (h : String) (w : W)
      → ((p g : String) → hash p ≡ some g → g ≢ "")
      → (password_hash r hash user w).0 ≡ ok h
      → Chosen user existing.password_hash (kept_hash r hash h existing)
  unfolding password_hash kept_hash
  kept_hash-Chosen user existing h w nonempty e = elim (Bool-cases (user.password == "")) [
    | inl blank ↦ let it : h ≡ "" = ground arith in inl (eq_of_test user.password "" blank, rw it)
    | inr given ↦ elim (Option-cases (hash user.password)) [
      | inl broken ↦ absurd (ground arith)
      | inr (g, made) ↦
          let it : h ≡ g = ground arith in
          inr (g, made, rw (it, test_ne g "" (nonempty user.password g made)))
    ]
  ]

  -- An edit that succeeds had a stored user, and leaves one under the same name, disabled as the
  -- request says. Its password hash is that of the submitted password, and the one it had before where
  -- the request has no password, given that no hash is the empty text.
  pub update_user-Chosen :
      (name : String) (user : User) (w : W)
      → ((p g : String) → hash p ≡ some g → g ≢ "")
      → (update_user r hash name user w).0 ≡ ok tt
      → (old stored : CrdUser) × (user_at w name ≡ some old)
        × (user_at (update_user r hash name user w).1 name ≡ some stored)
        × (stored.disabled ≡ some user.disabled)
        × Chosen user old.password_hash stored.password_hash
  unfolding update_user crd_user
  update_user-Chosen name user w nonempty done = elim (Result-cases (Repo.get_user r name w).0) [
    | inr (e, missing) ↦ absurd (ground arith)
    | inl (existing, found) ↦
        elim (Result-cases (password_hash r hash user (Repo.get_user r name w).1).0) [
          | inr (e, broken) ↦ absurd (ground arith)
          | inl (h, hashed) ↦
              let v = (Repo.get_user r name w).1 in
              let sent = crd_user name user (kept_hash r hash h existing) in
              let same : (password_hash r hash user v).1 ≡ v = password_hash_world user v in
              elim (Result-cases (Repo.update_user r sent v).0) [
                | inr (e, refused) ↦ absurd (ground arith)
                | inl (u, written) ↦
                    let (old, at, kept) = get_user_hash name w existing found in
                    let (stored, there, ph, flag) = update_stores sent v written in
                    let moved : (update_user r hash name user w).1
                        ≡ (sync_groups r hash name user.groups (Repo.update_user r sent v).1).1 =
                      ground arith in
                    (
                      old,
                      stored,
                      at,
                      rw moved
                          (sync-Same name user.groups (Repo.update_user r sent v).1 name ∙ there),
                      flag,
                      rw (ph, ← kept) (kept_hash-Chosen user existing h v nonempty hashed),
                    )
              ]
        ]
  ]
