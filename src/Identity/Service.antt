-- ===== src/Identity/Service.antt =====
-- The operations on users and groups: internal/service/identity_service.go. The hash of a password
-- is a parameter, bcrypt, whose `none` is its error. Where the code ranges over a map of groups, the
-- model takes the order of the list.
use okdp_control_plane_serve.Base.{
  String, Option, none, some, List, [], ◌∷◌, ◌==◌, contains, if◌then◌else◌, zero, suc, ◌++◌,
}
use okdp_control_plane_serve.Base.Dict.{Dict, lookup}
use okdp_control_plane_serve.Base.Go.{ok, err, Action, pure, raise, try, ◌>>=◌, ◌>>◌}
use okdp_control_plane_serve.Base.Int.{ℤ, pos, negsuc}
use okdp_control_plane_serve.Identity.Model.{User, Group, GroupBinding, CrdUser, CrdGroup}
use okdp_control_plane_serve.Identity.Repository as Repo
use okdp_control_plane_serve.Identity.Repository.{
  IdentityRepository, IdentityError, hashing, not_bound,
}

-- `if user.UID > 0 { crdUser.Spec.Uid = &user.UID }`
unfoldable pub positive_uid : ℤ → Option ℤ
positive_uid (pos zero) = none
positive_uid (pos (suc n)) = some (pos (suc n))
positive_uid (negsuc n) = none

-- The object that `CreateUser` and `UpdateUser` write.
unfoldable pub crd_user : String → User → String → CrdUser
unfolding positive_uid
crd_user object_name user password_hash = record {
  object_name = object_name;
  resource_version = "";
  name = user.name;
  emails = user.email;
  password_hash = password_hash;
  uid = positive_uid user.uid;
  comment = user.comment;
  claims = none;
  disabled = some user.disabled;
}

unfoldable pub crd_group : String → Group → CrdGroup
crd_group object_name group = record {
  object_name = object_name;
  resource_version = "";
  comment = group.description;
  claims = none;
}

-- `append(m[k], v)` on a map of lists.
unfoldable pub append_at : String → String → Dict (List String) → Dict (List String)
append_at k v [] = (k, v ∷ []) ∷ []
append_at k v ((j, vs) ∷ m) =
    let rest = append_at k v m in if j == k then (j, vs ++ v ∷ []) ∷ m else (j, vs) ∷ rest

-- `bindingMap`
unfoldable pub binding_map : Dict (List String) → List GroupBinding → Dict (List String)
unfolding append_at
binding_map m [] = m
binding_map m (b ∷ bs) = binding_map (append_at b.user b.group m) bs

unfoldable pub with_groups : Dict (List String) → List User → List User
with_groups m [] = []
with_groups m (u ∷ us) =
    record u { groups = elim (lookup u.username m) [ none ↦ [] | some gs ↦ gs ] } ∷ with_groups m us

unfoldable pub groups_of : List GroupBinding → List String
groups_of [] = []
groups_of (b ∷ bs) = b.group ∷ groups_of bs

-- The keys of the map that a list of groups fills, once each.
unfoldable pub distinct : List String → List String
distinct [] = []
distinct (g ∷ gs) = let rest = distinct gs in if contains rest g then rest else g ∷ rest

module _ {W : Type 0} (r : IdentityRepository W) (hash : String → Option String) where
  unfoldable pub list_users : Action W IdentityError (List User)
  unfolding binding_map with_groups
  list_users = do
    users ← Repo.list_users r
    try (Repo.list_group_bindings r "") (λ found. elim found [
      | err _ ↦ pure users
      | ok bindings ↦ pure (with_groups (binding_map [] bindings) users)
    ])

  unfoldable pub get_user : String → Action W IdentityError User
  unfolding groups_of
  get_user name = do
    user ← Repo.get_user r name
    try (Repo.list_group_bindings r name) (λ found. elim found [
      | err _ ↦ pure user
      | ok bindings ↦ pure (record user { groups = groups_of bindings })
    ])

  -- The hash of the submitted password, or the empty text where there is none.
  unfoldable pub password_hash : User → Action W IdentityError String
  password_hash user =
      if user.password == ""
      then pure ""
      else elim (hash user.password) [ none ↦ raise hashing | some h ↦ pure h ]

  -- The bindings of a new user: the first that fails ends the loop.
  unfoldable pub bind_all : String → List String → Action W IdentityError (Unit {0})
  bind_all username [] = pure tt
  bind_all username (g ∷ gs) =
      try (Repo.create_group_binding r username g)
        (λ bound. elim bound [ err e ↦ raise (not_bound g e) | ok _ ↦ bind_all username gs ])

  unfoldable pub create_user : User → Action W IdentityError (Unit {0})
  unfolding password_hash crd_user bind_all
  create_user user = do
    h ← password_hash user
    Repo.create_user r (crd_user user.username user h)
    bind_all user.username user.groups

  -- The new groups; what a binding answers is not looked at.
  unfoldable pub add_missing :
      String → List String → List String → Action W IdentityError (Unit {0})
  add_missing name current [] = pure tt
  add_missing name current (g ∷ gs) =
      if contains current g
      then add_missing name current gs
      else try (Repo.create_group_binding r name g) (λ _. add_missing name current gs)

  unfoldable pub remove_old : String → List String → List String → Action W IdentityError (Unit {0})
  remove_old name wanted [] = pure tt
  remove_old name wanted (g ∷ gs) =
      if contains wanted g
      then remove_old name wanted gs
      else try (Repo.delete_group_binding_by_ref r name g) (λ _. remove_old name wanted gs)

  -- The last part of `UpdateUser`.
  unfoldable pub sync_groups : String → List String → Action W IdentityError (Unit {0})
  unfolding add_missing remove_old groups_of distinct
  sync_groups name wanted = do
    bindings ← Repo.list_group_bindings r name
    let current = groups_of bindings
    add_missing name current (distinct wanted)
    remove_old name wanted (distinct current)

  unfoldable pub kept_hash : String → User → String
  kept_hash h existing = if h == "" then existing.password_hash else h

  unfoldable pub update_user : String → User → Action W IdentityError (Unit {0})
  unfolding password_hash crd_user sync_groups kept_hash
  update_user name user = do
    existing ← Repo.get_user r name
    h ← password_hash user
    Repo.update_user r (crd_user name user (kept_hash h existing))
    sync_groups name user.groups

  -- The bindings of a user that is deleted; what each deletion answers is not looked at.
  unfoldable pub unbind_all : String → List GroupBinding → Action W IdentityError (Unit {0})
  unbind_all name [] = pure tt
  unbind_all name (b ∷ bs) =
      try (Repo.delete_group_binding_by_ref r name b.group) (λ _. unbind_all name bs)

  unfoldable pub delete_user : String → Action W IdentityError (Unit {0})
  unfolding unbind_all
  delete_user name = try (Repo.list_group_bindings r name) (λ found. elim found [
    | err _ ↦ Repo.delete_user r name
    | ok bindings ↦ unbind_all name bindings >> Repo.delete_user r name
  ])

  unfoldable pub create_group : Group → Action W IdentityError (Unit {0})
  unfolding crd_group
  create_group group = Repo.create_group r (crd_group group.name group)

  unfoldable pub update_group : String → Group → Action W IdentityError (Unit {0})
  unfolding crd_group
  update_group name group = Repo.update_group r (crd_group name group)

  unfoldable pub assign_user_to_group : String → String → Action W IdentityError (Unit {0})
  assign_user_to_group user group = Repo.create_group_binding r user group

  unfoldable pub remove_user_from_group : String → String → Action W IdentityError (Unit {0})
  remove_user_from_group user group = Repo.delete_group_binding_by_ref r user group
