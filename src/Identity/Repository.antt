-- ===== src/Identity/Repository.antt =====
-- Access to the kubauth objects: internal/repository/identity_repository.go. The dynamic client is a
-- parameter, one `Objects` for each of the three resources, in the namespace that the platform names.
use Prim.Native.String
use okdp_control_plane_serve.Base.{
  String, Bool, false, Option, none, some, List, [], ◌∷◌, ◌==◌, ◌&&◌, not, if◌then◌else◌,
}
use okdp_control_plane_serve.Base.Go.{Action, pure, raise, ◌>>=◌}
use okdp_control_plane_serve.Base.Int.{pos}
use okdp_control_plane_serve.Identity.Model.{
  User, Group, GroupBinding, CrdUser, CrdGroup, CrdGroupBinding,
}

-- An unstructured object: its name and version, and what it converts to, if it does.
pub record Item (T : Type 0) : Type 0 where
  pub name : String
  pub version : String
  pub object : Option T

pub data IdentityError : Type 0 where
  api : String → IdentityError
  conversion hashing : IdentityError
  binding_not_found : String → String → IdentityError
  not_bound : String → IdentityError → IdentityError

-- The calls of the API on one resource. `encodes` says whether an object can be converted.
pub record Objects (T W : Type 0) : Type 0 where
  pub encodes : T → Bool
  pub list : Action W IdentityError (List (Item T))
  pub get : String → Action W IdentityError (Item T)
  pub create : T → Action W IdentityError (Unit {0})
  pub update : T → Action W IdentityError (Unit {0})
  pub delete : String → Action W IdentityError (Unit {0})

-- `k8sIdentityRepository`. `to_lower` is `strings.ToLower`.
pub record IdentityRepository (W : Type 0) : Type 0 where
  pub users : Objects CrdUser W
  pub groups : Objects CrdGroup W
  pub bindings : Objects CrdGroupBinding W
  pub to_lower : String → String

-- The model of a user, as `ListUsers` builds it.
unfoldable pub listed_user : String → CrdUser → User
listed_user name u = record {
  name = u.name;
  username = name;
  email = u.emails;
  comment = u.comment;
  disabled = elim u.disabled [ none ↦ false | some d ↦ d ];
  uid = elim u.uid [ none ↦ pos 0 | some i ↦ i ];
  groups = [];
  password = "";
  password_hash = "";
}

unfoldable pub listed_users : List (Item CrdUser) → List User
unfolding listed_user
listed_users [] = []
listed_users (item ∷ items) =
    let rest = listed_users items in
    elim item.object [ none ↦ rest | some u ↦ listed_user item.name u ∷ rest ]

unfoldable pub listed_groups : List (Item CrdGroup) → List Group
listed_groups [] = []
listed_groups (item ∷ items) =
    let rest = listed_groups items in
    elim item.object [
      | none ↦ rest
      | some g ↦ record { name = item.name; comment = g.comment; description = "" } ∷ rest
    ]

-- The loop of `ListGroupBindings`.
unfoldable pub bindings_of : String → List (Item CrdGroupBinding) → List GroupBinding
bindings_of user_filter [] = []
bindings_of user_filter (item ∷ items) =
    let rest = bindings_of user_filter items in
    elim item.object [
      | none ↦ rest
      | some b ↦
          if not (user_filter == "") && not (b.user == user_filter)
          then rest
          else record { user = b.user; group = b.group } ∷ rest
    ]

-- The loop of `DeleteGroupBindingByRef`: the name of the first binding of the two.
unfoldable pub binding_named : String → String → List (Item CrdGroupBinding) → Option String
binding_named user group [] = none
binding_named user group (item ∷ items) =
    let rest = binding_named user group items in
    elim item.object [
      | none ↦ rest
      | some b ↦ if b.user == user && b.group == group then some item.name else rest
    ]

module _ {W : Type 0} (r : IdentityRepository W) where
  unfoldable pub list_users : Action W IdentityError (List User)
  unfolding listed_users
  list_users = do items ← r.users.list; pure (listed_users items)

  unfoldable pub get_user : String → Action W IdentityError User
  unfolding listed_user
  get_user name = do
    item ← r.users.get name
    elim item.object [
      | none ↦ raise conversion
      | some u ↦ pure (record (listed_user item.name u) { password_hash = u.password_hash })
    ]

  unfoldable pub create_user : CrdUser → Action W IdentityError (Unit {0})
  create_user user =
      let named = record user {
        object_name = if user.object_name == "" then user.name else user.object_name;
      } in
      if r.users.encodes named then r.users.create named else raise conversion

  unfoldable pub update_user : CrdUser → Action W IdentityError (Unit {0})
  update_user user = do
    current ← r.users.get user.object_name
    let versioned = record user { resource_version = current.version }
    if r.users.encodes versioned then r.users.update versioned else raise conversion

  unfoldable pub delete_user : String → Action W IdentityError (Unit {0})
  delete_user name = r.users.delete name

  unfoldable pub list_groups : Action W IdentityError (List Group)
  unfolding listed_groups
  list_groups = do items ← r.groups.list; pure (listed_groups items)

  unfoldable pub get_group : String → Action W IdentityError Group
  get_group name = do
    item ← r.groups.get name
    elim item.object [
      | none ↦ raise conversion
      | some g ↦ pure (record { name = item.name; comment = g.comment; description = g.comment })
    ]

  unfoldable pub create_group : CrdGroup → Action W IdentityError (Unit {0})
  create_group group = if r.groups.encodes group then r.groups.create group else raise conversion

  unfoldable pub update_group : CrdGroup → Action W IdentityError (Unit {0})
  update_group group = do
    current ← r.groups.get group.object_name
    let versioned = record group { resource_version = current.version }
    if r.groups.encodes versioned then r.groups.update versioned else raise conversion

  unfoldable pub delete_group : String → Action W IdentityError (Unit {0})
  delete_group name = r.groups.delete name

  unfoldable pub list_group_bindings : String → Action W IdentityError (List GroupBinding)
  unfolding bindings_of
  list_group_bindings user_filter = do items ← r.bindings.list; pure (bindings_of user_filter items)

  -- `CreateGroupBinding` of a binding without a name.
  unfoldable pub create_group_binding : String → String → Action W IdentityError (Unit {0})
  create_group_binding user group =
      let b : CrdGroupBinding = record {
        object_name = String.◌++◌ (r.to_lower user) (String.◌++◌ "-" (r.to_lower group));
        user = user;
        group = group;
      } in
      if r.bindings.encodes b then r.bindings.create b else raise conversion

  unfoldable pub delete_group_binding : String → Action W IdentityError (Unit {0})
  delete_group_binding name = r.bindings.delete name

  unfoldable pub delete_group_binding_by_ref : String → String → Action W IdentityError (Unit {0})
  unfolding binding_named delete_group_binding
  delete_group_binding_by_ref user group = do
    items ← r.bindings.list
    elim (binding_named user group items) [
      | none ↦ raise (binding_not_found user group)
      | some name ↦ delete_group_binding name
    ]
