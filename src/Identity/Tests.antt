-- ===== src/Identity/Tests.antt =====
-- The theorems on users, on a table of users in memory whose bindings cannot be written.
use okdp_control_plane_serve.Base.{
  String, true, Option, none, some, [], ◌∷◌, ◌≡◌, refl, ◌≢◌, ◌==◌, arith, if◌then◌else◌, eq_refl,
}
use okdp_control_plane_serve.Base.Go.{Result, ok, err}
use okdp_control_plane_serve.Base.Int.{pos}
use okdp_control_plane_serve.Identity.Model.{User, CrdUser}
use okdp_control_plane_serve.Identity.Repository as Repo
use okdp_control_plane_serve.Identity.Repository.{
  Item, IdentityError, api, Objects, IdentityRepository, list_group_bindings, bindings_of,
  listed_user, create_group_binding,
}
use okdp_control_plane_serve.Identity.Service.{
  groups_of, distinct, add_missing, remove_old, sync_groups, password_hash, update_user,
}
use okdp_control_plane_serve.Identity.Laws.{UserLaws, sync_groups_ok, Chosen, update_user-Chosen}

abbrev Table : Type 0
Table = String → Option CrdUser

abbrev refusing : {T : Type 0} → Objects T Table
refusing = record {
  encodes = λ x. true;
  list = λ w. (ok [], w);
  get = λ n w. (err (api "forbidden"), w);
  create = λ x w. (err (api "forbidden"), w);
  update = λ x w. (err (api "forbidden"), w);
  delete = λ n w. (err (api "forbidden"), w);
}

abbrev item_of : String → Option CrdUser → Result IdentityError (Item CrdUser)
item_of n none = err (api "not found")
item_of n (some u) = ok (record { name = n; version = u.resource_version; object = some u })

abbrev memory : IdentityRepository Table
memory = record {
  users = record {
    encodes = λ u. true;
    list = λ w. (ok [], w);
    get = λ n w. (item_of n (w n), w);
    create = λ u w. (err (api "forbidden"), w);
    update = λ u w. (ok tt, λ n. if u.object_name == n then some u else w n);
    delete = λ n w. (err (api "forbidden"), w);
  };
  groups = refusing;
  bindings = refusing;
  to_lower = λ s. s;
}

item_of_finds :
    (n : String) (o : Option CrdUser) (item : Item CrdUser) (u : CrdUser)
    → item_of n o ≡ ok item
    → item.object ≡ some u
    → o ≡ some u
item_of_finds n none item u h e = cc
item_of_finds n (some old) item u h e = ground arith

stored_self :
    (u : CrdUser) (w : Table)
    → (if u.object_name == u.object_name then some u else w u.object_name) ≡ some u
stored_self u w = rw (eq_refl u.object_name)

memory-UserLaws : UserLaws memory (λ w n. w n)
memory-UserLaws = record {
  get_reads = λ n w m. refl;
  get_finds = λ n w item u h e. item_of_finds n (w n) item u h e;
  update_stores = λ u w h. (u, stored_self u w, refl, refl);
  list_bindings = λ w n. refl;
  create_binding = λ b w n. refl;
  delete_binding = λ m w n. refl;
}

abbrev ada : CrdUser
ada = record {
  object_name = "ada";
  resource_version = "4";
  name = "Ada";
  emails = [];
  password_hash = "$2a$10$old";
  uid = none;
  comment = "";
  claims = none;
  disabled = none;
}

abbrev users : Table
users n = if n == "ada" then some ada else none

abbrev edit : User
edit = record {
  name = "Ada L.";
  username = "ada";
  email = [];
  comment = "";
  disabled = true;
  uid = pos 0;
  groups = "analysts" ∷ [];
  password = "";
  password_hash = "";
}

abbrev bcrypt : String → Option String
bcrypt p = some "$2a$10$new"

bcrypt_nonempty : (p g : String) → bcrypt p ≡ some g → g ≢ ""
bcrypt_nonempty p g h e = cc

listed : (list_group_bindings memory "ada" users).0 ≡ ok []
unfolding list_group_bindings bindings_of
listed = refl

refused : (create_group_binding memory "ada" "analysts" users).0 ≡ err (api "forbidden")
unfolding create_group_binding
refused = refl

-- The binding to the group was refused.
sync_groups_ok_example : (sync_groups memory bcrypt "ada" ("analysts" ∷ []) users).0 ≡ ok tt
sync_groups_ok_example = sync_groups_ok memory bcrypt "ada" ("analysts" ∷ []) users listed

edited : (update_user memory bcrypt "ada" edit users).0 ≡ ok tt
unfolding update_user Repo.get_user password_hash Repo.update_user sync_groups list_group_bindings
    bindings_of add_missing remove_old distinct groups_of create_group_binding
edited = refl

update_user-Chosen_example :
    (old stored : CrdUser) × (users "ada" ≡ some old)
    × ((update_user memory bcrypt "ada" edit users).1 "ada" ≡ some stored)
    × (stored.disabled ≡ some true)
    × Chosen memory bcrypt (λ w n. w n) memory-UserLaws edit old.password_hash stored.password_hash
update_user-Chosen_example =
    update_user-Chosen memory bcrypt (λ w n. w n) memory-UserLaws "ada" edit users bcrypt_nonempty
      edited
