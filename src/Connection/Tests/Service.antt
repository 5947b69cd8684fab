-- ===== src/Connection/Tests/Service.antt =====
-- The theorems on the repository and on the service, on a cluster held in memory.
use okdp_control_plane_serve.Base.{false, none, some, [], ◌∷◌, ◌≡◌, refl}
use okdp_control_plane_serve.Base.Dict.{Dict, lookup, insert, delete, IsMap}
use okdp_control_plane_serve.Base.Go.{ok, err}
use okdp_control_plane_serve.Connection.Model.{applies, find_field}
use okdp_control_plane_serve.Connection.Catalog.{
  get, to_float, is_blank, derive, fill_default, normalize_field, normalize_fields, normalize,
  below_min, above_max, validate_number, validate_string, validate_field_value, check_field,
  check_fields, check_keys, validate_values, validate,
}
use mathlib.Core.Option.{some-injective}
use okdp_control_plane_serve.Base.Text.{cut}
use okdp_control_plane_serve.Base.{
  Option, ap, sym, true, false, [], ◌∷◌, Bool-cases, ◌==◌, some, none, ℕ, String, arith, inl, inr,
}
use okdp_control_plane_serve.Connection.Model.{ContractDescriptor, string, number, NumberKind}
use okdp_control_plane_serve.Connection.Repository.{Connection, Secret, is_managed}
use okdp_control_plane_serve.Connection.Credentials.{
  credentials_secret_of, credentials_name, credentials_owned, split_values, split_from, split_value,
  is_not_found,
}
use okdp_control_plane_serve.Connection.Requests.{
  Prepared, prepare_credentials, write_credentials, prepared_own,
}
use okdp_control_plane_serve.Connection.Submitted.{new_connection}
use okdp_control_plane_serve.Connection.Service as Service
use okdp_control_plane_serve.Connection.Service.{
  create_valid, create_named, create_free, submit, submitted, to_response,
}
use okdp_control_plane_serve.Connection.Service.Stored.{Declared, create-Declared}
use okdp_control_plane_serve.Connection.Service.Update.{update-KeepsForeign}
use okdp_control_plane_serve.Connection.Service.Delete.{
  OwnsOurs, Dropped, delete-managed, delete-KeepsForeign, delete-done,
}
use okdp_control_plane_serve.Connection.Tests.Cluster.{World}
use okdp_control_plane_serve.Connection.Tests.Data.{at_demo, live}
use okdp_control_plane_serve.Connection.Repository as Repo
use okdp_control_plane_serve.Connection.Repository.{
  create_or_update_secret, write_secret, merged_secret, our_secret, is_ours, text_at, delete_secret,
}
use okdp_control_plane_serve.Connection.Repository.Relations.{KeepsForeign, Unchanged}
use okdp_control_plane_serve.Connection.Repository.Laws.{
  entry_before, create_or_update_keeps, create_or_update_entries,
}
use okdp_control_plane_serve.Connection.Credentials.{ServiceError}
use okdp_control_plane_serve.Connection.Requests.{
  validate_request, check_request, check_reference, check_values, judge_values, stored_values,
}
use okdp_control_plane_serve.Connection.Requests.Laws.{Accepted, validate_request-Accepted}
use okdp_control_plane_serve.Connection.Service.{create}
use okdp_control_plane_serve.Connection.Service.Safety.{create-KeepsForeign}
use okdp_control_plane_serve.Connection.Service.Create.{create-existing}
use okdp_control_plane_serve.Connection.Tests.Cluster.{memory, memory-KubeLaws}
use okdp_control_plane_serve.Connection.Tests.Data.{
  database_server, service, request, empty, occupied, with_our_secret, our_old_secret,
}

create-KeepsForeign_example :
    KeepsForeign memory occupied (create service "demo" request occupied).1
create-KeepsForeign_example = create-KeepsForeign service memory-KubeLaws "demo" request occupied

create-existing_example :
    ((e : ServiceError) × ((create service "demo" request occupied).0 ≡ err e))
    × Unchanged memory occupied (create service "demo" request occupied).1
create-existing_example = create-existing service memory-KubeLaws "demo" request occupied refl

create_or_update_keeps_example :
    KeepsForeign memory occupied
      (create_or_update_secret memory "demo" "warehouse-credentials"
        (("password", "new") ∷ [])
        occupied).1
create_or_update_keeps_example =
    create_or_update_keeps memory memory-KubeLaws "demo" "warehouse-credentials"
      (("password", "new") ∷ []) occupied

written :
    (create_or_update_secret memory "demo" "warehouse-credentials"
      (("password", "new") ∷ [])
      with_our_secret).0
    ≡ ok tt
unfolding create_or_update_secret write_secret Repo.update_existing merged_secret our_secret is_ours
    text_at lookup
written = refl

abbrev new_entries : Dict String
new_entries = ("password", "new") ∷ []

one_key : IsMap new_entries
unfolding lookup
one_key = (refl, tt)

create_or_update_entries_example :
    (s : Secret) × (memory.secret_at
        (create_or_update_secret memory "demo" "warehouse-credentials"
          (("password", "new") ∷ [])
          with_our_secret).1
        "demo"
        "warehouse-credentials"
      ≡ some s)
    × (is_ours s ≡ true)
    × ((key : String)
        → lookup key s.contents ≡ elim (lookup key new_entries) [
          | some new ↦ some new
          | none ↦ entry_before key (some our_old_secret)
        ])
create_or_update_entries_example =
    create_or_update_entries memory memory-KubeLaws "demo" "warehouse-credentials" new_entries
      with_our_secret one_key written

valid :
    (validate_request service "demo" request false empty).0
    ≡ ok (database_server, stored_values service request)
unfolding validate_request check_request check_reference check_values judge_values stored_values get
    normalize normalize_fields normalize_field applies derive fill_default validate validate_values
    check_keys check_fields check_field is_blank validate_field_value validate_string
    validate_number to_float below_min above_max lookup insert delete find_field
valid = refl

validate_request-Accepted_example :
    Accepted service memory-KubeLaws "demo" request false empty database_server
      (stored_values service request)
validate_request-Accepted_example =
    validate_request-Accepted service memory-KubeLaws "demo" request false empty database_server
      (stored_values service request) valid

abbrev sent : Prepared ℕ
sent = record {
  secret_name = "warehouse-credentials";
  own_secret = true;
  has_secrets = true;
  public =
      ("host", string "db.example.com")
      ∷ ("port", number NumberKind.float64 5432)
      ∷ ("secretRef", string "warehouse-credentials")
      ∷ [];
}

created :
    (create service "demo" request empty).0
    ≡ ok (to_response service (new_connection "demo" request database_server sent) "demo")
unfolding create create_valid create_named create_free submit submitted is_not_found Repo.get
    Repo.create prepare_credentials write_credentials prepared_own create_or_update_secret
    write_secret our_secret split_values split_from split_value new_connection Repo.stamped
    Repo.kind validate_request check_request check_reference check_values judge_values stored_values
    get normalize normalize_fields normalize_field applies derive fill_default validate
    validate_values check_keys check_fields check_field is_blank validate_field_value
    validate_string validate_number to_float below_min above_max lookup insert delete find_field
created = refl

create-Declared_example :
    (memory.connection_at empty "demo" "warehouse" ≡ none)
    × ((d : ContractDescriptor ℕ) × (get service.catalog "database-server" ≡ some d)
        × (d.external ≡ true)
        × (d.name ≡ "database-server")
        × Declared service memory-KubeLaws
            (create service "demo" request empty).1
            "demo"
            "warehouse"
            d)
create-Declared_example = create-Declared service memory-KubeLaws "demo" request empty created

abbrev provided : World
provided = record occupied {
  connections =
      at_demo "warehouse" (record live { spec = record live.spec { output_name = "trino" } });
}

delete-managed_example :
    ((e : ServiceError) × ((Service.delete service "demo" "warehouse" provided).0 ≡ err e))
    × Unchanged memory provided (Service.delete service "demo" "warehouse" provided).1
unfolding is_managed
delete-managed_example =
    delete-managed service memory-KubeLaws "demo" "warehouse" provided refl refl

abbrev recorded : World
recorded = record {
  connections =
      at_demo "warehouse"
        (record live { annotations = ("okdp.io/credentials-owned", "true") ∷ [] });
  secrets = at_demo "warehouse-credentials" our_old_secret;
}

owns_ours :
    (c : Connection ℕ)
    → memory.connection_at recorded "demo" "warehouse" ≡ some c
    → OwnsOurs service memory-KubeLaws recorded "demo" c
unfolding is_ours text_at lookup
owns_ours c at owned sec there = stored_ours (credentials_secret_of c c.name).0 sec there
  where
    stored_ours :
        (n : String) (sec : Secret)
        → at_demo "warehouse-credentials" our_old_secret "demo" n ≡ some sec
        → is_ours sec ≡ true
    stored_ours n sec e = elim (Bool-cases (n == "warehouse-credentials")) [
      | inr other ↦ absurd (ground arith)
      | inl same ↦
          let it : some our_old_secret ≡ some sec = rw same at e in
          ap is_ours (sym (some-injective _ _ it))
    ]

delete-KeepsForeign_example :
    KeepsForeign memory recorded (Service.delete service "demo" "warehouse" recorded).1
delete-KeepsForeign_example =
    delete-KeepsForeign service memory-KubeLaws "demo" "warehouse" recorded owns_ours

update-KeepsForeign_example :
    KeepsForeign memory recorded (Service.update service "demo" "warehouse" request recorded).1
update-KeepsForeign_example =
    update-KeepsForeign service memory-KubeLaws "demo" "warehouse" request recorded owns_ours

deleted : (Service.delete service "demo" "warehouse" occupied).0 ≡ ok tt
unfolding Service.delete Service.remove Service.drop_credentials Repo.get Repo.delete is_managed
    credentials_secret_of credentials_name credentials_owned cut text_at lookup delete_secret
deleted = refl

delete-done_example :
    (memory.connection_at (Service.delete service "demo" "warehouse" occupied).1 "demo" "warehouse"
      ≡ none)
    × ((c : Connection ℕ) × (memory.connection_at occupied "demo" "warehouse" ≡ some c)
        × (is_managed c ≡ false)
        × Dropped service memory-KubeLaws "demo" "warehouse" c occupied
            (Service.delete service "demo" "warehouse" occupied).1)
delete-done_example = delete-done service memory-KubeLaws "demo" "warehouse" occupied deleted
