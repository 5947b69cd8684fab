-- ===== src/Connection/Tests/Catalog.antt =====
-- The theorems on the catalog and on the split of the values, on one contract.
use mathlib.Core.List.{Perm}
use okdp_control_plane_serve.Base.{
  ℕ, String, true, none, some, [], ◌∷◌, ◌≡◌, refl, ◌↔◌, ◌⊎◌, inl, inr, All, Bool-cases, eq_of_test,
  ◌==◌,
}
use okdp_control_plane_serve.Base.Dict.{Dict, lookup}
use okdp_control_plane_serve.Base.Go.{ok, sort_by, insert_by}
use okdp_control_plane_serve.Base.Sorting.{SortedBy}
use okdp_control_plane_serve.Connection.Model.{
  Value, string, number, NumberKind, ContractDescriptor, applies, field, find_field,
}
use okdp_control_plane_serve.Connection.Catalog.{
  get, to_float, is_blank, check_field_descriptor, check_field_descriptors,
  validate_type_descriptor, check_descriptors, check_duplicates, new_embedded_catalog, normalize,
  below_min, above_max, validate_number, validate_string, validate_field_value, check_field,
  check_fields, check_keys, validate_values, validate_update,
}
use okdp_control_plane_serve.Connection.Catalog.Conforms.{
  Conforms, Known, FitsEdit, validate_values_iff, validate_update_iff,
}
use okdp_control_plane_serve.Connection.Catalog.Descriptor.{
  IsWellFormed, DistinctNames, validate_type_descriptor_iff, new_embedded_catalog_lem,
}
use okdp_control_plane_serve.Connection.Catalog.Normalize.{
  filled_in, normalize_plain, normalize_secret,
}
use okdp_control_plane_serve.Connection.Credentials.{split_values}
use okdp_control_plane_serve.Connection.Credentials.Laws.{
  public_part, secret_part, split_values_lem,
}
use okdp_control_plane_serve.Connection.Tests.Data.{
  whole_numbers, port, password, database_server, contracts, submitted_values, complete_values,
}

found : get contracts "database-server" ≡ some database_server
unfolding get
found = refl

accepted : validate_type_descriptor database_server ≡ none
unfolding validate_type_descriptor check_field_descriptors check_field_descriptor
accepted = refl

well_formed : IsWellFormed database_server
well_formed = (validate_type_descriptor_iff database_server).0 accepted

validate_type_descriptor_iff_example :
    (validate_type_descriptor database_server ≡ none) ↔ IsWellFormed database_server
validate_type_descriptor_iff_example = validate_type_descriptor_iff database_server

loads : new_embedded_catalog contracts ≡ ok contracts
unfolding new_embedded_catalog check_descriptors validate_type_descriptor check_field_descriptors
    check_field_descriptor sort_by insert_by check_duplicates
loads = refl

new_embedded_catalog_lem_example :
    All IsWellFormed contracts
    × DistinctNames [] contracts
    × SortedBy (λ (ct : ContractDescriptor ℕ). ct.name) contracts
    × Perm contracts contracts
new_embedded_catalog_lem_example = new_embedded_catalog_lem contracts loads

validate_values_iff_example :
    (validate_values whole_numbers contracts "database-server" complete_values true ≡ none) ↔ (
      (ct : ContractDescriptor ℕ) × (get contracts "database-server" ≡ some ct)
      × Conforms whole_numbers true ct complete_values)
validate_values_iff_example =
    validate_values_iff whole_numbers contracts "database-server" complete_values true

passes : validate_values whole_numbers contracts "database-server" complete_values true ≡ none
unfolding validate_values get check_keys check_fields check_field applies is_blank
    validate_field_value validate_string validate_number to_float below_min above_max lookup
    find_field
passes = refl

reordered : Dict (Value ℕ)
reordered =
    ("host", string "db.example.com")
    ∷ ("password", string "s3cret")
    ∷ ("port", number NumberKind.float64 5432)
    ∷ []

same_map : (k : String) → lookup k complete_values ≡ lookup k reordered
unfolding lookup reordered
same_map k = elim (Bool-cases ("port" == k)) [
  | inl e ↦ rw (← eq_of_test "port" k e) refl
  | inr other ↦ rw (other, lookup) refl
]

validate_update_iff_example :
    (validate_update whole_numbers contracts "database-server" complete_values ≡ none) ↔ (
      Known whole_numbers database_server complete_values
      × All (FitsEdit whole_numbers complete_values) database_server.fields)
validate_update_iff_example =
    validate_update_iff whole_numbers contracts "database-server" complete_values found

unknown_key : field database_server "colour" ≡ none
unfolding find_field
unknown_key = refl

port_declared : field database_server "port" ≡ some port
unfolding find_field
port_declared = refl

password_declared : field database_server "password" ≡ some password
unfolding find_field
password_declared = refl

normalize_plain_example :
    lookup "port" (normalize contracts "database-server" submitted_values)
    ≡ filled_in port (lookup "port" submitted_values)
normalize_plain_example =
    normalize_plain contracts "database-server" submitted_values "port" found well_formed
      port_declared refl refl

normalize_secret_example :
    (lookup "password" (normalize contracts "database-server" submitted_values) ≡ none)
    ⊎ (lookup "password" (normalize contracts "database-server" submitted_values)
        ≡ lookup "password" submitted_values)
normalize_secret_example =
    normalize_secret contracts "database-server" submitted_values "password" found well_formed
      password_declared refl refl

split_values_lem_example :
    (lookup "password" (split_values database_server complete_values).0
      ≡ public_part database_server "password" (lookup "password" complete_values))
    × (lookup "password" (split_values database_server complete_values).1
        ≡ secret_part database_server "password" (lookup "password" complete_values))
unfolding lookup
split_values_lem_example =
    split_values_lem database_server "password" complete_values (refl, (refl, (refl, tt)))
