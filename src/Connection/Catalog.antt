-- ===== src/Connection/Catalog.antt =====
-- The contract catalog: internal/service/contract_catalog.go. A Go `error` is an `Option`, whose
-- `none` is nil; the texts of the messages are left out, their arguments are kept.
pub mod Conforms
pub mod Descriptor
pub mod Normalize
use okdp_control_plane_serve.Base.{
  String, Bool, true, false, Option, none, some, List, [], ◌∷◌, ◌==◌, if◌then◌else◌, not, ◌&&◌,
  ◌||◌, contains, is_some,
}
use okdp_control_plane_serve.Base.Dict.{Dict, lookup, insert, delete}
use okdp_control_plane_serve.Base.Go.{Result, ok, err, sort_by}
use okdp_control_plane_serve.Connection.Model.{
  Value, null, bool, string, number, text_or_empty, ConnectionField, ContractDescriptor,
  FieldDerivation, applies, field,
}

pub data ValueError : Type 0 where
  unknown_contract : String → ValueError
  unknown_field : String → ValueError
  is_required must_be_string must_be_boolean must_be_number at_least at_most : String → ValueError
  must_be_one_of : String → List String → ValueError

pub data DescriptorError : Type 0 where
  name_required no_fields field_without_name : DescriptorError
  duplicate_field enum_without_options : String → DescriptorError
  unsupported_type : String → String → DescriptorError
  duplicate_contract : String → DescriptorError

-- What the code takes from float64: `<`.
pub record Floats (F : Type 0) : Type 0 where
  pub lt : F → F → Bool

module _ {F : Type 0} where
  -- `fieldLabel`
  unfoldable pub field_label : ConnectionField F → String
  field_label f = if f.label == "" then f.name else f.label

  -- `toFloat`
  unfoldable pub to_float : Value F → Option F
  to_float (number _ n) = some n
  to_float _ = none

  -- `value == nil || value == ""`, and an absent value
  unfoldable pub is_blank : Option (Value F) → Bool
  is_blank none = true
  is_blank (some null) = true
  is_blank (some (string s)) = s == ""
  is_blank (some _) = false

  -- One pass of the loop of `validateTypeDescriptor`, given the names already seen.
  unfoldable pub check_field_descriptor : List String → ConnectionField F → Option DescriptorError
  check_field_descriptor seen f =
      if f.name == ""
      then some field_without_name
      else if contains seen f.name
      then some (duplicate_field f.name)
      else if f.type == "string" || f.type == "number" || f.type == "boolean"
      then none
      else if f.type == "enum"
      then elim f.options [ [] ↦ some (enum_without_options f.name) | _ ↦ none ]
      else some (unsupported_type f.name f.type)

  unfoldable pub check_field_descriptors :
      List String → List (ConnectionField F) → Option DescriptorError
  check_field_descriptors seen [] = none
  check_field_descriptors seen (f ∷ fs) =
      let rest = check_field_descriptors (f.name ∷ seen) fs in
      elim (check_field_descriptor seen f) [ none ↦ rest | some e ↦ some e ]

  -- `validateTypeDescriptor`
  unfoldable pub validate_type_descriptor : ContractDescriptor F → Option DescriptorError
  validate_type_descriptor ct =
      if ct.name == ""
      then some name_required
      else elim ct.fields [ [] ↦ some no_fields | _ ↦ check_field_descriptors [] ct.fields ]

  -- `embeddedCatalog.Get`. The catalog is its sorted list `types`; `byName` is a search in it.
  unfoldable pub get : List (ContractDescriptor F) → String → Option (ContractDescriptor F)
  get [] name = none
  get (ct ∷ types) name = if ct.name == name then some ct else get types name

  unfoldable pub check_descriptors : List (ContractDescriptor F) → Option DescriptorError
  check_descriptors [] = none
  check_descriptors (ct ∷ cts) = elim (validate_type_descriptor ct) [
    | none ↦ check_descriptors cts
    | some e ↦ some e
  ]

  -- The loop that fills `byName`, given the names already in it.
  unfoldable pub check_duplicates :
      List String → List (ContractDescriptor F) → Option DescriptorError
  check_duplicates seen [] = none
  check_duplicates seen (ct ∷ cts) =
      let rest = check_duplicates (ct.name ∷ seen) cts in
      if contains seen ct.name then some (duplicate_contract ct.name) else rest

  -- `NewEmbeddedContractCatalog`, from the decoded files.
  unfoldable pub new_embedded_catalog :
      List (ContractDescriptor F) → Result DescriptorError (List (ContractDescriptor F))
  new_embedded_catalog cts = elim (check_descriptors cts) [
    | some e ↦ err e
    | none ↦
        let types = sort_by (λ (ct : ContractDescriptor F). ct.name) cts in
        elim (check_duplicates [] types) [ some e ↦ err e | none ↦ ok types ]
  ]

  -- The derived value, where the table knows the source.
  unfoldable pub derive : ConnectionField F → FieldDerivation → Dict (Value F) → Dict (Value F)
  derive f d out = elim (lookup (text_or_empty (lookup d.from out)) d.table) [
    | none ↦ out
    | some derived ↦ insert f.name (string derived) out
  ]

  -- The contract's default, where the field is absent.
  unfoldable pub fill_default : ConnectionField F → Dict (Value F) → Dict (Value F)
  fill_default f out = elim f.default [
    | none ↦ out
    | some v ↦
        if not (is_some (lookup f.name out)) && not f.secret then insert f.name v out else out
  ]

  -- One pass of the loop of `Normalize`.
  unfoldable pub normalize_field : Dict (Value F) → ConnectionField F → Dict (Value F)
  normalize_field out f =
      if applies f out
      then elim f.derived [ some d ↦ derive f d out | none ↦ fill_default f out ]
      else delete f.name out

  unfoldable pub normalize_fields : List (ConnectionField F) → Dict (Value F) → Dict (Value F)
  normalize_fields [] out = out
  normalize_fields (f ∷ fs) out = normalize_fields fs (normalize_field out f)

  -- `embeddedCatalog.Normalize`
  unfoldable pub normalize : List (ContractDescriptor F) → String → Dict (Value F) → Dict (Value F)
  normalize c type_name values = elim (get c type_name) [
    | none ↦ values
    | some ct ↦ normalize_fields ct.fields values
  ]

module _ {F : Type 0} (fl : Floats F) where
  -- `f.Min != nil && number < *f.Min`
  unfoldable pub below_min : ConnectionField F → F → Bool
  below_min f n = elim f.min [ none ↦ false | some m ↦ fl.lt n m ]

  unfoldable pub above_max : ConnectionField F → F → Bool
  above_max f n = elim f.max [ none ↦ false | some m ↦ fl.lt m n ]

  unfoldable pub validate_number : ConnectionField F → Option F → Option ValueError
  validate_number f none = some (must_be_number (field_label f))
  validate_number f (some n) =
      if below_min f n
      then some (at_least (field_label f))
      else if above_max f n
      then some (at_most (field_label f))
      else none

  unfoldable pub validate_string : ConnectionField F → Value F → Option ValueError
  validate_string f (string _) = none
  validate_string f _ = some (must_be_string (field_label f))

  unfoldable pub validate_boolean : ConnectionField F → Value F → Option ValueError
  validate_boolean f (bool _) = none
  validate_boolean f _ = some (must_be_boolean (field_label f))

  unfoldable pub validate_enum : ConnectionField F → Value F → Option ValueError
  validate_enum f (string s) =
      if contains f.options s then none else some (must_be_one_of (field_label f) f.options)
  validate_enum f _ = some (must_be_string (field_label f))

  -- `validateFieldValue`
  unfoldable pub validate_field_value : ConnectionField F → Value F → Option ValueError
  validate_field_value f value =
      if f.type == "string"
      then validate_string f value
      else if f.type == "boolean"
      then validate_boolean f value
      else if f.type == "number"
      then validate_number f (to_float value)
      else if f.type == "enum"
      then validate_enum f value
      else none

  -- One pass of the second loop of `validate`.
  unfoldable pub check_field : Bool → Dict (Value F) → ConnectionField F → Option ValueError
  check_field require_secrets values f =
      if applies f values
      then elim (lookup f.name values) [
        | none ↦
            if f.required && (require_secrets || not f.secret)
            then some (is_required (field_label f))
            else none
        | some value ↦
            if is_blank (some value)
            then if f.required && (require_secrets || not f.secret)
              then some (is_required (field_label f))
              else none
            else validate_field_value f value
      ]
      else none

  unfoldable pub check_fields : Bool → Dict (Value F) → List (ConnectionField F) → Option ValueError
  check_fields require_secrets values [] = none
  check_fields require_secrets values (f ∷ fs) = elim (check_field require_secrets values f) [
    | none ↦ check_fields require_secrets values fs
    | some e ↦ some e
  ]

  -- The first loop of `validate`: every key is declared.
  unfoldable pub check_keys : ContractDescriptor F → Dict (Value F) → Option ValueError
  check_keys ct [] = none
  check_keys ct ((key, _) ∷ values) =
      if is_some (field ct key) then check_keys ct values else some (unknown_field key)

  -- `embeddedCatalog.validate`
  unfoldable pub validate_values :
      List (ContractDescriptor F) → String → Dict (Value F) → Bool → Option ValueError
  validate_values c type_name values require_secrets = elim (get c type_name) [
    | none ↦ some (unknown_contract type_name)
    | some ct ↦ elim (check_keys ct values) [
      | some e ↦ some e
      | none ↦ check_fields require_secrets values ct.fields
    ]
  ]

  -- `Validate` and `ValidateUpdate`
  unfoldable pub validate :
      List (ContractDescriptor F) → String → Dict (Value F) → Option ValueError
  unfolding validate_values
  validate c type_name values = validate_values c type_name values true

  unfoldable pub validate_update :
      List (ContractDescriptor F) → String → Dict (Value F) → Option ValueError
  unfolding validate_values
  validate_update c type_name values = validate_values c type_name values false
