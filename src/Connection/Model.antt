-- ===== src/Connection/Model.antt =====
-- The data of contracts and connections: internal/models/connection.go and
-- internal/repository/crd/connection_types.go.
use okdp_control_plane_serve.Base.{
  String, Bool, true, Option, none, some, List, [], ◌∷◌, ◌==◌, if◌then◌else◌,
}
use okdp_control_plane_serve.Base.Dict.{Dict, lookup}

-- The number types that `toFloat` accepts.
pub data NumberKind : Type 0 where
  float64 float32 int int32 int64 : NumberKind

-- The `any` of a request. `F` is float64, and a number of any kind is held as `float64(n)`. `other`
-- is an array, an object or any other type: nothing here looks into it.
pub data Value (F : Type 0) : Type 0 where
  null : Value F
  bool : Bool → Value F
  string : String → Value F
  number : NumberKind → F → Value F
  other : String → Value F

-- `current, _ := v.(string)`
abbrev pub text_or_empty : {F : Type 0} → Option (Value F) → String
text_or_empty none = ""
text_or_empty (some (string s)) = s
text_or_empty (some _) = ""

pub record FieldCondition : Type 0 where
  pub field : String
  pub value : String

pub record FieldDerivation : Type 0 where
  pub from : String
  pub table : Dict String

pub record ConnectionField (F : Type 0) : Type 0 where
  pub name : String
  pub label : String
  pub type : String
  pub required : Bool
  pub secret : Bool
  pub masked : Bool
  pub default : Option (Value F)
  pub options : List String
  pub placeholder : String
  pub help : String
  pub min : Option F
  pub max : Option F
  pub show_when : Option FieldCondition
  pub derived : Option FieldDerivation

pub record ContractDescriptor (F : Type 0) : Type 0 where
  pub name : String
  pub display_name : String
  pub description : String
  pub icon : String
  pub category : String
  pub external : Bool
  pub fields : List (ConnectionField F)
  pub endpoint_from : List String

module _ {F : Type 0} where
  -- `ConnectionField.Applies`
  unfoldable pub applies : ConnectionField F → Dict (Value F) → Bool
  applies f values = elim f.show_when [
    | none ↦ true
    | some condition ↦ text_or_empty (lookup condition.field values) == condition.value
  ]

  unfoldable pub find_field : String → List (ConnectionField F) → Option (ConnectionField F)
  find_field name [] = none
  find_field name (f ∷ fs) = if f.name == name then some f else find_field name fs

  -- `ContractDescriptor.Field`
  abbrev pub field : ContractDescriptor F → String → Option (ConnectionField F)
  field t name = find_field name t.fields

  unfoldable pub secret_names : List (ConnectionField F) → List String
  secret_names [] = []
  secret_names (f ∷ fs) = if f.secret then f.name ∷ secret_names fs else secret_names fs

  -- `ContractDescriptor.SecretFields`
  abbrev pub secret_fields : ContractDescriptor F → List String
  secret_fields t = secret_names t.fields
