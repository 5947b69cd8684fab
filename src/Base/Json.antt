-- ===== src/Base/Json.antt =====
-- Decoded JSON, as the values of a Kubernetes object have it, and the reads and writes of Go maps and
-- slices over it. A float64 is held as its integer part, all that the program reads of one.
use Prim.Native.String.{String}
use mathlib.Core.Path.{◌≡◌, refl, ap, ◌∙◌}
use mathlib.Core.Bool.{Bool, false}
use mathlib.Core.Option.{Option, none, some}
use mathlib.Core.List.{List, [], ◌∷◌, map}
use native.Mathlib.Omega.{arith}
use text.Mathlib.Text.{◌==◌}
use text.Mathlib.TextEquality.{eq_iff}
use text.Mathlib.TextPositions.{eq_refl}
use okdp_control_plane_serve.Base.Logic.{if◌then◌else◌}
use okdp_control_plane_serve.Base.Int.{ℤ, pos}

mutual
  pub data Json : Type 0 where
    null : Json
    bool : Bool → Json
    string : String → Json
    int64 float64 : ℤ → Json
    array : Items → Json
    object : Fields → Json

  pub data Items : Type 0 where
    nil : Items
    cons : Json → Items → Items

  pub data Fields : Type 0 where
    end : Fields
    entry : String → Json → Fields → Fields

unfoldable pub items : Items → List Json
items nil = []
items (cons x xs) = x ∷ items xs

unfoldable pub of_list : List Json → Items
of_list [] = nil
of_list (x ∷ xs) = cons x (of_list xs)

pub items-of_list : (xs : List Json) → items (of_list xs) ≡ xs
unfolding items of_list
items-of_list [] = refl
items-of_list (x ∷ xs) = ap (λ l. x ∷ l) (items-of_list xs)

-- `v, ok := m[key]`
unfoldable pub get : String → Fields → Option Json
get key end = none
get key (entry other v m) = if other == key then some v else get key m

-- `m[key] = v`
unfoldable pub put : String → Json → Fields → Fields
put key v end = entry key v end
put key v (entry other w m) =
    let rest = put key v m in if other == key then entry key v m else entry other w rest

pub get-put :
    (written read : String) (v : Json) (m : Fields)
    → get read (put written v m) ≡ (if written == read then some v else get read m)
unfolding get put
get-put written read v end = refl
get-put written read v (entry other w m) =
    ground (
      arith,
      eq_iff other written,
      eq_iff other read,
      eq_iff written read,
      get-put written read v m,
    )

pub get-put_self : (key : String) (v : Json) (m : Fields) → get key (put key v m) ≡ some v
get-put_self key v m = get-put key key v m ∙ rw (eq_refl key)

pub get-put_ne :
    (written read : String) (v : Json) (m : Fields)
    → (written == read) ≡ false
    → get read (put written v m) ≡ get read m
get-put_ne written read v m ne = get-put written read v m ∙ rw ne

-- `s, _ := x.(string)`
unfoldable pub text_of : Option Json → String
text_of (some (string s)) = s
text_of _ = ""

-- `getString`
unfoldable pub get_string : Fields → String → String
unfolding text_of
get_string m key = text_of (get key m)

-- `getBoolPtr`
unfoldable pub flag_of : Option Json → Option Bool
flag_of (some (bool b)) = some b
flag_of _ = none

unfoldable pub get_bool_ptr : Fields → String → Option Bool
unfolding flag_of
get_bool_ptr m key = flag_of (get key m)

-- `getInt`
unfoldable pub get_int : Fields → String → ℤ
get_int m key = elim (get key m) [
  | none ↦ pos 0
  | some v ↦ elim v [ int64 n ↦ n | float64 n ↦ n | _ ↦ pos 0 ]
]

-- The strings of a slice; what is no string is skipped.
unfoldable pub strings : List Json → List String
strings [] = []
strings (v ∷ vs) = let rest = strings vs in elim v [ string s ↦ s ∷ rest | _ ↦ rest ]

pub strings-map-string : (vs : List String) → strings (map string vs) ≡ vs
unfolding strings
strings-map-string [] = refl
strings-map-string (v ∷ vs) = ap (λ l. v ∷ l) (strings-map-string vs)
