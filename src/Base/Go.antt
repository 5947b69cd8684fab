-- ===== src/Base/Go.antt =====
-- Calls that return `(value, error)` and may change the world `W` that they act on, and the sort
-- of the standard library.
use mathlib.Core.Bool.{Bool}
use mathlib.Core.List.{List, [], ◌∷◌}
use Prim.Native.Nat.{Ordering}
use Prim.Native.String.{String, compare}
use okdp_control_plane_serve.Base.Logic.{if◌then◌else◌}

pub data Result {ℓ κ} (E : Type ℓ) (A : Type κ) : Type (ℓ ⊔ κ) where
  ok : A → Result E A
  err : E → Result E A

abbrev pub Action : Type 0 → Type 0 → Type 0 → Type 0
Action W E A = W → Result E A × W

module _ {W E A : Type 0} where
  abbrev pub pure : A → Action W E A
  pure a w = (ok a, w)

  -- `return nil, err`
  abbrev pub raise : E → Action W E A
  raise e w = (err e, w)

module _ {W E D A B : Type 0} where
  -- A call whose error is looked at: `r, err := m(); ...`.
  abbrev pub try : Action W D A → (Result D A → Action W E B) → Action W E B
  try m f w = let (r, w') = m w in f r w'

-- What follows a call, by its result.
abbrev pub and_then : {W E A B : Type 0} → Result E A → (A → Action W E B) → Action W E B
and_then (ok a) f = f a
and_then (err e) f = raise e

infixl 5 ◌>>=◌ ◌>>◌
-- `a, err := m(); if err != nil { return nil, err }`
abbrev pub ◌>>=◌ : {W E A B : Type 0} → Action W E A → (A → Action W E B) → Action W E B
◌>>=◌ m f w = let (r, w') = m w in and_then r f w'

abbrev pub ◌>>◌ : {W E A B : Type 0} → Action W E A → Action W E B → Action W E B
m >> k = m >>= λ _. k

-- `a <= b` on Go strings: bytewise.
abbrev pub text_le : String → String → Bool
text_le a b = elim (compare a b) [ Ordering.gt ↦ Bool.false | _ ↦ Bool.true ]

module _ {ℓ} {A : Type ℓ} (key : A → String) where
  unfoldable pub insert_by : A → List A → List A
  insert_by x [] = x ∷ []
  insert_by x (y ∷ ys) = if text_le (key x) (key y) then x ∷ y ∷ ys else y ∷ insert_by x ys

  -- `sort.Slice` by a text key. The order of equal keys is left open by Go.
  unfoldable pub sort_by : List A → List A
  unfolding insert_by
  sort_by [] = []
  sort_by (x ∷ xs) = insert_by x (sort_by xs)
