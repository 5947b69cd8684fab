-- ===== src/Base/Distinct.antt =====
-- Lists of names in which none comes twice, and what the sort does to them.
use Prim.Native.String.{String}
use mathlib.Core.Path.{◌≡◌, refl, ap, ◌∙◌}
use mathlib.Core.Logic.{inl, inr}
use mathlib.Core.Bool.{false, ◌||◌}
use mathlib.Core.List.{List, [], ◌∷◌, ◌++◌}
use native.Mathlib.Omega.{arith}
use text.Mathlib.Text.{◌==◌}
use text.Mathlib.TextEquality.{eq_iff}
use okdp_control_plane_serve.Base.Logic.{Bool-cases}
use okdp_control_plane_serve.Base.Lists.{contains}
use okdp_control_plane_serve.Base.Go.{text_le, insert_by, sort_by}

-- No name stands twice.
abbrev pub Distinct : List String → Type 0
Distinct [] = Unit
Distinct (x ∷ xs) = (contains xs x ≡ false) × Distinct xs

pub contains-snoc :
    (xs : List String) (x n : String) → contains (xs ++ (x ∷ [])) n ≡ (x == n || contains xs n)
contains-snoc [] x n = refl
contains-snoc (y ∷ ys) x n = ground (arith, contains-snoc ys x n)

pub snoc-Distinct :
    (xs : List String) (x : String)
    → Distinct xs
    → contains xs x ≡ false
    → Distinct (xs ++ (x ∷ []))
snoc-Distinct [] x d h = (refl, tt)
snoc-Distinct (y ∷ ys) x d h = (
  ground (arith, contains-snoc ys x y, eq_iff x y, eq_iff y x),
  snoc-Distinct ys x d.1 (ground arith),
)

abbrev pub same_name : String → String
same_name n = n

contains-insert_by :
    (x : String) (xs : List String) (n : String)
    → contains (insert_by same_name x xs) n ≡ (x == n || contains xs n)
unfolding insert_by
contains-insert_by x [] n = refl
contains-insert_by x (y ∷ ys) n = ground (arith, contains-insert_by x ys n)

insert_by-Distinct :
    (x : String) (xs : List String)
    → contains xs x ≡ false
    → Distinct xs
    → Distinct (insert_by same_name x xs)
unfolding insert_by
insert_by-Distinct x [] h d = (refl, tt)
insert_by-Distinct x (y ∷ ys) h d = elim (Bool-cases (text_le x y)) [
  | inl before ↦ rw before (h, d)
  | inr after ↦ rw after (
    ground (arith, contains-insert_by x ys y, eq_iff x y, eq_iff y x),
    insert_by-Distinct x ys (ground arith) d.1,
  )
]

pub contains-sort_by :
    (xs : List String) (n : String) → contains (sort_by same_name xs) n ≡ contains xs n
unfolding sort_by
contains-sort_by [] n = refl
contains-sort_by (x ∷ xs) n =
    contains-insert_by x (sort_by same_name xs) n ∙ ap (λ b. x == n || b) (contains-sort_by xs n)

pub sort_by-Distinct : (xs : List String) → Distinct xs → Distinct (sort_by same_name xs)
unfolding sort_by
sort_by-Distinct [] d = tt
sort_by-Distinct (x ∷ xs) d =
    insert_by-Distinct x (sort_by same_name xs) (contains-sort_by xs x ∙ d.0)
      (sort_by-Distinct xs d.1)
