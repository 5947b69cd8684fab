-- ===== src/Base/Sorting.antt =====
-- `sort.Slice` by a text key: the result is a permutation of the input and is in order.
use Prim.Native.String.compare
use Prim.Native.String.{String, [], ◌∷◌}
use mathlib.Core.Path.{◌≡◌, refl}
use mathlib.Core.Bool.{true, false}
use mathlib.Core.Logic.{inl, inr}
use mathlib.Core.List.{List, [], ◌∷◌, Perm}
use mathlib.Core.List.Perm
use native.Mathlib.Omega.{arith}
use okdp_control_plane_serve.Base.Logic.{Bool-cases}
use okdp_control_plane_serve.Base.Lists.{All}
use okdp_control_plane_serve.Base.Go.{text_le, insert_by, sort_by}

-- Go's order on strings is total.
text_le_total : (s t : String) → text_le s t ≡ false → text_le t s ≡ true
text_le_total [] [] h = refl
text_le_total [] (d ∷ t) h = ground (arith, compare.nil-cons d t)
text_le_total (c ∷ s) [] h = ground (arith, compare.nil-cons c s)
text_le_total (c ∷ s) (d ∷ t) h =
    ground (arith, compare.cons-cons c d s t, compare.cons-cons d c t s, text_le_total s t)

module _ {ℓ} {A : Type ℓ} (key : A → String) where
  -- Each element's key is at most the next one's.
  abbrev pub SortedBy : List A → Type 0
  SortedBy [] = Unit
  SortedBy (x ∷ []) = Unit
  SortedBy (x ∷ y ∷ ys) = (text_le (key x) (key y) ≡ true) × SortedBy (y ∷ ys)

  insert_by-SortedBy : (x : A) (xs : List A) → SortedBy xs → SortedBy (insert_by key x xs)
  unfolding insert_by
  insert_by-SortedBy x [] h = tt
  insert_by-SortedBy x (y ∷ []) h = elim (Bool-cases (text_le (key x) (key y))) [
    | inl before ↦ rw before (before, tt)
    | inr after ↦ rw after (text_le_total (key x) (key y) after, tt)
  ]
  insert_by-SortedBy x (y ∷ z ∷ ys) h = elim (Bool-cases (text_le (key x) (key y))) [
    | inl before ↦ rw before (before, h)
    | inr after ↦
        let ih : SortedBy (insert_by key x (z ∷ ys)) = insert_by-SortedBy x (z ∷ ys) h.1 in
        rw after (deeper (text_le_total (key x) (key y) after) h.0 ih)
  ]
    where
      deeper :
          text_le (key y) (key x) ≡ true
          → text_le (key y) (key z) ≡ true
          → SortedBy (insert_by key x (z ∷ ys))
          → SortedBy (y ∷ insert_by key x (z ∷ ys))
      deeper yx yz ih = elim (Bool-cases (text_le (key x) (key z))) [
        | inl xz ↦ rw xz (yx, rw xz at ih)
        | inr zx ↦ rw zx (yz, rw zx at ih)
      ]

  pub sort_by-SortedBy : (xs : List A) → SortedBy (sort_by key xs)
  unfolding sort_by
  sort_by-SortedBy [] = tt
  sort_by-SortedBy (x ∷ xs) = insert_by-SortedBy x (sort_by key xs) (sort_by-SortedBy xs)

  insert_by-perm : (x : A) (xs : List A) → Perm (insert_by key x xs) (x ∷ xs)
  unfolding insert_by
  insert_by-perm x [] = Perm.refl (x ∷ [])
  insert_by-perm x (y ∷ ys) = elim (Bool-cases (text_le (key x) (key y))) [
    | inl before ↦ rw before (Perm.refl (x ∷ y ∷ ys))
    | inr after ↦ rw after (Perm.trans (Perm.cons y (insert_by-perm x ys)) (Perm.swap x y ys))
  ]

  pub sort_by-perm : (xs : List A) → Perm (sort_by key xs) xs
  unfolding sort_by
  sort_by-perm [] = Perm.refl []
  sort_by-perm (x ∷ xs) =
      Perm.trans (insert_by-perm x (sort_by key xs)) (Perm.cons x (sort_by-perm xs))

module _ {ℓ κ} {A : Type ℓ} (key : A → String) (P : A → Type κ) where
  insert_by-All : (x : A) (xs : List A) → P x → All P xs → All P (insert_by key x xs)
  unfolding insert_by
  insert_by-All x [] p h = (p, tt)
  insert_by-All x (y ∷ ys) p h = elim (Bool-cases (text_le (key x) (key y))) [
    | inl before ↦ rw before (p, h)
    | inr after ↦ rw after (h.0, insert_by-All x ys p h.1)
  ]

  pub sort_by-All : (xs : List A) → All P xs → All P (sort_by key xs)
  unfolding sort_by
  sort_by-All [] h = tt
  sort_by-All (x ∷ xs) h = insert_by-All x (sort_by key xs) h.0 (sort_by-All xs h.1)
