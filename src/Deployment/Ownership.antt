-- ===== src/Deployment/Ownership.antt =====
-- Which release an object belongs to, by its name (`ownsByName` of internal/service/service_service.go).
use Prim.Native.Char.{Char, code}
use Prim.Native.String.{[], ◌∷◌, ◌++◌}
use text.Mathlib.TextEquality.{Char-path}
use text.Mathlib.TextLemmas.{cons-append}
use okdp_control_plane_serve.Base.{
  String, Bool, true, false, List, ◌==◌, if◌then◌else◌, leb, nat_eq, contains, ◌≡◌, refl, ap, sym,
  ◌∙◌, ◌≢◌, inl, inr, true_ne_false, arith, eq_iff, Bool-cases, ℕ, ◌≤◌, ◌+◌,
}
use okdp_control_plane_serve.Deployment.Names.{
  has_prefix, char_bytes, byte_length, extends_prefix, claimed_by_other, owns_by_name,
}

-- A release among the others that has a longer name, and whose prefix the object has, claims it.
claims :
    (object_name release_name b : String) (others : List String)
    → contains others b ≡ true
    → leb (byte_length b) (byte_length release_name) ≡ false
    → extends_prefix (b ++ "-") object_name ≡ true
    → claimed_by_other object_name release_name others ≡ true
unfolding claimed_by_other
claims object_name release_name b List.[] has longer fits = absurd (ground arith)
claims object_name release_name b (List.◌∷◌ other others) has longer fits =
    elim (Bool-cases (other == b)) [
      | inl it ↦
          let same : other ≡ b = (eq_iff other b).0 it in rw (same, longer, fits) (ground arith)
      | inr differs ↦
          let known = claims object_name release_name b others (rw differs at has) longer fits in
          ground (arith, known)
    ]

char_bytes_positive : (c : ℕ) → 1 ≤ char_bytes c
unfolding char_bytes
char_bytes_positive c = ground arith

pub nat_eq_path : (m n : ℕ) → nat_eq m n ≡ true → m ≡ n
nat_eq_path m n h = ground arith

both : (x y : Bool) → (if x then y else false) ≡ true → (x ≡ true) × (y ≡ true)
both true y h = (refl, h)
both false y h = absurd (ground arith)

first_same :
    (c : Char) (a o : String)
    → has_prefix ((c ∷ a) ++ "-") o ≡ true
    → (x : Char) × (rest : String) × (o ≡ x ∷ rest)
      × (code c ≡ code x)
      × (has_prefix (a ++ "-") rest ≡ true)
unfolding has_prefix
first_same c a [] p = absurd (true_ne_false (sym (rw (cons-append c a "-") at p)))
first_same c a (x ∷ o) p =
    let (same, rest) =
      both (nat_eq (code c) (code x)) (has_prefix (a ++ "-") o) (rw (cons-append c a "-") at p) in
    (x, o, refl, nat_eq_path _ _ same, rest)

same_rest :
    (c d : Char) (a b : String)
    → code c ≡ code d
    → char_bytes (code c) + byte_length a ≡ char_bytes (code d) + byte_length b
    → byte_length a ≡ byte_length b
same_rest c d a b same e =
    let bytes : char_bytes (code c) ≡ char_bytes (code d) = ap char_bytes same in omega arith

String-cons_inj : (x y : Char) (s t : String) → x ∷ s ≡ y ∷ t → (x ≡ y) × (s ≡ t)
String-cons_inj x y s t e = (cc, cc)

-- Two names of the same length that an object's name continues are the same.
same_length :
    (a b object_name : String)
    → has_prefix (a ++ "-") object_name ≡ true
    → has_prefix (b ++ "-") object_name ≡ true
    → byte_length a ≡ byte_length b
    → a ≡ b
unfolding byte_length
same_length [] [] o p q e = refl
same_length [] (d ∷ b) o p q e = let one = char_bytes_positive (code d) in absurd (omega arith)
same_length (c ∷ a) [] o p q e = let one = char_bytes_positive (code c) in absurd (omega arith)
same_length (c ∷ a) (d ∷ b) o p q e =
    let (x, rest, here, cx, fits_a) = first_same c a o p in
    let (y, rest', there, dy, fits_b) = first_same d b o q in
    let heads = String-cons_inj x y rest rest' (sym here ∙ there) in
    let codes : code c ≡ code d = cx ∙ ap code heads.0 ∙ sym dy in
    ap (λ k. k ∷ a) (Char-path c d codes)
    ∙ ap (λ k. d ∷ k)
        (same_length a b rest' (rw heads.1 at fits_a) fits_b (same_rest c d a b codes e))

owners_equal :
    (object_name a b : String) (others_of_a others_of_b : List String)
    → contains others_of_a b ≡ true
    → contains others_of_b a ≡ true
    → owns_by_name object_name a others_of_a ≡ true
    → owns_by_name object_name b others_of_b ≡ true
    → a ≡ b
unfolding owns_by_name extends_prefix
owners_equal object_name a b others_of_a others_of_b knows_b knows_a mine yours =
    let fits_a : extends_prefix (a ++ "-") object_name ≡ true = ground arith in
    let fits_b : extends_prefix (b ++ "-") object_name ≡ true = ground arith in
    elim (Bool-cases (leb (byte_length b) (byte_length a))) [
      | inr longer ↦
          let taken = claims object_name a b others_of_a knows_b longer fits_b in
          absurd (ground arith)
      | inl le ↦ elim (Bool-cases (leb (byte_length a) (byte_length b))) [
        | inr longer ↦
            let taken = claims object_name b a others_of_b knows_a longer fits_a in
            absurd (ground arith)
        | inl ge ↦ same_length a b object_name (ground arith) (ground arith) (ground arith)
      ]
    ]

-- An object that one release owns is owned by no other release, where each of the two sees the other
-- among its neighbours.
pub owns_by_name_unique :
    (object_name a b : String) (others_of_a others_of_b : List String)
    → contains others_of_a b ≡ true
    → contains others_of_b a ≡ true
    → a ≢ b
    → owns_by_name object_name b others_of_b ≡ true
    → owns_by_name object_name a others_of_a ≡ false
owns_by_name_unique object_name a b others_of_a others_of_b knows_b knows_a ne yours =
    elim (Bool-cases (owns_by_name object_name a others_of_a)) [
      | inr other ↦ other
      | inl mine ↦
          absurd
            (ne (owners_equal object_name a b others_of_a others_of_b knows_b knows_a mine yours))
    ]
