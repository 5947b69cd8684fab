-- ===== src/Base/Steps.antt =====
-- What a chain of calls does to the world, from what each call does: rules for the combinators of
-- `Base.Go`, for any relation between the world before and the world after that composes.
use mathlib.Core.Path.{◌≡◌, refl, ap}
use mathlib.Core.Logic.{◌⊎◌, inl, inr}
use okdp_control_plane_serve.Base.Go.{Result, ok, err, Action, and_then, try, ◌>>=◌}

pub Result-cases :
    {E A : Type 0} (r : Result E A) → ((a : A) × (r ≡ ok a)) ⊎ ((e : E) × (r ≡ err e))
Result-cases (ok a) = inl (a, refl)
Result-cases (err e) = inr (e, refl)

pub record IsPreorder {ℓ} {W : Type 0} (R : W → W → Type ℓ) : Type ℓ where
  pub stay : (w : W) → R w w
  pub join : (u v w : W) → R u v → R v w → R u w

module _ {ℓ} {W : Type 0} (R : W → W → Type ℓ) (p : IsPreorder R) where
  pub try_step :
      {D E A B : Type 0} (m : Action W D A) (f : Result D A → Action W E B) (w : W)
      → R w (m w).1
      → ((r : Result D A) → (m w).0 ≡ r → R (m w).1 (f r (m w).1).1)
      → R w (try m f w).1
  try_step m f w first later = p.join w (m w).1 _ first (later (m w).0 refl)

  pub bind_step :
      {E A B : Type 0} (m : Action W E A) (f : A → Action W E B) (w : W)
      → R w (m w).1
      → ((a : A) → (m w).0 ≡ ok a → R (m w).1 (f a (m w).1).1)
      → R w ((m >>= f) w).1
  bind_step {E} {A} m f w first later = go (m w).0 refl
    where
      go : (r : Result E A) → (m w).0 ≡ r → R w (and_then r f (m w).1).1
      go (ok a) e = p.join w (m w).1 _ first (later a e)
      go (err d) e = first

module _ {W E A B : Type 0} where
  pub bind-ok :
      (m : Action W E A) (f : A → Action W E B) (w : W) (a : A)
      → (m w).0 ≡ ok a
      → (m >>= f) w ≡ f a (m w).1
  bind-ok m f w a e = ap (λ r. and_then r f (m w).1) e

  pub bind-err :
      (m : Action W E A) (f : A → Action W E B) (w : W) (d : E)
      → (m w).0 ≡ err d
      → (m >>= f) w ≡ (err d, (m w).1)
  bind-err m f w d e = ap (λ r. and_then r f (m w).1) e

module _ {W D E A B : Type 0} where
  pub try-eq :
      (m : Action W D A) (f : Result D A → Action W E B) (w : W) (r : Result D A)
      → (m w).0 ≡ r
      → try m f w ≡ f r (m w).1
  try-eq m f w r e = ap (λ x. f x (m w).1) e
