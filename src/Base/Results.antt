-- ===== src/Base/Results.antt =====
-- Calls that return `(T, error)` and change nothing, one after the other.
use hss_science.Base.{refl, Result, ok, err, ◌≡◌, arith}

module _ {ℓ} {E A B : Type ℓ} where
  infixl 5 ◌>>=◌
  unfoldable pub ◌>>=◌ : Result E A → (A → Result E B) → Result E B
  ok a >>= f = f a
  err e >>= f = err e

  -- Where the whole returns, so does the first call, and the rest with its value.
  pub then_ok :
      (r : Result E A) (f : A → Result E B) {b : B}
      → r >>= f ≡ ok b
      → (a : A) × (r ≡ ok a) × (f a ≡ ok b)
  unfolding ◌>>=◌
  then_ok (ok a) f h = (a, refl, h)
  then_ok (err e) f h = absurd (ground (arith, h))
