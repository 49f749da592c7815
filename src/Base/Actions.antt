-- ===== src/Base/Actions.antt =====
-- Actions: Go methods that change shared state and return `(T, error)`. What was written before an
-- error stays written, so the state comes back beside the error as well.
use mathlib.Core.Path.{◌≡◌, refl}
use mathlib.Core.Logic.{◌⊎◌, inl, inr}
use native.Mathlib.Omega.{arith}

pub data Result {ℓ} (E A : Type ℓ) : Type ℓ where
  ok : A → Result E A
  err : E → Result E A

abbrev pub Action {ℓ} : Type ℓ → Type ℓ → Type ℓ → Type ℓ
Action S E A = S → Result E A × S

module _ {ℓ} {S E A : Type ℓ} where
  unfoldable pub pure : A → Action S E A
  pure a s = (ok a, s)

  -- `return ..., err`
  unfoldable pub fail : E → Action S E A
  fail e s = (err e, s)

  unfoldable pub lift : Result E A → Action S E A
  lift r s = (r, s)

  unfoldable pub gets : (S → A) → Action S E A
  gets f s = (ok (f s), s)

  pub pure_lem : (a : A) (s : S) → pure a s ≡ (ok a, s)
  unfolding pure
  pure_lem a s = refl

  pub pure-eq-ok : (a : A) (s : S) {b : A} {t : S} → pure a s ≡ (ok b, t) → (a ≡ b) × (s ≡ t)
  unfolding pure
  pure-eq-ok a s h = (ground arith, ground arith)

  pub fail-ne-ok : (e : E) (s : S) {b : A} {t : S} → ¬ (fail e s ≡ (ok b, t))
  unfolding fail
  fail-ne-ok e s h = ground arith

module _ {ℓ} {S E A B : Type ℓ} where
  -- `if err != nil { return ..., err }` between two calls
  abbrev pub continue : Result E A → (A → Action S E B) → Action S E B
  continue (ok a) f s = f a s
  continue (err e) f s = (err e, s)

  infixl 5 ◌>>=◌ ◌>>◌
  unfoldable pub ◌>>=◌ : Action S E A → (A → Action S E B) → Action S E B
  unfolding pure fail lift gets
  ◌>>=◌ m f s = let (r, t) = m s in continue r f t

  abbrev pub ◌>>◌ : Action S E A → Action S E B → Action S E B
  m >> k = m >>= λ _. k

  pub bind_of_ok :
      (m : Action S E A) (f : A → Action S E B) {s t : S} {a : A}
      → m s ≡ (ok a, t)
      → (m >>= f) s ≡ f a t
  unfolding ◌>>=◌
  bind_of_ok m f h = rw h refl

  pub bind_of_err :
      (m : Action S E A) (f : A → Action S E B) {s t : S} {e : E}
      → m s ≡ (err e, t)
      → (m >>= f) s ≡ (err e, t)
  unfolding ◌>>=◌
  bind_of_err m f h = rw h refl

  -- A `do` block that returns has returned at its first step.
  pub bind-eq-ok :
      (m : Action S E A) (f : A → Action S E B) (s : S) {b : B} {u : S}
      → (m >>= f) s ≡ (ok b, u)
      → (a : A) × (t : S) × (m s ≡ (ok a, t)) × (f a t ≡ (ok b, u))
  unfolding ◌>>=◌
  bind-eq-ok m f s {b} {u} h = split (m s) refl
    where
      split :
          (r : Result E A × S)
          → m s ≡ r
          → (a : A) × (t : S) × (m s ≡ (ok a, t)) × (f a t ≡ (ok b, u))
      split (ok a, t) e = (a, t, e, ground (arith, h, e))
      split (err x, t) e = absurd (ground (arith, h, e))

pub Result-cases {ℓ} :
    {E A : Type ℓ} (r : Result E A) → ((a : A) × (r ≡ ok a)) ⊎ ((e : E) × (r ≡ err e))
Result-cases (ok a) = inl (a, refl)
Result-cases (err e) = inr (e, refl)

module _ {ℓ} {S E F A : Type ℓ} where
  -- What a caller makes of an error, where it passes the value on.
  unfoldable pub map_err : (E → F) → Action S E A → Action S F A
  map_err f m s = let (r, t) = m s in (elim r [ ok a ↦ ok a | err e ↦ err (f e) ], t)

  pub map_err-eq-ok :
      (f : E → F) (m : Action S E A) (s t : S) (a : A) → map_err f m s ≡ (ok a, t) → m s ≡ (ok a, t)
  unfolding map_err
  map_err-eq-ok f m s t a h = elim (Result-cases (m s).0) [
    | inl (b, e) ↦ ground (arith, h, e)
    | inr (x, e) ↦ absurd (ground (arith, h, e))
  ]

module _ {ℓ} {S E F A B : Type ℓ} where
  -- What a caller makes of a value or of an error that it looks at, in the state that is left.
  abbrev pub resume : (A → Action S F B) → (E → Action S F B) → Result E A → Action S F B
  resume f g (ok a) s = f a s
  resume f g (err e) s = g e s

  unfoldable pub handle : Action S E A → (A → Action S F B) → (E → Action S F B) → Action S F B
  unfolding pure fail lift gets
  handle m f g s = let (r, t) = m s in resume f g r t
