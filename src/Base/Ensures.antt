-- ===== src/Base/Ensures.antt =====
-- What holds of the value that an action returns, one rule for each way to build an action.
use hss_science.Base.{
  ◌≡◌, refl, Bool, true, false, ok, Action, pure, fail, ◌>>=◌, if◌then◌else◌, bind-eq-ok,
  pure-eq-ok, fail-ne-ok, subst,
}

-- Where `m` returns a value, it is one of `Q`.
pub record Ensures {ℓ} {S E A : Type ℓ} (Q : A → Type ℓ) (m : Action S E A) : Type ℓ where
  pub at : (s t : S) (a : A) → m s ≡ (ok a, t) → Q a

module _ {ℓ} {S E A : Type ℓ} {Q : A → Type ℓ} where
  pub Ensures-pure : (a : A) → Q a → Ensures {S = S} {E = E} Q (pure a)
  Ensures-pure a q = record { at = λ s t b h. subst Q (pure-eq-ok a s h).0 q }

  pub Ensures-fail : (e : E) → Ensures {S = S} Q (fail e)
  Ensures-fail e = record { at = λ s t b h. absurd (fail-ne-ok e s h) }

  pub Ensures-if :
      (b : Bool) (m n : Action S E A)
      → (b ≡ true → Ensures Q m)
      → (b ≡ false → Ensures Q n)
      → Ensures Q (if b then m else n)
  Ensures-if true m n km kn = km refl
  Ensures-if false m n km kn = kn refl

module _ {ℓ} {S E A B : Type ℓ} {Q : B → Type ℓ} where
  pub Ensures-bind :
      (m : Action S E A) (f : A → Action S E B) → ((a : A) → Ensures Q (f a)) → Ensures Q (m >>= f)
  Ensures-bind m f kf = record {
    at = λ s t b h. let (a, u, _, ran) = bind-eq-ok m f s h in (kf a).at u t b ran;
  }

  -- The rest of the block may use what its first step ensures.
  pub Ensures-bind_with :
      (R : A → Type ℓ) (m : Action S E A) (f : A → Action S E B)
      → Ensures R m
      → ((a : A) → R a → Ensures Q (f a))
      → Ensures Q (m >>= f)
  Ensures-bind_with R m f km kf = record {
    at = λ s t b h.
        let (a, u, got, ran) = bind-eq-ok m f s h in (kf a (km.at s u a got)).at u t b ran;
  }
