-- ===== src/Tests/Strokes.antt =====
-- Bytes as a text: each number in strokes, with a mark after it.
use Prim.Native.Char.{code}
use hss_science.Base.{
  ℕ, zero, suc, ◌+◌, String, Option, none, some, on_row, nat_eq, ◌∙◌, [], ◌∷◌, ◌≡◌, arith, refl,
  if◌then◌else◌, ap,
}
use hss_science.Authn.Cipher.{Bytes}

abbrev strokes : ℕ → String → String
strokes zero s = String.◌∷◌ "0" s
strokes (suc n) s = String.◌∷◌ "1" (strokes n s)

abbrev pub written : Bytes → String
written [] = ""
written (n ∷ b) = strokes n (written b)

abbrev pub read_after : ℕ → String → Option Bytes
read_after zero String.[] = some []
read_after (suc n) String.[] = none
read_after n (String.◌∷◌ c s) =
    let fewer = read_after 0 s in
    let more = read_after (suc n) s in
    if nat_eq (code c) b'1' then more else on_row fewer none (λ b. some (n ∷ b))

abbrev then_rest : ℕ → String → Option Bytes
then_rest k s = on_row (read_after 0 s) none (λ b. some (k ∷ b))

read-strokes : (n m k : ℕ) (s : String) → m + n ≡ k → read_after m (strokes n s) ≡ then_rest k s
read-strokes zero zero k s e = ap (λ j. then_rest j s) (omega (arith, e))
read-strokes zero (suc m) k s e = ap (λ j. then_rest j s) (omega (arith, e))
read-strokes (suc n) zero k s e = read-strokes n 1 k s (omega (arith, e))
read-strokes (suc n) (suc m) k s e = read-strokes n (suc (suc m)) k s (omega (arith, e))

pub read-written : (b : Bytes) → read_after 0 (written b) ≡ some b
read-written [] = refl
read-written (n ∷ b) = read-strokes n 0 n (written b) (omega arith) ∙ rw (read-written b) refl
