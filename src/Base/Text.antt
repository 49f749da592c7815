-- ===== src/Base/Text.antt =====
-- The functions of Go's `strings` on which the services rest, character by character.
use Prim.Native.Char.{code}
use Prim.Native.String.{◌++◌ as ◌<>◌}
use Prim.Native.String.append
use text.Mathlib.TextEquality.{Char-path}
use hss_science.Base.{
  String, ◌≡◌, refl, Bool, true, false, ◌&&◌, ◌||◌, arith, nat_eq, if◌then◌else◌,
}

-- `strings.HasPrefix`
unfoldable pub has_prefix : String → String → Bool
has_prefix s String.[] = true
has_prefix String.[] (String.◌∷◌ p ps) = false
has_prefix (String.◌∷◌ c s) (String.◌∷◌ p ps) = nat_eq (code c) (code p) && has_prefix s ps

-- `s[len(prefix):]`
unfoldable pub drop_prefix : String → String → String
drop_prefix s String.[] = s
drop_prefix String.[] (String.◌∷◌ p ps) = String.[]
drop_prefix (String.◌∷◌ c s) (String.◌∷◌ p ps) = drop_prefix s ps

-- `strings.TrimPrefix`
unfoldable pub trim_prefix : String → String → String
unfolding has_prefix drop_prefix
trim_prefix s p = if has_prefix s p then drop_prefix s p else s

-- `strings.Contains`
unfoldable pub contains : String → String → Bool
unfolding has_prefix
contains String.[] sub = has_prefix String.[] sub
contains (String.◌∷◌ c s) sub = has_prefix (String.◌∷◌ c s) sub || contains s sub

pub has_prefix-append : (p s : String) → has_prefix (p <> s) p ≡ true
unfolding has_prefix
has_prefix-append String.[] s = refl
has_prefix-append (String.◌∷◌ c p) s = rw append.cons (ground (arith, has_prefix-append p s))

pub drop_prefix-append : (p s : String) → drop_prefix (p <> s) p ≡ s
unfolding drop_prefix
drop_prefix-append String.[] s = rw append.nil refl
drop_prefix-append (String.◌∷◌ c p) s = rw append.cons (drop_prefix-append p s)

pub append-drop_prefix : (s p : String) → has_prefix s p ≡ true → p <> drop_prefix s p ≡ s
unfolding has_prefix drop_prefix
append-drop_prefix s String.[] h = append.nil s
append-drop_prefix String.[] (String.◌∷◌ p ps) h = cc
append-drop_prefix (String.◌∷◌ c s) (String.◌∷◌ p ps) h =
    rw append.cons (cc (Char-path c p (ground arith), append-drop_prefix s ps (ground arith)))

-- A text that has the prefix is the prefix and what `TrimPrefix` leaves.
pub append-trim_prefix : (s p : String) → has_prefix s p ≡ true → p <> trim_prefix s p ≡ s
unfolding trim_prefix
append-trim_prefix s p h = rw h (append-drop_prefix s p h)

pub trim_prefix-append : (p s : String) → trim_prefix (p <> s) p ≡ s
unfolding trim_prefix
trim_prefix-append p s = rw (has_prefix-append p s) (drop_prefix-append p s)
