-- ===== src/Base/Parse.antt =====
-- More of Go's standard library on texts: `strconv.Atoi`, `hex.DecodeString`, `strings.Split` and
-- `strings.TrimSpace`; and the product of a number of seconds with `time.Second`, which wraps at 64 bits.
use Prim.Native.Char.{Char, code}
use Prim.Native.Nat.{◌^◌, ◌%◌}
use hss_science.Base.{
  ℕ, zero, suc, ◌+◌, ◌-◌, ◌*◌, String, Bool, Option, none, some, List, on_row, leb, ltb, nat_eq,
  if◌then◌else◌, ◌&&◌, [], ◌∷◌, ◌||◌, ◌==◌,
}
use hss_science.Base.Int.{ℤ, pos, negsuc}
use hss_science.Base.Text.{has_prefix}

-- The value of a decimal digit.
unfoldable pub digit : Char → Option ℕ
digit c = if leb b'0' (code c) && leb (code c) b'9' then some (code c - b'0') else none

-- The value of the digits of a text, after those whose value is `n`.
unfoldable pub digits_after : ℕ → String → Option ℕ
unfolding digit
digits_after n String.[] = some n
digits_after n (String.◌∷◌ c s) = on_row (digit c) none (λ d. digits_after (n * 10 + d) s)

-- One digit at least.
unfoldable pub digits : String → Option ℕ
unfolding digits_after
digits String.[] = none
digits (String.◌∷◌ c s) = digits_after 0 (String.◌∷◌ c s)

-- An `int64`, from its sign and its absolute value.
abbrev pub positive : ℕ → Option ℤ
positive n = if ltb n (2 ^ 63) then some (pos n) else none

abbrev pub negative : ℕ → Option ℤ
negative zero = some (pos zero)
negative (suc n) = if ltb n (2 ^ 63) then some (negsuc n) else none

-- `strconv.Atoi`, on a machine whose `int` has 64 bits
unfoldable pub atoi : String → Option ℤ
unfolding digits
atoi String.[] = none
atoi (String.◌∷◌ c s) =
    if nat_eq (code c) b'-'
    then on_row (digits s) none (λ n. negative n)
    else (if nat_eq (code c) b'+'
        then on_row (digits s) none (λ n. positive n)
        else on_row (digits (String.◌∷◌ c s)) none (λ n. positive n))

-- The value of a hexadecimal digit.
unfoldable pub hex_digit : Char → Option ℕ
hex_digit c =
    if leb b'0' (code c) && leb (code c) b'9'
    then some (code c - b'0')
    else (if leb b'a' (code c) && leb (code c) b'f'
        then some (code c - b'a' + 10)
        else (if leb b'A' (code c) && leb (code c) b'F' then some (code c - b'A' + 10) else none))

-- `hex.DecodeString`
unfoldable pub hex_decode : String → Option (List ℕ)
unfolding hex_digit
hex_decode String.[] = some []
hex_decode (String.◌∷◌ c String.[]) = none
hex_decode (String.◌∷◌ c (String.◌∷◌ d s)) = on_row (hex_digit c) none (λ high.
    on_row (hex_digit d) none
      (λ low. on_row (hex_decode s) none (λ rest. some ((high * 16 + low) ∷ rest))))

-- `unicode.IsSpace`
abbrev pub is_space : Char → Bool
is_space c =
    let n = code c in
    (leb 9 n && leb n 13)
    || (nat_eq n 32
        || (nat_eq n 133
            || (nat_eq n 160
                || (nat_eq n 5760
                    || ((leb 8192 n && leb n 8202)
                        || (nat_eq n 8232
                            || (nat_eq n 8233
                                || (nat_eq n 8239 || (nat_eq n 8287 || nat_eq n 12288)))))))))

unfoldable pub trim_left : String → String
trim_left String.[] = String.[]
trim_left (String.◌∷◌ c s) = let rest = trim_left s in if is_space c then rest else String.◌∷◌ c s

unfoldable pub trim_right : String → String
trim_right String.[] = String.[]
trim_right (String.◌∷◌ c s) =
    let rest = trim_right s in if is_space c && rest == "" then String.[] else String.◌∷◌ c rest

-- `strings.TrimSpace`
unfoldable pub trim_space : String → String
unfolding trim_left trim_right
trim_space s = trim_right (trim_left s)

-- A character before the first part.
abbrev pub extend : Char → List String → List String
extend c [] = String.◌∷◌ c String.[] ∷ []
extend c (part ∷ parts) = String.◌∷◌ c part ∷ parts

-- The parts of a text, of which `skip` characters still belong to a separator of `more + 1`.
unfoldable pub parts_after : String → ℕ → ℕ → String → List String
unfolding has_prefix
parts_after sep more skip String.[] = "" ∷ []
parts_after sep more (suc skip) (String.◌∷◌ c s) = parts_after sep more skip s
parts_after sep more zero (String.◌∷◌ c s) =
    let next = parts_after sep more more s in
    let rest = parts_after sep more zero s in
    if has_prefix (String.◌∷◌ c s) sep then "" ∷ next else extend c rest

abbrev pub size : String → ℕ
size String.[] = 0
size (String.◌∷◌ c s) = suc (size s)

-- `strings.Split`, at a separator that is not empty
unfoldable pub split : String → String → List String
unfolding parts_after
split s sep = parts_after sep (size sep - 1) 0 s

-- The `int64` whose 64 bits are those of the number.
abbrev pub to_int64 : ℕ → ℤ
to_int64 n = let m = n % 2 ^ 64 in if ltb m (2 ^ 63) then pos m else negsuc (2 ^ 64 - 1 - m)

-- `time.Duration(n) * unit`
unfoldable pub duration : ℕ → ℤ → ℤ
duration unit (pos n) = to_int64 (n * unit)
duration unit (negsuc n) = to_int64 (2 ^ 64 - (suc n * unit) % 2 ^ 64)
