-- ===== src/Authn/Cipher.antt =====
-- The sealing of the login state (internal/pkg/crypto/aes.go). AES, GCM and base64 are parameters;
-- bytes are numbers.
use hss_science.Base.{
  ℕ, String, Option, none, some, on_row, List, ◌++◌, length, ltb, take, drop, [], ◌∷◌, ◌≡◌, arith,
  refl, if◌then◌else◌, ap, ◌+◌, Option-cases, inl, inr,
}

abbrev pub Bytes : Type 0
Bytes = List ℕ

pub record Gcm : Type 0 where
  pub nonce_size : ℕ
  pub seal : Bytes → Bytes → Bytes
  pub unseal : Bytes → Bytes → Option Bytes

-- `aes.NewCipher`, `cipher.NewGCM`, and `base64.URLEncoding`
pub record Primitives (Key Block : Type 0) : Type 0 where
  pub new_cipher : Key → Option Block
  pub new_gcm : Block → Option Gcm
  pub encode : Bytes → String
  pub decode : String → Option Bytes

module _ {Key Block : Type 0} (prim : Primitives Key Block) where
  abbrev pub gcm_of : Key → Option Gcm
  gcm_of key = on_row (prim.new_cipher key) none (λ block. prim.new_gcm block)

  -- `random n` is what `rand.Read` fills `n` bytes with, `none` for an error.
  unfoldable pub encrypt : (ℕ → Option Bytes) → Key → Bytes → Option String
  encrypt random key plaintext = on_row (gcm_of key) none (λ gcm.
      on_row (random gcm.nonce_size) none
        (λ nonce. some (prim.encode (nonce ++ gcm.seal nonce plaintext))))

  unfoldable pub decrypt : Key → String → Option Bytes
  decrypt key encoded = on_row (prim.decode encoded) none (λ sealed.
      on_row (gcm_of key) none (λ gcm.
        if ltb (length sealed) gcm.nonce_size
        then none
        else gcm.unseal (take gcm.nonce_size sealed) (drop gcm.nonce_size sealed)))

take-append : (xs ys : Bytes) → take (length xs) (xs ++ ys) ≡ xs
take-append [] ys = refl
take-append (x ∷ xs) ys = ap (◌∷◌ x) (take-append xs ys)

drop-append : (xs ys : Bytes) → drop (length xs) (xs ++ ys) ≡ ys
drop-append [] ys = refl
drop-append (x ∷ xs) ys = drop-append xs ys

length-append : (xs ys : Bytes) → length (xs ++ ys) ≡ length xs + length ys
length-append [] ys = omega arith
length-append (x ∷ xs) ys = omega (arith, length-append xs ys)

-- What is documented of the primitives: a 32-byte key makes a cipher, what was encoded decodes, and
-- what was sealed under a nonce opens under it.
pub record Documented {Key Block : Type 0} (prim : Primitives Key Block) (random : ℕ → Option Bytes)
    (key : Key) : Type 0 where
  pub gcm : Gcm
  pub makes : gcm_of prim key ≡ some gcm
  pub decodes : (b : Bytes) → prim.decode (prim.encode b) ≡ some b
  pub opens : (nonce p : Bytes) → gcm.unseal nonce (gcm.seal nonce p) ≡ some p
  pub fills : (n : ℕ) (b : Bytes) → random n ≡ some b → length b ≡ n

-- What `Encrypt` gives under a key, `Decrypt` gives back under it.
pub decrypt-encrypt :
    {Key Block : Type 0} (prim : Primitives Key Block) (random : ℕ → Option Bytes) (key : Key)
    (plaintext : Bytes) (s : String)
    → Documented prim random key
    → encrypt prim random key plaintext ≡ some s
    → decrypt prim key s ≡ some plaintext
unfolding encrypt decrypt
decrypt-encrypt prim random key plaintext s d h = elim (Option-cases (random d.gcm.nonce_size)) [
  | inl e ↦ absurd (ground (arith, h, e, d.makes))
  | inr (nonce, e) ↦
      let sealed = d.gcm.seal nonce plaintext in
      let size = d.fills d.gcm.nonce_size nonce e in
      ground (
        arith,
        h,
        e,
        d.makes,
        d.decodes (nonce ++ sealed),
        size,
        length-append nonce sealed,
        take-append nonce sealed,
        drop-append nonce sealed,
        d.opens nonce plaintext,
      )
]
