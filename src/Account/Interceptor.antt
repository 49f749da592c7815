-- ===== src/Account/Interceptor.antt =====
-- The authentication of every call of the account management service
-- (internal/grpc/interceptor.go). The library for signed tokens (go-jose) and the decoding of the
-- payload are parameters; the rest of a parsed token is its payload.
use hss_science.Base.{
  none, some, Option, List, Result, String, err, ok, on_row, ℕ, not, [], ◌==◌, ◌∷◌, if◌then◌else◌,
}
use hss_science.Base.Int.{ℤ, pos, ltb_ℤ}
use hss_science.Base.Text.{has_prefix, trim_prefix}
use hss_science.Grpc.{Code, unauthenticated}
use hss_science.Blob.Interceptor.{Metadata}

pub record JwtClaims : Type 0 where
  pub subject : String
  pub expiry : ℤ
  pub issuer : String

-- A key of the published set; `rsa` is `none` where the key is of another kind.
pub record PublicKey (K : Type 0) : Type 0 where
  pub id : String
  pub rsa : Option K

unfoldable pub first_bearer : List String → Result Code String
first_bearer [] = err unauthenticated
first_bearer (raw ∷ vals) =
    if has_prefix raw "Bearer " then ok (trim_prefix raw "Bearer ") else err unauthenticated

unfoldable pub bearer_token : Metadata → Result Code String
unfolding first_bearer
bearer_token md = on_row md (err unauthenticated) (λ get. first_bearer (get "authorization"))

-- `tok.Signatures[0].Header.KeyID`, if there is one
abbrev pub first_kid : List String → String
first_kid [] = ""
first_kid (kid ∷ kids) = kid

-- go-jose: `ParseSigned` for RS256, the key ids of a token's signatures, `Verify`, and the decoding.
pub record Jose (Jws K Payload : Type 0) : Type 0 where
  pub parse_signed : String → Option Jws
  pub key_ids : Jws → List String
  pub verify : Jws → K → Option Payload
  pub unmarshal : Payload → Option JwtClaims

module _ {Jws K Payload : Type 0} (jose : Jose Jws K Payload) where
  -- The body of the loop: what one key makes of the token.
  abbrev pub try_key : Jws → String → PublicKey K → Option Payload
  try_key tok kid k =
      if not (k.id == kid) then none else on_row k.rsa none (λ rsa. jose.verify tok rsa)

  -- The loop over the keys, which ends at the first that verifies.
  unfoldable pub verify_with : Jws → String → List (PublicKey K) → Option Payload
  verify_with tok kid [] = none
  verify_with tok kid (k ∷ ks) =
      let rest = verify_with tok kid ks in on_row (try_key tok kid k) rest (λ payload. some payload)

  unfoldable pub verify_jwt : String → List (PublicKey K) → Option JwtClaims
  unfolding verify_with
  verify_jwt raw keys = on_row (jose.parse_signed raw) none (λ tok.
      on_row (verify_with tok (first_kid (jose.key_ids tok)) keys) none
        (λ payload. jose.unmarshal payload))

  -- The three tests of the claims.
  unfoldable pub admit_claims : String → ℕ → JwtClaims → Result Code String
  admit_claims issuer now claims =
      if not (claims.issuer == issuer)
      then err unauthenticated
      else (if ltb_ℤ claims.expiry (pos now)
          then err unauthenticated
          else (if claims.subject == "" then err unauthenticated else ok claims.subject))

  -- The user that the context of the handler carries, at the second `now`.
  unfoldable pub jwt_auth : List (PublicKey K) → String → ℕ → Metadata → Result Code String
  unfolding bearer_token verify_jwt admit_claims
  jwt_auth keys issuer now md = elim (bearer_token md) [
    | err c ↦ err c
    | ok raw ↦ on_row (verify_jwt raw keys) (err unauthenticated) (λ c. admit_claims issuer now c)
  ]
