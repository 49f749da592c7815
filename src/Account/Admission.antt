-- ===== src/Account/Admission.antt =====
-- Who is let through to the account management service.
use Prim.{⊥}
use Prim.Native.String.{◌++◌ as ◌<>◌}
use text.Mathlib.TextPositions.{eq_refl}
use hss_science.Base.{
  sym, ◌↔◌, ◌≢◌, ◌⊎◌, inl, inr, false, ◌∙◌, [], ◌∷◌, ◌≡◌, arith, refl, List, String, some, none,
  Option-cases, eq_iff, ℕ, ok, Result-cases, Bool-cases,
}
use hss_science.Blob.Interceptor.{Metadata, bearer_of, bearer_of-eq-ok, bearer_of-Bearer}
use hss_science.Account.Interceptor.{
  JwtClaims, PublicKey, Jose, first_bearer, bearer_token, first_kid, try_key, verify_with,
  verify_jwt, admit_claims, jwt_auth,
}
use hss_science.Base.Int.{ltb_ℤ, pos}

-- Some element of the list satisfies the predicate.
abbrev pub Any {ℓ} : {A : Type ℓ} → (A → Type 0) → List A → Type 0
Any P [] = ⊥
Any P (x ∷ xs) = P x ⊎ Any P xs

first_bearer-bearer_of : (vals : List String) → first_bearer vals ≡ bearer_of vals
unfolding first_bearer bearer_of
first_bearer-bearer_of [] = refl
first_bearer-bearer_of (raw ∷ vals) = refl

module _ {Jws K Payload : Type 0} (jose : Jose Jws K Payload) where
  -- The key has the id that the token names, is an RSA key, and verifies the token.
  pub Signs : Jws → String → PublicKey K → Type 0
  Signs tok kid k = (k.id ≡ kid) × ((rsa : K) × (k.rsa ≡ some rsa) × (jose.verify tok rsa ≢ none))

  try_key-Signs :
      (tok : Jws) (kid : String) (k : PublicKey K) {p : Payload}
      → try_key jose tok kid k ≡ some p
      → Signs tok kid k × ((rsa : K) × (jose.verify tok rsa ≡ some p))
  unfolding Signs
  try_key-Signs tok kid k {p} h = elim (Option-cases k.rsa) [
    | inl e ↦ absurd (ground (arith, h, e))
    | inr (rsa, e) ↦
        let named : k.id ≡ kid = ground (arith, h, e, eq_iff k.id kid) in
        let valid : jose.verify tok rsa ≡ some p = ground (arith, h, e) in
        ((named, (rsa, e, λ z. ground (arith, z, valid))), (rsa, valid))
  ]

  try_key-of_Signs :
      (tok : Jws) (kid : String) (k : PublicKey K)
      → Signs tok kid k
      → (p : Payload) × (try_key jose tok kid k ≡ some p)
  unfolding Signs
  try_key-of_Signs tok kid k (named, (rsa, e, valid)) = elim (Option-cases (jose.verify tok rsa)) [
    | inl f ↦ absurd (valid f)
    | inr (p, f) ↦ (p, ground (arith, e, f, named, eq_refl kid))
  ]

  verify_with-Signs :
      (tok : Jws) (kid : String) (keys : List (PublicKey K)) {p : Payload}
      → verify_with jose tok kid keys ≡ some p
      → Any (Signs tok kid) keys × ((rsa : K) × (jose.verify tok rsa ≡ some p))
  unfolding verify_with
  verify_with-Signs tok kid [] h = absurd (ground (arith, h))
  verify_with-Signs tok kid (k ∷ ks) {p} h = elim (Option-cases (try_key jose tok kid k)) [
    | inl e ↦ let (found, valid) = verify_with-Signs tok kid ks (rw e at h) in (inr found, valid)
    | inr (q, e) ↦
        let hit : try_key jose tok kid k ≡ some p = ground (arith, h, e) in
        let (signs, valid) = try_key-Signs tok kid k hit in (inl signs, valid)
  ]

  verify_with-of_Signs :
      (tok : Jws) (kid : String) (keys : List (PublicKey K))
      → Any (Signs tok kid) keys
      → (p : Payload) × (verify_with jose tok kid keys ≡ some p)
  unfolding verify_with
  verify_with-of_Signs tok kid [] h = absurd h
  verify_with-of_Signs tok kid (k ∷ ks) (inl signs) =
      let (p, e) = try_key-of_Signs tok kid k signs in (p, rw e refl)
  verify_with-of_Signs tok kid (k ∷ ks) (inr found) = elim (Option-cases (try_key jose tok kid k)) [
    | inl e ↦ rw e (verify_with-of_Signs tok kid ks found)
    | inr (p, e) ↦ (p, rw e refl)
  ]

  -- What it takes to be let through as `sub`.
  pub record Admitted (keys : List (PublicKey K)) (issuer : String) (now : ℕ)
      (payload_of : Jws → Payload) (md : Metadata) (sub : String) : Type 0 where
    pub get : String → List String
    pub raw : String
    pub vals : List String
    pub tok : Jws
    pub claims : JwtClaims
    pub given : md ≡ some get
    pub bearer : get "authorization" ≡ ("Bearer " <> raw) ∷ vals
    pub parsed : jose.parse_signed raw ≡ some tok
    pub signed : Any (Signs tok (first_kid (jose.key_ids tok))) keys
    pub decoded : jose.unmarshal (payload_of tok) ≡ some claims
    pub issued : claims.issuer ≡ issuer
    pub fresh : ltb_ℤ claims.expiry (pos now) ≡ false
    pub subject : claims.subject ≡ sub
    pub named : sub ≢ ""

  admit_claims-eq-ok :
      (issuer : String) (now : ℕ) (c : JwtClaims) (sub : String)
      → admit_claims jose issuer now c ≡ ok sub
      → (c.issuer ≡ issuer) × (ltb_ℤ c.expiry (pos now) ≡ false) × (c.subject ≡ sub) × (sub ≢ "")
  unfolding admit_claims
  admit_claims-eq-ok issuer now c sub h = elim (Bool-cases (ltb_ℤ c.expiry (pos now))) [
    | inl late ↦ absurd (ground (arith, h, late))
    | inr fresh ↦ (
      ground (arith, h, fresh, eq_iff c.issuer issuer),
      fresh,
      ground (arith, h, fresh),
      λ empty. ground (arith, h, fresh, empty, eq_iff c.subject ""),
    )
  ]

  module _ (payload_of : Jws → Payload)
      (verify_payload : (tok : Jws) (rsa : K) (p : Payload)
        → jose.verify tok rsa ≡ some p
        → p ≡ payload_of tok) where
    verify_jwt-eq-some :
        (raw : String) (keys : List (PublicKey K)) {c : JwtClaims}
        → verify_jwt jose raw keys ≡ some c
        → (tok : Jws) × (jose.parse_signed raw ≡ some tok)
          × Any (Signs tok (first_kid (jose.key_ids tok))) keys
          × (jose.unmarshal (payload_of tok) ≡ some c)
    unfolding verify_jwt
    verify_jwt-eq-some raw keys {c} h = elim (Option-cases (jose.parse_signed raw)) [
      | inl e ↦ absurd (ground (arith, h, e))
      | inr (tok, e) ↦
          elim (Option-cases (verify_with jose tok (first_kid (jose.key_ids tok)) keys)) [
            | inl f ↦ absurd (ground (arith, h, e, f))
            | inr (p, f) ↦
                let (signed, (rsa, valid)) =
                  verify_with-Signs tok (first_kid (jose.key_ids tok)) keys f in
                (tok, e, signed, ground (arith, h, e, f, verify_payload tok rsa p valid))
          ]
    ]

    verify_jwt-of_Signs :
        (raw : String) (keys : List (PublicKey K)) (tok : Jws) (c : JwtClaims)
        → jose.parse_signed raw ≡ some tok
        → Any (Signs tok (first_kid (jose.key_ids tok))) keys
        → jose.unmarshal (payload_of tok) ≡ some c
        → verify_jwt jose raw keys ≡ some c
    unfolding verify_jwt
    verify_jwt-of_Signs raw keys tok c e signed decoded =
        let (p, f) = verify_with-of_Signs tok (first_kid (jose.key_ids tok)) keys signed in
        let (_, (rsa, valid)) = verify_with-Signs tok (first_kid (jose.key_ids tok)) keys f in
        ground (arith, e, f, decoded, verify_payload tok rsa p valid)

    Admitted-of_ok :
        (keys : List (PublicKey K)) (issuer : String) (now : ℕ) (md : Metadata) (sub : String)
        → jwt_auth jose keys issuer now md ≡ ok sub
        → Admitted keys issuer now payload_of md sub
    unfolding jwt_auth bearer_token
    Admitted-of_ok keys issuer now none sub h = absurd (ground (arith, h))
    Admitted-of_ok keys issuer now (some get) sub h =
        elim (Result-cases (first_bearer (get "authorization"))) [
          | inr (x, e) ↦ absurd (ground (arith, h, e))
          | inl (raw, e) ↦ elim (Option-cases (verify_jwt jose raw keys)) [
            | inl f ↦ absurd (ground (arith, h, e, f))
            | inr (c, f) ↦
                let (vals, bearer) =
                  bearer_of-eq-ok (get "authorization")
                    (sym (first_bearer-bearer_of (get "authorization")) ∙ e) in
                let (tok, parsed, signed, decoded) = verify_jwt-eq-some raw keys f in
                let (issued, fresh, subject, named) =
                  admit_claims-eq-ok issuer now c sub (ground (arith, h, e, f)) in
                record {
                  get = get;
                  raw = raw;
                  vals = vals;
                  tok = tok;
                  claims = c;
                  given = refl;
                  bearer = bearer;
                  parsed = parsed;
                  signed = signed;
                  decoded = decoded;
                  issued = issued;
                  fresh = fresh;
                  subject = subject;
                  named = named;
                }
          ]
        ]

    ok_of_Admitted :
        (keys : List (PublicKey K)) (issuer : String) (now : ℕ) (md : Metadata) (sub : String)
        → Admitted keys issuer now payload_of md sub
        → jwt_auth jose keys issuer now md ≡ ok sub
    unfolding jwt_auth bearer_token admit_claims
    ok_of_Admitted keys issuer now md sub a =
        let claims = verify_jwt-of_Signs a.raw keys a.tok a.claims a.parsed a.signed a.decoded in
        ground (
          arith,
          a.given,
          a.bearer,
          first_bearer-bearer_of (a.get "authorization"),
          bearer_of-Bearer a.raw a.vals,
          claims,
          a.issued,
          a.fresh,
          a.subject,
          a.named,
          eq_iff sub "",
          eq_refl issuer,
        )

    -- A call is let through as `sub` exactly where its first `authorization` value is `Bearer ` and a
    -- token that parses, that an RSA key of the set with the token's key id verifies, and whose
    -- payload has the service's issuer, an expiry not before the present second, and the subject
    -- `sub`, not empty; given that to verify a token yields its payload.
    pub jwt_auth_iff :
        (keys : List (PublicKey K)) (issuer : String) (now : ℕ) (md : Metadata) (sub : String)
        → (jwt_auth jose keys issuer now md ≡ ok sub) ↔ Admitted keys issuer now payload_of md sub
    jwt_auth_iff keys issuer now md sub =
        (Admitted-of_ok keys issuer now md sub, ok_of_Admitted keys issuer now md sub)
