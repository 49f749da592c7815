-- ===== src/Blob/Interceptor.antt =====
-- The authentication of every gRPC call of the blob service
-- (internal/transport/grpc/interceptor/auth.go). The verifier of go-oidc and the decoding of its
-- claims are parameters.
use Prim.Native.String.{◌++◌ as ◌<>◌}
use hss_science.Base.{
  none, some, [], ◌∷◌, refl, ◌≡◌, Option, List, Result, String, err, on_row, ok, if◌then◌else◌,
  arith, ◌↔◌, ◌==◌, some, ◌≢◌, true, Option-cases, Result-cases, inl, inr, eq_iff,
}
use hss_science.Grpc.{Code, unauthenticated}
use hss_science.Base.Text.{
  has_prefix, trim_prefix, append-trim_prefix, has_prefix-append, trim_prefix-append,
}

-- `metadata.FromIncomingContext` and `md.Get`: `none` where the context has no metadata.
abbrev pub Metadata : Type 0
Metadata = Option (String → List String)

-- The part of `extractBearerToken` that reads the first value.
unfoldable pub bearer_of : List String → Result Code String
bearer_of [] = err unauthenticated
bearer_of (val ∷ vals) =
    if has_prefix val "Bearer " then ok (trim_prefix val "Bearer ") else err unauthenticated

unfoldable pub extract_bearer_token : Metadata → Result Code String
unfolding bearer_of
extract_bearer_token md = on_row md (err unauthenticated) (λ get. bearer_of (get "authorization"))

pub bearer_of-eq-ok :
    (vals : List String) {raw : String}
    → bearer_of vals ≡ ok raw
    → (rest : List String) × (vals ≡ ("Bearer " <> raw) ∷ rest)
unfolding bearer_of
bearer_of-eq-ok [] h = absurd (ground (arith, h))
bearer_of-eq-ok (val ∷ vals) {raw} h =
    let bearer : has_prefix val "Bearer " ≡ true = ground (arith, h) in
    (vals, ground (arith, h, append-trim_prefix val "Bearer " bearer))

pub bearer_of-Bearer :
    (raw : String) (rest : List String) → bearer_of (("Bearer " <> raw) ∷ rest) ≡ ok raw
unfolding bearer_of
bearer_of-Bearer raw rest =
    rw (has_prefix-append "Bearer " raw) (rw (trim_prefix-append "Bearer " raw) refl)

module _ {Token : Type 0} (verify : String → Option Token)
    (claims_sub : Token → Option String) where
  -- `token.Claims(&claims); err != nil || claims.Sub == ""`
  unfoldable pub subject_of : Token → Result Code String
  subject_of token =
      on_row (claims_sub token) (err unauthenticated)
        (λ sub. if sub == "" then err unauthenticated else ok sub)

  -- The caller's subject, which the context of the handler carries.
  unfoldable pub authenticate : Metadata → Result Code String
  unfolding extract_bearer_token subject_of
  authenticate md = elim (extract_bearer_token md) [
    | err c ↦ err c
    | ok raw ↦ on_row (verify raw) (err unauthenticated) (λ token. subject_of token)
  ]

  -- `Unary` and `Stream`: the handler runs with the subject, or not at all.
  unfoldable pub intercept : {A : Type 0} → (String → Result Code A) → Metadata → Result Code A
  unfolding authenticate
  intercept handler md = elim (authenticate md) [ err c ↦ err c | ok sub ↦ handler sub ]

  subject_of-eq-ok :
      (token : Token) (sub : String)
      → subject_of token ≡ ok sub
      → (claims_sub token ≡ some sub) × (sub ≢ "")
  unfolding subject_of
  subject_of-eq-ok token sub h = elim (Option-cases (claims_sub token)) [
    | inl e ↦ absurd (ground (arith, h, e))
    | inr (s, e) ↦ (ground (arith, h, e), λ empty. ground (arith, h, e, empty, eq_iff s ""))
  ]

  -- What it takes to be let through as `sub`.
  pub record Admitted (md : Metadata) (sub : String) : Type 0 where
    pub get : String → List String
    pub raw : String
    pub rest : List String
    pub token : Token
    pub given : md ≡ some get
    pub bearer : get "authorization" ≡ ("Bearer " <> raw) ∷ rest
    pub verified : verify raw ≡ some token
    pub claimed : claims_sub token ≡ some sub
    pub named : sub ≢ ""

  Admitted-of_ok : (md : Metadata) (sub : String) → authenticate md ≡ ok sub → Admitted md sub
  unfolding authenticate
  Admitted-of_ok none sub h = absurd (ground (arith, h))
  Admitted-of_ok (some get) sub h = elim (Result-cases (bearer_of (get "authorization"))) [
    | inr (c, e) ↦ absurd (ground (arith, h, e))
    | inl (raw, e) ↦ elim (Option-cases (verify raw)) [
      | inl f ↦ absurd (ground (arith, h, e, f))
      | inr (token, f) ↦
          let (rest, bearer) = bearer_of-eq-ok (get "authorization") e in
          let (claimed, named) = subject_of-eq-ok token sub (ground (arith, h, e, f)) in
          record {
            get = get;
            raw = raw;
            rest = rest;
            token = token;
            given = refl;
            bearer = bearer;
            verified = f;
            claimed = claimed;
            named = named;
          }
    ]
  ]

  ok_of_Admitted : (md : Metadata) (sub : String) → Admitted md sub → authenticate md ≡ ok sub
  unfolding authenticate
  ok_of_Admitted md sub a = ground (
    arith,
    a.given,
    a.bearer,
    a.verified,
    a.claimed,
    a.named,
    bearer_of-Bearer a.raw a.rest,
    eq_iff sub "",
  )

  -- A call is let through as `sub` exactly where its first `authorization` value is `Bearer ` and a
  -- token that the verifier accepts, whose claims have the subject `sub`, not empty.
  pub authenticate_iff :
      (md : Metadata) (sub : String) → (authenticate md ≡ ok sub) ↔ Admitted md sub
  authenticate_iff md sub = (Admitted-of_ok md sub, ok_of_Admitted md sub)
