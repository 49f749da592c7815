-- ===== src/Config/Bounds.antt =====
-- What a configuration of the identity service that loads is sure to hold.
use hss_science.Base.{
  All, ok, ◌≢◌, length, ◌⊎◌, inl, inr, List, ◌≡◌, arith, if◌then◌else◌, String, subst, [], ◌==◌,
  ◌∷◌, ◌≤◌, some, Bool-cases, Option-cases, ℕ, eq_iff, ◌∙◌, ap,
}
use hss_science.Base.Parse.{trim_space, hex_decode, split}
use hss_science.Base.Results.{then_ok}
use hss_science.Config.Identity.{
  Source, Config, SigningKeySet, Keys, load_signing_keys, load_crypto_key, check_provider,
  check_required, previous_keys, parse_rsa_private_key, parse_block, load_from, named_key,
}
use hss_science.Config.Within.{InBounds, lifetimes-Within, pool-Within, limits-Within}

module _ {K : Type 0} (keys : Keys K) where
  abbrev LongEnough : K → Type 0
  LongEnough key = 2048 ≤ keys.bit_len key

  parse-LongEnough :
      (pem : String) {key : K} → parse_rsa_private_key keys pem ≡ some key → LongEnough key
  unfolding parse_rsa_private_key
  parse-LongEnough pem {key} h = elim (Option-cases (keys.decode pem)) [
    | inl e ↦ absurd (ground (arith, h, e))
    | inr (block, e) ↦ elim (Option-cases (parse_block keys block.0 block.1)) [
      | inl f ↦ absurd (ground (arith, h, e, f))
      | inr (parsed, f) ↦
          let same : parsed ≡ key = ground (arith, h, e, f) in
          subst LongEnough same (ground (arith, h, e, f))
    ]
  ]

  named_key-LongEnough :
      (name pem : String) {key : K} → named_key keys name pem ≡ ok key → LongEnough key
  named_key-LongEnough name pem {key} h = elim (Option-cases (parse_rsa_private_key keys pem)) [
    | inl e ↦ absurd (ground (arith, h, e))
    | inr (parsed, e) ↦
        let same : parsed ≡ key = ground (arith, h, e) in
        subst LongEnough same (parse-LongEnough pem e)
  ]

  previous_keys-LongEnough :
      (pems : List String) {ks : List K} → previous_keys keys pems ≡ ok ks → All LongEnough ks
  unfolding previous_keys
  previous_keys-LongEnough [] {ks} h =
      let none_there : [] ≡ ks = ground (arith, h) in subst (All LongEnough) none_there tt
  previous_keys-LongEnough (pem ∷ pems) {ks} h = elim (Bool-cases (trim_space pem == "")) [
    | inl blank ↦ previous_keys-LongEnough pems (rw blank at h)
    | inr given ↦
        let (k, ek, h1) =
          then_ok (named_key keys "SIGNING_KEY_PREVIOUS_PEM" (trim_space pem)) _ (rw given at h) in
        let (rest, er, h2) = then_ok (previous_keys keys pems) _ h1 in
        let same : k ∷ rest ≡ ks = ground (arith, h2) in
        subst (All LongEnough) same (named_key-LongEnough _ _ ek, previous_keys-LongEnough pems er)
  ]

  load_signing_keys-LongEnough :
      (src : Source) (ks : SigningKeySet K)
      → load_signing_keys keys src ≡ ok ks
      → LongEnough ks.current × All LongEnough ks.previous
  unfolding load_signing_keys
  load_signing_keys-LongEnough src ks h = elim (Bool-cases (src "SIGNING_KEY_PEM" == "")) [
    | inl absent ↦ absurd (ground (arith, h, absent))
    | inr given ↦
        let (k, ek, h1) =
          then_ok (named_key keys "SIGNING_KEY_PEM" (src "SIGNING_KEY_PEM")) _ (rw given at h) in
        let (rest, er, h2) =
          then_ok _ (λ previous. ok (record { current = k; previous = previous })) h1 in
        let same : k ≡ ks.current = ground (arith, h2) in
        let others : rest ≡ ks.previous = ground (arith, h2) in
        (
          subst LongEnough same (named_key-LongEnough _ _ ek),
          subst (All LongEnough) others (earlier rest er),
        )
  ]
    where
      earlier :
          (rest : List K)
          → (if src "SIGNING_KEY_PREVIOUS_PEM" == ""
              then ok []
              else previous_keys keys (split (src "SIGNING_KEY_PREVIOUS_PEM") "---NEXT---"))
            ≡ ok rest
          → All LongEnough rest
      earlier rest e = elim (Bool-cases (src "SIGNING_KEY_PREVIOUS_PEM" == "")) [
        | inl absent ↦
            let none_there : [] ≡ rest = ground (arith, rw absent at e) in
            subst (All LongEnough) none_there tt
        | inr given ↦
            previous_keys-LongEnough (split (src "SIGNING_KEY_PREVIOUS_PEM") "---NEXT---")
              (rw given at e)
      ]

  crypto_key_length :
      (src : Source) (bytes : List ℕ) → load_crypto_key src ≡ ok bytes → length bytes ≡ 32
  unfolding load_crypto_key
  crypto_key_length src bytes h = elim (Option-cases (hex_decode (src "CRYPTO_KEY"))) [
    | inl e ↦ absurd (ground (arith, h, e))
    | inr (decoded, e) ↦
        let same : decoded ≡ bytes = ground (arith, h, e) in
        subst (λ (b : List ℕ). length b ≡ 32) same (ground (arith, h, e))
  ]

  -- What the service may rely on.
  pub record Sound (cfg : Config K) : Type 0 where
    pub bounds : InBounds cfg
    pub current : LongEnough cfg.signing_keys.current
    pub previous : All LongEnough cfg.signing_keys.previous
    pub crypto_key : length cfg.crypto_key ≡ 32
    pub issuer : cfg.issuer ≢ ""
    pub provider : (cfg.google_client_id ≢ "") ⊎ (cfg.github_client_id ≢ "")

  some_provider :
      (src : Source) (u : Unit {0})
      → check_provider keys src ≡ ok u
      → (src "GOOGLE_CLIENT_ID" ≢ "") ⊎ (src "GITHUB_CLIENT_ID" ≢ "")
  unfolding check_provider
  some_provider src u h = elim (Bool-cases (src "GOOGLE_CLIENT_ID" == "")) [
    | inl absent ↦ inr (λ z. ground (arith, h, absent, z, eq_iff (src "GITHUB_CLIENT_ID") ""))
    | inr given ↦ inl (λ z. ground (arith, given, z, eq_iff (src "GOOGLE_CLIENT_ID") ""))
  ]

  some_issuer : (src : Source) (u : Unit {0}) → check_required keys src ≡ ok u → src "ISSUER" ≢ ""
  unfolding check_required
  some_issuer src u h empty = ground (arith, h, empty, eq_iff (src "ISSUER") "")

  -- Whatever the environment says, in a configuration that loads every number is within its bounds,
  -- every signing key, the previous ones too, has 2048 bits at least, the key of the cipher has 32
  -- bytes, and there are an issuer and a provider to log in with.
  pub load_from-Sound : (src : Source) (cfg : Config K) → load_from keys src ≡ ok cfg → Sound cfg
  unfolding load_from
  load_from-Sound src cfg h =
      let (u, eu, h1) = then_ok _ _ h in
      let (crypto, ec, h2) = then_ok _ _ h1 in
      let (ks, ek, h3) = then_ok _ _ h2 in
      let (u', ep, h4) = then_ok _ _ h3 in
      let (l, el, h5) = then_ok _ _ h4 in
      let (p, eq, h6) = then_ok _ _ h5 in
      let (r, er, h7) = then_ok _ _ h6 in
      let own : l ≡ cfg.lifetimes = ground (arith, h7) in
      let pooled : p ≡ cfg.pool = ground (arith, h7) in
      let limited : r ≡ cfg.rate_limits = ground (arith, h7) in
      let signed : ks ≡ cfg.signing_keys = ground (arith, h7) in
      let sealed : crypto ≡ cfg.crypto_key = ground (arith, h7) in
      let issued : src "ISSUER" ≡ cfg.issuer = ground (arith, h7) in
      let google : src "GOOGLE_CLIENT_ID" ≡ cfg.google_client_id = ground (arith, h7) in
      let github : src "GITHUB_CLIENT_ID" ≡ cfg.github_client_id = ground (arith, h7) in
      let (l1, l2, l3) = lifetimes-Within src cfg.lifetimes (el ∙ ap ok own) in
      let (p1, p2, p3, p4) = pool-Within src cfg.pool (eq ∙ ap ok pooled) in
      let (r1, r2, r3) = limits-Within src cfg.rate_limits (er ∙ ap ok limited) in
      let (k1, k2) = load_signing_keys-LongEnough src cfg.signing_keys (ek ∙ ap ok signed) in
      record {
        bounds = record {
          access_token = l1;
          refresh_token = l2;
          auth_request = l3;
          open_conns = p1;
          idle_conns = p2;
          lifetime = p3;
          idle_time = p4;
          login_rpm = r1;
          token_rpm = r2;
          global_rpm = r3;
        };
        current = k1;
        previous = k2;
        crypto_key = crypto_key_length src cfg.crypto_key (ec ∙ ap ok sealed);
        issuer = subst (λ s. s ≢ "") issued (some_issuer src u eu);
        provider =
            subst (λ a. (a ≢ "") ⊎ (cfg.github_client_id ≢ "")) google
              (subst (λ b. (src "GOOGLE_CLIENT_ID" ≢ "") ⊎ (b ≢ "")) github
                (some_provider src u' ep));
      }
