-- ===== src/Authn/Sealing.antt =====
-- The state that travels through the provider and back, and the addresses that GitHub vouches for.
use hss_science.Base.{
  ok, some, none, String, ◌≢◌, sym, ◌≡◌, arith, Option-cases, inl, inr, bind-eq-ok, eq_iff,
  fail-ne-ok, ◌==◌, ◌||◌, refl, Bool-cases, Option, pure-eq-ok,
}
use hss_science.Authn.Cipher.{Bytes, encrypt, Documented, decrypt-encrypt}
use hss_science.Authn.Providers.{Provider}
use hss_science.Authn.Handler.{
  LoginWorld, Login, FederatedState, Response, redirect, http_error, provider_named, encrypt_state,
  decrypt_state, federated_redirect, send_to,
}
use hss_science.Base.Sql.{call_outside, mint}

module _ {O Token Key Block : Type 0} (h : Login O Token Key Block)
    (sealing : (o : O) → Documented h.prim (h.random o).0 h.key)
    (json : (state : FederatedState) (b : Bytes)
      → h.marshal state ≡ some b
      → h.unmarshal b ≡ some state) where
  sealed_opens :
      (state : FederatedState) (w v : LoginWorld O) (sealed : String)
      → encrypt_state h state w ≡ (ok sealed, v)
      → decrypt_state h sealed ≡ some state
  unfolding encrypt_state decrypt_state call_outside
  sealed_opens state w v sealed e = elim (Option-cases (h.marshal state)) [
    | inl m ↦ absurd (fail-ne-ok (http_error 500 none) w (rw m at e))
    | inr (plain, m) ↦
        let fill = (h.random w.outside).0 in
        let made : encrypt h.prim fill h.key plain ≡ some sealed = ground (arith, rw m at e) in
        ground (
          arith,
          decrypt-encrypt h.prim fill h.key plain sealed (sealing w.outside) made,
          json state plain m,
        )
  ]

  sent-seals :
      (p : Option (Provider O Token)) (id name : String) (w v : LoginWorld O) (resp : Response)
      → send_to h p id name w ≡ (ok resp, v)
      → (provider : Provider O Token) × (sealed nonce : String) × (p ≡ some provider)
        × (resp ≡ redirect (h.auth_code_url provider.oauth2_config sealed) none)
        × (decrypt_state h sealed
            ≡ some (record { auth_request_id = id; provider = name; nonce = nonce }))
  unfolding send_to
  sent-seals none id name w v resp e = absurd (fail-ne-ok (http_error 400 none) w e)
  sent-seals (some provider) id name w v resp e =
      let (nonce, w1, drawn, e1) = bind-eq-ok (mint h.make_uuid) _ w e in
      let state : FederatedState = record {
        auth_request_id = id;
        provider = name;
        nonce = nonce;
      } in
      let (sealed, u, made, e2) = bind-eq-ok (encrypt_state h state) _ w1 e1 in
      let (answer, _) =
        pure-eq-ok (redirect (h.auth_code_url provider.oauth2_config sealed) none) u e2 in
      (provider, sealed, nonce, refl, sym answer, sealed_opens state w1 u sealed made)

  -- Where the handler sends the browser to a provider, the form is complete and its provider known,
  -- and the state in the provider's URL opens to the auth request and the provider of the form; given
  -- that GCM, base64 and JSON give back what they were given.
  pub redirect_seals :
      (id name : String) (w v : LoginWorld O) (resp : Response)
      → federated_redirect h (some (id, name)) w ≡ (ok resp, v)
      → (id ≢ "")
        × (name ≢ "")
        × ((provider : Provider O Token) × (sealed nonce : String) × (provider_named name
                h.providers
              ≡ some provider)
            × (resp ≡ redirect (h.auth_code_url provider.oauth2_config sealed) none)
            × (decrypt_state h sealed
                ≡ some (record { auth_request_id = id; provider = name; nonce = nonce })))
  unfolding federated_redirect
  redirect_seals id name w v resp e = elim (Bool-cases (id == "" || name == "")) [
    | inl bad ↦ absurd (fail-ne-ok (http_error 400 none) w (rw bad at e))
    | inr good ↦ (
      λ empty. ground (arith, good, empty, eq_iff id ""),
      λ empty. ground (arith, good, empty, eq_iff name ""),
      sent-seals (provider_named name h.providers) id name w v resp (rw good at e),
    )
  ]
