-- ===== src/Bff/Callback.antt =====
-- Which browser sessions a login starts.
use text.Mathlib.TextPositions.{eq_refl}
use hss_science.Base.{
  ok, none, some, String, ℕ, ◌==◌, ◌≡◌, arith, bind-eq-ok, Result-cases, gets, map_err, inr, ◌>>=◌,
  ◌+◌, inl, Option-cases, ◌||◌, subst, Bool-cases, fail-ne-ok, ap, ◌∙◌, map_err-eq-ok, [], ◌∷◌,
  refl, lift, ◌≢◌, pure, pure-eq-ok, eq_iff,
}
use hss_science.Base.Sql.{World, statement, mint}
use hss_science.Base.Sql.Rows.{find, find-delete_self}
use hss_science.Bff.Sessions.{Redis, Entry, live, load_and_delete_state, save, Session}
use hss_science.Bff.Login.{
  Rp, OauthToken, exchange, provider_call, new_session, start_session, exchange_code, callback,
  extract_dsid,
}
use hss_science.Authn.Providers.{Outside, required, required-eq-ok}
use hss_science.Authn.Cipher.{Bytes}
use hss_science.Base.Parse.{split}

provider_call-eq-ok :
    {O E A : Type 0} (e : E) (m : Outside O A) (w x : World Redis O) (a : A)
    → provider_call e m w ≡ (ok a, x)
    → (m w.outside ≡ (ok a, x.outside)) × (x ≡ record w { outside = x.outside })
unfolding provider_call
provider_call-eq-ok e m w x a h = elim (Result-cases (m w.outside).0) [
  | inl (b, got) ↦ (ground (arith, h, got), ground (arith, h, got))
  | inr (y, failed) ↦ absurd (ground (arith, h, failed))
]

-- A session of the tokens, for the subject, that begins at a time.
pub record StartsAs {O : Type 0} (rp : Rp O) (token : OauthToken) (raw subject : String) (now : ℕ)
    (s : Session) : Type 0 where
  pub user : s.user_id ≡ subject
  pub access : s.access_token ≡ token.access_token
  pub refresh : s.refresh_token ≡ token.refresh_token
  pub id : s.id_token ≡ raw
  pub expiry : s.token_expiry ≡ token.expiry
  pub created : s.created_at ≡ now
  pub active : s.last_active_at ≡ now
  -- The device session is the claim in the payload of the access token.
  pub device :
      (header payload signature : String) (bytes : Bytes)
      → split token.access_token "." ≡ header ∷ payload ∷ signature ∷ []
      → rp.raw_decode payload ≡ some bytes
      → s.device_session_id ≡ rp.dsid_claim bytes

-- What a callback has used and left, from `w` to `v`.
pub record Exchanged {O : Type 0} (rp : Rp O) (idle_ttl : ℕ) (code state sid : String)
    (w v : World Redis O) : Type 0 where
  pub entry : Entry String
  pub token : OauthToken
  pub raw : String
  pub subject : String
  pub between : O
  pub afterwards : O
  pub session : Session
  pub left : find (live w.clock state) w.tables.states ≡ some entry
  pub used_up : find (live w.clock state) v.tables.states ≡ none
  pub given : rp.exchange code entry.value w.outside ≡ (ok token, between)
  pub carried : token.extra_id_token ≡ some raw
  pub present : raw ≢ ""
  pub verified : rp.verify raw between ≡ (ok subject, afterwards)
  pub stored :
      find (λ e. e.key == sid) v.tables.sessions
      ≡ some (record { key = sid; value = session; expires = w.clock + idle_ttl })
  pub starts : StartsAs rp token raw subject w.clock session

module _ {O : Type 0} (rp : Rp O) (make_ulid : ℕ → String) (idle_ttl hard_ttl : ℕ) where
  new_session-StartsAs :
      (token : OauthToken) (subject raw : String) (now : ℕ)
      → token.extra_id_token ≡ some raw
      → StartsAs rp token raw subject now
          (new_session rp make_ulid idle_ttl hard_ttl token subject now)
  unfolding new_session extract_dsid
  new_session-StartsAs token subject raw now carried = record {
    user = refl;
    access = refl;
    refresh = refl;
    id = rw carried refl;
    expiry = refl;
    created = refl;
    active = refl;
    device = λ header payload signature bytes parts decoded. rw (parts, decoded) refl;
  }

  start_session-stores :
      (token : OauthToken) (subject : String) (w v : World Redis O) (sid : String)
      → start_session rp make_ulid idle_ttl hard_ttl (token, subject) w ≡ (ok sid, v)
      → (find (λ e. e.key == sid) v.tables.sessions
          ≡ some (record {
            key = sid;
            value = new_session rp make_ulid idle_ttl hard_ttl token subject w.clock;
            expires = w.clock + idle_ttl;
          }))
        × (sid ≡ make_ulid w.minted)
        × (v.tables.states ≡ w.tables.states)
  unfolding start_session save statement find mint map_err gets ◌>>=◌
  start_session-stores token subject w v sid h =
      (ground (arith, h, eq_refl sid), ground (arith, h), ground (arith, h))

  exchange_code-eq-ok :
      (code verifier : String) (w v : World Redis O) (sid : String)
      → exchange_code rp make_ulid idle_ttl hard_ttl code verifier w ≡ (ok sid, v)
      → (token : OauthToken) × (subject : String) × (o : O) × (exchange rp code verifier w.outside
          ≡ (ok (token, subject), o))
        × (start_session rp make_ulid idle_ttl hard_ttl (token, subject) (record w { outside = o })
            ≡ (ok sid, v))
  unfolding exchange_code provider_call
  exchange_code-eq-ok code verifier w v sid h =
      let (got, x, called, h1) =
        bind-eq-ok (provider_call (400, "exchange_failed") (exchange rp code verifier))
          (start_session rp make_ulid idle_ttl hard_ttl) w h in
      let (answered, same) =
        provider_call-eq-ok (400, "exchange_failed") (exchange rp code verifier) w x got called in
      (
        got.0,
        got.1,
        x.outside,
        answered,
        subst (λ y. start_session rp make_ulid idle_ttl hard_ttl got y ≡ (ok sid, v)) same h1,
      )

  taken_state :
      (state verifier : String) (w v : World Redis O)
      → load_and_delete_state state w ≡ (ok verifier, v)
      → (e : Entry String) × (find (live w.clock state) w.tables.states ≡ some e)
        × (e.value ≡ verifier)
        × (find (live w.clock state) v.tables.states ≡ none)
        × (v.clock ≡ w.clock)
        × (v.outside ≡ w.outside)
  unfolding load_and_delete_state statement gets ◌>>=◌
  taken_state state verifier w v h =
      elim (Option-cases (find (live w.clock state) w.tables.states)) [
        | inl e ↦ absurd (ground (arith, h, e))
        | inr (entry, e) ↦ (
          entry,
          e,
          ground (arith, h, e),
          ground (arith, h, e, find-delete_self (live w.clock state) w.tables.states),
          ground (arith, h, e),
          ground (arith, h, e),
        )
      ]

  exchange-eq-ok :
      (code verifier : String) (o z : O) (token : OauthToken) (subject : String)
      → exchange rp code verifier o ≡ (ok (token, subject), z)
      → (raw : String) × (y : O) × (rp.exchange code verifier o ≡ (ok token, y))
        × (token.extra_id_token ≡ some raw)
        × (raw ≢ "")
        × (rp.verify raw y ≡ (ok subject, z))
  unfolding exchange
  exchange-eq-ok code verifier o z token subject h =
      let (t, y, got, h1) = bind-eq-ok (rp.exchange code verifier) _ o h in
      let (raw, y1, has, h2) = bind-eq-ok (lift (required t.extra_id_token)) _ y h1 in
      let (there, same) = required-eq-ok t.extra_id_token raw y y1 has in
      elim (Bool-cases (raw == "")) [
        | inl empty ↦ absurd (fail-ne-ok tt y1 (rw empty at h2))
        | inr given ↦
            let (sub, z1, verified, h3) =
              bind-eq-ok (rp.verify raw) (λ s. pure (t, s)) y1 (rw given at h2) in
            let (answer, last) = pure-eq-ok (t, sub) z1 h3 in
            let tok : t ≡ token = ap (λ (p : OauthToken × String). p.0) answer in
            (
              raw,
              y,
              ground (arith, got, tok),
              ground (arith, there, tok),
              λ z. ground (arith, z, given, eq_iff raw ""),
              ground (arith, verified, same, answer, last),
            )
      ]

  -- A callback that starts a session had a state that a login had left, in its time, and has used it
  -- up; the provider gave a token for the code and the verifier kept with the state, with an id token
  -- that verifies; and the new session is stored under the id in the cookie, from now on: with the
  -- token, and for the subject of the id token.
  pub callback_starts :
      (code state : String) (w v : World Redis O) (sid : String)
      → callback rp make_ulid idle_ttl hard_ttl code state w ≡ (ok sid, v)
      → Exchanged rp idle_ttl code state sid w v
  unfolding callback
  callback_starts code state w v sid h = elim (Bool-cases (code == "" || state == "")) [
    | inl bad ↦ absurd (fail-ne-ok (400, "invalid_request") w (rw bad at h))
    | inr good ↦
        let (verifier, x, loaded, h1) =
          bind-eq-ok (map_err (λ _. (400, "invalid_state")) (load_and_delete_state state))
            (exchange_code rp make_ulid idle_ttl hard_ttl code) w (rw good at h) in
        let (e, there, kept, gone, clock, outside) =
          taken_state state verifier w x
            (map_err-eq-ok _ (load_and_delete_state state) w x verifier loaded) in
        let (token, subject, o, exchanged, h2) = exchange_code-eq-ok code verifier x v sid h1 in
        let (raw, y, given, carried, present, verified) =
          exchange-eq-ok code verifier x.outside o token subject exchanged in
        let (stored, _, states) =
          start_session-stores token subject (record x { outside = o }) v sid h2 in
        record {
          entry = e;
          token = token;
          raw = raw;
          subject = subject;
          between = y;
          afterwards = o;
          session = new_session rp make_ulid idle_ttl hard_ttl token subject w.clock;
          left = there;
          used_up = ap (find (live w.clock state)) states ∙ gone;
          given = ground (arith, given, kept, outside);
          carried = carried;
          present = present;
          verified = verified;
          stored = ground (arith, stored, clock);
          starts = new_session-StartsAs token subject raw w.clock carried;
        }
  ]
