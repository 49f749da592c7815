-- ===== src/Bff/Login.antt =====
-- Logging in and out at the account backend (internal/handler/auth.go) and its OpenID client
-- (internal/oidcrp/client.go). The libraries oauth2 and go-oidc, the provider behind them, and the
-- decoding of base64 and JSON are parameters.
use Prim.Native.String.{◌++◌ as ◌<>◌}
use hss_science.Base.{
  String, Option, none, some, on_row, List, ℕ, gets, handle, map_err, pure, fail, lift, [], ◌>>=◌,
  ◌>>◌, ◌==◌, ◌||◌, ◌∷◌, if◌then◌else◌, Action, ok, err,
}
use hss_science.Base.Parse.{split}
use hss_science.Base.Sql.{World, mint}
use hss_science.Authn.Cipher.{Bytes}
use hss_science.Authn.Providers.{Outside, required}
use hss_science.Bff.Sessions.{Session, Redis, save, load, save_state, load_and_delete_state}
use hss_science.Bff.Pages.{Page, forget}

pub record OauthToken : Type 0 where
  pub access_token : String
  pub refresh_token : String
  pub expiry : ℕ
  pub extra_id_token : Option String

-- oauth2 and go-oidc, with the provider's state `O`; a verified id token is its subject.
pub record Rp (O : Type 0) : Type 0 where
  pub generate_verifier : ℕ → String
  pub auth_code_url : String → String → String
  pub exchange : String → String → Outside O OauthToken
  pub token_source : String → Outside O OauthToken
  pub verify : String → Outside O String
  pub end_session_endpoint : Option String
  pub raw_decode : String → Option Bytes
  pub dsid_claim : Bytes → String

module _ {O : Type 0} (rp : Rp O) where
  -- The code exchange, which needs a verified id token.
  unfoldable pub exchange : String → String → Outside O (OauthToken × String)
  exchange code verifier = do
    token ← rp.exchange code verifier
    raw ← lift (required token.extra_id_token)
    if raw == "" then fail tt else do subject ← rp.verify raw; pure (token, subject)

  -- An id token that does not verify is left out.
  unfoldable pub refresh_token : String → Outside O (OauthToken × Option String)
  refresh_token raw_refresh_token = do
    token ← rp.token_source raw_refresh_token
    let raw = on_row token.extra_id_token "" (λ raw. raw)
    subject ←
        if raw == ""
        then pure none
        else handle (rp.verify raw) (λ subject. pure (some subject)) (λ _. pure none)
    pure (token, subject)

  unfoldable pub end_session_url : String → String → Option String
  end_session_url id_token post_logout = on_row rp.end_session_endpoint none (λ endpoint.
      if endpoint == ""
      then none
      else let u = endpoint <> ("?id_token_hint=" <> id_token) in
        some (if post_logout == "" then u else u <> ("&post_logout_redirect_uri=" <> post_logout)))

  -- The parts of a JWT.
  abbrev pub dsid_of : List String → String
  dsid_of (header ∷ payload ∷ signature ∷ []) =
      on_row (rp.raw_decode payload) "" (λ bytes. rp.dsid_claim bytes)
  dsid_of _ = ""

  unfoldable pub extract_dsid : String → String
  unfolding split
  extract_dsid raw_access_token = dsid_of (split raw_access_token ".")

-- A call of the provider, whose error becomes `e`.
unfoldable pub provider_call : {O E A : Type 0} → E → Outside O A → Action (World Redis O) E A
provider_call e m w =
    let (r, o) = m w.outside in (elim r [ ok a ↦ ok a | err _ ↦ err e ], record w { outside = o })

module _ {O : Type 0} (rp : Rp O) (make_ulid : ℕ → String) (idle_ttl hard_ttl : ℕ) where
  -- The URL to which the browser is sent.
  unfoldable pub login : Page O String
  login = do
    state ← mint rp.generate_verifier
    verifier ← mint rp.generate_verifier
    map_err (λ _. (500, "internal")) (save_state state verifier)
    pure (rp.auth_code_url state verifier)

  -- The session of a code exchange.
  unfoldable pub new_session : OauthToken → String → ℕ → Session
  unfolding extract_dsid
  new_session token subject now = record {
    user_id = subject;
    access_token = token.access_token;
    refresh_token = token.refresh_token;
    id_token = on_row token.extra_id_token "" (λ raw. raw);
    token_expiry = token.expiry;
    device_session_id = extract_dsid rp token.access_token;
    created_at = now;
    last_active_at = now;
  }

  -- The callback after the exchange: the id of the new session, which the cookie carries.
  unfoldable pub start_session : OauthToken × String → Page O String
  unfolding new_session
  start_session (token, subject) = do
    now ← gets (λ w. w.clock)
    sid ← mint make_ulid
    map_err (λ _. (500, "internal")) (save idle_ttl hard_ttl sid (new_session token subject now))
    pure sid

  unfoldable pub exchange_code : String → String → Page O String
  unfolding provider_call exchange start_session
  exchange_code code verifier = do
    got ← provider_call (400, "exchange_failed") (exchange rp code verifier)
    start_session got

  unfoldable pub callback : String → String → Page O String
  unfolding exchange_code
  callback code state = if code == "" || state == "" then fail (400, "invalid_request") else do
    verifier ← map_err (λ _. (400, "invalid_state")) (load_and_delete_state state)
    exchange_code code verifier

  -- The URL at which the browser ends the session of the provider; the cookie is cleared.
  unfoldable pub logout : Session → Option String → Page O String
  unfolding forget end_session_url
  logout sess cookie = do
    forget cookie
    pure (on_row (end_session_url rp sess.id_token "") "/" (λ url. url))

  -- The user, if there is one.
  unfoldable pub me : Option String → Page O (Option String)
  me none = pure none
  me (some sid) =
      handle (load idle_ttl hard_ttl sid) (λ sess. pure (some sess.user_id)) (λ _. pure none)
