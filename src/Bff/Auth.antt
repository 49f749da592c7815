-- ===== src/Bff/Auth.antt =====
-- The middleware that authenticates requests by their session (internal/middleware/auth.go). The
-- identity provider is a parameter, with a state of its own: a refresh either fails or gives tokens.
-- So is `oidcrp.ExtractDSID`, which reads a claim of an access token. Bff/Login models the calls that
-- stand behind both.
use hss_science.Base.{
  ℕ, String, Bool, true, false, not, ◌+◌, ◌==◌, Option, none, some, ok, Action, pure, gets, ◌>>=◌,
  ◌>>◌, handle, map_err, if◌then◌else◌, on_row, ltb,
}
use hss_science.Base.Sql.{World, call_outside}
use hss_science.Bff.Sessions.{
  Session, Redis, StoreError, missing, store_failed, load, save, delete_session,
  acquire_refresh_lock, release_refresh_lock,
}

pub record NewToken : Type 0 where
  pub access_token : String
  pub refresh_token : String
  pub expiry : ℕ
  pub id_token : Option String

pub data RefreshError : Type 0 where
  refresh_failed refresh_broken : RefreshError

-- What the middleware answers: an error with its status code and whether the cookie is cleared, or the
-- call of the next handler with the session.
pub data Verdict : Type 0 where
  refused : ℕ → Bool → Verdict
  passed : Session → Verdict

-- `time.Until(sess.TokenExpiry) < 60*time.Second`
abbrev pub expires_soon : ℕ → Session → Bool
expires_soon now sess = ltb sess.token_expiry (now + 60_000_000_000)

abbrev pub unless_empty : String → String → String
unless_empty new old = if new == "" then old else new

-- `time.Sleep(500 * time.Millisecond)`
unfoldable pub sleep : {O E : Type 0} → Action (World Redis O) E (Unit {0})
sleep w = (ok tt, record w { clock = w.clock + 500_000_000 })

abbrev pub is_missing : StoreError → Bool
is_missing missing = true
is_missing store_failed = false

abbrev pub is_refresh_failed : RefreshError → Bool
is_refresh_failed refresh_failed = true
is_refresh_failed refresh_broken = false

module _ {O : Type 0} (refresh : String → O → Option NewToken × O) (extract_dsid : String → String)
    (idle_ttl hard_ttl : ℕ) where
  -- The fields that a refresh changes.
  unfoldable pub refreshed_session : Session → NewToken → ℕ → Session
  refreshed_session sess token now = record sess {
    access_token = token.access_token;
    refresh_token = unless_empty token.refresh_token sess.refresh_token;
    token_expiry = token.expiry;
    id_token = on_row token.id_token sess.id_token (λ raw. unless_empty raw sess.id_token);
    device_session_id = unless_empty (extract_dsid token.access_token) sess.device_session_id;
    last_active_at = now;
  }

  -- `refreshTokens` between the lock and its release
  unfoldable pub refresh_locked : String → Session → Action (World Redis O) RefreshError Session
  unfolding refreshed_session
  refresh_locked sid sess = do
    now ← gets (λ w. w.clock)
    if not (expires_soon now sess) then pure sess else do
      token ← call_outside refresh_failed (refresh sess.refresh_token)
      map_err (λ e. refresh_broken) (save idle_ttl hard_ttl sid (refreshed_session sess token now))
      pure (refreshed_session sess token now)

  -- `if !acquired`
  unfoldable pub await_other : String → Action (World Redis O) RefreshError Session
  unfolding sleep
  await_other sid = do
    sleep
    map_err (λ e. if is_missing e then refresh_failed else refresh_broken)
        (load idle_ttl hard_ttl sid)

  -- `defer func() { _ = store.ReleaseRefreshLock(ctx, sid) }()`
  unfoldable pub release_after :
      String
      → Action (World Redis O) RefreshError Session
      → Action (World Redis O) RefreshError Session
  release_after sid body w = let (r, v) = body w in (r, (release_refresh_lock sid v).1)

  unfoldable pub refresh_tokens : String → Session → Action (World Redis O) RefreshError Session
  unfolding refresh_locked await_other release_after
  refresh_tokens sid sess = do
    acquired ← map_err (λ e. refresh_broken) (acquire_refresh_lock sid)
    if acquired then release_after sid (refresh_locked sid sess) else await_other sid

  -- `_ = store.Delete(...)`
  unfoldable pub log_out : String → Action (World Redis O) (Unit {0}) Verdict
  log_out sid =
      handle (delete_session sid) (λ _. pure (refused 401 true)) (λ e. pure (refused 401 true))

  -- From `if time.Until(sess.TokenExpiry) < ...` on
  unfoldable pub check_expiry : String → Session → Action (World Redis O) (Unit {0}) Verdict
  unfolding refresh_tokens log_out
  check_expiry sid sess = do
    now ← gets (λ w. w.clock)
    if not (expires_soon now sess)
        then pure (passed sess)
        else handle (refresh_tokens sid sess) (λ s. pure (passed s))
            (λ e. if is_refresh_failed e then log_out sid else pure (refused 500 false))

  -- The handler, up to the call of the next: the cookie is `none` where there is none.
  unfoldable pub auth : Option String → Action (World Redis O) (Unit {0}) Verdict
  unfolding check_expiry
  auth none = pure (refused 401 false)
  auth (some sid) =
      handle (load idle_ttl hard_ttl sid) (λ sess. check_expiry sid sess)
        (λ e. if is_missing e then pure (refused 401 true) else pure (refused 500 false))
