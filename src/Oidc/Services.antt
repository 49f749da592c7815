-- ===== src/Oidc/Services.antt =====
-- The services of internal/oidc: authrequest_svc.go, client_svc.go, token_svc.go and
-- device_session_svc.go. Where a service only passes a call on, its method is the repository's. The
-- hash functions and the random generators are parameters.
use hss_science.Base.{
  ℕ, String, Bool, ◌+◌, ◌==◌, Option, List, Action, pure, fail, gets, ◌>>=◌, ◌>>◌, if◌then◌else◌,
  on_row, ltb,
}
use hss_science.Base.Sql.{mint}
use hss_science.Domerr.{Error, not_found, unauthorized, other}
use hss_science.Oidc.Domain.{AuthRequest, Client, Token, RefreshToken}
use hss_science.Oidc.Tables.{OidcWorld}
use hss_science.Oidc.AuthRepo.{request_by_id, request_by_code, client_by_id}
use hss_science.Oidc.TokenRepo.{
  create_access, create_access_and_refresh, get_refresh_token, get_refresh_info,
  revoke_refresh_token,
}

-- `if time.Now().UTC().After(ar.CreatedAt.Add(s.authRequestTTL))`
unfoldable pub unless_expired : ℕ → AuthRequest → Action OidcWorld Error AuthRequest
unless_expired ttl ar = do
  now ← gets (λ w. w.clock)
  if ltb (ar.created_at + ttl) now then fail not_found else pure ar

unfoldable pub live_request_by_id : ℕ → String → Action OidcWorld Error AuthRequest
unfolding unless_expired
live_request_by_id ttl id = do ar ← request_by_id id; unless_expired ttl ar

unfoldable pub live_request_by_code : ℕ → String → Action OidcWorld Error AuthRequest
unfolding unless_expired
live_request_by_code ttl code = do ar ← request_by_code code; unless_expired ttl ar

module _ (compare : String → String → Bool) where
  unfoldable pub client_credentials : String → String → Action OidcWorld Error Client
  client_credentials id secret = do
    c ← client_by_id id
    if compare c.secret_hash secret then pure c else fail unauthorized

  unfoldable pub authorize_secret : String → String → Action OidcWorld Error (Unit {0})
  unfolding client_credentials
  authorize_secret id secret = do client_credentials id secret; pure tt

-- What `TokenService` takes from outside: `ulid.Make`, `rand.Read` with its encoding (which may
-- fail), and SHA-256 in hexadecimal.
pub record Generators : Type 0 where
  pub new_id : ℕ → String
  pub new_secret : ℕ → Option String
  pub hash_refresh_token : String → String

-- What both kinds of tokens are issued for.
pub record Grant : Type 0 where
  pub client_id : String
  pub subject : String
  pub audience : List String
  pub scopes : List String
  pub auth_time : ℕ
  pub amr : List String
  pub device_session_id : String

unfoldable pub new_access : Grant → String → String → ℕ → ℕ → Token
new_access g id refresh_id expiration now = record {
  id = id;
  client_id = g.client_id;
  subject = g.subject;
  audience = g.audience;
  scopes = g.scopes;
  expiration = expiration;
  refresh_token_id = refresh_id;
  created_at = now;
}

unfoldable pub new_refresh : Grant → String → String → String → ℕ → ℕ → RefreshToken
new_refresh g id hash access_id expiration now = record {
  id = id;
  token = hash;
  client_id = g.client_id;
  user_id = g.subject;
  audience = g.audience;
  scopes = g.scopes;
  auth_time = g.auth_time;
  amr = g.amr;
  access_token_id = access_id;
  expiration = expiration;
  created_at = now;
  device_session_id = g.device_session_id;
}

module _ (gen : Generators) where
  unfoldable pub issue_access : Grant → ℕ → Action OidcWorld Error String
  unfolding new_access
  issue_access g expiration = do
    id ← mint gen.new_id
    now ← gets (λ w. w.clock)
    create_access (new_access g id "" expiration now)
    pure id

  -- `newRefreshTokenValue`
  unfoldable pub new_refresh_token_value : Action OidcWorld Error String
  new_refresh_token_value = do
    drawn ← mint gen.new_secret
    on_row drawn (fail other) (λ raw. pure raw)

  -- `currentHash`
  unfoldable pub current_hash : String → String
  current_hash current = if current == "" then "" else gen.hash_refresh_token current

  -- The access token's id and the raw refresh token.
  unfoldable pub issue_access_and_refresh :
      Grant → ℕ → ℕ → String → Action OidcWorld Error (String × String)
  unfolding new_access new_refresh new_refresh_token_value current_hash
  issue_access_and_refresh g access_expiration refresh_expiration current = do
    now ← gets (λ w. w.clock)
    access_id ← mint gen.new_id
    refresh_id ← mint gen.new_id
    raw ← new_refresh_token_value
    create_access_and_refresh (new_access g access_id refresh_id access_expiration now)
        (new_refresh g refresh_id (gen.hash_refresh_token raw) access_id refresh_expiration now)
        (current_hash current)
    pure (access_id, raw)

  unfoldable pub refresh_token_of : String → Action OidcWorld Error RefreshToken
  refresh_token_of raw = get_refresh_token (gen.hash_refresh_token raw)

  unfoldable pub refresh_info_of : String → Action OidcWorld Error (String × String)
  refresh_info_of raw = get_refresh_info (gen.hash_refresh_token raw)

  unfoldable pub revoke_refresh_of : String → String → Action OidcWorld Error (Unit {0})
  revoke_refresh_of raw client = revoke_refresh_token (gen.hash_refresh_token raw) client
