-- ===== src/Oidc/TokenRepo.antt =====
-- `TokenRepository` (internal/oidc/postgres/token_repo.go), method by method. SQL's `now()` is the clock
-- of the world.
use hss_science.Base.{
  [], ℕ, String, Bool, ◌&&◌, ◌==◌, Option, none, some, List, ◌∷◌, Result, ok, Action, pure, fail,
  gets, ◌>>=◌, ◌>>◌, if◌then◌else◌, on_row, ltb, nat_eq,
}
use hss_science.Base.Sql.{statement, query, transaction}
use hss_science.Base.Sql.Rows.{find, delete, update, count, select}
use hss_science.Domerr.{Error, not_found, other}
use hss_science.Oidc.Domain.{Token, RefreshToken}
use hss_science.Oidc.Tables.{
  TokenRow, RefreshRow, Db, OidcWorld, nil_if_empty, or_empty, session_id, has_hash, insert_token,
  insert_refresh,
}

-- The row of an access token; `created_at` is the column's default.
unfoldable pub token_row : Token → Option String → ℕ → TokenRow
token_row t refresh now = record {
  id = t.id;
  client_id = t.client_id;
  subject = t.subject;
  audience = t.audience;
  scopes = t.scopes;
  expiration = t.expiration;
  refresh_token_id = refresh;
  created_at = now;
}

unfoldable pub refresh_row : RefreshToken → ℕ → RefreshRow
unfolding nil_if_empty
refresh_row r now = record {
  id = r.id;
  token_hash = r.token;
  client_id = r.client_id;
  user_id = r.user_id;
  audience = r.audience;
  scopes = r.scopes;
  auth_time = r.auth_time;
  amr = r.amr;
  access_token_id = some r.access_token_id;
  device_session_id = nil_if_empty r.device_session_id;
  expiration = r.expiration;
  created_at = now;
}

-- `WHERE id = $1 AND expiration > now()`
abbrev pub live_token : ℕ → String → TokenRow → Bool
live_token now id row = row.id == id && ltb now row.expiration

-- `WHERE token_hash = $1 AND expiration > now()`
abbrev pub live_refresh : ℕ → String → RefreshRow → Bool
live_refresh now hash row = row.token_hash == hash && ltb now row.expiration

-- `scanToken`
unfoldable pub scan_token : TokenRow → Token
scan_token row = record {
  id = row.id;
  client_id = row.client_id;
  subject = row.subject;
  audience = row.audience;
  scopes = row.scopes;
  expiration = row.expiration;
  refresh_token_id = or_empty row.refresh_token_id;
  created_at = row.created_at;
}

-- `scanRefreshToken`
unfoldable pub scan_refresh_token : RefreshRow → RefreshToken
scan_refresh_token row = record {
  id = row.id;
  token = row.token_hash;
  client_id = row.client_id;
  user_id = row.user_id;
  audience = row.audience;
  scopes = row.scopes;
  auth_time = row.auth_time;
  amr = row.amr;
  access_token_id = or_empty row.access_token_id;
  expiration = row.expiration;
  created_at = row.created_at;
  device_session_id = or_empty row.device_session_id;
}

-- A `DELETE`, with the rows affected.
abbrev pub delete_tokens : (TokenRow → Bool) → Db → Result Error ℕ × Db
delete_tokens p db = (ok (count p db.tokens), record db { tokens = delete p db.tokens })

abbrev pub delete_refresh_tokens : (RefreshRow → Bool) → Db → Result Error ℕ × Db
delete_refresh_tokens p db =
    (ok (count p db.refresh_tokens), record db { refresh_tokens = delete p db.refresh_tokens })

-- `UPDATE device_sessions SET last_used_at = now() WHERE id = $1`
abbrev pub touch_session : ℕ → String → Db → Result Error (Unit {0}) × Db
touch_session now id db = (
  ok tt,
  record db {
    device_sessions =
        update (session_id id) (λ s. record s { last_used_at = now }) db.device_sessions;
  },
)

unfoldable pub create_access : Token → Action OidcWorld Error (Unit {0})
unfolding nil_if_empty token_row
create_access access = do
  now ← gets (λ w. w.clock)
  statement other (insert_token (token_row access (nil_if_empty access.refresh_token_id) now))

-- `if refresh.DeviceSessionID == "" && oldDeviceSessionID.Valid`
unfoldable pub inherited_session : RefreshToken → Option RefreshRow → String
inherited_session refresh old =
    if refresh.device_session_id == ""
    then on_row old "" (λ row. or_empty row.device_session_id)
    else refresh.device_session_id

-- `refresh.DeviceSessionID = ...`
abbrev pub bound_to : RefreshToken → String → RefreshToken
bound_to refresh session = record refresh { device_session_id = session }

-- `oldAccessTokenID.Valid && oldAccessTokenID.String != ""`
unfoldable pub revoke_old_access : Option RefreshRow → Action OidcWorld Error (Unit {0})
revoke_old_access old =
    let id = on_row old "" (λ row. or_empty row.access_token_id) in
    if id == "" then pure tt else do statement other (delete_tokens (λ t. t.id == id)); pure tt

-- The block `if currentRefreshToken != ""`: uses up the current token and returns the device session
-- of the new one.
unfoldable pub use_up : RefreshToken → String → ℕ → Action OidcWorld Error String
unfolding inherited_session revoke_old_access
use_up refresh current now = if current == "" then pure refresh.device_session_id else do
  old ← query other (λ db. find (has_hash current) db.refresh_tokens)
  revoke_old_access old
  n ← statement other (delete_refresh_tokens (live_refresh now current))
  if nat_eq n 0 then fail not_found else pure (inherited_session refresh old)

-- The two inserts, and the use of the device session.
unfoldable pub store_pair : Token → RefreshToken → ℕ → Action OidcWorld Error (Unit {0})
unfolding token_row refresh_row
store_pair access refresh now = do
  statement other (insert_token (token_row access (some access.refresh_token_id) now))
  statement other (insert_refresh (refresh_row refresh now))
  if refresh.device_session_id == ""
      then pure tt
      else statement other (touch_session now refresh.device_session_id)

-- The body of the transaction.
unfoldable pub rotate : Token → RefreshToken → String → ℕ → Action OidcWorld Error (Unit {0})
unfolding use_up store_pair
rotate access refresh current now = do
  session ← use_up refresh current now
  store_pair access (bound_to refresh session) now

unfoldable pub create_access_and_refresh :
    Token → RefreshToken → String → Action OidcWorld Error (Unit {0})
unfolding rotate
create_access_and_refresh access refresh current = do
  now ← gets (λ w. w.clock)
  transaction other (rotate access refresh current now)

unfoldable pub get_by_id : String → Action OidcWorld Error Token
unfolding scan_token
get_by_id id = do
  now ← gets (λ w. w.clock)
  row ← query other (λ db. find (live_token now id) db.tokens)
  on_row row (fail not_found) (λ r. pure (scan_token r))

unfoldable pub get_refresh_token : String → Action OidcWorld Error RefreshToken
unfolding scan_refresh_token
get_refresh_token hash = do
  now ← gets (λ w. w.clock)
  row ← query other (λ db. find (live_refresh now hash) db.refresh_tokens)
  on_row row (fail not_found) (λ r. pure (scan_refresh_token r))

-- The user and the token's identifier.
unfoldable pub get_refresh_info : String → Action OidcWorld Error (String × String)
get_refresh_info hash = do
  now ← gets (λ w. w.clock)
  row ← query other (λ db. find (live_refresh now hash) db.refresh_tokens)
  on_row row (fail not_found) (λ r. pure (r.user_id, r.id))

unfoldable pub delete_by_user_and_client : String → String → Action OidcWorld Error (Unit {0})
delete_by_user_and_client user client = transaction other do
  statement other (delete_refresh_tokens (λ r. r.user_id == user && r.client_id == client))
  statement other (delete_tokens (λ t. t.subject == user && t.client_id == client))
  pure tt

unfoldable pub revoke : String → String → Action OidcWorld Error (Unit {0})
revoke id client = do
  n ← statement other (delete_tokens (λ t. t.id == id && t.client_id == client))
  if nat_eq n 0 then fail not_found else pure tt

unfoldable pub revoke_refresh_token : String → String → Action OidcWorld Error (Unit {0})
revoke_refresh_token hash client = do
  n ← statement other (delete_refresh_tokens (λ r. r.token_hash == hash && r.client_id == client))
  if nat_eq n 0 then fail not_found else pure tt

-- The rows deleted from both tables.
unfoldable pub delete_expired : ℕ → Action OidcWorld Error (ℕ × ℕ)
delete_expired before = do
  n ← statement other (delete_tokens (λ t. ltb t.expiration before))
  m ← statement other (delete_refresh_tokens (λ r. ltb r.expiration before))
  pure (n, m)

-- `ORDER BY created_at DESC LIMIT 1`: the first of the newest rows.
unfoldable pub newest : List RefreshRow → Option RefreshRow
newest [] = none
newest (r ∷ rs) =
    let rest = newest rs in
    on_row rest (some r) (λ b. if ltb r.created_at b.created_at then some b else some r)

unfoldable pub get_latest_device_session_id : String → String → Action OidcWorld Error String
unfolding newest
get_latest_device_session_id user client = do
  now ← gets (λ w. w.clock)
  rows ← query other (λ db.
      select (λ r. r.user_id == user && (r.client_id == client && ltb now r.expiration))
        db.refresh_tokens)
  pure (on_row (newest rows) "" (λ r. or_empty r.device_session_id))
