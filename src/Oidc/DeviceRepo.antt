-- ===== src/Oidc/DeviceRepo.antt =====
-- `DeviceSessionRepository` (internal/oidc/postgres/device_session_repo.go). The generator of
-- identifiers is a parameter.
use hss_science.Base.{
  [], ℕ, String, Bool, false, not, ◌&&◌, ◌||◌, ◌==◌, Option, none, some, List, ◌∷◌, Result, ok,
  Action, pure, fail, gets, ◌>>=◌, ◌>>◌, if◌then◌else◌, on_row, ltb, nat_eq,
}
use hss_science.Base.Sql.{statement, query, transaction, mint}
use hss_science.Base.Sql.Rows.{find, select, delete, update, count}
use hss_science.Domerr.{Error, not_found, other}
use hss_science.Oidc.Domain.{DeviceSession}
use hss_science.Oidc.Tables.{
  RefreshRow, Db, OidcWorld, is_taken, session_id, of_session, insert_session,
}
use hss_science.Oidc.TokenRepo.{delete_refresh_tokens}

unfoldable pub create :
    String → String → String → String → String → Action OidcWorld Error DeviceSession
create id user agent ip name = do
  now ← gets (λ w. w.clock)
  let row : DeviceSession = record {
    id = id;
    user_id = user;
    user_agent = agent;
    ip_address = ip;
    device_name = name;
    created_at = now;
    last_used_at = now;
    revoked_at = none;
  }
  statement other (insert_session row)
  pure row

-- `UPDATE device_sessions SET user_agent = $1, ip_address = $2, last_used_at = now() WHERE id = $3`
abbrev pub refreshed : String → String → ℕ → DeviceSession → DeviceSession
refreshed agent ip now s = record s { user_agent = agent; ip_address = ip; last_used_at = now }

abbrev pub refresh_session : String → String → ℕ → String → Db → Result Error (Unit {0}) × Db
refresh_session agent ip now id db = (
  ok tt,
  record db {
    device_sessions = update (session_id id) (refreshed agent ip now) db.device_sessions;
  },
)

unfoldable pub reuse : String → String → DeviceSession → Action OidcWorld Error DeviceSession
reuse agent ip s = do
  now ← gets (λ w. w.clock)
  statement other (refresh_session agent ip now s.id)
  pure (refreshed agent ip now s)

-- `ds.UserID != userID || revokedAt.Valid`
abbrev pub unusable : String → DeviceSession → Bool
unusable user s = not (s.user_id == user) || is_taken s.revoked_at

module _ (make_ulid : ℕ → String) where
  -- The three outcomes of the lookup.
  unfoldable pub reuse_or_create :
      Option DeviceSession
      → String
      → String
      → String
      → String
      → String
      → Action OidcWorld Error DeviceSession
  unfolding create reuse
  reuse_or_create none id user agent ip name = create id user agent ip name
  reuse_or_create (some s) id user agent ip name =
      if unusable user s
      then (do fresh ← mint make_ulid; create fresh user agent ip name)
      else reuse agent ip s

  unfoldable pub find_or_create :
      String → String → String → String → String → Action OidcWorld Error DeviceSession
  unfolding reuse_or_create
  find_or_create id user agent ip name = do
    found ← query other (λ db. find (session_id id) db.device_sessions)
    reuse_or_create found id user agent ip name

-- `WHERE id = $1 AND user_id = $2 AND revoked_at IS NULL`
abbrev pub active_of : String → String → DeviceSession → Bool
active_of id user s = s.id == id && (s.user_id == user && not (is_taken s.revoked_at))

abbrev pub revoked : ℕ → DeviceSession → DeviceSession
revoked now s = record s { revoked_at = some now }

abbrev pub revoke_session : String → String → ℕ → Db → Result Error ℕ × Db
revoke_session id user now db = (
  ok (count (active_of id user) db.device_sessions),
  record db { device_sessions = update (active_of id user) (revoked now) db.device_sessions },
)

-- The body of the transaction of `RevokeByID`.
unfoldable pub revoke_body : String → String → ℕ → Action OidcWorld Error (Unit {0})
revoke_body id user now = do
  n ← statement other (revoke_session id user now)
  if nat_eq n 0
      then fail not_found
      else do statement other (delete_refresh_tokens (of_session id)); pure tt

unfoldable pub revoke_by_id : String → String → Action OidcWorld Error (Unit {0})
unfolding revoke_body
revoke_by_id id user = do now ← gets (λ w. w.clock); transaction other (revoke_body id user now)

-- `ORDER BY last_used_at DESC`
unfoldable pub insert_by_use : DeviceSession → List DeviceSession → List DeviceSession
insert_by_use s [] = s ∷ []
insert_by_use s (t ∷ ts) =
    if ltb s.last_used_at t.last_used_at then t ∷ insert_by_use s ts else s ∷ t ∷ ts

unfoldable pub sort_by_use : List DeviceSession → List DeviceSession
unfolding insert_by_use
sort_by_use [] = []
sort_by_use (s ∷ ss) = insert_by_use s (sort_by_use ss)

-- `user_id = $1 AND revoked_at IS NULL`
abbrev pub active_for : String → DeviceSession → Bool
active_for user s = s.user_id == user && not (is_taken s.revoked_at)

unfoldable pub list_active_by_user_id : String → Action OidcWorld Error (List DeviceSession)
unfolding sort_by_use
list_active_by_user_id user =
    query other (λ db. sort_by_use (select (active_for user) db.device_sessions))

-- The condition of `DeleteRevokedBefore`.
abbrev pub long_revoked : ℕ → ℕ → Db → DeviceSession → Bool
long_revoked before now db s =
    on_row s.revoked_at false (λ at. ltb at before)
    && not (is_taken (find (λ r. of_session s.id r && ltb now r.expiration) db.refresh_tokens))

-- `ON DELETE SET NULL` of the refresh tokens that refer to a deleted session.
abbrev pub refers_to_deleted : ℕ → ℕ → Db → RefreshRow → Bool
refers_to_deleted before now db r =
    on_row r.device_session_id false
      (λ d. is_taken (find (λ s. s.id == d && long_revoked before now db s) db.device_sessions))

unfoldable pub delete_sessions : ℕ → ℕ → Db → Result Error ℕ × Db
delete_sessions before now db = (
  ok (count (long_revoked before now db) db.device_sessions),
  record db {
    device_sessions = delete (long_revoked before now db) db.device_sessions;
    refresh_tokens =
        update (refers_to_deleted before now db) (λ r. record r { device_session_id = none })
          db.refresh_tokens;
    auth_requests =
        update
          (λ a. on_row a.device_session_id false (λ d.
            is_taken (find (λ s. s.id == d && long_revoked before now db s) db.device_sessions)))
          (λ a. record a { device_session_id = none }) db.auth_requests;
  },
)

unfoldable pub delete_revoked_before : ℕ → Action OidcWorld Error ℕ
unfolding delete_sessions
delete_revoked_before before = do
  now ← gets (λ w. w.clock)
  statement other (delete_sessions before now)
