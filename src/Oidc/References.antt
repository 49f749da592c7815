-- ===== src/Oidc/References.antt =====
-- What the statements on auth requests, and the deletion of device sessions with its
-- `ON DELETE SET NULL`, keep true of the tables of the OpenID provider.
use hss_science.Base.Sql.Keys.{delete-Distinct, update-Distinct, Resolves, delete-Resolves}
use hss_science.Oidc.Tables.{Db, AuthRequestRow, is_taken, session_id}
use hss_science.Oidc.Domain.{DeviceSession}
use hss_science.Oidc.AuthRepo.{
  insert_request, update_request, update_login, logged_in, request_id, out_of_range, with_code,
}
use hss_science.Oidc.DeviceRepo.{delete_sessions, long_revoked}
use hss_science.Oidc.Schema.{
  IsSound, IsLogin, AreRequests, AreRefreshes, is_taken-eq-false, is_taken-eq-true,
}
use hss_science.Base.{
  ◌||◌, ◌∷◌, ◌≡◌, arith, refl, List, none, Bool-cases, Bool, String, Option, on_row, false, ℕ, inl,
  not, some, inr, subst, sym, ◌==◌, ◌&&◌,
}
use hss_science.Base.Sql.Rows.{
  find, delete, update, delete-All, update-All, update_of_none, update-All_cases,
}

with_requests :
    (rows : List AuthRequestRow) (db : Db)
    → AreRequests db.device_sessions rows
    → IsSound db
    → IsSound (record db { auth_requests = rows })
with_requests rows db good h = record {
  requests = good;
  tokens = h.tokens;
  refreshes = h.refreshes;
  sessions = h.sessions;
}

-- A row for a request that has just been made.
pub record IsFresh (row : AuthRequestRow) : Type 0 where
  pub login : IsLogin row
  pub unbound : row.device_session_id ≡ none

pub insert_request-IsSound :
    (row : AuthRequestRow) (db : Db) → IsFresh row → IsSound db → IsSound (insert_request row db).1
unfolding insert_request
insert_request-IsSound row db fresh h =
    elim (Bool-cases
      (is_taken (find (request_id row.id) db.auth_requests) || out_of_range row.max_age)) [
        | inl e ↦ rw e h
        | inr e ↦ rw e (
            with_requests (row ∷ db.auth_requests) db
              (record {
                ids = (is_taken-eq-false _ (ground (arith, e)), h.requests.ids);
                resolve = (
                  subst (Resolves (λ s. s.id) db.device_sessions) (sym fresh.unbound) tt,
                  h.requests.resolve,
                );
                logins = (fresh.login, h.requests.logins);
              })
              h)
      ]

pub delete_requests-IsSound :
    (p : AuthRequestRow → Bool) (db : Db)
    → IsSound db
    → IsSound (record db { auth_requests = delete p db.auth_requests })
delete_requests-IsSound p db h =
    with_requests (delete p db.auth_requests) db
      (record {
        ids = delete-Distinct (λ r. r.id) p db.auth_requests h.requests.ids;
        resolve = delete-All _ p db.auth_requests h.requests.resolve;
        logins = delete-All _ p db.auth_requests h.requests.logins;
      })
      h

pub save_code-IsSound :
    (id code : String) (db : Db) → IsSound db → IsSound (update_request id (with_code code) db).1
save_code-IsSound id code db h =
    with_requests (update (request_id id) (with_code code) db.auth_requests) db
      (record {
        ids = update-Distinct (λ r. r.id) _ _ db.auth_requests (λ r. refl) h.requests.ids;
        resolve = update-All _ _ _ db.auth_requests (λ r _ k. k) h.requests.resolve;
        logins = update-All _ _ _ db.auth_requests (λ r _ k. k) h.requests.logins;
      })
      h

-- The reference that a login writes: it leads to a session, or no request has this identifier.
missing_session : Option String → Db → Bool
missing_session session db =
    on_row session false (λ d. not (is_taken (find (session_id d) db.device_sessions)))

present-Resolves :
    (session : Option String) (db : Db)
    → missing_session session db ≡ false
    → Resolves (λ s. s.id) db.device_sessions session
unfolding missing_session
present-Resolves none db h = tt
present-Resolves (some d) db h =
    is_taken-eq-true (find (session_id d) db.device_sessions) (ground (arith, h))

log_in_row :
    (id user : String) (at : ℕ) (amr : List String) (session : Option String) (db : Db)
    → Resolves (λ s. s.id) db.device_sessions session
    → IsSound db
    → IsSound (update_request id (logged_in user at amr session) db).1
log_in_row id user at amr session db leads h =
    with_requests (update (request_id id) (logged_in user at amr session) db.auth_requests) db
      (record {
        ids = update-Distinct (λ r. r.id) _ _ db.auth_requests (λ r. refl) h.requests.ids;
        resolve = update-All _ _ _ db.auth_requests (λ r _ _. leads) h.requests.resolve;
        logins = update-All _ _ _ db.auth_requests (λ r _ _. (refl, refl)) h.requests.logins;
      })
      h

pub update_login-IsSound :
    (id user : String) (at : ℕ) (amr : List String) (session : Option String) (db : Db)
    → IsSound db
    → IsSound (update_login id user at amr session db).1
unfolding update_login missing_session
update_login-IsSound id user at amr session db h =
    elim (Bool-cases (is_taken (find (request_id id) db.auth_requests))) [
      | inr absent ↦ rw absent (
          with_requests _ db
            (subst (AreRequests db.device_sessions)
              (sym (
                update_of_none (request_id id) (logged_in user at amr session) db.auth_requests
                  (is_taken-eq-false _ absent)))
              h.requests)
            h)
      | inl there ↦ elim (Bool-cases (missing_session session db)) [
        | inl e ↦ rw (there, e) h
        | inr e ↦
            rw (there, e) (log_in_row id user at amr session db (present-Resolves session db e) h)
      ]
    ]

-- The test of `ON DELETE SET NULL` on a reference.
names_deleted : (DeviceSession → Bool) → List DeviceSession → Option String → Bool
names_deleted p ss o = on_row o false (λ d. is_taken (find (λ s. s.id == d && p s) ss))

kept-Resolves :
    (p : DeviceSession → Bool) (ss : List DeviceSession) (o : Option String)
    → names_deleted p ss o ≡ false
    → Resolves (λ s. s.id) ss o
    → Resolves (λ s. s.id) (delete p ss) o
unfolding names_deleted
kept-Resolves p ss none e h = tt
kept-Resolves p ss (some d) e h =
    delete-Resolves (λ s. s.id) p ss d (is_taken-eq-false _ (ground (arith, e))) h

delete_sessions-requests :
    (before now : ℕ) (db : Db)
    → IsSound db
    → AreRequests
        (delete (long_revoked before now db) db.device_sessions)
        (delete_sessions before now db).1.auth_requests
unfolding delete_sessions names_deleted
delete_sessions-requests before now db h = record {
  ids = update-Distinct (λ r. r.id) _ _ db.auth_requests (λ r. refl) h.requests.ids;
  resolve =
      update-All_cases _ _ _ _ db.auth_requests (λ r _ _. tt)
        (λ r. kept-Resolves (long_revoked before now db) db.device_sessions r.device_session_id)
        h.requests.resolve;
  logins = update-All _ _ _ db.auth_requests (λ r _ k. k) h.requests.logins;
}

delete_sessions-refreshes :
    (before now : ℕ) (db : Db)
    → IsSound db
    → AreRefreshes
        (delete (long_revoked before now db) db.device_sessions)
        (delete_sessions before now db).1.refresh_tokens
unfolding delete_sessions names_deleted
delete_sessions-refreshes before now db h = record {
  ids = update-Distinct (λ r. r.id) _ _ db.refresh_tokens (λ r. refl) h.refreshes.ids;
  hashes = update-Distinct (λ r. r.token_hash) _ _ db.refresh_tokens (λ r. refl) h.refreshes.hashes;
  resolve =
      update-All_cases _ _ _ _ db.refresh_tokens (λ r _ _. tt)
        (λ r. kept-Resolves (long_revoked before now db) db.device_sessions r.device_session_id)
        h.refreshes.resolve;
}

pub delete_sessions-IsSound :
    (before now : ℕ) (db : Db) → IsSound db → IsSound (delete_sessions before now db).1
unfolding delete_sessions
delete_sessions-IsSound before now db h = record {
  requests = delete_sessions-requests before now db h;
  tokens = h.tokens;
  refreshes = delete_sessions-refreshes before now db h;
  sessions = delete-Distinct (λ s. s.id) (long_revoked before now db) db.device_sessions h.sessions;
}
