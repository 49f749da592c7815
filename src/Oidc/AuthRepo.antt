-- ===== src/Oidc/AuthRepo.antt =====
-- `AuthRequestRepository` and `ClientRepository` (internal/oidc/postgres/authrequest_repo.go,
-- client_repo.go). A column that holds an array is a list, the empty one for NULL.
use hss_science.Base.{
  ℕ, String, Bool, true, false, ◌||◌, ◌==◌, Option, none, some, List, [], ◌∷◌, Result, ok, err,
  Action, pure, fail, gets, ◌>>=◌, if◌then◌else◌, on_row, ltb, not, ◌&&◌,
}
use hss_science.Base.Int.{ℤ, pos, ltb_ℤ}
use hss_science.Base.Sql.{statement, query}
use hss_science.Base.Sql.Rows.{find, delete, update, count}
use hss_science.Domerr.{Error, not_found, other}
use hss_science.Oidc.Domain.{AuthRequest, Client}
use hss_science.Oidc.Tables.{
  AuthRequestRow, Db, OidcWorld, nil_if_empty, or_empty, is_taken, session_id,
}

abbrev pub request_id : String → AuthRequestRow → Bool
request_id id row = row.id == id

-- `WHERE code = $1`, which no NULL satisfies
abbrev pub has_code : String → AuthRequestRow → Bool
has_code code row = on_row row.code false (λ c. c == code)

-- The columns of the `INSERT`; the others have their defaults, `is_done` false and the rest NULL.
unfoldable pub request_row : AuthRequest → ℕ → AuthRequestRow
request_row ar now = record {
  id = ar.id;
  client_id = ar.client_id;
  redirect_uri = ar.redirect_uri;
  state = ar.state;
  nonce = ar.nonce;
  scopes = ar.scopes;
  response_type = ar.response_type;
  response_mode = ar.response_mode;
  code_challenge = ar.code_challenge;
  code_challenge_method = ar.code_challenge_method;
  prompt = ar.prompt;
  max_age = ar.max_age;
  login_hint = ar.login_hint;
  user_id = none;
  auth_time = none;
  amr = [];
  is_done = false;
  code = none;
  device_session_id = none;
  created_at = now;
}

-- `max_age` is an `INTEGER` of 32 bits.
abbrev pub out_of_range : Option ℤ → Bool
out_of_range none = false
out_of_range (some n) = ltb_ℤ (pos 2_147_483_647) n

unfoldable pub insert_request : AuthRequestRow → Db → Result Error (Unit {0}) × Db
insert_request row db =
    if is_taken (find (request_id row.id) db.auth_requests) || out_of_range row.max_age
    then (err other, db)
    else (ok tt, record db { auth_requests = row ∷ db.auth_requests })

-- An `UPDATE ... WHERE id = $n`, which does not look at the rows affected.
abbrev pub update_request :
    String → (AuthRequestRow → AuthRequestRow) → Db → Result Error (Unit {0}) × Db
update_request id f db =
    (ok tt, record db { auth_requests = update (request_id id) f db.auth_requests })

abbrev pub or_zero : Option ℕ → ℕ
or_zero none = 0
or_zero (some n) = n

-- `scanOne`, on a row that was found
unfoldable pub scan_one : AuthRequestRow → AuthRequest
scan_one row = record {
  id = row.id;
  client_id = row.client_id;
  redirect_uri = row.redirect_uri;
  state = row.state;
  nonce = row.nonce;
  scopes = row.scopes;
  response_type = row.response_type;
  response_mode = row.response_mode;
  code_challenge = row.code_challenge;
  code_challenge_method = row.code_challenge_method;
  prompt = row.prompt;
  max_age = row.max_age;
  login_hint = row.login_hint;
  user_id = or_empty row.user_id;
  auth_time = or_zero row.auth_time;
  amr = row.amr;
  is_done = row.is_done;
  code = or_empty row.code;
  created_at = row.created_at;
  device_session_id = or_empty row.device_session_id;
}

unfoldable pub create_request : AuthRequest → Action OidcWorld Error (Unit {0})
unfolding request_row
create_request ar = do
  now ← gets (λ w. w.clock)
  statement other (insert_request (request_row ar now))

unfoldable pub request_by_id : String → Action OidcWorld Error AuthRequest
unfolding scan_one
request_by_id id = do
  row ← query other (λ db. find (request_id id) db.auth_requests)
  on_row row (fail not_found) (λ r. pure (scan_one r))

unfoldable pub request_by_code : String → Action OidcWorld Error AuthRequest
unfolding scan_one
request_by_code code = do
  row ← query other (λ db. find (has_code code) db.auth_requests)
  on_row row (fail not_found) (λ r. pure (scan_one r))

abbrev pub with_code : String → AuthRequestRow → AuthRequestRow
with_code code row = record row { code = some code }

unfoldable pub save_code : String → String → Action OidcWorld Error (Unit {0})
save_code id code = statement other (update_request id (with_code code))

abbrev pub logged_in : String → ℕ → List String → Option String → AuthRequestRow → AuthRequestRow
logged_in user auth_time amr session row = record row {
  user_id = some user;
  auth_time = some auth_time;
  amr = amr;
  is_done = true;
  device_session_id = session;
}

-- `REFERENCES device_sessions(id)`, checked where a row is updated
unfoldable pub update_login :
    String → String → ℕ → List String → Option String → Db → Result Error (Unit {0}) × Db
update_login id user auth_time amr session db =
    let missing =
      on_row session false (λ d. not (is_taken (find (session_id d) db.device_sessions))) in
    if is_taken (find (request_id id) db.auth_requests) && missing
    then (err other, db)
    else update_request id (logged_in user auth_time amr session) db

unfoldable pub complete_login :
    String → String → ℕ → List String → String → Action OidcWorld Error (Unit {0})
unfolding nil_if_empty
complete_login id user auth_time amr session =
    statement other (update_login id user auth_time amr (nil_if_empty session))

unfoldable pub delete_request : String → Action OidcWorld Error (Unit {0})
delete_request id =
    statement other
      (λ db. (ok tt, record db { auth_requests = delete (request_id id) db.auth_requests }))

unfoldable pub delete_expired_before : ℕ → Action OidcWorld Error ℕ
delete_expired_before before = statement other (λ db. (
  ok (count (λ r. ltb r.created_at before) db.auth_requests),
  record db { auth_requests = delete (λ r. ltb r.created_at before) db.auth_requests },
))

unfoldable pub client_by_id : String → Action OidcWorld Error Client
client_by_id id = do
  row ← query other (λ db. find (λ (c : Client). c.id == id) db.clients)
  on_row row (fail not_found) (λ c. pure c)
