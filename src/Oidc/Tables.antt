-- ===== src/Oidc/Tables.antt =====
-- The tables of the identity service that internal/oidc/postgres reads and writes
-- (migrations/000001_init.up.sql), and the constraints that an `INSERT` meets. Of the table `users`
-- only the identifiers matter here: foreign keys refer to them.
use hss_science.Base.{
  ℕ, String, Bool, true, false, ◌||◌, not, ◌==◌, Option, none, some, List, ◌∷◌, Result, ok, err,
  if◌then◌else◌, on_row, ◌≡◌, arith, eq_iff,
}
use hss_science.Base.Int.{ℤ}
use hss_science.Base.Sql.{World}
use hss_science.Base.Sql.Rows.{find}
use hss_science.Domerr.{Error, other}
use hss_science.Oidc.Domain.{Client, DeviceSession}

pub record TokenRow : Type 0 where
  pub id : String
  pub client_id : String
  pub subject : String
  pub audience : List String
  pub scopes : List String
  pub expiration : ℕ
  pub refresh_token_id : Option String
  pub created_at : ℕ

pub record RefreshRow : Type 0 where
  pub id : String
  pub token_hash : String
  pub client_id : String
  pub user_id : String
  pub audience : List String
  pub scopes : List String
  pub auth_time : ℕ
  pub amr : List String
  pub access_token_id : Option String
  pub device_session_id : Option String
  pub expiration : ℕ
  pub created_at : ℕ

pub record AuthRequestRow : Type 0 where
  pub id : String
  pub client_id : String
  pub redirect_uri : String
  pub state : String
  pub nonce : String
  pub scopes : List String
  pub response_type : String
  pub response_mode : String
  pub code_challenge : String
  pub code_challenge_method : String
  pub prompt : List String
  pub max_age : Option ℤ
  pub login_hint : String
  pub user_id : Option String
  pub auth_time : Option ℕ
  pub amr : List String
  pub is_done : Bool
  pub code : Option String
  pub device_session_id : Option String
  pub created_at : ℕ

-- The rows of `clients` and `device_sessions` have the columns of their entities.
pub record Db : Type 0 where
  pub users : List String
  pub auth_requests : List AuthRequestRow
  pub clients : List Client
  pub tokens : List TokenRow
  pub refresh_tokens : List RefreshRow
  pub device_sessions : List DeviceSession

abbrev pub OidcWorld : Type 0
OidcWorld = World Db (Unit {0})

-- `nilIfEmpty`
unfoldable pub nil_if_empty : String → Option String
nil_if_empty s = if s == "" then none else some s

-- A column that may be NULL, read into a string.
abbrev pub or_empty : Option String → String
or_empty none = ""
or_empty (some s) = s

-- An empty text goes in as NULL and comes back as it was.
pub or_empty-nil_if_empty : (s : String) → or_empty (nil_if_empty s) ≡ s
unfolding nil_if_empty
or_empty-nil_if_empty s = ground (arith, eq_iff s "")

abbrev pub is_taken {ℓ} : {A : Type ℓ} → Option A → Bool
is_taken none = false
is_taken (some a) = true

abbrev pub session_id : String → DeviceSession → Bool
session_id id row = row.id == id

abbrev pub has_hash : String → RefreshRow → Bool
has_hash hash row = row.token_hash == hash

-- `device_session_id = $1`, which no NULL satisfies
abbrev pub of_session : String → RefreshRow → Bool
of_session id row = on_row row.device_session_id false (λ d. d == id)

-- `PRIMARY KEY`
unfoldable pub insert_token : TokenRow → Db → Result Error (Unit {0}) × Db
insert_token row db =
    if is_taken (find (λ t. t.id == row.id) db.tokens)
    then (err other, db)
    else (ok tt, record db { tokens = row ∷ db.tokens })

-- `REFERENCES device_sessions(id)`: NULL refers to nothing.
abbrev pub dangling_session : Option String → Db → Bool
dangling_session none db = false
dangling_session (some d) db = not (is_taken (find (session_id d) db.device_sessions))

-- `PRIMARY KEY`, `UNIQUE` and the two foreign keys of `refresh_tokens`
unfoldable pub refused_refresh : RefreshRow → Db → Bool
refused_refresh row db =
    is_taken (find (λ r. r.id == row.id) db.refresh_tokens)
    || (is_taken (find (has_hash row.token_hash) db.refresh_tokens)
        || (not (is_taken (find (λ u. u == row.user_id) db.users))
            || dangling_session row.device_session_id db))

unfoldable pub insert_refresh : RefreshRow → Db → Result Error (Unit {0}) × Db
unfolding refused_refresh
insert_refresh row db =
    if refused_refresh row db
    then (err other, db)
    else (ok tt, record db { refresh_tokens = row ∷ db.refresh_tokens })

unfoldable pub insert_session : DeviceSession → Db → Result Error (Unit {0}) × Db
insert_session row db =
    if is_taken (find (session_id row.id) db.device_sessions)
      || not (is_taken (find (λ u. u == row.user_id) db.users))
    then (err other, db)
    else (ok tt, record db { device_sessions = row ∷ db.device_sessions })
