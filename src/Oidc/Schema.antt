-- ===== src/Oidc/Schema.antt =====
-- The constraints of migrations/1_initial.up.sql on the tables of the OpenID provider, and what each
-- statement that writes to them keeps true.
use hss_science.Base.Sql.Keys.{
  Distinct, delete-Distinct, update-Distinct, Resolves, update-Resolves, insert-Resolves,
}
use hss_science.Oidc.Tables.{
  Db, TokenRow, RefreshRow, AuthRequestRow, insert_token, insert_refresh, insert_session,
  refused_refresh, is_taken, dangling_session, session_id,
}
use hss_science.Oidc.Domain.{DeviceSession}
use hss_science.Oidc.TokenRepo.{delete_tokens, delete_refresh_tokens, touch_session}
use hss_science.Oidc.DeviceRepo.{refresh_session, revoke_session}
use hss_science.Base.{
  ◌==◌, ◌||◌, ◌≡◌, arith, refl, All, Option, Bool-cases, false, true, String, inl, none, some, inr,
  not, All-map, ◌∷◌, List, Bool, ℕ,
}
use hss_science.Base.Sql.Rows.{find, update, delete, delete-All}

-- A request carries a user and a time of login exactly if it is done.
abbrev pub IsLogin : AuthRequestRow → Type 0
IsLogin row = (is_taken row.user_id ≡ row.is_done) × (is_taken row.auth_time ≡ row.is_done)

module _ (sessions : List DeviceSession) where
  pub record AreRequests (rows : List AuthRequestRow) : Type 0 where
    pub ids : Distinct (λ r. r.id) rows
    pub resolve : All (λ r. Resolves (λ s. s.id) sessions r.device_session_id) rows
    pub logins : All IsLogin rows

  pub record AreRefreshes (rows : List RefreshRow) : Type 0 where
    pub ids : Distinct (λ r. r.id) rows
    pub hashes : Distinct (λ r. r.token_hash) rows
    pub resolve : All (λ r. Resolves (λ s. s.id) sessions r.device_session_id) rows

pub record IsSound (db : Db) : Type 0 where
  pub requests : AreRequests db.device_sessions db.auth_requests
  pub tokens : Distinct (λ t. t.id) db.tokens
  pub refreshes : AreRefreshes db.device_sessions db.refresh_tokens
  pub sessions : Distinct (λ s. s.id) db.device_sessions

pub is_taken-eq-false {ℓ} : {A : Type ℓ} (o : Option A) → is_taken o ≡ false → o ≡ none
is_taken-eq-false none h = refl
is_taken-eq-false (some a) h = absurd (ground (arith, h))

pub is_taken-eq-true {ℓ} : {A : Type ℓ} (o : Option A) → is_taken o ≡ true → (a : A) × (o ≡ some a)
is_taken-eq-true none h = absurd (ground (arith, h))
is_taken-eq-true (some a) h = (a, refl)

dangling-Resolves :
    (o : Option String) (db : Db)
    → dangling_session o db ≡ false
    → Resolves (λ s. s.id) db.device_sessions o
dangling-Resolves none db h = tt
dangling-Resolves (some d) db h =
    is_taken-eq-true (find (session_id d) db.device_sessions) (ground (arith, h))

-- Other sessions, to which every reference still leads.
resolved_requests :
    (ss ts : List DeviceSession)
    → ((o : Option String) → Resolves (λ s. s.id) ss o → Resolves (λ s. s.id) ts o)
    → (rows : List AuthRequestRow) → AreRequests ss rows
    → AreRequests ts rows
resolved_requests ss ts k rows h = record {
  ids = h.ids;
  resolve = All-map _ _ rows (λ r. k r.device_session_id) h.resolve;
  logins = h.logins;
}

resolved_refreshes :
    (ss ts : List DeviceSession)
    → ((o : Option String) → Resolves (λ s. s.id) ss o → Resolves (λ s. s.id) ts o)
    → (rows : List RefreshRow) → AreRefreshes ss rows
    → AreRefreshes ts rows
resolved_refreshes ss ts k rows h = record {
  ids = h.ids;
  hashes = h.hashes;
  resolve = All-map _ _ rows (λ r. k r.device_session_id) h.resolve;
}

with_sessions :
    (ts : List DeviceSession) (db : Db)
    → Distinct (λ s. s.id) ts
    → ((o : Option String) → Resolves (λ s. s.id) db.device_sessions o → Resolves (λ s. s.id) ts o)
    → IsSound db
    → IsSound (record db { device_sessions = ts })
with_sessions ts db distinct k h = record {
  requests = resolved_requests db.device_sessions ts k db.auth_requests h.requests;
  tokens = h.tokens;
  refreshes = resolved_refreshes db.device_sessions ts k db.refresh_tokens h.refreshes;
  sessions = distinct;
}

-- An update of sessions that keeps their identifiers.
update_sessions :
    (p : DeviceSession → Bool) (f : DeviceSession → DeviceSession) (db : Db)
    → ((s : DeviceSession) → (f s).id ≡ s.id)
    → IsSound db
    → IsSound (record db { device_sessions = update p f db.device_sessions })
update_sessions p f db same h =
    with_sessions (update p f db.device_sessions) db
      (update-Distinct (λ s. s.id) p f db.device_sessions same h.sessions)
      (update-Resolves (λ s. s.id) p f db.device_sessions same) h

pub touch_session-IsSound :
    (now : ℕ) (id : String) (db : Db) → IsSound db → IsSound (touch_session now id db).1
touch_session-IsSound now id db = update_sessions _ _ db (λ s. refl)

pub refresh_session-IsSound :
    (agent ip : String) (now : ℕ) (id : String) (db : Db)
    → IsSound db
    → IsSound (refresh_session agent ip now id db).1
refresh_session-IsSound agent ip now id db = update_sessions _ _ db (λ s. refl)

pub revoke_session-IsSound :
    (id user : String) (now : ℕ) (db : Db) → IsSound db → IsSound (revoke_session id user now db).1
revoke_session-IsSound id user now db = update_sessions _ _ db (λ s. refl)

pub insert_session-IsSound :
    (row : DeviceSession) (db : Db) → IsSound db → IsSound (insert_session row db).1
unfolding insert_session
insert_session-IsSound row db h =
    elim (Bool-cases (
      is_taken (find (session_id row.id) db.device_sessions)
      || not (is_taken (find (λ u. u == row.user_id) db.users)))) [
        | inl e ↦ rw e h
        | inr e ↦ rw e (
            with_sessions (row ∷ db.device_sessions) db
              (is_taken-eq-false _ (ground (arith, e)), h.sessions)
              (insert-Resolves (λ s. s.id) row db.device_sessions) h)
      ]

pub insert_token-IsSound : (row : TokenRow) (db : Db) → IsSound db → IsSound (insert_token row db).1
unfolding insert_token
insert_token-IsSound row db h =
    elim (Bool-cases (is_taken (find (λ t. t.id == row.id) db.tokens))) [
      | inl e ↦ rw e h
      | inr e ↦ rw e (record {
        requests = h.requests;
        tokens = (is_taken-eq-false _ e, h.tokens);
        refreshes = h.refreshes;
        sessions = h.sessions;
      })
    ]

pub delete_tokens-IsSound :
    (p : TokenRow → Bool) (db : Db) → IsSound db → IsSound (delete_tokens p db).1
delete_tokens-IsSound p db h = record {
  requests = h.requests;
  tokens = delete-Distinct (λ t. t.id) p db.tokens h.tokens;
  refreshes = h.refreshes;
  sessions = h.sessions;
}

with_refreshes :
    (rows : List RefreshRow) (db : Db)
    → AreRefreshes db.device_sessions rows
    → IsSound db
    → IsSound (record db { refresh_tokens = rows })
with_refreshes rows db good h = record {
  requests = h.requests;
  tokens = h.tokens;
  refreshes = good;
  sessions = h.sessions;
}

pub insert_refresh-IsSound :
    (row : RefreshRow) (db : Db) → IsSound db → IsSound (insert_refresh row db).1
unfolding insert_refresh refused_refresh
insert_refresh-IsSound row db h = elim (Bool-cases (refused_refresh row db)) [
  | inl e ↦ rw e h
  | inr e ↦ rw e (
      with_refreshes (row ∷ db.refresh_tokens) db
        (record {
          ids = (is_taken-eq-false _ (ground (arith, e)), h.refreshes.ids);
          hashes = (is_taken-eq-false _ (ground (arith, e)), h.refreshes.hashes);
          resolve =
              (dangling-Resolves row.device_session_id db (ground (arith, e)), h.refreshes.resolve);
        })
        h)
]

pub delete_refreshes-IsSound :
    (p : RefreshRow → Bool) (db : Db) → IsSound db → IsSound (delete_refresh_tokens p db).1
delete_refreshes-IsSound p db h =
    with_refreshes (delete p db.refresh_tokens) db
      (record {
        ids = delete-Distinct (λ r. r.id) p db.refresh_tokens h.refreshes.ids;
        hashes = delete-Distinct (λ r. r.token_hash) p db.refresh_tokens h.refreshes.hashes;
        resolve = delete-All _ p db.refresh_tokens h.refreshes.resolve;
      })
      h
