-- ===== src/Bff/Sessions.antt =====
-- The session store (internal/session/model.go, store.go). Redis keeps, under each of the three key
-- prefixes, entries that are gone when their time to live is over; a command may fail. What is
-- marshalled comes back as it was. Times are in nanoseconds, 0 for Go's zero time.
use hss_science.Base.{
  ℕ, String, Bool, true, false, ◌+◌, ◌&&◌, ◌==◌, Option, none, some, List, ◌∷◌, Result, ok, Action,
  pure, fail, gets, ◌>>=◌, handle, if◌then◌else◌, on_row, ltb,
}
use hss_science.Base.Sql.{World, statement}
use hss_science.Base.Sql.Rows.{find, delete, update}

pub record Session : Type 0 where
  pub user_id : String
  pub access_token : String
  pub refresh_token : String
  pub id_token : String
  pub token_expiry : ℕ
  pub device_session_id : String
  pub created_at : ℕ
  pub last_active_at : ℕ

pub record Entry (A : Type 0) : Type 0 where
  pub key : String
  pub value : A
  pub expires : ℕ

pub record Redis : Type 0 where
  pub sessions : List (Entry Session)
  pub locks : List (Entry (Unit {0}))
  pub states : List (Entry String)

pub data StoreError : Type 0 where
  missing store_failed : StoreError

abbrev pub second : ℕ
second = 1_000_000_000

abbrev pub lock_ttl : ℕ
lock_ttl = 10_000_000_000

abbrev pub state_ttl : ℕ
state_ttl = 600_000_000_000

abbrev pub live : {A : Type 0} → ℕ → String → Entry A → Bool
live now key e = (e.key == key) && ltb now e.expires

-- `SET key value EX ttl`
abbrev pub put : {A : Type 0} → String → A → ℕ → List (Entry A) → List (Entry A)
put key value expires es =
    record { key = key; value = value; expires = expires } ∷ delete (λ e. e.key == key) es

abbrev pub value_of : {A : Type 0} → Option (Entry A) → Option A
value_of none = none
value_of (some e) = some e.value

-- `GETEX key EX ttl`
unfoldable pub get_ex : ℕ → ℕ → String → Redis → Result StoreError (Option Session) × Redis
get_ex now ttl key r = (
  ok (value_of (find (live now key) r.sessions)),
  record r { sessions = update (live now key) (λ e. record e { expires = now + ttl }) r.sessions },
)

-- `SET key 1 NX EX ttl`: whether it was set
unfoldable pub set_lock : ℕ → String → Redis → Result StoreError Bool × Redis
set_lock now key r =
    on_row (find (live now key) r.locks)
      (ok true, record r { locks = put key tt (now + lock_ttl) r.locks }) (λ e. (ok false, r))

-- `!sess.CreatedAt.IsZero() && time.Now().UTC().After(sess.CreatedAt.Add(s.hardTTL))`
abbrev pub too_old : ℕ → ℕ → Session → Bool
too_old hard_ttl now sess = ltb 0 sess.created_at && ltb (sess.created_at + hard_ttl) now

module _ {O : Type 0} where
  unfoldable pub delete_session : String → Action (World Redis O) StoreError (Unit {0})
  delete_session sid =
      statement store_failed
        (λ r. (ok tt, record r { sessions = delete (λ e. e.key == sid) r.sessions }))

  module _ (idle_ttl hard_ttl : ℕ) where
    unfoldable pub save : String → Session → Action (World Redis O) StoreError (Unit {0})
    save sid sess = do
      now ← gets (λ w. w.clock)
      statement store_failed
          (λ r. (ok tt, record r { sessions = put sid sess (now + idle_ttl) r.sessions }))

    unfoldable pub load : String → Action (World Redis O) StoreError Session
    unfolding get_ex
    load sid = do
      now ← gets (λ w. w.clock)
      got ← statement store_failed (get_ex now idle_ttl sid)
      on_row got (fail missing) (λ sess.
          if too_old hard_ttl now sess
          then handle (delete_session sid) (λ _. fail missing) (λ e. fail missing)
          else pure sess)

  unfoldable pub acquire_refresh_lock : String → Action (World Redis O) StoreError Bool
  unfolding set_lock
  acquire_refresh_lock sid = do now ← gets (λ w. w.clock); statement store_failed (set_lock now sid)

  unfoldable pub release_refresh_lock : String → Action (World Redis O) StoreError (Unit {0})
  release_refresh_lock sid =
      statement store_failed (λ r. (ok tt, record r { locks = delete (λ e. e.key == sid) r.locks }))

  unfoldable pub save_state : String → String → Action (World Redis O) StoreError (Unit {0})
  save_state state verifier = do
    now ← gets (λ w. w.clock)
    statement store_failed
        (λ r. (ok tt, record r { states = put state verifier (now + state_ttl) r.states }))

  -- The script reads and deletes in one step.
  unfoldable pub load_and_delete_state : String → Action (World Redis O) StoreError String
  load_and_delete_state state = do
    now ← gets (λ w. w.clock)
    got ← statement store_failed (λ r. (
      ok (value_of (find (live now state) r.states)),
      record r { states = delete (live now state) r.states },
    ))
    on_row got (fail missing) (λ verifier. pure verifier)
