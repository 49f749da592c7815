-- ===== src/Tests/Browsers.antt =====
-- The sessions of the account page at work on one browser, and their theorems there.
use hss_science.Base.Sql.{statement, call_outside}
use hss_science.Base.{◌>>=◌, ◌≤◌, ◌+◌, ◌<◌, [], ◌==◌, ◌≡◌, arith, refl, if◌then◌else◌, map_err}
use hss_science.Base.{
  ℕ, String, Option, none, some, [], ok, err, refl, ◌≡◌, true, if◌then◌else◌, ◌==◌, arith,
}
use hss_science.Base.Sql.{World}
use hss_science.Base.Sql.Rows.{find, delete}
use hss_science.Bff.Sessions.{
  Session, Redis, missing, save, load, save_state, load_and_delete_state, acquire_refresh_lock,
  release_refresh_lock, set_lock,
}
use hss_science.Bff.Auth.{NewToken, refused, passed, refresh_locked}
use hss_science.Bff.Stale.{
  renewed, checked, after_refresh, first_refreshes, stale_request_logs_out, with_tokens,
}
use hss_science.Bff.Lifetime.{state_once, save-load}
use hss_science.Bff.Mutex.{Reach-IsExclusive, refresh-works}
use hss_science.Bff.Exclusion.{
  Requests, IsExclusive, Reach, assign, later, initially, acquires, releases,
}

abbrev old_session : Session
old_session = record {
  user_id = "alice";
  access_token = "a1";
  refresh_token = "r1";
  id_token = "i1";
  token_expiry = 100;
  device_session_id = "dev";
  created_at = 5;
  last_active_at = 5;
}

abbrev new_token : NewToken
new_token = record {
  access_token = "a2";
  refresh_token = "r2";
  expiry = 900_000_000_000;
  id_token = none;
}

-- A provider that takes the token "r1" once; its state is the token that is good.
abbrev provider : String → String → Option NewToken × String
provider token good = if token == good then (some new_token, "r2") else (none, good)

abbrev no_claim : String → String
no_claim token = ""

abbrev at_start : World Redis String
at_start = record {
  tables = record { sessions = []; locks = []; states = [] };
  outside = "r1";
  faults = [];
  clock = 50;
  minted = 0;
}

first_refreshes_example : checked provider no_claim 1000 5000 "sid" old_session at_start ≡ (
  ok (passed (renewed provider no_claim 1000 5000 old_session new_token 50)),
  after_refresh provider no_claim 1000 5000 "sid" old_session new_token "r2" at_start,
)
unfolding find
first_refreshes_example =
    first_refreshes provider no_claim 1000 5000 "sid" old_session new_token "r2" at_start refl refl
      refl refl

stale_request_logs_out_example :
    (v : World Redis String) × (checked provider no_claim 1000 5000 "sid" old_session at_start
      ≡ (ok (passed (with_tokens provider no_claim 1000 5000 old_session new_token 50)), v))
    × (find (λ e. e.key == "sid") v.tables.sessions
        ≡ some (record {
          key = "sid";
          value = with_tokens provider no_claim 1000 5000 old_session new_token 50;
          expires = 50 + 1000;
        }))
    × ((checked provider no_claim 1000 5000 "sid" old_session (record v { clock = 60 })).0
        ≡ ok (refused 401 true))
    × (find
          (λ e. e.key == "sid")
          (checked provider no_claim 1000 5000 "sid" old_session
            (record v { clock = 60 })).1.tables.sessions
        ≡ none)
unfolding find
stale_request_logs_out_example =
    stale_request_logs_out provider no_claim 1000 5000 "sid" old_session new_token "r2" "r2"
      at_start 60 refl refl (omega arith) refl refl refl

abbrev with_state : World Redis String
with_state = (save_state "state" "verifier" at_start).1

saves_state : save_state "state" "verifier" at_start ≡ (ok tt, with_state)
unfolding save_state ◌>>=◌ statement
saves_state = refl

abbrev at : ℕ → World Redis String → World Redis String
at now w = record w { clock = now; faults = [] }

state_once_example :
    (u : World Redis String) × (load_and_delete_state "state" (at 70 with_state)
      ≡ (ok "verifier", u))
    × ((load_and_delete_state "state" (at 80 u)).0 ≡ err missing)
state_once_example =
    state_once "state" "verifier" at_start with_state 70 80 saves_state (omega arith) (omega arith)

abbrev with_session : World Redis String
with_session = (save 1000 5000 "sid" old_session at_start).1

saves_session : save 1000 5000 "sid" old_session at_start ≡ (ok tt, with_session)
unfolding save ◌>>=◌ statement
saves_session = refl

save-load_example :
    (90 ≤ old_session.created_at + 5000
      → (load 1000 5000 "sid" (at 90 with_session)).0 ≡ ok old_session)
    × ((0 < old_session.created_at) × (old_session.created_at + 5000 < 90)
        → ((load 1000 5000 "sid" (at 90 with_session)).0 ≡ err missing)
          × (find
                (λ e. e.key == "sid")
                (load 1000 5000 "sid" (at 90 with_session)).1.tables.sessions
              ≡ none))
save-load_example =
    save-load 1000 5000 "sid" old_session at_start with_session 90 saves_session (omega arith)

abbrev locked : World Redis String
locked = (acquire_refresh_lock "sid" at_start).1

abbrev body : World Redis String → World Redis String
body w = (refresh_locked provider no_claim 1000 5000 "sid" old_session w).1

abbrev released : World Redis String
released = (release_refresh_lock "sid" (body locked)).1

-- The first request has refreshed and released the lock, and the second has acquired it.
abbrev one_after_the_other : Requests String
one_after_the_other = record {
  world = (acquire_refresh_lock "sid" released).1;
  since = assign 2 (some 50) (assign 1 none (assign 1 (some 50) (λ _. none)));
}

second_holds : Reach "sid" at_start one_after_the_other
unfolding acquire_refresh_lock release_refresh_lock refresh_locked set_lock find delete ◌>>=◌
    statement call_outside map_err save
second_holds =
    later
      (later
        (later (later initially (acquires 1 refl))
          (refresh-works provider no_claim 1000 5000 "sid" old_session _))
        (releases 1 50 refl (omega arith)))
      (acquires 2 refl)

Reach-IsExclusive_example : IsExclusive "sid" one_after_the_other
Reach-IsExclusive_example = Reach-IsExclusive "sid" second_holds
