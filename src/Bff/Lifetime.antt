-- ===== src/Bff/Lifetime.antt =====
-- How long a session and the state of a login live.
use hss_science.Base.Sql.Rows.{find-delete-none, find-delete_self, find-delete_of_none}
use hss_science.Base.{
  List, ℕ, String, ◌+◌, ◌<◌, ◌≤◌, ◌≡◌, none, [], ok, err, arith, ◌==◌, ◌>>=◌, gets, handle, pure,
  fail,
}
use text.Mathlib.TextPositions.{eq_refl}
use hss_science.Base.Sql.{World, statement}
use hss_science.Base.Sql.Rows.{find, delete, update}
use hss_science.Bff.Sessions.{
  Session, Redis, Entry, missing, live, load, save, get_ex, delete_session, save_state,
  load_and_delete_state, state_ttl,
}

states_gone :
    (state : String) (now later : ℕ) (es : List (Entry String))
    → find (live later state) (delete (live now state) (delete (λ e. e.key == state) es)) ≡ none
states_gone state now later es =
    find-delete_of_none (live now state) (live later state) (delete (λ e. e.key == state) es)
      (find-delete-none (λ e. e.key == state) (live later state) es (λ e k. ground (arith, k)))

module _ {O : Type 0} where
  -- The verifier of a login comes back once: within the state's lifetime, and with a store that
  -- answers, a callback gets what was saved, and whichever callback comes later finds nothing.
  pub state_once :
      (state verifier : String) (w v : World Redis O) (now later : ℕ)
      → save_state state verifier w ≡ (ok tt, v)
      → now < w.clock + state_ttl
      → now ≤ later
      → (u : World Redis O) × (load_and_delete_state state (record v { clock = now; faults = [] })
          ≡ (ok verifier, u))
        × ((load_and_delete_state state (record u { clock = later; faults = [] })).0 ≡ err missing)
  unfolding save_state load_and_delete_state statement gets find delete ◌>>=◌
  state_once state verifier w v now later h in_time since = (
    (load_and_delete_state state (record v { clock = now; faults = [] })).1,
    ground (arith, h, in_time, eq_refl state),
    ground (arith, h, in_time, eq_refl state, states_gone state now later w.tables.states),
  )

  -- A session that was saved is there until its idle time is over, and reading it in time gives it
  -- back; but past the hard lifetime of a session that has a creation time, reading it finds nothing
  -- and deletes it.
  pub save-load :
      (idle_ttl hard_ttl : ℕ) (sid : String) (sess : Session) (w v : World Redis O) (now : ℕ)
      → save idle_ttl hard_ttl sid sess w ≡ (ok tt, v)
      → now < w.clock + idle_ttl
      → (now ≤ sess.created_at + hard_ttl
          → (load idle_ttl hard_ttl sid (record v { clock = now; faults = [] })).0 ≡ ok sess)
        × ((0 < sess.created_at) × (sess.created_at + hard_ttl < now)
            → ((load idle_ttl hard_ttl sid (record v { clock = now; faults = [] })).0 ≡ err missing)
              × (find
                    (λ e. e.key == sid)
                    (load idle_ttl hard_ttl sid
                      (record v { clock = now; faults = [] })).1.tables.sessions
                  ≡ none))
  unfolding save load get_ex delete_session handle statement gets find pure fail ◌>>=◌
  save-load idle_ttl hard_ttl sid sess w v now h in_time = (
    λ young. ground (arith, h, in_time, eq_refl sid, young),
    λ old. (
      ground (arith, h, in_time, eq_refl sid, old),
      ground (
        arith,
        h,
        in_time,
        eq_refl sid,
        old,
        find-delete_self (λ (e : Entry Session). e.key == sid)
            (update (live now sid) (λ e. record e { expires = now + idle_ttl }) v.tables.sessions),
      ),
    ),
  )
