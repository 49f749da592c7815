-- ===== src/Bff/Stale.antt =====
-- Two requests of one browser that find the same session about to expire.
use text.Mathlib.TextPositions.{eq_refl}
use hss_science.Base.Sql.Rows.{find-delete-none, find-delete_self}
use hss_science.Bff.Sessions.{Entry, lock_ttl}
use hss_science.Base.{
  Result, List, ◌≤◌, ap, ◌∙◌, ℕ, String, true, false, ◌+◌, ◌≡◌, none, some, [], ok, arith, ◌==◌,
  ◌>>=◌, gets, handle, pure, map_err, Option, refl, if◌then◌else◌, Option-cases, inl, inr,
}
use hss_science.Base.Sql.{World, statement, call_outside}
use hss_science.Base.Sql.Rows.{find, delete}
use hss_science.Bff.Sessions.{
  Session, Redis, live, save, put, delete_session, acquire_refresh_lock, release_refresh_lock,
  set_lock,
}
use hss_science.Bff.Auth.{
  NewToken, Verdict, refused, passed, check_expiry, refresh_tokens, refresh_locked, release_after,
  log_out, refreshed_session, expires_soon,
}

find-put_self :
    {A : Type 0} (key : String) (value : A) (expires : ℕ) (es : List (Entry A))
    → find (λ e. e.key == key) (put key value expires es)
      ≡ some (record { key = key; value = value; expires = expires })
unfolding find
find-put_self key value expires es = ground (arith, eq_refl key)

abbrev pub or_blank : Option String → String
or_blank none = ""
or_blank (some raw) = raw

module _ {O : Type 0} (refresh : String → O → Option NewToken × O) (extract_dsid : String → String)
    (idle_ttl hard_ttl : ℕ) where
  -- The session with its new tokens.
  abbrev pub renewed : Session → NewToken → ℕ → Session
  renewed = refreshed_session refresh extract_dsid idle_ttl hard_ttl

  abbrev pub checked : String → Session → World Redis O → Result (Unit {0}) Verdict × World Redis O
  checked = check_expiry refresh extract_dsid idle_ttl hard_ttl

  -- The world after a refresh: the session is saved, and the lock is free again.
  abbrev pub after_refresh : String → Session → NewToken → O → World Redis O → World Redis O
  after_refresh sid sess token o w = record w {
    outside = o;
    tables = record (w.tables) {
      sessions = put sid (renewed sess token w.clock) (w.clock + idle_ttl) w.tables.sessions;
      locks = delete (λ e. e.key == sid) (put sid tt (w.clock + lock_ttl) w.tables.locks);
    };
  }

  -- A session about to expire, where no refresh is under way and the provider gives new tokens: the
  -- request passes with the new tokens, which are saved, and the lock is free again.
  pub first_refreshes :
      (sid : String) (sess : Session) (token : NewToken) (o : O) (w : World Redis O)
      → w.faults ≡ []
      → expires_soon w.clock sess ≡ true
      → find (live w.clock sid) w.tables.locks ≡ none
      → refresh sess.refresh_token w.outside ≡ (some token, o)
      → checked sid sess w
        ≡ (ok (passed (renewed sess token w.clock)), after_refresh sid sess token o w)
  unfolding check_expiry refresh_tokens refresh_locked release_after acquire_refresh_lock
      release_refresh_lock set_lock save call_outside map_err handle statement gets pure ◌>>=◌
  first_refreshes sid sess token o w calm soon free fresh = ground (arith, calm, soon, free, fresh)

  lock_free :
      (sid : String) (now : ℕ) (es : List (Entry (Unit {0})))
      → find (live now sid) (delete (λ e. e.key == sid) es) ≡ none
  lock_free sid now es =
      find-delete-none (λ e. e.key == sid) (live now sid) es (λ e h. ground (arith, h))

  refused_refresh_logs_out :
      (sid : String) (sess : Session) (o : O) (w : World Redis O)
      → w.faults ≡ []
      → expires_soon w.clock sess ≡ true
      → find (live w.clock sid) w.tables.locks ≡ none
      → refresh sess.refresh_token w.outside ≡ (none, o)
      → ((checked sid sess w).0 ≡ ok (refused 401 true))
        × ((checked sid sess w).1.tables.sessions ≡ delete (λ e. e.key == sid) w.tables.sessions)
  unfolding check_expiry refresh_tokens refresh_locked release_after acquire_refresh_lock log_out
      delete_session release_refresh_lock set_lock call_outside map_err handle statement gets pure
      ◌>>=◌
  refused_refresh_logs_out sid sess o w calm soon free spent =
      (ground (arith, calm, soon, free, spent), ground (arith, calm, soon, free, spent))

  -- The session with new tokens: what the provider leaves out, and an access token without a device
  -- session, keep the old value.
  abbrev pub with_tokens : Session → NewToken → ℕ → Session
  with_tokens sess token now = record {
    user_id = sess.user_id;
    access_token = token.access_token;
    refresh_token = if token.refresh_token == "" then sess.refresh_token else token.refresh_token;
    id_token = if or_blank token.id_token == "" then sess.id_token else or_blank token.id_token;
    token_expiry = token.expiry;
    device_session_id =
        if extract_dsid token.access_token == ""
        then sess.device_session_id
        else extract_dsid token.access_token;
    created_at = sess.created_at;
    last_active_at = now;
  }

  renewed-with_tokens :
      (sess : Session) (token : NewToken) (now : ℕ)
      → renewed sess token now ≡ with_tokens sess token now
  unfolding refreshed_session
  renewed-with_tokens sess token now = elim (Option-cases token.id_token) [
    | inl e ↦ rw e refl
    | inr (raw, e) ↦ rw e refl
  ]

  -- Two requests that both read the session before either refreshed it, with a provider that takes a
  -- refresh token once. The first is answered and saves the new tokens. The second, which then gets
  -- the lock, still holds the spent token, for it does not read the session again: it is refused, and
  -- the session with the new tokens is deleted.
  pub stale_request_logs_out :
      (sid : String) (sess : Session) (token : NewToken) (o z : O) (w : World Redis O) (later : ℕ)
      → w.faults ≡ []
      → expires_soon w.clock sess ≡ true
      → w.clock ≤ later
      → find (live w.clock sid) w.tables.locks ≡ none
      → refresh sess.refresh_token w.outside ≡ (some token, o)
      → refresh sess.refresh_token o ≡ (none, z)
      → (v : World Redis O) × (checked sid sess w
          ≡ (ok (passed (with_tokens sess token w.clock)), v))
        × (find (λ e. e.key == sid) v.tables.sessions
            ≡ some (record {
              key = sid;
              value = with_tokens sess token w.clock;
              expires = w.clock + idle_ttl;
            }))
        × ((checked sid sess (record v { clock = later })).0 ≡ ok (refused 401 true))
        × (find
              (λ e. e.key == sid)
              (checked sid sess (record v { clock = later })).1.tables.sessions
            ≡ none)
  stale_request_logs_out sid sess token o z w later calm soon since free fresh spent =
      let v = after_refresh sid sess token o w in
      let (answer, left) =
        refused_refresh_logs_out sid sess z (record v { clock = later }) calm
          (ground (arith, soon, since)) (lock_free sid later _) spent in
      (
        v,
        first_refreshes sid sess token o w calm soon free fresh
            ∙ ap (λ s. (ok (passed s), v)) (renewed-with_tokens sess token w.clock),
        find-put_self sid (renewed sess token w.clock) (w.clock + idle_ttl) w.tables.sessions
            ∙ ap (λ s. some (record { key = sid; value = s; expires = w.clock + idle_ttl }))
                (renewed-with_tokens sess token w.clock),
        answer,
        ap (find (λ e. e.key == sid)) left ∙ find-delete_self (λ e. e.key == sid) v.tables.sessions,
      )

  -- A session whose tokens are good for another minute passes as it is, and nothing changes.
  fresh_passes :
      (sid : String) (sess : Session) (w : World Redis O)
      → expires_soon w.clock sess ≡ false
      → checked sid sess w ≡ (ok (passed sess), w)
  unfolding check_expiry gets pure ◌>>=◌
  fresh_passes sid sess w good = ground (arith, good)
