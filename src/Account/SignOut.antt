-- ===== src/Account/SignOut.antt =====
-- Signing out everywhere else: what `RevokeAllOtherSessions` leaves of the user's device sessions.
use text.Mathlib.TextPositions.{eq_refl}
use hss_science.Base.{
  All-map, All, List, none, ok, false, true, not, inl, inr, [], ◌==◌, ◌&&◌, ◌||◌, ◌∷◌, ◌≡◌, arith,
  refl, String, Bool, Bool-cases, ap, ◌∙◌, handle, pure_lem, Action, Result-cases, map_err,
  bind_of_ok,
}
use hss_science.Base.Sql.Rows.{find, select, find_of_none}
use hss_science.Oidc.Domain.{DeviceSession}
use hss_science.Oidc.Tables.{OidcWorld, Db, session_id, of_session}
use hss_science.Oidc.DeviceRepo.{
  active_for, revoke_by_id, sort_by_use, insert_by_use, list_active_by_user_id,
}
use hss_science.Account.Handler.{revoke_each, revoke_all_other_sessions}
use hss_science.Base.Sql.Keeps.{query_calm}
use hss_science.Domerr.{Error, other}
use hss_science.Account.Ending.{
  SignedOut, listed, SignedOut-skip, missed, SignedOut-step, revoke_by_id-Revoked,
}

handle_same :
    {S E F A : Type 0} (m : Action S E A) (rest : Action S F A) (w : S)
    → handle m (λ _. rest) (λ _. rest) w ≡ rest (m w).1
unfolding handle
handle_same m rest w = elim (Result-cases (m w).0) [
  | inl (a, e) ↦ rw e refl
  | inr (x, e) ↦ rw e refl
]

loop_signs_out :
    (user current : String) (w v : OidcWorld) (ss : List DeviceSession)
    → SignedOut user current w v ss
    → (x : OidcWorld) × (revoke_each user current ss v ≡ (ok tt, x)) × SignedOut user current w x []
unfolding revoke_each
loop_signs_out user current w v [] so = (v, pure_lem tt v, so)
loop_signs_out user current w v (s ∷ ss) so = elim (Bool-cases (s.id == current)) [
  | inl own ↦
      rw own (loop_signs_out user current w v ss (SignedOut-skip user current w v s ss own so))
  | inr apart ↦
      let x = (revoke_by_id s.id user v).1 in
      let (y, ran, all) = loop_signs_out user current w x ss (
        SignedOut-step user current w v x s ss apart so
          (revoke_by_id-Revoked s.id user v so.calm)) in
      (
        y,
        rw apart (handle_same (revoke_by_id s.id user) (revoke_each user current ss) v ∙ ran),
        all,
      )
]

-- Listing an inserted session, or one that was listed before.
listed-insert :
    (id : String) (s : DeviceSession) (ss : List DeviceSession)
    → listed id (insert_by_use s ss) ≡ ((s.id == id) || listed id ss)
unfolding insert_by_use
listed-insert id s [] = refl
listed-insert id s (t ∷ ts) = ground (arith, listed-insert id s ts)

listed-sort : (id : String) (ss : List DeviceSession) → listed id (sort_by_use ss) ≡ listed id ss
unfolding sort_by_use
listed-sort id [] = refl
listed-sort id (s ∷ ss) =
    listed-insert id s (sort_by_use ss) ∙ ap (λ b. (s.id == id) || b) (listed-sort id ss)

none_missed :
    (user current : String) (all : List DeviceSession) (xs : List DeviceSession)
    → ((id : String) → listed id (select (active_for user) xs) ≡ true → listed id all ≡ true)
    → All (λ s. missed user current all s ≡ false) xs
unfolding select
none_missed user current all [] within = tt
none_missed user current all (s ∷ ss) within = elim (Bool-cases (active_for user s)) [
  | inl e ↦ (
    ground (arith, e, within s.id, eq_refl s.id),
    none_missed user current all ss (λ id h. within id (ground (arith, h, e))),
  )
  | inr e ↦ (
    ground (arith, e),
    none_missed user current all ss (λ id h. within id (ground (arith, h, e))),
  )
]

-- An active session of the user on another device.
abbrev pub elsewhere : String → String → DeviceSession → Bool
elsewhere user current s = active_for user s && not (s.id == current)

-- Signing out everywhere else works: with a database that answers the call returns, no active session
-- of the user is left but the current one, whose row and all of whose refresh tokens are as before.
pub revoke_all_others_ends :
    (user current : String) (w : OidcWorld)
    → w.faults ≡ []
    → (v : OidcWorld) × (revoke_all_other_sessions user current w ≡ (ok tt, v))
      × (find (elsewhere user current) v.tables.device_sessions ≡ none)
      × (find (session_id current) v.tables.device_sessions
          ≡ find (session_id current) w.tables.device_sessions)
      × (select (of_session current) v.tables.refresh_tokens
          ≡ select (of_session current) w.tables.refresh_tokens)
unfolding revoke_all_other_sessions list_active_by_user_id map_err
revoke_all_others_ends user current w calm =
    let rows = w.tables.device_sessions in
    let all = sort_by_use (select (active_for user) rows) in
    let start : SignedOut user current w w all = record {
      calm = calm;
      rest =
          none_missed user current all rows
            (λ id h. listed-sort id (select (active_for user) rows) ∙ h);
      kept = refl;
      tokens = refl;
    } in
    let (v, ran, so) = loop_signs_out user current w w all start in
    (
      v,
      bind_of_ok _ _ (
            rw
              (query_calm {E = Error} other
                (λ (db : Db). sort_by_use (select (active_for user) db.device_sessions)) w calm)
              refl)
          ∙ ran,
      find_of_none (elsewhere user current) v.tables.device_sessions (
          All-map (λ s. missed user current [] s ≡ false) (λ s. elsewhere user current s ≡ false)
            v.tables.device_sessions (λ s m. ground (arith, m)) so.rest),
      so.kept,
      so.tokens,
    )
