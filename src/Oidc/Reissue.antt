-- ===== src/Oidc/Reissue.antt =====
-- Tokens issued for an authorization code, and the session that was revoked in between.
use mathlib.Core.Option
use hss_science.Base.{
  [], refl, ◌≡◌, false, ℕ, ◌>>=◌, some, ◌∷◌, ◌≢◌, ◌==◌, none, ok, Option, if◌then◌else◌, bind_of_ok,
  arith, String, List, pure, ◌∙◌, eq_iff, gets, err, Bool-cases, inl, ap, subst, inr,
}
use hss_science.Base.Sql.Rows.{find, update, find-update, find-none_of_weaker}
use hss_science.Oidc.TokenRepo.{
  create_access_and_refresh, store_pair, rotate, use_up, token_row, refresh_row, touch_session,
}
use hss_science.Oidc.Domain.{Token, RefreshToken, DeviceSession}
use hss_science.Oidc.Tables.{
  insert_token, insert_refresh, Db, OidcWorld, session_id, refused_refresh, TokenRow, RefreshRow,
  dangling_session, of_session,
}
use hss_science.Base.Sql.{statement}
use hss_science.Base.Sql.Keeps.{statement_calm, transaction_calm}
use hss_science.Domerr.{other, not_found}
use hss_science.Oidc.DeviceRepo.{active_of, revoke_by_id}
use hss_science.Oidc.Revocation.{revoke_by_id_foreign}

-- The tables after tokens were issued without a refresh token being used up.
abbrev pub issued : Token → RefreshToken → ℕ → Db → Db
issued access refresh now db = record db {
  tokens = token_row access (some access.refresh_token_id) now ∷ db.tokens;
  refresh_tokens = refresh_row refresh now ∷ db.refresh_tokens;
  device_sessions =
      update (session_id refresh.device_session_id) (λ s. record s { last_used_at = now })
        db.device_sessions;
}

pub insert_token_fresh :
    (row : TokenRow) (db : Db)
    → find (λ t. t.id == row.id) db.tokens ≡ none
    → insert_token row db ≡ (ok tt, record db { tokens = row ∷ db.tokens })
unfolding insert_token
insert_token_fresh row db e = rw e refl

dangling-tokens :
    (o : Option String) (db : Db) (ts : List TokenRow)
    → dangling_session o (record db { tokens = ts }) ≡ dangling_session o db
dangling-tokens none db ts = refl
dangling-tokens (some d) db ts = refl

-- The constraints of `refresh_tokens` do not look at `tokens`.
pub insert_refresh_accepted :
    (row : RefreshRow) (db : Db) (ts : List TokenRow)
    → refused_refresh row db ≡ false
    → insert_refresh row (record db { tokens = ts })
      ≡ (ok tt, record db { tokens = ts; refresh_tokens = row ∷ db.refresh_tokens })
unfolding insert_refresh
insert_refresh_accepted row db ts e = rw (dangling-tokens row.device_session_id db ts) (rw e refl)

touch_calm :
    (refresh : RefreshToken) (now : ℕ) (w : OidcWorld)
    → refresh.device_session_id ≢ ""
    → w.faults ≡ []
    → (if refresh.device_session_id == ""
          then pure tt
          else statement other (touch_session now refresh.device_session_id))
        w
      ≡ (ok tt, record w { tables = (touch_session now refresh.device_session_id w.tables).1 })
unfolding statement
touch_calm refresh now w bound calm =
    ground (arith, bound, calm, eq_iff refresh.device_session_id "")

store_pair_issues :
    (access : Token) (refresh : RefreshToken) (now : ℕ) (w : OidcWorld)
    → refresh.device_session_id ≢ ""
    → w.faults ≡ []
    → find (λ t. t.id == access.id) w.tables.tokens ≡ none
    → refused_refresh (refresh_row refresh now) w.tables ≡ false
    → store_pair access refresh now w
      ≡ (ok tt, record w { tables = issued access refresh now w.tables })
unfolding store_pair
store_pair_issues access refresh now w bound calm fresh accepted =
    bind_of_ok _ _ (
      statement_calm other _ w calm
        (insert_token_fresh (token_row access (some access.refresh_token_id) now) w.tables fresh))
    ∙ bind_of_ok _ _ (
        statement_calm other _ _ calm
          (insert_refresh_accepted (refresh_row refresh now) w.tables _ accepted))
    ∙ touch_calm refresh now _ bound calm

issue_for_session :
    (access : Token) (refresh : RefreshToken) (w : OidcWorld)
    → refresh.device_session_id ≢ ""
    → w.faults ≡ []
    → find (λ t. t.id == access.id) w.tables.tokens ≡ none
    → refused_refresh (refresh_row refresh w.clock) w.tables ≡ false
    → create_access_and_refresh access refresh "" w
      ≡ (ok tt, record w { tables = issued access refresh w.clock w.tables })
unfolding create_access_and_refresh rotate use_up gets pure ◌>>=◌
issue_for_session access refresh w bound calm fresh accepted =
    transaction_calm other (rotate access refresh "" w.clock) w _ tt calm
      (store_pair_issues access refresh w.clock w bound calm fresh accepted) calm

issued_row :
    (refresh : RefreshToken) (w : OidcWorld)
    → refresh.device_session_id ≢ ""
    → find
        (of_session refresh.device_session_id)
        (refresh_row refresh w.clock ∷ w.tables.refresh_tokens)
      ≡ some (refresh_row refresh w.clock)
unfolding refresh_row find
issued_row refresh w bound = ground (
  arith,
  bound,
  eq_iff refresh.device_session_id "",
  eq_iff refresh.device_session_id refresh.device_session_id,
)

-- The primary key of `device_sessions`.
abbrev pub DistinctSessions : List DeviceSession → Type 0
DistinctSessions [] = Unit {0}
DistinctSessions (s ∷ ss) = (find (session_id s.id) ss ≡ none) × DistinctSessions ss

not_active_of_revoked :
    (id user : String) (s : DeviceSession) (at : ℕ) (rows : List DeviceSession)
    → DistinctSessions rows
    → find (session_id id) rows ≡ some s
    → s.revoked_at ≡ some at
    → find (active_of id user) rows ≡ none
unfolding find
not_active_of_revoked id user s at [] d there gone = refl
not_active_of_revoked id user s at (x ∷ xs) d there gone = elim (Bool-cases (x.id == id)) [
  | inl here ↦
      let key : x.id ≡ id = (eq_iff x.id id).0 here in
      let rest =
        find-none_of_weaker (session_id id) (active_of id user) xs (λ y h. ground (arith, h))
          (subst (λ k. find (session_id k) xs ≡ none) key d.0) in
      ground (arith, here, there, gone, rest)
  | inr elsewhere ↦
      let rest =
        not_active_of_revoked id user s at xs d.1 (ground (arith, there, elsewhere)) gone in
      ground (arith, elsewhere, rest)
]

-- A session that the user has revoked comes back to life: the code exchange of a login that was under
-- way binds its refresh token to the session without a look at `revoked_at`. The token is stored, and
-- the user can no longer end it: the session is not among the active ones, and revoking it once
-- more is refused as not found.
pub revoked_session_reissued :
    (access : Token) (refresh : RefreshToken) (w : OidcWorld) (s : DeviceSession) (at : ℕ)
    → refresh.device_session_id ≢ ""
    → find (session_id refresh.device_session_id) w.tables.device_sessions ≡ some s
    → DistinctSessions w.tables.device_sessions
    → s.revoked_at ≡ some at
    → w.faults ≡ []
    → find (λ t. t.id == access.id) w.tables.tokens ≡ none
    → refused_refresh (refresh_row refresh w.clock) w.tables ≡ false
    → (v : OidcWorld) × (create_access_and_refresh access refresh "" w ≡ (ok tt, v))
      × (find (of_session refresh.device_session_id) v.tables.refresh_tokens
          ≡ some (refresh_row refresh w.clock))
      × (revoke_by_id refresh.device_session_id s.user_id v ≡ (err not_found, v))
revoked_session_reissued access refresh w s at bound there distinct gone calm fresh accepted = (
  _,
  issue_for_session access refresh w bound calm fresh accepted,
  issued_row refresh w bound,
  revoke_by_id_foreign refresh.device_session_id s.user_id _
      (find-update (session_id refresh.device_session_id) (λ x. record x { last_used_at = w.clock })
          (active_of refresh.device_session_id s.user_id) w.tables.device_sessions (λ x. refl)
        ∙ ap (Option.map _) (
            not_active_of_revoked refresh.device_session_id s.user_id s at w.tables.device_sessions
              distinct there gone))
      calm,
)
