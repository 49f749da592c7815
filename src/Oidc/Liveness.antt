-- ===== src/Oidc/Liveness.antt =====
-- The calls that a well-behaved client makes do return: a live refresh token can be exchanged, and an
-- active device session can be revoked.
use hss_science.Base.{
  ℕ, String, Bool, false, ◌≡◌, refl, ◌≢◌, ◌∙◌, ◌==◌, Option, none, some, List, [], ◌∷◌, ok, arith,
  eq_iff, Bool-cases, inl, inr, bind_of_ok, pure, gets, ◌>>=◌, if◌then◌else◌, on_row,
}
use hss_science.Base.Sql.{query, statement}
use hss_science.Base.Sql.Rows.{find, delete, update, count, count-eq-zero, find-delete_of_none}
use hss_science.Base.Sql.Keeps.{statement_calm, transaction_calm}
use hss_science.Domerr.{Error, other}
use hss_science.Base.{Action, on_row, pure_lem}
use hss_science.Oidc.Tables.{or_empty}
use hss_science.Oidc.Domain.{Token, RefreshToken}
use hss_science.Oidc.Tables.{
  Db, OidcWorld, TokenRow, RefreshRow, refused_refresh, has_hash, of_session, is_taken,
  dangling_session, or_empty,
}
use hss_science.Oidc.TokenRepo.{
  create_access_and_refresh, rotate, use_up, revoke_old_access, store_pair, token_row, refresh_row,
  bound_to, inherited_session, live_refresh, touch_session,
}
use hss_science.Oidc.DeviceRepo.{revoke_by_id, revoke_body, active_of, revoked}
use hss_science.Oidc.Reissue.{insert_token_fresh, insert_refresh_accepted}

revoke_body_succeeds :
    (id user : String) (now : ℕ) (w : OidcWorld)
    → find (active_of id user) w.tables.device_sessions ≢ none
    → w.faults ≡ []
    → revoke_body id user now w ≡ (
      ok tt,
      record w {
        tables = record (w.tables) {
          device_sessions = update (active_of id user) (revoked now) w.tables.device_sessions;
          refresh_tokens = delete (of_session id) w.tables.refresh_tokens;
        };
      },
    )
unfolding revoke_body statement ◌>>=◌
revoke_body_succeeds id user now w there calm =
    let counted : count (active_of id user) w.tables.device_sessions ≢ 0 =
      λ z. there ((count-eq-zero (active_of id user) w.tables.device_sessions).0 z) in
    ground (arith, calm, counted)

-- An active session of the user can be revoked: with a database that answers the call returns, and
-- the session is revoked and its refresh tokens are gone.
pub revoke_by_id_succeeds :
    (id user : String) (w : OidcWorld)
    → find (active_of id user) w.tables.device_sessions ≢ none
    → w.faults ≡ []
    → revoke_by_id id user w ≡ (
      ok tt,
      record w {
        tables = record (w.tables) {
          device_sessions = update (active_of id user) (revoked w.clock) w.tables.device_sessions;
          refresh_tokens = delete (of_session id) w.tables.refresh_tokens;
        };
      },
    )
unfolding revoke_by_id gets ◌>>=◌
revoke_by_id_succeeds id user w there calm =
    transaction_calm other (revoke_body id user w.clock) w _ tt calm
      (revoke_body_succeeds id user w.clock w there calm) calm

-- What `use_up` leaves of the world.
abbrev kept : Token → RefreshToken → String → ℕ → OidcWorld → List TokenRow → OidcWorld
kept access refresh current now w tokens = record w {
  tables = record (w.tables) {
    tokens = tokens;
    refresh_tokens = delete (live_refresh now current) w.tables.refresh_tokens;
  };
}

-- The tokens without the old access token.
abbrev pruned : Option RefreshRow → List TokenRow → List TokenRow
pruned old tokens =
    let id = on_row old "" (λ row. or_empty row.access_token_id) in
    if id == "" then tokens else delete (λ t. t.id == id) tokens

use_up_succeeds :
    (access : Token) (refresh : RefreshToken) (current : String) (now : ℕ) (w : OidcWorld)
    → current ≢ ""
    → find (live_refresh now current) w.tables.refresh_tokens ≢ none
    → w.faults ≡ []
    → use_up refresh current now w ≡ (
      ok (inherited_session refresh (find (has_hash current) w.tables.refresh_tokens)),
      kept access refresh current now w
          (pruned (find (has_hash current) w.tables.refresh_tokens) w.tables.tokens),
    )
unfolding use_up revoke_old_access query statement ◌>>=◌
use_up_succeeds access refresh current now w given there calm =
    let counted : count (live_refresh now current) w.tables.refresh_tokens ≢ 0 =
      λ z. there ((count-eq-zero (live_refresh now current) w.tables.refresh_tokens).0 z) in
    ground (arith, calm, counted, given, eq_iff current "")

kept_free :
    (p q : RefreshRow → Bool) (rows : List RefreshRow)
    → is_taken (find q rows) ≡ false
    → is_taken (find q (delete p rows)) ≡ false
kept_free p q rows h = rw (find-delete_of_none p q rows (ground (arith, h))) refl

dangling-same :
    (o : Option String) (db : Db) (tokens : List TokenRow) (rows : List RefreshRow)
    → dangling_session o (record db { tokens = tokens; refresh_tokens = rows })
      ≡ dangling_session o db
dangling-same none db tokens rows = refl
dangling-same (some d) db tokens rows = refl

-- Deleting rows does not make the constraints refuse another row.
still_accepted :
    (row : RefreshRow) (db : Db) (p : RefreshRow → Bool) (tokens : List TokenRow)
    → refused_refresh row db ≡ false
    → refused_refresh row
        (record db { tokens = tokens; refresh_tokens = delete p db.refresh_tokens })
      ≡ false
unfolding refused_refresh
still_accepted row db p tokens h = ground (
  arith,
  h,
  kept_free p (λ r. r.id == row.id) db.refresh_tokens (ground (arith, h)),
  kept_free p (has_hash row.token_hash) db.refresh_tokens (ground (arith, h)),
  dangling-same row.device_session_id db tokens (delete p db.refresh_tokens),
)

-- A call that returns, with no fault to come.
abbrev Returns : Action OidcWorld Error (Unit {0}) → OidcWorld → Type 0
Returns m w = (v : OidcWorld) × (m w ≡ (ok tt, v)) × (v.faults ≡ [])

touch_succeeds :
    (refresh : RefreshToken) (now : ℕ) (w : OidcWorld)
    → w.faults ≡ []
    → Returns
        (if refresh.device_session_id == ""
          then pure tt
          else statement other (touch_session now refresh.device_session_id))
        w
touch_succeeds refresh now w calm = elim (Bool-cases (refresh.device_session_id == "")) [
  | inl e ↦ (w, rw e (pure_lem tt w), calm)
  | inr e ↦ (
    record w { tables = (touch_session now refresh.device_session_id w.tables).1 },
    rw e (statement_calm other _ w calm refl),
    calm,
  )
]

store_pair_succeeds :
    (access : Token) (refresh : RefreshToken) (now : ℕ) (w : OidcWorld)
    → w.faults ≡ []
    → find (λ t. t.id == access.id) w.tables.tokens ≡ none
    → refused_refresh (refresh_row refresh now) w.tables ≡ false
    → Returns (store_pair access refresh now) w
unfolding store_pair
store_pair_succeeds access refresh now w calm fresh accepted =
    let row = token_row access (some access.refresh_token_id) now in
    let (v, touches, still) =
      touch_succeeds refresh now
        (record w {
          tables = record (w.tables) {
            tokens = row ∷ w.tables.tokens;
            refresh_tokens = refresh_row refresh now ∷ w.tables.refresh_tokens;
          };
        })
        calm in
    (
      v,
      bind_of_ok _ _ (statement_calm other _ w calm (insert_token_fresh row w.tables fresh))
          ∙ bind_of_ok _ _ (
              statement_calm other _ _ calm
                (insert_refresh_accepted (refresh_row refresh now) w.tables _ accepted))
          ∙ touches,
      still,
    )

pruned_fresh :
    (old : Option RefreshRow) (id : String) (tokens : List TokenRow)
    → find (λ t. t.id == id) tokens ≡ none
    → find (λ t. t.id == id) (pruned old tokens) ≡ none
pruned_fresh old id tokens fresh =
    let gone = on_row old "" (λ row. or_empty row.access_token_id) in
    elim (Bool-cases (gone == "")) [
      | inl e ↦ ground (arith, e, fresh)
      | inr e ↦ ground (
        arith,
        e,
        find-delete_of_none (λ (t : TokenRow). t.id == gone) (λ (t : TokenRow). t.id == id) tokens
            fresh,
      )
    ]

-- The row that a rotation will store.
abbrev pub coming_row : RefreshToken → String → ℕ → List RefreshRow → RefreshRow
coming_row refresh current now rows =
    refresh_row (bound_to refresh (inherited_session refresh (find (has_hash current) rows))) now

rotate_succeeds :
    (access : Token) (refresh : RefreshToken) (current : String) (now : ℕ) (w : OidcWorld)
    → current ≢ ""
    → find (live_refresh now current) w.tables.refresh_tokens ≢ none
    → find (λ t. t.id == access.id) w.tables.tokens ≡ none
    → refused_refresh (coming_row refresh current now w.tables.refresh_tokens) w.tables ≡ false
    → w.faults ≡ []
    → Returns (rotate access refresh current now) w
unfolding rotate
rotate_succeeds access refresh current now w given there fresh accepted calm =
    let old = find (has_hash current) w.tables.refresh_tokens in
    let (v, stores, still) =
      store_pair_succeeds access (bound_to refresh (inherited_session refresh old)) now
        (kept access refresh current now w (pruned old w.tables.tokens)) calm
        (pruned_fresh old access.id w.tables.tokens fresh)
        (still_accepted _ w.tables (live_refresh now current) _ accepted) in
    (
      v,
      bind_of_ok _ _ (use_up_succeeds access refresh current now w given there calm) ∙ stores,
      still,
    )

-- A live refresh token can be exchanged: with a database that answers, an access token's id that is
-- not taken, and a new row that meets the constraints of the table, the rotation returns.
pub rotation_succeeds :
    (access : Token) (refresh : RefreshToken) (current : String) (w : OidcWorld)
    → current ≢ ""
    → find (live_refresh w.clock current) w.tables.refresh_tokens ≢ none
    → find (λ t. t.id == access.id) w.tables.tokens ≡ none
    → refused_refresh (coming_row refresh current w.clock w.tables.refresh_tokens) w.tables ≡ false
    → w.faults ≡ []
    → (v : OidcWorld) × (create_access_and_refresh access refresh current w ≡ (ok tt, v))
unfolding create_access_and_refresh gets ◌>>=◌
rotation_succeeds access refresh current w given there fresh accepted calm =
    let (v, ran, still) =
      rotate_succeeds access refresh current w.clock w given there fresh accepted calm in
    (v, transaction_calm other (rotate access refresh current w.clock) w v tt calm ran still)
