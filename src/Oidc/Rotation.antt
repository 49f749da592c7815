-- ===== src/Oidc/Rotation.antt =====
-- Rotation of refresh tokens: what `CreateAccessAndRefresh` uses up and what it stores.
use mathlib.Core.Path.{ap₂}
use hss_science.Base.{
  ◌≡◌, true, false, ◌>>=◌, String, ℕ, ◌≢◌, ok, ◌∷◌, some, ◌==◌, arith, eq_iff, pure, bind-eq-ok,
  if◌then◌else◌, Bool-cases, ◌∙◌, ap, inl, inr, ◌≤◌, gets, none, sym, List, ◌&&◌, Option, ltb, refl,
}
use hss_science.Base.Sql.Rows.{find, delete, find-delete-none}
use hss_science.Oidc.TokenRepo.{
  use_up, store_pair, refresh_row, live_refresh, inherited_session, token_row, rotate,
  create_access_and_refresh, touch_session, bound_to,
}
use hss_science.Base.Sql.{query, statement}
use hss_science.Oidc.Tables.{
  insert_token, insert_refresh, OidcWorld, has_hash, TokenRow, RefreshRow, Db, refused_refresh,
  nil_if_empty,
}
use hss_science.Oidc.Domain.{RefreshToken, Token}
use hss_science.Base.Sql.Keeps.{statement-eq-ok, transaction-eq-ok}
use hss_science.Domerr.{other}

use_up_spends :
    (refresh : RefreshToken) (current : String) (now : ℕ) (w v : OidcWorld) (s : String)
    → current ≢ ""
    → use_up refresh current now w ≡ (ok s, v)
    → (v.tables.refresh_tokens ≡ delete (live_refresh now current) w.tables.refresh_tokens)
      × (s ≡ inherited_session refresh (find (has_hash current) w.tables.refresh_tokens))
      × (v.tables.device_sessions ≡ w.tables.device_sessions)
unfolding use_up query statement ◌>>=◌
use_up_spends refresh current now w v s given h =
    let test : (current == "") ≡ false = ground (arith, given, eq_iff current "") in
    (ground (arith, h, test), ground (arith, h, test), ground (arith, h, test))

insert_token-eq-ok :
    (row : TokenRow) (db db' : Db) {u : Unit {0}}
    → insert_token row db ≡ (ok u, db')
    → db' ≡ record db { tokens = row ∷ db.tokens }
unfolding insert_token
insert_token-eq-ok row db db' h = ground (arith, h)

insert_refresh-eq-ok :
    (row : RefreshRow) (db db' : Db) {u : Unit {0}}
    → insert_refresh row db ≡ (ok u, db')
    → db' ≡ record db { refresh_tokens = row ∷ db.refresh_tokens }
unfolding insert_refresh
insert_refresh-eq-ok row db db' h = elim (Bool-cases (refused_refresh row db)) [
  | inl no_row ↦ absurd (ground (arith, h, no_row))
  | inr yes_row ↦ ground (arith, h, yes_row)
]

touched :
    (refresh : RefreshToken) (now : ℕ) (w v : OidcWorld) (u : Unit {0})
    → (if refresh.device_session_id == ""
          then pure tt
          else statement other (touch_session now refresh.device_session_id))
        w
      ≡ (ok u, v)
    → (v.tables.refresh_tokens ≡ w.tables.refresh_tokens) × (v.tables.tokens ≡ w.tables.tokens)
unfolding pure statement
touched refresh now w v u h = (ground (arith, h), ground (arith, h))

pub store_pair_stores :
    (access : Token) (refresh : RefreshToken) (now : ℕ) (w v : OidcWorld) (u : Unit {0})
    → store_pair access refresh now w ≡ (ok u, v)
    → (v.tables.refresh_tokens ≡ refresh_row refresh now ∷ w.tables.refresh_tokens)
      × (v.tables.tokens ≡ token_row access (some access.refresh_token_id) now ∷ w.tables.tokens)
unfolding store_pair
store_pair_stores access refresh now w v u h =
    let (_, w1, s1, h1) = bind-eq-ok _ _ w h in
    let (_, w2, s2, h2) = bind-eq-ok _ _ w1 h1 in
    let t1 = insert_token-eq-ok _ _ _ (statement-eq-ok _ _ w w1 _ s1) in
    let t2 = insert_refresh-eq-ok _ _ _ (statement-eq-ok _ _ w1 w2 _ s2) in
    let t3 = touched refresh now w2 v u h2 in
    (
      t3.0
          ∙ ap (λ (d : Db). d.refresh_tokens) t2
          ∙ ap (λ (d : Db). refresh_row refresh now ∷ d.refresh_tokens) t1,
      t3.1 ∙ ap (λ (d : Db). d.tokens) t2 ∙ ap (λ (d : Db). d.tokens) t1,
    )

-- The refresh tokens after a rotation.
abbrev replaced : RefreshToken → String → ℕ → List RefreshRow → List RefreshRow
replaced refresh current now rows =
    refresh_row (bound_to refresh (inherited_session refresh (find (has_hash current) rows))) now
    ∷ delete (live_refresh now current) rows

rotate_stores :
    (access : Token) (refresh : RefreshToken) (current : String) (now : ℕ) (w v : OidcWorld)
    (u : Unit {0})
    → current ≢ ""
    → rotate access refresh current now w ≡ (ok u, v)
    → v.tables.refresh_tokens ≡ replaced refresh current now w.tables.refresh_tokens
unfolding rotate
rotate_stores access refresh current now w v u given h =
    let (s, w1, ran, h1) = bind-eq-ok _ _ w h in
    let (spent, inherited, _) = use_up_spends refresh current now w w1 s given ran in
    (store_pair_stores access (bound_to refresh s) now w1 v u h1).0
    ∙ ap₂ (λ q rest. refresh_row (bound_to refresh q) now ∷ rest) inherited spent

rotation-replaced :
    (access : Token) (refresh : RefreshToken) (current : String) (w v : OidcWorld) (u : Unit {0})
    → current ≢ ""
    → create_access_and_refresh access refresh current w ≡ (ok u, v)
    → v.tables.refresh_tokens ≡ replaced refresh current w.clock w.tables.refresh_tokens
unfolding create_access_and_refresh gets ◌>>=◌
rotation-replaced access refresh current w v u given h =
    let (a, b, before, ran, after) =
      transaction-eq-ok other (rotate access refresh current w.clock) w v u h in
    sym (ap (λ (d : Db). d.refresh_tokens) after)
    ∙ rotate_stores access refresh current w.clock a b u given ran
    ∙ ap (λ (d : Db). replaced refresh current w.clock d.refresh_tokens) before

-- The row of a new refresh token that is bound to a session, or to none.
abbrev pub row_of : RefreshToken → Option String → ℕ → RefreshRow
row_of refresh session now = record {
  id = refresh.id;
  token_hash = refresh.token;
  client_id = refresh.client_id;
  user_id = refresh.user_id;
  audience = refresh.audience;
  scopes = refresh.scopes;
  auth_time = refresh.auth_time;
  amr = refresh.amr;
  access_token_id = some refresh.access_token_id;
  device_session_id = session;
  expiration = refresh.expiration;
  created_at = now;
}

-- The session that a new refresh token is bound to: the one it names, or else that of the old token.
pub record Inherits (refresh : RefreshToken) (old : Option RefreshRow) (session : Option String)
    : Type 0 where
  pub own : refresh.device_session_id ≢ "" → session ≡ some refresh.device_session_id
  pub inherited :
      (row : RefreshRow) (d : String)
      → refresh.device_session_id ≡ ""
      → old ≡ some row
      → row.device_session_id ≡ some d
      → d ≢ ""
      → session ≡ some d
  pub unbound :
      (row : RefreshRow)
      → refresh.device_session_id ≡ ""
      → old ≡ some row
      → row.device_session_id ≡ none
      → session ≡ none

inherited_session-Inherits :
    (refresh : RefreshToken) (old : Option RefreshRow)
    → Inherits refresh old (nil_if_empty (inherited_session refresh old))
unfolding inherited_session nil_if_empty
inherited_session-Inherits refresh old = record {
  own = λ given. ground (arith, given, eq_iff refresh.device_session_id "");
  inherited = λ row d absent there bound given.
      rw (absent, there, bound) (ground (arith, given, eq_iff d ""));
  unbound = λ row absent there bound. rw (absent, there, bound) refl;
}

-- A refresh that returns has deleted the live rows of the token that it was given, and put first the
-- new token's row, bound to the request's device session or, where that names none, to the session
-- of the token given. It leaves every other row.
pub rotation_replaces :
    (access : Token) (refresh : RefreshToken) (current : String) (w v : OidcWorld) (u : Unit {0})
    → current ≢ ""
    → create_access_and_refresh access refresh current w ≡ (ok u, v)
    → (session : Option String) × Inherits refresh
        (find (λ r. r.token_hash == current) w.tables.refresh_tokens)
        session
      × (v.tables.refresh_tokens
          ≡ row_of refresh session w.clock
            ∷ delete
                (λ r. r.token_hash == current && ltb w.clock r.expiration)
                w.tables.refresh_tokens)
unfolding refresh_row
rotation_replaces access refresh current w v u given h =
    let old = find (has_hash current) w.tables.refresh_tokens in
    (
      nil_if_empty (inherited_session refresh old),
      inherited_session-Inherits refresh old,
      rotation-replaced access refresh current w v u given h,
    )

live_earlier :
    (now later : ℕ) (hash : String) (row : RefreshRow)
    → now ≤ later
    → live_refresh later hash row ≡ true
    → live_refresh now hash row ≡ true
live_earlier now later hash row since h = ground (arith, h)

-- A refresh token is good for one rotation: later than a rotation that returned, and with another
-- secret in its place, looking the old token up finds nothing.
pub rotated_away :
    (access : Token) (refresh : RefreshToken) (current : String) (w v : OidcWorld) (u : Unit {0})
    (later : ℕ)
    → current ≢ ""
    → refresh.token ≢ current
    → w.clock ≤ later
    → create_access_and_refresh access refresh current w ≡ (ok u, v)
    → find (live_refresh later current) v.tables.refresh_tokens ≡ none
unfolding refresh_row find
rotated_away access refresh current w v u later given fresh since h =
    rw (rotation-replaced access refresh current w v u given h) (
      ground (
        arith,
        fresh,
        eq_iff refresh.token current,
        find-delete-none (live_refresh w.clock current) (live_refresh later current)
            w.tables.refresh_tokens (λ row. live_earlier w.clock later current row since),
      ))
