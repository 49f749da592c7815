-- ===== src/Oidc/TokenFlow.antt =====
-- The life of a refresh token as a client sees it: issued, used, used up.
use text.Mathlib.TextPositions.{eq_refl}
use hss_science.Oidc.Tables.{nil_if_empty, or_empty-nil_if_empty}
use hss_science.Base.{
  subst, ℕ, String, ◌+◌, ◌<◌, ◌≤◌, ◌≡◌, ◌≢◌, ◌∙◌, sym, ap, List, [], ◌∷◌, ok, err, arith, eq_iff,
  bind-eq-ok, gets, pure, map_err, ◌>>=◌,
}
use hss_science.Base.Sql.{query, statement, mint}
use hss_science.Base.Sql.Rows.{find}
use hss_science.Base.Sql.Keeps.{transaction-eq-ok}
use hss_science.Domerr.{other}
use hss_science.Oidc.Domain.{Token, RefreshToken}
use hss_science.Oidc.Tables.{RefreshRow, Db, OidcWorld}
use hss_science.Oidc.TokenRepo.{
  create_access_and_refresh, rotate, refresh_row, bound_to, get_refresh_token, scan_refresh_token,
}
use hss_science.Oidc.Grants.{GivesBack, new_refresh-GivesBack}
use hss_science.Oidc.Services.{
  Generators, new_access, new_refresh, new_refresh_token_value, issue_access_and_refresh,
  current_hash, refresh_token_of,
}
use hss_science.Oidc.Adapter.{
  Lifetimes, TokenRequest, of_refresh_token, grant_of, create_access_and_refresh_tokens,
  token_request_by_refresh_token, invalid_refresh_token, unless_missing,
}
use hss_science.Oidc.Rotation.{store_pair_stores, rotated_away}

rotate-stores :
    (access : Token) (refresh : RefreshToken) (current : String) (now : ℕ) (w v : OidcWorld)
    (u : Unit {0})
    → rotate access refresh current now w ≡ (ok u, v)
    → (session : String) × (rest : List RefreshRow) × (v.tables.refresh_tokens
        ≡ refresh_row (bound_to refresh session) now ∷ rest)
unfolding rotate
rotate-stores access refresh current now w v u h =
    let (s, w1, _, h1) = bind-eq-ok _ _ w h in
    (s, w1.tables.refresh_tokens, (store_pair_stores access (bound_to refresh s) now w1 v u h1).0)

-- Whatever was used up, the new refresh token's row is stored first, bound to some session.
stores_refresh :
    (access : Token) (refresh : RefreshToken) (current : String) (w v : OidcWorld) (u : Unit {0})
    → create_access_and_refresh access refresh current w ≡ (ok u, v)
    → (session : String) × (rest : List RefreshRow) × (v.tables.refresh_tokens
        ≡ refresh_row (bound_to refresh session) w.clock ∷ rest)
unfolding create_access_and_refresh gets ◌>>=◌
stores_refresh access refresh current w v u h =
    let (a, b, before, ran, after) =
      transaction-eq-ok other (rotate access refresh current w.clock) w v u h in
    let (s, rest, stored) = rotate-stores access refresh current w.clock a b u ran in
    (s, rest, sym (ap (λ (d : Db). d.refresh_tokens) after) ∙ stored)

module _ (gen : Generators) (ttl : Lifetimes) where
  -- The call of the repository behind a call that issued tokens.
  pub record Issued (request : TokenRequest) (current access_id raw : String) (w v : OidcWorld)
      : Type 0 where
    pub refresh_id : String
    pub start : OidcWorld
    pub clock : start.clock ≡ w.clock
    pub tables : start.tables ≡ w.tables
    pub stored :
        create_access_and_refresh
          (new_access (grant_of request) access_id refresh_id (w.clock + ttl.access_ttl) w.clock)
          (new_refresh
            (grant_of request)
            refresh_id
            (gen.hash_refresh_token raw)
            access_id
            (w.clock + ttl.refresh_ttl)
            w.clock)
          (current_hash gen current)
          start
        ≡ (ok tt, v)

  draw-eq-ok :
      (w v : OidcWorld) (raw : String)
      → new_refresh_token_value gen w ≡ (ok raw, v)
      → (v.tables ≡ w.tables) × (v.clock ≡ w.clock)
  unfolding new_refresh_token_value mint ◌>>=◌
  draw-eq-ok w v raw h = (ground (arith, h), ground (arith, h))

  issue-Issued :
      (request : TokenRequest) (current access_id raw : String) (w v : OidcWorld)
      → issue_access_and_refresh gen
          (grant_of request)
          (w.clock + ttl.access_ttl)
          (w.clock + ttl.refresh_ttl)
          current
          w
        ≡ (ok (access_id, raw), v)
      → Issued request current access_id raw w v
  unfolding issue_access_and_refresh gets mint pure
  issue-Issued request current access_id raw w v h =
      let (now, w1, read, h1) = bind-eq-ok _ _ w h in
      let (a, w2, first, h2) = bind-eq-ok _ _ w1 h1 in
      let (b, w3, second, h3) = bind-eq-ok _ _ w2 h2 in
      let (r, w4, drawn, h4) = bind-eq-ok _ _ w3 h3 in
      let (u, w5, made, h5) = bind-eq-ok _ _ w4 h4 in
      let (same, clock) = draw-eq-ok w3 w4 r drawn in
      record {
        refresh_id = b;
        start = w4;
        clock = ground (arith, clock, second, first, read);
        tables = ground (arith, same, second, first, read);
        stored = ground (arith, made, h5, read);
      }

  tokens-Issued :
      (request : TokenRequest) (current access_id raw : String) (expiration : ℕ) (w v : OidcWorld)
      → create_access_and_refresh_tokens gen ttl request current w
        ≡ (ok (access_id, raw, expiration), v)
      → Issued request current access_id raw w v
  unfolding create_access_and_refresh_tokens gets map_err pure ◌>>=◌
  tokens-Issued request current access_id raw expiration w v h =
      issue-Issued request current access_id raw w v (ground (arith, h))

  -- A refresh token that was issued is good until it expires: presenting it gives back the client,
  -- the subject, the audience, the scopes and the authentication that it was issued for, and the
  -- access token that it was issued with.
  pub refresh_roundtrip :
      (request : TokenRequest) (current access_id raw : String) (expiration : ℕ) (w v : OidcWorld)
      (later : ℕ)
      → create_access_and_refresh_tokens gen ttl request current w
        ≡ (ok (access_id, raw, expiration), v)
      → later < w.clock + ttl.refresh_ttl
      → (rt : RefreshToken) × GivesBack request access_id
          (gen.hash_refresh_token raw)
          w.clock
          (w.clock + ttl.refresh_ttl)
          rt
        × (token_request_by_refresh_token gen ttl raw (record v { clock = later; faults = [] })
            ≡ (ok (of_refresh_token rt rt.scopes), record v { clock = later; faults = [] }))
  unfolding token_request_by_refresh_token refresh_token_of get_refresh_token map_err query
      statement find scan_refresh_token refresh_row new_refresh nil_if_empty gets pure ◌>>=◌
  refresh_roundtrip request current access_id raw expiration w v later h in_time =
      let i = tokens-Issued request current access_id raw expiration w v h in
      let (session, rest, stored) = stores_refresh _ _ _ i.start v tt i.stored in
      (
        record (new_refresh (grant_of request) i.refresh_id (gen.hash_refresh_token raw) access_id
            (w.clock + ttl.refresh_ttl) w.clock) { device_session_id = session },
        new_refresh-GivesBack request access_id i.refresh_id (gen.hash_refresh_token raw) session
            w.clock (w.clock + ttl.refresh_ttl),
        ground (
          arith,
          stored,
          i.clock,
          in_time,
          eq_refl (gen.hash_refresh_token raw),
          or_empty-nil_if_empty session,
        ),
      )

  -- A refresh token that was exchanged is refused from then on, unless a hash collides.
  pub refresh_once :
      (request : TokenRequest) (current access_id raw : String) (expiration : ℕ) (w v : OidcWorld)
      (later : ℕ)
      → current ≢ ""
      → gen.hash_refresh_token current ≢ ""
      → gen.hash_refresh_token raw ≢ gen.hash_refresh_token current
      → w.clock ≤ later
      → create_access_and_refresh_tokens gen ttl request current w
        ≡ (ok (access_id, raw, expiration), v)
      → token_request_by_refresh_token gen ttl current (record v { clock = later; faults = [] })
        ≡ (err invalid_refresh_token, record v { clock = later; faults = [] })
  unfolding token_request_by_refresh_token refresh_token_of get_refresh_token map_err query
      statement unless_missing current_hash new_refresh gets ◌>>=◌
  refresh_once request current access_id raw expiration w v later given hashed fresh since h =
      let i = tokens-Issued request current access_id raw expiration w v h in
      let used : current_hash gen current ≡ gen.hash_refresh_token current =
        ground (arith, given, eq_iff current "") in
      let access =
        new_access (grant_of request) access_id i.refresh_id (w.clock + ttl.access_ttl) w.clock in
      let refresh =
        new_refresh (grant_of request) i.refresh_id (gen.hash_refresh_token raw) access_id
          (w.clock + ttl.refresh_ttl) w.clock in
      ground (
        arith,
        rotated_away access refresh (gen.hash_refresh_token current) i.start v tt later hashed fresh
            (subst (λ n. n ≤ later) (sym i.clock) since)
            (subst (λ c. create_access_and_refresh access refresh c i.start ≡ (ok tt, v)) used
              i.stored),
      )
