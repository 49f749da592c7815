-- ===== src/Oidc/CodeFlow.antt =====
-- The life of an auth request: created, logged in, given a code, exchanged, deleted.
use text.Mathlib.TextPositions.{eq_refl}
use hss_science.Base.{◌<◌, [], ◌∷◌, ◌≡◌, arith, refl, false, Bool-cases, inl, inr}
use hss_science.Oidc.Tables.{or_empty-nil_if_empty}
use hss_science.Base.{
  ℕ, String, ◌+◌, ◌≤◌, ◌≡◌, refl, none, List, [], ◌∷◌, ok, err, arith, eq_iff, bind-eq-ok, gets,
  pure, handle, map_err, ◌>>=◌,
}
use hss_science.Base.Sql.{query, statement, mint}
use hss_science.Base.Sql.Rows.{find, update, delete}
use hss_science.Oidc.Domain.{AuthRequest}
use hss_science.Oidc.Tables.{AuthRequestRow, Db, OidcWorld, nil_if_empty}
use hss_science.Oidc.AuthRepo.{
  request_id, has_code, request_row, insert_request, scan_one, create_request, request_by_code,
  with_code, save_code, logged_in, update_login, complete_login, delete_request, client_by_id,
  out_of_range,
}
use hss_science.Oidc.Grants.{granted, in_seconds, fits-in_seconds}
use hss_science.Oidc.Services.{Generators, live_request_by_code, unless_expired}
use hss_science.Oidc.Adapter.{
  AuthQuery, Lifetimes, requested, check_challenge, create_auth_request, auth_request_by_code,
  save_auth_code, delete_auth_request, unless_missing, invalid_request, seconds_of,
}

-- The tables with other auth requests.
abbrev with_requests : List AuthRequestRow → Db → Db
with_requests rows db = record db { auth_requests = rows }

module _ (gen : Generators) (ttl : Lifetimes) where
  check_challenge-keeps :
      (q : AuthQuery) (w v : OidcWorld) (u : Unit {0})
      → check_challenge gen ttl q w ≡ (ok u, v)
      → (v.tables ≡ w.tables) × (v.clock ≡ w.clock)
  unfolding check_challenge client_by_id query statement handle ◌>>=◌
  check_challenge-keeps q w v u h = (ground (arith, h), ground (arith, h))

  create_request-eq-ok :
      (ar : AuthRequest) (w v : OidcWorld) (u : Unit {0})
      → create_request ar w ≡ (ok u, v)
      → v.tables ≡ with_requests (request_row ar w.clock ∷ w.tables.auth_requests) w.tables
  unfolding create_request insert_request statement gets ◌>>=◌
  create_request-eq-ok ar w v u h = ground (arith, h)

  create_request-InRange :
      (ar : AuthRequest) (w v : OidcWorld) (u : Unit {0})
      → create_request ar w ≡ (ok u, v)
      → out_of_range ar.max_age ≡ false
  unfolding create_request insert_request request_row statement gets ◌>>=◌
  create_request-InRange ar w v u h = elim (Bool-cases (out_of_range ar.max_age)) [
    | inl bad ↦ absurd (ground (arith, h, bad))
    | inr good ↦ good
  ]

  create-eq-ok :
      (q : AuthQuery) (given : String) (w v : OidcWorld) (ar : AuthRequest)
      → create_auth_request gen ttl q given w ≡ (ok ar, v)
      → (v.tables ≡ with_requests (request_row ar w.clock ∷ w.tables.auth_requests) w.tables)
        × (ar ≡ requested q (gen.new_id w.minted) given)
        × (out_of_range ar.max_age ≡ false)
  unfolding create_auth_request mint map_err pure
  create-eq-ok q given w v ar h =
      let (id, w1, drawn, h1) = bind-eq-ok _ _ w h in
      let (_, w2, checked, h2) = bind-eq-ok _ _ w1 h1 in
      let (_, w3, stored, h3) = bind-eq-ok _ _ w2 h2 in
      let (same, clock) = check_challenge-keeps q w1 w2 _ checked in
      let made : create_request (requested q id given) w2 ≡ (ok tt, w3) = ground (arith, stored) in
      (
        ground (arith, create_request-eq-ok _ w2 w3 tt made, h3, drawn, same, clock),
        ground (arith, h3, drawn),
        ground (arith, h3, create_request-InRange _ w2 w3 tt made),
      )

  login-eq-ok :
      (id user : String) (auth_time : ℕ) (amr : List String) (session : String) (w v : OidcWorld)
      (u : Unit {0})
      → complete_login id user auth_time amr session w ≡ (ok u, v)
      → v.tables
        ≡ with_requests
            (update
              (request_id id)
              (logged_in user auth_time amr (nil_if_empty session))
              w.tables.auth_requests)
            w.tables
  unfolding complete_login update_login statement
  login-eq-ok id user auth_time amr session w v u h = ground (arith, h)

  code-eq-ok :
      (id code : String) (w v : OidcWorld) (u : Unit {0})
      → save_auth_code gen ttl id code w ≡ (ok u, v)
      → v.tables
        ≡ with_requests (update (request_id id) (with_code code) w.tables.auth_requests) w.tables
  unfolding save_auth_code save_code map_err statement
  code-eq-ok id code w v u h = ground (arith, h)

  -- A request that a user has logged in to, and to which a code was given.
  pub record LoggedIn (q : AuthQuery) (user code : String) (auth_time : ℕ) (amr : List String)
      (session : String) (w v : OidcWorld) (ar : AuthRequest) : Type 0 where
    pub given : String
    pub asked : OidcWorld
    pub authenticated : OidcWorld
    pub creates : create_auth_request gen ttl q given w ≡ (ok ar, asked)
    pub logs_in : complete_login ar.id user auth_time amr session asked ≡ (ok tt, authenticated)
    pub saves : save_auth_code gen ttl ar.id code authenticated ≡ (ok tt, v)

  module _ (q : AuthQuery) (user code : String) (auth_time : ℕ) (amr : List String)
      (session : String) (w v : OidcWorld) (ar : AuthRequest) where
    -- The row of the request, and the others.
    abbrev final_row : AuthRequestRow
    final_row =
        with_code code
          (logged_in user auth_time amr (nil_if_empty session) (request_row ar w.clock))

    abbrev changed : AuthRequestRow → AuthRequestRow
    changed row = with_code code (logged_in user auth_time amr (nil_if_empty session) row)

    update-twice :
        (f g : AuthRequestRow → AuthRequestRow) (id : String) (rows : List AuthRequestRow)
        → ((x : AuthRequestRow) → (f x).id ≡ x.id)
        → update (request_id id) g (update (request_id id) f rows)
          ≡ update (request_id id) (λ x. g (f x)) rows
    unfolding update
    update-twice f g id [] keeps = refl
    update-twice f g id (x ∷ xs) keeps =
        ground (arith, keeps x, eq_iff x.id id, eq_iff (f x).id id, update-twice f g id xs keeps)

    LoggedIn-tables :
        LoggedIn q user code auth_time amr session w v ar
        → v.tables
          ≡ with_requests
              (final_row ∷ update (request_id ar.id) changed w.tables.auth_requests)
              w.tables
    unfolding update request_row
    LoggedIn-tables l =
        let made = (create-eq-ok q l.given w l.asked ar l.creates).0 in
        let entered =
          login-eq-ok ar.id user auth_time amr session l.asked l.authenticated tt l.logs_in in
        let coded = code-eq-ok ar.id code l.authenticated v tt l.saves in
        ground (
          arith,
          made,
          entered,
          coded,
          eq_refl ar.id,
          update-twice (logged_in user auth_time amr (nil_if_empty session)) (with_code code) ar.id
              w.tables.auth_requests (λ x. refl),
        )

    scan-final :
        LoggedIn q user code auth_time amr session w v ar
        → scan_one final_row ≡ granted q ar.id user code auth_time amr session w.clock
    unfolding scan_one request_row requested
    scan-final l =
        let (_, made, fits) = create-eq-ok q l.given w l.asked ar l.creates in
        let age : seconds_of q.max_age ≡ in_seconds q.max_age =
          fits-in_seconds q.max_age (ground (arith, made, fits)) in
        ground (arith, made, age, or_empty-nil_if_empty session)

    -- Looking a code up, in its time, gives back the request that it was issued for: the client, the
    -- redirect URI, the scopes and the challenge that were asked for, done, with the user, the time
    -- and the device session of the login.
    pub code_roundtrip :
        (later : ℕ)
        → LoggedIn q user code auth_time amr session w v ar
        → later ≤ w.clock + ttl.auth_request_ttl
        → auth_request_by_code gen ttl code (record v { clock = later; faults = [] }) ≡ (
          ok (granted q ar.id user code auth_time amr session w.clock),
          record v { clock = later; faults = [] },
        )
    unfolding auth_request_by_code live_request_by_code request_by_code unless_expired map_err query
        statement find request_row scan_one ◌>>=◌
    code_roundtrip later l in_time =
        ground (arith, LoggedIn-tables l, scan-final l, in_time, eq_refl code)

    -- A code is no longer good when the request's lifetime is over.
    code_expires :
        (later : ℕ)
        → LoggedIn q user code auth_time amr session w v ar
        → w.clock + ttl.auth_request_ttl < later
        → auth_request_by_code gen ttl code (record v { clock = later; faults = [] }) ≡ (
          err (invalid_request "auth request not found for code"),
          record v { clock = later; faults = [] },
        )
    unfolding auth_request_by_code live_request_by_code request_by_code unless_expired
        unless_missing map_err query statement find request_row scan_one ◌>>=◌
    code_expires later l late = ground (arith, LoggedIn-tables l, late, eq_refl code)

    code_gone :
        (id : String) (rows : List AuthRequestRow)
        → find (has_code code) rows ≡ none
        → find (has_code code) (delete (request_id id) (update (request_id id) changed rows)) ≡ none
    unfolding find delete update
    code_gone id [] h = refl
    code_gone id (x ∷ xs) h = ground (arith, h, eq_iff x.id id, code_gone id xs)

    -- A code that no other request has is good for one exchange: after the request was deleted,
    -- looking it up is refused.
    pub code_once :
        (z : OidcWorld) (later : ℕ)
        → LoggedIn q user code auth_time amr session w v ar
        → find (has_code code) w.tables.auth_requests ≡ none
        → delete_auth_request gen ttl ar.id v ≡ (ok tt, z)
        → auth_request_by_code gen ttl code (record z { clock = later; faults = [] }) ≡ (
          err (invalid_request "auth request not found for code"),
          record z { clock = later; faults = [] },
        )
    unfolding auth_request_by_code live_request_by_code request_by_code unless_missing
        delete_auth_request delete_request map_err query statement delete request_row ◌>>=◌
    code_once z later l fresh_code gone = ground (
      arith,
      LoggedIn-tables l,
      gone,
      eq_refl ar.id,
      code_gone ar.id w.tables.auth_requests fresh_code,
    )
