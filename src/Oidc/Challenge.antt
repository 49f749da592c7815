-- ===== src/Oidc/Challenge.antt =====
-- The proof key (PKCE) that a public client has to send.
use text.Mathlib.TextPositions.{eq_refl}
use hss_science.Base.{
  String, true, false, ◌≡◌, none, some, [], ◌∷◌, ok, err, arith, handle, ◌>>=◌, map_err, ◌==◌, gets,
  refl, Result, eq_iff, ap, ◌∙◌,
}
use hss_science.Base.Sql.{query, statement, mint}
use hss_science.Base.Sql.Rows.{find}
use hss_science.Oidc.Domain.{Client, AuthRequest}
use hss_science.Oidc.Tables.{OidcWorld, Db, AuthRequestRow}
use hss_science.Oidc.AuthRepo.{
  create_request, insert_request, request_row, request_id, out_of_range, client_by_id,
}
use hss_science.Oidc.Services.{Generators}
use hss_science.Oidc.Adapter.{
  seconds_of, AuthQuery, Lifetimes, requested, lacks_challenge, check_challenge,
  create_auth_request, invalid_request, is_public_client, OidcError,
}

-- The call is refused for want of a challenge, and nothing is stored.
pub record Refused (r : Result OidcError AuthRequest × OidcWorld) (t : Db) : Type 0 where
  pub answer :
      r.0 ≡ err (invalid_request "code_challenge is required for public clients (PKCE S256)")
  pub kept : r.1.tables ≡ t

-- The call has returned and stored a request of the client, without a challenge.
pub record Unprotected (q : AuthQuery) (r : Result OidcError AuthRequest × OidcWorld) : Type 0 where
  pub request : AuthRequest
  pub row : AuthRequestRow
  pub answer : r.0 ≡ ok request
  pub client : request.client_id ≡ q.client_id
  pub unprotected : request.code_challenge ≡ ""
  pub stored : find (request_id request.id) r.1.tables.auth_requests ≡ some row
  pub row_client : row.client_id ≡ q.client_id
  pub row_unprotected : row.code_challenge ≡ ""

module _ (gen : Generators) (ttl : Lifetimes) where
  -- A public client that sends no code challenge is refused if the database answers.
  challenge_required :
      (q : AuthQuery) (user : String) (w : OidcWorld) (c : Client)
      → find (λ (r : Client). r.id == q.client_id) w.tables.clients ≡ some c
      → lacks_challenge gen ttl q c ≡ true
      → w.faults ≡ []
      → (create_auth_request gen ttl q user w).0
          ≡ err (invalid_request "code_challenge is required for public clients (PKCE S256)")
        × ((create_auth_request gen ttl q user w).1.tables ≡ w.tables)
  unfolding create_auth_request check_challenge client_by_id mint query statement handle ◌>>=◌
  challenge_required q user w c there lacks calm =
      (ground (arith, there, lacks, calm), ground (arith, there, lacks, calm))

  request_passes :
      (q : AuthQuery) (user : String) (w : OidcWorld)
      → find (request_id (gen.new_id w.minted)) w.tables.auth_requests ≡ none
      → out_of_range (seconds_of q.max_age) ≡ false
      → (create_auth_request gen ttl q user (record w { faults = true ∷ [] })).0
          ≡ ok (requested q (gen.new_id w.minted) user)
        × ((create_auth_request gen ttl q user (record w { faults = true ∷ [] })).1.tables
            ≡ record w.tables {
              auth_requests =
                  request_row (requested q (gen.new_id w.minted) user) w.clock
                  ∷ w.tables.auth_requests;
            })
  unfolding create_auth_request check_challenge client_by_id create_request insert_request requested
      mint query statement handle map_err gets ◌>>=◌
  request_passes q user w fresh in_range =
      (ground (arith, fresh, in_range), ground (arith, fresh, in_range))

  -- Whether a public client has to send a code challenge depends on the health of the database. One
  -- that sends none is refused, and nothing is stored, where the database answers; where only the
  -- lookup of the client fails, with an identifier that is free and a `max_age` that fits, the same
  -- call returns a request without a challenge, and that request is stored.
  pub challenge_skipped :
      (q : AuthQuery) (user : String) (w : OidcWorld) (c : Client)
      → find (λ (r : Client). r.id == q.client_id) w.tables.clients ≡ some c
      → c.auth_method ≡ "none"
      → q.code_challenge ≡ ""
      → find (request_id (gen.new_id w.minted)) w.tables.auth_requests ≡ none
      → out_of_range (seconds_of q.max_age) ≡ false
      → (Refused (create_auth_request gen ttl q user (record w { faults = [] })) w.tables)
        × Unprotected q (create_auth_request gen ttl q user (record w { faults = true ∷ [] }))
  unfolding requested request_row is_public_client find
  challenge_skipped q user w c there public absent fresh in_range =
      let lacks : lacks_challenge gen ttl q c ≡ true =
        ground (arith, public, absent, eq_iff c.auth_method "none", eq_iff q.code_challenge "") in
      let (answer, kept) =
        challenge_required q user (record w { faults = [] }) c there lacks refl in
      let (passes, stored) = request_passes q user w fresh in_range in
      (
        record { answer = answer; kept = kept },
        record {
          request = requested q (gen.new_id w.minted) user;
          row = request_row (requested q (gen.new_id w.minted) user) w.clock;
          answer = passes;
          client = refl;
          unprotected = absent;
          stored =
              ap {A = Db} (λ t. find (request_id (gen.new_id w.minted)) t.auth_requests) stored
              ∙ ground (arith, eq_refl (gen.new_id w.minted));
          row_client = refl;
          row_unprotected = absent;
        },
      )
