-- ===== src/Tests/Histories.antt =====
-- Calls of the repositories of the OpenID provider, from a login to the deletion of its session.
use hss_science.Oidc.Schema.{IsSound}
use hss_science.Oidc.Calls.{
  Call, perform_all, create_auth_request, complete_auth_login, find_or_create_session, create_both,
  revoke_session_by_id, delete_sessions_revoked_before,
}
use hss_science.Oidc.Integrity.{perform_all-IsSound}
use hss_science.Tests.Sessions.{db, world_of, access, fresh}
use hss_science.Tests.Flows.{the_request}
use hss_science.Base.{[], ◌∷◌, refl, List, ℕ}
use hss_science.Base.Sql.Rows.{find}

abbrev history : List (ℕ × Call)
history =
    (5, create_auth_request the_request)
    ∷ (6, find_or_create_session "dev" "alice" "agent" "10.0.0.1" "Laptop")
    ∷ (6, complete_auth_login "id0" "alice" 6 ("fed" ∷ []) "dev")
    ∷ (7, create_both access fresh "h1")
    ∷ (8, revoke_session_by_id "dev" "alice")
    ∷ (9, delete_sessions_revoked_before 9)
    ∷ []

db-IsSound : IsSound db
unfolding find
db-IsSound = record {
  requests = record { ids = tt; resolve = tt; logins = tt };
  tokens = tt;
  refreshes = record { ids = (refl, tt); hashes = (refl, tt); resolve = ((_, refl), tt) };
  sessions = (refl, tt);
}

perform_all-IsSound_example : IsSound (perform_all (λ n. "fresh") history (world_of db)).tables
perform_all-IsSound_example = perform_all-IsSound (λ n. "fresh") history (world_of db) db-IsSound
