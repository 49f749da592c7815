-- ===== src/Tests/Flows.antt =====
-- The OpenID storage at work on one client and one user, and its theorems there.
use hss_science.Oidc.Tables.{insert_refresh, insert_token}
use hss_science.Base.Sql.Rows.{count, delete}
use hss_science.Oidc.TokenRepo.{create_access_and_refresh}
use hss_science.Base.Sql.{transaction}
use hss_science.Oidc.Services.{issue_access_and_refresh}
use hss_science.Oidc.AuthRepo.{delete_request}
use hss_science.Oidc.AuthRepo.{save_code}
use hss_science.Oidc.AuthRepo.{update_login}
use hss_science.Base.Sql.{statement}
use hss_science.Oidc.AuthRepo.{insert_request, create_request, client_by_id}
use hss_science.Base.Sql.{mint, query}
use hss_science.Base.{handle, map_err, ◌>>=◌, [], ◌==◌, ◌∷◌, ◌≡◌, arith, refl, if◌then◌else◌}
use hss_science.Base.{
  ℕ, String, none, some, [], ◌∷◌, ok, err, refl, ◌≡◌, true, false, nat_eq, if◌then◌else◌, ◌==◌,
  arith,
}
use hss_science.Base.Sql.Rows.{find, select}
use hss_science.Oidc.Domain.{AuthRequest, Client, RefreshToken}
use hss_science.Oidc.Tables.{OidcWorld}
use hss_science.Oidc.Services.{Generators}
use hss_science.Oidc.Adapter.{
  AuthQuery, Lifetimes, TokenRequest, of_auth_request, of_refresh_token, requested, invalid_request,
  invalid_refresh_token, create_auth_request, auth_request_by_code, save_auth_code,
  delete_auth_request, create_access_and_refresh_tokens, token_request_by_refresh_token,
}
use hss_science.Oidc.AuthRepo.{complete_login}
use hss_science.Oidc.CodeFlow.{LoggedIn, code_roundtrip, code_once}
use hss_science.Oidc.Challenge.{Refused, Unprotected, challenge_skipped}
use hss_science.Oidc.Grants.{granted, GivesBack}
use hss_science.Oidc.TokenFlow.{refresh_roundtrip, refresh_once}
use hss_science.Oidc.Claims.{UserClaims, UserInfo, add_scopes}
use hss_science.Oidc.Scopes.{disclosed, add_scopes_discloses}
use hss_science.Oidc.ClientAdapter.{
  is_empty, filter_scopes, is_scope_allowed, filter_scopes_allowed,
}
use hss_science.Tests.Sessions.{db, world_of, differ}

abbrev gen : Generators
gen = record {
  new_id = λ n. if nat_eq n 0 then "id0" else (if nat_eq n 1 then "id1" else "id2");
  new_secret = λ n. some "raw2";
  hash_refresh_token = λ raw. if raw == "raw1" then "h1" else "h2";
}

abbrev ttl : Lifetimes
ttl = record { auth_request_ttl = 10; access_ttl = 20; refresh_ttl = 200 }

abbrev public_client : Client
public_client = record {
  id = "bff";
  secret_hash = "";
  redirect_uris = [];
  post_logout_redirect_uris = [];
  application_type = "web";
  auth_method = "none";
  response_types = [];
  grant_types = [];
  access_token_type = "jwt";
  allowed_scopes = "openid" ∷ "email" ∷ [];
  id_token_lifetime_seconds = 3600;
  clock_skew_seconds = 0;
  id_token_userinfo_assertion = false;
  created_at = 0;
  updated_at = 0;
}

abbrev served : OidcWorld
served = world_of (record db { clients = public_client ∷ [] })

abbrev query_for : String → AuthQuery
query_for challenge = record {
  client_id = "bff";
  redirect_uri = "https://bff/callback";
  state = "s";
  nonce = "n";
  scopes = "openid" ∷ [];
  response_type = "code";
  response_mode = "";
  code_challenge = challenge;
  code_challenge_method = "S256";
  prompt = [];
  max_age = none;
  login_hint = "";
}

abbrev asked : OidcWorld
asked = (create_auth_request gen ttl (query_for "c") "" served).1

abbrev authenticated : OidcWorld
authenticated = (complete_login "id0" "alice" 6 ("pwd" ∷ []) "dev" asked).1

abbrev coded : OidcWorld
coded = (save_auth_code gen ttl "id0" "code" authenticated).1

abbrev pub the_request : AuthRequest
the_request = requested (query_for "c") "id0" ""

creates_now : create_auth_request gen ttl (query_for "c") "" served ≡ (ok the_request, asked)
unfolding create_auth_request ◌>>=◌ mint handle client_by_id query find map_err create_request
    insert_request
creates_now = refl

logs_in_now : complete_login "id0" "alice" 6 ("pwd" ∷ []) "dev" asked ≡ (ok tt, authenticated)
unfolding complete_login statement create_auth_request ◌>>=◌ mint handle client_by_id query find
    map_err create_request insert_request update_login
logs_in_now = refl

saves_now : save_auth_code gen ttl "id0" "code" authenticated ≡ (ok tt, coded)
unfolding save_auth_code map_err save_code statement complete_login create_auth_request ◌>>=◌ mint
    handle client_by_id query find create_request insert_request
saves_now = refl

LoggedIn-now :
    LoggedIn gen ttl (query_for "c") "alice" "code" 6 ("pwd" ∷ []) "dev" served coded the_request
unfolding requested
LoggedIn-now = record {
  given = "";
  asked = asked;
  authenticated = authenticated;
  creates = creates_now;
  logs_in = logs_in_now;
  saves = saves_now;
}

abbrev at : ℕ → OidcWorld → OidcWorld
at now w = record w { clock = now; faults = [] }

code_roundtrip_example :
    auth_request_by_code gen ttl "code" (at 9 coded)
    ≡ (ok (granted (query_for "c") "id0" "alice" "code" 6 ("pwd" ∷ []) "dev" 5), at 9 coded)
unfolding requested
code_roundtrip_example =
    code_roundtrip gen ttl (query_for "c") "alice" "code" 6 ("pwd" ∷ []) "dev" served coded
      the_request 9 LoggedIn-now (omega arith)

abbrev deleted : OidcWorld
deleted = (delete_auth_request gen ttl "id0" coded).1

deletes_now : delete_auth_request gen ttl "id0" coded ≡ (ok tt, deleted)
unfolding delete_auth_request map_err delete_request statement save_auth_code save_code
    complete_login create_auth_request ◌>>=◌ mint handle client_by_id query find create_request
    insert_request
deletes_now = refl

code_once_example :
    auth_request_by_code gen ttl "code" (at 9 deleted)
    ≡ (err (invalid_request "auth request not found for code"), at 9 deleted)
unfolding find requested
code_once_example =
    code_once gen ttl (query_for "c") "alice" "code" 6 ("pwd" ∷ []) "dev" served coded the_request
      deleted 9 LoggedIn-now refl deletes_now

challenge_skipped_example :
    Refused (create_auth_request gen ttl (query_for "") "" served) served.tables
    × Unprotected
        (query_for "")
        (create_auth_request gen ttl (query_for "") "" (record served { faults = true ∷ [] }))
unfolding find
challenge_skipped_example =
    challenge_skipped gen ttl (query_for "") "" served public_client refl refl refl refl refl

abbrev exchange : TokenRequest
exchange = of_auth_request (record the_request { user_id = "alice" })

abbrev issued : OidcWorld
issued = (create_access_and_refresh_tokens gen ttl exchange "raw1" served).1

issues_now :
    create_access_and_refresh_tokens gen ttl exchange "raw1" served
    ≡ (ok ("id0", "raw2", 25), issued)
unfolding create_access_and_refresh_tokens ◌>>=◌ map_err issue_access_and_refresh mint
    create_access_and_refresh transaction query find count insert_token insert_refresh delete
    requested
issues_now = refl

refresh_roundtrip_example :
    (rt : RefreshToken) × GivesBack exchange "id0" "h2" 5 205 rt
    × (token_request_by_refresh_token gen ttl "raw2" (at 100 issued)
        ≡ (ok (of_refresh_token rt rt.scopes), at 100 issued))
refresh_roundtrip_example =
    refresh_roundtrip gen ttl exchange "raw1" "id0" "raw2" 25 served issued 100 issues_now
      (omega arith)

refresh_once_example :
    token_request_by_refresh_token gen ttl "raw1" (at 6 issued)
    ≡ (err invalid_refresh_token, at 6 issued)
refresh_once_example =
    refresh_once gen ttl exchange "raw1" "id0" "raw2" 25 served issued 6 (differ "raw1" "" refl)
      (differ "h1" "" refl) (differ "h2" "h1" refl) (omega arith) issues_now

abbrev alice : UserClaims
alice = record {
  subject = "alice";
  email = "alice@example.org";
  email_verified = true;
  name = "Alice";
  given_name = "Alice";
  family_name = "";
  picture = "";
  updated_at = 3;
}

abbrev blank : UserInfo
blank = record {
  subject = "";
  email = "";
  email_verified = false;
  name = "";
  given_name = "";
  family_name = "";
  picture = "";
  updated_at = 0;
}

add_scopes_discloses_example :
    add_scopes alice ("openid" ∷ "email" ∷ []) blank
    ≡ disclosed alice ("openid" ∷ "email" ∷ []) blank
add_scopes_discloses_example = add_scopes_discloses alice ("openid" ∷ "email" ∷ []) blank

filter_scopes_allowed_example :
    (is_empty public_client.allowed_scopes ≡ false
      → filter_scopes public_client ("openid" ∷ "drive" ∷ [])
        ≡ select (is_scope_allowed public_client) ("openid" ∷ "drive" ∷ []))
    × (is_empty public_client.allowed_scopes ≡ true
        → (filter_scopes public_client ("openid" ∷ "drive" ∷ []) ≡ "openid" ∷ "drive" ∷ [])
          × ((s : String) → is_scope_allowed public_client s ≡ false))
filter_scopes_allowed_example = filter_scopes_allowed public_client ("openid" ∷ "drive" ∷ [])
