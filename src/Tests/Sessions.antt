-- ===== src/Tests/Sessions.antt =====
-- The repositories of the identity service at work on one user, and their theorems there.
use hss_science.Oidc.TokenRepo.{inherited_session}
use hss_science.Oidc.Liveness.{rotation_succeeds}
use hss_science.Oidc.Tables.{refused_refresh}
use hss_science.Oidc.Tables.{insert_token, insert_refresh}
use hss_science.Base.Sql.Rows.{count}
use hss_science.Base.Sql.{query, transaction}
use hss_science.Base.{◌>>=◌, [], ◌==◌, ◌&&◌, ◌∷◌, ◌≡◌, arith, refl, Option, ltb}
use hss_science.Base.{
  eq_iff, ◌==◌, arith, ℕ, String, none, some, [], ◌∷◌, ok, err, refl, ◌≡◌, false, ◌≢◌, arith,
}
use hss_science.Base.Sql.Rows.{find, delete}
use hss_science.Domerr.{not_found}
use hss_science.Oidc.Domain.{Token, RefreshToken, DeviceSession}
use hss_science.Oidc.Tables.{RefreshRow, Db, OidcWorld, of_session}
use hss_science.Oidc.TokenRepo.{create_access_and_refresh, refresh_row, live_refresh}
use hss_science.Oidc.DeviceRepo.{revoke_by_id, find_or_create}
use hss_science.Oidc.Rotation.{rotation_replaces, rotated_away, Inherits, row_of}
use hss_science.Oidc.Reuse.{Given, find_or_create-Given}
use hss_science.Oidc.Reissue.{revoked_session_reissued}

pub differ : (a b : String) → (a == b) ≡ false → a ≢ b
differ a b h e = ground (arith, h, eq_iff a b, e)

abbrev pub laptop : DeviceSession
laptop = record {
  id = "dev";
  user_id = "alice";
  user_agent = "old agent";
  ip_address = "10.0.0.1";
  device_name = "Laptop";
  created_at = 1;
  last_used_at = 1;
  revoked_at = none;
}

abbrev pub old_row : RefreshRow
old_row = record {
  id = "r1";
  token_hash = "h1";
  client_id = "bff";
  user_id = "alice";
  audience = [];
  scopes = [];
  auth_time = 1;
  amr = [];
  access_token_id = none;
  device_session_id = some "dev";
  expiration = 100;
  created_at = 1;
}

abbrev pub access : Token
access = record {
  id = "a2";
  client_id = "bff";
  subject = "alice";
  audience = [];
  scopes = [];
  expiration = 20;
  refresh_token_id = "r2";
  created_at = 5;
}

abbrev pub fresh : RefreshToken
fresh = record {
  id = "r2";
  token = "h2";
  client_id = "bff";
  user_id = "alice";
  audience = [];
  scopes = [];
  auth_time = 1;
  amr = [];
  access_token_id = "a2";
  expiration = 200;
  created_at = 5;
  device_session_id = "";
}

abbrev pub db : Db
db = record {
  users = "alice" ∷ [];
  auth_requests = [];
  clients = [];
  tokens = [];
  refresh_tokens = old_row ∷ [];
  device_sessions = laptop ∷ [];
}

abbrev pub world_of : Db → OidcWorld
world_of d = record { tables = d; outside = tt; faults = []; clock = 5; minted = 0 }

abbrev before : OidcWorld
before = world_of db

abbrev rotated : OidcWorld
rotated = (create_access_and_refresh access fresh "h1" before).1

rotates_now : create_access_and_refresh access fresh "h1" before ≡ (ok tt, rotated)
unfolding create_access_and_refresh ◌>>=◌ transaction query find count insert_token insert_refresh
    delete
rotates_now = refl

rotation_replaces_example :
    (session : Option String) × Inherits fresh
      (find (λ r. r.token_hash == "h1") (old_row ∷ []))
      session
    × (rotated.tables.refresh_tokens
        ≡ row_of fresh session 5
          ∷ delete (λ r. r.token_hash == "h1" && ltb 5 r.expiration) (old_row ∷ []))
rotation_replaces_example =
    rotation_replaces access fresh "h1" before rotated tt (differ "h1" "" refl) rotates_now

rotated_away_example : find (live_refresh 9 "h1") rotated.tables.refresh_tokens ≡ none
rotated_away_example =
    rotated_away access fresh "h1" before rotated tt 9 (differ "h1" "" refl) (differ "h2" "h1" refl)
      (omega arith) rotates_now

abbrev ended : OidcWorld
ended = (revoke_by_id "dev" "alice" before).1

abbrev ulids : ℕ → String
ulids n = "ulid"

abbrev returned : DeviceSession
returned = record laptop { user_agent = "new agent"; ip_address = "10.0.0.2"; last_used_at = 5 }

abbrev found : OidcWorld
found = (find_or_create ulids "dev" "alice" "new agent" "10.0.0.2" "Laptop" before).1

finds_now :
    find_or_create ulids "dev" "alice" "new agent" "10.0.0.2" "Laptop" before ≡ (ok returned, found)
unfolding find_or_create ◌>>=◌ query find
finds_now = refl

find_or_create-Given_example : Given "alice" returned before found
find_or_create-Given_example =
    find_or_create-Given ulids "dev" "alice" "new agent" "10.0.0.2" "Laptop" before found returned
      finds_now

-- The login was started before the session was revoked, and names it.
abbrev for_session : RefreshToken
for_session = record fresh { device_session_id = "dev" }

abbrev closed : DeviceSession
closed = record laptop { revoked_at = some 4 }

abbrev closed_world : OidcWorld
closed_world = world_of (record db { refresh_tokens = []; device_sessions = closed ∷ [] })

revoked_session_reissued_example :
    (v : OidcWorld) × (create_access_and_refresh access for_session "" closed_world ≡ (ok tt, v))
    × (find (of_session "dev") v.tables.refresh_tokens ≡ some (refresh_row for_session 5))
    × (revoke_by_id "dev" "alice" v ≡ (err not_found, v))
unfolding find refused_refresh refresh_row
revoked_session_reissued_example =
    revoked_session_reissued access for_session closed_world closed 4 (differ "dev" "" refl) refl
      (refl, tt) refl refl refl refl

rotation_succeeds_example :
    (v : OidcWorld) × (create_access_and_refresh access fresh "h1" before ≡ (ok tt, v))
unfolding find refused_refresh refresh_row inherited_session
rotation_succeeds_example =
    rotation_succeeds access fresh "h1" before (differ "h1" "" refl) (λ e. ground (arith, e)) refl
      refl refl
