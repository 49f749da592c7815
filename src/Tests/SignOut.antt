-- ===== src/Tests/SignOut.antt =====
-- A user with sessions on two devices signs out elsewhere, and the theorems on it.
use hss_science.Base.Text.{has_prefix, trim_prefix}
use hss_science.Bff.Accounts.{with_bearer}
use hss_science.Base.{
  String, ℕ, none, some, ok, true, List, ◌↔◌, [], ◌==◌, ◌∷◌, ◌≡◌, arith, refl, if◌then◌else◌,
}
use hss_science.Base.Int.{pos}
use hss_science.Base.Sql.{World}
use hss_science.Base.Sql.Rows.{find, select}
use hss_science.Oidc.Domain.{DeviceSession}
use hss_science.Oidc.Tables.{Db, OidcWorld, session_id, of_session}
use hss_science.Account.Handler.{revoke_all_other_sessions}
use hss_science.Account.SignOut.{elsewhere, revoke_all_others_ends}
use hss_science.Account.Interceptor.{JwtClaims, PublicKey, Jose, jwt_auth}
use hss_science.Account.Admission.{Admitted, jwt_auth_iff}
use hss_science.Account.Remote.{account_service, sign_out_elsewhere}
use hss_science.Authn.Handler.{LoginWorld}
use hss_science.Bff.Sessions.{Session, Redis}
use hss_science.Bff.Pages.{revoke_all_others}
use hss_science.Blob.Interceptor.{Metadata}
use hss_science.Tests.Sessions.{laptop, db, world_of, differ}
use hss_science.Tests.Accounts.{start}

abbrev phone : DeviceSession
phone = record laptop { id = "phone" }

abbrev pub two_devices : Db
two_devices = record db { device_sessions = phone ∷ laptop ∷ [] }

revoke_all_others_ends_example :
    (v : OidcWorld) × (revoke_all_other_sessions "alice" "dev" (world_of two_devices) ≡ (ok tt, v))
    × (find (elsewhere "alice" "dev") v.tables.device_sessions ≡ none)
    × (find (session_id "dev") v.tables.device_sessions
        ≡ find (session_id "dev") two_devices.device_sessions)
    × (select (of_session "dev") v.tables.refresh_tokens
        ≡ select (of_session "dev") two_devices.refresh_tokens)
revoke_all_others_ends_example = revoke_all_others_ends "alice" "dev" (world_of two_devices) refl

-- A toy of signed tokens: a token is its payload, and one key verifies it.
abbrev toy_claims : JwtClaims
toy_claims = record { subject = "alice"; expiry = pos 100; issuer = "https://id" }

abbrev toy : Jose String ℕ String
toy = record {
  parse_signed = λ raw. some raw;
  key_ids = λ tok. "k1" ∷ [];
  verify = λ tok key. some tok;
  unmarshal = λ payload. if payload == "good" then some toy_claims else none;
}

abbrev toy_keys : List (PublicKey ℕ)
toy_keys = record { id = "k0"; rsa = some 0 } ∷ record { id = "k1"; rsa = some 1 } ∷ []

abbrev bearer : Metadata
bearer = some (λ key. if key == "authorization" then "Bearer good" ∷ [] else [])

jwt_auth_iff_example :
    (jwt_auth toy toy_keys "https://id" 50 bearer ≡ ok "alice")
    ↔ Admitted toy toy_keys "https://id" 50 (λ tok. tok) bearer "alice"
jwt_auth_iff_example =
    jwt_auth_iff toy (λ tok. tok) (λ tok key p e. ground (arith, e)) toy_keys "https://id" 50 bearer
      "alice"

abbrev page_session : Session
page_session = record {
  user_id = "alice";
  access_token = "good";
  refresh_token = "r";
  id_token = "i";
  token_expiry = 100;
  device_session_id = "dev";
  created_at = 1;
  last_active_at = 1;
}

abbrev pub both : LoginWorld (Unit {0})
both = record {
  tables = record { accounts = start.tables; oidc = two_devices };
  outside = tt;
  faults = [];
  clock = 50;
  minted = 0;
}

abbrev browser : World Redis (LoginWorld (Unit {0}))
browser = record {
  tables = record { sessions = []; locks = []; states = [] };
  outside = both;
  faults = [];
  clock = 50;
  minted = 0;
}

abbrev print : ℕ → String
print n = "time"

abbrev seconds : ℕ → ℕ
seconds n = n

sign_out_elsewhere_example :
    (v : World Redis (LoginWorld (Unit {0}))) × (revoke_all_others
        (account_service toy toy_keys "https://id" seconds true)
        print
        page_session
        browser
      ≡ (ok tt, v))
    × (v.tables ≡ browser.tables)
    × (find (elsewhere "alice" "dev") v.outside.tables.oidc.device_sessions ≡ none)
unfolding jwt_auth with_bearer has_prefix trim_prefix
sign_out_elsewhere_example =
    sign_out_elsewhere toy toy_keys "https://id" seconds true print page_session "alice" browser
      (differ "dev" "" refl) refl refl
