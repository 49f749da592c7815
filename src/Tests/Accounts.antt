-- ===== src/Tests/Accounts.antt =====
-- Users at work, and their theorems there.
use hss_science.Base.{ℕ, String, none, some, [], ◌∷◌, ok, refl, ◌≡◌, true, false, map}
use hss_science.Base.Sql.Rows.{find}
use hss_science.Identity.Users.{
  joined, User, FederatedIdentity, FederatedClaims, UserWorld, with_claims,
}
use hss_science.Identity.Service.{
  apply_local_overrides, get_user, claimed, find_or_create_by_federated_login,
}
use hss_science.Identity.Logins.{after_login, later_on, login_keeps_local_name, same_account}
use hss_science.Tests.Sessions.{differ}

abbrev pub alice : User
alice = record {
  id = "alice";
  email = "a@example.org";
  email_verified = true;
  name = "Alice A";
  given_name = "Alice";
  family_name = "A";
  picture = "";
  created_at = 1;
  updated_at = 1;
  local_name = some "Ally";
  local_picture = none;
}

abbrev pub link : FederatedIdentity
link = record {
  id = "f1";
  user_id = "alice";
  provider = "google";
  provider_subject = "g1";
  provider_email = "";
  provider_email_verified = false;
  provider_display_name = "";
  provider_given_name = "";
  provider_family_name = "";
  provider_picture_url = "";
  last_login_at = 1;
  created_at = 1;
  updated_at = 1;
}

abbrev pub claims_of : String → FederatedClaims
claims_of shown = record {
  subject = "g1";
  email = "b@example.org";
  email_verified = false;
  name = shown;
  given_name = "Alice";
  family_name = "B";
  picture = "p";
}

abbrev pub start : UserWorld
start = record {
  tables = record { users = alice ∷ []; identities = link ∷ [] };
  outside = tt;
  faults = [];
  clock = 5;
  minted = 0;
}

abbrev pub ids : ℕ → String
ids n = "id"

login_keeps_local_name_example :
    (find_or_create_by_federated_login ids "google" (claims_of "Alice B") start ≡ (
      ok (claimed (claims_of "Alice B") 5 alice),
      after_login "google" (claims_of "Alice B") alice start,
    ))
    × ((claimed (claims_of "Alice B") 5 alice).name ≡ (claims_of "Alice B").name)
    × ((get_user "alice" (after_login "google" (claims_of "Alice B") alice start)).0
        ≡ ok (apply_local_overrides (with_claims (claims_of "Alice B") 5 alice)))
    × ((apply_local_overrides (with_claims (claims_of "Alice B") 5 alice)).name ≡ "Ally")
unfolding joined find
login_keeps_local_name_example =
    login_keeps_local_name ids "google" (claims_of "Alice B") start alice "Ally" refl refl refl
      (differ "Ally" "" refl)

same_account_example :
    (find_or_create_by_federated_login ids "google"
        (claims_of "Alice C")
        (later_on 9 "google" (claims_of "Alice B") alice start)
      ≡ (
        ok (claimed (claims_of "Alice C") 9 (with_claims (claims_of "Alice B") 5 alice)),
        after_login "google"
            (claims_of "Alice C")
            (with_claims (claims_of "Alice B") 5 alice)
            (later_on 9 "google" (claims_of "Alice B") alice start),
      ))
    × ((claimed (claims_of "Alice C") 9 (with_claims (claims_of "Alice B") 5 alice)).id ≡ "alice")
    × (map
          (λ x. x.id)
          (after_login "google"
            (claims_of "Alice C")
            (with_claims (claims_of "Alice B") 5 alice)
            (later_on 9 "google" (claims_of "Alice B") alice start)).tables.users
        ≡ map (λ x. x.id) (alice ∷ []))
unfolding joined find
same_account_example =
    same_account ids "google" (claims_of "Alice B") (claims_of "Alice C") start alice 9 refl refl
      refl
