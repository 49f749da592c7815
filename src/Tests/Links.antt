-- ===== src/Tests/Links.antt =====
-- A user with two linked providers unlinks one, and the theorems on it.
use hss_science.Base.{[], ◌==◌, ◌∷◌, ◌≡◌, arith, refl, if◌then◌else◌, false, err}
use hss_science.Base.{◌≢◌, true, [], ◌==◌, ◌∷◌, ◌≡◌, arith, refl}
use hss_science.Base.Sql.Rows.{count, find}
use hss_science.Identity.Users.{FederatedIdentity, UserWorld}
use hss_science.Identity.Providers.{linked_to, unlink_provider}
use hss_science.Identity.Unlink.{unlink_provider_leaves_login}
use hss_science.Tests.Accounts.{start, link}
use hss_science.Account.Handler.{unlink_my_provider}
use hss_science.Grpc.{invalid_argument, internal}
use hss_science.Account.Unlinking.{unlink_refused}

abbrev second_link : FederatedIdentity
second_link = record link { id = "f2"; provider = "github"; provider_subject = "h1" }

abbrev linked_twice : UserWorld
linked_twice = record start {
  tables = record (start.tables) { identities = second_link ∷ link ∷ [] };
}

unlink_provider_leaves_login_example :
    count (linked_to "alice") (unlink_provider true "alice" "f1" linked_twice).1.tables.identities
    ≢ 0
unfolding find count
unlink_provider_leaves_login_example =
    unlink_provider_leaves_login true "alice" "f1" "alice" linked_twice (refl, (refl, tt))
      (λ z. ground (arith, z))

unlink_refused_example :
    ((unlink_my_provider false "alice" "f1" linked_twice).0
      ≡ err (if "f1" == "" then invalid_argument else internal))
    × ((unlink_my_provider false "alice" "f1" linked_twice).1.tables ≡ linked_twice.tables)
unlink_refused_example = unlink_refused "alice" "f1" linked_twice
