-- ===== src/Account/Unlinking.antt =====
-- Unlinking a provider on PostgreSQL, which refuses `FOR UPDATE` in a query with an aggregate.
use hss_science.Identity.Users.{UserWorld}
use hss_science.Identity.Providers.{
  unlink_provider, delete_federated_identity, delete_body, lock_and_count,
}
use hss_science.Account.Handler.{unlink_my_provider, domain_status}
use hss_science.Grpc.{invalid_argument, internal}
use hss_science.Base.{◌==◌, ◌≡◌, arith, if◌then◌else◌, map_err, ◌>>=◌, String, false, err}
use hss_science.Base.Sql.{transaction, query, statement}

-- On a database that refuses a row lock on an aggregate, as PostgreSQL does, nobody can unlink a
-- provider, whoever asks for whichever and whatever else fails: the call answers InvalidArgument
-- where no provider is named and Internal where one is, and nothing changes.
pub unlink_refused :
    (user identity_id : String) (w : UserWorld)
    → ((unlink_my_provider false user identity_id w).0
        ≡ err (if identity_id == "" then invalid_argument else internal))
      × ((unlink_my_provider false user identity_id w).1.tables ≡ w.tables)
unfolding unlink_my_provider unlink_provider delete_federated_identity delete_body lock_and_count
    domain_status map_err transaction query statement ◌>>=◌
unlink_refused user identity_id w = (ground arith, ground arith)
