-- ===== src/Identity/Providers.antt =====
-- The linked providers of a user: `ListFederatedIdentities` and `DeleteFederatedIdentity`
-- (internal/identity/postgres/user_repo.go) with the two calls of internal/identity/service.go.
use hss_science.Base.{
  ok, err, fail, pure, nat_eq, leb, List, String, ◌∷◌, Bool, ◌==◌, if◌then◌else◌, Action, Result,
  ◌&&◌, ltb, ℕ, [], ◌>>=◌,
}
use hss_science.Base.Sql.{query, statement, transaction}
use hss_science.Base.Sql.Rows.{select, delete, count}
use hss_science.Domerr.{Error, not_found, failed_precondition, other}
use hss_science.Identity.Users.{UserDb, UserWorld, FederatedIdentity}

-- `user_id = $1`
abbrev pub linked_to : String → FederatedIdentity → Bool
linked_to user fi = fi.user_id == user

-- `id = $1 AND user_id = $2`
abbrev pub owned_by : String → String → FederatedIdentity → Bool
owned_by id user fi = fi.id == id && fi.user_id == user

-- `ORDER BY created_at ASC`
unfoldable pub insert_by_age : FederatedIdentity → List FederatedIdentity → List FederatedIdentity
insert_by_age fi [] = fi ∷ []
insert_by_age fi (x ∷ xs) =
    if ltb x.created_at fi.created_at then x ∷ insert_by_age fi xs else fi ∷ x ∷ xs

unfoldable pub sort_by_age : List FederatedIdentity → List FederatedIdentity
unfolding insert_by_age
sort_by_age [] = []
sort_by_age (fi ∷ fis) = insert_by_age fi (sort_by_age fis)

unfoldable pub list_federated_identities : String → Action UserWorld Error (List FederatedIdentity)
unfolding sort_by_age
list_federated_identities user =
    query other (λ db. sort_by_age (select (linked_to user) db.identities))

unfoldable pub list_linked_providers : String → Action UserWorld Error (List FederatedIdentity)
list_linked_providers user = list_federated_identities user

-- The `DELETE`, with the rows affected.
unfoldable pub delete_identity : String → String → UserDb → Result Error ℕ × UserDb
delete_identity id user db = (
  ok (count (owned_by id user) db.identities),
  record db { identities = delete (owned_by id user) db.identities },
)

-- What the body does with the number of linked providers.
unfoldable pub delete_unless_last : String → String → ℕ → Action UserWorld Error (Unit {0})
unfolding delete_identity
delete_unless_last id user n = if leb n 1 then fail failed_precondition else do
  deleted ← statement other (delete_identity id user)
  if nat_eq deleted 0 then fail not_found else pure tt

-- Whether the database accepts `SELECT COUNT(*) ... FOR UPDATE`, a row lock on an aggregate, is a
-- parameter.
module _ (locks_aggregates : Bool) where
  unfoldable pub lock_and_count : String → UserDb → Result Error ℕ × UserDb
  lock_and_count user db =
      (if locks_aggregates then ok (count (linked_to user) db.identities) else err other, db)

  -- The body of the transaction.
  unfoldable pub delete_body : String → String → Action UserWorld Error (Unit {0})
  unfolding lock_and_count delete_unless_last
  delete_body id user = do n ← statement other (lock_and_count user); delete_unless_last id user n

  unfoldable pub delete_federated_identity : String → String → Action UserWorld Error (Unit {0})
  unfolding delete_body
  delete_federated_identity id user = transaction other (delete_body id user)

  unfoldable pub unlink_provider : String → String → Action UserWorld Error (Unit {0})
  unlink_provider user id = delete_federated_identity id user
