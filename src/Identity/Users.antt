-- ===== src/Identity/Users.antt =====
-- The entities of internal/identity/domain.go and the repository of users
-- (internal/identity/postgres/user_repo.go). The rows have the columns of their entities.
use hss_science.Base.{
  ℕ, String, Bool, ◌&&◌, ◌||◌, ◌==◌, Option, none, some, List, ◌∷◌, Result, ok, err, Action, pure,
  fail, ◌>>=◌, ◌>>◌, if◌then◌else◌, on_row, not,
}
use hss_science.Base.Sql.{World, statement, query, transaction}
use hss_science.Base.Sql.Rows.{find, update}
use hss_science.Domerr.{Error, not_found, other}
use hss_science.Oidc.Tables.{is_taken}

pub record User : Type 0 where
  pub id : String
  pub email : String
  pub email_verified : Bool
  pub name : String
  pub given_name : String
  pub family_name : String
  pub picture : String
  pub created_at : ℕ
  pub updated_at : ℕ
  pub local_name : Option String
  pub local_picture : Option String

pub record FederatedIdentity : Type 0 where
  pub id : String
  pub user_id : String
  pub provider : String
  pub provider_subject : String
  pub provider_email : String
  pub provider_email_verified : Bool
  pub provider_display_name : String
  pub provider_given_name : String
  pub provider_family_name : String
  pub provider_picture_url : String
  pub last_login_at : ℕ
  pub created_at : ℕ
  pub updated_at : ℕ

pub record FederatedClaims : Type 0 where
  pub subject : String
  pub email : String
  pub email_verified : Bool
  pub name : String
  pub given_name : String
  pub family_name : String
  pub picture : String

pub record UserDb : Type 0 where
  pub users : List User
  pub identities : List FederatedIdentity

abbrev pub UserWorld : Type 0
UserWorld = World UserDb (Unit {0})

abbrev pub has_user_id : String → User → Bool
has_user_id id u = u.id == id

-- `provider = $1 AND provider_subject = $2`, which is unique
abbrev pub of_login : String → String → FederatedIdentity → Bool
of_login provider subject fi = (fi.provider == provider) && (fi.provider_subject == subject)

unfoldable pub user_by_id : String → Action UserWorld Error User
user_by_id id = do
  row ← query other (λ db. find (has_user_id id) db.users)
  on_row row (fail not_found) (λ u. pure u)

-- The join, by the identity: `user_id` refers to one user.
unfoldable pub joined : String → String → UserDb → Option User
joined provider subject db =
    on_row (find (of_login provider subject) db.identities) none
      (λ fi. find (has_user_id fi.user_id) db.users)

unfoldable pub find_by_federated_identity : String → String → Action UserWorld Error (Option User)
unfolding joined
find_by_federated_identity provider subject = query other (joined provider subject)

-- The primary key; the columns of local overrides are NULL.
unfoldable pub insert_user : User → UserDb → Result Error (Unit {0}) × UserDb
insert_user u db = if is_taken (find (has_user_id u.id) db.users) then (err other, db) else (
  ok tt,
  record db { users = record u { local_name = none; local_picture = none } ∷ db.users },
)

-- The primary key, the foreign key and `UNIQUE(provider, provider_subject)`
unfoldable pub insert_identity : FederatedIdentity → UserDb → Result Error (Unit {0}) × UserDb
insert_identity fi db =
    if is_taken (find (λ x. x.id == fi.id) db.identities)
      || (is_taken (find (of_login fi.provider fi.provider_subject) db.identities)
          || not (is_taken (find (has_user_id fi.user_id) db.users)))
    then (err other, db)
    else (ok tt, record db { identities = fi ∷ db.identities })

unfoldable pub create_with_federated_identity :
    User → FederatedIdentity → Action UserWorld Error (Unit {0})
unfolding insert_user insert_identity
create_with_federated_identity u fi =
    transaction other do statement other (insert_user u); statement other (insert_identity fi)

-- `CASE WHEN local_name IS NULL THEN $3 ELSE name END`, and the picture likewise
unfoldable pub with_claims : FederatedClaims → ℕ → User → User
with_claims c now u = record u {
  email = c.email;
  email_verified = c.email_verified;
  name = if is_taken u.local_name then u.name else c.name;
  given_name = c.given_name;
  family_name = c.family_name;
  picture = if is_taken u.local_picture then u.picture else c.picture;
  updated_at = now;
}

unfoldable pub update_user_from_claims :
    String → FederatedClaims → ℕ → Action UserWorld Error (Unit {0})
unfolding with_claims
update_user_from_claims id c now =
    statement other
      (λ db. (ok tt, record db { users = update (has_user_id id) (with_claims c now) db.users }))

abbrev pub identity_claims : FederatedClaims → ℕ → FederatedIdentity → FederatedIdentity
identity_claims c now fi = record fi {
  provider_email = c.email;
  provider_email_verified = c.email_verified;
  provider_display_name = c.name;
  provider_given_name = c.given_name;
  provider_family_name = c.family_name;
  provider_picture_url = c.picture;
  last_login_at = now;
  updated_at = now;
}

unfoldable pub update_federated_identity_claims :
    String → String → FederatedClaims → ℕ → Action UserWorld Error (Unit {0})
update_federated_identity_claims provider subject c now = statement other (λ db. (
  ok tt,
  record db {
    identities = update (of_login provider subject) (identity_claims c now) db.identities;
  },
))

-- `nullableString`
unfoldable pub nullable_string : String → Option String
nullable_string s = if s == "" then none else some s

-- `CASE WHEN $2 THEN $3 ELSE local_name END`, and the picture likewise
unfoldable pub with_profile : Option String → Option String → ℕ → User → User
unfolding nullable_string
with_profile name picture now u = record u {
  local_name = on_row name u.local_name (λ s. nullable_string s);
  local_picture = on_row picture u.local_picture (λ s. nullable_string s);
  updated_at = now;
}

unfoldable pub update_local_profile :
    String → Option String → Option String → ℕ → Action UserWorld Error (Unit {0})
unfolding with_profile
update_local_profile id name picture now = statement other (λ db.
    (ok tt, record db { users = update (has_user_id id) (with_profile name picture now) db.users }))
