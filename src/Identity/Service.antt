-- ===== src/Identity/Service.antt =====
-- The identity service (internal/identity/service.go). The generator of identifiers is a parameter.
use hss_science.Base.{
  ℕ, String, ◌==◌, Option, none, Action, pure, gets, ◌>>=◌, ◌>>◌, if◌then◌else◌, on_row,
}
use hss_science.Base.Sql.{mint}
use hss_science.Domerr.{Error}
use hss_science.Identity.Users.{
  User, FederatedIdentity, FederatedClaims, UserWorld, user_by_id, find_by_federated_identity,
  create_with_federated_identity, update_user_from_claims, update_federated_identity_claims,
  update_local_profile,
}

-- `local != nil && *local != ""`
abbrev pub overridden : Option String → String → String
overridden local value = on_row local value (λ s. if s == "" then value else s)

unfoldable pub apply_local_overrides : User → User
apply_local_overrides u = record u {
  name = overridden u.local_name u.name;
  picture = overridden u.local_picture u.picture;
}

unfoldable pub get_user : String → Action UserWorld Error User
unfolding apply_local_overrides
get_user id = do u ← user_by_id id; pure (apply_local_overrides u)

-- What a login of a known user returns.
unfoldable pub claimed : FederatedClaims → ℕ → User → User
claimed c now u = record u {
  email = c.email;
  email_verified = c.email_verified;
  name = c.name;
  given_name = c.given_name;
  family_name = c.family_name;
  picture = c.picture;
  updated_at = now;
}

unfoldable pub new_user : String → FederatedClaims → ℕ → User
new_user id c now = record {
  id = id;
  email = c.email;
  email_verified = c.email_verified;
  name = c.name;
  given_name = c.given_name;
  family_name = c.family_name;
  picture = c.picture;
  created_at = now;
  updated_at = now;
  local_name = none;
  local_picture = none;
}

unfoldable pub new_identity : String → String → String → FederatedClaims → ℕ → FederatedIdentity
new_identity id user provider c now = record {
  id = id;
  user_id = user;
  provider = provider;
  provider_subject = c.subject;
  provider_email = c.email;
  provider_email_verified = c.email_verified;
  provider_display_name = c.name;
  provider_given_name = c.given_name;
  provider_family_name = c.family_name;
  provider_picture_url = c.picture;
  last_login_at = now;
  created_at = now;
  updated_at = now;
}

-- `if existing != nil`
unfoldable pub log_in : String → FederatedClaims → User → Action UserWorld Error User
unfolding claimed
log_in provider c existing = do
  now ← gets (λ w. w.clock)
  update_user_from_claims existing.id c now
  update_federated_identity_claims provider c.subject c now
  pure (claimed c now existing)

module _ (make_ulid : ℕ → String) where
  unfoldable pub sign_up : String → FederatedClaims → Action UserWorld Error User
  unfolding new_user new_identity
  sign_up provider c = do
    now ← gets (λ w. w.clock)
    id ← mint make_ulid
    identity_id ← mint make_ulid
    create_with_federated_identity (new_user id c now) (new_identity identity_id id provider c now)
    pure (new_user id c now)

  unfoldable pub find_or_create_by_federated_login :
      String → FederatedClaims → Action UserWorld Error User
  unfolding log_in sign_up
  find_or_create_by_federated_login provider c = do
    existing ← find_by_federated_identity provider c.subject
    on_row existing (sign_up provider c) (λ u. log_in provider c u)

unfoldable pub update_profile : String → Option String → Option String → Action UserWorld Error User
unfolding get_user
update_profile id name picture = do
  now ← gets (λ w. w.clock)
  update_local_profile id name picture now
  get_user id
