-- ===== src/Account/Handler.antt =====
-- The handlers of the account management service (internal/grpc/handler.go, errors.go). The user in
-- the context is an argument. A method works on the tables that its service keeps: those of
-- users, or those of OpenID Connect.
use hss_science.Base.{
  on_row, not, pure, fail, map_err, handle, Option, false, List, String, Bool, ℕ, map, [], ◌>>=◌,
  ◌==◌, ◌∷◌, if◌then◌else◌, Action,
}
use hss_science.Grpc.{
  Code, invalid_argument, not_found, permission_denied, failed_precondition, internal,
}
use hss_science.Domerr
use hss_science.Domerr.{Error}
use hss_science.Identity.Users.{User, FederatedIdentity, UserWorld}
use hss_science.Identity.Service.{get_user, update_profile}
use hss_science.Identity.Providers.{list_linked_providers, unlink_provider}
use hss_science.Oidc.Domain.{DeviceSession}
use hss_science.Oidc.Tables.{OidcWorld}
use hss_science.Oidc.DeviceRepo.{list_active_by_user_id, revoke_by_id}

unfoldable pub domain_status : Error → Code
domain_status Domerr.not_found = not_found
domain_status Domerr.unauthorized = permission_denied
domain_status Domerr.failed_precondition = failed_precondition
domain_status _ = internal

pub record Profile : Type 0 where
  pub user_id : String
  pub email : String
  pub email_verified : Bool
  pub name : String
  pub given_name : String
  pub family_name : String
  pub picture : String
  pub name_is_local : Bool
  pub picture_is_local : Bool
  pub created_at : ℕ
  pub updated_at : ℕ

-- `local != nil && *local != ""`
abbrev pub is_local : Option String → Bool
is_local local = on_row local false (λ s. not (s == ""))

unfoldable pub user_to_proto : User → Profile
user_to_proto u = record {
  user_id = u.id;
  email = u.email;
  email_verified = u.email_verified;
  name = u.name;
  given_name = u.given_name;
  family_name = u.family_name;
  picture = u.picture;
  name_is_local = is_local u.local_name;
  picture_is_local = is_local u.local_picture;
  created_at = u.created_at;
  updated_at = u.updated_at;
}

unfoldable pub get_my_profile : String → Action UserWorld Code Profile
unfolding domain_status user_to_proto
get_my_profile user = do u ← map_err domain_status (get_user user); pure (user_to_proto u)

unfoldable pub update_my_profile :
    String → Option String → Option String → Action UserWorld Code Profile
unfolding domain_status user_to_proto
update_my_profile user name picture = do
  u ← map_err domain_status (update_profile user name picture)
  pure (user_to_proto u)

pub record FederatedProviderInfo : Type 0 where
  pub identity_id : String
  pub provider : String
  pub provider_email : String
  pub last_login_at : ℕ

abbrev pub provider_info : FederatedIdentity → FederatedProviderInfo
provider_info fi = record {
  identity_id = fi.id;
  provider = fi.provider;
  provider_email = fi.provider_email;
  last_login_at = fi.last_login_at;
}

unfoldable pub my_linked_providers : String → Action UserWorld Code (List FederatedProviderInfo)
unfolding domain_status
my_linked_providers user = do
  fis ← map_err domain_status (list_linked_providers user)
  pure (map provider_info fis)

unfoldable pub unlink_my_provider : Bool → String → String → Action UserWorld Code (Unit {0})
unfolding domain_status
unlink_my_provider locks user identity_id =
    if identity_id == ""
    then fail invalid_argument
    else map_err domain_status (unlink_provider locks user identity_id)

pub record Session : Type 0 where
  pub session_id : String
  pub device_name : String
  pub ip_address : String
  pub created_at : ℕ
  pub last_used_at : ℕ

abbrev pub session_info : DeviceSession → Session
session_info s = record {
  session_id = s.id;
  device_name = s.device_name;
  ip_address = s.ip_address;
  created_at = s.created_at;
  last_used_at = s.last_used_at;
}

unfoldable pub list_active_sessions : String → Action OidcWorld Code (List Session)
unfolding domain_status
list_active_sessions user = do
  sessions ← map_err domain_status (list_active_by_user_id user)
  pure (map session_info sessions)

unfoldable pub revoke_session : String → String → Action OidcWorld Code (Unit {0})
unfolding domain_status
revoke_session user id =
    if id == "" then fail invalid_argument else map_err domain_status (revoke_by_id id user)

-- The loop over the sessions: the error of a revocation is dropped.
unfoldable pub revoke_each : String → String → List DeviceSession → Action OidcWorld Code (Unit {0})
revoke_each user current [] = pure tt
revoke_each user current (s ∷ ss) =
    let rest = revoke_each user current ss in
    if s.id == current then rest else handle (revoke_by_id s.id user) (λ _. rest) (λ _. rest)

unfoldable pub revoke_all_other_sessions : String → String → Action OidcWorld Code (Unit {0})
unfolding domain_status revoke_each
revoke_all_other_sessions user current = do
  sessions ← map_err domain_status (list_active_by_user_id user)
  revoke_each user current sessions
