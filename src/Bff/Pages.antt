-- ===== src/Bff/Pages.antt =====
-- The pages of the account (internal/handler/profile.go, providers.go, sessions.go, and
-- internal/middleware/csrf.go). The session is that of the request's context. Time stamps are always
-- set; their format is a parameter.
use hss_science.Base.{
  String, Option, none, some, List, Bool, not, ℕ, map, handle, pure, fail, map_err, ◌>>=◌, ◌>>◌,
  ◌==◌, ◌&&◌, ◌||◌, if◌then◌else◌, Action, true, false,
}
use hss_science.Base.Sql.{World}
use hss_science.Grpc.{Code, not_found}
use hss_science.Account.Handler
use hss_science.Account.Handler.{Profile, FederatedProviderInfo}
use hss_science.Bff.Sessions.{Session, Redis, delete_session}
use hss_science.Bff.Accounts.{
  AccountService, get_my_profile, update_my_profile, list_linked_providers, unlink_provider,
  list_active_sessions, revoke_session, revoke_all_other_sessions, grpc_to_http, call_accounts,
}

pub record ProfileResponse : Type 0 where
  pub user_id : String
  pub email : String
  pub email_verified : Bool
  pub name : String
  pub given_name : String
  pub family_name : String
  pub picture : String
  pub name_is_local : Bool
  pub picture_is_local : Bool
  pub created_at : String
  pub updated_at : String

pub record ProviderResponse : Type 0 where
  pub identity_id : String
  pub provider : String
  pub provider_email : String
  pub last_login_at : String

pub record SessionResponse : Type 0 where
  pub session_id : String
  pub device_name : String
  pub ip_address : String
  pub created_at : String
  pub last_used_at : String
  pub is_current : Bool

-- An error, with its status and code but without its message.
abbrev pub Page : Type 0 → Type 0 → Type 0
Page O A = Action (World Redis O) (ℕ × String) A

abbrev pub is_not_found_code : Option Code → Bool
is_not_found_code (some not_found) = true
is_not_found_code _ = false

module _ {O : Type 0} where
  -- `_ = h.sessionStore.Delete(...)`, if there is a cookie
  unfoldable pub forget : Option String → Page O (Unit {0})
  forget none = pure tt
  forget (some sid) = handle (delete_session sid) (λ _. pure tt) (λ _. pure tt)

module _ {O : Type 0} (svc : AccountService O) (format : ℕ → String) where
  -- `httpStatus, code := grpcToHTTP(err)`
  abbrev pub asked : {A : Type 0} → Action O (Option Code) A → Page O A
  asked m = map_err grpc_to_http (call_accounts m)

  unfoldable pub to_profile_response : Profile → ProfileResponse
  to_profile_response p = record {
    user_id = p.user_id;
    email = p.email;
    email_verified = p.email_verified;
    name = p.name;
    given_name = p.given_name;
    family_name = p.family_name;
    picture = p.picture;
    name_is_local = p.name_is_local;
    picture_is_local = p.picture_is_local;
    created_at = format p.created_at;
    updated_at = format p.updated_at;
  }

  unfoldable pub get_profile : Session → Page O ProfileResponse
  unfolding to_profile_response grpc_to_http call_accounts get_my_profile
  get_profile sess = do
    profile ← asked (get_my_profile svc sess.access_token)
    pure (to_profile_response profile)

  -- `body` is the decoded body, `none` where it is no such JSON.
  unfoldable pub update_profile :
      Session → Option (Option String × Option String) → Page O ProfileResponse
  unfolding to_profile_response grpc_to_http call_accounts update_my_profile
  update_profile sess none = fail (400, "invalid_request")
  update_profile sess (some (name, picture)) = do
    profile ← asked (update_my_profile svc sess.access_token name picture)
    pure (to_profile_response profile)

  abbrev pub provider_response : FederatedProviderInfo → ProviderResponse
  provider_response p = record {
    identity_id = p.identity_id;
    provider = p.provider;
    provider_email = p.provider_email;
    last_login_at = format p.last_login_at;
  }

  unfoldable pub list_providers : Session → Page O (List ProviderResponse)
  unfolding grpc_to_http call_accounts list_linked_providers
  list_providers sess = do
    providers ← asked (list_linked_providers svc sess.access_token)
    pure (map provider_response providers)

  unfoldable pub unlink : Session → String → Page O (Unit {0})
  unfolding grpc_to_http call_accounts unlink_provider
  unlink sess identity_id =
      if identity_id == ""
      then fail (400, "invalid_request")
      else asked (unlink_provider svc sess.access_token identity_id)

  abbrev pub session_response : Session → Handler.Session → SessionResponse
  session_response sess s = record {
    session_id = s.session_id;
    device_name = s.device_name;
    ip_address = s.ip_address;
    created_at = format s.created_at;
    last_used_at = format s.last_used_at;
    is_current = s.session_id == sess.device_session_id;
  }

  unfoldable pub list_sessions : Session → Page O (List SessionResponse)
  unfolding grpc_to_http call_accounts list_active_sessions
  list_sessions sess = do
    sessions ← asked (list_active_sessions svc sess.access_token)
    pure (map (session_response sess) sessions)

  -- Whether the cookie is cleared. A session not found has its own message, but the same code.
  unfoldable pub revoke : Session → Option String → String → Page O Bool
  unfolding grpc_to_http call_accounts revoke_session forget
  revoke sess cookie session_id = if session_id == "" then fail (400, "invalid_request") else do
    _ ←
        map_err (λ e. if is_not_found_code e then (404, "not_found") else grpc_to_http e)
          (call_accounts (revoke_session svc sess.access_token session_id))
    if session_id == sess.device_session_id then (do forget cookie; pure true) else pure false

  unfoldable pub revoke_all_others : Session → Page O (Unit {0})
  unfolding grpc_to_http call_accounts revoke_all_other_sessions
  revoke_all_others sess =
      if sess.device_session_id == ""
      then fail (409, "conflict")
      else asked (revoke_all_other_sessions svc sess.access_token sess.device_session_id)

-- The request goes on to the next handler, unless this is `none`: it is answered with 403.
unfoldable pub csrf : String → String → Option (Unit {0})
csrf method requested_with =
    if (method == "POST" || (method == "PATCH" || (method == "DELETE" || method == "PUT")))
      && not (requested_with == "XMLHttpRequest")
    then none
    else some tt
