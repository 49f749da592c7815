-- ===== src/Bff/Accounts.antt =====
-- The account service as the backend sees it: the interface that the generated client calls, the
-- calls of internal/accounts/client.go, and what internal/handler/errors.go makes of an error.
use Prim.Native.String.{◌++◌ as ◌<>◌}
use hss_science.Base.{String, Option, none, some, List, ℕ, [], ◌==◌, ◌∷◌, if◌then◌else◌, Action}
use hss_science.Base.Sql.{World}
use hss_science.Grpc.{
  Code, not_found, invalid_argument, permission_denied, unauthenticated, failed_precondition,
  internal,
}
use hss_science.Blob.Interceptor.{Metadata}
use hss_science.Account.Handler.{Profile, FederatedProviderInfo, Session}
use hss_science.Bff.Sessions.{Redis}

-- The error of a call: a status, or `none` for one with a code not listed and for any other error.
abbrev pub Remote : Type 0 → Type 0 → Type 0
Remote O A = Action O (Option Code) A

-- The methods of the service, over the state `O` of the network and of what stands behind it.
pub record AccountService (O : Type 0) : Type 0 where
  pub get_my_profile : Metadata → Remote O Profile
  pub update_my_profile : Option String → Option String → Metadata → Remote O Profile
  pub list_linked_providers : Metadata → Remote O (List FederatedProviderInfo)
  pub unlink_provider : String → Metadata → Remote O (Unit {0})
  pub list_active_sessions : Metadata → Remote O (List Session)
  pub revoke_session : String → Metadata → Remote O (Unit {0})
  pub revoke_all_other_sessions : String → Metadata → Remote O (Unit {0})

unfoldable pub with_bearer : String → Metadata
with_bearer token = some (λ key. if key == "authorization" then ("Bearer " <> token) ∷ [] else [])

module _ {O : Type 0} (svc : AccountService O) where
  unfoldable pub get_my_profile : String → Remote O Profile
  unfolding with_bearer
  get_my_profile token = svc.get_my_profile (with_bearer token)

  unfoldable pub update_my_profile : String → Option String → Option String → Remote O Profile
  unfolding with_bearer
  update_my_profile token name picture = svc.update_my_profile name picture (with_bearer token)

  unfoldable pub list_linked_providers : String → Remote O (List FederatedProviderInfo)
  unfolding with_bearer
  list_linked_providers token = svc.list_linked_providers (with_bearer token)

  unfoldable pub unlink_provider : String → String → Remote O (Unit {0})
  unfolding with_bearer
  unlink_provider token identity_id = svc.unlink_provider identity_id (with_bearer token)

  unfoldable pub list_active_sessions : String → Remote O (List Session)
  unfolding with_bearer
  list_active_sessions token = svc.list_active_sessions (with_bearer token)

  unfoldable pub revoke_session : String → String → Remote O (Unit {0})
  unfolding with_bearer
  revoke_session token session_id = svc.revoke_session session_id (with_bearer token)

  unfoldable pub revoke_all_other_sessions : String → String → Remote O (Unit {0})
  unfolding with_bearer
  revoke_all_other_sessions token current =
      svc.revoke_all_other_sessions current (with_bearer token)

unfoldable pub grpc_to_http : Option Code → ℕ × String
grpc_to_http none = (500, "internal")
grpc_to_http (some not_found) = (404, "not_found")
grpc_to_http (some invalid_argument) = (400, "invalid_argument")
grpc_to_http (some permission_denied) = (403, "forbidden")
grpc_to_http (some unauthenticated) = (401, "unauthorized")
grpc_to_http (some failed_precondition) = (409, "conflict")
grpc_to_http (some internal) = (500, "internal")

-- A call made by the backend, whose state it does not touch.
unfoldable pub call_accounts : {O A : Type 0} → Remote O A → Action (World Redis O) (Option Code) A
call_accounts m w = let (r, o) = m w.outside in (r, record w { outside = o })
