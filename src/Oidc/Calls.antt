-- ===== src/Oidc/Calls.antt =====
-- The calls of the repositories that write to the tables of the OpenID provider, one after the other
-- at any times. A statement may fail, as the faults of the world say.
use hss_science.Oidc.Domain.{AuthRequest, Token, RefreshToken}
use hss_science.Oidc.Tables.{OidcWorld}
use hss_science.Domerr.{Error}
use hss_science.Oidc.TokenRepo
use hss_science.Oidc.AuthRepo.{
  create_request, save_code, complete_login, delete_request, delete_expired_before,
}
use hss_science.Oidc.DeviceRepo.{find_or_create, revoke_by_id, delete_revoked_before}
use hss_science.Base.{[], ◌∷◌, String, Action, ℕ, List, ◌>>◌, pure}

-- The arguments of each call; those that the database fills in are left out.
pub data Call : Type 0 where
  create_auth_request : AuthRequest → Call
  save_auth_code : String → String → Call
  complete_auth_login : String → String → ℕ → List String → String → Call
  delete_auth_request : String → Call
  delete_auth_requests_before : ℕ → Call
  create_access_token : Token → Call
  create_both : Token → RefreshToken → String → Call
  delete_of_user_and_client : String → String → Call
  revoke_access : String → String → Call
  revoke_refresh : String → String → Call
  delete_expired_tokens : ℕ → Call
  find_or_create_session : String → String → String → String → String → Call
  revoke_session_by_id : String → String → Call
  delete_sessions_revoked_before : ℕ → Call

abbrev pub done : {A : Type 0} → Action OidcWorld Error A → Action OidcWorld Error (Unit {0})
done m = m >> pure tt

module _ (make_ulid : ℕ → String) where
  unfoldable pub perform : Call → Action OidcWorld Error (Unit {0})
  perform (create_auth_request ar) = create_request ar
  perform (save_auth_code id code) = save_code id code
  perform (complete_auth_login id user at amr session) = complete_login id user at amr session
  perform (delete_auth_request id) = delete_request id
  perform (delete_auth_requests_before before) = done (delete_expired_before before)
  perform (create_access_token access) = TokenRepo.create_access access
  perform (create_both access refresh current) =
      TokenRepo.create_access_and_refresh access refresh current
  perform (delete_of_user_and_client user client) = TokenRepo.delete_by_user_and_client user client
  perform (revoke_access id client) = TokenRepo.revoke id client
  perform (revoke_refresh hash client) = TokenRepo.revoke_refresh_token hash client
  perform (delete_expired_tokens before) = done (TokenRepo.delete_expired before)
  perform (find_or_create_session id user agent ip name) =
      done (find_or_create make_ulid id user agent ip name)
  perform (revoke_session_by_id id user) = revoke_by_id id user
  perform (delete_sessions_revoked_before before) = done (delete_revoked_before before)

  -- Each call at its time.
  unfoldable pub perform_all : List (ℕ × Call) → OidcWorld → OidcWorld
  unfolding perform
  perform_all [] w = w
  perform_all ((now, c) ∷ cs) w = perform_all cs (perform c (record w { clock = now })).1
