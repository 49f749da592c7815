-- ===== src/Oidc/Adapter.antt =====
-- The storage that the OpenID library calls (internal/oidc/adapter/storage.go, authrequest.go,
-- refreshtoken.go, userinfo.go). The library's errors are those that the code makes: a code with a
-- description. The source of user claims, an interface, is a parameter. A request of the library to
-- issue tokens is one of the three types that the code tells apart.
use hss_science.Base.{
  ℕ, String, Bool, false, ◌+◌, ◌&&◌, ◌==◌, Option, none, some, List, [], ◌∷◌, Action, pure, fail,
  gets, ◌>>=◌, ◌>>◌, handle, map_err, if◌then◌else◌,
}
use hss_science.Base.{ltb}
use hss_science.Base.Int.{ℤ, pos}
use hss_science.Base.Sql.{mint}
use hss_science.Domerr.{Error, is_not_found, is_unauthorized}
use hss_science.Oidc.Domain.{AuthRequest, Client, RefreshToken}
use hss_science.Oidc.Tables.{OidcWorld}
use hss_science.Oidc.AuthRepo.{create_request, save_code, delete_request, client_by_id}
use hss_science.Oidc.TokenRepo.{delete_by_user_and_client, revoke, get_latest_device_session_id}
use hss_science.Oidc.Services.{
  Generators, Grant, live_request_by_id, live_request_by_code, client_credentials, authorize_secret,
  issue_access, issue_access_and_refresh, refresh_token_of, refresh_info_of, revoke_refresh_of,
}

pub data OidcError : Type 0 where
  invalid_request invalid_client : String → OidcError
  invalid_refresh_token server_error : OidcError

-- `internalErr`
abbrev pub internal_err : Error → OidcError
internal_err e = server_error

-- `if errors.Is(err, domerr.ErrNotFound) { return ... }; return internalErr(...)`
unfoldable pub unless_missing : OidcError → Error → OidcError
unless_missing missing e = if is_not_found e then missing else internal_err e

-- What the library asks for, as far as the code reads it.
pub record AuthQuery : Type 0 where
  pub client_id : String
  pub redirect_uri : String
  pub state : String
  pub nonce : String
  pub scopes : List String
  pub response_type : String
  pub response_mode : String
  pub code_challenge : String
  pub code_challenge_method : String
  pub prompt : List String
  pub max_age : Option ℕ
  pub login_hint : String

-- `int64(min(*authReq.MaxAge, uint(math.MaxInt64)))`
abbrev pub seconds_of : Option ℕ → Option ℤ
seconds_of none = none
seconds_of (some n) =
    some (pos (if ltb n 9_223_372_036_854_775_807 then n else 9_223_372_036_854_775_807))

unfoldable pub requested : AuthQuery → String → String → AuthRequest
requested q id user = record {
  id = id;
  client_id = q.client_id;
  redirect_uri = q.redirect_uri;
  state = q.state;
  nonce = q.nonce;
  scopes = q.scopes;
  response_type = q.response_type;
  response_mode = q.response_mode;
  code_challenge = q.code_challenge;
  code_challenge_method = q.code_challenge_method;
  prompt = q.prompt;
  max_age = seconds_of q.max_age;
  login_hint = q.login_hint;
  user_id = user;
  auth_time = 0;
  amr = [];
  is_done = false;
  code = "";
  created_at = 0;
  device_session_id = "";
}

unfoldable pub is_public_client : String → Bool
is_public_client auth_method = auth_method == "none"

-- `clientCredentialsTokenRequest`, and the two requests of authrequest.go and refreshtoken.go; the
-- scopes of a refresh request may be set anew.
pub data TokenRequest : Type 0 where
  of_auth_request : AuthRequest → TokenRequest
  of_refresh_token : RefreshToken → List String → TokenRequest
  of_client_credentials : String → List String → TokenRequest

-- `clientIDFromRequest`, `GetSubject`, `GetAudience`, `GetScopes`, `extractAuthTimeAMR` and
-- `extractDeviceSessionID`: only an auth request has the last.
unfoldable pub grant_of : TokenRequest → Grant
grant_of (of_auth_request ar) = record {
  client_id = ar.client_id;
  subject = ar.user_id;
  audience = ar.client_id ∷ [];
  scopes = ar.scopes;
  auth_time = ar.auth_time;
  amr = ar.amr;
  device_session_id = ar.device_session_id;
}
grant_of (of_refresh_token rt scopes) = record {
  client_id = rt.client_id;
  subject = rt.user_id;
  audience = rt.audience;
  scopes = scopes;
  auth_time = rt.auth_time;
  amr = rt.amr;
  device_session_id = "";
}
grant_of (of_client_credentials client scopes) = record {
  client_id = client;
  subject = client;
  audience = client ∷ [];
  scopes = scopes;
  auth_time = 0;
  amr = [];
  device_session_id = "";
}

pub record Lifetimes : Type 0 where
  pub auth_request_ttl : ℕ
  pub access_ttl : ℕ
  pub refresh_ttl : ℕ

module _ (gen : Generators) (ttl : Lifetimes) where
  -- `isPublicClient(client.AuthMethod) && ar.CodeChallenge == ""`
  abbrev pub lacks_challenge : AuthQuery → Client → Bool
  lacks_challenge q c = is_public_client c.auth_method && (q.code_challenge == "")

  -- A client that cannot be read passes the test.
  unfoldable pub check_challenge : AuthQuery → Action OidcWorld OidcError (Unit {0})
  unfolding is_public_client
  check_challenge q =
      handle (client_by_id q.client_id)
        (λ c.
          if lacks_challenge q c
          then fail (invalid_request "code_challenge is required for public clients (PKCE S256)")
          else pure tt)
        (λ e. pure tt)

  unfoldable pub create_auth_request : AuthQuery → String → Action OidcWorld OidcError AuthRequest
  unfolding requested check_challenge
  create_auth_request q user = do
    id ← mint gen.new_id
    check_challenge q
    map_err internal_err (create_request (requested q id user))
    pure (requested q id user)

  unfoldable pub auth_request_by_id : String → Action OidcWorld OidcError AuthRequest
  unfolding unless_missing
  auth_request_by_id id =
      map_err (unless_missing (invalid_request "auth request not found"))
        (live_request_by_id ttl.auth_request_ttl id)

  unfoldable pub auth_request_by_code : String → Action OidcWorld OidcError AuthRequest
  unfolding unless_missing
  auth_request_by_code code =
      map_err (unless_missing (invalid_request "auth request not found for code"))
        (live_request_by_code ttl.auth_request_ttl code)

  unfoldable pub save_auth_code : String → String → Action OidcWorld OidcError (Unit {0})
  save_auth_code id code = map_err internal_err (save_code id code)

  unfoldable pub delete_auth_request : String → Action OidcWorld OidcError (Unit {0})
  delete_auth_request id = map_err internal_err (delete_request id)

  unfoldable pub create_access_token : TokenRequest → Action OidcWorld OidcError (String × ℕ)
  unfolding grant_of
  create_access_token request = do
    now ← gets (λ w. w.clock)
    id ← map_err internal_err (issue_access gen (grant_of request) (now + ttl.access_ttl))
    pure (id, now + ttl.access_ttl)

  -- The access token's id, the refresh token and the access token's expiration.
  unfoldable pub create_access_and_refresh_tokens :
      TokenRequest → String → Action OidcWorld OidcError (String × String × ℕ)
  unfolding grant_of unless_missing
  create_access_and_refresh_tokens request current = do
    now ← gets (λ w. w.clock)
    (access_id, refresh_token) ← map_err (unless_missing invalid_refresh_token) (
        issue_access_and_refresh gen (grant_of request) (now + ttl.access_ttl)
          (now + ttl.refresh_ttl) current)
    pure (access_id, refresh_token, now + ttl.access_ttl)

  -- `NewRefreshTokenRequest`
  unfoldable pub token_request_by_refresh_token : String → Action OidcWorld OidcError TokenRequest
  unfolding unless_missing
  token_request_by_refresh_token raw = do
    rt ← map_err (unless_missing invalid_refresh_token) (refresh_token_of gen raw)
    pure (of_refresh_token rt rt.scopes)

  unfoldable pub terminate_session : String → String → Action OidcWorld OidcError (Unit {0})
  terminate_session user client = map_err internal_err (delete_by_user_and_client user client)

  -- A refresh token where `GetRefreshTokenInfo` found its user, else an access token's id.
  unfoldable pub revoke_token : String → String → String → Action OidcWorld OidcError (Unit {0})
  unfolding unless_missing
  revoke_token token user client =
      map_err (unless_missing (invalid_request "token not found"))
        (if user == "" then revoke token client else revoke_refresh_of gen token client)

  unfoldable pub get_refresh_token_info : String → Action OidcWorld OidcError (String × String)
  unfolding unless_missing
  get_refresh_token_info token =
      map_err (unless_missing invalid_refresh_token) (refresh_info_of gen token)

  -- The private claim `dsid`, where there is one; a failure is no error.
  unfoldable pub get_private_claims : String → String → Action OidcWorld OidcError (Option String)
  get_private_claims user client =
      handle (get_latest_device_session_id user client)
        (λ dsid. if dsid == "" then pure none else pure (some dsid)) (λ e. pure none)

-- `ErrNotFound`, then `ErrUnauthorized`
unfoldable pub client_error : Error → OidcError
client_error e =
    if is_not_found e
    then invalid_client "client not found"
    else (if is_unauthorized e then invalid_client "invalid client secret" else internal_err e)

module _ (compare : String → String → Bool) where
  unfoldable pub get_client_by_client_id : String → Action OidcWorld OidcError Client
  unfolding unless_missing
  get_client_by_client_id id =
      map_err (unless_missing (invalid_client "client not found")) (client_by_id id)

  unfoldable pub authorize_client_id_secret :
      String → String → Action OidcWorld OidcError (Unit {0})
  unfolding client_error
  authorize_client_id_secret id secret = map_err client_error (authorize_secret compare id secret)

  unfoldable pub adapter_client_credentials : String → String → Action OidcWorld OidcError Client
  unfolding client_error
  adapter_client_credentials id secret = map_err client_error (client_credentials compare id secret)
