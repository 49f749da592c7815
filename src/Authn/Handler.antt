-- ===== src/Authn/Handler.antt =====
-- The HTTP handlers of the login (internal/authn/handler.go, login_usecase.go). A handler returns its
-- response, early with `fail`. Sealing, the encoding of the state, the providers' OAuth 2.0 client,
-- and the template are parameters.
use hss_science.Base.{
  String, Option, none, some, on_row, List, map_err, pure, fail, gets, ok, err, map, ℕ, [], ◌>>=◌,
  ◌>>◌, ◌==◌, ◌||◌, ◌∷◌, if◌then◌else◌, Action,
}
use hss_science.Base.Sql.{World, call_outside, mint}
use hss_science.Domerr.{Error}
use hss_science.Identity.Users.{User, UserDb, UserWorld, FederatedClaims}
use hss_science.Identity.Service.{find_or_create_by_federated_login}
use hss_science.Oidc.Domain.{DeviceSession}
use hss_science.Oidc.Tables.{Db, OidcWorld}
use hss_science.Oidc.DeviceRepo.{find_or_create}
use hss_science.Oidc.AuthRepo.{complete_login}
use hss_science.Authn.Cipher.{Bytes, Primitives, encrypt, decrypt}
use hss_science.Authn.Device.{client_ip, parse_device_name}
use hss_science.Authn.Providers.{Provider, OAuth2Config, Outside}

-- Both sets of tables. The users that the foreign keys of `oidc` refer to are those of `accounts`.
pub record Tables : Type 0 where
  pub accounts : UserDb
  pub oidc : Db

abbrev pub LoginWorld : Type 0 → Type 0
LoginWorld O = World Tables O

-- The part of the world that one set of tables is.
abbrev pub accounts_of : {O : Type 0} → LoginWorld O → UserWorld
accounts_of w = record {
  tables = w.tables.accounts;
  outside = tt;
  faults = w.faults;
  clock = w.clock;
  minted = w.minted;
}

abbrev pub oidc_of : {O : Type 0} → LoginWorld O → OidcWorld
oidc_of w = record {
  tables = record (w.tables.oidc) { users = map (λ u. u.id) w.tables.accounts.users };
  outside = tt;
  faults = w.faults;
  clock = w.clock;
  minted = w.minted;
}

abbrev pub with_accounts : {O : Type 0} → LoginWorld O → UserWorld → LoginWorld O
with_accounts w v = record w {
  tables = record (w.tables) { accounts = v.tables };
  faults = v.faults;
  clock = v.clock;
  minted = v.minted;
}

abbrev pub with_oidc : {O : Type 0} → LoginWorld O → OidcWorld → LoginWorld O
with_oidc w v = record w {
  tables = record (w.tables) { oidc = v.tables };
  faults = v.faults;
  clock = v.clock;
  minted = v.minted;
}

module _ {O E A : Type 0} where
  unfoldable pub on_accounts : Action UserWorld E A → Action (LoginWorld O) E A
  on_accounts m w = let (r, v) = m (accounts_of w) in (r, with_accounts w v)

  unfoldable pub on_oidc : Action OidcWorld E A → Action (LoginWorld O) E A
  on_oidc m w = let (r, v) = m (oidc_of w) in (r, with_oidc w v)

  -- A call of a provider, whose error becomes `e`.
  unfoldable pub on_outside : E → Outside O A → Action (LoginWorld O) E A
  on_outside e m w =
      let (r, o) = m w.outside in (elim r [ ok a ↦ ok a | err _ ↦ err e ], record w { outside = o })

pub record Response : Type 0 where
  pub status : ℕ
  pub location : Option String
  pub set_cookie : Option String

abbrev pub http_error : ℕ → Option String → Response
http_error status cookie = record { status = status; location = none; set_cookie = cookie }

abbrev pub redirect : String → Option String → Response
redirect url cookie = record { status = 302; location = some url; set_cookie = cookie }

pub record FederatedState : Type 0 where
  pub auth_request_id : String
  pub provider : String
  pub nonce : String

-- What the handler was made with, and what it calls outside of the repository.
pub record Login (O Token Key Block : Type 0) : Type 0 where
  pub providers : List (Provider O Token)
  pub marshal : FederatedState → Option Bytes
  pub unmarshal : Bytes → Option FederatedState
  pub prim : Primitives Key Block
  pub key : Key
  pub random : O → (ℕ → Option Bytes) × O
  pub auth_code_url : OAuth2Config → String → String
  pub exchange : OAuth2Config → String → Outside O Token
  pub callback_url : String → String
  pub split_host_port : String → Option String
  pub make_ulid : ℕ → String
  pub make_uuid : ℕ → String

-- `providerMap[name]`: the map that `NewHandler` fills in order.
unfoldable pub provider_named :
    {O Token : Type 0} → String → List (Provider O Token) → Option (Provider O Token)
provider_named name [] = none
provider_named name (p ∷ ps) =
    on_row (provider_named name ps) (if p.name == name then some p else none) (λ later. some later)

module _ {O Token Key Block : Type 0} (h : Login O Token Key Block) where
  -- The page, with the authorization request and the names of the providers.
  unfoldable pub select_provider :
      String
      → Option String
      → (String → List (Provider O Token) → Option String)
      → Action (LoginWorld O) Response (Response × String)
  select_provider auth_request_id device_cookie template =
      if auth_request_id == "" then fail (http_error 400 none) else do
        cookie ← on_row device_cookie (do id ← mint h.make_ulid; pure (some id)) (λ _. pure none)
        page ←
            on_row (template auth_request_id h.providers) (fail (http_error 500 cookie))
              (λ page. pure page)
        pure (record { status = 200; location = none; set_cookie = cookie }, page)

  unfoldable pub encrypt_state : FederatedState → Action (LoginWorld O) Response String
  unfolding encrypt
  encrypt_state state = on_row (h.marshal state) (fail (http_error 500 none)) (λ plaintext.
      call_outside (http_error 500 none)
        (λ o. let (fill, o1) = h.random o in (encrypt h.prim fill h.key plaintext, o1)))

  unfoldable pub decrypt_state : String → Option FederatedState
  unfolding decrypt
  decrypt_state encoded =
      on_row (decrypt h.prim h.key encoded) none (λ plaintext. h.unmarshal plaintext)

  -- The redirect to the provider that the form names, if it is known.
  unfoldable pub send_to :
      Option (Provider O Token) → String → String → Action (LoginWorld O) Response Response
  unfolding encrypt_state
  send_to none auth_request_id name = fail (http_error 400 none)
  send_to (some provider) auth_request_id name = do
    nonce ← mint h.make_uuid
    sealed ←
        encrypt_state (record { auth_request_id = auth_request_id; provider = name; nonce = nonce })
    pure (redirect (h.auth_code_url provider.oauth2_config sealed) none)

  -- `form` is the parsed form, `none` where it does not parse.
  unfoldable pub federated_redirect :
      Option (String × String) → Action (LoginWorld O) Response Response
  unfolding send_to provider_named
  federated_redirect none = fail (http_error 400 none)
  federated_redirect (some (auth_request_id, name)) =
      if auth_request_id == "" || name == ""
      then fail (http_error 400 none)
      else send_to (provider_named name h.providers) auth_request_id name

pub record CallbackRequest : Type 0 where
  pub code : String
  pub state : String
  pub device_cookie : Option String
  pub user_agent : String
  pub connecting_ip : String
  pub remote_addr : String

module _ {O Token Key Block : Type 0} (h : Login O Token Key Block) where
  unfoldable pub find_or_create_user : String → FederatedClaims → Action (LoginWorld O) Error User
  unfolding on_accounts
  find_or_create_user provider claims =
      on_accounts (find_or_create_by_federated_login h.make_ulid provider claims)

  unfoldable pub finish_login : String → String → String → Action (LoginWorld O) Error (Unit {0})
  unfolding on_oidc
  finish_login auth_request_id user device_session_id = do
    auth_time ← gets (λ w. w.clock)
    on_oidc (complete_login auth_request_id user auth_time ("fed" ∷ []) device_session_id)

  -- `dsID`: the cookie's value, or a fresh id where there is none.
  unfoldable pub device_id : Option String → Action (LoginWorld O) Response String
  device_id device_cookie =
      let given = on_row device_cookie "" (λ value. value) in
      if given == "" then mint h.make_ulid else pure given

  -- The callback once the device session is known: the cookie, the completion and the redirect.
  unfoldable pub answer_login :
      FederatedState → User → String → DeviceSession → Action (LoginWorld O) Response Response
  unfolding finish_login
  answer_login state user id ds =
      let cookie = if ds.id == id then none else some ds.id in
      do
        map_err (λ _. http_error 500 cookie) (finish_login state.auth_request_id user.id ds.id)
        pure (redirect (h.callback_url state.auth_request_id) cookie)

  -- `FindOrCreate`, with what the request says of its device.
  abbrev pub session_for : CallbackRequest → User → String → Action OidcWorld Error DeviceSession
  session_for r user id =
      find_or_create h.make_ulid id user.id r.user_agent
        (client_ip h.split_host_port r.connecting_ip r.remote_addr) (parse_device_name r.user_agent)

  -- The device session that the handler asks for under the id `id`.
  unfoldable pub device_session :
      CallbackRequest → User → String → Action (LoginWorld O) Response DeviceSession
  unfolding on_oidc
  device_session r user id = map_err (λ _. http_error 500 none) (on_oidc (session_for r user id))

  unfoldable pub log_in_on_device :
      CallbackRequest → FederatedState → User → String → Action (LoginWorld O) Response Response
  unfolding device_session answer_login
  log_in_on_device r state user id = do ds ← device_session r user id; answer_login state user id ds

  unfoldable pub log_in_user :
      CallbackRequest → FederatedState → User → Action (LoginWorld O) Response Response
  unfolding device_id log_in_on_device
  log_in_user r state user = do id ← device_id r.device_cookie; log_in_on_device r state user id

  -- The callback, once the provider's claims are known.
  unfoldable pub log_in_as :
      CallbackRequest → FederatedState → FederatedClaims → Action (LoginWorld O) Response Response
  unfolding find_or_create_user log_in_user
  log_in_as r state claims = do
    user ← map_err (λ _. http_error 500 none) (find_or_create_user state.provider claims)
    log_in_user r state user

  unfoldable pub federated_callback : CallbackRequest → Action (LoginWorld O) Response Response
  unfolding decrypt_state provider_named on_outside log_in_as
  federated_callback r =
      if r.code == "" || r.state == ""
      then fail (http_error 400 none)
      else on_row (decrypt_state h r.state) (fail (http_error 400 none)) (λ state.
        on_row (provider_named state.provider h.providers) (fail (http_error 400 none)) (λ provider.
          do
            token ← on_outside (http_error 500 none) (h.exchange provider.oauth2_config r.code)
            claims ← on_outside (http_error 500 none) (provider.fetch_claims token)
            log_in_as r state claims))
