-- ===== src/Authn/Login.antt =====
-- What a login leaves behind, whatever the browser sends.
use text.Mathlib.TextPositions.{eq_refl}
use hss_science.Base.{
  ok, some, none, String, ◌≡◌, arith, Action, map_err, ℕ, List, [], ◌==◌, ◌∷◌, if◌then◌else◌,
  Option, gets, ◌>>=◌, pure, bind-eq-ok, map_err-eq-ok, true,
}
use hss_science.Base.Sql.Rows.{find, update}
use hss_science.Identity.Users.{User, UserWorld, FederatedClaims}
use hss_science.Identity.Service.{find_or_create_by_federated_login}
use hss_science.Oidc.Domain.{DeviceSession}
use hss_science.Oidc.Tables.{OidcWorld, session_id, nil_if_empty}
use hss_science.Oidc.AuthRepo.{complete_login, update_login, request_id, logged_in}
use hss_science.Oidc.Reuse.{Given, find_or_create-Given, find_or_create-fresh}
use hss_science.Authn.Device.{client_ip, parse_device_name}
use hss_science.Authn.Handler.{
  session_for, http_error, LoginWorld, Login, CallbackRequest, FederatedState, Response, redirect,
  accounts_of, oidc_of, with_accounts, with_oidc, on_accounts, on_oidc, find_or_create_user,
  finish_login, device_id, log_in_as, answer_login, log_in_on_device, log_in_user, device_session,
}
use hss_science.Base.Sql.{statement, mint}

module _ {O E A : Type 0} where
  on_accounts-eq-ok :
      (m : Action UserWorld E A) (w v : LoginWorld O) (a : A)
      → on_accounts m w ≡ (ok a, v)
      → (u : UserWorld) × (m (accounts_of w) ≡ (ok a, u)) × (v ≡ with_accounts w u)
  unfolding on_accounts
  on_accounts-eq-ok m w v a h = ((m (accounts_of w)).1, ground (arith, h), ground (arith, h))

  on_oidc-eq-ok :
      (m : Action OidcWorld E A) (w v : LoginWorld O) (a : A)
      → on_oidc m w ≡ (ok a, v)
      → (u : OidcWorld) × (m (oidc_of w) ≡ (ok a, u)) × (v ≡ with_oidc w u)
  unfolding on_oidc
  on_oidc-eq-ok m w v a h = ((m (oidc_of w)).1, ground (arith, h), ground (arith, h))

finish-eq-ok :
    (id user : String) (at : ℕ) (amr : List String) (session : String) (w v : OidcWorld)
    → complete_login id user at amr session w ≡ (ok tt, v)
    → (v.tables.auth_requests
        ≡ update
            (request_id id)
            (logged_in user at amr (nil_if_empty session))
            w.tables.auth_requests)
      × (v.tables.device_sessions ≡ w.tables.device_sessions)
unfolding complete_login update_login statement
finish-eq-ok id user at amr session w v h = (ground (arith, h), ground (arith, h))

-- What a login that answers with a redirect has done.
pub record LoggedInAs {O Token Key Block : Type 0} (h : Login O Token Key Block)
    (r : CallbackRequest) (state : FederatedState) (claims : FederatedClaims) (w v : LoginWorld O)
    (resp : Response) : Type 0 where
  pub user : User
  pub known : UserWorld
  pub ds : DeviceSession
  pub at : ℕ
  pub cookie : Option String
  pub identified :
      find_or_create_by_federated_login h.make_ulid state.provider claims (accounts_of w)
      ≡ (ok user, known)
  pub accounts : v.tables.accounts ≡ known.tables
  pub own : ds.user_id ≡ user.id
  pub active : ds.revoked_at ≡ none
  pub stored : find (session_id ds.id) v.tables.oidc.device_sessions ≡ some ds
  pub finished :
      v.tables.oidc.auth_requests
      ≡ update
          (request_id state.auth_request_id)
          (λ row. record row {
            user_id = some user.id;
            auth_time = some at;
            amr = "fed" ∷ [];
            is_done = true;
            device_session_id = nil_if_empty ds.id;
          })
          w.tables.oidc.auth_requests
  pub tokens : v.tables.oidc.refresh_tokens ≡ w.tables.oidc.refresh_tokens
  pub redirected : resp ≡ redirect (h.callback_url state.auth_request_id) cookie

module _ {O Token Key Block : Type 0} (h : Login O Token Key Block) (r : CallbackRequest)
    (state : FederatedState) where
  -- What the last step has done.
  record Answered (user : User) (id : String) (ds : DeviceSession) (w v : LoginWorld O)
      (resp : Response) : Type 0 where
    at : ℕ
    accounts : v.tables.accounts ≡ w.tables.accounts
    sessions : v.tables.oidc.device_sessions ≡ w.tables.oidc.device_sessions
    tokens : v.tables.oidc.refresh_tokens ≡ w.tables.oidc.refresh_tokens
    finished :
        v.tables.oidc.auth_requests
        ≡ update
            (request_id state.auth_request_id)
            (logged_in user.id at ("fed" ∷ []) (nil_if_empty ds.id))
            w.tables.oidc.auth_requests
    redirected :
        resp
        ≡ redirect (h.callback_url state.auth_request_id) (if ds.id == id then none else some ds.id)

  answer_login-Answered :
      (user : User) (id : String) (ds : DeviceSession) (w v : LoginWorld O) (resp : Response)
      → answer_login h state user id ds w ≡ (ok resp, v)
      → Answered user id ds w v resp
  unfolding answer_login finish_login on_oidc complete_login update_login statement map_err gets
      ◌>>=◌
  answer_login-Answered user id ds w v resp e = record {
    at = w.clock;
    accounts = ground (arith, e);
    sessions = ground (arith, e);
    tokens = ground (arith, e);
    finished = ground (arith, e);
    redirected = ground (arith, e);
  }

  log_in_on_device-Answered :
      (user : User) (id : String) (w v : LoginWorld O) (resp : Response)
      → log_in_on_device h r state user id w ≡ (ok resp, v)
      → (ds : DeviceSession) × (x : LoginWorld O) × (u : OidcWorld) × Given user.id ds (oidc_of w) u
        × (x ≡ with_oidc w u)
        × Answered user id ds x v resp
  unfolding log_in_on_device device_session
  log_in_on_device-Answered user id w v resp e =
      let (ds, x, got, e1) =
        bind-eq-ok (device_session h r user id) (answer_login h state user id) w e in
      let (u, ran, left) =
        on_oidc-eq-ok (session_for h r user id) w x ds (
          map_err-eq-ok (λ _. http_error 500 none) (on_oidc (session_for h r user id)) w x ds
            got) in
      (
        ds,
        x,
        u,
        find_or_create-Given h.make_ulid id user.id r.user_agent
            (client_ip h.split_host_port r.connecting_ip r.remote_addr)
            (parse_device_name r.user_agent) (oidc_of w) u ds ran,
        left,
        answer_login-Answered user id ds x v resp e1,
      )

  device_id-keeps :
      (w x : LoginWorld O) (id : String)
      → device_id h r.device_cookie w ≡ (ok id, x)
      → x.tables ≡ w.tables
  unfolding device_id mint pure
  device_id-keeps w x id e = ground (arith, e)

  -- A login that answers with a redirect has found or made the account of the provider's claims; the
  -- auth request of the sealed state is done for that account, with a device session that is the
  -- account's own and not revoked, whatever device id the browser sent; every other auth request and
  -- every refresh token is as before; and the browser goes back to that auth request.
  pub log_in-LoggedInAs :
      (claims : FederatedClaims) (w v : LoginWorld O) (resp : Response)
      → log_in_as h r state claims w ≡ (ok resp, v)
      → LoggedInAs h r state claims w v resp
  unfolding log_in_as log_in_user find_or_create_user
  log_in-LoggedInAs claims w v resp e =
      let (user, w1, found, e1) =
        bind-eq-ok
          (map_err (λ _. http_error 500 none) (find_or_create_user h state.provider claims))
          (log_in_user h r state) w e in
      let (known, identified, left1) =
        on_accounts-eq-ok (find_or_create_by_federated_login h.make_ulid state.provider claims) w w1
          user
          (map_err-eq-ok (λ _. http_error 500 none) (find_or_create_user h state.provider claims) w
            w1 user found) in
      let (id, w2, given, e2) =
        bind-eq-ok (device_id h r.device_cookie) (log_in_on_device h r state user) w1 e1 in
      let same = device_id-keeps w1 w2 id given in
      let (ds, x, u, g, left2, a) = log_in_on_device-Answered user id w2 v resp e2 in
      record {
        user = user;
        known = known;
        ds = ds;
        at = a.at;
        cookie = if ds.id == id then none else some ds.id;
        identified = identified;
        accounts = ground (arith, a.accounts, left2, same, left1);
        own = g.own;
        active = g.active;
        stored = ground (arith, a.sessions, left2, g.stored);
        finished = ground (arith, a.finished, left2, g.requests, same, left1);
        tokens = ground (arith, a.tokens, left2, g.tokens, same, left1);
        redirected = a.redirected;
      }

  device_id-minted :
      (w x : LoginWorld O) (id : String)
      → r.device_cookie ≡ none
      → device_id h r.device_cookie w ≡ (ok id, x)
      → id ≡ h.make_ulid w.minted
  unfolding device_id mint pure
  device_id-minted w x id absent e = ground (arith, rw absent at e)

  -- A browser that sends no device id is not told the one that its login was given: where no session
  -- has an id of the generator, a login that answers with a redirect sets no cookie.
  pub new_device_untold :
      (claims : FederatedClaims) (w v : LoginWorld O) (resp : Response)
      → r.device_cookie ≡ none
      → ((n : ℕ) → find (session_id (h.make_ulid n)) w.tables.oidc.device_sessions ≡ none)
      → log_in_as h r state claims w ≡ (ok resp, v)
      → resp.set_cookie ≡ none
  unfolding log_in_as log_in_user find_or_create_user log_in_on_device device_session
  new_device_untold claims w v resp absent fresh e =
      let (user, w1, found, e1) =
        bind-eq-ok
          (map_err (λ _. http_error 500 none) (find_or_create_user h state.provider claims))
          (log_in_user h r state) w e in
      let (known, _, left1) =
        on_accounts-eq-ok (find_or_create_by_federated_login h.make_ulid state.provider claims) w w1
          user
          (map_err-eq-ok (λ _. http_error 500 none) (find_or_create_user h state.provider claims) w
            w1 user found) in
      let (id, w2, given, e2) =
        bind-eq-ok (device_id h r.device_cookie) (log_in_on_device h r state user) w1 e1 in
      let same = device_id-keeps w1 w2 id given in
      let minted = device_id-minted w1 w2 id absent given in
      let (ds, x, got, e3) =
        bind-eq-ok (device_session h r user id) (answer_login h state user id) w2 e2 in
      let (u, ran, left2) = on_oidc-eq-ok (session_for h r user id) w2 x ds (
        map_err-eq-ok (λ _. http_error 500 none) (on_oidc (session_for h r user id)) w2 x ds got) in
      let unknown : find (session_id id) w2.tables.oidc.device_sessions ≡ none =
        ground (arith, same, left1, minted, fresh w1.minted) in
      let kept =
        find_or_create-fresh h.make_ulid id user.id r.user_agent
          (client_ip h.split_host_port r.connecting_ip r.remote_addr)
          (parse_device_name r.user_agent) (oidc_of w2) u ds unknown ran in
      let a = answer_login-Answered user id ds x v resp e3 in
      ground (arith, a.redirected, kept, eq_refl id)
