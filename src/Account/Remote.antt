-- ===== src/Account/Remote.antt =====
-- The account service behind its interceptor, as the interface that the backend calls
-- (server set-up in identity-service/main.go and internal/grpc). And the whole way from the backend to
-- the tables.
use hss_science.Base.{
  String, none, some, List, Bool, ℕ, ok, err, map_err, ◌≢◌, [], ◌≡◌, arith, refl, Action, eq_iff,
}
use hss_science.Base.Sql.{World}
use hss_science.Base.Sql.Rows.{find}
use hss_science.Grpc.{Code}
use hss_science.Blob.Interceptor.{Metadata}
use hss_science.Account.Handler
use hss_science.Account.Interceptor.{PublicKey, Jose, jwt_auth}
use hss_science.Account.SignOut.{elsewhere, revoke_all_others_ends}
use hss_science.Authn.Handler.{LoginWorld, on_accounts, on_oidc, oidc_of, with_oidc}
use hss_science.Bff.Sessions.{Session, Redis}
use hss_science.Bff.Accounts
use hss_science.Bff.Accounts.{AccountService, Remote, with_bearer, grpc_to_http, call_accounts}
use hss_science.Bff.Pages.{revoke_all_others}

-- `locks` is whether the database locks aggregates, `unix` the second of an instant.
module _ {O Jws K Payload : Type 0} (jose : Jose Jws K Payload) (keys : List (PublicKey K))
    (issuer : String) (unix : ℕ → ℕ) (locks : Bool) where
  -- The handler runs with the user, or not at all.
  unfoldable pub intercepted :
      {A : Type 0} → (String → Action (LoginWorld O) Code A) → Metadata → Remote (LoginWorld O) A
  intercepted handler md w = elim (jwt_auth jose keys issuer (unix w.clock) md) [
    | err c ↦ (err (some c), w)
    | ok user ↦ map_err (λ c. some c) (handler user) w
  ]

  unfoldable pub account_service : AccountService (LoginWorld O)
  unfolding intercepted
  account_service = record {
    get_my_profile = λ md. intercepted (λ user. on_accounts (Handler.get_my_profile user)) md;
    update_my_profile = λ name picture md.
        intercepted (λ user. on_accounts (Handler.update_my_profile user name picture)) md;
    list_linked_providers =
        λ md. intercepted (λ user. on_accounts (Handler.my_linked_providers user)) md;
    unlink_provider =
        λ id md. intercepted (λ user. on_accounts (Handler.unlink_my_provider locks user id)) md;
    list_active_sessions =
        λ md. intercepted (λ user. on_oidc (Handler.list_active_sessions user)) md;
    revoke_session = λ id md. intercepted (λ user. on_oidc (Handler.revoke_session user id)) md;
    revoke_all_other_sessions = λ current md.
        intercepted (λ user. on_oidc (Handler.revoke_all_other_sessions user current)) md;
  }

  -- What the page asks for is done in the tables: for a browser session whose access token is good
  -- for `user`, with a database that answers, signing out everywhere else succeeds, leaves the store
  -- of browser sessions as it is, and leaves the user no active device session but that of the
  -- browser session.
  pub sign_out_elsewhere :
      (format : ℕ → String) (sess : Session) (user : String) (w : World Redis (LoginWorld O))
      → sess.device_session_id ≢ ""
      → jwt_auth jose keys issuer (unix w.outside.clock) (with_bearer sess.access_token) ≡ ok user
      → w.outside.faults ≡ []
      → (v : World Redis (LoginWorld O)) × (revoke_all_others account_service format sess w
          ≡ (ok tt, v))
        × (v.tables ≡ w.tables)
        × (find (elsewhere user sess.device_session_id) v.outside.tables.oidc.device_sessions
            ≡ none)
  unfolding revoke_all_others account_service intercepted Accounts.revoke_all_other_sessions
      call_accounts on_oidc map_err
  sign_out_elsewhere format sess user w known good calm =
      let (x, done, rest, _, _) =
        revoke_all_others_ends user sess.device_session_id (oidc_of w.outside) calm in
      (
        record w { outside = with_oidc w.outside x },
        ground (arith, known, good, done, eq_iff sess.device_session_id ""),
        refl,
        rest,
      )
