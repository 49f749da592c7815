-- ===== src/Oidc/Integrity.antt =====
-- What every call of the repositories keeps true of the tables of the OpenID provider.
use hss_science.Oidc.Domain.{AuthRequest, Token, RefreshToken, DeviceSession}
use hss_science.Oidc.Tables.{
  OidcWorld, TokenRow, RefreshRow, insert_token, insert_refresh, nil_if_empty, insert_session,
}
use hss_science.Domerr.{Error, other}
use hss_science.Oidc.TokenRepo
use hss_science.Oidc.AuthRepo.{
  create_request, save_code, complete_login, delete_request, delete_expired_before, request_row,
}
use hss_science.Oidc.DeviceRepo.{
  find_or_create, reuse_or_create, create, reuse, revoke_by_id, revoke_body, delete_revoked_before,
}
use hss_science.Oidc.Schema.{
  IsSound, insert_token-IsSound, delete_tokens-IsSound, insert_refresh-IsSound,
  delete_refreshes-IsSound, insert_session-IsSound, touch_session-IsSound, refresh_session-IsSound,
  revoke_session-IsSound,
}
use hss_science.Oidc.References.{
  insert_request-IsSound, save_code-IsSound, update_login-IsSound, delete_requests-IsSound,
  delete_sessions-IsSound,
}
use hss_science.Base.Sql.Keeps.{
  Keeps, Keeps-bind, Keeps-statement, Keeps-gets, Keeps-pure, Keeps-transaction, keeps_rules,
}
use hss_science.Base.{[], ◌∷◌, String, Action, ℕ, Option, List, Bool, refl}
use hss_science.Base.Sql.{statement}
use mathlib.Core.Option.{none, some}
use hss_science.Oidc.Calls.{
  find_or_create_session, revoke_session_by_id, delete_sessions_revoked_before,
  delete_expired_tokens, revoke_refresh, revoke_access, delete_of_user_and_client, create_both,
  create_access_token, delete_auth_requests_before, delete_auth_request, complete_auth_login,
  save_auth_code, create_auth_request, Call, done, perform, perform_all,
}

insert_token-Keeps :
    (row : TokenRow) → Keeps IsSound (statement {O = Unit {0}} other (insert_token row))
insert_token-Keeps row = Keeps-statement _ _ (insert_token-IsSound row)

delete_tokens-Keeps :
    (p : TokenRow → Bool)
    → Keeps IsSound (statement {O = Unit {0}} other (TokenRepo.delete_tokens p))
delete_tokens-Keeps p = Keeps-statement _ _ (delete_tokens-IsSound p)

delete_refreshes-Keeps :
    (p : RefreshRow → Bool)
    → Keeps IsSound (statement {O = Unit {0}} other (TokenRepo.delete_refresh_tokens p))
delete_refreshes-Keeps p = Keeps-statement _ _ (delete_refreshes-IsSound p)

insert_refresh-Keeps :
    (row : RefreshRow) → Keeps IsSound (statement {O = Unit {0}} other (insert_refresh row))
insert_refresh-Keeps row = Keeps-statement _ _ (insert_refresh-IsSound row)

touch_session-Keeps :
    (now : ℕ) (id : String)
    → Keeps IsSound (statement {O = Unit {0}} other (TokenRepo.touch_session now id))
touch_session-Keeps now id = Keeps-statement _ _ (touch_session-IsSound now id)

ruleset table_rules = (
  keeps_rules, insert_token-Keeps, delete_tokens-Keeps, delete_refreshes-Keeps,
  insert_refresh-Keeps, touch_session-Keeps,
)

create_access-Keeps : (access : Token) → Keeps IsSound (TokenRepo.create_access access)
unfolding TokenRepo.create_access
create_access-Keeps access = search table_rules

revoke_old-Keeps : (old : Option RefreshRow) → Keeps IsSound (TokenRepo.revoke_old_access old)
unfolding TokenRepo.revoke_old_access
revoke_old-Keeps old = search table_rules depth 8

use_up-Keeps :
    (refresh : RefreshToken) (current : String) (now : ℕ)
    → Keeps IsSound (TokenRepo.use_up refresh current now)
unfolding TokenRepo.use_up
use_up-Keeps refresh current now = search (table_rules, revoke_old-Keeps) depth 12

store_pair-Keeps :
    (access : Token) (refresh : RefreshToken) (now : ℕ)
    → Keeps IsSound (TokenRepo.store_pair access refresh now)
unfolding TokenRepo.store_pair
store_pair-Keeps access refresh now = search table_rules depth 8

create_both-Keeps :
    (access : Token) (refresh : RefreshToken) (current : String)
    → Keeps IsSound (TokenRepo.create_access_and_refresh access refresh current)
unfolding TokenRepo.create_access_and_refresh TokenRepo.rotate
create_both-Keeps access refresh current =
    search (table_rules, use_up-Keeps, store_pair-Keeps) depth 8

delete_by_user_and_client-Keeps :
    (user client : String) → Keeps IsSound (TokenRepo.delete_by_user_and_client user client)
unfolding TokenRepo.delete_by_user_and_client
delete_by_user_and_client-Keeps user client = search table_rules depth 8

revoke-Keeps : (id client : String) → Keeps IsSound (TokenRepo.revoke id client)
unfolding TokenRepo.revoke
revoke-Keeps id client = search table_rules depth 8

revoke_refresh-Keeps :
    (hash client : String) → Keeps IsSound (TokenRepo.revoke_refresh_token hash client)
unfolding TokenRepo.revoke_refresh_token
revoke_refresh-Keeps hash client = search table_rules depth 8

delete_expired-Keeps : (before : ℕ) → Keeps IsSound (TokenRepo.delete_expired before)
unfolding TokenRepo.delete_expired
delete_expired-Keeps before = search table_rules depth 8

create_request-Keeps : (ar : AuthRequest) → Keeps IsSound (create_request ar)
unfolding create_request request_row
create_request-Keeps ar = Keeps-bind _ _ (Keeps-gets _) λ now. Keeps-statement _ _ λ db.
    insert_request-IsSound (request_row ar now) db (record { login = (refl, refl); unbound = refl })

save_code-Keeps : (id code : String) → Keeps IsSound (save_code id code)
unfolding save_code
save_code-Keeps id code = Keeps-statement _ _ (save_code-IsSound id code)

complete_login-Keeps :
    (id user : String) (at : ℕ) (amr : List String) (session : String)
    → Keeps IsSound (complete_login id user at amr session)
unfolding complete_login
complete_login-Keeps id user at amr session =
    Keeps-statement _ _ (update_login-IsSound id user at amr (nil_if_empty session))

delete_request-Keeps : (id : String) → Keeps IsSound (delete_request id)
unfolding delete_request
delete_request-Keeps id = Keeps-statement _ _ (delete_requests-IsSound _)

delete_expired_before-Keeps : (before : ℕ) → Keeps IsSound (delete_expired_before before)
unfolding delete_expired_before
delete_expired_before-Keeps before = Keeps-statement _ _ (delete_requests-IsSound _)

insert_session-Keeps :
    (row : DeviceSession) → Keeps IsSound (statement {O = Unit {0}} other (insert_session row))
insert_session-Keeps row = Keeps-statement _ _ (insert_session-IsSound row)

create-Keeps : (id user agent ip name : String) → Keeps IsSound (create id user agent ip name)
unfolding create
create-Keeps id user agent ip name = search (table_rules, insert_session-Keeps) depth 8

reuse-Keeps : (agent ip : String) (s : DeviceSession) → Keeps IsSound (reuse agent ip s)
unfolding reuse
reuse-Keeps agent ip s = Keeps-bind _ _ (Keeps-gets _) λ now.
    Keeps-bind _ _ (Keeps-statement _ _ (refresh_session-IsSound agent ip now s.id))
      λ _. Keeps-pure _

revoke_by_id-Keeps : (id user : String) → Keeps IsSound (revoke_by_id id user)
unfolding revoke_by_id revoke_body
revoke_by_id-Keeps id user = Keeps-bind _ _ (Keeps-gets _) λ now. Keeps-transaction _ _ (
    Keeps-bind _ _ (Keeps-statement _ _ (revoke_session-IsSound id user now))
      λ n. search table_rules depth 8)

delete_revoked-Keeps : (before : ℕ) → Keeps IsSound (delete_revoked_before before)
unfolding delete_revoked_before
delete_revoked-Keeps before =
    Keeps-bind _ _ (Keeps-gets _) λ now. Keeps-statement _ _ (delete_sessions-IsSound before now)

done-Keeps : {A : Type 0} (m : Action OidcWorld Error A) → Keeps IsSound m → Keeps IsSound (done m)
done-Keeps m km = Keeps-bind _ _ km λ _. Keeps-pure tt

module _ (make_ulid : ℕ → String) where
  reuse_or_create-Keeps :
      (found : Option DeviceSession) (id user agent ip name : String)
      → Keeps IsSound (reuse_or_create make_ulid found id user agent ip name)
  unfolding reuse_or_create
  reuse_or_create-Keeps none id user agent ip name = create-Keeps id user agent ip name
  reuse_or_create-Keeps (some s) id user agent ip name =
      search (table_rules, create-Keeps, reuse-Keeps) depth 8

  find_or_create-Keeps :
      (id user agent ip name : String)
      → Keeps IsSound (find_or_create make_ulid id user agent ip name)
  unfolding find_or_create
  find_or_create-Keeps id user agent ip name = search (table_rules, reuse_or_create-Keeps) depth 8

  perform-Keeps : (c : Call) → Keeps IsSound (perform make_ulid c)
  unfolding perform
  perform-Keeps (create_auth_request ar) = create_request-Keeps ar
  perform-Keeps (save_auth_code id code) = save_code-Keeps id code
  perform-Keeps (complete_auth_login id user at amr session) =
      complete_login-Keeps id user at amr session
  perform-Keeps (delete_auth_request id) = delete_request-Keeps id
  perform-Keeps (delete_auth_requests_before before) =
      done-Keeps _ (delete_expired_before-Keeps before)
  perform-Keeps (create_access_token access) = create_access-Keeps access
  perform-Keeps (create_both access refresh current) = create_both-Keeps access refresh current
  perform-Keeps (delete_of_user_and_client user client) =
      delete_by_user_and_client-Keeps user client
  perform-Keeps (revoke_access id client) = revoke-Keeps id client
  perform-Keeps (revoke_refresh hash client) = revoke_refresh-Keeps hash client
  perform-Keeps (delete_expired_tokens before) = done-Keeps _ (delete_expired-Keeps before)
  perform-Keeps (find_or_create_session id user agent ip name) =
      done-Keeps _ (find_or_create-Keeps id user agent ip name)
  perform-Keeps (revoke_session_by_id id user) = revoke_by_id-Keeps id user
  perform-Keeps (delete_sessions_revoked_before before) = done-Keeps _ (delete_revoked-Keeps before)

  -- Whatever calls are made of the repositories at whatever times, and whichever statements fail: where
  -- the tables were sound before, they are sound after. No two auth requests, access tokens, refresh
  -- tokens or device sessions share an identifier and no two refresh tokens a hash; a reference to a
  -- device session leads to one; and an auth request has a user and a time of login exactly if it is
  -- done.
  pub perform_all-IsSound :
      (cs : List (ℕ × Call)) (w : OidcWorld)
      → IsSound w.tables
      → IsSound (perform_all make_ulid cs w).tables
  unfolding perform_all
  perform_all-IsSound [] w h = h
  perform_all-IsSound ((now, c) ∷ cs) w h =
      perform_all-IsSound cs (perform make_ulid c (record w { clock = now })).1
        ((perform-Keeps c).at (record w { clock = now }) h)
