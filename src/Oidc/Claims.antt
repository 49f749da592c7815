-- ===== src/Oidc/Claims.antt =====
-- User info and introspection (internal/oidc/adapter/storage.go, userinfo.go). The source of user
-- claims, an interface, is a parameter; where it fails it gives no user.
use hss_science.Base.{
  ℕ, String, Bool, true, false, ◌==◌, List, [], ◌∷◌, Action, pure, fail, ◌>>=◌, handle, map_err,
  if◌then◌else◌,
}
use hss_science.Domerr.{Error, is_not_found}
use hss_science.Oidc.Domain.{Token}
use hss_science.Oidc.Tables.{OidcWorld}
use hss_science.Oidc.TokenRepo.{get_by_id}
use hss_science.Oidc.Adapter.{OidcError, invalid_request, internal_err, unless_missing}

pub record UserClaims : Type 0 where
  pub subject : String
  pub email : String
  pub email_verified : Bool
  pub name : String
  pub given_name : String
  pub family_name : String
  pub picture : String
  pub updated_at : ℕ

-- The fields of the library's `UserInfo` that the code sets; its `IntrospectionResponse` has the same.
pub record UserInfo : Type 0 where
  pub subject : String
  pub email : String
  pub email_verified : Bool
  pub name : String
  pub given_name : String
  pub family_name : String
  pub picture : String
  pub updated_at : ℕ

-- One round of the loop over the scopes.
unfoldable pub add_scope : UserClaims → String → UserInfo → UserInfo
add_scope user scope info =
    if scope == "openid"
    then record info { subject = user.subject }
    else (if scope == "profile"
        then record info {
          name = user.name;
          given_name = user.given_name;
          family_name = user.family_name;
          picture = user.picture;
          updated_at = user.updated_at;
        }
        else (if scope == "email"
            then record info { email = user.email; email_verified = user.email_verified }
            else info))

unfoldable pub add_scopes : UserClaims → List String → UserInfo → UserInfo
unfolding add_scope
add_scopes user [] info = info
add_scopes user (scope ∷ scopes) info = add_scopes user scopes (add_scope user scope info)

-- `IntrospectionResponse`: `info.subject` is its subject.
pub record Introspection : Type 0 where
  pub active : Bool
  pub client_id : String
  pub scope : List String
  pub audience : List String
  pub expiration : ℕ
  pub issued_at : ℕ
  pub token_type : String
  pub info : UserInfo

module _ (user_claims : String → Action OidcWorld Error UserClaims) where
  -- `setUserinfo`
  unfoldable pub set_userinfo :
      UserInfo → String → List String → Action OidcWorld OidcError UserInfo
  unfolding add_scopes unless_missing
  set_userinfo info user scopes = do
    claims ← map_err (unless_missing (invalid_request "user not found")) (user_claims user)
    pure (add_scopes claims scopes info)

  unfoldable pub set_userinfo_from_token : UserInfo → String → Action OidcWorld OidcError UserInfo
  unfolding set_userinfo unless_missing
  set_userinfo_from_token info id = do
    token ← map_err (unless_missing (invalid_request "token not found")) (get_by_id id)
    set_userinfo info token.subject token.scopes

  -- The answer for a live token, before the user is read.
  unfoldable pub introspected : Introspection → Token → Introspection
  introspected answer token = record {
    active = true;
    client_id = token.client_id;
    scope = token.scopes;
    audience = token.audience;
    expiration = token.expiration;
    issued_at = token.created_at;
    token_type = "Bearer";
    info = record (answer.info) { subject = token.subject };
  }

  -- The user's claims are added where there is such a user.
  unfoldable pub introspect_user : Introspection → Token → Action OidcWorld OidcError Introspection
  unfolding add_scopes
  introspect_user answer token =
      handle (user_claims token.subject)
        (λ claims. pure (record answer { info = add_scopes claims token.scopes answer.info }))
        (λ e. if is_not_found e then pure answer else fail (internal_err e))

  unfoldable pub set_introspection_from_token :
      Introspection → String → Action OidcWorld OidcError Introspection
  unfolding introspected introspect_user
  set_introspection_from_token answer id =
      handle (get_by_id id) (λ token. introspect_user (introspected answer token) token)
        (λ e.
          if is_not_found e then pure (record answer { active = false }) else fail (internal_err e))
