-- ===== src/Oidc/Domain.antt =====
-- The entities of internal/oidc/domain.go. Times are instants as numbers, 0 for Go's zero time; an
-- optional text is the empty text where the entity has a `string`, `none` where it has a pointer.
use hss_science.Base.{ℕ, String, Bool, Option, List}
use hss_science.Base.Int.{ℤ}

pub record AuthRequest : Type 0 where
  pub id : String
  pub client_id : String
  pub redirect_uri : String
  pub state : String
  pub nonce : String
  pub scopes : List String
  pub response_type : String
  pub response_mode : String
  pub code_challenge : String
  pub code_challenge_method : String
  pub prompt : List String
  pub max_age : Option ℤ
  pub login_hint : String
  pub user_id : String
  pub auth_time : ℕ
  pub amr : List String
  pub is_done : Bool
  pub code : String
  pub created_at : ℕ
  pub device_session_id : String

pub record Client : Type 0 where
  pub id : String
  pub secret_hash : String
  pub redirect_uris : List String
  pub post_logout_redirect_uris : List String
  pub application_type : String
  pub auth_method : String
  pub response_types : List String
  pub grant_types : List String
  pub access_token_type : String
  pub allowed_scopes : List String
  pub id_token_lifetime_seconds : ℕ
  pub clock_skew_seconds : ℕ
  pub id_token_userinfo_assertion : Bool
  pub created_at : ℕ
  pub updated_at : ℕ

pub record Token : Type 0 where
  pub id : String
  pub client_id : String
  pub subject : String
  pub audience : List String
  pub scopes : List String
  pub expiration : ℕ
  pub refresh_token_id : String
  pub created_at : ℕ

-- `token` is the hash of the secret that the client holds.
pub record RefreshToken : Type 0 where
  pub id : String
  pub token : String
  pub client_id : String
  pub user_id : String
  pub audience : List String
  pub scopes : List String
  pub auth_time : ℕ
  pub amr : List String
  pub access_token_id : String
  pub expiration : ℕ
  pub created_at : ℕ
  pub device_session_id : String

pub record DeviceSession : Type 0 where
  pub id : String
  pub user_id : String
  pub user_agent : String
  pub ip_address : String
  pub device_name : String
  pub created_at : ℕ
  pub last_used_at : ℕ
  pub revoked_at : Option ℕ
