-- ===== src/Authn/Providers.antt =====
-- The identity providers (internal/authn/config.go, provider.go, provider_google.go,
-- provider_github.go). The libraries oauth2 and go-oidc, the provider's servers and the decoding of
-- their answers are parameters, with a state `O` of their own. `()` is the error, without its text.
use Prim.Native.String.{◌++◌ as ◌<>◌}
use hss_science.Base.{
  String, Option, none, some, List, Bool, true, false, not, ok, err, Result, ℕ, nat_eq, pure, fail,
  lift, handle, [], ◌>>=◌, ◌==◌, ◌&&◌, ◌∷◌, if◌then◌else◌, Action, ◌++◌, ◌≡◌, arith,
}
use hss_science.Base.Int.{ℤ}
use hss_science.Identity.Users.{FederatedClaims}

pub record AuthnConfig : Type 0 where
  pub issuer_url : String
  pub google_client_id : String
  pub google_client_secret : String
  pub github_client_id : String
  pub github_client_secret : String

pub record OAuth2Config : Type 0 where
  pub client_id : String
  pub client_secret : String
  pub redirect_url : String
  pub endpoint : String
  pub scopes : List String

abbrev pub Outside : Type 0 → Type 0 → Type 0
Outside O A = Action O (Unit {0}) A

pub record Provider (O Token : Type 0) : Type 0 where
  pub name : String
  pub display_name : String
  pub oauth2_config : OAuth2Config
  pub fetch_claims : Token → Outside O FederatedClaims

-- What the verified id token carries beside its subject.
pub record GoogleClaims : Type 0 where
  pub email : String
  pub email_verified : Bool
  pub name : String
  pub given_name : String
  pub family_name : String
  pub picture : String

pub record GithubUser : Type 0 where
  pub id : ℤ
  pub email : String
  pub name : String
  pub avatar_url : String

pub record GithubEmail : Type 0 where
  pub email : String
  pub primary : Bool
  pub verified : Bool

-- go-oidc: the discovery of a provider, which yields its verifier, and an id token; `Extra` is of
-- oauth2.
pub record Oidc (O Token IdToken : Type 0) : Type 0 where
  pub discover : String → String → Outside O (String → Outside O IdToken)
  pub extra_id_token : Token → Option String
  pub subject : IdToken → String
  pub claims : IdToken → Option GoogleClaims

-- The API of GitHub: an authorized `GET`, with the status and the body, and the decoding of bodies;
-- `format_int` prints a number in decimal.
pub record Github (O Token Body : Type 0) : Type 0 where
  pub get : String → Token → Outside O (ℕ × Body)
  pub decode_user : Body → Option GithubUser
  pub decode_emails : Body → Option (List GithubEmail)
  pub format_int : ℤ → String

-- `if err != nil`, for a result without a state
abbrev pub required {ℓ} : {A : Type ℓ} → Option A → Result (Unit {ℓ}) A
required none = err tt
required (some a) = ok a

pub required-eq-ok :
    {O A : Type 0} (o : Option A) (a : A) (y x : O)
    → lift (required o) y ≡ (ok a, x)
    → (o ≡ some a) × (x ≡ y)
unfolding lift
required-eq-ok none a y x h = absurd (ground (arith, h))
required-eq-ok (some b) a y x h = (ground (arith, h), ground (arith, h))

module _ {O Token IdToken : Type 0} (oidc : Oidc O Token IdToken) where
  unfoldable pub google_fetch_claims :
      (String → Outside O IdToken) → Token → Outside O FederatedClaims
  google_fetch_claims verify token = do
    raw ← lift (required (oidc.extra_id_token token))
    id_token ← verify raw
    claims ← lift (required (oidc.claims id_token))
    pure (record {
      subject = oidc.subject id_token;
      email = claims.email;
      email_verified = claims.email_verified;
      name = claims.name;
      given_name = claims.given_name;
      family_name = claims.family_name;
      picture = claims.picture;
    })

  unfoldable pub new_google_provider : String → String → String → Outside O (Provider O Token)
  unfolding google_fetch_claims
  new_google_provider client_id client_secret callback_url = do
    verify ← oidc.discover "https://accounts.google.com" client_id
    pure (record {
      name = "google";
      display_name = "Sign in with Google";
      oauth2_config = record {
        client_id = client_id;
        client_secret = client_secret;
        redirect_url = callback_url;
        endpoint = "google";
        scopes = "openid" ∷ "email" ∷ "profile" ∷ [];
      };
      fetch_claims = google_fetch_claims verify;
    })

-- The loop over the addresses.
unfoldable pub primary_verified : List GithubEmail → String
primary_verified [] = ""
primary_verified (e ∷ es) =
    let rest = primary_verified es in if e.primary && e.verified then e.email else rest

module _ {O Token Body : Type 0} (github : Github O Token Body) where
  unfoldable pub read_emails : ℕ × Body → Outside O String
  unfolding primary_verified
  read_emails (status, body) =
      if not (nat_eq status 200)
      then fail tt
      else do emails ← lift (required (github.decode_emails body)); pure (primary_verified emails)

  unfoldable pub fetch_primary_email : Token → Outside O String
  unfolding read_emails
  fetch_primary_email token = do
    answer ← github.get "https://api.github.com/user/emails" token
    read_emails answer

  -- The address that the claims have, and whether it is verified.
  unfoldable pub claimed_email : GithubUser → Token → Outside O (String × Bool)
  unfolding fetch_primary_email
  claimed_email user token =
      if user.email == ""
      then handle (fetch_primary_email token)
          (λ fetched. if fetched == "" then pure (user.email, false) else pure (fetched, true))
          (λ _. pure (user.email, false))
      else pure (user.email, false)

  unfoldable pub github_claims : GithubUser → String × Bool → FederatedClaims
  github_claims user (email, verified) = record {
    subject = github.format_int user.id;
    email = email;
    email_verified = verified;
    name = user.name;
    given_name = "";
    family_name = "";
    picture = user.avatar_url;
  }

  unfoldable pub claim_user : Token → GithubUser → Outside O FederatedClaims
  unfolding claimed_email github_claims
  claim_user token user = do email ← claimed_email user token; pure (github_claims user email)

  unfoldable pub read_user : Token → ℕ × Body → Outside O FederatedClaims
  unfolding claim_user
  read_user token (status, body) =
      if not (nat_eq status 200)
      then fail tt
      else do user ← lift (required (github.decode_user body)); claim_user token user

  unfoldable pub github_fetch_claims : Token → Outside O FederatedClaims
  unfolding read_user
  github_fetch_claims token = do
    answer ← github.get "https://api.github.com/user" token
    read_user token answer

  unfoldable pub new_github_provider : String → String → String → Provider O Token
  unfolding github_fetch_claims
  new_github_provider client_id client_secret callback_url = record {
    name = "github";
    display_name = "Sign in with GitHub";
    oauth2_config = record {
      client_id = client_id;
      client_secret = client_secret;
      redirect_url = callback_url;
      endpoint = "github";
      scopes = "read:user" ∷ "user:email" ∷ [];
    };
    fetch_claims = github_fetch_claims;
  }

module _ {O Token IdToken Body : Type 0} (oidc : Oidc O Token IdToken)
    (github : Github O Token Body) where
  unfoldable pub google_providers : AuthnConfig → Outside O (List (Provider O Token))
  unfolding new_google_provider
  google_providers cfg = if cfg.google_client_id == "" then pure [] else do
    p ←
        new_google_provider oidc cfg.google_client_id cfg.google_client_secret
          (cfg.issuer_url <> "/login/callback")
    pure (p ∷ [])

  unfoldable pub github_providers : AuthnConfig → List (Provider O Token)
  unfolding new_github_provider
  github_providers cfg =
      if cfg.github_client_id == ""
      then []
      else (new_github_provider github cfg.github_client_id cfg.github_client_secret
            (cfg.issuer_url <> "/login/callback")
          ∷ [])

  unfoldable pub new_providers : AuthnConfig → Outside O (List (Provider O Token))
  unfolding google_providers github_providers
  new_providers cfg = do google ← google_providers cfg; pure (google ++ github_providers cfg)
