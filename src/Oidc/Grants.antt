-- ===== src/Oidc/Grants.antt =====
-- What auth requests, codes and tokens are asked for and stand for, told without the code.
use mathlib.Core.Option.{none, some}
use hss_science.Base.{ℕ, String, Option, List, [], ◌∷◌, ◌≡◌, refl, true, false, arith}
use hss_science.Base.Int.{ℤ, pos}
use hss_science.Oidc.Domain.{AuthRequest, RefreshToken}
use hss_science.Oidc.AuthRepo.{out_of_range}
use hss_science.Oidc.Services.{new_refresh}
use hss_science.Oidc.Adapter.{
  AuthQuery, TokenRequest, of_auth_request, of_refresh_token, of_client_credentials, grant_of,
  seconds_of,
}

-- A number of seconds as it was asked for.
abbrev pub in_seconds : Option ℕ → Option ℤ
in_seconds none = none
in_seconds (some n) = some (pos n)

-- What a code stands for: what the client asked for, and the login.
abbrev pub granted :
    AuthQuery → String → String → String → ℕ → List String → String → ℕ → AuthRequest
granted q id user code auth_time amr session now = record {
  id = id;
  client_id = q.client_id;
  redirect_uri = q.redirect_uri;
  state = q.state;
  nonce = q.nonce;
  scopes = q.scopes;
  response_type = q.response_type;
  response_mode = q.response_mode;
  code_challenge = q.code_challenge;
  code_challenge_method = q.code_challenge_method;
  prompt = q.prompt;
  max_age = in_seconds q.max_age;
  login_hint = q.login_hint;
  user_id = user;
  auth_time = auth_time;
  amr = amr;
  is_done = true;
  code = code;
  created_at = now;
  device_session_id = session;
}

-- A column that takes the seconds takes them as they are.
pub fits-in_seconds :
    (age : Option ℕ) → out_of_range (seconds_of age) ≡ false → seconds_of age ≡ in_seconds age
fits-in_seconds none h = refl
fits-in_seconds (some n) h = ground (arith, h)

-- What tokens are asked for: by an auth request, by a refresh token with the scopes set anew, or by a
-- client for itself.
abbrev client_of : TokenRequest → String
client_of (of_auth_request ar) = ar.client_id
client_of (of_refresh_token rt scopes) = rt.client_id
client_of (of_client_credentials client scopes) = client

abbrev subject_of : TokenRequest → String
subject_of (of_auth_request ar) = ar.user_id
subject_of (of_refresh_token rt scopes) = rt.user_id
subject_of (of_client_credentials client scopes) = client

abbrev audience_of : TokenRequest → List String
audience_of (of_auth_request ar) = ar.client_id ∷ []
audience_of (of_refresh_token rt scopes) = rt.audience
audience_of (of_client_credentials client scopes) = client ∷ []

abbrev scopes_of : TokenRequest → List String
scopes_of (of_auth_request ar) = ar.scopes
scopes_of (of_refresh_token rt scopes) = scopes
scopes_of (of_client_credentials client scopes) = scopes

abbrev login_of : TokenRequest → ℕ × List String
login_of (of_auth_request ar) = (ar.auth_time, ar.amr)
login_of (of_refresh_token rt scopes) = (rt.auth_time, rt.amr)
login_of (of_client_credentials client scopes) = (0, [])

-- A refresh token for what a request asked for, issued at a time together with an access token.
pub record GivesBack (request : TokenRequest) (access_id hash : String) (now expiration : ℕ)
    (rt : RefreshToken) : Type 0 where
  pub client : rt.client_id ≡ client_of request
  pub subject : rt.user_id ≡ subject_of request
  pub audience : rt.audience ≡ audience_of request
  pub scopes : rt.scopes ≡ scopes_of request
  pub auth_time : rt.auth_time ≡ (login_of request).0
  pub amr : rt.amr ≡ (login_of request).1
  pub access : rt.access_token_id ≡ access_id
  pub hashed : rt.token ≡ hash
  pub expires : rt.expiration ≡ expiration
  pub created : rt.created_at ≡ now

grant_of-asked :
    (request : TokenRequest)
    → ((grant_of request).client_id ≡ client_of request)
      × ((grant_of request).subject ≡ subject_of request)
      × ((grant_of request).audience ≡ audience_of request)
      × ((grant_of request).scopes ≡ scopes_of request)
      × ((grant_of request).auth_time ≡ (login_of request).0)
      × ((grant_of request).amr ≡ (login_of request).1)
unfolding grant_of
grant_of-asked (of_auth_request ar) = (refl, refl, refl, refl, refl, refl)
grant_of-asked (of_refresh_token rt scopes) = (refl, refl, refl, refl, refl, refl)
grant_of-asked (of_client_credentials client scopes) = (refl, refl, refl, refl, refl, refl)

pub new_refresh-GivesBack :
    (request : TokenRequest) (access_id refresh_id hash session : String) (now expiration : ℕ)
    → GivesBack request access_id hash now expiration
        (record (new_refresh (grant_of request) refresh_id hash access_id expiration now) {
          device_session_id = session;
        })
unfolding new_refresh
new_refresh-GivesBack request access_id refresh_id hash session now expiration =
    let (client, subject, audience, scopes, auth_time, amr) = grant_of-asked request in
    record {
      client = client;
      subject = subject;
      audience = audience;
      scopes = scopes;
      auth_time = auth_time;
      amr = amr;
      access = refl;
      hashed = refl;
      expires = refl;
      created = refl;
    }
