-- ===== src/Tests/Logins.antt =====
-- A browser that logs in at a provider, and the theorems on it.
use hss_science.Base.{
  zero, suc, handle, [], ◌==◌, ◌&&◌, ◌∷◌, ◌≡◌, arith, refl, if◌then◌else◌, suc, eq_iff, subst, ap,
}
use hss_science.Oidc.AuthRepo.{complete_login, update_login}
use hss_science.Oidc.Tables.{insert_session}
use hss_science.Oidc.DeviceRepo.{find_or_create}
use hss_science.Base.Sql.{query, mint, call_outside}
use hss_science.Identity.Users.{
  update_federated_identity_claims, find_by_federated_identity, update_user_from_claims,
}
use hss_science.Identity.Service.{find_or_create_by_federated_login}
use hss_science.Base.{map_err, ◌>>=◌}
use hss_science.Base.{String, ℕ, none, some, ok, true, Option, ◌≢◌, length, [], ◌∷◌, ◌≡◌, refl}
use hss_science.Base.Int.{pos}
use hss_science.Base.Sql.Rows.{find, update}
use hss_science.Identity.Users.{FederatedClaims}
use hss_science.Authn.Cipher.{Bytes, Gcm, Primitives, Documented}
use hss_science.Authn.Providers.{Provider, OAuth2Config, Github, GithubEmail, github_fetch_claims}
use hss_science.Authn.Emails.{IsPrivate, github_email_verified}
use hss_science.Authn.Handler.{
  LoginWorld, Login, CallbackRequest, FederatedState, Response, redirect, federated_redirect,
  provider_named, decrypt_state, log_in_as,
}
use hss_science.Authn.Login.{LoggedInAs, log_in-LoggedInAs, new_device_untold}
use hss_science.Authn.Sealing.{redirect_seals}
use hss_science.Tests.Strokes.{written, read_after, read-written}
use hss_science.Tests.Accounts.{claims_of}
use hss_science.Tests.SignOut.{both}

abbrev client : OAuth2Config
client = record {
  client_id = "c";
  client_secret = "s";
  redirect_url = "https://id/login/callback";
  endpoint = "google";
  scopes = [];
}

abbrev google : Provider (Unit {0}) String
google = record {
  name = "google";
  display_name = "Google";
  oauth2_config = client;
  fetch_claims = λ token o. (ok (claims_of "Alice"), o);
}

-- A cipher that writes its nonce before the text, and texts that are one byte.
abbrev zeros : ℕ → Bytes
zeros zero = []
zeros (suc n) = 0 ∷ zeros n

length-zeros : (n : ℕ) → length (zeros n) ≡ n
length-zeros zero = refl
length-zeros (suc n) = ap suc (length-zeros n)

abbrev open_gcm : Gcm
open_gcm = record { nonce_size = 1; seal = λ nonce p. p; unseal = λ nonce c. some c }

abbrev sent_state : FederatedState
sent_state = record { auth_request_id = "ar"; provider = "google"; nonce = "n" }

-- The one state that is encoded.
abbrev marshalled : FederatedState → Option Bytes
marshalled state =
    if (state.auth_request_id == "ar") && ((state.provider == "google") && (state.nonce == "n"))
    then some (1 ∷ [])
    else none

marshalled-once :
    (state : FederatedState) (b : Bytes) → marshalled state ≡ some b → some sent_state ≡ some state
marshalled-once state b h = ground (
  arith,
  h,
  eq_iff state.auth_request_id "ar",
  eq_iff state.provider "google",
  eq_iff state.nonce "n",
)

abbrev plain : Primitives ℕ ℕ
plain = record {
  new_cipher = λ key. some key;
  new_gcm = λ block. some open_gcm;
  encode = written;
  decode = read_after 0;
}

abbrev handler : Login (Unit {0}) String ℕ ℕ
handler = record {
  providers = google ∷ [];
  marshal = marshalled;
  unmarshal = λ bytes. some sent_state;
  prim = plain;
  key = 0;
  random = λ o. ((λ n. some (zeros n)), o);
  auth_code_url = λ cfg state. "https://accounts.google.com";
  exchange = λ cfg code o. (ok "token", o);
  callback_url = λ id. "https://id/callback";
  split_host_port = λ addr. none;
  make_ulid = λ n. "new";
  make_uuid = λ n. "n";
}

abbrev request : CallbackRequest
request = record {
  code = "code";
  state = "state";
  device_cookie = none;
  user_agent = "curl";
  connecting_ip = "";
  remote_addr = "10.0.0.9";
}

abbrev answer : Response
answer = redirect "https://id/callback" none

abbrev logged_in : LoginWorld (Unit {0})
logged_in = (log_in_as handler request sent_state (claims_of "Alice") both).1

logs_in : log_in_as handler request sent_state (claims_of "Alice") both ≡ (ok answer, logged_in)
unfolding log_in_as ◌>>=◌ map_err find_or_create_by_federated_login find_by_federated_identity query
    find update_user_from_claims update_federated_identity_claims mint find_or_create insert_session
    update complete_login update_login
logs_in = refl

log_in-LoggedInAs_example :
    LoggedInAs handler request sent_state (claims_of "Alice") both logged_in answer
log_in-LoggedInAs_example =
    log_in-LoggedInAs handler request sent_state (claims_of "Alice") both logged_in answer logs_in

new_device_untold_example : answer.set_cookie ≡ none
unfolding find
new_device_untold_example =
    new_device_untold handler request sent_state (claims_of "Alice") both logged_in answer refl
      (λ n. refl) logs_in

-- The addresses of one user, who shows none in the profile.
abbrev mail : GithubEmail
mail = record { email = "a@example.org"; primary = true; verified = true }

abbrev hub : Github (Unit {0}) String String
hub = record {
  get = λ url token o. (ok (200, url), o);
  decode_user = λ body. some (record { id = pos 7; email = ""; name = "Alice"; avatar_url = "" });
  decode_emails = λ body. some (mail ∷ []);
  format_int = λ n. "7";
}

abbrev hub_claims : FederatedClaims
hub_claims = record {
  subject = "7";
  email = "a@example.org";
  email_verified = true;
  name = "Alice";
  given_name = "";
  family_name = "";
  picture = "";
}

fetches : github_fetch_claims hub "token" tt ≡ (ok hub_claims, tt)
unfolding github_fetch_claims ◌>>=◌ handle
fetches = refl

github_email_verified_example : IsPrivate hub "token" tt "a@example.org"
github_email_verified_example = github_email_verified hub "token" tt tt hub_claims fetches refl

abbrev sent : LoginWorld (Unit {0})
sent = (federated_redirect handler (some ("ar", "google")) both).1

abbrev away : Response
away = redirect "https://accounts.google.com" none

sends : federated_redirect handler (some ("ar", "google")) both ≡ (ok away, sent)
unfolding federated_redirect ◌>>=◌ mint call_outside
sends = refl

sealing : (o : Unit {0}) → Documented plain (handler.random o).0 0
sealing o = record {
  gcm = open_gcm;
  makes = refl;
  decodes = read-written;
  opens = λ nonce p. refl;
  fills = λ n b e. subst (λ c. length c ≡ n) (ground (arith, e)) (length-zeros n);
}

redirect_seals_example :
    (sent_state.auth_request_id ≢ "")
    × (google.name ≢ "")
    × ((provider : Provider (Unit {0}) String) × (sealed nonce : String) × (provider_named "google"
            handler.providers
          ≡ some provider)
        × (away ≡ redirect (handler.auth_code_url provider.oauth2_config sealed) none)
        × (decrypt_state handler sealed
            ≡ some (record { auth_request_id = "ar"; provider = "google"; nonce = nonce })))
redirect_seals_example =
    redirect_seals handler sealing marshalled-once "ar" "google" both sent away sends
