-- ===== src/Tests/Configs.antt =====
-- Two environments, and the theorems on them.
use hss_science.Base.Results.{◌>>=◌}
use hss_science.Base.{
  String, ℕ, none, some, ok, All, ◌≤◌, ◌*◌, ◌≢◌, length, [], ◌==◌, ◌∷◌, ◌≡◌, refl, if◌then◌else◌,
  true,
}
use hss_science.Base.Int.{pos}
use hss_science.Config.Identity
use hss_science.Config.Bff
use hss_science.Config.Bounds.{Sound, load_from-Sound}
use hss_science.Config.Sessions.{load_from-lifetimes}

abbrev key_hex : String
key_hex = "000102030405060708090a0b0c0d0e0f101112131415161718191A1B1C1D1E1F"

abbrev identity_env : Identity.Source
identity_env key =
    if key == "ISSUER"
    then "https://id.example"
    else (if key == "DATABASE_URL"
        then "postgres://db"
        else (if key == "CRYPTO_KEY"
            then key_hex
            else (if key == "SIGNING_KEY_PEM"
                then "current"
                else (if key == "SIGNING_KEY_PREVIOUS_PEM"
                    then "older---NEXT--- oldest "
                    else (if key == "GITHUB_CLIENT_ID"
                        then "gh"
                        else (if key == "RATE_LIMIT_LOGIN_RPM" then "0" else ""))))))

-- Keys that are the number of their bits.
abbrev toy_keys : Identity.Keys ℕ
toy_keys = record {
  decode = λ pem. some (Identity.pkcs1, []);
  parse_pkcs1 = λ bytes. some 2048;
  parse_pkcs8 = λ bytes. none;
  bit_len = λ bits. bits;
  valid_url = λ url. true;
}

abbrev identity_config : Identity.Config ℕ
identity_config = record {
  port = "8080";
  grpc_port = "50051";
  issuer = "https://id.example";
  database_url = "postgres://db";
  crypto_key =
      0 ∷ 1 ∷ 2 ∷ 3 ∷ 4 ∷ 5 ∷ 6 ∷ 7 ∷ 8 ∷ 9 ∷ 10 ∷ 11 ∷ 12 ∷ 13 ∷ 14 ∷ 15 ∷ 16 ∷ 17 ∷ 18 ∷ 19 ∷ 20
      ∷ 21 ∷ 22 ∷ 23 ∷ 24 ∷ 25 ∷ 26 ∷ 27 ∷ 28 ∷ 29 ∷ 30 ∷ 31 ∷ [];
  signing_keys = record { current = 2048; previous = 2048 ∷ 2048 ∷ [] };
  lifetimes = record {
    access_token_lifetime_minutes = pos 15;
    refresh_token_lifetime_days = pos 7;
    auth_request_ttl_minutes = pos 30;
  };
  pool = record {
    max_open_conns = pos 25;
    max_idle_conns = pos 10;
    conn_max_lifetime_secs = pos 300;
    conn_max_idle_time_secs = pos 180;
  };
  rate_limits = record {
    enabled = true;
    login_rpm = pos 20;
    token_rpm = pos 60;
    global_rpm = pos 120;
  };
  google_client_id = "";
  google_client_secret = "";
  github_client_id = "gh";
  github_client_secret = "";
}

identity_loads : Identity.load_from toy_keys identity_env ≡ ok identity_config
unfolding Identity.load_from ◌>>=◌
identity_loads = refl

load_from-Sound_example : Sound toy_keys identity_config
load_from-Sound_example = load_from-Sound toy_keys identity_env identity_config identity_loads

abbrev bff_env : Identity.Source
bff_env key =
    if key == "SESSION_KEY"
    then key_hex
    else (if key == "SESSION_IDLE_TTL_MINUTES"
        then "30"
        else (if key == "SESSION_HARD_TTL_DAYS"
            then ""
            else (if key == "CORS_ALLOWED_ORIGINS"
                then "https://a.example, ,https://b.example"
                else "set")))

abbrev bff_config : Bff.BffConfig
bff_config = record {
  port = "set";
  oidc_issuer = "set";
  client_id = "set";
  client_secret = "set";
  redirect_url = "set";
  accounts_grpc = "set";
  redis_url = "set";
  session_key = identity_config.crypto_key;
  session_idle_ttl = pos 1_800_000_000_000;
  session_hard_ttl = pos 604_800_000_000_000;
  cors_origins = "https://a.example" ∷ "https://b.example" ∷ [];
}

bff_loads : Bff.load_from bff_env ≡ ok bff_config
unfolding Bff.load_from ◌>>=◌
bff_loads = refl

load_from-lifetimes_example :
    ((n : ℕ) × (5 ≤ n) × (n ≤ 1440) × (bff_config.session_idle_ttl ≡ pos (n * 60_000_000_000)))
    × ((d : ℕ) × (1 ≤ d) × (d ≤ 90) × (bff_config.session_hard_ttl ≡ pos (d * 86_400_000_000_000)))
    × (length bff_config.session_key ≡ 32)
    × (bff_config.cors_origins ≢ [])
    × All (λ o. o ≢ "") bff_config.cors_origins
load_from-lifetimes_example = load_from-lifetimes bff_env bff_config bff_loads
