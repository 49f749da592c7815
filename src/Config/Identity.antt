-- ===== src/Config/Identity.antt =====
-- The configuration of the identity service (config/config.go). `url.Parse` and the decoding of PEM
-- and PKCS are parameters; an error is the name of the variable that it is about.
use hss_science.Base.{
  String, Option, none, some, on_row, List, ℕ, ltb, nat_eq, not, Bool, Result, ok, err, length, [],
  ◌==◌, ◌||◌, ◌∷◌, if◌then◌else◌, ◌&&◌, false,
}
use hss_science.Base.Int.{ℤ, pos, ltb_ℤ}
use hss_science.Base.Parse.{atoi, hex_decode, split, trim_space}
use hss_science.Base.Results.{◌>>=◌}

-- `ConfigSource`, with "" for a variable that is not set
abbrev pub Source : Type 0
Source = String → String

pub record SigningKeySet (K : Type 0) : Type 0 where
  pub current : K
  pub previous : List K

pub record Lifetimes : Type 0 where
  pub access_token_lifetime_minutes : ℤ
  pub refresh_token_lifetime_days : ℤ
  pub auth_request_ttl_minutes : ℤ

pub record Pool : Type 0 where
  pub max_open_conns : ℤ
  pub max_idle_conns : ℤ
  pub conn_max_lifetime_secs : ℤ
  pub conn_max_idle_time_secs : ℤ

pub record RateLimits : Type 0 where
  pub enabled : Bool
  pub login_rpm : ℤ
  pub token_rpm : ℤ
  pub global_rpm : ℤ

pub record Config (K : Type 0) : Type 0 where
  pub port : String
  pub grpc_port : String
  pub issuer : String
  pub database_url : String
  pub crypto_key : List ℕ
  pub signing_keys : SigningKeySet K
  pub lifetimes : Lifetimes
  pub pool : Pool
  pub rate_limits : RateLimits
  pub google_client_id : String
  pub google_client_secret : String
  pub github_client_id : String
  pub github_client_secret : String

unfoldable pub get_from : Source → String → String → String
get_from src key fallback = if src key == "" then fallback else src key

-- `raw != ""`, `strconv.Atoi`
unfoldable pub given_or : Source → String → ℤ → Result String ℤ
unfolding atoi
given_or src key default =
    if src key == "" then ok default else on_row (atoi (src key)) (err key) (λ n. ok n)

abbrev pub is_zero : ℤ → Bool
is_zero (pos n) = nat_eq n 0
is_zero (ℤ.negsuc n) = false

-- `if val == 0`, and the bounds
unfoldable pub bounded : String → ℤ → ℤ → ℤ → ℤ → Result String ℤ
bounded key default low high given =
    let val = if is_zero given then default else given in
    if ltb_ℤ val low || ltb_ℤ high val then err key else ok val

unfoldable pub load_bounded_int : Source → String → ℤ → ℤ → ℤ → Result String ℤ
unfolding given_or bounded
load_bounded_int src key default low high = do
  given ← given_or src key default
  bounded key default low high given

-- `SIGNING_KEY_PEM` and the like: PEM blocks by their type, and RSA keys.
pub data Block : Type 0 where
  pkcs1 pkcs8 unsupported : Block

-- `pem.Decode`, the two parsers of crypto/x509, and the size of the modulus. A PKCS#8 key that is
-- not RSA is `some none`.
pub record Keys (K : Type 0) : Type 0 where
  pub decode : String → Option (Block × List ℕ)
  pub parse_pkcs1 : List ℕ → Option K
  pub parse_pkcs8 : List ℕ → Option (Option K)
  pub bit_len : K → ℕ
  pub valid_url : String → Bool

abbrev pub unwrap : {A : Type 0} → Option (Option A) → Option A
unwrap none = none
unwrap (some o) = o

module _ {K : Type 0} (keys : Keys K) where
  -- The `switch` over the type of the block.
  abbrev pub parse_block : Block → List ℕ → Option K
  parse_block pkcs1 bytes = keys.parse_pkcs1 bytes
  parse_block pkcs8 bytes = unwrap (keys.parse_pkcs8 bytes)
  parse_block unsupported bytes = none

  abbrev pub long_enough : K → Option K
  long_enough key = if ltb (keys.bit_len key) 2048 then none else some key

  unfoldable pub parse_rsa_private_key : String → Option K
  parse_rsa_private_key pem =
      on_row (keys.decode pem) none
        (λ block. on_row (parse_block block.0 block.1) none (λ key. long_enough key))

  abbrev pub named_key : String → String → Result String K
  named_key name pem = on_row (parse_rsa_private_key pem) (err name) (λ key. ok key)

  -- The loop over the previous keys.
  unfoldable pub previous_keys : List String → Result String (List K)
  unfolding parse_rsa_private_key
  previous_keys [] = ok []
  previous_keys (pem ∷ pems) =
      let rest = previous_keys pems in
      if trim_space pem == "" then rest else do
        key ← named_key "SIGNING_KEY_PREVIOUS_PEM" (trim_space pem)
        keys ← rest
        ok (key ∷ keys)

  unfoldable pub load_signing_keys : Source → Result String (SigningKeySet K)
  unfolding previous_keys split trim_space parse_rsa_private_key
  load_signing_keys src = if src "SIGNING_KEY_PEM" == "" then err "SIGNING_KEY_PEM" else do
    current ← named_key "SIGNING_KEY_PEM" (src "SIGNING_KEY_PEM")
    previous ←
        if src "SIGNING_KEY_PREVIOUS_PEM" == ""
        then ok []
        else previous_keys (split (src "SIGNING_KEY_PREVIOUS_PEM") "---NEXT---")
    ok (record { current = current; previous = previous })

unfoldable pub load_lifetimes : Source → Result String Lifetimes
unfolding load_bounded_int
load_lifetimes src = do
  access ← load_bounded_int src "ACCESS_TOKEN_LIFETIME_MINUTES" (pos 15) (pos 1) (pos 60)
  refresh ← load_bounded_int src "REFRESH_TOKEN_LIFETIME_DAYS" (pos 7) (pos 1) (pos 90)
  auth_request ← load_bounded_int src "AUTH_REQUEST_TTL_MINUTES" (pos 30) (pos 1) (pos 60)
  ok (record {
    access_token_lifetime_minutes = access;
    refresh_token_lifetime_days = refresh;
    auth_request_ttl_minutes = auth_request;
  })

unfoldable pub load_pool : Source → Result String Pool
unfolding load_bounded_int
load_pool src = do
  open_conns ← load_bounded_int src "DB_MAX_OPEN_CONNS" (pos 25) (pos 1) (pos 500)
  idle_conns ← load_bounded_int src "DB_MAX_IDLE_CONNS" (pos 10) (pos 1) (pos 200)
  lifetime ← load_bounded_int src "DB_CONN_MAX_LIFETIME_SECONDS" (pos 300) (pos 10) (pos 3600)
  idle_time ← load_bounded_int src "DB_CONN_MAX_IDLE_TIME_SECONDS" (pos 180) (pos 10) (pos 1800)
  ok (record {
    max_open_conns = open_conns;
    max_idle_conns = idle_conns;
    conn_max_lifetime_secs = lifetime;
    conn_max_idle_time_secs = idle_time;
  })

unfoldable pub load_rate_limits : Source → Result String RateLimits
unfolding load_bounded_int
load_rate_limits src = do
  login ← load_bounded_int src "RATE_LIMIT_LOGIN_RPM" (pos 20) (pos 1) (pos 600)
  token ← load_bounded_int src "RATE_LIMIT_TOKEN_RPM" (pos 60) (pos 1) (pos 6000)
  global ← load_bounded_int src "RATE_LIMIT_GLOBAL_RPM" (pos 120) (pos 1) (pos 6000)
  ok (record {
    enabled = not (src "RATE_LIMIT_ENABLED" == "false");
    login_rpm = login;
    token_rpm = token;
    global_rpm = global;
  })

-- `CRYPTO_KEY`: 32 bytes
unfoldable pub load_crypto_key : Source → Result String (List ℕ)
unfolding hex_decode
load_crypto_key src =
    if src "CRYPTO_KEY" == ""
    then err "CRYPTO_KEY"
    else (on_row (hex_decode (src "CRYPTO_KEY")) (err "CRYPTO_KEY")
        (λ bytes. if nat_eq (length bytes) 32 then ok bytes else err "CRYPTO_KEY"))

module _ {K : Type 0} (keys : Keys K) where
  -- The tests of `ISSUER` and `DATABASE_URL`.
  unfoldable pub check_required : Source → Result String (Unit {0})
  check_required src =
      if src "ISSUER" == ""
      then err "ISSUER"
      else (if not (keys.valid_url (src "ISSUER"))
          then err "ISSUER"
          else (if src "DATABASE_URL" == "" then err "DATABASE_URL" else ok tt))

  -- One provider at least.
  unfoldable pub check_provider : Source → Result String (Unit {0})
  check_provider src =
      if (src "GOOGLE_CLIENT_ID" == "") && (src "GITHUB_CLIENT_ID" == "")
      then err "GOOGLE_CLIENT_ID"
      else ok tt

  unfoldable pub load_from : Source → Result String (Config K)
  unfolding get_from check_required load_crypto_key load_signing_keys check_provider load_lifetimes
      load_pool load_rate_limits
  load_from src = do
    _ ← check_required src
    crypto_key ← load_crypto_key src
    signing_keys ← load_signing_keys keys src
    _ ← check_provider src
    lifetimes ← load_lifetimes src
    pool ← load_pool src
    rate_limits ← load_rate_limits src
    ok (record {
      port = get_from src "PORT" "8080";
      grpc_port = get_from src "GRPC_PORT" "50051";
      issuer = src "ISSUER";
      database_url = src "DATABASE_URL";
      crypto_key = crypto_key;
      signing_keys = signing_keys;
      lifetimes = lifetimes;
      pool = pool;
      rate_limits = rate_limits;
      google_client_id = src "GOOGLE_CLIENT_ID";
      google_client_secret = src "GOOGLE_CLIENT_SECRET";
      github_client_id = src "GITHUB_CLIENT_ID";
      github_client_secret = src "GITHUB_CLIENT_SECRET";
    })
