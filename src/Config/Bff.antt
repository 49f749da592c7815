-- ===== src/Config/Bff.antt =====
-- The configuration of the account backend (myaccount-bff/config/config.go); an error is the name of
-- the variable that it is about. Durations are in nanoseconds.
use hss_science.Base.{
  String, on_row, List, ℕ, nat_eq, Result, ok, err, length, [], ◌==◌, ◌||◌, ◌∷◌, if◌then◌else◌,
}
use hss_science.Base.Int.{ℤ, pos, ltb_ℤ}
use hss_science.Base.Parse.{atoi, hex_decode, split, trim_space, duration}
use hss_science.Base.Results.{◌>>=◌}
use hss_science.Config.Identity.{Source, is_zero}

pub record BffConfig : Type 0 where
  pub port : String
  pub oidc_issuer : String
  pub client_id : String
  pub client_secret : String
  pub redirect_url : String
  pub accounts_grpc : String
  pub redis_url : String
  pub session_key : List ℕ
  pub session_idle_ttl : ℤ
  pub session_hard_ttl : ℤ
  pub cors_origins : List String

unfoldable pub get_from : Source → String → String → String
get_from src key fallback = if src key == "" then fallback else src key

-- `raw != ""`, `strconv.Atoi`
unfoldable pub given_or : Source → String → ℤ → Result String ℤ
unfolding atoi
given_or src key default =
    if src key == "" then ok default else on_row (atoi (src key)) (err key) (λ n. ok n)

-- `if val == 0`, and the bounds
unfoldable pub bounded : String → ℤ → ℤ → ℤ → ℤ → Result String ℤ
bounded key default low high given =
    let val = if is_zero given then default else given in
    if ltb_ℤ val low || ltb_ℤ high val then err key else ok val

unfoldable pub load_bounded_int : Source → String → ℤ → ℤ → ℤ → Result String ℤ
unfolding given_or bounded
load_bounded_int src key default low high = do
  given ← given_or src key default
  bounded key default low high given

-- The variables that must be set, in the order of the tests.
unfoldable pub check_required : Source → List String → Result String (Unit {0})
check_required src [] = ok tt
check_required src (key ∷ keys) =
    let rest = check_required src keys in if src key == "" then err key else rest

unfoldable pub load_session_key : Source → Result String (List ℕ)
unfolding hex_decode
load_session_key src =
    if src "SESSION_KEY" == ""
    then err "SESSION_KEY"
    else (on_row (hex_decode (src "SESSION_KEY")) (err "SESSION_KEY")
        (λ bytes. if nat_eq (length bytes) 32 then ok bytes else err "SESSION_KEY"))

-- The loop over the parts of `CORS_ALLOWED_ORIGINS`.
unfoldable pub trimmed_origins : List String → List String
unfolding trim_space
trimmed_origins [] = []
trimmed_origins (o ∷ os) =
    let rest = trimmed_origins os in if trim_space o == "" then rest else trim_space o ∷ rest

abbrev pub some_origin : List String → Result String (List String)
some_origin [] = err "CORS_ALLOWED_ORIGINS"
some_origin (o ∷ os) = ok (o ∷ os)

unfoldable pub load_cors_origins : Source → Result String (List String)
unfolding trimmed_origins split
load_cors_origins src =
    if src "CORS_ALLOWED_ORIGINS" == ""
    then err "CORS_ALLOWED_ORIGINS"
    else some_origin (trimmed_origins (split (src "CORS_ALLOWED_ORIGINS") ","))

unfoldable pub load_from : Source → Result String BffConfig
unfolding get_from check_required load_session_key load_bounded_int load_cors_origins duration
load_from src = do
  _ ← check_required src (
      "OIDC_ISSUER" ∷ "CLIENT_ID" ∷ "CLIENT_SECRET" ∷ "REDIRECT_URL" ∷ "ACCOUNTS_GRPC_ADDR"
      ∷ "REDIS_URL" ∷ [])
  session_key ← load_session_key src
  idle_minutes ← load_bounded_int src "SESSION_IDLE_TTL_MINUTES" (pos 120) (pos 5) (pos 1440)
  hard_days ← load_bounded_int src "SESSION_HARD_TTL_DAYS" (pos 7) (pos 1) (pos 90)
  cors_origins ← load_cors_origins src
  ok (record {
    port = get_from src "PORT" "8080";
    oidc_issuer = src "OIDC_ISSUER";
    client_id = src "CLIENT_ID";
    client_secret = src "CLIENT_SECRET";
    redirect_url = src "REDIRECT_URL";
    accounts_grpc = src "ACCOUNTS_GRPC_ADDR";
    redis_url = src "REDIS_URL";
    session_key = session_key;
    session_idle_ttl = duration 60_000_000_000 idle_minutes;
    session_hard_ttl = duration 86_400_000_000_000 hard_days;
    cors_origins = cors_origins;
  })
