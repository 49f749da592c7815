-- ===== src/Config/Blob.antt =====
-- The configuration of the blob service (blob-service/config/config.go); an error is the name of the
-- variable that it is about. Durations are in nanoseconds.
use hss_science.Base.{String, on_row, List, Result, ok, err, [], ◌==◌, ◌∷◌, if◌then◌else◌}
use hss_science.Base.Int.{ℤ, pos}
use hss_science.Base.Parse.{atoi, duration}
use hss_science.Base.Results.{◌>>=◌}
use hss_science.Config.Identity.{Source}

pub record BlobConfig : Type 0 where
  pub grpc_listen_addr : String
  pub database_url : String
  pub oidc_issuer_url : String
  pub r2_endpoint : String
  pub r2_bucket : String
  pub r2_access_key_id : String
  pub r2_secret_access_key : String
  pub presign_put_ttl : ℤ
  pub presign_get_max_ttl : ℤ
  pub multipart_threshold_bytes : ℤ
  pub db_max_open_conns : ℤ
  pub db_max_idle_conns : ℤ
  pub db_conn_max_lifetime_secs : ℤ
  pub db_conn_max_idle_time_secs : ℤ

unfoldable pub get_from : Source → String → String → String
get_from src key fallback = if src key == "" then fallback else src key

unfoldable pub load_int : Source → String → ℤ → Result String ℤ
unfolding atoi
load_int src key default =
    if src key == "" then ok default else on_row (atoi (src key)) (err key) (λ n. ok n)

-- `strconv.ParseInt(raw, 10, 64)` reads what `Atoi` reads.
unfoldable pub load_int64 : Source → String → ℤ → Result String ℤ
unfolding atoi
load_int64 src key default =
    if src key == "" then ok default else on_row (atoi (src key)) (err key) (λ n. ok n)

-- The loop over the required variables: those that are missing.
unfoldable pub missing : Source → List String → List String
missing src [] = []
missing src (key ∷ keys) = let rest = missing src keys in if src key == "" then key ∷ rest else rest

-- The error names the first; the source lists them all.
abbrev pub none_missing : List String → Result String (Unit {0})
none_missing [] = ok tt
none_missing (key ∷ keys) = err key

unfoldable pub load_from : Source → Result String BlobConfig
unfolding get_from load_int load_int64 missing duration
load_from src = do
  _ ← none_missing (
      missing src (
        "DATABASE_URL" ∷ "OIDC_ISSUER_URL" ∷ "R2_ENDPOINT" ∷ "R2_BUCKET" ∷ "R2_ACCESS_KEY_ID"
        ∷ "R2_SECRET_ACCESS_KEY" ∷ []))
  put_ttl ← load_int src "PRESIGN_PUT_TTL_SECONDS" (pos 900)
  get_ttl ← load_int src "PRESIGN_GET_TTL_MAX_SECONDS" (pos 3600)
  threshold ← load_int64 src "MULTIPART_THRESHOLD_BYTES" (pos 10_485_760)
  open_conns ← load_int src "DB_MAX_OPEN_CONNS" (pos 25)
  idle_conns ← load_int src "DB_MAX_IDLE_CONNS" (pos 5)
  lifetime ← load_int src "DB_CONN_MAX_LIFETIME_SECONDS" (pos 300)
  idle_time ← load_int src "DB_CONN_MAX_IDLE_TIME_SECONDS" (pos 180)
  ok (record {
    grpc_listen_addr = get_from src "GRPC_LISTEN_ADDR" ":50052";
    database_url = src "DATABASE_URL";
    oidc_issuer_url = src "OIDC_ISSUER_URL";
    r2_endpoint = src "R2_ENDPOINT";
    r2_bucket = src "R2_BUCKET";
    r2_access_key_id = src "R2_ACCESS_KEY_ID";
    r2_secret_access_key = src "R2_SECRET_ACCESS_KEY";
    presign_put_ttl = duration 1_000_000_000 put_ttl;
    presign_get_max_ttl = duration 1_000_000_000 get_ttl;
    multipart_threshold_bytes = threshold;
    db_max_open_conns = open_conns;
    db_max_idle_conns = idle_conns;
    db_conn_max_lifetime_secs = lifetime;
    db_conn_max_idle_time_secs = idle_time;
  })
