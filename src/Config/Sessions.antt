-- ===== src/Config/Sessions.antt =====
-- What a configuration of the account backend that loads is sure to hold.
use Prim.Native.Nat.{◌%◌}
use hss_science.Base.{
  All, ok, ◌≢◌, length, inl, inr, List, ℕ, ◌≤◌, ◌<◌, ◌*◌, [], ◌==◌, ◌∷◌, ◌≡◌, arith, String,
  Bool-cases, eq_iff, subst, Option-cases, ◌∙◌, ap,
}
use hss_science.Base.Int.{ℤ, pos}
use hss_science.Base.Parse.{trim_space, hex_decode, duration, split}
use hss_science.Base.Results.{then_ok}
use hss_science.Config.Within.{ltb-false, Within}
use hss_science.Config.Identity.{Source}
use hss_science.Config.Bff.{
  BffConfig, bounded, given_or, load_bounded_int, trimmed_origins, some_origin, load_cors_origins,
  load_session_key, load_from,
}

load_bounded_int-Within :
    (src : Source) (key : String) (default low high : ℤ) {v : ℤ}
    → load_bounded_int src key default low high ≡ ok v
    → Within low high v
unfolding load_bounded_int bounded
load_bounded_int-Within src key default low high {v} h =
    let (given, _, h1) = then_ok (given_or src key default) (bounded key default low high) h in
    (ltb-false v low (ground (arith, h1)), ltb-false high v (ground (arith, h1)))

-- A positive number of units that fits into 63 bits is not wrapped.
duration_exact :
    (unit n : ℕ) → n * unit < 9223372036854775808 → duration unit (pos n) ≡ pos (n * unit)
unfolding duration
duration_exact unit n fits =
    let whole : (n * unit) % 18446744073709551616 ≡ n * unit = omega (arith, fits) in
    ground (arith, whole, fits)

-- A number within bounds that are positive is a positive number of units.
within_duration :
    (unit low high : ℕ) (v : ℤ)
    → 0 < low
    → ((n : ℕ) → n ≤ high → n * unit < 9223372036854775808)
    → Within (pos low) (pos high) v
    → (n : ℕ) × (low ≤ n) × (n ≤ high) × (duration unit v ≡ pos (n * unit))
within_duration unit low high (ℤ.negsuc v) some_low fits h = absurd (ground (arith, h))
within_duration unit low high (pos n) some_low fits h =
    (n, ground (arith, h), ground (arith, h), duration_exact unit n (fits n (ground (arith, h))))

trimmed_origins-All : (os : List String) → All (λ o. o ≢ "") (trimmed_origins os)
unfolding trimmed_origins
trimmed_origins-All [] = tt
trimmed_origins-All (o ∷ os) = elim (Bool-cases (trim_space o == "")) [
  | inl blank ↦ rw blank (trimmed_origins-All os)
  | inr given ↦
      rw given (λ z. ground (arith, given, z, eq_iff (trim_space o) ""), trimmed_origins-All os)
]

some_origin-All :
    (found : List String) {os : List String} → some_origin found ≡ ok os → (os ≢ []) × (found ≡ os)
some_origin-All [] h = absurd (ground (arith, h))
some_origin-All (o ∷ found) h = (λ z. ground (arith, h, z), ground (arith, h))

load_cors_origins-All :
    (src : Source) (os : List String)
    → load_cors_origins src ≡ ok os
    → (os ≢ []) × All (λ o. o ≢ "") os
unfolding load_cors_origins
load_cors_origins-All src os h = elim (Bool-cases (src "CORS_ALLOWED_ORIGINS" == "")) [
  | inl absent ↦ absurd (ground (arith, rw absent at h))
  | inr given ↦
      let parts = split (src "CORS_ALLOWED_ORIGINS") "," in
      let (any, same) = some_origin-All (trimmed_origins parts) (rw given at h) in
      (any, subst (All (λ o. o ≢ "")) same (trimmed_origins-All parts))
]

session_key_length :
    (src : Source) (bytes : List ℕ) → load_session_key src ≡ ok bytes → length bytes ≡ 32
unfolding load_session_key
session_key_length src bytes h = elim (Option-cases (hex_decode (src "SESSION_KEY"))) [
  | inl e ↦ absurd (ground (arith, h, e))
  | inr (decoded, e) ↦
      let same : decoded ≡ bytes = ground (arith, h, e) in
      subst (λ (b : List ℕ). length b ≡ 32) same (ground (arith, h, e))
]

-- A configuration of the account backend that loads has lifetimes of sessions that are exact, not
-- wrapped: 5 to 1440 minutes idle and 1 to 90 days in all; a key of 32 bytes; and one allowed origin
-- at least, none of them empty.
pub load_from-lifetimes :
    (src : Source) (cfg : BffConfig)
    → load_from src ≡ ok cfg
    → ((n : ℕ) × (5 ≤ n) × (n ≤ 1440) × (cfg.session_idle_ttl ≡ pos (n * 60_000_000_000)))
      × ((d : ℕ) × (1 ≤ d) × (d ≤ 90) × (cfg.session_hard_ttl ≡ pos (d * 86_400_000_000_000)))
      × (length cfg.session_key ≡ 32)
      × (cfg.cors_origins ≢ [])
      × All (λ o. o ≢ "") cfg.cors_origins
unfolding load_from
load_from-lifetimes src cfg h =
    let (_, _, h1) = then_ok _ _ h in
    let (key, ek, h2) = then_ok _ _ h1 in
    let (idle, ei, h3) = then_ok _ _ h2 in
    let (hard, eh, h4) = then_ok _ _ h3 in
    let (origins, eo, h5) = then_ok _ _ h4 in
    let (n, n1, n2, n3) =
      within_duration 60_000_000_000 5 1440 idle (omega arith) (λ n b. omega (arith, b))
        (load_bounded_int-Within src _ _ _ _ ei) in
    let (d, d1, d2, d3) =
      within_duration 86_400_000_000_000 1 90 hard (omega arith) (λ n b. omega (arith, b))
        (load_bounded_int-Within src _ _ _ _ eh) in
    let same : key ≡ cfg.session_key = ground (arith, h5) in
    let same_origins : origins ≡ cfg.cors_origins = ground (arith, h5) in
    let (any, all) = load_cors_origins-All src cfg.cors_origins (eo ∙ ap ok same_origins) in
    (
      (n, n1, n2, ground (arith, h5, n3)),
      (d, d1, d2, ground (arith, h5, d3)),
      session_key_length src cfg.session_key (ek ∙ ap ok same),
      any,
      all,
    )
