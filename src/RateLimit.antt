-- ===== src/RateLimit.antt =====
-- The rate limiter of the identity service (server/services/identity-service/internal/middleware/
-- ratelimit.go). What it takes from Go's libraries is a parameter: addresses and their parsing, and
-- the token bucket of one client.
use Prim.Native.Char.{code}
use Prim.Native.Nat.{◌/◌}
use hss_science.Base.{
  ℕ, String, Bool, true, false, ◌+◌, ◌||◌, ◌==◌, ◌≡◌, Option, none, some, List, [], ◌∷◌, arith,
  nat_eq, ltb, eq_iff, if◌then◌else◌, on_row, Bool-cases, inl, inr,
}
use hss_science.Base.Sql.Rows.{find, delete}

-- The parts of an `http.Request` that are read.
pub record Request : Type 0 where
  pub remote_addr : String
  pub header : String → String

pub record Entry (L : Type 0) : Type 0 where
  pub ip : String
  pub limiter : L
  pub last_seen : ℕ

-- `strings.IndexByte(xff, ',')` and the text before it
unfoldable pub before_comma : String → String
before_comma String.[] = String.[]
before_comma (String.◌∷◌ c s) =
    let rest = before_comma s in if nat_eq (code c) 44 then String.[] else String.◌∷◌ c rest

-- `net.ParseIP`, `ip.String()`, `ip.IsLoopback()`, `IPNet.Contains`, the host of
-- `net.SplitHostPort`, `strings.TrimSpace`
pub record Network (Ip : Type 0) : Type 0 where
  pub parse : String → Option Ip
  pub print : Ip → String
  pub is_loopback : Ip → Bool
  pub contains : String → Ip → Bool
  pub split_host : String → Option String
  pub trim_space : String → String

abbrev private_ranges : List String
private_ranges = "10.0.0.0/8" ∷ "172.16.0.0/12" ∷ "192.168.0.0/16" ∷ "fc00::/7" ∷ []

module _ {Ip : Type 0} (net : Network Ip) where
  in_some : List String → Ip → Bool
  in_some [] ip = false
  in_some (r ∷ rs) ip = net.contains r ip || in_some rs ip

  unfoldable pub is_private : Ip → Bool
  unfolding in_some
  is_private ip = in_some private_ranges ip

  unfoldable pub host_of : Request → String
  host_of r = on_row (net.split_host r.remote_addr) r.remote_addr (λ host. host)

  unfoldable pub is_internal_request : Request → Bool
  unfolding host_of is_private
  is_internal_request r =
      on_row (net.parse (host_of r)) false (λ ip. net.is_loopback ip || is_private ip)

  -- The address in `CF-Connecting-IP`, where there is one.
  unfoldable pub connecting_ip : Request → Option Ip
  connecting_ip r =
      let cf = r.header "CF-Connecting-IP" in
      if cf == "" then none else net.parse (net.trim_space cf)

  -- The first address in `X-Forwarded-For`, where there is one.
  unfoldable pub forwarded_ip : Request → Option Ip
  unfolding before_comma
  forwarded_ip r =
      let xff = r.header "X-Forwarded-For" in
      if xff == "" then none else net.parse (net.trim_space (before_comma xff))

  unfoldable pub proxied : Request → String
  unfolding host_of forwarded_ip
  proxied r =
      let host = host_of r in
      if (host == "127.0.0.1") || (host == "::1")
      then on_row (forwarded_ip r) host (λ ip. net.print ip)
      else host

  unfoldable pub client_ip : Request → String
  unfolding connecting_ip proxied
  client_ip r = on_row (connecting_ip r) (proxied r) (λ ip. net.print ip)

  -- A request that is limited is counted under its Cloudflare address or, without one, under the host
  -- that it comes from. If the loopback addresses are recognised, `X-Forwarded-For` is never read
  -- for it: a request from such a host is internal, and not limited at all.
  forwarded_for_unread :
      (r : Request) (v4 v6 : Ip)
      → net.parse "127.0.0.1" ≡ some v4
      → net.is_loopback v4 ≡ true
      → net.parse "::1" ≡ some v6
      → net.is_loopback v6 ≡ true
      → is_internal_request r ≡ false
      → client_ip r ≡ on_row (connecting_ip r) (host_of r) (λ ip. net.print ip)
  unfolding is_internal_request client_ip proxied
  forwarded_for_unread r v4 v6 p4 l4 p6 l6 outer = elim (Bool-cases (host_of r == "127.0.0.1")) [
    | inl e ↦ absurd (loopback "127.0.0.1" v4 p4 l4 ((eq_iff (host_of r) "127.0.0.1").0 e))
    | inr e ↦ elim (Bool-cases (host_of r == "::1")) [
      | inl f ↦ absurd (loopback "::1" v6 p6 l6 ((eq_iff (host_of r) "::1").0 f))
      | inr f ↦ ground (arith, e, f)
    ]
  ]
    where
      loopback :
          (name : String) (ip : Ip)
          → net.parse name ≡ some ip
          → net.is_loopback ip ≡ true
          → host_of r ≡ name
          → ⊥
      loopback name ip p l e = ground (arith, outer, p, l, e)

  -- `rate.NewLimiter` and `Allow` at a time
  module _ {L : Type 0} (new_limiter : L) (take : ℕ → L → Bool × L) where
    abbrev limiter_of : Option (Entry L) → L
    limiter_of none = new_limiter
    limiter_of (some e) = e.limiter

    unfoldable pub allow : ℕ → Request → List (Entry L) → Bool × List (Entry L)
    unfolding is_internal_request client_ip
    allow now r entries =
        if is_internal_request r
        then (true, entries)
        else (let ip = client_ip r in
            let (verdict, limiter) = take now (limiter_of (find (λ e. e.ip == ip) entries)) in
            (
              verdict,
              record { ip = ip; limiter = limiter; last_seen = now }
                  ∷ delete (λ e. e.ip == ip) entries,
            ))

-- `e.lastSeen.Before(time.Now().Add(-ttl))`
unfoldable pub cleanup : {L : Type 0} → ℕ → ℕ → List (Entry L) → List (Entry L)
cleanup now ttl entries = delete (λ e. ltb (e.last_seen + ttl) now) entries

-- The burst of the limiter of all requests, as `main.go` makes it: `cfg.RateLimitGlobalRPM/4`.
abbrev pub global_burst : ℕ → ℕ
global_burst rpm = rpm / 4

-- The paths on which `tokenPathLimiter` limits.
unfoldable pub is_token_path : String → Bool
is_token_path path =
    path == "/oauth/v2/token"
    || (path == "/token"
        || (path == "/oauth/token" || (path == "/oauth/v2/introspect" || path == "/introspect")))

-- `tokenPathLimiter`: whether the request goes on, and the entries.
module _ {Ip L : Type 0} (net : Network Ip) (new_limiter : L) (take : ℕ → L → Bool × L) where
  unfoldable pub token_path_limiter : ℕ → String → Request → List (Entry L) → Bool × List (Entry L)
  unfolding is_token_path allow
  token_path_limiter now path r entries =
      if is_token_path path then allow net new_limiter take now r entries else (true, entries)
