-- ===== src/Config/Within.antt =====
-- The numbers of a configuration of the identity service, within the bounds of its loader
-- (config/config.go).
use hss_science.Base.{ok, true, false, ◌≡◌, arith, refl, String, subst}
use hss_science.Base.Int.{ℤ, pos, leb_ℤ, ltb_ℤ}
use hss_science.Base.Results.{then_ok}
use hss_science.Config.Identity.{
  Source, Config, Lifetimes, Pool, RateLimits, bounded, given_or, load_bounded_int, load_lifetimes,
  load_pool, load_rate_limits,
}

abbrev pub Within : ℤ → ℤ → ℤ → Type 0
Within low high v = (leb_ℤ low v ≡ true) × (leb_ℤ v high ≡ true)

pub ltb-false : (a b : ℤ) → ltb_ℤ a b ≡ false → leb_ℤ b a ≡ true
ltb-false (pos a) (pos b) h = ground (arith, h)
ltb-false (pos a) (ℤ.negsuc b) h = refl
ltb-false (ℤ.negsuc a) (pos b) h = absurd (ground (arith, h))
ltb-false (ℤ.negsuc a) (ℤ.negsuc b) h = ground (arith, h)

bounded-Within :
    (key : String) (default low high given : ℤ) {v : ℤ}
    → bounded key default low high given ≡ ok v
    → Within low high v
unfolding bounded
bounded-Within key default low high given {v} h =
    (ltb-false v low (ground (arith, h)), ltb-false high v (ground (arith, h)))

load_bounded_int-Within :
    (src : Source) (key : String) (default low high v : ℤ) {u : ℤ}
    → load_bounded_int src key default low high ≡ ok u
    → u ≡ v
    → Within low high v
unfolding load_bounded_int
load_bounded_int-Within src key default low high v h e =
    let (given, _, h1) = then_ok (given_or src key default) (bounded key default low high) h in
    subst (Within low high) e (bounded-Within key default low high given h1)

-- The bounds of the configuration.
pub record InBounds {K : Type 0} (cfg : Config K) : Type 0 where
  pub access_token : Within (pos 1) (pos 60) cfg.lifetimes.access_token_lifetime_minutes
  pub refresh_token : Within (pos 1) (pos 90) cfg.lifetimes.refresh_token_lifetime_days
  pub auth_request : Within (pos 1) (pos 60) cfg.lifetimes.auth_request_ttl_minutes
  pub open_conns : Within (pos 1) (pos 500) cfg.pool.max_open_conns
  pub idle_conns : Within (pos 1) (pos 200) cfg.pool.max_idle_conns
  pub lifetime : Within (pos 10) (pos 3600) cfg.pool.conn_max_lifetime_secs
  pub idle_time : Within (pos 10) (pos 1800) cfg.pool.conn_max_idle_time_secs
  pub login_rpm : Within (pos 1) (pos 600) cfg.rate_limits.login_rpm
  pub token_rpm : Within (pos 1) (pos 6000) cfg.rate_limits.token_rpm
  pub global_rpm : Within (pos 1) (pos 6000) cfg.rate_limits.global_rpm

pub lifetimes-Within :
    (src : Source) (l : Lifetimes)
    → load_lifetimes src ≡ ok l
    → Within (pos 1) (pos 60) l.access_token_lifetime_minutes
      × Within (pos 1) (pos 90) l.refresh_token_lifetime_days
      × Within (pos 1) (pos 60) l.auth_request_ttl_minutes
unfolding load_lifetimes
lifetimes-Within src l h =
    let (a, ea, h1) = then_ok _ _ h in
    let (b, eb, h2) = then_ok _ _ h1 in
    let (c, ec, h3) = then_ok _ _ h2 in
    (
      load_bounded_int-Within src _ _ _ _ l.access_token_lifetime_minutes ea (ground (arith, h3)),
      load_bounded_int-Within src _ _ _ _ l.refresh_token_lifetime_days eb (ground (arith, h3)),
      load_bounded_int-Within src _ _ _ _ l.auth_request_ttl_minutes ec (ground (arith, h3)),
    )

pub pool-Within :
    (src : Source) (p : Pool)
    → load_pool src ≡ ok p
    → Within (pos 1) (pos 500) p.max_open_conns
      × Within (pos 1) (pos 200) p.max_idle_conns
      × Within (pos 10) (pos 3600) p.conn_max_lifetime_secs
      × Within (pos 10) (pos 1800) p.conn_max_idle_time_secs
unfolding load_pool
pool-Within src p h =
    let (a, ea, h1) = then_ok _ _ h in
    let (b, eb, h2) = then_ok _ _ h1 in
    let (c, ec, h3) = then_ok _ _ h2 in
    let (d, ed, h4) = then_ok _ _ h3 in
    (
      load_bounded_int-Within src _ _ _ _ p.max_open_conns ea (ground (arith, h4)),
      load_bounded_int-Within src _ _ _ _ p.max_idle_conns eb (ground (arith, h4)),
      load_bounded_int-Within src _ _ _ _ p.conn_max_lifetime_secs ec (ground (arith, h4)),
      load_bounded_int-Within src _ _ _ _ p.conn_max_idle_time_secs ed (ground (arith, h4)),
    )

pub limits-Within :
    (src : Source) (r : RateLimits)
    → load_rate_limits src ≡ ok r
    → Within (pos 1) (pos 600) r.login_rpm
      × Within (pos 1) (pos 6000) r.token_rpm
      × Within (pos 1) (pos 6000) r.global_rpm
unfolding load_rate_limits
limits-Within src r h =
    let (a, ea, h1) = then_ok _ _ h in
    let (b, eb, h2) = then_ok _ _ h1 in
    let (c, ec, h3) = then_ok _ _ h2 in
    (
      load_bounded_int-Within src _ _ _ _ r.login_rpm ea (ground (arith, h3)),
      load_bounded_int-Within src _ _ _ _ r.token_rpm eb (ground (arith, h3)),
      load_bounded_int-Within src _ _ _ _ r.global_rpm ec (ground (arith, h3)),
    )
