-- ===== src/Oidc/Cleanup.antt =====
-- The cleanup that runs beside the server (main.go of the identity service): at each tick of a clock
-- what has expired is deleted, and an error is only logged. And the claims of a user, as `main.go`
-- hands them to the adapter.
use hss_science.Base.{List, ℕ, ◌-◌, handle, pure, String, gets, [], ◌>>=◌, ◌∷◌, Action}
use hss_science.Domerr.{Error}
use hss_science.Identity.Users.{UserWorld}
use hss_science.Identity.Service.{get_user}
use hss_science.Oidc.Claims.{UserClaims}
use hss_science.Oidc.Tables.{OidcWorld}
use hss_science.Oidc.TokenRepo.{delete_expired}
use hss_science.Oidc.AuthRepo.{delete_expired_before}
use hss_science.Oidc.DeviceRepo.{delete_revoked_before}

unfoldable pub user_claims : String → Action UserWorld Error UserClaims
user_claims user_id = do
  user ← get_user user_id
  pure (record {
    subject = user.id;
    email = user.email;
    email_verified = user.email_verified;
    name = user.name;
    given_name = user.given_name;
    family_name = user.family_name;
    picture = user.picture;
    updated_at = user.updated_at;
  })

-- Which of the three tickers has fired.
pub data Tick : Type 0 where
  auth_requests tokens device_sessions : Tick

abbrev pub logged : {A : Type 0} → Action OidcWorld Error A → Action OidcWorld Error (Unit {0})
logged m = handle m (λ _. pure tt) (λ _. pure tt)

module _ (ttl max_age : ℕ) where
  -- The bodies of the three loops.
  unfoldable pub tick : Tick → Action OidcWorld Error (Unit {0})
  tick auth_requests = do now ← gets (λ w. w.clock); logged (delete_expired_before (now - ttl))
  tick tokens = do now ← gets (λ w. w.clock); logged (delete_expired now)
  tick device_sessions = do
    now ← gets (λ w. w.clock)
    logged (delete_revoked_before (now - max_age))

  -- Ticks at their times, one after the other.
  unfoldable pub run_ticks : List (ℕ × Tick) → OidcWorld → OidcWorld
  unfolding tick
  run_ticks [] w = w
  run_ticks ((now, t) ∷ ts) w = run_ticks ts (tick t (record w { clock = now })).1
