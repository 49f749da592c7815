-- ===== src/Tests/Cleanups.antt =====
-- The cleanup beside a user's live tokens, and the theorem on it.
use hss_science.Base.Sql.Rows.{find}
use hss_science.Base.{ℕ, List, none, [], ◌∷◌, arith, refl, inl, false}
use hss_science.Oidc.Tables.{Db, TokenRow, AuthRequestRow}
use hss_science.Oidc.Cleanup.{Tick, auth_requests, tokens, device_sessions, run_ticks}
use hss_science.Oidc.Spared.{Spared, cleanup_spares}
use hss_science.Tests.Sessions.{db, world_of, laptop, old_row}

abbrev good_token : TokenRow
good_token = record {
  id = "a1";
  client_id = "bff";
  subject = "alice";
  audience = [];
  scopes = [];
  expiration = 90;
  refresh_token_id = none;
  created_at = 1;
}

abbrev spent_token : TokenRow
spent_token = record good_token { id = "a0"; expiration = 2 }

abbrev login : AuthRequestRow
login = record {
  id = "ar";
  client_id = "bff";
  redirect_uri = "https://bff/callback";
  state = "s";
  nonce = "n";
  scopes = [];
  response_type = "code";
  response_mode = "";
  code_challenge = "c";
  code_challenge_method = "S256";
  prompt = [];
  max_age = none;
  login_hint = "";
  user_id = none;
  auth_time = none;
  amr = [];
  is_done = false;
  code = none;
  device_session_id = none;
  created_at = 36;
}

abbrev stored : Db
stored = record db { auth_requests = login ∷ []; tokens = spent_token ∷ good_token ∷ [] }

abbrev ticks : List (ℕ × Tick)
ticks = (10, tokens) ∷ (20, device_sessions) ∷ (30, auth_requests) ∷ (40, tokens) ∷ []

cleanup_spares_example :
    Spared old_row good_token laptop login (run_ticks 5 3 ticks (world_of stored)).tables
unfolding find
cleanup_spares_example =
    cleanup_spares old_row good_token laptop login 5 3 ticks (world_of stored)
      (
        (omega arith, omega arith, omega arith),
        (
          (omega arith, omega arith, omega arith),
          ((omega arith, omega arith, omega arith), ((omega arith, omega arith, omega arith), tt)),
        ),
      )
      refl
      (record {
        request = record { device = none; same = inl refl; stored = refl };
        refresh = refl;
        access = refl;
        session = refl;
      })
