-- ===== src/Tests/Callbacks.antt =====
-- The callback of a login at the account page, and the theorem on it.
use hss_science.Base.Sql.{statement, mint}
use hss_science.Bff.Sessions.{save, load_and_delete_state}
use hss_science.Base.{map_err, ◌>>=◌, [], ◌∷◌, ◌≡◌, refl}
use hss_science.Base.{String, ℕ, none, some, ok, [], ◌∷◌, ◌≡◌, refl}
use hss_science.Base.Sql.{World}
use hss_science.Base.Sql.Rows.{find}
use hss_science.Bff.Sessions.{Entry, Redis}
use hss_science.Bff.Login.{Rp, OauthToken, callback}
use hss_science.Bff.Callback.{Exchanged, callback_starts}

abbrev token : OauthToken
token = record {
  access_token = "h.p.s";
  refresh_token = "r";
  expiry = 900;
  extra_id_token = some "id";
}

abbrev provider : Rp (Unit {0})
provider = record {
  generate_verifier = λ n. "v";
  auth_code_url = λ state verifier. "https://id";
  exchange = λ code verifier o. (ok token, o);
  token_source = λ raw o. (ok token, o);
  verify = λ raw o. (ok "alice", o);
  end_session_endpoint = none;
  raw_decode = λ s. some [];
  dsid_claim = λ bytes. "dev";
}

abbrev left : Entry String
left = record { key = "state"; value = "v"; expires = 600 }

abbrev before : World Redis (Unit {0})
before = record {
  tables = record { sessions = []; locks = []; states = left ∷ [] };
  outside = tt;
  faults = [];
  clock = 50;
  minted = 0;
}

abbrev ids : ℕ → String
ids n = "sid"

abbrev after : World Redis (Unit {0})
after = (callback provider ids 1000 5000 "code" "state" before).1

starts : callback provider ids 1000 5000 "code" "state" before ≡ (ok "sid", after)
unfolding callback ◌>>=◌ map_err load_and_delete_state statement find mint save
starts = refl

callback_starts_example : Exchanged provider 1000 "code" "state" "sid" before after
callback_starts_example =
    callback_starts provider ids 1000 5000 "code" "state" before after "sid" starts
