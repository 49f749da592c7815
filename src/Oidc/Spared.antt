-- ===== src/Oidc/Spared.antt =====
-- What the cleanup spares: whatever is still good.
use mathlib.Core.Option
use text.Mathlib.TextPositions.{eq_refl}
use hss_science.Base.{
  All, List, ℕ, ◌-◌, ◌<◌, ◌≤◌, some, none, true, false, handle, pure, gets, [], ◌==◌, ◌∷◌, ◌≡◌,
  arith, refl, Bool, Action, ltb, Option-cases, Bool-cases, Result-cases, inl, ap, inr, ◌∙◌, ◌&&◌,
  if◌then◌else◌, String, ◌>>=◌, eq_iff, subst, sym, Option, ◌+◌, ◌⊎◌,
}
use hss_science.Base.Sql.Keeps.{Keeps, Keeps-statement, Keeps-bind, Keeps-pure}
use hss_science.Base.Sql.Rows.{find, delete, find-update, update}
use hss_science.Domerr.{Error, other}
use hss_science.Oidc.Domain.{DeviceSession}
use hss_science.Oidc.Tables.{
  Db, OidcWorld, TokenRow, RefreshRow, has_hash, session_id, of_session, is_taken, AuthRequestRow,
}
use hss_science.Oidc.TokenRepo.{delete_expired, delete_tokens, delete_refresh_tokens}
use hss_science.Oidc.AuthRepo.{delete_expired_before, request_id}
use hss_science.Oidc.DeviceRepo.{
  delete_revoked_before, delete_sessions, long_revoked, refers_to_deleted,
}
use hss_science.Oidc.Cleanup.{Tick, auth_requests, tokens, device_sessions, logged, tick, run_ticks}

-- The request is stored as it was, but that its device session may have been unset.
pub record Stays (q : AuthRequestRow) (rows : List AuthRequestRow) : Type 0 where
  pub device : Option String
  pub same : (device ≡ q.device_session_id) ⊎ (device ≡ none)
  pub stored : find (request_id q.id) rows ≡ some (record q { device_session_id = device })

-- What a cleanup has to spare.
pub record Spared (r : RefreshRow) (a : TokenRow) (s : DeviceSession) (q : AuthRequestRow) (t : Db)
    : Type 0 where
  pub request : Stays q t.auth_requests
  pub refresh : find (has_hash r.token_hash) t.refresh_tokens ≡ some r
  pub access : find (λ x. x.id == a.id) t.tokens ≡ some a
  pub session : find (session_id s.id) t.device_sessions ≡ some s

find-delete_kept :
    {A : Type 0} (p q : A → Bool) (xs : List A) {x : A}
    → p x ≡ false
    → find q xs ≡ some x
    → find q (delete p xs) ≡ some x
unfolding find delete
find-delete_kept p q [] kept h = absurd (ground (arith, h))
find-delete_kept p q (y ∷ ys) {x} kept h = elim (Bool-cases (q y)) [
  | inl hit ↦
      let same : y ≡ x = ground (arith, h, hit) in
      let stays : p y ≡ false = ap p same ∙ kept in rw (stays, hit) (ap some same)
  | inr miss ↦ let rest = find-delete_kept p q ys kept (rw miss at h) in ground (arith, miss, rest)
]

find-ne-none :
    {A : Type 0} (p q : A → Bool) (xs : List A) {x : A}
    → find q xs ≡ some x
    → p x ≡ true
    → is_taken (find p xs) ≡ true
unfolding find
find-ne-none p q [] h hit = absurd (ground (arith, h))
find-ne-none p q (y ∷ ys) {x} h hit = elim (Bool-cases (q y)) [
  | inl e ↦ let same : y ≡ x = ground (arith, h, e) in rw (ap p same ∙ hit) refl
  | inr e ↦ let rest = find-ne-none p q ys (rw e at h) hit in ground (arith, rest)
]

logged_same : {A : Type 0} (m : Action OidcWorld Error A) (w : OidcWorld) → (logged m w).1 ≡ (m w).1
unfolding handle pure
logged_same m w = elim (Result-cases (m w).0) [ inl (a, e) ↦ rw e refl | inr (x, e) ↦ rw e refl ]

unset-Stays :
    (q : AuthRequestRow) (p : AuthRequestRow → Bool) (rows : List AuthRequestRow)
    → Stays q rows
    → Stays q (update p (λ x. record x { device_session_id = none }) rows)
unset-Stays q p rows h =
    let moved =
      find-update p (λ x. record x { device_session_id = none }) (request_id q.id) rows (λ x. refl)
      ∙ ap (Option.map (λ x. if p x then record x { device_session_id = none } else x)) h.stored in
    elim (Bool-cases (p (record q { device_session_id = h.device }))) [
      | inl e ↦ record { device = none; same = inr refl; stored = moved ∙ rw e refl }
      | inr e ↦ record { device = h.device; same = h.same; stored = moved ∙ rw e refl }
    ]

module _ (r : RefreshRow) (a : TokenRow) (s : DeviceSession) (q : AuthRequestRow) where
  tokens-Keeps :
      (now : ℕ)
      → now < r.expiration
      → now ≤ a.expiration
      → Keeps (Spared r a s q) (delete_expired now)
  unfolding delete_expired
  tokens-Keeps now before_r before_a =
      Keeps-bind _ _
        (Keeps-statement other (delete_tokens (λ t. ltb t.expiration now)) λ t h. record {
          request = h.request;
          refresh = h.refresh;
          access =
              find-delete_kept (λ x. ltb x.expiration now) (λ x. x.id == a.id) t.tokens
                (ground arith) h.access;
          session = h.session;
        })
        λ n.
          Keeps-bind _ _
            (Keeps-statement other (delete_refresh_tokens (λ x. ltb x.expiration now)) λ t h.
              record {
                request = h.request;
                refresh =
                    find-delete_kept (λ x. ltb x.expiration now) (has_hash r.token_hash)
                      t.refresh_tokens (ground arith) h.refresh;
                access = h.access;
                session = h.session;
              })
            λ m. Keeps-pure (n, m)

  requests-Keeps :
      (before : ℕ) → before ≤ q.created_at → Keeps (Spared r a s q) (delete_expired_before before)
  unfolding delete_expired_before
  requests-Keeps before young = Keeps-statement _ _ λ t h. record {
    request = record {
      device = h.request.device;
      same = h.request.same;
      stored =
          find-delete_kept (λ x. ltb x.created_at before) (request_id q.id) t.auth_requests
            (ground (arith, young)) h.request.stored;
    };
    refresh = h.refresh;
    access = h.access;
    session = h.session;
  }

  unrevoked :
      (before now : ℕ) (db : Db) (d : String) (x : DeviceSession)
      → now < r.expiration
      → find (has_hash r.token_hash) db.refresh_tokens ≡ some r
      → r.device_session_id ≡ some d
      → (x.id == d && long_revoked before now db x) ≡ false
  unrevoked before now db d x live there e = elim (Bool-cases (x.id == d)) [
    | inr other_id ↦ rw other_id refl
    | inl same ↦
        let named : x.id ≡ d = (eq_iff x.id d).0 same in
        let bound : of_session x.id r ≡ true =
          rw e (subst (λ k. (d == k) ≡ true) (sym named) (eq_refl d)) in
        let seen =
          find-ne-none (λ q. of_session x.id q && ltb now q.expiration) (has_hash r.token_hash)
            db.refresh_tokens there (ground (arith, bound, live)) in
        ground (arith, same, seen)
  ]

  none_deleted :
      (before now : ℕ) (db : Db) (d : String) (xs : List DeviceSession)
      → now < r.expiration
      → find (has_hash r.token_hash) db.refresh_tokens ≡ some r
      → r.device_session_id ≡ some d
      → find (λ x. x.id == d && long_revoked before now db x) xs ≡ none
  unfolding find
  none_deleted before now db d [] live there e = refl
  none_deleted before now db d (x ∷ xs) live there e =
      rw (unrevoked before now db d x live there e) (none_deleted before now db d xs live there e)

  -- The session of a live refresh token is not deleted, so the token still refers to it.
  still_refers :
      (before now : ℕ) (db : Db)
      → now < r.expiration
      → find (has_hash r.token_hash) db.refresh_tokens ≡ some r
      → refers_to_deleted before now db r ≡ false
  still_refers before now db live there = elim (Option-cases r.device_session_id) [
    | inl e ↦ rw e refl
    | inr (d, e) ↦ rw e (ap is_taken (none_deleted before now db d db.device_sessions live there e))
  ]

  delete_sessions-Spared :
      (before now : ℕ) (db : Db)
      → now < r.expiration
      → s.revoked_at ≡ none
      → Spared r a s q db
      → Spared r a s q (delete_sessions before now db).1
  unfolding delete_sessions
  delete_sessions-Spared before now db live active h = record {
    request = unset-Stays q _ db.auth_requests h.request;
    refresh =
        find-update (refers_to_deleted before now db) (λ x. record x { device_session_id = none })
          (has_hash r.token_hash) db.refresh_tokens (λ x. refl)
        ∙ ap
            (Option.map (λ x.
              if refers_to_deleted before now db x
              then record x { device_session_id = none }
              else x))
            h.refresh
        ∙ rw (still_refers before now db live h.refresh) refl;
    access = h.access;
    session =
        find-delete_kept (long_revoked before now db) (session_id s.id) db.device_sessions
          (rw active refl) h.session;
  }

  sessions-Spared :
      (before : ℕ) (w : OidcWorld)
      → w.clock < r.expiration
      → s.revoked_at ≡ none
      → Spared r a s q w.tables
      → Spared r a s q (delete_revoked_before before w).1.tables
  unfolding delete_revoked_before gets ◌>>=◌
  sessions-Spared before w live active h =
      (Keeps-statement {P = Spared r a s q} other (delete_sessions before w.clock)
          (λ t k. delete_sessions-Spared before w.clock t live active k)).at
        w h

  module _ (ttl max_age : ℕ) where
    tick-Spared :
        (t : Tick) (w : OidcWorld)
        → w.clock < r.expiration
        → w.clock ≤ a.expiration
        → w.clock ≤ q.created_at + ttl
        → s.revoked_at ≡ none
        → Spared r a s q w.tables
        → Spared r a s q (tick ttl max_age t w).1.tables
    unfolding tick gets ◌>>=◌
    tick-Spared auth_requests w live good young active h =
        subst (λ v. Spared r a s q v.tables)
          (sym (logged_same (delete_expired_before (w.clock - ttl)) w))
          ((requests-Keeps (w.clock - ttl) (ground (arith, young))).at w h)
    tick-Spared tokens w live good young active h =
        subst (λ v. Spared r a s q v.tables) (sym (logged_same (delete_expired w.clock) w))
          ((tokens-Keeps w.clock live good).at w h)
    tick-Spared device_sessions w live good young active h =
        subst (λ v. Spared r a s q v.tables)
          (sym (logged_same (delete_revoked_before (w.clock - max_age)) w))
          (sessions-Spared (w.clock - max_age) w live active h)

    -- The cleanup takes away nothing that is still good: whatever tickers fire, in whatever order
    -- and with whatever faults, a refresh token and an access token that outlive all of the ticks,
    -- a device session that is not revoked, and an auth request whose lifetime no tick is past are
    -- stored afterwards as they were before, but that the request may no longer name its device
    -- session.
    pub cleanup_spares :
        (ticks : List (ℕ × Tick)) (w : OidcWorld)
        → All (λ p. (p.0 < r.expiration) × (p.0 ≤ a.expiration) × (p.0 ≤ q.created_at + ttl)) ticks
        → s.revoked_at ≡ none
        → Spared r a s q w.tables
        → Spared r a s q (run_ticks ttl max_age ticks w).tables
    unfolding run_ticks
    cleanup_spares [] w good active h = h
    cleanup_spares ((now, t) ∷ ts) w good active h =
        cleanup_spares ts (tick ttl max_age t (record w { clock = now })).1 good.1 active
          (tick-Spared t (record w { clock = now }) good.0.0 good.0.1 good.0.2 active h)
