-- ===== src/Bff/Mutex.antt =====
-- Two requests do not hold the refresh lock of a session at one time, as long as each releases it in
-- its time.
use hss_science.Bff.Sessions.{
  Redis, Entry, live, put, acquire_refresh_lock, release_refresh_lock, lock_ttl, Session, save,
}
use hss_science.Base.Sql.{World, statement, call_outside}
use hss_science.Base.Sql.Rows.{find, find_sound}
use hss_science.Bff.Exclusion.{
  Requests, assign, InTime, Step, acquires, releases, works, Reach, initially, later, IsExclusive,
  acquire-eq-true, release-clock, find_stronger,
}
use hss_science.Base.{
  ◌≡◌, arith, ℕ, String, Option, none, ok, some, ◌≤◌, ◌⊎◌, true, Bool-cases, inl, nat_eq, inr, ◌+◌,
  ◌∙◌, sym, ◌≢◌, List, ap, eq_iff, subst, refl, Action, map_err, handle, gets, pure, ◌>>=◌,
}
use hss_science.Bff.Auth.{NewToken, refresh_locked, RefreshError}
use hss_science.Base.Sql.Keeps.{Keeps, Keeps-bind, keeps_rules, Keeps-gets, Keeps-statement}

assign-eq-some :
    (i j : ℕ) (p : Option ℕ) (f : ℕ → Option ℕ) (a : ℕ)
    → assign i p f j ≡ some a
    → ((j ≡ i) × (p ≡ some a)) ⊎ (f j ≡ some a)
assign-eq-some i j p f a h = elim (Bool-cases (nat_eq j i)) [
  | inl hit ↦ inl (ground (arith, hit), ground (arith, hit, h))
  | inr miss ↦ inr (ground (arith, miss, h))
]

assign-none-eq-some :
    (i j : ℕ) (f : ℕ → Option ℕ) (a : ℕ) → assign i none f j ≡ some a → (f j ≡ some a) × (i ≢ j)
assign-none-eq-some i j f a h = elim (Bool-cases (nat_eq j i)) [
  | inl hit ↦ absurd (ground (arith, hit, h))
  | inr miss ↦ (ground (arith, miss, h), λ same. ground (arith, same, miss))
]

-- A lock is live once it is set.
put-live :
    (sid : String) (now : ℕ) (es : List (Entry (Unit {0})))
    → find (live now sid) (put sid tt (now + lock_ttl) es)
      ≡ some (record { key = sid; value = tt; expires = now + lock_ttl })
unfolding find
put-live sid now es = ground (arith, eq_iff sid sid)

module _ {O : Type 0} (sid : String) where
  -- Where no lock is live, nobody holds one in time.
  nobody :
      (s : Requests O) (i a : ℕ)
      → IsExclusive sid s
      → find (live s.world.clock sid) s.world.tables.locks ≡ none
      → s.since i ≡ some a
      → InTime s.world.clock a
      → ⊥
  nobody s i a inv free holds fresh =
      let (e, there, due) = inv.locked i a holds fresh in ground (arith, free, there)

  acquires-IsExclusive :
      (s : Requests O) (i : ℕ) (v : World Redis O)
      → acquire_refresh_lock sid s.world ≡ (ok true, v)
      → IsExclusive sid s
      → IsExclusive sid (record { world = v; since = assign i (some s.world.clock) s.since })
  acquires-IsExclusive s i v h inv =
      let (free, locks, same) = acquire-eq-true sid s.world v h in
      let owner : (j b : ℕ)
          → assign i (some s.world.clock) s.since j ≡ some b
          → InTime v.clock b
          → (j ≡ i) × (s.world.clock ≡ b) =
        λ j b holds fresh. elim (assign-eq-some i j (some s.world.clock) s.since b holds) [
          | inl (is_i, at) ↦ (is_i, ground (arith, at))
          | inr older ↦ absurd (nobody s j b inv free older (rw same at fresh))
        ] in
      record {
        locked = λ j b holds fresh.
            let (is_i, at) = owner j b holds fresh in
            (
              record { key = sid; value = tt; expires = s.world.clock + lock_ttl },
              rw (same, locks) (put-live sid s.world.clock s.world.tables.locks),
              ap (λ t. t + lock_ttl) at,
            );
        one = λ j k a b hj hk fj fk. (owner j a hj fj).0 ∙ sym (owner k b hk fk).0;
      }

  releases-IsExclusive :
      (s : Requests O) (i a : ℕ)
      → s.since i ≡ some a
      → InTime s.world.clock a
      → IsExclusive sid s
      → IsExclusive sid
          (record { world = (release_refresh_lock sid s.world).1; since = assign i none s.since })
  releases-IsExclusive s i a holds fresh inv =
      let gone : (j b : ℕ)
          → assign i none s.since j ≡ some b
          → InTime (release_refresh_lock sid s.world).1.clock b
          → ⊥ =
        λ j b still now.
          let (other, apart) = assign-none-eq-some i j s.since b still in
          apart (
            inv.one i j a b holds other fresh
              (subst (λ t. InTime t b) (release-clock sid s.world) now)) in
      record {
        locked = λ j b still now. absurd (gone j b still now);
        one = λ j k b c hj hk fj fk. absurd (gone j b hj fj);
      }

  works-IsExclusive :
      (s : Requests O) (v : World Redis O)
      → v.tables.locks ≡ s.world.tables.locks
      → s.world.clock ≤ v.clock
      → IsExclusive sid s
      → IsExclusive sid (record { world = v; since = s.since })
  works-IsExclusive s v same since inv = record {
    locked = λ i a holds fresh.
        let (e, there, due) = inv.locked i a holds (omega (arith, fresh, since)) in
        (
          e,
          rw same (
              find_stronger (live s.world.clock sid) (live v.clock sid) s.world.tables.locks e
                (λ x h. ground (arith, since, h)) there
                (ground (
                  arith,
                  due,
                  fresh,
                  find_sound (live s.world.clock sid) s.world.tables.locks there,
                ))),
          due,
        );
    one = λ i j a b hi hj fi fj.
        inv.one i j a b hi hj (omega (arith, fi, since)) (omega (arith, fj, since));
  }

  Step-IsExclusive : {s t : Requests O} → Step sid s t → IsExclusive sid s → IsExclusive sid t
  Step-IsExclusive {s} (acquires i {v} h) inv = acquires-IsExclusive s i v h inv
  Step-IsExclusive {s} (releases i a holds fresh) inv = releases-IsExclusive s i a holds fresh inv
  Step-IsExclusive {s} (works {v} same since) inv = works-IsExclusive s v same since inv

  -- Requests of one session, in any interleaving of acquisitions, releases, and whatever leaves the
  -- locks alone while time passes, where each release comes within ten seconds of its acquisition:
  -- at no time do two requests hold the lock within their ten seconds, and the lock of one that does
  -- is live until they are over. This also holds where the store fails and whatever locks it held at
  -- first.
  pub Reach-IsExclusive : {w : World Redis O} {s : Requests O} → Reach sid w s → IsExclusive sid s
  Reach-IsExclusive initially = record {
    locked = λ i a holds fresh. absurd (ground (arith, holds));
    one = λ i j a b hi hj fi fj. absurd (ground (arith, hi));
  }
  Reach-IsExclusive (later r step) = Step-IsExclusive step (Reach-IsExclusive r)

module _ {O : Type 0} (refresh : String → O → Option NewToken × O) (extract_dsid : String → String)
    (idle_ttl hard_ttl : ℕ) where
  abbrev body : String → Session → Action (World Redis O) RefreshError Session
  body = refresh_locked refresh extract_dsid idle_ttl hard_ttl

  save-locks :
      (ls : List (Entry (Unit {0}))) (sid : String) (sess : Session)
      → Keeps {O = O} (λ t. t.locks ≡ ls) (save idle_ttl hard_ttl sid sess)
  unfolding save
  save-locks ls sid sess = Keeps-bind _ _ (Keeps-gets _) λ now. Keeps-statement _ _ (λ t h. h)

  body-locks :
      (ls : List (Entry (Unit {0}))) (sid : String) (sess : Session)
      → Keeps (λ t. t.locks ≡ ls) (body sid sess)
  unfolding refresh_locked
  body-locks ls sid sess = search (keeps_rules, save-locks ls) depth 12

  body-clock :
      (sid : String) (sess : Session) (w : World Redis O) → (body sid sess w).1.clock ≡ w.clock
  unfolding refresh_locked map_err save statement call_outside handle gets pure ◌>>=◌
  body-clock sid sess w = ground arith

  -- What `refreshTokens` does under the lock leaves the locks alone.
  pub refresh-works :
      (sid : String) (sess : Session) (s : Requests O)
      → Step sid s (record { world = (body sid sess s.world).1; since = s.since })
  refresh-works sid sess s =
      works ((body-locks s.world.tables.locks sid sess).at s.world refl)
        (ground (arith, body-clock sid sess s.world))
