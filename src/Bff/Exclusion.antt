-- ===== src/Bff/Exclusion.antt =====
-- The refresh lock of one session under requests that run at the same time (AcquireRefreshLock and
-- ReleaseRefreshLock of internal/session/store.go, as refreshTokens uses them). A request is a number;
-- it holds the lock from the time at which it acquired it until it releases it.
use hss_science.Bff.Sessions.{
  Redis, Entry, live, put, set_lock, acquire_refresh_lock, release_refresh_lock, lock_ttl,
}
use hss_science.Base.Sql.{World, statement, next_fault}
use hss_science.Base.Sql.Rows.{find}
use hss_science.Base.{
  [], ◌∷◌, ◌≡◌, arith, if◌then◌else◌, ℕ, String, Bool, Option, ◌<◌, ok, none, some, gets, List,
  nat_eq, ◌+◌, true, ◌>>=◌, ◌≤◌, Bool-cases, inl, inr, Option-cases,
}

pub record Requests (O : Type 0) : Type 0 where
  pub world : World Redis O
  -- Since when a request has held the lock.
  pub since : ℕ → Option ℕ

abbrev pub assign : ℕ → Option ℕ → (ℕ → Option ℕ) → ℕ → Option ℕ
assign i p f j = if nat_eq j i then p else f j

-- The time of a request's hold is not over.
abbrev pub InTime : ℕ → ℕ → Type 0
InTime now a = now < a + lock_ttl

module _ {O : Type 0} (sid : String) where
  pub data Step (s : Requests O) : Requests O → Type 0 where
    -- `refreshTokens` acquires the lock.
    acquires :
        (i : ℕ) {v : World Redis O}
        → acquire_refresh_lock sid s.world ≡ (ok true, v)
        → Step s (record { world = v; since = assign i (some s.world.clock) s.since })
    -- The deferred release, which may fail.
    releases :
        (i a : ℕ)
        → s.since i ≡ some a
        → InTime s.world.clock a
        → Step s
            (record { world = (release_refresh_lock sid s.world).1; since = assign i none s.since })
    -- Time passes, and requests do whatever leaves the locks alone.
    works :
        {v : World Redis O}
        → v.tables.locks ≡ s.world.tables.locks
        → s.world.clock ≤ v.clock
        → Step s (record { world = v; since = s.since })

  pub data Reach (w : World Redis O) : Requests O → Type 0 where
    initially : Reach w (record { world = w; since = λ _. none })
    later : {s t : Requests O} → Reach w s → Step s t → Reach w t

  pub record IsExclusive (s : Requests O) : Type 0 where
    pub locked :
        (i a : ℕ)
        → s.since i ≡ some a
        → InTime s.world.clock a
        → (e : Entry (Unit {0})) × (find (live s.world.clock sid) s.world.tables.locks ≡ some e)
          × (e.expires ≡ a + lock_ttl)
    pub one :
        (i j a b : ℕ)
        → s.since i ≡ some a
        → s.since j ≡ some b
        → InTime s.world.clock a
        → InTime s.world.clock b
        → i ≡ j

  pub acquire-eq-true :
      (w v : World Redis O)
      → acquire_refresh_lock sid w ≡ (ok true, v)
      → (find (live w.clock sid) w.tables.locks ≡ none)
        × (v.tables.locks ≡ put sid tt (w.clock + lock_ttl) w.tables.locks)
        × (v.clock ≡ w.clock)
  unfolding acquire_refresh_lock set_lock statement gets ◌>>=◌
  acquire-eq-true w v h = elim (Bool-cases (next_fault w.faults)) [
    | inl fails ↦ absurd (ground (arith, h, fails))
    | inr runs ↦ elim (Option-cases (find (live w.clock sid) w.tables.locks)) [
      | inr (e, held) ↦ absurd (ground (arith, h, runs, held))
      | inl free ↦ (free, ground (arith, h, runs, free), ground (arith, h, runs, free))
    ]
  ]

  pub release-clock : (w : World Redis O) → (release_refresh_lock sid w).1.clock ≡ w.clock
  unfolding release_refresh_lock statement
  release-clock w = ground arith

-- The row found is found by a stronger test too, if it passes it.
pub find_stronger {ℓ} :
    {A : Type ℓ} (p q : A → Bool) (xs : List A) (a : A)
    → ((x : A) → q x ≡ true → p x ≡ true)
    → find p xs ≡ some a
    → q a ≡ true
    → find q xs ≡ some a
unfolding find
find_stronger p q [] a weaker h good = absurd (ground (arith, h))
find_stronger p q (x ∷ xs) a weaker h good = elim (Bool-cases (p x)) [
  | inl hit ↦ let same : x ≡ a = ground (arith, h, hit) in ground (arith, same, good)
  | inr miss ↦ ground (arith, weaker x, miss, h, find_stronger p q xs a weaker)
]
