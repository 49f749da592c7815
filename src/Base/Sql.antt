-- ===== src/Base/Sql.antt =====
-- A database behind a connection that may fail. A table is the list of its rows, newest first.
-- A `SELECT`, `UPDATE` or `DELETE` is a function by the test of its `WHERE` clause. A statement
-- fails when the schedule of faults says so; a transaction that does not commit leaves no trace.
pub mod Rows
pub mod Keeps
pub mod Keys
use hss_science.Base.{
  ℕ, suc, Bool, true, false, Option, none, some, List, [], ◌∷◌, Result, ok, err, Action, ◌>>=◌,
  ◌>>◌, pure, if◌then◌else◌,
}

-- What a service works on: its tables, what lies outside of it, the faults still to come (one
-- entry for each statement, none left is no fault), the clock, and the identifiers minted so far.
pub record World {ℓ} (T O : Type ℓ) : Type ℓ where
  pub tables : T
  pub outside : O
  pub faults : List Bool
  pub clock : ℕ
  pub minted : ℕ

abbrev pub next_fault : List Bool → Bool
next_fault [] = false
next_fault (b ∷ bs) = b

abbrev pub later_faults : List Bool → List Bool
later_faults [] = []
later_faults (b ∷ bs) = bs

-- The world after one more round trip to the database.
abbrev pub round_trip {ℓ} : {T O : Type ℓ} → World T O → World T O
round_trip w = record w { faults = later_faults w.faults }

module _ {ℓ} {T O E A : Type ℓ} where
  abbrev on_tables : (T → Result E A × T) → Action (World T O) E A
  on_tables f w = let (r, t) = f w.tables in (r, record w { tables = t })

  -- One statement; `outage` is the error of a connection that fails.
  unfoldable pub statement : E → (T → Result E A × T) → Action (World T O) E A
  statement outage f w =
      if next_fault w.faults then (err outage, round_trip w) else on_tables f (round_trip w)

  -- One statement that writes nothing.
  unfoldable pub query : E → (T → A) → Action (World T O) E A
  unfolding statement
  query outage f = statement outage (λ t. (ok (f t), t))

  -- `defer tx.Rollback()`
  abbrev rollback : T → Result E A × World T O → Result E A × World T O
  rollback t (ok a, w) = (ok a, w)
  rollback t (err e, w) = (err e, record w { tables = t })

  -- A call out of the service. It sees and changes only what lies outside, and `none` is an error.
  unfoldable pub call_outside : E → (O → Option A × O) → Action (World T O) E A
  call_outside e f w =
      let (r, o) = f w.outside in
      (elim r [ none ↦ err e | some a ↦ ok a ], record w { outside = o })

-- An identifier from the generator (`ulid.Make().String()`), whose next number the world holds.
unfoldable pub mint {ℓ} : {T O E A : Type ℓ} → (ℕ → A) → Action (World T O) E A
mint generate w = (ok (generate w.minted), record w { minted = suc w.minted })

module _ {ℓ} {T O E A : Type ℓ} where
  in_transaction : E → Action (World T O) E A → Action (World T O) E A
  in_transaction outage body = do query outage (λ t. t); a ← body; query outage (λ t. t); pure a

  -- `BeginTxx`, the body, `Commit`
  unfoldable pub transaction : E → Action (World T O) E A → Action (World T O) E A
  unfolding in_transaction
  transaction outage body w = rollback w.tables (in_transaction outage body w)
