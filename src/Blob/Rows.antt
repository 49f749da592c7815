-- ===== src/Blob/Rows.antt =====
-- The table `blobs` over any requests: its invariant, and the life of one row.
use hss_science.Base.Sql.Rows.{find, update, update-All, find-update}
use hss_science.Blob.Repo.{
  BlobRow, inserted_row, insert_blob, update_committed, set_committed, awaits_commit, has_id,
  BlobWorld,
}
use hss_science.Base.{
  [], refl, List, ℕ, String, ◌∷◌, All, ◌≡◌, inr, true, none, Option-cases, inl, ◌⊎◌, some, arith,
  if◌then◌else◌, eq_iff, Bool-cases, ◌∙◌, ap, ◌==◌,
}
use mathlib.Core.Option
use hss_science.Blob.Storage.{ObjectStorage}
use hss_science.Blob.Domain.{hex_re, Blob, pending, committed}
use hss_science.Blob.App.{Config}
use hss_science.Blob.Requests.{IsNew, serve_all-keeps}
use hss_science.Blob.Server.{Request, serve_all}

-- What the schema and the code promise of one row.
pub record IsRow (row : BlobRow) : Type 0 where
  pub named : hex_re row.id ≡ true
  pub keyed : row.r2_key ≡ row.id
  pub dated :
      ((row.state ≡ pending) × (row.committed_at ≡ none))
      ⊎ ((at : ℕ) × (row.state ≡ committed) × (row.committed_at ≡ some at))

-- No two rows have one id.
abbrev pub Distinct : List BlobRow → Type 0
Distinct [] = Unit {0}
Distinct (row ∷ rows) = (find (has_id row.id) rows ≡ none) × Distinct rows

pub record IsValid (rows : List BlobRow) : Type 0 where
  pub each : All IsRow rows
  pub distinct : Distinct rows

insert-IsRow : (b : Blob) → IsNew b → IsRow (inserted_row b)
unfolding inserted_row
insert-IsRow b n = record { named = n.named; keyed = n.keyed; dated = inl (n.waits, refl) }

pub insert-IsValid :
    (b : Blob) → IsNew b → (t : List BlobRow) → IsValid t → IsValid (insert_blob b t).1
unfolding insert_blob
insert-IsValid b n t v = elim (Option-cases (find (has_id b.id) t)) [
  | inl e ↦ rw e (record { each = (insert-IsRow b n, v.each); distinct = (e, v.distinct) })
  | inr (r, e) ↦ rw e v
]

set_committed-IsRow : (at : ℕ) (row : BlobRow) → IsRow row → IsRow (set_committed at row)
set_committed-IsRow at row h = record {
  named = h.named;
  keyed = h.keyed;
  dated = inr (at, refl, refl);
}

update-Distinct :
    (id : String) (at : ℕ) (t : List BlobRow)
    → Distinct t
    → Distinct (update (awaits_commit id) (set_committed at) t)
unfolding update
update-Distinct id at [] d = tt
update-Distinct id at (row ∷ t) d = (ground (arith, still), update-Distinct id at t d.1)
  where
    still : find (has_id row.id) (update (awaits_commit id) (set_committed at) t) ≡ none
    still =
        rw (find-update (awaits_commit id) (set_committed at) (has_id row.id) t (λ x. refl), d.0)
          refl

pub commit-IsValid :
    (id : String) (at : ℕ) (t : List BlobRow) → IsValid t → IsValid (update_committed id at t).1
unfolding update_committed
commit-IsValid id at t v = record {
  each = update-All IsRow _ _ t (λ row _ h. set_committed-IsRow at row h) v.each;
  distinct = update-Distinct id at t v.distinct;
}

module _ {O : Type 0} (storage : ObjectStorage O) (cfg : Config) where
  -- Whatever clients ask, in whatever order, and whichever database statements and storage calls
  -- fail: every row of the table keeps a valid id that is its storage key, is pending without a
  -- commit time or committed with one, and no two rows share an id.
  pub serve_all-IsValid :
      (rs : List Request) (w : BlobWorld O)
      → IsValid w.tables
      → IsValid (serve_all storage cfg rs w).tables
  serve_all-IsValid = serve_all-keeps IsValid insert-IsValid commit-IsValid storage cfg

-- How a row may have changed since: not at all, or from pending to committed.
pub data Later (old : BlobRow) : BlobRow → Type 0 where
  same : Later old old
  commits : (at : ℕ) → old.state ≡ pending → Later old (set_committed at old)

-- The row of an id is there, and is a later form of `old`.
abbrev pub Holds : String → BlobRow → List BlobRow → Type 0
Holds id old rows = (row : BlobRow) × (find (has_id id) rows ≡ some row) × Later old row

insert-Holds :
    (id : String) (old : BlobRow) (b : Blob)
    → IsNew b
    → (t : List BlobRow) → Holds id old t
    → Holds id old (insert_blob b t).1
unfolding insert_blob inserted_row find
insert-Holds id old b n t (row, e, later) = (row, ground (arith, e, eq_iff b.id id), later)

pub awaits_commit-pending :
    (id : String) (row : BlobRow) → awaits_commit id row ≡ true → row.state ≡ pending
awaits_commit-pending id row h = ground arith

commit-Later :
    (id : String) (at : ℕ) (old row : BlobRow)
    → Later old row
    → Later old (if awaits_commit id row then set_committed at row else row)
commit-Later id at old _ same = elim (Bool-cases (awaits_commit id old)) [
  | inl e ↦ rw e (commits at (awaits_commit-pending id old e))
  | inr e ↦ rw e same
]
commit-Later id at old _ (commits a w) = elim (Bool-cases (old.id == id)) [
  | inl e ↦ rw e (commits a w)
  | inr e ↦ rw e (commits a w)
]

commit-Holds :
    (id : String) (old : BlobRow) (key : String) (at : ℕ) (t : List BlobRow)
    → Holds id old t
    → Holds id old (update_committed key at t).1
unfolding update_committed
commit-Holds id old key at t (row, e, later) = (
  _,
  find-update (awaits_commit key) (set_committed at) (has_id id) t (λ x. refl)
      ∙ ap (Option.map (λ x. if awaits_commit key x then set_committed at x else x)) e,
  commit-Later key at old row later,
)

module _ {O : Type 0} (storage : ObjectStorage O) (cfg : Config) where
  -- Once a row exists, no sequence of requests removes it or alters it, but for one change from
  -- pending to committed at a commit time; a committed row stays as it is for ever.
  pub serve_all-Holds :
      (rs : List Request) (w : BlobWorld O) (id : String) (old : BlobRow)
      → find (has_id id) w.tables ≡ some old
      → Holds id old (serve_all storage cfg rs w).tables
  serve_all-Holds rs w id old e =
      serve_all-keeps (Holds id old) (insert-Holds id old) (commit-Holds id old) storage cfg rs w
        (old, e, same)
