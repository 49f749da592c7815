-- ===== src/Blob/Ledger.antt =====
-- The abstract specification of the blob service: a ledger that says of each id how far its blob has
-- come, and two moves. The table of the service, whatever is asked of it, makes these moves only.
use mathlib.Core.Option
use text.Mathlib.TextPositions.{eq_refl}
use hss_science.Blob.Rows.{IsValid, Distinct, insert-IsValid, commit-IsValid, awaits_commit-pending}
use hss_science.Base.{
  String, ℕ, true, false, Option, none, some, List, inl, inr, sym, subst, ◌==◌, ◌∷◌, ◌≡◌, arith,
  if◌then◌else◌, Bool-cases, eq_iff, [], refl, ap, Option-cases, ◌∙◌,
}
use hss_science.Base.Sql.Rows.{
  find, update, find-update, find_sound, find-none_of_weaker, update_of_none,
}
use hss_science.Blob.Domain.{Blob, pending, committed, unlisted, UploadState}
use hss_science.Blob.Storage.{ObjectStorage}
use hss_science.Blob.Repo.{
  BlobRow, BlobWorld, has_id, inserted_row, insert_blob, update_committed, awaits_commit,
  set_committed,
}
use hss_science.Blob.App.{Config}
use hss_science.Blob.Requests.{IsNew, serve_all-keeps}
use hss_science.Blob.Server.{Request, serve_all}

-- How far a blob has come; `ruined` is a state or a commit time that the service never stores.
pub data Phase : Type 0 where
  absent waiting ruined : Phase
  done : ℕ → Phase

abbrev pub Ledger : Type 0
Ledger = String → Phase

abbrev pub enter : String → Phase → Ledger → Ledger
enter id p l k = if id == k then p else l k

-- The moves of the specification, one after the other from the ledger `l`.
pub data Reach (l : Ledger) : Ledger → Type 0 where
  start : Reach l l
  registers : (m : Ledger) (id : String) → Reach l m → m id ≡ absent → Reach l (enter id waiting m)
  commits :
      (m : Ledger) (id : String) (at : ℕ)
      → Reach l m
      → m id ≡ waiting
      → Reach l (enter id (done at) m)

abbrev pub phase_of : UploadState → Option ℕ → Phase
phase_of pending at = waiting
phase_of committed none = ruined
phase_of committed (some at) = done at
phase_of (unlisted s) at = ruined

abbrev pub row_phase : Option BlobRow → Phase
row_phase none = absent
row_phase (some row) = phase_of row.state row.committed_at

-- What the table says of each id: the abstraction forgets sizes, types, keys and the order of rows.
unfoldable pub ledger : List BlobRow → Ledger
ledger rows id = row_phase (find (has_id id) rows)

ledger-insert :
    (b : Blob) (t : List BlobRow) (k : String)
    → IsNew b
    → ledger (inserted_row b ∷ t) k ≡ enter b.id waiting (ledger t) k
unfolding ledger find inserted_row
ledger-insert b t k n = ground (arith, n.waits)

-- What an update that commits makes of one row found.
committed_row :
    (id : String) (at : ℕ) (k : String) (found : Option BlobRow)
    → ((x : BlobRow) → found ≡ some x → (x.id == k) ≡ true)
    → (id == k) ≡ false
    → row_phase (Option.map (λ x. if awaits_commit id x then set_committed at x else x) found)
      ≡ row_phase found
committed_row id at k none named apart = refl
committed_row id at k (some x) named apart =
    ground (arith, named x refl, apart, eq_iff x.id k, eq_iff x.id id, eq_refl k)

ledger-commit :
    (id : String) (at : ℕ) (t : List BlobRow) (row : BlobRow) (k : String)
    → find (has_id id) t ≡ some row
    → row.state ≡ pending
    → ledger (update (awaits_commit id) (set_committed at) t) k ≡ enter id (done at) (ledger t) k
unfolding ledger
ledger-commit id at t row k e waits =
    let moved =
      ap row_phase (find-update (awaits_commit id) (set_committed at) (has_id k) t (λ x. refl)) in
    elim (Bool-cases (id == k)) [
      | inl own ↦
          let same : id ≡ k = (eq_iff id k).0 own in
          let here : find (has_id k) t ≡ some row =
            subst (λ j. find (has_id j) t ≡ some row) same e in
          let mine : row.id ≡ id = (eq_iff row.id id).0 (find_sound (has_id id) t e) in
          moved ∙ rw here (ground (arith, own, waits, mine, eq_refl id))
      | inr apart ↦
          moved
          ∙ committed_row id at k (find (has_id k) t) (λ x found. find_sound (has_id k) t found)
              apart
          ∙ rw apart refl
    ]

-- In a table without two rows of one id, the row that waits is the row of the id.
find_waiting :
    (id : String) (t : List BlobRow) {row : BlobRow}
    → Distinct t
    → find (awaits_commit id) t ≡ some row
    → find (has_id id) t ≡ some row
unfolding find
find_waiting id [] d e = absurd (ground (arith, e))
find_waiting id (x ∷ xs) {row} d e = elim (Bool-cases (x.id == id)) [
  | inr other_id ↦
      let rest = find_waiting id xs {row = row} d.1 (rw other_id at e) in
      ground (arith, other_id, rest)
  | inl own ↦ elim (Bool-cases (awaits_commit id x)) [
    | inl waits ↦ ground (arith, own, waits, e)
    | inr settled ↦
        let later : find (awaits_commit id) xs ≡ some row = ground (arith, settled, e) in
        let mine = find_sound (awaits_commit id) xs later in
        let clash =
          find-none_of_weaker (has_id x.id) (awaits_commit id) xs
            (λ y h. ground (arith, h, own, eq_iff y.id id, eq_iff x.id id, eq_iff y.id x.id)) d.0 in
        absurd (ground (arith, later, clash))
  ]
]

-- The table is valid, and its ledger comes from `l` by the moves of the specification.
abbrev Refines : Ledger → List BlobRow → Type 0
Refines l t = IsValid t × Reach l (ledger t)

insert-Refines :
    (l : Ledger) (b : Blob)
    → IsNew b
    → (t : List BlobRow) → Refines l t
    → Refines l (insert_blob b t).1
unfolding insert_blob
insert-Refines l b n t (valid, reach) = elim (Option-cases (find (has_id b.id) t)) [
  | inr (r, e) ↦ rw e (valid, reach)
  | inl e ↦
      let kept : IsValid (inserted_row b ∷ t) = rw e at (insert-IsValid b n t valid) in
      let fresh : ledger t b.id ≡ absent = unfold ledger in ap row_phase e in
      let step : enter b.id waiting (ledger t) ≡ ledger (inserted_row b ∷ t) =
        λ i k. sym (ledger-insert b t k n) i in
      rw e (kept, subst (Reach l) step (registers (ledger t) b.id reach fresh))
]

commit-Refines :
    (l : Ledger) (id : String) (at : ℕ) (t : List BlobRow)
    → Refines l t
    → Refines l (update_committed id at t).1
unfolding update_committed
commit-Refines l id at t (valid, reach) =
    let kept = commit-IsValid id at t valid in
    elim (Option-cases (find (awaits_commit id) t)) [
      | inl e ↦
          let same = update_of_none (awaits_commit id) (set_committed at) t e in
          (kept, subst (λ u. Reach l (ledger u)) (sym same) reach)
      | inr (row, e) ↦
          let here = find_waiting id t valid.distinct e in
          let waits : row.state ≡ pending =
            awaits_commit-pending id row (find_sound (awaits_commit id) t e) in
          let was : ledger t id ≡ waiting = unfold ledger in ap row_phase here ∙ rw waits refl in
          let step : enter id (done at) (ledger t)
              ≡ ledger (update (awaits_commit id) (set_committed at) t) =
            λ i k. sym (ledger-commit id at t row k here waits) i in
          (kept, subst (Reach l) step (commits (ledger t) id at reach was))
    ]

module _ {O : Type 0} (storage : ObjectStorage O) (cfg : Config) where
  -- The service implements the ledger: whatever clients ask, in whatever order, and whichever
  -- statements and storage calls fail, a valid table goes through the moves of the specification
  -- only: an id that is absent is registered, a blob that waits is committed, once, at some time.
  pub serve_all-refines :
      (rs : List Request) (w : BlobWorld O)
      → IsValid w.tables
      → Reach (ledger w.tables) (ledger (serve_all storage cfg rs w).tables)
  serve_all-refines rs w valid =
      (serve_all-keeps (Refines (ledger w.tables)) (insert-Refines (ledger w.tables))
        (commit-Refines (ledger w.tables)) storage cfg rs w (valid, start)).1
