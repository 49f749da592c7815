-- ===== src/Blob/Repo.antt =====
-- The table `blobs` and the three methods of `BlobRepo` (internal/repository/postgres/blob_repo.go,
-- migrations/000001_init.up.sql). The column `id` is the primary key.
use hss_science.Base.{
  ℕ, String, Bool, ◌&&◌, ◌==◌, Option, none, some, List, ◌∷◌, Result, ok, err, Action, pure, fail,
  ◌>>=◌, if◌then◌else◌, on_row, nat_eq,
}
use hss_science.Base.Int.{ℤ}
use hss_science.Base.Sql.{World, statement, query}
use hss_science.Base.Sql.Rows.{find, update, count}
use hss_science.Blob.Domain.{
  Error, blob_not_found, already_committed, other, UploadState, committed, is_pending, Blob,
}

pub record BlobRow : Type 0 where
  pub id : String
  pub size_bytes : ℤ
  pub content_type : String
  pub r2_key : String
  pub state : UploadState
  pub created_at : ℕ
  pub committed_at : Option ℕ

-- The service's world: its one table, and the bucket.
abbrev pub BlobWorld : Type 0 → Type 0
BlobWorld O = World (List BlobRow) O

abbrev pub has_id : String → BlobRow → Bool
has_id id row = row.id == id

unfoldable pub row_to_blob : BlobRow → Blob
row_to_blob row = record {
  id = row.id;
  size_bytes = row.size_bytes;
  content_type = row.content_type;
  r2_key = row.r2_key;
  state = row.state;
  created_at = row.created_at;
  committed_at = row.committed_at;
}

-- The row that `Create` inserts: `committed_at` is not among its columns.
unfoldable pub inserted_row : Blob → BlobRow
inserted_row b = record {
  id = b.id;
  size_bytes = b.size_bytes;
  content_type = b.content_type;
  r2_key = b.r2_key;
  state = b.state;
  created_at = b.created_at;
  committed_at = none;
}

-- `INSERT INTO blobs`; the primary key refuses a second row, with code 23505.
unfoldable pub insert_blob : Blob → List BlobRow → Result Error (Unit {0}) × List BlobRow
unfolding inserted_row
insert_blob b rows =
    on_row (find (has_id b.id) rows) (ok tt, inserted_row b ∷ rows)
      (λ _. (err already_committed, rows))

-- `WHERE id = $1 AND state = 'PENDING'`
abbrev pub awaits_commit : String → BlobRow → Bool
awaits_commit id row = row.id == id && is_pending row.state

abbrev pub set_committed : ℕ → BlobRow → BlobRow
set_committed at row = record row { state = committed; committed_at = some at }

-- The `UPDATE` of `MarkCommitted`, with the rows affected.
unfoldable pub update_committed : String → ℕ → List BlobRow → Result Error ℕ × List BlobRow
update_committed id at rows =
    (ok (count (awaits_commit id) rows), update (awaits_commit id) (set_committed at) rows)

module _ {O : Type 0} where
  unfoldable pub find_by_id : String → Action (BlobWorld O) Error Blob
  find_by_id id = do
    row ← query other (find (has_id id))
    on_row row (fail blob_not_found) (λ r. pure (row_to_blob r))

  unfoldable pub create : Blob → Action (BlobWorld O) Error (Unit {0})
  create b = statement other (insert_blob b)

  unfoldable pub mark_committed : String → ℕ → Action (BlobWorld O) Error (Unit {0})
  mark_committed id at = do
    n ← statement other (update_committed id at)
    if nat_eq n 0 then fail already_committed else pure tt
