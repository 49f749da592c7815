-- ===== src/Blob/Uploads.antt =====
-- What the use cases of uploading and downloading answer, and what they leave behind.
use hss_science.Base.{
  ◌≢◌, [], refl, ◌+◌, ◌≡◌, ℕ, List, suc, ◌∷◌, ◌>>=◌, String, ok, some, Option-cases, inl, arith,
  inr, zero, suc, handle, map, true, ◌⊎◌, ap, eq_iff,
}
use hss_science.Blob.App
use hss_science.Blob.Storage.{ObjectStorage}
use hss_science.Blob.App.{
  Config, CompleteUploadResult, GetDownloadUrlResult, find_existing, clamp_ttl, part_urls,
  PartUploadUrl, InitiateMultipartResult, exists_committed,
}
use hss_science.Blob.Repo.{
  find_by_id, mark_committed, update_committed, row_to_blob, BlobWorld, BlobRow, has_id,
  set_committed, awaits_commit,
}
use hss_science.Base.Sql.{query, statement, call_outside}
use hss_science.Base.Int.{ℤ, ltb_ℤ, pos, leb_ℤ, negsuc}
use hss_science.Blob.Rows.{IsValid, IsRow}
use hss_science.Base.Sql.Rows.{find, update, find-update, find_sound, find-All}
use hss_science.Blob.Domain.{pending, committed, validate, hex_re, other}
use hss_science.Base.Ensures.{
  Ensures, Ensures-bind, Ensures-pure, Ensures-if, Ensures-bind_with, Ensures-fail,
}

-- `[i + 1, ..., i + n]`
abbrev pub numbers_from : ℕ → ℕ → List ℕ
numbers_from zero i = []
numbers_from (suc n) i = (i + 1) ∷ numbers_from n (i + 1)

-- The lifetime `asked` for a request of `ttl`, under the maximum `max`.
pub record IsClamped (max ttl asked : ℤ) : Type 0 where
  pub within : ltb_ℤ (pos 0) ttl ≡ true → leb_ℤ ttl max ≡ true → asked ≡ ttl
  pub absent : leb_ℤ ttl (pos 0) ≡ true → asked ≡ max
  pub beyond : ltb_ℤ max ttl ≡ true → asked ≡ max
  pub bounded : ltb_ℤ (pos 0) max ≡ true → (ltb_ℤ (pos 0) asked ≡ true) × (leb_ℤ asked max ≡ true)

clamp_ttl-IsClamped :
    (cfg : Config) (ttl : ℤ) → IsClamped cfg.presign_get_max_ttl ttl (clamp_ttl cfg ttl)
unfolding clamp_ttl
clamp_ttl-IsClamped cfg (pos n) = record {
  within = λ a b. ground (arith, a, b);
  absent = λ a. ground (arith, a);
  beyond = λ a. ground (arith, a);
  bounded = λ a. ground (arith, a);
}
clamp_ttl-IsClamped cfg (negsuc n) = record {
  within = λ a b. ground (arith, a, b);
  absent = λ a. ground (arith, a);
  beyond = λ a. ground (arith, a);
  bounded = λ a. ground (arith, a);
}

-- A commit is not seen under another id.
commit_apart :
    (id other_id : String) (now : ℕ) (rows : List BlobRow)
    → other_id ≢ id
    → find (has_id other_id) (update (awaits_commit id) (set_committed now) rows)
      ≡ find (has_id other_id) rows
unfolding find update
commit_apart id other_id now [] apart = refl
commit_apart id other_id now (x ∷ xs) apart =
    ground
      (arith, apart, eq_iff x.id id, eq_iff x.id other_id, commit_apart id other_id now xs apart)

module _ {O : Type 0} (storage : ObjectStorage O) (cfg : Config) where
  -- Over a valid table, a completion that returns has found the blob's row pending and leaves it
  -- committed, its commit time the present time that the answer carries; the row under every other
  -- id is as before, and the storage is not called.
  pub complete_upload_commits :
      (id : String) (w v : BlobWorld O) (r : CompleteUploadResult)
      → IsValid w.tables
      → App.complete_upload storage cfg id w ≡ (ok r, v)
      → (row : BlobRow) × (find (has_id id) w.tables ≡ some row)
        × (row.state ≡ pending)
        × (find (has_id id) v.tables
            ≡ some (record row { state = committed; committed_at = some w.clock }))
        × ((other_id : String)
            → other_id ≢ id
            → find (has_id other_id) v.tables ≡ find (has_id other_id) w.tables)
        × (r ≡ record { blob_id = id; committed_at = w.clock })
        × (v.outside ≡ w.outside)
  unfolding App.complete_upload find_by_id row_to_blob mark_committed update_committed query
      statement ◌>>=◌
  complete_upload_commits id w v r valid h = elim (Option-cases (find (has_id id) w.tables)) [
    | inl e ↦ absurd (ground (arith, h, e))
    | inr (row, e) ↦
        let known : IsRow row = find-All IsRow (has_id id) w.tables valid.each e in
        let waits : row.state ≡ pending = ground (arith, h, e, known.dated) in
        (
          row,
          e,
          waits,
          ground (arith, h, e, waits, stored row e waits),
          λ other_id apart.
              ground (arith, h, e, waits, commit_apart id other_id w.clock w.tables apart),
          ground (arith, h, e),
          ground (arith, h, e),
        )
  ]
    where
      stored :
          (row : BlobRow)
          → find (has_id id) w.tables ≡ some row
          → row.state ≡ pending
          → find (has_id id) (update (awaits_commit id) (set_committed w.clock) w.tables)
            ≡ some (record row { state = committed; committed_at = some w.clock })
      stored row e waits =
          rw
            (
              find-update (awaits_commit id) (set_committed w.clock) (has_id id) w.tables
                  (λ x. refl),
              e,
            )
            (rw (find_sound (has_id id) w.tables e, waits) refl)

  -- A download URL is granted for a committed blob only, and it changes no row. The storage is asked
  -- for the lifetime of the request where that is positive and at most the configured maximum, and
  -- for the maximum where it is not; so where the maximum is positive, the lifetime asked for is
  -- positive and at most the maximum.
  pub download_grants :
      (id : String) (ttl : ℤ) (w v : BlobWorld O) (r : GetDownloadUrlResult)
      → IsValid w.tables
      → App.get_download_url storage cfg id ttl w ≡ (ok r, v)
      → (row : BlobRow) × (find (has_id id) w.tables ≡ some row)
        × (row.state ≡ committed)
        × (v.tables ≡ w.tables)
        × (asked : ℤ) × IsClamped cfg.presign_get_max_ttl ttl asked
        × (storage.presigned_get_url id asked w.outside
            ≡ (some (r.presigned_get_url, r.expires_at), v.outside))
  unfolding App.get_download_url find_by_id query statement call_outside row_to_blob ◌>>=◌
  download_grants id ttl w v r valid h = elim (Option-cases (find (has_id id) w.tables)) [
    | inl e ↦ absurd (ground (arith, h, e))
    | inr (row, e) ↦
        let known : IsRow row = find-All IsRow (has_id id) w.tables valid.each e in
        let done : row.state ≡ committed = ground (arith, h, e, known.dated) in
        (
          row,
          e,
          done,
          ground (arith, h, e, done),
          clamp_ttl cfg ttl,
          clamp_ttl-IsClamped cfg ttl,
          ground (arith, h, e, done),
        )
  ]

  -- A committed blob is not uploaded again: both ways to start an upload answer that it exists,
  -- without a call of the storage and without a change to the table.
  upload_once :
      (id : String) (size : ℤ) (ctype : String) (n : ℕ) (w : BlobWorld O) (row : BlobRow)
      → hex_re id ≡ true
      → find (has_id id) w.tables ≡ some row
      → row.state ≡ committed
      → w.faults ≡ []
      → (App.initiate_upload storage cfg id size ctype w
          ≡ (ok (record { already_exists = true; presigned_put_url = ""; expires_at = 0 }), w))
        × (App.initiate_multipart_upload storage cfg id size ctype (pos (suc n)) w ≡ (
          ok (record { already_exists = true; upload_id = ""; parts = []; expires_at = 0 }),
          w,
        ))
  unfolding App.initiate_upload App.initiate_multipart_upload find_existing find_by_id query
      statement row_to_blob validate handle ◌>>=◌
  upload_once id size ctype n w row hex e done calm = (ground arith, ground arith)

module _ {O : Type 0} (storage : ObjectStorage O) (cfg : Config) where
  part_urls-Ensures :
      (id upload_id : String) (n i last : ℕ)
      → Ensures
          (λ r. map (λ p. p.part_number) r.0 ≡ numbers_from n i)
          (part_urls storage cfg id upload_id n i last)
  unfolding part_urls
  part_urls-Ensures id upload_id zero i last = Ensures-pure _ refl
  part_urls-Ensures id upload_id (suc n) i last = Ensures-bind _ _ λ got.
      Ensures-bind_with _ _ _ (part_urls-Ensures id upload_id n (i + 1) _)
        λ rest numbered. Ensures-pure _ (ap (◌∷◌ (i + 1)) numbered)

  multipart-Ensures :
      (id : String) (size : ℤ) (ctype : String) (n : ℕ)
      → Ensures
          (λ r. (r.already_exists ≡ true) ⊎ (map (λ p. p.part_number) r.parts ≡ numbers_from n 0))
          (App.initiate_multipart_upload storage cfg id size ctype (pos n))
  unfolding App.initiate_multipart_upload
  multipart-Ensures id size ctype n = Ensures-bind _ _ λ _.
      Ensures-if (ltb_ℤ (pos n) (pos 1)) _ _ (λ _. Ensures-fail other)
        λ _. Ensures-bind _ _ λ found.
          Ensures-if (exists_committed found) _ _ (λ _. Ensures-pure _ (inl refl))
            λ _. Ensures-bind _ _ λ _. Ensures-bind _ _ λ upload_id.
              Ensures-bind_with _ _ _ (part_urls-Ensures id upload_id n 0 0)
                λ got numbered. Ensures-pure _ (inr numbered)

  -- A multipart upload that starts for a blob not yet committed has one URL for each part, numbered
  -- from 1 to the part count in order.
  multipart_numbers :
      (id : String) (size : ℤ) (ctype : String) (n : ℕ) (w v : BlobWorld O)
      (r : InitiateMultipartResult)
      → App.initiate_multipart_upload storage cfg id size ctype (pos n) w ≡ (ok r, v)
      → (r.already_exists ≡ true) ⊎ (map (λ p. p.part_number) r.parts ≡ numbers_from n 0)
  multipart_numbers id size ctype n = (multipart-Ensures id size ctype n).at
