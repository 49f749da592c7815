-- ===== src/Blob/App.antt =====
-- The use cases of the blob service (internal/app/blob_app.go), over the repository and a storage.
use hss_science.Base.{
  ℕ, zero, suc, ◌+◌, String, Bool, true, false, ◌||◌, Option, none, some, List, [], ◌∷◌, Action,
  pure, fail, lift, gets, ◌>>=◌, ◌>>◌, handle, if◌then◌else◌, on_row,
}
use hss_science.Base.Int.{ℤ, pos, leb_ℤ, ltb_ℤ, rounds}
use hss_science.Base.Sql.{call_outside}
use hss_science.Blob.Domain.{
  Error, blob_not_found, already_committed, blob_pending, other, validate, is_pending, is_committed,
  Blob, new_blob,
}
use hss_science.Blob.Storage.{CompletedPart, ObjectStorage}
use hss_science.Blob.Repo.{BlobWorld, find_by_id, create, mark_committed}

pub record Config : Type 0 where
  pub presign_put_ttl : ℤ
  pub presign_get_max_ttl : ℤ
  pub multipart_threshold_bytes : ℤ

pub record InitiateUploadResult : Type 0 where
  pub already_exists : Bool
  pub presigned_put_url : String
  pub expires_at : ℕ

pub record CompleteUploadResult : Type 0 where
  pub blob_id : String
  pub committed_at : ℕ

pub record PartUploadUrl : Type 0 where
  pub part_number : ℕ
  pub presigned_put_url : String

pub record InitiateMultipartResult : Type 0 where
  pub already_exists : Bool
  pub upload_id : String
  pub parts : List PartUploadUrl
  pub expires_at : ℕ

pub record GetDownloadUrlResult : Type 0 where
  pub presigned_get_url : String
  pub expires_at : ℕ

-- `err != nil && !errors.Is(err, domain.ErrBlobNotFound)`
abbrev pub is_not_found : Error → Bool
is_not_found blob_not_found = true
is_not_found _ = false

abbrev pub exists_committed : Option Blob → Bool
exists_committed none = false
exists_committed (some b) = is_committed b.state

-- `if ttl <= 0 || ttl > a.cfg.PresignGetMaxTTL { ttl = a.cfg.PresignGetMaxTTL }`
unfoldable pub clamp_ttl : Config → ℤ → ℤ
clamp_ttl cfg ttl =
    if leb_ℤ ttl (pos 0) || ltb_ℤ cfg.presign_get_max_ttl ttl then cfg.presign_get_max_ttl else ttl

module _ {O : Type 0} where
  -- The first statements of both `Initiate` methods: a missing blob is no error.
  unfoldable pub find_existing : String → Action (BlobWorld O) Error (Option Blob)
  find_existing id =
      handle (find_by_id id) (λ b. pure (some b))
        (λ e. if is_not_found e then pure none else fail e)

  -- `if existing == nil { NewBlob; Create }`
  unfoldable pub create_if_absent :
      Option Blob → String → ℤ → String → Action (BlobWorld O) Error (Unit {0})
  create_if_absent existing id size_bytes content_type =
      on_row existing
        (do
          now ← gets (λ w. w.clock)
          blob ← lift (new_blob id size_bytes content_type now)
          create blob)
        (λ _. pure tt)

  -- The loop over the parts: `i` is its counter, `n` the rounds left, `last` the expiry of the part
  -- before.
  unfoldable pub part_urls :
      ObjectStorage O
      → Config
      → String
      → String
      → ℕ
      → ℕ
      → ℕ
      → Action (BlobWorld O) Error (List PartUploadUrl × ℕ)
  part_urls storage cfg id upload_id zero i last = pure ([], last)
  part_urls storage cfg id upload_id (suc n) i last = do
    (url, exp) ←
        call_outside other (storage.presigned_part_url id upload_id (i + 1) cfg.presign_put_ttl)
    (rest, end) ← part_urls storage cfg id upload_id n (i + 1) exp
    pure (record { part_number = i + 1; presigned_put_url = url } ∷ rest, end)

module _ {O : Type 0} (storage : ObjectStorage O) (cfg : Config) where
  unfoldable pub initiate_upload :
      String → ℤ → String → Action (BlobWorld O) Error InitiateUploadResult
  initiate_upload id size_bytes content_type = do
    lift (validate id)
    existing ← find_existing id
    if exists_committed existing
        then pure (record { already_exists = true; presigned_put_url = ""; expires_at = 0 })
        else do
          create_if_absent existing id size_bytes content_type
          (url, expires_at) ← call_outside other (storage.presigned_put_url id cfg.presign_put_ttl)
          pure (record { already_exists = false; presigned_put_url = url; expires_at = expires_at })

  unfoldable pub complete_upload : String → Action (BlobWorld O) Error CompleteUploadResult
  complete_upload id = do
    lift (validate id)
    blob ← find_by_id id
    if is_committed blob.state then fail already_committed else do
      now ← gets (λ w. w.clock)
      mark_committed id now
      pure (record { blob_id = id; committed_at = now })

  unfoldable pub initiate_multipart_upload :
      String → ℤ → String → ℤ → Action (BlobWorld O) Error InitiateMultipartResult
  initiate_multipart_upload id size_bytes content_type part_count = do
    lift (validate id)
    if ltb_ℤ part_count (pos 1) then fail other else do
      existing ← find_existing id
      if exists_committed existing
          then pure (record { already_exists = true; upload_id = ""; parts = []; expires_at = 0 })
          else do
            create_if_absent existing id size_bytes content_type
            upload_id ← call_outside other (storage.create_multipart_upload id content_type)
            (parts, expires_at) ← part_urls storage cfg id upload_id (rounds part_count) 0 0
            pure (record {
              already_exists = false;
              upload_id = upload_id;
              parts = parts;
              expires_at = expires_at;
            })

  unfoldable pub complete_multipart_upload :
      String → String → List CompletedPart → Action (BlobWorld O) Error CompleteUploadResult
  complete_multipart_upload id upload_id parts = do
    lift (validate id)
    blob ← find_by_id id
    if is_committed blob.state then fail already_committed else do
      call_outside other (storage.complete_multipart_upload id upload_id parts)
      now ← gets (λ w. w.clock)
      mark_committed id now
      pure (record { blob_id = id; committed_at = now })

  unfoldable pub abort_multipart_upload : String → String → Action (BlobWorld O) Error (Unit {0})
  abort_multipart_upload id upload_id = do
    lift (validate id)
    call_outside other (storage.abort_multipart_upload id upload_id)

  unfoldable pub get_download_url : String → ℤ → Action (BlobWorld O) Error GetDownloadUrlResult
  get_download_url id ttl = do
    lift (validate id)
    blob ← find_by_id id
    if is_pending blob.state then fail blob_pending else do
      (url, expires_at) ← call_outside other (storage.presigned_get_url id (clamp_ttl cfg ttl))
      pure (record { presigned_get_url = url; expires_at = expires_at })

  unfoldable pub get_blob_info : String → Action (BlobWorld O) Error Blob
  get_blob_info id = do lift (validate id); find_by_id id
