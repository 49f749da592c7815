-- ===== src/Blob/Storage.antt =====
-- The port `ObjectStorage` (internal/domain/storage.go). What stands behind it is Cloudflare R2: a
-- parameter, with a state `O` of its own, that may fail at any call.
use hss_science.Base.{ℕ, String, Option, List}
use hss_science.Base.Int.{ℤ}

pub record CompletedPart : Type 0 where
  pub part_number : ℤ
  pub etag : String

-- A call takes the state of the bucket and returns its result, `none` for an error, and the state.
abbrev pub Call : Type 0 → Type 0 → Type 0
Call O A = O → Option A × O

pub record ObjectStorage (O : Type 0) : Type 0 where
  pub presigned_put_url : String → ℤ → Call O (String × ℕ)
  pub presigned_get_url : String → ℤ → Call O (String × ℕ)
  pub create_multipart_upload : String → String → Call O String
  pub presigned_part_url : String → String → ℕ → ℤ → Call O (String × ℕ)
  pub complete_multipart_upload : String → String → List CompletedPart → Call O (Unit {0})
  pub abort_multipart_upload : String → String → Call O (Unit {0})
