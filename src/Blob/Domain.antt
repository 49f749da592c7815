-- ===== src/Blob/Domain.antt =====
-- The entities and errors of the blob service (internal/domain/blob.go, errors.go). A `BlobID` is a
-- Go string. Times are instants, as numbers; a wrapped error counts as the error it wraps.
use Prim.Native.Char.{Char, code}
use hss_science.Base.{
  ℕ, zero, suc, String, Bool, true, false, ◌&&◌, ◌||◌, Option, none, some, Result, ok, err, leb,
  if◌then◌else◌,
}
use hss_science.Base.Int.{ℤ}

-- `other` is any error that wraps none of the four sentinels.
pub data Error : Type 0 where
  invalid_blob_id blob_not_found already_committed blob_pending other : Error

-- `[0-9a-f]`
unfoldable pub is_hex : Char → Bool
is_hex c = (leb b'0' (code c) && leb (code c) b'9') || (leb b'a' (code c) && leb (code c) b'f')

-- `^[0-9a-f]{n}$`, without the multi-line flag
unfoldable pub matches_hex : ℕ → String → Bool
unfolding is_hex
matches_hex zero String.[] = true
matches_hex zero (String.◌∷◌ c s) = false
matches_hex (suc n) String.[] = false
matches_hex (suc n) (String.◌∷◌ c s) = is_hex c && matches_hex n s

-- `hexRE`
unfoldable pub hex_re : String → Bool
unfolding matches_hex
hex_re s = matches_hex 64 s

unfoldable pub validate : String → Result Error (Unit {0})
validate id = if hex_re id then ok tt else err invalid_blob_id

-- A Go string type with two constants; `unlisted` is any other value.
pub data UploadState : Type 0 where
  pending committed : UploadState
  unlisted : String → UploadState

abbrev pub is_pending : UploadState → Bool
is_pending pending = true
is_pending _ = false

abbrev pub is_committed : UploadState → Bool
is_committed committed = true
is_committed _ = false

pub record Blob : Type 0 where
  pub id : String
  pub size_bytes : ℤ
  pub content_type : String
  pub r2_key : String
  pub state : UploadState
  pub created_at : ℕ
  pub committed_at : Option ℕ

unfoldable pub new_blob : String → ℤ → String → ℕ → Result Error Blob
unfolding validate
new_blob id size_bytes content_type now = elim (validate id) [
  | err e ↦ err e
  | ok _ ↦ ok (record {
    id = id;
    size_bytes = size_bytes;
    content_type = content_type;
    r2_key = id;
    state = pending;
    created_at = now;
    committed_at = none;
  })
]

-- `Commit` is a method of the entity that the service itself never calls: the repository commits by
-- one `UPDATE`.
unfoldable pub commit : Blob → ℕ → Result Error Blob
commit b at =
    if is_committed b.state
    then err already_committed
    else ok (record b { state = committed; committed_at = some at })
