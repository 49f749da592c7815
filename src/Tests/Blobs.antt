-- ===== src/Tests/Blobs.antt =====
-- The blob service at work on one blob, and its theorems there.
use hss_science.Blob.Ledger.{Reach, ledger, serve_all-refines}
use hss_science.Blob.Uploads.{IsClamped}
use hss_science.Base.Sql.Rows.{update}
use hss_science.Base.{[], ◌==◌, ◌∷◌, ◌≡◌, refl, if◌then◌else◌, ◌≢◌}
use hss_science.Base.Sql.Rows.{update, count}
use hss_science.Blob.Repo.{update_committed, mark_committed, find_by_id, row_to_blob}
use hss_science.Blob.Domain.{validate}
use hss_science.Base.{◌>>=◌}
use hss_science.Base.{
  ℕ, String, Option, none, some, List, [], ◌∷◌, ok, refl, ◌≡◌, inl, inr, false, ◌↔◌, if◌then◌else◌,
  ◌==◌,
}
use hss_science.Base.Int.{pos, ℤ}
use hss_science.Base.Sql.{query, call_outside}
use hss_science.Base.Sql.Rows.{find}
use hss_science.Blob.Domain.{pending, committed, hex_re}
use hss_science.Blob.Storage.{ObjectStorage}
use hss_science.Blob.Repo.{BlobRow, BlobWorld, has_id, set_committed}
use hss_science.Blob.App.{
  Config, CompleteUploadResult, GetDownloadUrlResult, InitiateMultipartResult, clamp_ttl,
}
use hss_science.Blob.App
use hss_science.Grpc
use hss_science.Blob.Rows.{IsValid, Holds, serve_all-IsValid, serve_all-Holds}
use hss_science.Blob.Server.{Request, initiates, completes, downloads, serve, serve_all}
use hss_science.Blob.Uploads.{complete_upload_commits, download_grants}
use hss_science.Blob.Answers.{answer, invalid_id_refused}
use hss_science.Blob.Interceptor.{Metadata, Admitted, authenticate, authenticate_iff}

-- A bucket that always answers, and counts its calls.
abbrev bucket : ObjectStorage ℕ
bucket = record {
  presigned_put_url = λ key ttl n. (some ("put", 60), n);
  presigned_get_url = λ key ttl n. (some ("get", 60), n);
  create_multipart_upload = λ key ctype n. (some "upload", n);
  presigned_part_url = λ key upload_id part ttl n. (some ("part", part), n);
  complete_multipart_upload = λ key upload_id parts n. (some tt, n);
  abort_multipart_upload = λ key upload_id n. (some tt, n);
}

abbrev limits : Config
limits = record {
  presign_put_ttl = pos 900;
  presign_get_max_ttl = pos 3600;
  multipart_threshold_bytes = pos 100;
}

abbrev sha : String
sha = "0123456789abcdef0123456789abcdef0123456789abcdef0123456789abcdef"

abbrev waiting_row : BlobRow
waiting_row = record {
  id = sha;
  size_bytes = pos 5;
  content_type = "text/plain";
  r2_key = sha;
  state = pending;
  created_at = 1;
  committed_at = none;
}

abbrev done_row : BlobRow
done_row = set_committed 7 waiting_row

abbrev world_of : List BlobRow → BlobWorld ℕ
world_of rows = record { tables = rows; outside = 0; faults = []; clock = 7; minted = 0 }

abbrev before : BlobWorld ℕ
before = world_of (waiting_row ∷ [])

abbrev after : BlobWorld ℕ
after = world_of (done_row ∷ [])

abbrev completed : CompleteUploadResult
completed = record { blob_id = sha; committed_at = 7 }

waiting_IsValid : IsValid (waiting_row ∷ [])
unfolding hex_re find
waiting_IsValid = record {
  each = (record { named = refl; keyed = refl; dated = inl (refl, refl) }, tt);
  distinct = (refl, tt);
}

done_IsValid : IsValid (done_row ∷ [])
unfolding hex_re find
done_IsValid = record {
  each = (record { named = refl; keyed = refl; dated = inr (7, refl, refl) }, tt);
  distinct = (refl, tt);
}

completes_now : App.complete_upload bucket limits sha before ≡ (ok completed, after)
unfolding App.complete_upload ◌>>=◌ validate hex_re find_by_id query find row_to_blob mark_committed
    update_committed count update
completes_now = refl

abbrev session : List Request
session = initiates sha (pos 5) "text/plain" ∷ completes sha ∷ downloads sha (pos 60) ∷ []

serve_all-IsValid_example : IsValid (serve_all bucket limits session before).tables
serve_all-IsValid_example = serve_all-IsValid bucket limits session before waiting_IsValid

serve_all-Holds_example : Holds sha waiting_row (serve_all bucket limits session before).tables
unfolding find
serve_all-Holds_example = serve_all-Holds bucket limits session before sha waiting_row refl

complete_upload_commits_example :
    (row : BlobRow) × (find (has_id sha) (waiting_row ∷ []) ≡ some row)
    × (row.state ≡ pending)
    × (find (has_id sha) (done_row ∷ [])
        ≡ some (record row { state = committed; committed_at = some 7 }))
    × ((other_id : String)
        → other_id ≢ sha
        → find (has_id other_id) (done_row ∷ []) ≡ find (has_id other_id) (waiting_row ∷ []))
    × (completed ≡ record { blob_id = sha; committed_at = 7 })
    × (after.outside ≡ before.outside)
complete_upload_commits_example =
    complete_upload_commits bucket limits sha before after completed waiting_IsValid completes_now

abbrev granted : GetDownloadUrlResult
granted = record { presigned_get_url = "get"; expires_at = 60 }

grants_now : App.get_download_url bucket limits sha (pos 9999) after ≡ (ok granted, after)
unfolding App.get_download_url ◌>>=◌ validate hex_re find_by_id query find row_to_blob call_outside
grants_now = refl

download_grants_example :
    (row : BlobRow) × (find (has_id sha) (done_row ∷ []) ≡ some row)
    × (row.state ≡ committed)
    × (after.tables ≡ after.tables)
    × (asked : ℤ) × IsClamped limits.presign_get_max_ttl (pos 9999) asked
    × (bucket.presigned_get_url sha asked 0 ≡ (some ("get", 60), 0))
download_grants_example =
    download_grants bucket limits sha (pos 9999) after after granted done_IsValid grants_now

abbrev two_parts : InitiateMultipartResult
two_parts = record {
  already_exists = false;
  upload_id = "upload";
  parts =
      record { part_number = 1; presigned_put_url = "part" }
      ∷ record { part_number = 2; presigned_put_url = "part" }
      ∷ [];
  expires_at = 2;
}

invalid_id_refused_example :
    (answer bucket limits (completes "short") before ≡ some Grpc.invalid_argument)
    × (serve bucket limits (completes "short") before ≡ before)
unfolding hex_re
invalid_id_refused_example = invalid_id_refused bucket limits (completes "short") before refl

abbrev headers : Metadata
headers = some (λ key. "Bearer abc" ∷ [])

abbrev verifier : String → Option String
verifier raw = if raw == "abc" then some "alice" else none

authenticate_iff_example :
    (authenticate verifier (λ token. some token) headers ≡ ok "alice")
    ↔ Admitted verifier (λ token. some token) headers "alice"
authenticate_iff_example = authenticate_iff verifier (λ token. some token) headers "alice"

serve_all-refines_example :
    Reach (ledger before.tables) (ledger (serve_all bucket limits session before).tables)
serve_all-refines_example = serve_all-refines bucket limits session before waiting_IsValid
