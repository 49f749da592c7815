-- ===== src/Blob/Answers.antt =====
-- The status codes that clients see, and the table behind them.
use hss_science.Base.{
  [], ◌≡◌, true, false, Result, String, Option, ok, none, ◌>>=◌, err, some, List, arith,
}
use hss_science.Base.Sql.Rows.{find}
use hss_science.Blob.App
use hss_science.Blob.Server
use hss_science.Blob.Server.{
  Request, initiates, serve, completes, initiates_multipart, completes_multipart, aborts_multipart,
  downloads, inspects,
}
use hss_science.Blob.Storage.{ObjectStorage, CompletedPart}
use hss_science.Blob.App.{Config, CompleteUploadResult}
use hss_science.Grpc.{Code, invalid_argument, internal, failed_precondition, not_found}
use hss_science.Blob.Repo.{BlobWorld, find_by_id, row_to_blob, has_id, mark_committed}
use hss_science.Blob.Domain.{validate, hex_re}
use hss_science.Base.Sql.{query, statement}
use hss_science.Base.Int.{ℤ, ltb_ℤ, pos}
use hss_science.Blob.Rows.{IsValid}
use hss_science.Blob.Uploads.{complete_upload_commits}

abbrev pub target : Request → String
target (initiates id size ctype) = id
target (completes id) = id
target (initiates_multipart id size ctype n) = id
target (completes_multipart id upload_id parts) = id
target (aborts_multipart id upload_id) = id
target (downloads id ttl) = id
target (inspects id) = id

abbrev code_of : {A : Type 0} → Result Code A → Option Code
code_of (ok a) = none
code_of (err c) = some c

module _ {O : Type 0} (storage : ObjectStorage O) (cfg : Config) where
  -- The status code of a request, `none` for OK.
  abbrev pub answer : Request → BlobWorld O → Option Code
  answer (initiates id size ctype) w =
      code_of (Server.initiate_upload storage cfg id size ctype w).0
  answer (completes id) w = code_of (Server.complete_upload storage cfg id w).0
  answer (initiates_multipart id size ctype n) w =
      code_of (Server.initiate_multipart_upload storage cfg id size ctype n w).0
  answer (completes_multipart id upload_id parts) w =
      code_of (Server.complete_multipart_upload storage cfg id upload_id parts w).0
  answer (aborts_multipart id upload_id) w =
      code_of (Server.abort_multipart_upload storage cfg id upload_id w).0
  answer (downloads id ttl) w = code_of (Server.get_download_url storage cfg id ttl w).0
  answer (inspects id) w = code_of (Server.get_blob_info storage cfg id w).0

  -- A request for anything but 64 lower-case hexadecimal digits is an invalid argument. It runs no
  -- statement, calls no storage and leaves the world as it was.
  pub invalid_id_refused :
      (r : Request) (w : BlobWorld O)
      → hex_re (target r) ≡ false
      → (answer r w ≡ some invalid_argument) × (serve storage cfg r w ≡ w)
  unfolding serve App.initiate_upload App.complete_upload App.initiate_multipart_upload
      App.complete_multipart_upload App.abort_multipart_upload App.get_download_url
      App.get_blob_info validate ◌>>=◌
  invalid_id_refused (initiates id size ctype) w h = (ground arith, ground arith)
  invalid_id_refused _ w h = (ground arith, ground arith)

  -- With a database that answers, a request for a blob that is not there is not found, unless it
  -- starts an upload or aborts one, which look for no blob; and the world stays as it was.
  missing_not_found :
      (id upload_id : String) (parts : List CompletedPart) (ttl : ℤ) (w : BlobWorld O)
      → hex_re id ≡ true
      → find (has_id id) w.tables ≡ none
      → w.faults ≡ []
      → (answer (completes id) w ≡ some not_found)
        × (answer (completes_multipart id upload_id parts) w ≡ some not_found)
        × (answer (downloads id ttl) w ≡ some not_found)
        × (answer (inspects id) w ≡ some not_found)
        × (serve storage cfg (completes id) w ≡ w)
        × (serve storage cfg (completes_multipart id upload_id parts) w ≡ w)
        × (serve storage cfg (downloads id ttl) w ≡ w)
  unfolding serve App.complete_upload App.complete_multipart_upload App.get_download_url
      App.get_blob_info validate find_by_id query statement ◌>>=◌
  missing_not_found id upload_id parts ttl w h e calm = (
    ground arith,
    ground arith,
    ground arith,
    ground arith,
    ground arith,
    ground arith,
    ground arith,
  )

  -- A part count below 1 is the caller's mistake, and yet an internal error: the use case makes an
  -- error that wraps no sentinel.
  bad_part_count_internal :
      (id : String) (size : ℤ) (ctype : String) (n : ℤ) (w : BlobWorld O)
      → hex_re id ≡ true
      → ltb_ℤ n (pos 1) ≡ true
      → (answer (initiates_multipart id size ctype n) w ≡ some internal)
        × (serve storage cfg (initiates_multipart id size ctype n) w ≡ w)
  unfolding serve App.initiate_multipart_upload validate ◌>>=◌
  bad_part_count_internal id size ctype n w h few = (ground arith, ground arith)

  later_calm :
      (id : String) (w v : BlobWorld O) (r : CompleteUploadResult)
      → w.faults ≡ []
      → App.complete_upload storage cfg id w ≡ (ok r, v)
      → v.faults ≡ []
  unfolding find_by_id query statement mark_committed App.complete_upload ◌>>=◌
  later_calm id w v r calm h = ground (arith, h)

  -- A blob is completed once: the second request is a failed precondition, and changes nothing.
  complete_twice :
      (id : String) (w v : BlobWorld O) (r : CompleteUploadResult)
      → IsValid w.tables
      → w.faults ≡ []
      → App.complete_upload storage cfg id w ≡ (ok r, v)
      → (answer (completes id) v ≡ some failed_precondition)
        × (serve storage cfg (completes id) v ≡ v)
  unfolding serve validate find_by_id row_to_blob query statement App.complete_upload ◌>>=◌
  complete_twice id w v r valid calm h =
      let (row, found, waits, stored, _, _, _) =
        complete_upload_commits storage cfg id w v r valid h in
      let named : hex_re id ≡ true = ground (arith, h) in
      let still : v.faults ≡ [] = later_calm id w v r calm h in
      (ground (arith, named, still, stored), ground (arith, named, still, stored))
