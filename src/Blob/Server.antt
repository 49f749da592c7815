-- ===== src/Blob/Server.antt =====
-- The gRPC methods of the blob service (internal/transport/grpc/server.go): each calls its use case
-- and translates the result or the error.
use hss_science.Base.{
  ℕ, String, Bool, true, false, Option, none, some, List, [], ◌∷◌, Result, ok, err, Action,
  if◌then◌else◌, ◌*◌, ◌+◌,
}
use hss_science.Base.Int.{ℤ, pos, negsuc}
use hss_science.Grpc.{Code, invalid_argument, not_found, failed_precondition, internal}
use hss_science.Blob.Domain.{
  Error, invalid_blob_id, blob_not_found, already_committed, blob_pending, other, UploadState,
  pending, committed, unlisted, Blob,
}
use hss_science.Blob.Storage.{CompletedPart, ObjectStorage}
use hss_science.Blob.Repo.{BlobWorld}
use hss_science.Blob.App.{Config, InitiateUploadResult, InitiateMultipartResult, PartUploadUrl}
use hss_science.Blob.App

unfoldable pub map_error : Error → Code
map_error invalid_blob_id = invalid_argument
map_error blob_not_found = not_found
map_error already_committed = failed_precondition
map_error blob_pending = failed_precondition
map_error other = internal

pub data ProtoState : Type 0 where
  unspecified pending_state committed_state : ProtoState

unfoldable pub state_to_proto : UploadState → ProtoState
state_to_proto pending = pending_state
state_to_proto committed = committed_state
state_to_proto (unlisted s) = unspecified

pub record InitiateUploadResponse : Type 0 where
  pub already_exists : Bool
  pub presigned_put_url : String
  pub url_expires_at : Option ℕ

pub record CompleteUploadResponse : Type 0 where
  pub blob_id : String
  pub committed_at : ℕ

pub record InitiateMultipartResponse : Type 0 where
  pub already_exists : Bool
  pub upload_id : String
  pub parts : List PartUploadUrl
  pub url_expires_at : Option ℕ

pub record GetDownloadUrlResponse : Type 0 where
  pub presigned_get_url : String
  pub url_expires_at : ℕ

pub record GetBlobInfoResponse : Type 0 where
  pub blob_id : String
  pub size_bytes : ℤ
  pub content_type : String
  pub upload_state : ProtoState
  pub committed_at : Option ℕ

-- `time.Duration(req.TtlSeconds) * time.Second`: an int32 of seconds fits an int64 of nanoseconds.
unfoldable pub ttl_of_seconds : ℤ → ℤ
ttl_of_seconds (pos n) = pos (n * 1_000_000_000)
ttl_of_seconds (negsuc n) = negsuc (n * 1_000_000_000 + 999_999_999)

unfoldable pub upload_response : InitiateUploadResult → InitiateUploadResponse
upload_response r = record {
  already_exists = r.already_exists;
  presigned_put_url = if r.already_exists then "" else r.presigned_put_url;
  url_expires_at = if r.already_exists then none else some r.expires_at;
}

-- The parts are copied one by one, with both of their fields.
unfoldable pub multipart_response : InitiateMultipartResult → InitiateMultipartResponse
multipart_response r =
    if r.already_exists
    then record { already_exists = true; upload_id = ""; parts = []; url_expires_at = none }
    else record {
      already_exists = false;
      upload_id = r.upload_id;
      parts = r.parts;
      url_expires_at = some r.expires_at;
    }

unfoldable pub info_response : Blob → GetBlobInfoResponse
unfolding state_to_proto
info_response b = record {
  blob_id = b.id;
  size_bytes = b.size_bytes;
  content_type = b.content_type;
  upload_state = state_to_proto b.state;
  committed_at = b.committed_at;
}

module _ {O A B : Type 0} where
  -- `if err != nil { return nil, mapError(err) }`
  unfoldable pub respond :
      (A → B)
      → (BlobWorld O → Result Error A × BlobWorld O)
      → BlobWorld O
      → Result Code B × BlobWorld O
  unfolding map_error
  respond f m w = let (r, v) = m w in (elim r [ ok a ↦ ok (f a) | err e ↦ err (map_error e) ], v)

module _ {O : Type 0} (storage : ObjectStorage O) (cfg : Config) where
  unfoldable pub initiate_upload :
      String → ℤ → String → Action (BlobWorld O) Code InitiateUploadResponse
  initiate_upload id size_bytes content_type =
      respond upload_response (App.initiate_upload storage cfg id size_bytes content_type)

  unfoldable pub complete_upload : String → Action (BlobWorld O) Code CompleteUploadResponse
  complete_upload id =
      respond
        (λ (r : App.CompleteUploadResult). record {
          blob_id = r.blob_id;
          committed_at = r.committed_at;
        })
        (App.complete_upload storage cfg id)

  unfoldable pub initiate_multipart_upload :
      String → ℤ → String → ℤ → Action (BlobWorld O) Code InitiateMultipartResponse
  initiate_multipart_upload id size_bytes content_type part_count =
      respond multipart_response
        (App.initiate_multipart_upload storage cfg id size_bytes content_type part_count)

  unfoldable pub complete_multipart_upload :
      String → String → List CompletedPart → Action (BlobWorld O) Code CompleteUploadResponse
  complete_multipart_upload id upload_id parts =
      respond
        (λ (r : App.CompleteUploadResult). record {
          blob_id = r.blob_id;
          committed_at = r.committed_at;
        })
        (App.complete_multipart_upload storage cfg id upload_id parts)

  unfoldable pub abort_multipart_upload : String → String → Action (BlobWorld O) Code (Unit {0})
  abort_multipart_upload id upload_id =
      respond (λ u. u) (App.abort_multipart_upload storage cfg id upload_id)

  unfoldable pub get_download_url : String → ℤ → Action (BlobWorld O) Code GetDownloadUrlResponse
  get_download_url id ttl_seconds =
      respond
        (λ (r : App.GetDownloadUrlResult). record {
          presigned_get_url = r.presigned_get_url;
          url_expires_at = r.expires_at;
        })
        (App.get_download_url storage cfg id (ttl_of_seconds ttl_seconds))

  unfoldable pub get_blob_info : String → Action (BlobWorld O) Code GetBlobInfoResponse
  get_blob_info id = respond info_response (App.get_blob_info storage cfg id)

-- Everything that a client can ask of the service.
pub data Request : Type 0 where
  initiates : String → ℤ → String → Request
  completes : String → Request
  initiates_multipart : String → ℤ → String → ℤ → Request
  completes_multipart : String → String → List CompletedPart → Request
  aborts_multipart : String → String → Request
  downloads : String → ℤ → Request
  inspects : String → Request

module _ {O : Type 0} (storage : ObjectStorage O) (cfg : Config) where
  -- The world after one request, whatever its answer.
  unfoldable pub serve : Request → BlobWorld O → BlobWorld O
  unfolding initiate_upload complete_upload initiate_multipart_upload complete_multipart_upload
      abort_multipart_upload get_download_url get_blob_info respond
  serve (initiates id size ctype) w = (initiate_upload storage cfg id size ctype w).1
  serve (completes id) w = (complete_upload storage cfg id w).1
  serve (initiates_multipart id size ctype n) w =
      (initiate_multipart_upload storage cfg id size ctype n w).1
  serve (completes_multipart id upload_id parts) w =
      (complete_multipart_upload storage cfg id upload_id parts w).1
  serve (aborts_multipart id upload_id) w = (abort_multipart_upload storage cfg id upload_id w).1
  serve (downloads id ttl) w = (get_download_url storage cfg id ttl w).1
  serve (inspects id) w = (get_blob_info storage cfg id w).1

  unfoldable pub serve_all : List Request → BlobWorld O → BlobWorld O
  serve_all [] w = w
  serve_all (r ∷ rs) w = serve_all rs (serve r w)
