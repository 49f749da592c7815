-- ===== src/Blob/Requests.antt =====
-- What every request keeps true of the table `blobs`: a rule from what the two statements that
-- write to it keep true.
use hss_science.Base.{◌∷◌, [], String, ◌≡◌, true, Option, List, ok, arith, zero, suc, ℕ}
use hss_science.Base.Int.{ℤ}
use hss_science.Base.Sql.Keeps.{
  Keeps, Keeps-bind_lift, Keeps-bind, Keeps-statement, Keeps-gets, Keeps-on_row, Keeps-pure,
  keeps_rules,
}
use hss_science.Blob.Domain.{pending, hex_re, Blob, new_blob}
use hss_science.Blob.Storage.{ObjectStorage, CompletedPart}
use hss_science.Blob.Repo.{
  BlobRow, insert_blob, update_committed, find_by_id, create, mark_committed, BlobWorld,
}
use hss_science.Blob.App
use hss_science.Blob.Server.{
  Request, initiates, completes, initiates_multipart, completes_multipart, aborts_multipart,
  downloads, inspects, serve, serve_all,
}
use hss_science.Blob.App.{Config, find_existing, create_if_absent, part_urls}

-- A blob as `NewBlob` makes it.
pub record IsNew (b : Blob) : Type 0 where
  pub named : hex_re b.id ≡ true
  pub keyed : b.r2_key ≡ b.id
  pub waits : b.state ≡ pending

pub new_blob-IsNew :
    (id : String) (size : ℤ) (ctype : String) (now : ℕ) {b : Blob}
    → new_blob id size ctype now ≡ ok b
    → IsNew b
unfolding new_blob
new_blob-IsNew id size ctype now {b} h = ground arith

module _ {O : Type 0} (P : List BlobRow → Type 0)
    (inserts : (b : Blob) → IsNew b → (t : List BlobRow) → P t → P (insert_blob b t).1)
    (commits : (id : String) (at : ℕ) (t : List BlobRow)
      → P t
      → P (update_committed id at t).1) where
  create-Keeps : (b : Blob) → IsNew b → Keeps {O = O} P (create b)
  unfolding create
  create-Keeps b n = Keeps-statement _ _ (inserts b n)

  mark_committed-Keeps : (id : String) (at : ℕ) → Keeps {O = O} P (mark_committed id at)
  unfolding mark_committed
  mark_committed-Keeps id at =
      Keeps-bind _ _ (Keeps-statement _ _ (commits id at)) (λ n. search keeps_rules)

  find_by_id-Keeps : (id : String) → Keeps {O = O} P (find_by_id id)
  unfolding find_by_id
  find_by_id-Keeps id = search keeps_rules

  find_existing-Keeps : (id : String) → Keeps {O = O} P (find_existing id)
  unfolding find_existing
  find_existing-Keeps id = search (keeps_rules, find_by_id-Keeps)

  create_if_absent-Keeps :
      (o : Option Blob) (id : String) (size : ℤ) (ctype : String)
      → Keeps {O = O} P (create_if_absent o id size ctype)
  unfolding create_if_absent
  create_if_absent-Keeps o id size ctype =
      Keeps-on_row o _ _
        (Keeps-bind _ _ (Keeps-gets _) λ now.
          Keeps-bind_lift _ _ λ b made. create-Keeps b (new_blob-IsNew id size ctype now made))
        (λ b _. Keeps-pure tt)

  part_urls-Keeps :
      (storage : ObjectStorage O) (cfg : Config) (id upload_id : String) (n i last : ℕ)
      → Keeps P (part_urls storage cfg id upload_id n i last)
  unfolding part_urls
  part_urls-Keeps storage cfg id upload_id zero i last = search keeps_rules
  part_urls-Keeps storage cfg id upload_id (suc n) i last =
      search (keeps_rules, λ (j k : ℕ). part_urls-Keeps storage cfg id upload_id n j k)

  ruleset request_rules = (
    keeps_rules, mark_committed-Keeps, find_by_id-Keeps, find_existing-Keeps,
    create_if_absent-Keeps, part_urls-Keeps,
  )

  module _ (storage : ObjectStorage O) (cfg : Config) where
    initiate_upload-Keeps :
        (id : String) (size : ℤ) (ctype : String)
        → Keeps P (App.initiate_upload storage cfg id size ctype)
    unfolding App.initiate_upload
    initiate_upload-Keeps id size ctype = search request_rules depth 8

    complete_upload-Keeps : (id : String) → Keeps P (App.complete_upload storage cfg id)
    unfolding App.complete_upload
    complete_upload-Keeps id = search request_rules depth 8

    initiate_multipart-Keeps :
        (id : String) (size : ℤ) (ctype : String) (n : ℤ)
        → Keeps P (App.initiate_multipart_upload storage cfg id size ctype n)
    unfolding App.initiate_multipart_upload
    initiate_multipart-Keeps id size ctype n = search request_rules depth 12

    complete_multipart-Keeps :
        (id upload_id : String) (parts : List CompletedPart)
        → Keeps P (App.complete_multipart_upload storage cfg id upload_id parts)
    unfolding App.complete_multipart_upload
    complete_multipart-Keeps id upload_id parts = search request_rules depth 8

    abort_multipart-Keeps :
        (id upload_id : String) → Keeps P (App.abort_multipart_upload storage cfg id upload_id)
    unfolding App.abort_multipart_upload
    abort_multipart-Keeps id upload_id = search request_rules

    get_download_url-Keeps :
        (id : String) (ttl : ℤ) → Keeps P (App.get_download_url storage cfg id ttl)
    unfolding App.get_download_url
    get_download_url-Keeps id ttl = search request_rules depth 8

    get_blob_info-Keeps : (id : String) → Keeps P (App.get_blob_info storage cfg id)
    unfolding App.get_blob_info
    get_blob_info-Keeps id = search request_rules

    pub serve-keeps :
        (r : Request) (w : BlobWorld O) → P w.tables → P (serve storage cfg r w).tables
    unfolding serve
    serve-keeps (initiates id size ctype) = (initiate_upload-Keeps id size ctype).at
    serve-keeps (completes id) = (complete_upload-Keeps id).at
    serve-keeps (initiates_multipart id size ctype n) =
        (initiate_multipart-Keeps id size ctype n).at
    serve-keeps (completes_multipart id upload_id parts) =
        (complete_multipart-Keeps id upload_id parts).at
    serve-keeps (aborts_multipart id upload_id) = (abort_multipart-Keeps id upload_id).at
    serve-keeps (downloads id ttl) = (get_download_url-Keeps id _).at
    serve-keeps (inspects id) = (get_blob_info-Keeps id).at

    pub serve_all-keeps :
        (rs : List Request) (w : BlobWorld O) → P w.tables → P (serve_all storage cfg rs w).tables
    unfolding serve_all
    serve_all-keeps [] w h = h
    serve_all-keeps (r ∷ rs) w h = serve_all-keeps rs (serve storage cfg r w) (serve-keeps r w h)
