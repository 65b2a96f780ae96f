-- ===== src/Blob/Committed/Runs.antt =====
-- Any sequence of upload calls, by any users, and a committed blob.
use goph_keeper.Common.{String, Option, some, List, [], ◌∷◌, ◌≡◌}
use goph_keeper.Common.Table.{find?}
use goph_keeper.Server.State.{Server}
use goph_keeper.Server.Keeps.{Keeps}
use goph_keeper.Blob.Types.{Blob, committed}
use goph_keeper.Blob.Repository.{blob_key}
use goph_keeper.Blob.Chunks.{UploadMessage, header}
use goph_keeper.Blob.Handler.{BlobHandler}
use goph_keeper.Blob.Start.{StartBlobUploadRequest, start_blob_upload}
use goph_keeper.Blob.Upload.{upload_blob, with_header}
use goph_keeper.Blob.Commit.{commit_blob_upload}
use goph_keeper.Blob.Committed.{
  HasRow, store_rules, start_blob_upload-HasRow, upload_to_session-HasRow,
}

-- A call of the upload API: the caller, as the interceptor knows it, and the request.
pub data UploadCall : Type 0 where
  starts : Option String → Option StartBlobUploadRequest → UploadCall
  uploads : Option String → List UploadMessage → UploadCall
  commits : Option String → Option String → UploadCall

unfoldable pub serve : BlobHandler → UploadCall → Server → Server
serve h (starts auth req) s = (start_blob_upload h auth req s).1
serve h (uploads auth stream) s = (upload_blob h auth stream s).1
serve h (commits auth req) s = (commit_blob_upload h auth req s).1

unfoldable pub serve_all : BlobHandler → List UploadCall → Server → Server
serve_all h [] s = s
serve_all h (c ∷ cs) s = serve_all h cs (serve h c s)

module _ (u id : String) (b : Blob) (done : b.status ≡ committed) (h : BlobHandler) where
  with_header-HasRow :
      (v : String) (stream : List UploadMessage) → Keeps (HasRow u id b) (with_header h v stream)
  unfolding upload_blob
  with_header-HasRow v (header i ∷ rest) = search (store_rules, upload_to_session-HasRow) depth 12
  with_header-HasRow v _ = search store_rules depth 12

  commit-HasRow : (auth req : Option String) → Keeps (HasRow u id b) (commit_blob_upload h auth req)
  unfolding commit_blob_upload
  commit-HasRow auth req = search store_rules depth 60

  upload-HasRow :
      (auth : Option String) (stream : List UploadMessage)
      → Keeps (HasRow u id b) (upload_blob h auth stream)
  unfolding upload_blob
  upload-HasRow auth stream = search (store_rules, with_header-HasRow) depth 30

  serve-HasRow : (c : UploadCall) (s : Server) → HasRow u id b s → HasRow u id b (serve h c s)
  unfolding serve
  serve-HasRow (starts auth req) s r = (start_blob_upload-HasRow u id b done h auth req).at s r
  serve-HasRow (uploads auth stream) s r = (upload-HasRow auth stream).at s r
  serve-HasRow (commits auth req) s r = (commit-HasRow auth req).at s r

  -- If the row of a user's committed blob is there, it is there unchanged after any sequence of
  -- StartBlobUpload, UploadBlob and CommitBlobUpload calls, by any users and with any failures.
  pub serve_all-HasRow :
      (cs : List UploadCall) (s : Server)
      → find? (blob_key u id) s.blobs ≡ some b
      → find? (blob_key u id) (serve_all h cs s).blobs ≡ some b
  unfolding serve_all
  serve_all-HasRow [] s r = r
  serve_all-HasRow (c ∷ cs) s r = serve_all-HasRow cs (serve h c s) (serve-HasRow c s r)
