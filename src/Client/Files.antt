-- ===== src/Client/Files.antt =====
-- UploadFile and DownloadFile of internal/client/app/vault.go.
use goph_keeper.Common.{
  ℕ, zero, suc, ◌+◌, ◌/◌, ◌^◌, String, Bool, false, not, Option, none, some, List, [], ◌∷◌, ◌++◌,
  if◌then◌else◌, ltb, leb, ◌==◌, length, take, drop,
}
use goph_keeper.Common.Table.{is_null}
use goph_keeper.Server.Error.{Error as ServerError}
use goph_keeper.Blob.Types.{Status, committed, status_eq}
use goph_keeper.Blob.Chunks.{header, chunk}
use goph_keeper.Blob.Download
use goph_keeper.Blob.Download.{Download, DownloadMessage}
use goph_keeper.Blob.Start.{StartBlobUploadRequest}
use goph_keeper.Client.Run.{
  Exec, ◌>>=◌, ◌>>◌, pure, raise, guard, found, file_failure, commit_failed, no_header, too_short,
  panic, rpc, unexpected_end,
}
use goph_keeper.Client.App.{App, Remote, remote}
use goph_keeper.Client.Crypto.{Library, encrypt, decrypt, nonce_size}
use goph_keeper.Client.Vault.{unlocked}

abbrev pub upload_request : Library → String → List ℕ → StartBlobUploadRequest
upload_request lib file_name blob_data = record {
  expected_size = length blob_data;
  expected_checksum = lib.sha256 blob_data;
  content_kind = "application/octet-stream";
  file_name = file_name;
  mime_type = "application/octet-stream";
}

-- int(startResp.MaxChunkSize) is positive.
abbrev pub usable_chunk_size : ℕ → Bool
usable_chunk_size n = if n == 0 then false else ltb n (2 ^ 63)

module _ {R : Type 0} (server : Remote R) where
  -- The loop at index `i` of the data, with as many rounds as there are bytes. A round sends at least
  -- one byte, since a chunk size of 0 divides by zero and a negative one is out of range of the slice.
  unfoldable pub send_chunks : ℕ → ℕ → List ℕ → ℕ → Exec (App R) (Unit {0})
  unfolding remote
  send_chunks zero max_chunk_size blob_data i = pure tt
  send_chunks (suc fuel) max_chunk_size blob_data i =
      let rest = send_chunks fuel max_chunk_size blob_data (i + max_chunk_size) in
      if leb (length blob_data) i then pure tt else (do
        guard (usable_chunk_size max_chunk_size) panic
        remote (server.send (chunk (i / max_chunk_size) (take max_chunk_size (drop i blob_data))))
        rest)

  -- the commit after an upload that the server did not commit
  unfoldable pub commit_upload : Status → String → Exec (App R) (Unit {0})
  unfolding remote
  commit_upload status session_id = if status_eq status committed then pure tt else (do
    blob ← remote (server.commit_blob_upload session_id)
    guard (not (is_null blob)) commit_failed)

  -- `file` is what os.ReadFile returns for the path.
  unfoldable pub upload_file : Library → Option (List ℕ) → String → Exec (App R) String
  unfolding encrypt remote send_chunks commit_upload
  upload_file lib file file_name = do
    dek ← unlocked
    bytes ← found file file_failure
    sealed ← encrypt lib dek bytes
    let blob_data = sealed.0 ++ sealed.1
    start ← remote (server.start_blob_upload (upload_request lib file_name blob_data))
    remote server.upload_blob
    remote (server.send (header start.upload_session_id))
    send_chunks (length blob_data) start.max_chunk_size blob_data 0
    status ← remote server.close_and_recv
    commit_upload status start.upload_session_id
    pure start.blob_id

-- the bytes of the chunks; a message of another kind is passed over
unfoldable pub chunk_data : List DownloadMessage → List ℕ
chunk_data [] = []
chunk_data (Download.chunk index bytes ∷ rest) = bytes ++ chunk_data rest
chunk_data (Download.header info ∷ rest) = chunk_data rest

-- After the header: the chunks up to io.EOF, or the error that Recv returns.
abbrev after_header : {S : Type 0} → List DownloadMessage → Option ServerError → Exec S (List ℕ)
after_header messages none = pure (chunk_data messages)
after_header messages (some e) = raise (rpc e)

abbrev without_header : {S A : Type 0} → Option ServerError → Exec S A
without_header none = raise unexpected_end
without_header (some e) = raise (rpc e)

-- What the stream's messages and its end make of a download. A header always has its blob.
unfoldable pub received : {S : Type 0} → Download → Exec S (List ℕ)
unfolding chunk_data
received d = elim d.sent [
  | [] ↦ without_header d.ended
  | Download.header info ∷ rest ↦ after_header rest d.ended
  | Download.chunk index bytes ∷ rest ↦ raise no_header
]

unfoldable pub download_file : {R : Type 0} → Remote R → Library → String → Exec (App R) (List ℕ)
unfolding decrypt remote received
download_file server lib blob_id = do
  dek ← unlocked
  d ← remote (server.download_blob blob_id)
  encrypted ← received d
  guard (leb nonce_size (length encrypted)) too_short
  decrypt lib dek (take nonce_size encrypted) (drop nonce_size encrypted)
