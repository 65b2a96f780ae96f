-- ===== src/Blob/Download.antt =====
-- DownloadBlob of internal/server/grpcserver/blob_handler.go. The reader of an object is the object
-- storage library's: what its reads return, for the size of the buffer and the content.
pub mod Complete
pub mod Delivered
use goph_keeper.Common.{
  ℕ, ◌+◌, String, Bool, true, false, ◌&&◌, not, Option, none, some, List, [], ◌∷◌, ◌++◌,
  if◌then◌else◌, str_eq, ◌==◌, length,
}
use goph_keeper.Common.Table.{is_null}
use goph_keeper.Common.Text.{trim_space}
use goph_keeper.Server.Error.{
  Error, status, unauthenticated, invalid_argument, failed_precondition, not_found, internal,
  stream_failure,
}
use goph_keeper.Server.Exec.{Exec, ◌>>=◌, ◌>>◌, pure, found, guard, on_error, catch, call}
use goph_keeper.Blob.Types.{Blob, Status, committed, status_eq}
use goph_keeper.Blob.Repository.{get_by_id}
use goph_keeper.Blob.Storage.{get_object}
use goph_keeper.Blob.Handler.{BlobHandler, blob_error}
use goph_keeper.Blob.Chunks.{wrap_u64}

-- The error that a read returns: none, io.EOF or another.
pub data ReadEnd : Type 0 where
  more at_eof failed : ReadEnd

pub data Read : Type 0 where
  read : List ℕ → ReadEnd → Read

-- A reader whose list is used up is at io.EOF.
abbrev pub Reader : Type 0
Reader = ℕ → List ℕ → List Read

pub record BlobInfo : Type 0 where
  pub blob_id : String
  pub user_id : String
  pub object_key : String
  pub size_bytes : ℕ
  pub checksum : List ℕ
  pub content_kind : String
  pub status : Status
  pub created_at : ℕ
  pub file_name : String
  pub mime_type : String
  pub committed_at : Option ℕ
  pub deleted_at : Option ℕ

abbrev text_or_empty : Option String → String
text_or_empty none = ""
text_or_empty (some t) = t

unfoldable pub to_proto_blob_info : Blob → BlobInfo
to_proto_blob_info b = record {
  blob_id = b.blob_id;
  user_id = b.user_id;
  object_key = b.object_key;
  size_bytes = b.size_bytes;
  checksum = b.checksum;
  content_kind = b.content_kind;
  status = b.status;
  created_at = b.created_at;
  file_name = text_or_empty b.file_name;
  mime_type = text_or_empty b.mime_type;
  committed_at = b.committed_at;
  deleted_at = b.deleted_at;
}

pub data DownloadMessage : Type 0 where
  header : BlobInfo → DownloadMessage
  chunk : ℕ → List ℕ → DownloadMessage

-- What was sent, and the error that the handler returned after it.
pub record Download : Type 0 where
  pub sent : List DownloadMessage
  pub ended : Option Error

-- stream.Send, and whether it succeeded
unfoldable pub send : Exec Bool
send = catch (do call stream_failure; pure true) (λ e. pure false)

unfoldable pub send_if : Bool → Exec Bool
send_if needed = if needed then send else pure true

abbrev pub is_empty : List ℕ → Bool
is_empty bytes = length bytes == 0

-- the messages, the next index and the count after a read
abbrev pub put : List DownloadMessage → ℕ → List ℕ → List DownloadMessage
put out idx bytes = if is_empty bytes then out else out ++ chunk idx bytes ∷ []

abbrev pub next_index : ℕ → List ℕ → ℕ
next_index idx bytes = if is_empty bytes then idx else wrap_u64 (idx + 1)

abbrev pub counted : ℕ → List ℕ → ℕ
counted total bytes = if is_empty bytes then total else wrap_u64 (total + length bytes)

-- after io.EOF
abbrev pub finished : ℕ → ℕ → List DownloadMessage → Download
finished size total out = record {
  sent = out;
  ended = if total == size then none else some (status internal);
}

-- After a chunk was sent or not: the messages before it, those with it, and the rest of the loop.
abbrev pub after_read :
    Bool
    → ReadEnd
    → ℕ
    → ℕ
    → List DownloadMessage
    → List DownloadMessage
    → Exec Download
    → Exec Download
after_read false e size total before out rest =
    pure (record { sent = before; ended = some stream_failure })
after_read true more size total before out rest = rest
after_read true at_eof size total before out rest = pure (finished size total out)
after_read true failed size total before out rest =
    pure (record { sent = out; ended = some (status internal) })

unfoldable pub send_chunks : ℕ → List Read → ℕ → ℕ → List DownloadMessage → Exec Download
send_chunks size [] idx total out = pure (finished size total out)
send_chunks size (read bytes e ∷ reads) idx total out = do
  sent ← send_if (not (is_empty bytes))
  after_read sent e size (counted total bytes) out (put out idx bytes)
      (send_chunks size reads (next_index idx bytes) (counted total bytes) (put out idx bytes))

-- after the header was sent or not
abbrev pub send_body : Bool → ℕ → Blob → List Read → Exec Download
send_body false max_chunk b reads = pure (record { sent = []; ended = some stream_failure })
send_body true max_chunk b reads =
    if max_chunk == 0
    then pure (record { sent = header (to_proto_blob_info b) ∷ []; ended = some (status internal) })
    else send_chunks b.size_bytes reads 0 0 (header (to_proto_blob_info b) ∷ [])

-- A missing request reads as one without a blob id. An error before the header is the method's.
unfoldable pub download_blob : BlobHandler → Reader → Option String → String → Exec Download
unfolding send_chunks send to_proto_blob_info
download_blob h reader auth blob_id = do
  user_id ← found auth (status unauthenticated)
  guard (not (str_eq (trim_space blob_id) "")) (status invalid_argument)
  guard h.configured (status internal)
  b ← on_error (get_by_id user_id (trim_space blob_id)) blob_error
  guard (status_eq b.status committed) (status failed_precondition)
  guard (is_null b.deleted_at) (status not_found)
  o ← on_error (get_object b.object_key) (λ _. status internal)
  guard (length o.content == b.size_bytes) (status internal)
  started ← send
  send_body started h.max_chunk_size_bytes b (reader h.max_chunk_size_bytes o.content)
