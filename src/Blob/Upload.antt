-- ===== src/Blob/Upload.antt =====
-- UploadBlob of internal/server/grpcserver/blob_handler.go. The lock of upload_session_lock.go makes
-- the call for one session a single step.
use goph_keeper.Common.{
  ℕ, String, not, Option, none, some, List, [], ◌∷◌, if◌then◌else◌, str_eq, ltb, ◌==◌,
}
use goph_keeper.Common.Text.{trim_space}
use goph_keeper.Common.Bytes.{bytes_equal}
use goph_keeper.Server.Error.{
  Error, status, unauthenticated, invalid_argument, failed_precondition, internal,
  err_upload_session_not_open, stream_failure,
}
use goph_keeper.Server.Exec.{
  Exec, ◌>>=◌, ◌>>◌, pure, raise, guard, found, ignore, catch, on_error, call, now,
}
use goph_keeper.Blob.Types.{
  Blob, Status, UploadSession, pending, uploading, status_eq, session_open, session_status_eq,
}
use goph_keeper.Blob.Repository.{get_by_id}
use goph_keeper.Blob.UploadStore.{get_session, complete_client_upload}
use goph_keeper.Blob.Storage.{put_object, delete_object}
use goph_keeper.Blob.Chunks.{
  UploadMessage, header, chunk, no_body, receive_error, Received, complete, broken, not_a_chunk,
  rejected, receive_chunks,
}
use goph_keeper.Blob.Handler.{BlobHandler, abort_upload, abort_if, session_error, blob_error}

pub record UploadBlobResponse : Type 0 where
  pub upload_session_id : String
  pub blob_id : String
  pub received_size : ℕ
  pub status : Status

abbrev content_type : Blob → String
content_type b = elim b.mime_type [
  | none ↦ of_kind
  | some m ↦ if str_eq (trim_space m) "" then of_kind else trim_space m
]
  where
    of_kind : String
    of_kind =
        if str_eq (trim_space b.content_kind) "" then "application/octet-stream" else b.content_kind

-- What the handler does as the loop over the chunks ends.
unfoldable pub end_of_loop : Received → String → String → String → String → Exec (ℕ × List ℕ)
unfolding abort_upload
end_of_loop (complete total buf) user_id session_id blob_id object_key = pure (total, buf)
end_of_loop broken user_id session_id blob_id object_key = raise stream_failure
end_of_loop not_a_chunk user_id session_id blob_id object_key = raise (status invalid_argument)
end_of_loop rejected user_id session_id blob_id object_key = do
  abort_upload user_id session_id blob_id object_key
  raise (status invalid_argument)

-- An error of CompleteClientUpload: the object is taken away again unless another call completed
-- the session.
unfoldable pub finalize_failed : String → String → String → String → Error → Exec (Unit {0})
unfolding abort_upload
finalize_failed user_id session_id blob_id object_key err_upload_session_not_open =
    raise (status internal)
finalize_failed user_id session_id blob_id object_key _ = do
  ignore (delete_object object_key)
  abort_upload user_id session_id blob_id ""
  raise (status internal)

-- from the open session and its blob on
unfoldable pub receive_blob :
    BlobHandler
    → String
    → String
    → UploadSession
    → Blob
    → List UploadMessage
    → Exec UploadBlobResponse
unfolding end_of_loop abort_if finalize_failed
receive_blob h user_id session_id sess b stream = do
  received ←
      end_of_loop (receive_chunks h.max_chunk_size_bytes sess.expected_size stream) user_id
        session_id sess.blob_id b.object_key
  abort_if (not (received.0 == sess.expected_size)) user_id session_id sess.blob_id b.object_key
      (status invalid_argument)
  abort_if (not (bytes_equal (h.sha256 received.1) sess.expected_checksum)) user_id session_id
      sess.blob_id b.object_key (status invalid_argument)
  later ← now
  abort_if (ltb sess.expires_at later) user_id session_id sess.blob_id b.object_key
      (status failed_precondition)
  catch (put_object b.object_key received.1 (content_type b))
      (λ _. do abort_upload user_id session_id sess.blob_id b.object_key; raise (status internal))
  catch (complete_client_upload user_id session_id received.0)
      (finalize_failed user_id session_id sess.blob_id b.object_key)
  call stream_failure
  pure (record {
    upload_session_id = session_id;
    blob_id = sess.blob_id;
    received_size = received.0;
    status = uploading;
  })

unfoldable pub upload_to_session :
    BlobHandler → String → String → List UploadMessage → Exec UploadBlobResponse
unfolding abort_if receive_blob
upload_to_session h user_id session_id stream = do
  sess ← on_error (get_session user_id session_id) session_error
  at ← now
  abort_if (ltb sess.expires_at at) user_id session_id sess.blob_id "" (status failed_precondition)
  guard (session_status_eq sess.status session_open) (status failed_precondition)
  b ← on_error (get_by_id user_id sess.blob_id) blob_error
  guard (status_eq b.status pending) (status failed_precondition)
  receive_blob h user_id session_id sess b stream

-- the first message of the stream
unfoldable pub with_header : BlobHandler → String → List UploadMessage → Exec UploadBlobResponse
with_header h user_id [] = raise stream_failure
with_header h user_id (receive_error ∷ rest) = raise stream_failure
with_header h user_id (chunk index bytes ∷ rest) = raise (status invalid_argument)
with_header h user_id (no_body ∷ rest) = raise (status invalid_argument)
with_header h user_id (header id ∷ rest) =
    if str_eq (trim_space id) ""
    then raise (status invalid_argument)
    else upload_to_session h user_id (trim_space id) rest

unfoldable pub upload_blob :
    BlobHandler → Option String → List UploadMessage → Exec UploadBlobResponse
unfolding with_header upload_to_session
upload_blob h auth stream = do
  user_id ← found auth (status unauthenticated)
  guard h.configured (status internal)
  with_header h user_id stream
