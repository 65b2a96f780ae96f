-- ===== src/Blob/Commit.antt =====
-- CommitBlobUpload of internal/server/grpcserver/blob_handler.go. The response is the blob itself:
-- toProtoBlobInfo copies its fields.
use goph_keeper.Common.{String, not, Option, str_eq, ltb, ◌==◌, length}
use goph_keeper.Common.Text.{trim_space}
use goph_keeper.Server.Error.{
  Error, status, unauthenticated, invalid_argument, not_found, failed_precondition, internal,
  err_upload_session_not_found, err_blob_not_found, err_object_not_found,
  err_upload_session_expired, err_upload_session_not_awaiting_commit,
}
use goph_keeper.Server.Exec.{Exec, ◌>>=◌, ◌>>◌, guard, found, on_error, now}
use goph_keeper.Blob.Types.{Blob, uploading, status_eq, session_awaiting_commit, session_status_eq}
use goph_keeper.Blob.Repository.{get_by_id}
use goph_keeper.Blob.UploadStore.{get_session, commit_uploaded_blob}
use goph_keeper.Blob.Storage.{get_object}
use goph_keeper.Blob.Handler.{BlobHandler, session_error, blob_error}

abbrev stat_error : Error → Error
stat_error err_object_not_found = status failed_precondition
stat_error _ = status internal

abbrev commit_error : Error → Error
commit_error err_upload_session_not_found = status not_found
commit_error err_upload_session_expired = status failed_precondition
commit_error err_upload_session_not_awaiting_commit = status failed_precondition
commit_error err_blob_not_found = status failed_precondition
commit_error _ = status internal

unfoldable pub commit_session : String → String → Exec Blob
commit_session user_id session_id = do
  sess ← on_error (get_session user_id session_id) session_error
  at ← now
  guard (not (ltb sess.expires_at at)) (status failed_precondition)
  guard (session_status_eq sess.status session_awaiting_commit) (status failed_precondition)
  b ← on_error (get_by_id user_id sess.blob_id) blob_error
  guard (status_eq b.status uploading) (status failed_precondition)
  stored ← on_error (get_object b.object_key) stat_error
  guard (length stored.content == b.size_bytes) (status failed_precondition)
  committed_at ← now
  on_error (commit_uploaded_blob user_id session_id committed_at) commit_error
  on_error (get_by_id user_id sess.blob_id) (λ _. status internal)

unfoldable pub commit_blob_upload : BlobHandler → Option String → Option String → Exec Blob
unfolding commit_session
commit_blob_upload h auth req = do
  user_id ← found auth (status unauthenticated)
  id ← found req (status invalid_argument)
  guard (not (str_eq (trim_space id) "")) (status invalid_argument)
  guard h.configured (status internal)
  commit_session user_id (trim_space id)
