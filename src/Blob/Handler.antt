-- ===== src/Blob/Handler.antt =====
-- internal/server/grpcserver/blob_handler.go: the handler, abortUpload and the errors that its
-- methods share. The user id of a call is what UserIDFromContext returns.
use goph_keeper.Common.{ℕ, String, Bool, List, if◌then◌else◌, str_eq}
use goph_keeper.Server.Error.{
  Error, status, not_found, internal, err_upload_session_not_found, err_blob_not_found,
}
use goph_keeper.Server.Exec.{Exec, ◌>>=◌, ◌>>◌, pure, raise, ignore, now}
use goph_keeper.Blob.Repository.{mark_failed}
use goph_keeper.Blob.UploadStore.{delete_session}
use goph_keeper.Blob.Storage.{delete_object}

-- The handler's fields: whether all of its dependencies are set, the limits of the configuration,
-- and sha256.Sum256.
pub record BlobHandler : Type 0 where
  pub configured : Bool
  pub upload_session_ttl_hours : ℕ
  pub max_blob_size_bytes : ℕ
  pub max_chunk_size_bytes : ℕ
  pub sha256 : List ℕ → List ℕ

-- The three clean-up steps; their errors are dropped.
unfoldable pub abort_upload : String → String → String → String → Exec (Unit {0})
abort_upload user_id session_id blob_id object_key = do
  ignore (delete_session user_id session_id)
  if str_eq blob_id "" then pure tt else (do at ← now; ignore (mark_failed user_id blob_id at))
  if str_eq object_key "" then pure tt else ignore (delete_object object_key)

abbrev pub session_error : Error → Error
session_error err_upload_session_not_found = status not_found
session_error _ = status internal

abbrev pub blob_error : Error → Error
blob_error err_blob_not_found = status not_found
blob_error _ = status internal

-- Where the condition holds: abortUpload, and the handler returns the error.
unfoldable pub abort_if : Bool → String → String → String → String → Error → Exec (Unit {0})
unfolding abort_upload
abort_if b user_id session_id blob_id object_key e =
    if b then (do abort_upload user_id session_id blob_id object_key; raise e) else pure tt
