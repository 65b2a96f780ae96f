-- ===== src/Server/Error.antt =====
-- The errors of the server's packages: vault/errors.go, auth/errors.go, blob/types.go, blob/upload.go,
-- blob/storage.go, a failure of the database driver, of the object storage or of a library, and a gRPC status.
-- The packages' own invalid argument errors are one here: no method meets two of them.
-- A status carries its code; its message is left out.

pub data Code : Type 0 where
  unauthenticated invalid_argument not_found failed_precondition aborted already_exists internal :
      Code

pub data Error : Type 0 where
  err_invalid_argument err_not_found err_conflict : Error
  err_blob_not_found err_object_not_found : Error
  err_upload_session_not_found err_upload_session_not_open : Error
  err_upload_session_expired err_upload_session_not_awaiting_commit : Error
  err_unauthorized err_already_exists err_device_not_found : Error
  err_no_rows driver_failure storage_failure stream_failure : Error
  random_failure hash_failure signing_failure : Error
  status : Code → Error

-- A Go function that returns a value and an error.
pub data Result {ℓ} (A : Type ℓ) : Type ℓ where
  ok : A → Result A
  err : Error → Result A
