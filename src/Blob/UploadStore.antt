-- ===== src/Blob/UploadStore.antt =====
-- internal/server/storage/postgres/upload_store.go and upload_session_cleanup.go.
use goph_keeper.Common.{
  ℕ, String, Bool, ◌&&◌, ◌||◌, not, Option, none, some, List, ◌∷◌, if◌then◌else◌, str_eq, ltb, ◌^◌,
  ◌==◌,
}
use goph_keeper.Common.Table.{find?, exists?, update_where, delete_where}
use goph_keeper.Server.Error.{
  ok, err, err_upload_session_not_found, err_upload_session_not_open, err_upload_session_expired,
  err_upload_session_not_awaiting_commit, driver_failure,
}
use goph_keeper.Server.State.{Server}
use goph_keeper.Server.Exec.{Exec, ◌>>=◌, ◌>>◌, call, found, guard, now}
use goph_keeper.Server.Transaction.{transaction}
use goph_keeper.Blob.Types.{
  Blob, UploadSession, pending, uploading, committed, status_eq, session_open,
  session_awaiting_commit, session_status_eq,
}
use goph_keeper.Blob.Repository.{exec_insert_blob, update_blobs, blob_key}

-- WHERE upload_session_id = $1 AND user_id = $2
abbrev pub session_key : String → String → UploadSession → Bool
session_key user_id session_id u = str_eq u.upload_session_id session_id && str_eq u.user_id user_id

abbrev pub set_sessions : Server → List UploadSession → Server
set_sessions s sessions = record s { db = record s.db { upload_sessions = sessions } }

-- The primary key, the unique index on blob_id, and the reference to the blob.
insert_session : UploadSession → Exec (Unit {0})
insert_session u s =
    if ltb u.expected_size (2 ^ 63)
      && not (
          exists?
            (λ r. str_eq r.upload_session_id u.upload_session_id || str_eq r.blob_id u.blob_id)
            s.upload_sessions)
      && exists? (λ b. str_eq b.blob_id u.blob_id) s.blobs
    then (ok tt, set_sessions s (u ∷ s.upload_sessions))
    else (err driver_failure, s)

unfoldable pub start_session : Blob → UploadSession → Exec (Unit {0})
unfolding exec_insert_blob insert_session transaction
start_session b u = transaction do exec_insert_blob b; call driver_failure; insert_session u

unfoldable pub get_session : String → String → Exec UploadSession
get_session user_id session_id = do
  call driver_failure
  λ s.
      found (find? (session_key user_id session_id) s.upload_sessions) err_upload_session_not_found
        s

unfoldable pub delete_session : String → String → Exec (Unit {0})
delete_session user_id session_id = do
  call driver_failure
  λ s.
      if exists? (session_key user_id session_id) s.upload_sessions
      then (ok tt, set_sessions s (delete_where (session_key user_id session_id) s.upload_sessions))
      else (err err_upload_session_not_found, s)

-- AND status = open AND expected_size = $1
abbrev pub awaits_bytes : String → String → ℕ → UploadSession → Bool
awaits_bytes user_id session_id received u =
    session_key user_id session_id u
    && session_status_eq u.status session_open
    && u.expected_size == received

-- uploadSessionRowExists, after an UPDATE that met no row
no_open_session : String → String → Exec String
no_open_session user_id session_id = do
  call driver_failure
  λ s. (
    err (
        if exists? (session_key user_id session_id) s.upload_sessions
        then err_upload_session_not_open
        else err_upload_session_not_found),
    s,
  )

pub close_stream : String → String → ℕ → ℕ → Option UploadSession → Exec String
close_stream user_id session_id received at none s = no_open_session user_id session_id s
close_stream user_id session_id received at (some row) s = (
  ok row.blob_id,
  set_sessions s (
      update_where (awaits_bytes user_id session_id received)
        (λ u. record u {
          received_size = received;
          status = session_awaiting_commit;
          updated_at = at;
        })
        s.upload_sessions),
)

unfoldable pub complete_client_upload : String → String → ℕ → Exec (Unit {0})
unfolding transaction close_stream no_open_session update_blobs
complete_client_upload user_id session_id received = transaction do
  at ← now
  call driver_failure
  blob_id ← λ s.
      close_stream user_id session_id received at
        (find? (awaits_bytes user_id session_id received) s.upload_sessions) s
  call driver_failure
  update_blobs (λ b. blob_key user_id blob_id b && status_eq b.status pending)
      (λ b. record b { status = uploading })

unfoldable pub commit_uploaded_blob : String → String → ℕ → Exec (Unit {0})
unfolding transaction get_session update_blobs
commit_uploaded_blob user_id session_id committed_at = transaction do
  row ← get_session user_id session_id
  at ← now
  guard (not (ltb row.expires_at at)) err_upload_session_expired
  guard (session_status_eq row.status session_awaiting_commit)
      err_upload_session_not_awaiting_commit
  call driver_failure
  λ s. (ok tt, set_sessions s (delete_where (session_key user_id session_id) s.upload_sessions))
  call driver_failure
  update_blobs (λ b. blob_key user_id row.blob_id b && status_eq b.status uploading)
      (λ b. record b { status = committed; committed_at = some committed_at; deleted_at = none })
