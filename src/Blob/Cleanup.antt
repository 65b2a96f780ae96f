-- ===== src/Blob/Cleanup.antt =====
-- internal/server/storage/postgres/upload_session_cleanup.go and
-- internal/server/jobs/upload_session_cleanup.go. The first argument of a listing is the order of the
-- database's collation.
mod Listed
mod Batch
pub mod Survives
pub mod Finishes
use goph_keeper.Common.{
  ℕ, zero, suc, ◌+◌, String, Bool, true, false, ◌&&◌, Option, none, some, List, [], ◌∷◌, map,
  if◌then◌else◌, str_eq, ltb, ◌==◌, length, take,
}
use goph_keeper.Common.Table.{exists?, select, update_where, delete_where, sort_by}
use goph_keeper.Server.Error.{Error, ok, err, driver_failure, err_no_rows}
use goph_keeper.Server.State.{Server}
use goph_keeper.Server.Exec.{Exec, ◌>>=◌, ◌>>◌, pure, call, catch, ignore, now}
use goph_keeper.Vault.Types.{Item}
use goph_keeper.Blob.Types.{Blob, UploadSession}
use goph_keeper.Blob.Repository.{in_flight}
use goph_keeper.Blob.Storage.{delete_object}

abbrev pub Collation : Type 0
Collation = String → String → Bool

pub record ExpiredUploadBlobRef : Type 0 where
  pub blob_id : String
  pub object_key : String

abbrev pub session_past : ℕ → String → UploadSession → Bool
session_past cutoff blob_id u = str_eq u.blob_id blob_id && ltb u.expires_at cutoff

-- The rows of the join; a blob has one upload session at most.
abbrev pub expired : ℕ → List UploadSession → Blob → Bool
expired cutoff sessions b = in_flight b && exists? (session_past cutoff b.blob_id) sessions

abbrev pub ref_of : Blob → ExpiredUploadBlobRef
ref_of b = record { blob_id = b.blob_id; object_key = b.object_key }

abbrev pub by_blob_id : Collation → Blob → Blob → Bool
by_blob_id leq a b = leq a.blob_id b.blob_id

abbrev pub expired_refs : Collation → ℕ → ℕ → Server → List ExpiredUploadBlobRef
expired_refs leq cutoff limit s =
    map ref_of
      (take limit (sort_by (by_blob_id leq) (select (expired cutoff s.upload_sessions) s.blobs)))

-- The query fails before the first row, or at a row.
unfoldable pub list_expired_upload_blob_refs : Collation → ℕ → ℕ → Exec (List ExpiredUploadBlobRef)
list_expired_upload_blob_refs leq expires_before limit = if limit == 0 then pure [] else (do
  call driver_failure
  call driver_failure
  λ s. (ok (expired_refs leq expires_before limit s), s))

abbrev pub is_id : String → Blob → Bool
is_id id b = str_eq b.blob_id id

abbrev pub is_of : String → UploadSession → Bool
is_of id u = str_eq u.blob_id id

abbrev is_item_of : String → Option String → Bool
is_item_of id none = false
is_item_of id (some b) = str_eq b id

-- DELETE FROM blobs: its upload session goes with it, and an item that refers to it refers to none.
abbrev pub without_blob : String → Server → Server
without_blob id s = record s {
  db = record s.db {
    blobs = delete_where (is_id id) s.blobs;
    upload_sessions = delete_where (is_of id) s.upload_sessions;
    vault_items =
        update_where (λ it. is_item_of id it.blob_id) (λ it. record it { blob_id = none })
          s.vault_items;
  };
}

-- No row is an error: sql.ErrNoRows.
unfoldable pub delete_blob_by_id : String → Exec (Unit {0})
delete_blob_by_id id = do
  call driver_failure
  λ s. if exists? (is_id id) s.blobs then (ok tt, without_blob id s) else (err err_no_rows, s)

-- One reference: the object, whether or not it can be deleted, then the row.
unfoldable pub remove_one : ExpiredUploadBlobRef → ℕ → Exec ℕ
remove_one ref removed = do
  ignore (delete_object ref.object_key)
  catch (do delete_blob_by_id ref.blob_id; pure (removed + 1)) (λ e. pure removed)

unfoldable pub remove_all : List ExpiredUploadBlobRef → ℕ → Exec ℕ
unfolding remove_one
remove_all [] removed = pure removed
remove_all (ref ∷ refs) removed = do n ← remove_one ref removed; remove_all refs n

-- The loop, on fuel: `none` is a loop that did not end. An empty listing is shorter than a batch, so that
-- it ends the loop here as by the code's own test.
unfoldable pub cleanup_loop : ℕ → Collation → ℕ → ℕ → ℕ → Exec (Option ℕ)
cleanup_loop zero leq cutoff batch removed = pure none
cleanup_loop (suc fuel) leq cutoff batch removed = do
  refs ← list_expired_upload_blob_refs leq cutoff batch
  n ← remove_all refs removed
  elim (ltb (length refs) batch) [
    | true ↦ pure (some n)
    | false ↦ cleanup_loop fuel leq cutoff batch n
  ]

-- config.UploadSessionCleanupListBatchSize
abbrev pub upload_session_cleanup_list_batch_size : ℕ
upload_session_cleanup_list_batch_size = 100

abbrev pub batch_size : ℕ → ℕ
batch_size n = if n == 0 then upload_session_cleanup_list_batch_size else n

unfoldable pub cleanup_expired_upload_sessions_once : ℕ → Collation → ℕ → Exec (Option ℕ)
cleanup_expired_upload_sessions_once fuel leq list_batch_size = do
  cutoff ← now
  cleanup_loop fuel leq cutoff (batch_size list_batch_size) 0

-- The passes of a run until its context is done; an error of a pass is logged.
unfoldable pub passes : ℕ → ℕ → Collation → Server → Server
passes zero fuel leq s = s
passes (suc n) fuel leq s =
    passes n fuel leq
      (cleanup_expired_upload_sessions_once fuel leq upload_session_cleanup_list_batch_size s).1

-- An interval that is not positive disables the job.
unfoldable pub run_upload_session_cleanup : ℕ → ℕ → ℕ → Collation → Server → Server
run_upload_session_cleanup interval n fuel leq s = if interval == 0 then s else passes n fuel leq s
