-- ===== src/Blob/Repository.antt =====
-- internal/server/storage/postgres/blob_insert.go and blob_repositories.go.
use goph_keeper.Common.{
  ℕ, String, Bool, ◌&&◌, ◌||◌, not, none, some, List, ◌∷◌, if◌then◌else◌, str_eq, ltb, ◌^◌,
}
use goph_keeper.Common.Table.{find?, exists?, update_where}
use goph_keeper.Server.Error.{ok, err, err_blob_not_found, driver_failure}
use goph_keeper.Server.State.{Server}
use goph_keeper.Server.Exec.{Exec, ◌>>◌, call, found}
use goph_keeper.Blob.Types.{Blob, pending, uploading, committed, failed, deleted, status_eq}

-- WHERE user_id = $1 AND blob_id = $2
abbrev pub blob_key : String → String → Blob → Bool
blob_key user_id blob_id b = str_eq b.user_id user_id && str_eq b.blob_id blob_id

abbrev pub set_blobs : Server → List Blob → Server
set_blobs s blobs = record s { db = record s.db { blobs = blobs } }

-- The primary key, and the unique index on object_key. A new row has no failed_at.
insert_blob : Blob → Exec (Unit {0})
insert_blob b s =
    if ltb b.size_bytes (2 ^ 63)
      && not (exists? (λ r. str_eq r.blob_id b.blob_id || str_eq r.object_key b.object_key) s.blobs)
    then (ok tt, set_blobs s (record b { failed_at = none } ∷ s.blobs))
    else (err driver_failure, s)

unfoldable pub exec_insert_blob : Blob → Exec (Unit {0})
unfolding insert_blob
exec_insert_blob b = do call driver_failure; insert_blob b

unfoldable pub get_by_id : String → String → Exec Blob
get_by_id user_id blob_id = do
  call driver_failure
  λ s. found (find? (blob_key user_id blob_id) s.blobs) err_blob_not_found s

-- UPDATE blobs SET ... WHERE ..., and ErrNotFound if no row is affected
unfoldable pub update_blobs : (Blob → Bool) → (Blob → Blob) → Exec (Unit {0})
update_blobs p f s =
    if exists? p s.blobs
    then (ok tt, set_blobs s (update_where p f s.blobs))
    else (err err_blob_not_found, s)

unfoldable pub mark_committed : String → String → ℕ → Exec (Unit {0})
unfolding update_blobs
mark_committed user_id blob_id at = do
  call driver_failure
  update_blobs (blob_key user_id blob_id)
      (λ b. record b { status = committed; committed_at = some at; deleted_at = none })

unfoldable pub mark_deleted : String → String → ℕ → Exec (Unit {0})
unfolding update_blobs
mark_deleted user_id blob_id at = do
  call driver_failure
  update_blobs (blob_key user_id blob_id) (λ b. record b { status = deleted; deleted_at = some at })

-- status IN (pending, uploading)
abbrev pub in_flight : Blob → Bool
in_flight b = status_eq b.status pending || status_eq b.status uploading

unfoldable pub mark_failed : String → String → ℕ → Exec (Unit {0})
unfolding update_blobs
mark_failed user_id blob_id at = do
  call driver_failure
  update_blobs (λ b. blob_key user_id blob_id b && in_flight b)
      (λ b. record b { status = failed; failed_at = some at })
