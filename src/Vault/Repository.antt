-- ===== src/Vault/Repository.antt =====
-- internal/server/storage/postgres/vault_repositories.go, over the tables of migrations/server.
-- A table has no order: a new row stands in front. A row that breaks a primary key, a unique index
-- or a foreign key, and a number that does not fit BIGINT, make the statement fail. The foreign
-- keys to `users` are left out.
pub mod Yields
use goph_keeper.Common.{
  ℕ, ◌+◌, ◌^◌, String, Bool, true, false, ◌&&◌, ◌||◌, not, Option, none, some, List, [], ◌∷◌, ltb,
  ◌==◌, if◌then◌else◌, str_eq,
}
pub use goph_keeper.Common.Table.{is_null}
use goph_keeper.Common.Table.{find?, exists?, update_where}
use goph_keeper.Common.Bytes.{is_filled}
use goph_keeper.Server.Error.{Result, ok, err, err_not_found, err_conflict, driver_failure}
use goph_keeper.Server.State.{Server, Db}
use goph_keeper.Server.Exec.{Exec, ◌>>=◌, ◌>>◌, call, found, pure}
use goph_keeper.Vault.Types.{Item, RevisionLogEntry, ProcessedOperation}
use goph_keeper.Blob.Types.{Blob}

abbrev pub fits_bigint : ℕ → Bool
fits_bigint n = ltb n (2 ^ 63)

-- WHERE user_id = $1 AND item_id = $2
abbrev pub item_key : String → String → Item → Bool
item_key user_id item_id it = str_eq it.user_id user_id && str_eq it.item_id item_id

-- WHERE user_id = $11 AND item_id = $12 AND version = $13 AND deleted_at IS NULL
abbrev pub live_at : String → String → ℕ → Item → Bool
live_at user_id item_id expected_version it =
    item_key user_id item_id it && it.version == expected_version && is_null it.deleted_at

-- vault_items.blob_id REFERENCES blobs(blob_id)
unfoldable pub blob_ref_valid : Option String → List Blob → Bool
blob_ref_valid none bs = true
blob_ref_valid (some b) bs = exists? (λ r. str_eq r.blob_id b) bs

abbrev pub set_items : Server → List Item → Server
set_items s items = record s { db = record s.db { vault_items = items } }

-- The NOT NULL columns of bytes.
abbrev columns_filled : Item → Bool
columns_filled it =
    is_filled it.title_ciphertext
    && is_filled it.title_nonce
    && is_filled it.metadata_ciphertext
    && is_filled it.metadata_nonce

insert_item : Item → Exec (Unit {0})
insert_item it s =
    if columns_filled it
      && fits_bigint it.version
      && not (exists? (λ r. str_eq r.item_id it.item_id) s.vault_items)
      && blob_ref_valid it.blob_id s.blobs
    then (ok tt, set_items s (it ∷ s.vault_items))
    else (err driver_failure, s)

unfoldable pub create_item : Item → Exec (Unit {0})
unfolding insert_item
create_item it = do call driver_failure; insert_item it

unfoldable pub get_item : String → String → Exec Item
get_item user_id item_id = do
  call driver_failure
  λ s. found (find? (item_key user_id item_id) s.vault_items) err_not_found s

-- the columns that UpdateItem sets
abbrev pub overwrite : Item → Item → Item
overwrite it row = record row {
  title_ciphertext = it.title_ciphertext;
  title_nonce = it.title_nonce;
  metadata_ciphertext = it.metadata_ciphertext;
  metadata_nonce = it.metadata_nonce;
  payload_ciphertext = it.payload_ciphertext;
  payload_nonce = it.payload_nonce;
  blob_id = it.blob_id;
  version = it.version;
  checksum = it.checksum;
  updated_at = it.updated_at;
}

write_item : Item → ℕ → Exec (Unit {0})
write_item it expected_version s =
    if not (fits_bigint it.version && fits_bigint expected_version)
    then (err driver_failure, s)
    else if not (exists? (live_at it.user_id it.item_id expected_version) s.vault_items)
    then (err err_conflict, s)
    else if not (columns_filled it && blob_ref_valid it.blob_id s.blobs)
    then (err driver_failure, s)
    else (
      ok tt,
      set_items s (
          update_where (live_at it.user_id it.item_id expected_version) (overwrite it)
            s.vault_items),
    )

unfoldable pub update_item : Item → ℕ → Exec (Unit {0})
unfolding write_item
update_item it expected_version = do call driver_failure; write_item it expected_version

-- SET deleted_at = $1, version = version + 1, updated_at = $1
abbrev pub mark_deleted : ℕ → Item → Item
mark_deleted at row = record row {
  version = row.version + 1;
  updated_at = at;
  deleted_at = some at;
}

tombstone : String → String → ℕ → ℕ → Option Item → Exec ℕ
tombstone user_id item_id expected_version at none s = (err err_conflict, s)
tombstone user_id item_id expected_version at (some row) s =
    if fits_bigint (row.version + 1)
    then (
      ok (row.version + 1),
      set_items s
          (update_where (live_at user_id item_id expected_version) (mark_deleted at) s.vault_items),
    )
    else (err driver_failure, s)

unfoldable pub delete_item : String → String → ℕ → ℕ → Exec ℕ
unfolding tombstone
delete_item user_id item_id expected_version at = do
  call driver_failure
  λ s.
      if fits_bigint expected_version
      then tombstone user_id item_id expected_version at
          (find? (live_at user_id item_id expected_version) s.vault_items) s
      else (err driver_failure, s)

-- idx_revision_log_user_id_operation_id
abbrev same_operation : String → Option String → RevisionLogEntry → Bool
same_operation user_id none e = false
same_operation user_id (some op) e =
    str_eq e.user_id user_id && elim e.operation_id [ none ↦ false | some o ↦ str_eq o op ]

-- The sequence moves on when the statement runs, also if a constraint then refuses the row.
append_row : RevisionLogEntry → Exec RevisionLogEntry
append_row entry s =
    let stored = record entry {
      revision_id = s.next_revision;
      changed_at = s.env.times s.env.reads;
    } in
    let moved = record s {
      db = record s.db { next_revision = s.next_revision + 1 };
      env = record s.env { reads = s.env.reads + 1 };
    } in
    if fits_bigint entry.item_version
      && fits_bigint s.next_revision
      && not (exists? (same_operation entry.user_id entry.operation_id) s.revision_log)
      && exists? (λ r. str_eq r.item_id entry.item_id) s.vault_items
    then (
      ok stored,
      record moved { db = record moved.db { revision_log = stored ∷ s.revision_log } },
    )
    else (err driver_failure, moved)

unfoldable pub append_revision : RevisionLogEntry → Exec RevisionLogEntry
unfolding append_row
append_revision entry = do call driver_failure; append_row entry

-- WHERE user_id = $1 AND operation_id = $2
abbrev pub op_key : String → String → ProcessedOperation → Bool
op_key user_id operation_id p = str_eq p.user_id user_id && str_eq p.operation_id operation_id

-- ON CONFLICT (user_id, operation_id) DO NOTHING
insert_processed : ProcessedOperation → Exec (Unit {0})
insert_processed p s =
    if not (fits_bigint p.revision_id)
    then (err driver_failure, s)
    else if exists? (op_key p.user_id p.operation_id) s.processed_operations
    then (ok tt, s)
    else (
      ok tt,
      record s { db = record s.db { processed_operations = p ∷ s.processed_operations } },
    )

unfoldable pub mark_processed : String → String → String → ℕ → Exec (Unit {0})
unfolding insert_processed
mark_processed user_id operation_id item_id revision_id = do
  call driver_failure
  insert_processed (record {
    user_id = user_id;
    operation_id = operation_id;
    item_id = item_id;
    revision_id = revision_id;
  })

unfoldable pub lookup : String → String → Exec (Option ProcessedOperation)
lookup user_id operation_id = do
  call driver_failure
  λ s. (ok (find? (op_key user_id operation_id) s.processed_operations), s)
