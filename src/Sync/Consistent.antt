-- ===== src/Sync/Consistent.antt =====
-- The sync API and the consistency of the tables.
use goph_keeper.Common.{ℕ, String, Option, none, List, [], ◌∷◌, arith, ◌≡◌}
use goph_keeper.Server.Error.{Error}
use goph_keeper.Server.State.{Server}
use goph_keeper.Server.Exec.{Exec, ◌>>=◌, call, now, new_uuid}
use goph_keeper.Server.Steps.{called}
use goph_keeper.Server.Keeps.{
  Keeps, Keeps-pure, Keeps-raise, Keeps-found, Keeps-guard, Keeps-bind, Keeps-catch, Keeps-if,
  Keeps-ignore,
}
use goph_keeper.Blob.Types.{Blob}
use goph_keeper.Blob.Repository.{exec_insert_blob, get_by_id}
use goph_keeper.Blob.Storage.{put_object, get_object, delete_object}
use goph_keeper.Vault.Types.{CreateInput, UpdateInput}
use goph_keeper.Vault.Repository.{get_item}
use goph_keeper.Vault.Engine.{create, update, delete}
use goph_keeper.Vault.Tx.{with_vault_engine_tx}
use goph_keeper.Vault.Payload.{EncryptedField, PayloadConfig, resolve_vault_payload}
use goph_keeper.Vault.Consistency.{IsConsistent}
use goph_keeper.Vault.Consistency.Calls.{creates, updates, deletes, step, step-IsConsistent}
use goph_keeper.Sync.Revisions.{
  with_revision_snapshot_read, list_revision_events_after, user_max_revision,
}
use goph_keeper.Sync.Handler.{SyncRequest, sync, push_changes, read_events}
use goph_keeper.Sync.Push.{
  PendingOperation, ItemSnapshot, OperationType, type_create, type_update, type_delete,
  type_unspecified, type_unknown, checked_snapshot, push_error, push_create, push_update,
  push_delete, by_type, apply_pending_operation, run_push_operations, version_conflict,
}

abbrev pub Consistent : Server → Type 0
Consistent s = IsConsistent s.db

call-Consistent : (e : Error) → Keeps Consistent (call e)
unfolding call
call-Consistent e = record { at = λ s h. h }

now-Consistent : Keeps Consistent now
unfolding now
now-Consistent = record { at = λ s h. h }

new_uuid-Consistent : Keeps Consistent new_uuid
unfolding new_uuid
new_uuid-Consistent = record { at = λ s h. h }

get_by_id-Consistent : (v i : String) → Keeps Consistent (get_by_id v i)
unfolding get_by_id call ◌>>=◌
get_by_id-Consistent v i = record { at = λ s h. ground arith }

get_item-Consistent : (v i : String) → Keeps Consistent (get_item v i)
unfolding get_item call ◌>>=◌
get_item-Consistent v i = record { at = λ s h. ground arith }

put_object-Consistent : (k : String) (c : List ℕ) (t : String) → Keeps Consistent (put_object k c t)
unfolding put_object call ◌>>=◌
put_object-Consistent k c t = record { at = λ s h. ground arith }

get_object-Consistent : (k : String) → Keeps Consistent (get_object k)
unfolding get_object call ◌>>=◌
get_object-Consistent k = record { at = λ s h. ground arith }

delete_object-Consistent : (k : String) → Keeps Consistent (delete_object k)
unfolding delete_object call ◌>>=◌
delete_object-Consistent k = record { at = λ s h. ground arith }

-- The table of blobs is not part of the consistency.
with_blobs :
    (s : Server) (bs : List Blob) → Consistent s → IsConsistent (record s.db { blobs = bs })
with_blobs s bs c = record {
  unique = c.unique;
  numbered = c.numbered;
  logged = c.logged;
  processed_below = c.processed_below;
}

exec_insert_blob-Consistent : (b : Blob) → Keeps Consistent (exec_insert_blob b)
unfolding exec_insert_blob call ◌>>=◌
exec_insert_blob-Consistent b = record {
  at = λ s h. ground (arith, with_blobs s (record b { failed_at = none } ∷ s.blobs) h);
}

create_tx-Consistent :
    (u o : String) (i : CreateInput) → Keeps Consistent (with_vault_engine_tx (create u o i))
unfolding step
create_tx-Consistent u o i = record { at = step-IsConsistent (creates u o i) }

update_tx-Consistent :
    (u o id : String) (v : ℕ) (i : UpdateInput)
    → Keeps Consistent (with_vault_engine_tx (update u o id v i))
unfolding step
update_tx-Consistent u o id v i = record { at = step-IsConsistent (updates u o id v i) }

delete_tx-Consistent :
    (u o id : String) (v : ℕ) → Keeps Consistent (with_vault_engine_tx (delete u o id v))
unfolding step
delete_tx-Consistent u o id v = record { at = step-IsConsistent (deletes u o id v) }

ruleset tables_rules = (
  Keeps-pure, Keeps-raise, Keeps-found, Keeps-guard, Keeps-bind, Keeps-catch, Keeps-if,
  Keeps-ignore, call-Consistent, now-Consistent, new_uuid-Consistent, get_by_id-Consistent,
  get_item-Consistent, put_object-Consistent, get_object-Consistent, delete_object-Consistent,
  exec_insert_blob-Consistent, create_tx-Consistent, update_tx-Consistent, delete_tx-Consistent,
)

resolve-Consistent :
    (cfg : PayloadConfig) (u : String) (p : Option EncryptedField) (b : String)
    → Keeps Consistent (resolve_vault_payload cfg u p b)
unfolding resolve_vault_payload
resolve-Consistent cfg u p b = search tables_rules depth 24

checked_snapshot-Consistent : (o : Option ItemSnapshot) → Keeps Consistent (checked_snapshot o)
unfolding checked_snapshot
checked_snapshot-Consistent o = search tables_rules depth 24

version_conflict-Consistent :
    (u o id : String) (v : ℕ) → Keeps Consistent (version_conflict u o id v)
unfolding version_conflict
version_conflict-Consistent u o id v = record { at = (get_item-Consistent u id).at }

push_error-Consistent :
    (u o id : String) (v : ℕ) (e : Error) → Keeps Consistent (push_error u o id v e)
unfolding push_error
push_error-Consistent u o id v e = search (tables_rules, version_conflict-Consistent) depth 24

ruleset push_rules =
    (tables_rules, resolve-Consistent, checked_snapshot-Consistent, push_error-Consistent)

module _ (cfg : PayloadConfig) (u o : String) where
  push_create-Consistent : (op : PendingOperation) → Keeps Consistent (push_create cfg u o op)
  unfolding push_create
  push_create-Consistent op = search push_rules depth 24

  push_update-Consistent : (op : PendingOperation) → Keeps Consistent (push_update cfg u o op)
  unfolding push_update
  push_update-Consistent op = search push_rules depth 24

  push_delete-Consistent : (op : PendingOperation) → Keeps Consistent (push_delete u o op)
  unfolding push_delete
  push_delete-Consistent op = search push_rules depth 24

  by_type-Consistent :
      (t : OperationType) (op : PendingOperation) → Keeps Consistent (by_type cfg u o t op)
  unfolding by_type
  by_type-Consistent type_create op = push_create-Consistent op
  by_type-Consistent type_update op = push_update-Consistent op
  by_type-Consistent type_delete op = push_delete-Consistent op
  by_type-Consistent type_unspecified op = Keeps-raise _
  by_type-Consistent type_unknown op = Keeps-raise _

apply-Consistent :
    (cfg : PayloadConfig) (u : String) (op : PendingOperation)
    → Keeps Consistent (apply_pending_operation cfg u op)
unfolding apply_pending_operation
apply-Consistent cfg u op =
    Keeps-bind _ _ (Keeps-guard _ _) λ _. by_type-Consistent cfg u _ op.operation_type op

run_push-Consistent :
    (cfg : PayloadConfig) (u : String) (ops : List (Option PendingOperation))
    → Keeps Consistent (run_push_operations cfg u ops)
unfolding run_push_operations
run_push-Consistent cfg u [] = Keeps-pure _
run_push-Consistent cfg u (op ∷ ops) = Keeps-bind _ _ (Keeps-found _ _) (λ o.
    Keeps-bind _ _ (apply-Consistent cfg u o)
      λ a. Keeps-bind _ _ (run_push-Consistent cfg u ops) λ rest. Keeps-pure _)

-- A read-only transaction leaves the tables alone.
read-tables :
    {A : Type 0} (m : Exec A) (s : Server)
    → ((s' : Server) → (m s').1.db ≡ s'.db)
    → (with_revision_snapshot_read m s).1.db ≡ s.db
unfolding with_revision_snapshot_read call ◌>>=◌
read-tables m s reads = ground (arith, reads (called s))

read-Consistent :
    {A : Type 0} (m : Exec A)
    → ((s : Server) → (m s).1.db ≡ s.db)
    → Keeps Consistent (with_revision_snapshot_read m)
read-Consistent m reads = record { at = λ s h. rw (read-tables m s reads) h }

user_max_revision-reads : (u : String) (s : Server) → (user_max_revision u s).1.db ≡ s.db
unfolding user_max_revision call ◌>>=◌
user_max_revision-reads u s = ground arith

list_revision_events_after-reads :
    (u : String) (n k : ℕ) (s : Server) → (list_revision_events_after u n k s).1.db ≡ s.db
unfolding list_revision_events_after call ◌>>=◌
list_revision_events_after-reads u n k s = ground arith

read_events-reads : (u : String) (n k : ℕ) (s : Server) → (read_events u n k s).1.db ≡ s.db
unfolding read_events ◌>>=◌
read_events-reads u n k s = ground (
  arith,
  list_revision_events_after-reads u n k s,
  user_max_revision-reads u (list_revision_events_after u n k s).1,
)

-- From consistent tables, a Sync call leaves consistent tables, whatever it pushes, whether it
-- succeeds or fails, and whatever call of the driver or of the object storage fails on the way.
pub sync-IsConsistent :
    (cfg : PayloadConfig) (auth : Option String) (req : Option SyncRequest) (s : Server)
    → IsConsistent s.db
    → IsConsistent (sync cfg auth req s).1.db
unfolding sync
sync-IsConsistent cfg auth req s h =
    let keeps : Keeps Consistent (sync cfg auth req) =
      search (tables_rules, run_push-Consistent, read-Consistent, read_events-reads) depth 24 in
    keeps.at s h

-- From consistent tables, a PushChanges call leaves consistent tables, whatever it pushes and whether
-- it succeeds or fails.
pub push_changes-IsConsistent :
    (cfg : PayloadConfig) (auth : Option String) (req : Option (List (Option PendingOperation)))
    (s : Server)
    → IsConsistent s.db
    → IsConsistent (push_changes cfg auth req s).1.db
unfolding push_changes
push_changes-IsConsistent cfg auth req s h =
    let keeps : Keeps Consistent (push_changes cfg auth req) =
      search (tables_rules, run_push-Consistent, read-Consistent, user_max_revision-reads) depth
        24 in
    keeps.at s h
