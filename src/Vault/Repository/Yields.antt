-- ===== src/Vault/Repository/Yields.antt =====
-- What each statement of the vault's repositories returns and leaves when it succeeds.
use goph_keeper.Common.{ℕ, ◌+◌, String, true, false, ◌≡◌, none, some, ◌∷◌, arith, str_eq}
use goph_keeper.Common.Table.{find?, exists?, update_where}
use goph_keeper.Common.Rows.{find?-none}
use goph_keeper.Server.Error.{ok}
use goph_keeper.Server.State.{Server}
use goph_keeper.Server.Exec.{call, ◌>>=◌}
use goph_keeper.Server.Steps.{called, Yields}
use goph_keeper.Vault.Types.{Item, RevisionLogEntry, ProcessedOperation}
use goph_keeper.Vault.Repository.{
  item_key, live_at, op_key, overwrite, mark_deleted, set_items, create_item, get_item, update_item,
  delete_item, append_revision, mark_processed, lookup,
}

-- the row of revision_log that an appended entry becomes
abbrev pub stored : RevisionLogEntry → Server → RevisionLogEntry
stored entry s = record entry {
  revision_id = s.next_revision;
  changed_at = s.env.times s.env.reads;
}

abbrev pub appended : RevisionLogEntry → Server → Server
appended entry s = record s {
  db = record s.db {
    next_revision = s.next_revision + 1;
    revision_log = stored entry s ∷ s.revision_log;
  };
  env = record s.env { reads = s.env.reads + 1 };
}

abbrev pub with_processed : ProcessedOperation → Server → Server
with_processed p s = record s {
  db = record s.db { processed_operations = p ∷ s.processed_operations };
}

abbrev pub processed : String → String → String → ℕ → ProcessedOperation
processed user_id operation_id item_id revision_id = record {
  user_id = user_id;
  operation_id = operation_id;
  item_id = item_id;
  revision_id = revision_id;
}

pub create_item-Yields :
    (it : Item) (s : Server)
    → Yields (create_item it) s tt (set_items (called s) (it ∷ s.vault_items))
unfolding create_item call ◌>>=◌
create_item-Yields it s a h = ground arith

-- A new item's identifier was free.
pub create_item-unused :
    (it : Item) (s : Server)
    → (create_item it s).0 ≡ ok tt
    → exists? (λ r. str_eq r.item_id it.item_id) s.vault_items ≡ false
unfolding create_item call ◌>>=◌
create_item-unused it s h = ground arith

pub get_item-Yields :
    (u id : String) (s : Server) (it : Item)
    → find? (item_key u id) s.vault_items ≡ some it
    → Yields (get_item u id) s it (called s)
unfolding get_item call ◌>>=◌
get_item-Yields u id s it e a h = ground arith

pub update_item-Yields :
    (it : Item) (v : ℕ) (s : Server)
    → Yields (update_item it v) s tt (
        set_items
          (called s)
          (update_where (live_at it.user_id it.item_id v) (overwrite it) s.vault_items))
unfolding update_item call ◌>>=◌
update_item-Yields it v s a h = ground arith

pub delete_item-Yields :
    (u id : String) (v at : ℕ) (s : Server) (row : Item)
    → find? (live_at u id v) s.vault_items ≡ some row
    → Yields
        (delete_item u id v at)
        s
        (row.version + 1)
        (set_items (called s) (update_where (live_at u id v) (mark_deleted at) s.vault_items))
unfolding delete_item call ◌>>=◌
delete_item-Yields u id v at s row e a h = ground arith

-- DeleteItem succeeds only on a row of that user, item and version that is not deleted.
pub delete_item-found :
    (u id : String) (v at : ℕ) (s : Server) (n : ℕ)
    → (delete_item u id v at s).0 ≡ ok n
    → (row : Item) × (find? (live_at u id v) s.vault_items ≡ some row)
unfolding delete_item call ◌>>=◌
delete_item-found u id v at s n h = ground arith

pub append_revision-Yields :
    (entry : RevisionLogEntry) (s : Server)
    → Yields (append_revision entry) s (stored entry s) (appended entry (called s))
unfolding append_revision call ◌>>=◌
append_revision-Yields entry s a h = ground arith

pub mark_processed-Yields :
    (u o id : String) (rev : ℕ) (s : Server)
    → find? (op_key u o) s.processed_operations ≡ none
    → Yields (mark_processed u o id rev) s tt (with_processed (processed u o id rev) (called s))
unfolding mark_processed call ◌>>=◌
mark_processed-Yields u o id rev s e a h =
    ground (arith, find?-none (op_key u o) s.processed_operations)

pub lookup-Yields :
    (u o : String) (s : Server)
    → Yields (lookup u o) s (find? (op_key u o) s.processed_operations) (called s)
unfolding lookup call ◌>>=◌
lookup-Yields u o s a h = ground arith

pub lookup-none-Yields :
    (u o : String) (s : Server)
    → find? (op_key u o) s.processed_operations ≡ none
    → Yields (lookup u o) s none (called s)
unfolding lookup call ◌>>=◌
lookup-none-Yields u o s e a h = ground arith

pub lookup-some-Yields :
    (u o : String) (s : Server) (p : ProcessedOperation)
    → find? (op_key u o) s.processed_operations ≡ some p
    → Yields (lookup u o) s (some p) (called s)
unfolding lookup call ◌>>=◌
lookup-some-Yields u o s p e a h = ground arith

-- GetItem succeeds only on a row of that user and item, UpdateItem only on one that is live at the
-- expected version.
pub get_item-found :
    (u id : String) (s : Server) (it : Item)
    → (get_item u id s).0 ≡ ok it
    → find? (item_key u id) s.vault_items ≡ some it
unfolding get_item call ◌>>=◌
get_item-found u id s it h = ground arith

pub update_item-found :
    (it : Item) (v : ℕ) (s : Server)
    → (update_item it v s).0 ≡ ok tt
    → exists? (live_at it.user_id it.item_id v) s.vault_items ≡ true
unfolding update_item call ◌>>=◌
update_item-found it v s h = ground arith
