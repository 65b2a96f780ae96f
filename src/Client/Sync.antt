-- ===== src/Client/Sync.antt =====
-- internal/client/app/sync.go.
use goph_keeper.Common.{Option, none, some, true, false, List, [], ◌∷◌, map}
use goph_keeper.Vault.Types.{ChangeType, created, updated, deleted, unspecified}
use goph_keeper.Vault.Handler.{VaultItem}
use goph_keeper.Sync.Push
use goph_keeper.Sync.Push.{Conflict}
use goph_keeper.Sync.Handler.{SyncRequest}
use goph_keeper.Client.Types.{Item, PendingOperation, SyncState}
use goph_keeper.Client.Run.{Exec, ◌>>=◌, ◌>>◌, pure, found, panic}
use goph_keeper.Client.Storage.{upsert, save_sync}
use goph_keeper.Client.App.{App, Remote, RevisionEvent, stored, remote, field, assign}

abbrev pub wire_operation : PendingOperation → Option Push.PendingOperation
wire_operation op = some (record {
  operation_id = op.operation_id;
  operation_type = op.operation_type;
  item_id = op.item_id;
  expected_version = op.expected_version;
  snapshot = op.snapshot;
})

abbrev pub sync_request : SyncState → SyncRequest
sync_request st = record {
  client_revision = st.last_revision;
  pending_operations = map wire_operation st.pending_operations;
}

abbrev pub live_item : VaultItem → Item
live_item it = record {
  id = it.item_id;
  version = it.version;
  item_type = it.item_type;
  title = some it.title;
  metadata = some it.metadata;
  payload = some it.payload;
  blob_id = "";
  deleted = false;
}

abbrev pub deleted_item : VaultItem → Item
deleted_item it = record {
  id = it.item_id;
  version = it.version;
  item_type = 0;
  title = none;
  metadata = none;
  payload = none;
  blob_id = "";
  deleted = true;
}

-- the operations that are kept after an answer with these conflicts
abbrev pub kept_operations : List Conflict → List PendingOperation → List PendingOperation
kept_operations [] ops = []
kept_operations (c ∷ cs) ops = ops

module _ {R : Type 0} where
  abbrev pub apply_change : ChangeType → Option VaultItem → Exec (App R) (Unit {0})
  apply_change created it = do i ← found it panic; stored (upsert (live_item i))
  apply_change updated it = do i ← found it panic; stored (upsert (live_item i))
  apply_change deleted it = do i ← found it panic; stored (upsert (deleted_item i))
  apply_change unspecified it = pure tt

  -- An event without an item dereferences a nil pointer.
  unfoldable pub apply_event : RevisionEvent → Exec (App R) (Unit {0})
  unfolding stored
  apply_event ev = apply_change ev.change_type ev.item

  unfoldable pub apply_events : List RevisionEvent → Exec (App R) (Unit {0})
  unfolding apply_event
  apply_events [] = pure tt
  apply_events (ev ∷ evs) = do apply_event ev; apply_events evs

  unfoldable pub sync : Remote R → Exec (App R) (Unit {0})
  unfolding remote stored apply_events
  sync server = do
    st ← field λ a. a.sync_state
    resp ← remote (server.sync (sync_request st))
    apply_events resp.remote_changes
    assign λ a. record a {
      sync_state = record {
        last_revision = resp.new_server_revision;
        pending_operations = kept_operations resp.conflicts a.sync_state.pending_operations;
      };
    }
    new ← field λ a. a.sync_state
    stored (save_sync new)
