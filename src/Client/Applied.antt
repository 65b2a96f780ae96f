-- ===== src/Client/Applied.antt =====
-- Sync: what the events of the answer make of the items, and what is saved.
use goph_keeper.Common.{
  false, true, none, ◌⊎◌, inl, inr, String, ◌≡◌, ◌∙◌, refl, sym, ap, subst, Option, some, List, [],
  ◌∷◌, map,
}
use goph_keeper.Vault.Types.{ChangeType, created, updated, deleted, unspecified}
use goph_keeper.Vault.Handler.{VaultItem}
use goph_keeper.Sync.Push.{Conflict}
use goph_keeper.Sync.Handler.{SyncRequest}
use goph_keeper.Client.Types.{Item, PendingOperation, SyncState}
use goph_keeper.Client.Run.{Exec, ◌>>=◌, panic, found}
use goph_keeper.Client.Steps.{Returns, in_steps, found-some}
use goph_keeper.Client.Storage.{Tables, upsert, save_sync, pending_row}
use goph_keeper.Client.App.{App, Remote, RevisionEvent, SyncResponse, stored, remote}
use goph_keeper.Client.Sync.{
  live_item, deleted_item, apply_change, apply_event, apply_events, sync, sync_request,
  kept_operations,
}
use goph_keeper.Client.Items.{items_of, with_item, upsert_items, save_sync_items}
use goph_keeper.Client.Saved.{save_sync_leaves}
use goph_keeper.Client.Added.{stored_Returns}
use goph_keeper.Client.Unlocked.{remote_Returns}

-- The item of an event: its fields, and no blob, which an event does not carry over.
abbrev as_sent : VaultItem → Item
as_sent it = record {
  id = it.item_id;
  version = it.version;
  item_type = it.item_type;
  title = some it.title;
  metadata = some it.metadata;
  payload = some it.payload;
  blob_id = "";
  deleted = false;
}

-- What a deletion leaves of an item: its identifier and its version.
abbrev as_gone : VaultItem → Item
as_gone it = record {
  id = it.item_id;
  version = it.version;
  item_type = 0;
  title = none;
  metadata = none;
  payload = none;
  blob_id = "";
  deleted = true;
}

-- What an event makes of the items: the item as it is now, or a mark that it is deleted.
abbrev pub effect : ChangeType → Option VaultItem → (String → Option Item) → String → Option Item
effect created (some it) m = with_item (as_sent it) m
effect updated (some it) m = with_item (as_sent it) m
effect deleted (some it) m = with_item (as_gone it) m
effect _ _ m = m

abbrev pub changed_by : RevisionEvent → (String → Option Item) → String → Option Item
changed_by ev = effect ev.change_type ev.item

abbrev pub changed_by_all : List RevisionEvent → (String → Option Item) → String → Option Item
changed_by_all [] m = m
changed_by_all (ev ∷ evs) m = changed_by_all evs (changed_by ev m)

-- the state of the synchronisation after an answer
abbrev synced : SyncResponse → SyncState → SyncState
synced resp st = record {
  last_revision = resp.new_server_revision;
  pending_operations = kept_operations resp.conflicts st.pending_operations;
}

-- The whole queue is asked for, from the revision that is known.
abbrev pub asked : SyncState → SyncRequest
asked st = record {
  client_revision = st.last_revision;
  pending_operations =
      map
        (λ (op : PendingOperation). some (record {
          operation_id = op.operation_id;
          operation_type = op.operation_type;
          item_id = op.item_id;
          expected_version = op.expected_version;
          snapshot = op.snapshot;
        }))
        st.pending_operations;
}

-- The queue after an answer: empty if it has no conflict, and as it was if it has one.
abbrev pub IsLeft : List Conflict → List PendingOperation → List PendingOperation → Type 0
IsLeft conflicts before after =
    ((conflicts ≡ []) × (after ≡ []))
    ⊎ ((c : Conflict) × ((cs : List Conflict) × ((conflicts ≡ c ∷ cs) × (after ≡ before))))

kept_operations-IsLeft :
    (conflicts : List Conflict) (before after : List PendingOperation)
    → after ≡ kept_operations conflicts before
    → IsLeft conflicts before after
kept_operations-IsLeft [] before after e = inl (refl, e)
kept_operations-IsLeft (c ∷ cs) before after e = inr (c, (cs, (refl, e)))

module _ {R : Type 0} where
  -- An upsert of the item that an event carries.
  applied :
      (o : Option VaultItem) (f : VaultItem → Item) (a : App R) (u : Unit {0}) (a' : App R)
      → Returns (found o panic >>= λ it. stored (upsert (f it))) a u a'
      → (it : VaultItem) × ((o ≡ some it)
          × (items_of a'.local_storage ≡ with_item (f it) (items_of a.local_storage))
          × (a' ≡ record a { local_storage = a'.local_storage }))
  applied o f a u a' h = in_steps (found o panic) _ a u a' h λ it b h1 k1.
      let (is, same) = found-some o panic a it b h1 in
      let (put_in, left) = stored_Returns (upsert (f it)) b u a' k1 in
      (
        it,
        (
          is,
          upsert_items (f it) b.local_storage u a'.local_storage put_in
              ∙ ap (λ (c : App R). with_item (f it) (items_of c.local_storage)) same,
          left ∙ ap {B = App R} (λ (c : App R). record c { local_storage = a'.local_storage }) same,
        ),
      )

  abbrev Changes :
      Exec (App R) (Unit {0}) → ((String → Option Item) → String → Option Item) → Type 0
  Changes m f =
      (a : App R) (u : Unit {0}) (a' : App R)
      → Returns m a u a'
      → (items_of a'.local_storage ≡ f (items_of a.local_storage))
        × (a' ≡ record a { local_storage = a'.local_storage })

  unchanged :
      (a a' : App R)
      → a ≡ a'
      → (items_of a'.local_storage ≡ items_of a.local_storage)
        × (a' ≡ record a { local_storage = a'.local_storage })
  unchanged a a' e = (
    ap (λ (c : App R). items_of c.local_storage) (sym e),
    sym e ∙ ap {B = App R} (λ (c : App R). record a { local_storage = c.local_storage }) e,
  )

  apply_change_items :
      (t : ChangeType) (o : Option VaultItem) → Changes (apply_change t o) (effect t o)
  apply_change_items created o a u a' h =
      let (it, (is, items, left)) = applied o live_item a u a' h in (items ∙ rw is refl, left)
  apply_change_items updated o a u a' h =
      let (it, (is, items, left)) = applied o live_item a u a' h in (items ∙ rw is refl, left)
  apply_change_items deleted o a u a' h =
      let (it, (is, items, left)) = applied o deleted_item a u a' h in (items ∙ rw is refl, left)
  apply_change_items unspecified o a u a' h = unchanged a a' cc

  apply_events_items : (evs : List RevisionEvent) → Changes (apply_events evs) (changed_by_all evs)
  unfolding apply_events apply_event
  apply_events_items [] a u a' h = unchanged a a' cc
  apply_events_items (ev ∷ evs) a u a' h = in_steps (apply_event ev) _ a u a' h λ v b h1 k1.
      let (one, left) = apply_change_items ev.change_type ev.item a v b h1 in
      let (rest, right) = apply_events_items evs b u a' k1 in
      (
        rest ∙ ap (changed_by_all evs) one,
        right ∙ ap {B = App R} (λ (c : App R). record c { local_storage = a'.local_storage }) left,
      )

  -- A Sync that succeeds has sent the server its revision and its queue, and applied every event of the
  -- answer in order: the items are those from before with each changed item as the event has it, or
  -- marked as deleted. It has taken over the server's revision, emptied the queue if the answer has no
  -- conflict and left it whole if it has one, and saved both, under the key and the authentication state
  -- from before.
  pub sync_applies :
      (server : Remote R) (a a' : App R)
      → Returns (sync server) a tt a'
      → (resp : SyncResponse) × (Returns (server.sync (asked a.sync_state)) a.client resp a'.client
          × (items_of a'.local_storage
              ≡ changed_by_all resp.remote_changes (items_of a.local_storage))
          × (a'.sync_state.last_revision ≡ resp.new_server_revision)
          × IsLeft resp.conflicts a.sync_state.pending_operations a'.sync_state.pending_operations
          × (a'.local_storage.tables.sync_state ≡ some resp.new_server_revision)
          × (a'.local_storage.tables.pending_operations
              ≡ map pending_row a'.sync_state.pending_operations)
          × (a'.dek ≡ a.dek)
          × (a'.auth_state ≡ a.auth_state))
  unfolding sync ◌>>=◌
  sync_applies server a a' h =
      in_steps (remote (server.sync (sync_request a.sync_state))) _ a tt a' h λ resp b h1 k1.
        in_steps (apply_events resp.remote_changes) _ b tt a' k1 λ v c h2 k2.
          let (sent, d1) = remote_Returns (server.sync _) a resp b h1 in
          let (items, d2) = apply_events_items resp.remote_changes b v c h2 in
          let answered = λ (x : App R). synced resp x.sync_state in
          let (saved, d3) =
            stored_Returns (save_sync (answered c)) (record c { sync_state = answered c }) tt a'
              k2 in
          let before : c ≡ record a { client = b.client; local_storage = c.local_storage } =
            d2 ∙ ap {B = App R} (λ (x : App R). record x { local_storage = c.local_storage }) d1 in
          let client : b.client ≡ a'.client =
            sym (ap (λ (x : App R). x.client) d3 ∙ ap (λ (x : App R). x.client) d2) in
          let left = save_sync_leaves (answered c) c.local_storage tt a'.local_storage saved in
          let state = ap (λ (x : App R). x.sync_state) d3 in
          (
            resp,
            (
              subst (λ k. Returns (server.sync (sync_request a.sync_state)) a.client resp k) client
                  sent,
              save_sync_items (answered c) c.local_storage tt a'.local_storage saved
                  ∙ items
                  ∙ ap
                      (λ (x : App R). changed_by_all resp.remote_changes (items_of x.local_storage))
                      d1,
              ap (λ (st : SyncState). st.last_revision) (state ∙ ap answered before),
              kept_operations-IsLeft resp.conflicts a.sync_state.pending_operations
                  a'.sync_state.pending_operations
                  (ap (λ (st : SyncState). st.pending_operations) (state ∙ ap answered before)),
              ap (λ (t : Tables). t.sync_state) left,
              ap (λ (t : Tables). t.pending_operations) left
                  ∙ ap (λ (st : SyncState). map pending_row st.pending_operations) (sym state),
              ap (λ (x : App R). x.dek) d3 ∙ ap (λ (x : App R). x.dek) before,
              ap (λ (x : App R). x.auth_state) d3 ∙ ap (λ (x : App R). x.auth_state) before,
            ),
          )
