-- ===== src/Client/Storage.antt =====
-- internal/client/storage/sqlite_storage.go, over the tables of migrations/client.
use goph_keeper.Common.{
  ℕ, ◌+◌, ◌^◌, String, Bool, not, Option, none, some, List, [], ◌∷◌, ◌++◌, map, if◌then◌else◌,
  str_eq, ltb, leb, ◌==◌,
}
use goph_keeper.Common.Bytes.{is_filled}
use goph_keeper.Common.Table.{find?, exists?, update_where, delete_where, sort_by}
use goph_keeper.Vault.Payload.{EncryptedField}
use goph_keeper.Sync.Push.{ItemSnapshot, OperationType}
use goph_keeper.Client.Types.{Item, AuthState, PendingOperation, SyncState}
use goph_keeper.Client.Run.{Result, ok, err, storage_failure, Exec, ◌>>=◌, ◌>>◌, pure, guard}

-- A row of vault_items; a BLOB column that is NULL reads as an empty list.
pub record ItemRow : Type 0 where
  pub id : String
  pub version : ℕ
  pub item_type : ℕ
  pub title_cipher : List ℕ
  pub title_nonce : List ℕ
  pub metadata_cipher : List ℕ
  pub metadata_nonce : List ℕ
  pub payload_cipher : List ℕ
  pub payload_nonce : List ℕ
  pub blob_id : String
  pub deleted : Bool
  pub updated_at : ℕ

-- A row of pending_operations. Its id counts the rows as they are inserted, so the order of the
-- list is the order by id.
pub record PendingRow : Type 0 where
  pub operation_id : String
  pub operation_type : OperationType
  pub item_id : String
  pub expected_version : ℕ
  pub snapshot_type : ℕ
  pub snapshot_title_cipher : List ℕ
  pub snapshot_title_nonce : List ℕ
  pub snapshot_metadata_cipher : List ℕ
  pub snapshot_metadata_nonce : List ℕ
  pub snapshot_payload_cipher : List ℕ
  pub snapshot_payload_nonce : List ℕ
  pub snapshot_blob_id : String

-- The tables, of which auth_state and sync_state hold one row at most.
pub record Tables : Type 0 where
  pub auth_state : Option AuthState
  pub sync_state : Option ℕ
  pub pending_operations : List PendingRow
  pub vault_items : List ItemRow

-- The database: the calls of the driver are counted, one fails when `fault` says so, and its number
-- gives the CURRENT_TIMESTAMP of the statement.
pub record Storage : Type 0 where
  pub tables : Tables
  pub fault : ℕ → Bool
  pub times : ℕ → ℕ
  pub calls : ℕ

-- one call of the driver
unfoldable pub call : Exec Storage (Unit {0})
call s = (if s.fault s.calls then err storage_failure else ok tt, record s { calls = s.calls + 1 })

unfoldable pub read {ℓ} : {A : Type ℓ} → (Tables → A) → Storage → Result A × Storage
read f s = (ok (f s.tables), s)

abbrev pub write : (Storage → Tables) → Exec Storage (Unit {0})
write f s = (ok tt, record s { tables = f s })

-- An unsigned column is bound only below 2^63.
abbrev pub bindable : ℕ → Bool
bindable n = ltb n (2 ^ 63)

abbrev pub cipher_of : Option EncryptedField → List ℕ
cipher_of none = []
cipher_of (some f) = f.ciphertext

abbrev pub nonce_of : Option EncryptedField → List ℕ
nonce_of none = []
nonce_of (some f) = f.nonce

-- A field is restored if its ciphertext is not empty.
abbrev pub restored : List ℕ → List ℕ → Option EncryptedField
restored cipher nonce =
    if is_filled cipher then some (record { ciphertext = cipher; nonce = nonce }) else none

-- ============== AuthStateStorage ==============

unfoldable pub save : AuthState → Exec Storage (Unit {0})
save auth = do call; write λ s. record s.tables { auth_state = some auth }

abbrev pub empty_auth_state : AuthState
empty_auth_state = record {
  user_id = "";
  access_token = "";
  refresh_token = "";
  device_id = "";
  password_salt = [];
  encrypted_dek = [];
  encrypted_dek_nonce = [];
}

abbrev or_empty : Option AuthState → AuthState
or_empty none = empty_auth_state
or_empty (some a) = a

unfoldable pub load : Exec Storage AuthState
unfolding read
load = do call; read λ t. or_empty t.auth_state

-- ============== SyncStateStorage ==============

abbrev snapshot_type_of : Option ItemSnapshot → ℕ
snapshot_type_of none = 0
snapshot_type_of (some s) = s.item_type

abbrev snapshot_title : Option ItemSnapshot → Option EncryptedField
snapshot_title none = none
snapshot_title (some s) = s.title

abbrev snapshot_metadata : Option ItemSnapshot → Option EncryptedField
snapshot_metadata none = none
snapshot_metadata (some s) = s.metadata

abbrev snapshot_payload : Option ItemSnapshot → Option EncryptedField
snapshot_payload none = none
snapshot_payload (some s) = s.payload

abbrev snapshot_blob : Option ItemSnapshot → String
snapshot_blob none = ""
snapshot_blob (some s) = s.blob_id

unfoldable pub pending_row : PendingOperation → PendingRow
pending_row op = record {
  operation_id = op.operation_id;
  operation_type = op.operation_type;
  item_id = op.item_id;
  expected_version = op.expected_version;
  snapshot_type = snapshot_type_of op.snapshot;
  snapshot_title_cipher = cipher_of (snapshot_title op.snapshot);
  snapshot_title_nonce = nonce_of (snapshot_title op.snapshot);
  snapshot_metadata_cipher = cipher_of (snapshot_metadata op.snapshot);
  snapshot_metadata_nonce = nonce_of (snapshot_metadata op.snapshot);
  snapshot_payload_cipher = cipher_of (snapshot_payload op.snapshot);
  snapshot_payload_nonce = nonce_of (snapshot_payload op.snapshot);
  snapshot_blob_id = snapshot_blob op.snapshot;
}

abbrev pub same_operation : String → PendingRow → Bool
same_operation id r = str_eq r.operation_id id

-- INSERT INTO pending_operations, whose operation_id is unique
unfoldable pub insert_pending : PendingOperation → Exec Storage (Unit {0})
unfolding pending_row read
insert_pending op = do
  guard (bindable op.expected_version) storage_failure
  call
  taken ← read λ t. exists? (same_operation op.operation_id) t.pending_operations
  guard (not taken) storage_failure
  write λ s. record s.tables {
    pending_operations = s.tables.pending_operations ++ pending_row op ∷ [];
  }

unfoldable pub insert_all : List PendingOperation → Exec Storage (Unit {0})
unfolding insert_pending
insert_all [] = pure tt
insert_all (op ∷ ops) = do insert_pending op; insert_all ops

abbrev pub rolled_back : Tables → Result (Unit {0}) × Storage → Result (Unit {0}) × Storage
rolled_back before (ok a, s) = (ok a, s)
rolled_back before (err e, s) = (err e, record s { tables = before })

-- BEGIN, `m` and COMMIT, with a rollback on an error
unfoldable pub transaction : Exec Storage (Unit {0}) → Exec Storage (Unit {0})
transaction m s = rolled_back s.tables ((call >> (m >> call)) s)

unfoldable pub save_sync_state : SyncState → Exec Storage (Unit {0})
unfolding insert_all
save_sync_state st = do
  guard (bindable st.last_revision) storage_failure
  call
  write λ s. record s.tables { sync_state = some st.last_revision }
  call
  write λ s. record s.tables { pending_operations = [] }
  insert_all st.pending_operations

unfoldable pub save_sync : SyncState → Exec Storage (Unit {0})
unfolding save_sync_state transaction
save_sync st = transaction (save_sync_state st)

abbrev pub restored_snapshot : PendingRow → Option ItemSnapshot
restored_snapshot r =
    if r.snapshot_type == 0
    then none
    else some (record {
      item_type = r.snapshot_type;
      title = restored r.snapshot_title_cipher r.snapshot_title_nonce;
      metadata = restored r.snapshot_metadata_cipher r.snapshot_metadata_nonce;
      payload = restored r.snapshot_payload_cipher r.snapshot_payload_nonce;
      blob_id = r.snapshot_blob_id;
    })

unfoldable pub pending_operation : PendingRow → PendingOperation
pending_operation r = record {
  operation_id = r.operation_id;
  operation_type = r.operation_type;
  item_id = r.item_id;
  expected_version = r.expected_version;
  snapshot = restored_snapshot r;
}

abbrev pub or_zero : Option ℕ → ℕ
or_zero none = 0
or_zero (some n) = n

-- The loop over the rows of a query: a failure of rows.Next ends it, and rows.Err is not asked.
unfoldable pub next_rows : List PendingRow → Storage → List PendingRow × Storage
next_rows [] s = ([], s)
next_rows (r ∷ rows) s =
    let moved = record s { calls = s.calls + 1 } in
    let (rest, left) = next_rows rows moved in
    if s.fault s.calls then ([], moved) else (r ∷ rest, left)

unfoldable pub load_sync : Exec Storage SyncState
unfolding read pending_operation next_rows
load_sync = do
  call
  revision ← read λ t. or_zero t.sync_state
  call
  rows ← read λ t. t.pending_operations
  λ s.
      let (got, left) = next_rows rows s in
      (
        ok (record { last_revision = revision; pending_operations = map pending_operation got }),
        left,
      )

-- ============== VaultStorage ==============

unfoldable pub item_row : Item → ℕ → ItemRow
item_row it at = record {
  id = it.id;
  version = it.version;
  item_type = it.item_type;
  title_cipher = cipher_of it.title;
  title_nonce = nonce_of it.title;
  metadata_cipher = cipher_of it.metadata;
  metadata_nonce = nonce_of it.metadata;
  payload_cipher = cipher_of it.payload;
  payload_nonce = nonce_of it.payload;
  blob_id = it.blob_id;
  deleted = it.deleted;
  updated_at = at;
}

abbrev pub with_id : String → ItemRow → Bool
with_id id r = str_eq r.id id

-- INSERT ... ON CONFLICT(id) DO UPDATE SET every other column
unfoldable pub put_row : ItemRow → List ItemRow → List ItemRow
put_row r rows =
    if exists? (with_id r.id) rows
    then update_where (with_id r.id) (λ _. r) rows
    else rows ++ r ∷ []

unfoldable pub upsert : Item → Exec Storage (Unit {0})
unfolding item_row put_row
upsert it = do
  guard (bindable it.version) storage_failure
  call
  write λ s. record s.tables {
    vault_items = put_row (item_row it (s.times s.calls)) s.tables.vault_items;
  }

-- scanItems, for one row
unfoldable pub scan_item : ItemRow → Item
scan_item r = record {
  id = r.id;
  version = r.version;
  item_type = r.item_type;
  title = restored r.title_cipher r.title_nonce;
  metadata = restored r.metadata_cipher r.metadata_nonce;
  payload = restored r.payload_cipher r.payload_nonce;
  blob_id = r.blob_id;
  deleted = r.deleted;
}

-- Rows of one timestamp come in some order; here it is the order of the table.
unfoldable pub list : Exec Storage (List Item)
unfolding read scan_item
list = do
  call
  read λ t. map scan_item (sort_by (λ a b. leb b.updated_at a.updated_at) t.vault_items)

abbrev scanned : Option ItemRow → Option Item
scanned none = none
scanned (some r) = some (scan_item r)

abbrev or_missing : Result (Option Item) × Storage → Option Item × Storage
or_missing (ok o, s) = (o, s)
or_missing (err e, s) = (none, s)

-- An item that cannot be read counts as missing.
unfoldable pub get : String → Storage → Option Item × Storage
unfolding read
get id s = or_missing ((call >> read λ t. scanned (find? (with_id id) t.vault_items)) s)

unfoldable pub delete : String → Exec Storage (Unit {0})
delete id = do
  call
  write λ s. record s.tables { vault_items = delete_where (with_id id) s.tables.vault_items }
