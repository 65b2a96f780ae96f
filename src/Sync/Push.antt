-- ===== src/Sync/Push.antt =====
-- The operations that a client pushes: runPushOperations, applyPendingOperation, pushCreate,
-- pushUpdate, pushDelete, versionConflict and mapPushEngineError of
-- internal/server/grpcserver/sync_handler.go, and item_type.go.
use goph_keeper.Common.{
  ℕ, String, Bool, true, false, ◌&&◌, not, Option, none, some, List, [], ◌∷◌, if◌then◌else◌, str_eq,
  leb,
}
use goph_keeper.Common.Text.{trim_space}
use goph_keeper.Server.Error.{
  Error, Result, ok, err, status, invalid_argument, not_found, internal, err_invalid_argument,
  err_not_found, err_conflict,
}
use goph_keeper.Server.Exec.{Exec, ◌>>=◌, ◌>>◌, pure, raise, guard, found, catch, on_error}
use goph_keeper.Vault.Types.{Item, CreateInput, UpdateInput}
use goph_keeper.Vault.Repository.{is_null, get_item}
use goph_keeper.Vault.Engine.{create, update, delete, is_blank}
use goph_keeper.Vault.Tx.{with_vault_engine_tx}
use goph_keeper.Vault.Payload.{
  EncryptedField, PayloadConfig, ResolvedPayload, resolve_vault_payload,
}

-- A vault item as a pending operation carries it; ITEM_TYPE is its protobuf number.
pub record ItemSnapshot : Type 0 where
  pub item_type : ℕ
  pub title : Option EncryptedField
  pub metadata : Option EncryptedField
  pub payload : Option EncryptedField
  pub blob_id : String

pub data OperationType : Type 0 where
  type_unspecified type_create type_update type_delete type_unknown : OperationType

pub record PendingOperation : Type 0 where
  pub operation_id : String
  pub operation_type : OperationType
  pub item_id : String
  pub expected_version : ℕ
  pub snapshot : Option ItemSnapshot

pub record OperationResult : Type 0 where
  pub operation_id : String
  pub item_id : String
  pub new_version : ℕ
  pub revision_id : ℕ

pub record Conflict : Type 0 where
  pub operation_id : String
  pub item_id : String
  pub expected_version : ℕ
  pub actual_version : ℕ
  pub current_item : Option Item

-- What one pending operation is answered with.
pub data Pushed : Type 0 where
  accepted : OperationResult → Pushed
  conflict : Conflict → Pushed

-- ITEM_TYPE_CREDENTIAL to ITEM_TYPE_BINARY
unfoldable pub concrete_proto_item_type : ℕ → Option ℕ
concrete_proto_item_type t = if leb 1 t && leb t 5 then some t else none

abbrev map_push_engine_error : Error → Error
map_push_engine_error err_invalid_argument = status invalid_argument
map_push_engine_error err_not_found = status not_found
map_push_engine_error _ = status internal

-- The fields of the conflict that depend on whether the item could be read.
abbrev conflict_of : String → String → ℕ → Result Item → Conflict
conflict_of op_id item_id expected_version (ok it) = record {
  operation_id = op_id;
  item_id = item_id;
  expected_version = expected_version;
  actual_version = it.version;
  current_item = some it;
}
conflict_of op_id item_id expected_version (err e) = record {
  operation_id = op_id;
  item_id = item_id;
  expected_version = expected_version;
  actual_version = 0;
  current_item = none;
}

unfoldable pub version_conflict : String → String → String → ℕ → Exec Conflict
version_conflict user_id op_id item_id expected_version s =
    let (r, s') = get_item user_id item_id s in
    (ok (conflict_of op_id item_id expected_version r), s')

-- errors.Is(err, vault.ErrConflict)
abbrev is_conflict : Error → Bool
is_conflict err_conflict = true
is_conflict _ = false

unfoldable pub push_error : String → String → String → ℕ → Error → Exec Pushed
unfolding version_conflict
push_error user_id op_id item_id expected_version e =
    if is_conflict e
    then (do c ← version_conflict user_id op_id item_id expected_version; pure (conflict c))
    else raise (map_push_engine_error e)

-- The checks of a snapshot that pushCreate and pushUpdate share.
unfoldable pub checked_snapshot :
    Option ItemSnapshot → Exec (ItemSnapshot × EncryptedField × EncryptedField × ℕ)
checked_snapshot snapshot = do
  snap ← found snapshot (status invalid_argument)
  title ← found snap.title (status invalid_argument)
  metadata ← found snap.metadata (status invalid_argument)
  guard (not (is_blank snap.blob_id && is_null snap.payload)) (status invalid_argument)
  item_type ← found (concrete_proto_item_type snap.item_type) (status invalid_argument)
  pure (snap, title, metadata, item_type)

abbrev pub create_input : EncryptedField → EncryptedField → ℕ → ResolvedPayload → CreateInput
create_input title metadata item_type r = record {
  item_type = item_type;
  title_ciphertext = title.ciphertext;
  title_nonce = title.nonce;
  metadata_ciphertext = metadata.ciphertext;
  metadata_nonce = metadata.nonce;
  payload_ciphertext = r.payload_ciphertext;
  payload_nonce = r.payload_nonce;
  blob_id = r.blob_id;
  checksum = r.checksum;
}

abbrev pub update_input : EncryptedField → EncryptedField → ResolvedPayload → UpdateInput
update_input title metadata r = record {
  title_ciphertext = title.ciphertext;
  title_nonce = title.nonce;
  metadata_ciphertext = metadata.ciphertext;
  metadata_nonce = metadata.nonce;
  payload_ciphertext = r.payload_ciphertext;
  payload_nonce = r.payload_nonce;
  blob_id = r.blob_id;
  checksum = r.checksum;
}

abbrev pub applied : String → String → ℕ → ℕ → Pushed
applied op_id item_id new_version revision_id = accepted (record {
  operation_id = op_id;
  item_id = item_id;
  new_version = new_version;
  revision_id = revision_id;
})

unfoldable pub push_create : PayloadConfig → String → String → PendingOperation → Exec Pushed
unfolding checked_snapshot
push_create cfg user_id op_id op = do
  p ← checked_snapshot op.snapshot
  let (snap, title, metadata, item_type) = p
  r ← resolve_vault_payload cfg user_id snap.payload snap.blob_id
  out ←
      on_error
        (with_vault_engine_tx (create user_id op_id (create_input title metadata item_type r)))
        map_push_engine_error
  pure (applied op_id out.item_id out.version out.server_revision)

unfoldable pub push_update : PayloadConfig → String → String → PendingOperation → Exec Pushed
unfolding checked_snapshot push_error
push_update cfg user_id op_id op = do
  let item_id = trim_space op.item_id
  guard (not (str_eq item_id "")) (status invalid_argument)
  p ← checked_snapshot op.snapshot
  let (snap, title, metadata, item_type) = p
  r ← resolve_vault_payload cfg user_id snap.payload snap.blob_id
  catch
      (do
        out ←
            with_vault_engine_tx
              (update user_id op_id item_id op.expected_version (update_input title metadata r))
        pure (applied op_id item_id out.new_version out.server_revision))
      (push_error user_id op_id item_id op.expected_version)

unfoldable pub push_delete : String → String → PendingOperation → Exec Pushed
unfolding push_error
push_delete user_id op_id op = do
  let item_id = trim_space op.item_id
  guard (not (str_eq item_id "")) (status invalid_argument)
  catch
      (do
        out ← with_vault_engine_tx (delete user_id op_id item_id op.expected_version)
        pure (applied op_id item_id out.new_version out.server_revision))
      (push_error user_id op_id item_id op.expected_version)

unfoldable pub by_type :
    PayloadConfig → String → String → OperationType → PendingOperation → Exec Pushed
unfolding push_create push_update push_delete
by_type cfg user_id op_id type_create op = push_create cfg user_id op_id op
by_type cfg user_id op_id type_update op = push_update cfg user_id op_id op
by_type cfg user_id op_id type_delete op = push_delete user_id op_id op
by_type cfg user_id op_id type_unspecified op = raise (status invalid_argument)
by_type cfg user_id op_id type_unknown op = raise (status invalid_argument)

unfoldable pub apply_pending_operation : PayloadConfig → String → PendingOperation → Exec Pushed
unfolding by_type
apply_pending_operation cfg user_id op = do
  let op_id = trim_space op.operation_id
  guard (not (str_eq op_id "")) (status invalid_argument)
  by_type cfg user_id op_id op.operation_type op

-- The answers in the order of the operations; `none` is a nil entry.
unfoldable pub run_push_operations :
    PayloadConfig → String → List (Option PendingOperation) → Exec (List Pushed)
unfolding apply_pending_operation
run_push_operations cfg user_id [] = pure []
run_push_operations cfg user_id (op ∷ ops) = do
  o ← found op (status invalid_argument)
  a ← apply_pending_operation cfg user_id o
  rest ← run_push_operations cfg user_id ops
  pure (a ∷ rest)
