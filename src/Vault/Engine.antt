-- ===== src/Vault/Engine.antt =====
-- internal/server/vault/engine.go. The engine works on the PostgreSQL repositories.
use goph_keeper.Common.{
  ℕ, ◌+◌, ◌%◌, ◌^◌, String, Bool, ◌&&◌, ◌||◌, not, Option, none, some, ◌==◌, str_eq,
}
use goph_keeper.Common.Text.{trim_space}
use goph_keeper.Server.Error.{err_invalid_argument, err_not_found, err_conflict}
use goph_keeper.Server.Exec.{Exec, ◌>>=◌, ◌>>◌, guard, pure, now, new_uuid}
use goph_keeper.Vault.Types.{
  Item, ChangeType, created, updated, deleted, RevisionLogEntry, ProcessedOperation, CreateInput,
  CreateOutput, UpdateInput, UpdateOutput, DeleteOutput,
}
use goph_keeper.Vault.Repository.{
  is_null, create_item, get_item, update_item, delete_item, append_revision, mark_processed, lookup,
}

-- strings.TrimSpace(s) == ""
abbrev pub is_blank : String → Bool
is_blank s = str_eq (trim_space s) ""

abbrev pub new_item : String → String → CreateInput → ℕ → Item
new_item item_id user_id input at = record {
  item_id = item_id;
  user_id = user_id;
  item_type = input.item_type;
  title_ciphertext = input.title_ciphertext;
  title_nonce = input.title_nonce;
  metadata_ciphertext = input.metadata_ciphertext;
  metadata_nonce = input.metadata_nonce;
  payload_ciphertext = input.payload_ciphertext;
  payload_nonce = input.payload_nonce;
  blob_id = input.blob_id;
  version = 1;
  checksum = input.checksum;
  created_at = at;
  updated_at = at;
  deleted_at = none;
}

abbrev pub new_entry : String → String → String → ChangeType → ℕ → ℕ → RevisionLogEntry
new_entry user_id operation_id item_id change item_version at = record {
  revision_id = 0;
  user_id = user_id;
  operation_id = some operation_id;
  item_id = item_id;
  change_type = change;
  item_version = item_version;
  changed_at = at;
}

replay_create : String → ProcessedOperation → Exec CreateOutput
replay_create user_id op = do
  item ← get_item user_id op.item_id
  pure (record { item_id = op.item_id; version = item.version; server_revision = op.revision_id })

create_new : String → String → CreateInput → Exec CreateOutput
create_new user_id operation_id input = do
  at ← now
  item_id ← new_uuid
  create_item (new_item item_id user_id input at)
  entry ← append_revision (new_entry user_id operation_id item_id created 1 at)
  mark_processed user_id operation_id item_id entry.revision_id
  pure (record { item_id = item_id; version = 1; server_revision = entry.revision_id })

pub create_unless_processed :
    Option ProcessedOperation → String → String → CreateInput → Exec CreateOutput
create_unless_processed (some op) user_id operation_id input = replay_create user_id op
create_unless_processed none user_id operation_id input = create_new user_id operation_id input

unfoldable pub create : String → String → CreateInput → Exec CreateOutput
unfolding replay_create create_new create_unless_processed
create user_id operation_id input = do
  guard (not (is_blank user_id || is_blank operation_id)) err_invalid_argument
  op ← lookup user_id operation_id
  create_unless_processed op user_id operation_id input

-- Version++ on a uint64
abbrev pub next_version : ℕ → ℕ
next_version v = (v + 1) % 2 ^ 64

abbrev pub apply_update : UpdateInput → ℕ → Item → Item
apply_update input at current = record current {
  title_ciphertext = input.title_ciphertext;
  title_nonce = input.title_nonce;
  metadata_ciphertext = input.metadata_ciphertext;
  metadata_nonce = input.metadata_nonce;
  payload_ciphertext = input.payload_ciphertext;
  payload_nonce = input.payload_nonce;
  blob_id = input.blob_id;
  version = next_version current.version;
  checksum = input.checksum;
  updated_at = at;
}

-- op.ItemID != "" && op.ItemID != itemID
abbrev pub other_item : ProcessedOperation → String → Bool
other_item op item_id = not (str_eq op.item_id "") && not (str_eq op.item_id item_id)

replay_update : String → String → ProcessedOperation → Exec UpdateOutput
replay_update user_id item_id op = do
  guard (not (other_item op item_id)) err_invalid_argument
  item ← get_item user_id op.item_id
  pure (record { new_version = item.version; server_revision = op.revision_id })

update_current : String → String → String → ℕ → UpdateInput → Exec UpdateOutput
update_current user_id operation_id item_id expected_version input = do
  current ← get_item user_id item_id
  guard (is_null current.deleted_at) err_not_found
  guard (current.version == expected_version) err_conflict
  at ← now
  let next = apply_update input at current
  update_item next expected_version
  entry ← append_revision (new_entry user_id operation_id item_id updated next.version at)
  mark_processed user_id operation_id item_id entry.revision_id
  pure (record { new_version = next.version; server_revision = entry.revision_id })

pub update_unless_processed :
    Option ProcessedOperation → String → String → String → ℕ → UpdateInput → Exec UpdateOutput
update_unless_processed (some op) user_id operation_id item_id expected_version input =
    replay_update user_id item_id op
update_unless_processed none user_id operation_id item_id expected_version input =
    update_current user_id operation_id item_id expected_version input

unfoldable pub update : String → String → String → ℕ → UpdateInput → Exec UpdateOutput
unfolding replay_update update_current update_unless_processed
update user_id operation_id item_id expected_version input = do
  guard (not (is_blank user_id || is_blank operation_id || is_blank item_id)) err_invalid_argument
  op ← lookup user_id operation_id
  update_unless_processed op user_id operation_id item_id expected_version input

replay_delete : String → String → ProcessedOperation → Exec DeleteOutput
replay_delete user_id item_id op = do
  guard (not (other_item op item_id)) err_invalid_argument
  item ← get_item user_id op.item_id
  pure (record { new_version = item.version; server_revision = op.revision_id })

delete_current : String → String → String → ℕ → Exec DeleteOutput
delete_current user_id operation_id item_id expected_version = do
  at ← now
  new_version ← delete_item user_id item_id expected_version at
  entry ← append_revision (new_entry user_id operation_id item_id deleted new_version at)
  mark_processed user_id operation_id item_id entry.revision_id
  pure (record { new_version = new_version; server_revision = entry.revision_id })

pub delete_unless_processed :
    Option ProcessedOperation → String → String → String → ℕ → Exec DeleteOutput
delete_unless_processed (some op) user_id operation_id item_id expected_version =
    replay_delete user_id item_id op
delete_unless_processed none user_id operation_id item_id expected_version =
    delete_current user_id operation_id item_id expected_version

unfoldable pub delete : String → String → String → ℕ → Exec DeleteOutput
unfolding replay_delete delete_current delete_unless_processed
delete user_id operation_id item_id expected_version = do
  guard (not (is_blank user_id || is_blank operation_id || is_blank item_id)) err_invalid_argument
  op ← lookup user_id operation_id
  delete_unless_processed op user_id operation_id item_id expected_version

unfoldable pub get : String → String → Exec Item
get user_id item_id = do
  guard (not (is_blank user_id || is_blank item_id)) err_invalid_argument
  get_item user_id item_id
