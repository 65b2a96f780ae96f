-- ===== src/Vault/Handler.antt =====
-- internal/server/grpcserver/vault_handler.go. The engine works on the pool, so a call of it is no
-- transaction. A missing request is `none`.
use goph_keeper.Common.{ℕ, String, Bool, ◌&&◌, not, Option, none, some, List, map, str_eq}
use goph_keeper.Common.Table.{is_null}
use goph_keeper.Server.Error.{
  Error, status, unauthenticated, invalid_argument, not_found, aborted, internal,
  err_invalid_argument, err_not_found, err_conflict,
}
use goph_keeper.Server.Exec.{Exec, ◌>>=◌, ◌>>◌, pure, found, guard, on_error}
use goph_keeper.Vault.Types.{Item, CreateOutput, UpdateOutput, DeleteOutput}
use goph_keeper.Vault.Engine.{create, update, delete, get, is_blank}
use goph_keeper.Vault.Listing.{Sql, list}
use goph_keeper.Vault.Payload.{EncryptedField, PayloadConfig, resolve_vault_payload}
use goph_keeper.Sync.Push.{concrete_proto_item_type, create_input, update_input}

unfoldable pub to_vault_status_error : Error → Error
to_vault_status_error err_invalid_argument = status invalid_argument
to_vault_status_error err_not_found = status not_found
to_vault_status_error err_conflict = status aborted
to_vault_status_error _ = status internal

pub record CreateItemRequest : Type 0 where
  pub operation_id : String
  pub item_type : ℕ
  pub title : Option EncryptedField
  pub metadata : Option EncryptedField
  pub payload : Option EncryptedField
  pub blob_id : String

unfoldable pub create_item :
    PayloadConfig → Option String → Option CreateItemRequest → Exec CreateOutput
unfolding to_vault_status_error
create_item cfg auth req = do
  user_id ← found auth (status unauthenticated)
  r ← found req (status invalid_argument)
  title ← found r.title (status invalid_argument)
  metadata ← found r.metadata (status invalid_argument)
  guard (not (is_blank r.blob_id && is_null r.payload)) (status invalid_argument)
  item_type ← found (concrete_proto_item_type r.item_type) (status invalid_argument)
  p ← resolve_vault_payload cfg user_id r.payload r.blob_id
  on_error (create user_id r.operation_id (create_input title metadata item_type p))
      to_vault_status_error

pub record VaultItem : Type 0 where
  pub item_id : String
  pub user_id : String
  pub item_type : ℕ
  pub title : EncryptedField
  pub metadata : EncryptedField
  pub payload : EncryptedField
  pub blob_id : String
  pub version : ℕ
  pub checksum : List ℕ
  pub created_at : ℕ
  pub updated_at : ℕ
  pub deleted_at : Option ℕ

abbrev text_or_empty : Option String → String
text_or_empty none = ""
text_or_empty (some t) = t

unfoldable pub to_proto_item : Item → VaultItem
to_proto_item it = record {
  item_id = it.item_id;
  user_id = it.user_id;
  item_type = it.item_type;
  title = record { ciphertext = it.title_ciphertext; nonce = it.title_nonce };
  metadata = record { ciphertext = it.metadata_ciphertext; nonce = it.metadata_nonce };
  payload = record { ciphertext = it.payload_ciphertext; nonce = it.payload_nonce };
  blob_id = text_or_empty it.blob_id;
  version = it.version;
  checksum = it.checksum;
  created_at = it.created_at;
  updated_at = it.updated_at;
  deleted_at = it.deleted_at;
}

unfoldable pub get_item : Option String → Option String → Exec VaultItem
unfolding to_vault_status_error to_proto_item
get_item auth req = do
  user_id ← found auth (status unauthenticated)
  item_id ← found req (status invalid_argument)
  guard (not (str_eq item_id "")) (status invalid_argument)
  it ← on_error (get user_id item_id) to_vault_status_error
  pure (to_proto_item it)

pub record ItemSummary : Type 0 where
  pub item_id : String
  pub item_type : ℕ
  pub title : EncryptedField
  pub metadata : EncryptedField
  pub version : ℕ
  pub updated_at : ℕ
  pub blob_id : String
  pub deleted_at : Option ℕ

unfoldable pub to_proto_summary : Item → ItemSummary
to_proto_summary it = record {
  item_id = it.item_id;
  item_type = it.item_type;
  title = record { ciphertext = it.title_ciphertext; nonce = it.title_nonce };
  metadata = record { ciphertext = it.metadata_ciphertext; nonce = it.metadata_nonce };
  version = it.version;
  updated_at = it.updated_at;
  blob_id = text_or_empty it.blob_id;
  deleted_at = it.deleted_at;
}

pub record ListItemsRequest : Type 0 where
  pub include_deleted : Bool
  pub page_size : ℕ
  pub page_token : String

unfoldable pub list_items :
    Sql → Option String → Option ListItemsRequest → Exec (List ItemSummary × String)
unfolding to_vault_status_error to_proto_summary
list_items sql auth req = do
  user_id ← found auth (status unauthenticated)
  r ← found req (status invalid_argument)
  page ←
      on_error (list sql user_id r.include_deleted r.page_size r.page_token) to_vault_status_error
  pure (map to_proto_summary page.0, page.1)

pub record UpdateItemRequest : Type 0 where
  pub operation_id : String
  pub item_id : String
  pub expected_version : ℕ
  pub title : Option EncryptedField
  pub metadata : Option EncryptedField
  pub payload : Option EncryptedField
  pub blob_id : String

unfoldable pub update_item :
    PayloadConfig → Option String → Option UpdateItemRequest → Exec UpdateOutput
unfolding to_vault_status_error
update_item cfg auth req = do
  user_id ← found auth (status unauthenticated)
  r ← found req (status invalid_argument)
  title ← found r.title (status invalid_argument)
  metadata ← found r.metadata (status invalid_argument)
  guard (not (is_blank r.blob_id && is_null r.payload)) (status invalid_argument)
  guard (not (str_eq r.item_id "")) (status invalid_argument)
  p ← resolve_vault_payload cfg user_id r.payload r.blob_id
  on_error
      (update user_id r.operation_id r.item_id r.expected_version (update_input title metadata p))
      to_vault_status_error

pub record DeleteItemRequest : Type 0 where
  pub operation_id : String
  pub item_id : String
  pub expected_version : ℕ

unfoldable pub delete_item : Option String → Option DeleteItemRequest → Exec DeleteOutput
unfolding to_vault_status_error
delete_item auth req = do
  user_id ← found auth (status unauthenticated)
  r ← found req (status invalid_argument)
  guard (not (str_eq r.item_id "")) (status invalid_argument)
  guard (not (str_eq r.operation_id "")) (status invalid_argument)
  on_error (delete user_id r.operation_id r.item_id r.expected_version) to_vault_status_error
