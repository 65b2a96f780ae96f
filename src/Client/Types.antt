-- ===== src/Client/Types.antt =====
-- internal/client/model: the items, the authentication state and the synchronisation state that the
-- client keeps. A nil slice and an empty one are both an empty list.
use goph_keeper.Common.{ℕ, String, Bool, Option, List}
use goph_keeper.Vault.Payload.{EncryptedField}
use goph_keeper.Sync.Push.{ItemSnapshot, OperationType}

pub record Item : Type 0 where
  pub id : String
  pub version : ℕ
  pub item_type : ℕ
  pub title : Option EncryptedField
  pub metadata : Option EncryptedField
  pub payload : Option EncryptedField
  pub blob_id : String
  pub deleted : Bool

pub record AuthState : Type 0 where
  pub user_id : String
  pub access_token : String
  pub refresh_token : String
  pub device_id : String
  pub password_salt : List ℕ
  pub encrypted_dek : List ℕ
  pub encrypted_dek_nonce : List ℕ

pub record PendingOperation : Type 0 where
  pub operation_id : String
  pub operation_type : OperationType
  pub item_id : String
  pub expected_version : ℕ
  pub snapshot : Option ItemSnapshot

pub record SyncState : Type 0 where
  pub last_revision : ℕ
  pub pending_operations : List PendingOperation
