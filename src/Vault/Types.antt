-- ===== src/Vault/Types.antt =====
-- internal/server/vault/types.go: the rows of the vault's tables and the engine's inputs and
-- outputs. A byte string is a list of numbers, a time a number of microseconds.
use goph_keeper.Common.{ℕ, String, Option, List}

pub record Item : Type 0 where
  pub item_id : String
  pub user_id : String
  pub item_type : ℕ
  pub title_ciphertext : List ℕ
  pub title_nonce : List ℕ
  pub metadata_ciphertext : List ℕ
  pub metadata_nonce : List ℕ
  pub payload_ciphertext : List ℕ
  pub payload_nonce : List ℕ
  pub blob_id : Option String
  pub version : ℕ
  pub checksum : List ℕ
  pub created_at : ℕ
  pub updated_at : ℕ
  pub deleted_at : Option ℕ

pub data ChangeType : Type 0 where
  unspecified created updated deleted : ChangeType

pub record RevisionLogEntry : Type 0 where
  pub revision_id : ℕ
  pub user_id : String
  pub operation_id : Option String
  pub item_id : String
  pub change_type : ChangeType
  pub item_version : ℕ
  pub changed_at : ℕ

pub record ProcessedOperation : Type 0 where
  pub user_id : String
  pub operation_id : String
  pub item_id : String
  pub revision_id : ℕ

pub record CreateInput : Type 0 where
  pub item_type : ℕ
  pub title_ciphertext : List ℕ
  pub title_nonce : List ℕ
  pub metadata_ciphertext : List ℕ
  pub metadata_nonce : List ℕ
  pub payload_ciphertext : List ℕ
  pub payload_nonce : List ℕ
  pub blob_id : Option String
  pub checksum : List ℕ

pub record CreateOutput : Type 0 where
  pub item_id : String
  pub version : ℕ
  pub server_revision : ℕ

pub record UpdateInput : Type 0 where
  pub title_ciphertext : List ℕ
  pub title_nonce : List ℕ
  pub metadata_ciphertext : List ℕ
  pub metadata_nonce : List ℕ
  pub payload_ciphertext : List ℕ
  pub payload_nonce : List ℕ
  pub blob_id : Option String
  pub checksum : List ℕ

pub record UpdateOutput : Type 0 where
  pub new_version : ℕ
  pub server_revision : ℕ

pub record DeleteOutput : Type 0 where
  pub new_version : ℕ
  pub server_revision : ℕ
