-- ===== src/Blob/Types.antt =====
-- internal/server/blob/types.go and upload.go: blob metadata and upload sessions.
use goph_keeper.Common.{ℕ, String, Option, List, Bool, true, false}

pub data Status : Type 0 where
  unspecified pending uploading committed failed deleted : Status

abbrev pub status_eq : Status → Status → Bool
status_eq Status.unspecified Status.unspecified = true
status_eq pending pending = true
status_eq uploading uploading = true
status_eq committed committed = true
status_eq failed failed = true
status_eq deleted deleted = true
status_eq _ _ = false

pub record Blob : Type 0 where
  pub blob_id : String
  pub user_id : String
  pub object_key : String
  pub size_bytes : ℕ
  pub checksum : List ℕ
  pub content_kind : String
  pub file_name : Option String
  pub mime_type : Option String
  pub status : Status
  pub created_at : ℕ
  pub committed_at : Option ℕ
  pub deleted_at : Option ℕ
  pub failed_at : Option ℕ

pub data UploadSessionStatus : Type 0 where
  session_open session_awaiting_commit : UploadSessionStatus

abbrev pub session_status_eq : UploadSessionStatus → UploadSessionStatus → Bool
session_status_eq session_open session_open = true
session_status_eq session_awaiting_commit session_awaiting_commit = true
session_status_eq _ _ = false

pub record UploadSession : Type 0 where
  pub upload_session_id : String
  pub blob_id : String
  pub user_id : String
  pub expected_size : ℕ
  pub expected_checksum : List ℕ
  pub received_size : ℕ
  pub status : UploadSessionStatus
  pub expires_at : ℕ
  pub created_at : ℕ
  pub updated_at : ℕ
