-- ===== src/Server/State.antt =====
-- What the server's code acts on: the PostgreSQL tables of migrations/server, the objects of the
-- object storage, and its environment. The environment says which call of the driver or of the
-- object storage fails, what each reading of the clock returns and which identifiers
-- uuid.NewString and auth.NewRefreshToken make; the four counters say how far each has been used.
use goph_keeper.Common.{ℕ, String, List, Bool, false, ◌≡◌}
use goph_keeper.Vault.Types.{Item, RevisionLogEntry, ProcessedOperation}
use goph_keeper.Blob.Types.{Blob, UploadSession}
use goph_keeper.Auth.Types.{User, DeviceRecord, RefreshRow}

pub record Db : Type 0 where
  pub vault_items : List Item
  pub revision_log : List RevisionLogEntry
  -- the sequence of revision_log.revision_id
  pub next_revision : ℕ
  pub processed_operations : List ProcessedOperation
  pub blobs : List Blob
  pub upload_sessions : List UploadSession
  pub users : List User
  pub devices : List DeviceRecord
  pub refresh_tokens : List RefreshRow

pub record Env : Type 0 where
  pub fault : ℕ → Bool
  pub calls : ℕ
  pub times : ℕ → ℕ
  pub reads : ℕ
  pub uuid : ℕ → String
  pub ids : ℕ
  -- what NewRefreshToken makes
  pub token : ℕ → String
  pub tokens : ℕ

pub record Object : Type 0 where
  pub object_key : String
  pub content : List ℕ
  pub content_type : String

pub record Server : Type 0 where
  pub db : Db
  pub open db use *
  pub objects : List Object
  pub env : Env

-- No call of the driver or of the object storage fails.
abbrev pub IsReliable : Server → Type 0
IsReliable s = (n : ℕ) → s.env.fault n ≡ false
