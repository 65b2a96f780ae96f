-- ===== src/Auth/Types.antt =====
-- internal/server/auth/types.go and the inputs and outputs of service.go. The numbers of the key
-- derivation are the 32 bits of an int32, a platform the 16 bits of an int16.
use goph_keeper.Common.{ℕ, String, Option, List}

pub record User : Type 0 where
  pub user_id : String
  pub login : String
  pub password_hash : List ℕ
  pub password_salt : List ℕ
  pub kdf_algorithm : String
  pub kdf_memory_kib : ℕ
  pub kdf_iterations : ℕ
  pub kdf_parallelism : ℕ
  pub kdf_key_length : ℕ
  pub encrypted_vault_key : List ℕ
  pub encrypted_vault_key_nonce : List ℕ

pub record Device : Type 0 where
  pub device_id : String
  pub user_id : String
  pub device_name : String
  pub platform : ℕ
  pub client_version : String

pub record Session : Type 0 where
  pub token_id : String
  pub user_id : String
  pub device_id : String
  pub token_hash : List ℕ
  pub expires_at : ℕ

-- a row of `devices`
pub record DeviceRecord : Type 0 where
  pub device_id : String
  pub user_id : String
  pub device_name : String
  pub platform : ℕ
  pub client_version : String
  pub created_at : ℕ
  pub last_seen_at : ℕ
  pub revoked_at : Option ℕ

-- a row of `refresh_tokens`
pub record RefreshRow : Type 0 where
  pub token_id : String
  pub user_id : String
  pub device_id : String
  pub token_hash : List ℕ
  pub issued_at : ℕ
  pub expires_at : ℕ
  pub revoked_at : Option ℕ

pub record RegisterInput : Type 0 where
  pub login : String
  pub password : String
  pub password_salt : List ℕ
  pub kdf_algorithm : String
  pub kdf_memory_kib : ℕ
  pub kdf_iterations : ℕ
  pub kdf_parallelism : ℕ
  pub kdf_key_length : ℕ
  pub encrypted_vault_key : List ℕ
  pub encrypted_vault_key_nonce : List ℕ
  pub device_id : String
  pub device_name : String
  pub platform : ℕ
  pub client_version : String

pub record RegisterOutput : Type 0 where
  pub user_id : String
  pub login : String
  pub device_id : String
  pub access_token : String
  pub refresh_token : String

pub record LoginInput : Type 0 where
  pub login : String
  pub password : String
  pub device_id : String
  pub device_name : String
  pub platform : ℕ
  pub client_version : String

pub record LoginOutput : Type 0 where
  pub user_id : String
  pub login : String
  pub device_id : String
  pub access_token : String
  pub refresh_token : String
  pub password_salt : List ℕ
  pub kdf_algorithm : String
  pub kdf_memory_kib : ℕ
  pub kdf_iterations : ℕ
  pub kdf_parallelism : ℕ
  pub kdf_key_length : ℕ
  pub encrypted_vault_key : List ℕ
  pub encrypted_vault_key_nonce : List ℕ

pub record RefreshInput : Type 0 where
  pub refresh_token : String
  pub device_id : String

pub record RefreshOutput : Type 0 where
  pub access_token : String
  pub refresh_token : String
