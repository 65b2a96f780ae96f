-- ===== src/Vault/Payload.antt =====
-- internal/server/grpcserver/vault_payload.go: where the payload of a vault item is kept.
use goph_keeper.Common.{
  ℕ, ◌*◌, ◌-◌, String, Bool, true, ◌&&◌, not, Option, none, some, List, [], if◌then◌else◌, str_eq,
  ltb, leb, ◌==◌, length,
}
use goph_keeper.Common.Text.{trim_space, concat}
use goph_keeper.Server.Error.{
  Error, status, invalid_argument, internal, err_blob_not_found, err_object_not_found,
}
use goph_keeper.Server.Exec.{
  Exec, ◌>>=◌, ◌>>◌, pure, raise, guard, found, catch, on_error, ignore, now, new_uuid,
}
use goph_keeper.Blob.Types.{Blob, committed, status_eq}
use goph_keeper.Blob.Repository.{exec_insert_blob, get_by_id}
use goph_keeper.Blob.Storage.{put_object, get_object, delete_object}
use goph_keeper.Vault.Repository.{is_null}
use goph_keeper.Vault.Engine.{is_blank}

pub record EncryptedField : Type 0 where
  pub ciphertext : List ℕ
  pub nonce : List ℕ

-- Whether the configuration, the blob repository and the object storage are set, the limits of the
-- configuration, and sha256.Sum256.
pub record PayloadConfig : Type 0 where
  pub configured : Bool
  pub grpc_max_message_bytes : ℕ
  pub max_blob_size_bytes : ℕ
  pub inline_threshold_bytes : ℕ
  pub sha256 : List ℕ → List ℕ

abbrev pub vault_grpc_proto_reserve_bytes : ℕ
vault_grpc_proto_reserve_bytes = 512 * 1024

unfoldable pub effective_max_payload_ciphertext_bytes : PayloadConfig → ℕ
effective_max_payload_ciphertext_bytes cfg =
    let grpc_budget = cfg.grpc_max_message_bytes - vault_grpc_proto_reserve_bytes in
    if leb cfg.grpc_max_message_bytes vault_grpc_proto_reserve_bytes
    then 0
    else if ltb cfg.max_blob_size_bytes grpc_budget
    then cfg.max_blob_size_bytes
    else grpc_budget

abbrev pub encrypted_field_empty : Option EncryptedField → Bool
encrypted_field_empty none = true
encrypted_field_empty (some f) = length f.ciphertext == 0 && length f.nonce == 0

-- The results of resolveVaultPayload; a nil slice is an empty list.
pub record ResolvedPayload : Type 0 where
  pub payload_ciphertext : List ℕ
  pub payload_nonce : List ℕ
  pub blob_id : Option String
  pub checksum : List ℕ

abbrev lookup_error : Error → Error
lookup_error err_blob_not_found = status invalid_argument
lookup_error _ = status internal

abbrev stat_error : Error → Error
stat_error err_object_not_found = status invalid_argument
stat_error _ = status internal

-- An object's size is not negative, so the test of a negative one is left out.
unfoldable pub resolve_reference :
    PayloadConfig → String → Option EncryptedField → String → Exec ResolvedPayload
unfolding effective_max_payload_ciphertext_bytes
resolve_reference cfg user_id payload blob_id = do
  guard (encrypted_field_empty payload) (status invalid_argument)
  b ← on_error (get_by_id user_id blob_id) lookup_error
  guard (status_eq b.status committed) (status invalid_argument)
  guard (is_null b.deleted_at) (status invalid_argument)
  guard (not (is_blank b.object_key)) (status invalid_argument)
  o ← on_error (get_object b.object_key) stat_error
  guard (length o.content == b.size_bytes) (status invalid_argument)
  guard (leb (length o.content) (effective_max_payload_ciphertext_bytes cfg))
      (status invalid_argument)
  pure (record {
    payload_ciphertext = [];
    payload_nonce = [];
    blob_id = some blob_id;
    checksum = b.checksum;
  })

abbrev pub payload_blob : PayloadConfig → String → String → List ℕ → ℕ → Blob
payload_blob cfg user_id blob_id ct at = record {
  blob_id = blob_id;
  user_id = user_id;
  object_key = concat "users/" (concat user_id (concat "/blobs/" blob_id));
  size_bytes = length ct;
  checksum = cfg.sha256 ct;
  content_kind = "application/octet-stream";
  file_name = none;
  mime_type = none;
  status = committed;
  created_at = at;
  committed_at = some at;
  deleted_at = none;
  failed_at = none;
}

-- A large ciphertext is one object, and a committed blob.
unfoldable pub upload_payload : PayloadConfig → String → List ℕ → Exec ResolvedPayload
upload_payload cfg user_id ct = do
  blob_id ← new_uuid
  let object_key = concat "users/" (concat user_id (concat "/blobs/" blob_id))
  on_error (put_object object_key ct "application/octet-stream") (λ _. status internal)
  at ← now
  catch (exec_insert_blob (payload_blob cfg user_id blob_id ct at))
      λ _. do ignore (delete_object object_key); raise (status internal)
  pure (record {
    payload_ciphertext = [];
    payload_nonce = [];
    blob_id = some blob_id;
    checksum = cfg.sha256 ct;
  })

abbrev inline_payload : EncryptedField → ResolvedPayload
inline_payload payload = record {
  payload_ciphertext = payload.ciphertext;
  payload_nonce = payload.nonce;
  blob_id = none;
  checksum = [];
}

unfoldable pub resolve_field : PayloadConfig → String → EncryptedField → Exec ResolvedPayload
unfolding upload_payload effective_max_payload_ciphertext_bytes
resolve_field cfg user_id payload = do
  guard (ltb 0 (length payload.ciphertext)) (status invalid_argument)
  guard (ltb 0 (length payload.nonce)) (status invalid_argument)
  guard (leb (length payload.ciphertext) (effective_max_payload_ciphertext_bytes cfg))
      (status invalid_argument)
  (if leb (length payload.ciphertext) cfg.inline_threshold_bytes
      then pure (inline_payload payload)
      else upload_payload cfg user_id payload.ciphertext)

unfoldable pub resolve_vault_payload :
    PayloadConfig → String → Option EncryptedField → String → Exec ResolvedPayload
unfolding resolve_reference resolve_field
resolve_vault_payload cfg user_id payload blob_id_req = do
  guard cfg.configured (status internal)
  (if not (str_eq (trim_space blob_id_req) "")
      then resolve_reference cfg user_id payload (trim_space blob_id_req)
      else (do f ← found payload (status invalid_argument); resolve_field cfg user_id f))
