-- ===== src/Blob/Start.antt =====
-- StartBlobUpload of internal/server/grpcserver/blob_handler.go.
use goph_keeper.Common.{
  ℕ, ◌+◌, ◌*◌, ◌-◌, ◌/◌, ◌%◌, ◌^◌, String, not, Option, none, some, List, if◌then◌else◌, str_eq,
  ltb, length,
}
use goph_keeper.Common.Text.{trim_space, concat}
use goph_keeper.Server.Error.{status, unauthenticated, invalid_argument, internal}
use goph_keeper.Server.Exec.{Exec, ◌>>=◌, ◌>>◌, pure, guard, found, on_error, now, new_uuid}
use goph_keeper.Blob.Types.{Blob, UploadSession, pending, session_open}
use goph_keeper.Blob.UploadStore.{start_session}
use goph_keeper.Blob.Handler.{BlobHandler}

pub record StartBlobUploadRequest : Type 0 where
  pub expected_size : ℕ
  pub expected_checksum : List ℕ
  pub content_kind : String
  pub file_name : String
  pub mime_type : String

pub record StartBlobUploadResponse : Type 0 where
  pub upload_session_id : String
  pub blob_id : String
  pub max_chunk_size : ℕ
  pub expires_at : ℕ

-- a text field that is unset when it is blank
abbrev trimmed : String → Option String
trimmed s = if str_eq (trim_space s) "" then none else some (trim_space s)

-- time.Hour, in nanoseconds
abbrev hour : ℕ
hour = 3600000000000

-- t.Add(time.Duration(n) * time.Hour): a Duration is a signed number of 64 bits, so the product wraps. A
-- time before 1970 counts as 1970.
abbrev add_hours : ℕ → ℕ → ℕ
add_hours at n =
    let d = n * hour % 2 ^ 64 in if ltb d (2 ^ 63) then at + d / 1000 else at - (2 ^ 64 - d) / 1000

abbrev pub pending_blob : String → String → StartBlobUploadRequest → ℕ → Blob
pending_blob user_id blob_id req at = record {
  blob_id = blob_id;
  user_id = user_id;
  object_key = concat "users/" (concat user_id (concat "/blobs/" blob_id));
  size_bytes = req.expected_size;
  checksum = req.expected_checksum;
  content_kind = trim_space req.content_kind;
  file_name = trimmed req.file_name;
  mime_type = trimmed req.mime_type;
  status = pending;
  created_at = at;
  committed_at = none;
  deleted_at = none;
  failed_at = none;
}

abbrev pub open_session : String → String → String → StartBlobUploadRequest → ℕ → ℕ → UploadSession
open_session user_id blob_id session_id req at expires = record {
  upload_session_id = session_id;
  blob_id = blob_id;
  user_id = user_id;
  expected_size = req.expected_size;
  expected_checksum = req.expected_checksum;
  received_size = 0;
  status = session_open;
  expires_at = expires;
  created_at = at;
  updated_at = at;
}

start_checked : BlobHandler → String → StartBlobUploadRequest → Exec StartBlobUploadResponse
start_checked h user_id req = do
  guard h.configured (status internal)
  guard (ltb 0 h.upload_session_ttl_hours) (status internal)
  guard (not (ltb h.max_blob_size_bytes req.expected_size)) (status invalid_argument)
  guard (ltb 0 (length req.expected_checksum)) (status invalid_argument)
  guard (not (str_eq (trim_space req.content_kind) "")) (status invalid_argument)
  guard (ltb 0 h.max_chunk_size_bytes) (status internal)
  blob_id ← new_uuid
  session_id ← new_uuid
  at ← now
  let expires = add_hours at h.upload_session_ttl_hours
  on_error
      (start_session (pending_blob user_id blob_id req at)
        (open_session user_id blob_id session_id req at expires))
      (λ _. status internal)
  pure (record {
    upload_session_id = session_id;
    blob_id = blob_id;
    max_chunk_size = h.max_chunk_size_bytes;
    expires_at = expires;
  })

unfoldable pub start_blob_upload :
    BlobHandler → Option String → Option StartBlobUploadRequest → Exec StartBlobUploadResponse
unfolding start_checked
start_blob_upload h auth req = do
  user_id ← found auth (status unauthenticated)
  r ← found req (status invalid_argument)
  start_checked h user_id r
