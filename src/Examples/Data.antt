-- ===== src/Examples/Data.antt =====
-- The server, the configurations and the requests that the examples use.
use goph_keeper.Common.{ℕ, ◌+◌, true, false, none, some, [], ◌∷◌}
use goph_keeper.Common.Text.{format_uint}
use goph_keeper.Server.State.{Db, Env, Server}
use goph_keeper.Vault.Types.{Item, CreateInput, UpdateInput, RevisionLogEntry, updated}
use goph_keeper.Vault.Payload.{PayloadConfig}
use goph_keeper.Vault.Consistency.{IsConsistent}
use goph_keeper.Blob.Types.{Blob, committed}
use goph_keeper.Blob.Handler.{BlobHandler}
use goph_keeper.Blob.Start.{StartBlobUploadRequest}
use goph_keeper.Sync.Revisions.{RevisionEventRow}
use goph_keeper.Sync.Handler.{PullChangesRequest, PullChangesResponse}
use goph_keeper.Sync.Push.{PendingOperation, type_create}

-- The clock and the identifiers count upwards, and no call fails.
abbrev pub quiet_env : Env
quiet_env = record {
  fault = λ n. false;
  calls = 0;
  times = λ n. 1000 + n;
  reads = 0;
  uuid = λ n. format_uint n;
  ids = 0;
  token = λ n. format_uint n;
  tokens = 0;
}

abbrev pub empty_db : Db
empty_db = record {
  vault_items = [];
  revision_log = [];
  next_revision = 1;
  processed_operations = [];
  blobs = [];
  upload_sessions = [];
  users = [];
  devices = [];
  refresh_tokens = [];
}

abbrev pub empty_server : Server
empty_server = record { db = empty_db; objects = []; env = quiet_env }

pub empty-IsConsistent : IsConsistent empty_db
empty-IsConsistent = record { unique = tt; numbered = tt; logged = tt; processed_below = tt }

abbrev pub login_input : CreateInput
login_input = record {
  item_type = 1;
  title_ciphertext = 7 ∷ [];
  title_nonce = 1 ∷ [];
  metadata_ciphertext = 8 ∷ [];
  metadata_nonce = 2 ∷ [];
  payload_ciphertext = 9 ∷ [];
  payload_nonce = 3 ∷ [];
  blob_id = none;
  checksum = [];
}

abbrev pub new_password : UpdateInput
new_password = record {
  title_ciphertext = 7 ∷ [];
  title_nonce = 4 ∷ [];
  metadata_ciphertext = 8 ∷ [];
  metadata_nonce = 5 ∷ [];
  payload_ciphertext = 10 ∷ [];
  payload_nonce = 6 ∷ [];
  blob_id = none;
  checksum = [];
}

abbrev pub login_item : Item
login_item = record {
  item_id = "login";
  user_id = "ann";
  item_type = 1;
  title_ciphertext = 7 ∷ [];
  title_nonce = 1 ∷ [];
  metadata_ciphertext = 8 ∷ [];
  metadata_nonce = 2 ∷ [];
  payload_ciphertext = 9 ∷ [];
  payload_nonce = 3 ∷ [];
  blob_id = none;
  version = 4;
  checksum = [];
  created_at = 10;
  updated_at = 20;
  deleted_at = none;
}

-- One item, made and changed by operations that were processed.
abbrev pub login_server : Server
login_server = record empty_server {
  db = record empty_db {
    vault_items = login_item ∷ [];
    next_revision = 9;
    processed_operations =
        record { user_id = "ann"; operation_id = "old"; item_id = "login"; revision_id = 8 } ∷ [];
  };
}

abbrev entry_of : ℕ → RevisionLogEntry
entry_of n = record {
  revision_id = n;
  user_id = "ann";
  operation_id = none;
  item_id = "login";
  change_type = updated;
  item_version = n;
  changed_at = n;
}

abbrev pub logged_db : Db
logged_db = record empty_db {
  vault_items = login_item ∷ [];
  revision_log = entry_of 4 ∷ (entry_of 3 ∷ (entry_of 2 ∷ (entry_of 1 ∷ [])));
  next_revision = 5;
}

abbrev pub logged_server : Server
logged_server = record empty_server { db = logged_db }

-- pages of two rows, after the first revision
abbrev pub first_pages : PullChangesRequest
first_pages = record { since_revision = 0; page_token = " 1 "; page_size = 2 }

abbrev row_of : ℕ → RevisionEventRow
row_of n = record {
  revision_id = n;
  item_id = "login";
  change_type = updated;
  item_version = n;
  changed_at = n;
  item = some login_item;
}

abbrev pub first_answer : PullChangesResponse
first_answer = record {
  changes = row_of 2 ∷ (row_of 3 ∷ []);
  new_server_revision = 4;
  next_page_token = "3";
}

abbrev pub payload_config : PayloadConfig
payload_config = record {
  configured = true;
  grpc_max_message_bytes = 4000000;
  max_blob_size_bytes = 1000000;
  inline_threshold_bytes = 2;
  sha256 = λ bytes. bytes;
}

abbrev pub login_operation : PendingOperation
login_operation = record {
  operation_id = "first";
  operation_type = type_create;
  item_id = "";
  expected_version = 0;
  snapshot = some (record {
    item_type = 1;
    title = some (record { ciphertext = 7 ∷ []; nonce = 1 ∷ [] });
    metadata = some (record { ciphertext = 8 ∷ []; nonce = 2 ∷ [] });
    payload = some (record { ciphertext = 1 ∷ (2 ∷ (3 ∷ [])); nonce = 3 ∷ [] });
    blob_id = "";
  });
}

abbrev pub photo : Blob
photo = record {
  blob_id = "photo";
  user_id = "ann";
  object_key = "users/ann/blobs/photo";
  size_bytes = 3;
  checksum = 1 ∷ [];
  content_kind = "image";
  file_name = none;
  mime_type = none;
  status = committed;
  created_at = 10;
  committed_at = some 20;
  deleted_at = none;
  failed_at = none;
}

abbrev pub photo_server : Server
photo_server = record empty_server { db = record empty_db { blobs = photo ∷ [] } }

abbrev pub blob_handler : BlobHandler
blob_handler = record {
  configured = true;
  upload_session_ttl_hours = 1;
  max_blob_size_bytes = 100;
  max_chunk_size_bytes = 2;
  sha256 = λ bytes. bytes;
}

abbrev pub scan_request : StartBlobUploadRequest
scan_request = record {
  expected_size = 3;
  expected_checksum = 5 ∷ (6 ∷ (7 ∷ []));
  content_kind = "scan";
  file_name = "";
  mime_type = "";
}
