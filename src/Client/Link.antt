-- ===== src/Client/Link.antt =====
-- A connection of the client to the server of this model: the gRPC clients of transport/grpc.go whose
-- calls run the server's handlers. The user is what the interceptors make of the token.
use goph_keeper.Common.{String, Option, some, List, [], ◌∷◌, ◌++◌, map}
use goph_keeper.Server.Error.{Result as ServerResult, ok as server_ok, err as server_err}
use goph_keeper.Server.State.{Server}
use goph_keeper.Server.Exec.{Exec as ServerExec}
use goph_keeper.Auth.Types.{RegisterOutput, LoginOutput}
use goph_keeper.Auth.Service.{AuthService}
use goph_keeper.Auth.Handler.{handle_register, handle_login}
use goph_keeper.Vault.Payload.{PayloadConfig}
use goph_keeper.Sync.Handler
use goph_keeper.Sync.Handler.{SyncRequest}
use goph_keeper.Blob.Types.{Blob}
use goph_keeper.Blob.Handler.{BlobHandler}
use goph_keeper.Blob.Chunks.{UploadMessage}
use goph_keeper.Blob.Start.{start_blob_upload}
use goph_keeper.Blob.Upload.{UploadBlobResponse, upload_blob}
use goph_keeper.Blob.Commit.{commit_blob_upload}
use goph_keeper.Blob.Download.{Reader, download_blob}
use goph_keeper.Client.Run.{Result, ok, err, rpc, Exec}
use goph_keeper.Client.App.{Remote, RegisterResponse, LoginResponse, SyncResponse, revision_event}

-- The handlers' parameters.
pub record Handlers : Type 0 where
  pub auth : AuthService
  pub payload : PayloadConfig
  pub blob : BlobHandler
  pub reader : Reader

-- The server, the user of the connection, and the messages of an upload stream that is open.
pub record Link : Type 0 where
  pub server : Server
  pub user : Option String
  pub stream : List UploadMessage

abbrev pub answer : {A B : Type 0} → (A → B) → ServerResult A → Result B
answer f (server_ok a) = ok (f a)
answer f (server_err e) = err (rpc e)

-- one call of a handler, with its response as the client sees it
unfoldable pub rpc_call : {A B : Type 0} → (Option String → ServerExec A) → (A → B) → Exec Link B
rpc_call m f l = let (r, s) = m l.user l.server in (answer f r, record l { server = s })

abbrev pub register_response : RegisterOutput → RegisterResponse
register_response out = record {
  user = some out.user_id;
  access_token = out.access_token;
  refresh_token = out.refresh_token;
  device_id = out.device_id;
}

abbrev pub login_response : LoginOutput → LoginResponse
login_response out = record {
  user = some out.user_id;
  access_token = out.access_token;
  refresh_token = out.refresh_token;
  device_id = out.device_id;
  password_salt = out.password_salt;
  encrypted_vault_key = out.encrypted_vault_key;
  encrypted_vault_key_nonce = out.encrypted_vault_key_nonce;
}

abbrev pub sync_response : Handler.SyncResponse → SyncResponse
sync_response r = record {
  conflicts = r.conflicts;
  remote_changes = map revision_event r.remote_changes;
  new_server_revision = r.new_server_revision;
}

-- The stream's messages reach the handler when it is closed.
unfoldable pub connect : Handlers → Remote Link
unfolding rpc_call
connect h = record {
  register = λ req. rpc_call (λ _. handle_register h.auth req) register_response;
  login = λ req. rpc_call (λ _. handle_login h.auth req) login_response;
  sync = λ req. rpc_call (λ user. Handler.sync h.payload user (some req)) sync_response;
  start_blob_upload = λ req. rpc_call (λ user. start_blob_upload h.blob user (some req)) (λ r. r);
  upload_blob = λ l. (ok tt, record l { stream = [] });
  send = λ m l. (ok tt, record l { stream = l.stream ++ m ∷ [] });
  close_and_recv = λ l.
      rpc_call (λ user. upload_blob h.blob user l.stream) (λ (r : UploadBlobResponse). r.status) l;
  commit_blob_upload = λ id.
      rpc_call (λ user. commit_blob_upload h.blob user (some id)) (λ (b : Blob). some b.blob_id);
  download_blob = λ id. rpc_call (λ user. download_blob h.blob h.reader user id) (λ d. d);
}
