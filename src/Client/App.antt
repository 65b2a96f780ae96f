-- ===== src/Client/App.antt =====
-- internal/client/app/app.go, and what the application calls: the local storage, the generator of
-- random bytes and the server. The server is a state of some type `R` and the methods of the gRPC
-- clients, which act on it.
use goph_keeper.Common.{ℕ, ◌+◌, String, Option, List, []}
use goph_keeper.Blob.Types.{Status}
use goph_keeper.Blob.Chunks.{UploadMessage}
use goph_keeper.Blob.Download.{Download}
use goph_keeper.Blob.Start.{StartBlobUploadRequest, StartBlobUploadResponse}
use goph_keeper.Auth.Types.{RegisterInput, LoginInput}
use goph_keeper.Sync.Revisions.{RevisionEventRow}
use goph_keeper.Sync.Push.{Conflict}
use goph_keeper.Sync.Handler.{SyncRequest}
use goph_keeper.Vault.Types.{ChangeType}
use goph_keeper.Vault.Handler.{VaultItem, to_proto_item}
use goph_keeper.Client.Types.{AuthState, SyncState}
use goph_keeper.Client.Run.{Result, ok, random_failure, Exec, ◌>>=◌, or_error}
use goph_keeper.Client.Storage.{Storage, load, load_sync}
use mathlib.Core.Option

-- The responses, with the fields that the client reads; a user is its id.
pub record RegisterResponse : Type 0 where
  pub user : Option String
  pub access_token : String
  pub refresh_token : String
  pub device_id : String

pub record LoginResponse : Type 0 where
  pub user : Option String
  pub access_token : String
  pub refresh_token : String
  pub device_id : String
  pub password_salt : List ℕ
  pub encrypted_vault_key : List ℕ
  pub encrypted_vault_key_nonce : List ℕ

pub record RevisionEvent : Type 0 where
  pub change_type : ChangeType
  pub item : Option VaultItem

-- revisionRowsToProto of the server, for one row
unfoldable pub revision_event : RevisionEventRow → RevisionEvent
unfolding to_proto_item
revision_event r = record { change_type = r.change_type; item = Option.map to_proto_item r.item }

pub record SyncResponse : Type 0 where
  pub conflicts : List Conflict
  pub remote_changes : List RevisionEvent
  pub new_server_revision : ℕ

-- The methods of transport.Client. `send` is one Send of the upload stream, which `close_and_recv`
-- ends; a download is what its stream's Recv returns until the end.
pub record Remote (R : Type 0) : Type 0 where
  pub register : RegisterInput → Exec R RegisterResponse
  pub login : LoginInput → Exec R LoginResponse
  pub sync : SyncRequest → Exec R SyncResponse
  pub start_blob_upload : StartBlobUploadRequest → Exec R StartBlobUploadResponse
  pub upload_blob : Exec R (Unit {0})
  pub send : UploadMessage → Exec R (Unit {0})
  pub close_and_recv : Exec R Status
  pub commit_blob_upload : String → Exec R (Option String)
  pub download_blob : String → Exec R Download

-- The application; `reads` counts the calls of rand.Read, the `k`-th of which returns
-- `random k n` for a slice of `n` bytes, or an error.
pub record App (R : Type 0) : Type 0 where
  pub client : R
  pub dek : List ℕ
  pub auth_state : AuthState
  pub sync_state : SyncState
  pub local_storage : Storage
  pub random : ℕ → ℕ → Option (List ℕ)
  pub reads : ℕ

module _ {R A : Type 0} where
  -- a method of LocalStorage
  unfoldable pub stored : Exec Storage A → Exec (App R) A
  stored m a = let (r, s) = m a.local_storage in (r, record a { local_storage = s })

  -- a method of the gRPC clients
  unfoldable pub remote : Exec R A → Exec (App R) A
  remote m a = let (r, s) = m a.client in (r, record a { client = s })

  -- a value of the application's fields
  abbrev pub field : (App R → A) → Exec (App R) A
  field f a = (ok (f a), a)

module _ {R : Type 0} where
  -- rand.Read
  unfoldable pub read_random : ℕ → Exec (App R) (List ℕ)
  read_random n a = (or_error (a.random a.reads n) random_failure, record a { reads = a.reads + 1 })

  -- an assignment to a field
  abbrev pub assign : (App R → App R) → Exec (App R) (Unit {0})
  assign f a = (ok tt, f a)

-- New, over a storage, with no key of the user
unfoldable pub new :
    {R : Type 0} → R → (ℕ → ℕ → Option (List ℕ)) → Storage → Result (App R) × Storage
new client random = do
  auth_state ← load
  sync_state ← load_sync
  λ s. (
    ok (record {
      client = client;
      dek = [];
      auth_state = auth_state;
      sync_state = sync_state;
      local_storage = s;
      random = random;
      reads = 0;
    }),
    s,
  )
