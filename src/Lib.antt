-- ===== src/Lib.antt =====
-- A model of GophKeeper, a password manager of a server and a client, and the theorems that it meets.
--
-- The server keeps encrypted vault items in PostgreSQL and large payloads as objects of an S3 storage.
-- Clients change items through an engine that gives each change a version of the item, a revision of
-- the user's log and a processed operation; the sync API applies the operations a client pushes, each
-- in a transaction, and returns the revisions it has not seen, in pages. The upload API receives a blob
-- in chunks, stores it and commits it; a background job removes uploads that expired. A user registers
-- and logs in from a device, and holds a short access token and a refresh token that each use replaces.
--
-- Server models what the code runs on. Server.State has the tables of migrations/server, the objects
-- and the environment: which call of the driver or of the object storage fails, the readings of the
-- clock and the identifiers that are made. A method is an Exec: it takes the server's state to a result
-- or an error, and a new state, so that what it wrote before an error is seen. Server.Transaction is a
-- transaction of database/sql: an error rolls the tables back, but not the sequence of revisions.
-- Server.Steps, Server.Keeps, Server.Frame, Server.Ensures and Server.Fails have the rules by which a
-- method is followed, an invariant is carried and a postcondition is composed.
--
-- Vault models internal/server/vault/types.go (Types), engine.go (Engine),
-- internal/server/storage/postgres/vault_repositories.go (Repository), vault_engine_tx.go (Tx) and
-- internal/server/grpcserver/vault_payload.go (Payload). Vault.Listing is ListItems of the repository
-- and of the engine, Vault.Handler is internal/server/grpcserver/vault_handler.go, which calls the
-- engine without a transaction. Vault.Consistency says how the tables agree, Vault.Isolation what a
-- call of one user leaves of another, and Vault.Atomic what a change in a transaction leaves.
--
-- Blob models internal/server/blob (Types, Storage), blob_insert.go, blob_repositories.go and
-- upload_store.go of internal/server/storage/postgres (Repository, UploadStore), and of
-- internal/server/grpcserver/blob_handler.go the calls StartBlobUpload (Start), UploadBlob (Chunks,
-- Upload), CommitBlobUpload (Commit) and DownloadBlob (Download). Blob.Stored says what the first three
-- leave of a blob. Blob.Cleanup is upload_session_cleanup.go of the same storage folder and of
-- internal/server/jobs.
--
-- Auth models internal/server/auth (Types, Service, and the access tokens of Access),
-- auth_repositories.go of internal/server/storage/postgres (Repository), and of
-- internal/server/grpcserver auth_handler.go (Handler), device_handler.go and device_platform.go
-- (Devices), and interceptor_auth.go with auth_context.go (Access). Auth.Frame carries an invariant of
-- the statements on its tables through every call of the two APIs.
--
-- Sync models revision_list.go and revision_snapshot.go of internal/server/storage/postgres
-- (Revisions) and internal/server/grpcserver/sync_handler.go (Push, Handler).
--
-- Config models internal/server/config: Load over an environment that is a function.
--
-- Client models internal/client. The client encrypts what it sends under a key that only the user's
-- password unwraps, keeps items, account and unsent operations in an SQLite database, and exchanges
-- them with the server. Client.Types is model, Client.Storage storage/sqlite_storage.go with the tables
-- of migrations/client, Client.Crypto crypto, and of app Client.App is app.go, Client.Vault and
-- Client.Files vault.go, Client.Auth auth.go and Client.Sync sync.go. A client method is an Exec of
-- Client.Run over the storage or over the application, which holds the storage, the generator of random
-- bytes and a server of any type; Client.Link is the connection to the server of this model, so that
-- Client.Account, Client.Sent, Client.Fetched, Client.Uploads and Client.Uploaded state what the two
-- programs do together. Client.Steps takes a run that succeeded apart; Client.Items, Client.Saved,
-- Client.Saves, Client.Sealed, Client.Added, Client.Unlocked and Client.Applied have the theorems of
-- the parts.
--
-- Common has lists and tests over the native numbers, the statements that the repositories make of a
-- table and their laws, and the parts of Go's strings and strconv that the code uses. Examples runs
-- the model.
--
-- Numbers are natural numbers; a uint64 sum or successor that could wrap is taken modulo 2^64, and a
-- number that does not fit BIGINT makes the statement fail. A time is a number of microseconds, as
-- PostgreSQL keeps it. Loops recurse on their lists; the loop of the clean-up runs on fuel, one more
-- than there are blobs is enough, and so does the client's loop over the chunks of a file, with a round
-- for each byte, since a round sends one byte or more. An empty byte slice is one that is nil, so that a
-- column of bytes that is NOT NULL refuses it; a text has no NUL character. A handler's
-- log lines and error messages are left out; of an error the gRPC code is kept. The user id of a call is
-- what the authentication interceptor found. Calls run one after another: two transactions that
-- interleave are not modelled, nor is the loss of a connection in the middle of a COMMIT. sha256,
-- bcrypt and the JWT library are fields of the configuration, any functions; so are the collation of the
-- database and its to_timestamp. So are, for the client, XChaCha20-Poly1305, Argon2id and SHA-256. A
-- panic of the client is an error, and a text of the environment is UTF-8.
--
-- Not modelled: the lock of an upload session, the logging and recovery interceptors and the S3
-- adapter, which only call libraries; of the client the gRPC transport, the opening of the database and
-- the command line, which are calls of libraries and printing; the generated protobuf code and the mocks.
pub mod Common
pub mod Server
pub mod Vault
pub mod Blob
pub mod Sync
pub mod Auth
pub mod Client
pub mod Config
pub mod Examples
