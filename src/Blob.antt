-- ===== src/Blob.antt =====
-- internal/server/blob, its PostgreSQL stores and the BlobService handler.
pub mod Types
pub mod Repository
pub mod UploadStore
pub mod Storage
pub mod Chunks
pub mod Gathered
pub mod Stored
pub mod Handler
pub mod Start
pub mod Upload
pub mod Commit
pub mod Committed
pub mod Cleanup
pub mod Download
