-- ===== src/Sync.antt =====
-- internal/server/grpcserver/sync_handler.go and the statements it makes of the revision log.
pub mod Revisions
pub mod Push
pub mod Handler
pub mod Consistent
pub mod Paging
pub mod Pages
