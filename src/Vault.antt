-- ===== src/Vault.antt =====
-- internal/server/vault and its PostgreSQL repositories (internal/server/storage/postgres).
pub mod Types
pub mod Repository
pub mod Engine
pub mod Tx
pub mod Outcome
pub mod Payload
pub mod Needs
pub mod Races
pub mod Consistency
pub mod Sequence
pub mod Listing
pub mod Handler
pub mod Isolation
pub mod Atomic
