-- ===== src/Auth.antt =====
-- internal/server/auth, its PostgreSQL repositories and its gRPC handlers.
pub mod Types
pub mod Repository
pub mod Access
pub mod Service
pub mod Frame
pub mod Spent
pub mod Handler
pub mod Devices
pub mod Registered
pub mod Revoked
pub mod Gate
