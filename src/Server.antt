-- ===== src/Server.antt =====
-- The state that the server's code shares, its errors, and the form of its methods.
pub mod Error
pub mod State
pub mod Exec
pub mod Steps
pub mod Keeps
pub mod Transaction
pub mod Frame
pub mod Ensures
pub mod Fails
