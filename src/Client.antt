-- ===== src/Client.antt =====
-- The client, internal/client: its local storage, its cryptography and the operations of the
-- application, which call the server.
pub mod Run
pub mod Types
pub mod Storage
pub mod App
pub mod Crypto
pub mod Vault
pub mod Auth
pub mod Sync
pub mod Files
pub mod Steps
pub mod Items
pub mod Saved
pub mod Sealed
pub mod Added
pub mod Link
pub mod Unlocked
pub mod Account
pub mod Sent
pub mod Applied
pub mod Fetched
pub mod Uploads
pub mod Uploaded
pub mod Saves
