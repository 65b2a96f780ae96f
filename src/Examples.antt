-- ===== src/Examples.antt =====
-- Runs of the model at concrete inputs.
mod Data
mod Vaults
mod Blobs
mod Syncs
mod Auths
mod Listings
mod Cleanups
mod Downloads
mod Clients
mod Configs
mod Accounts
mod Files
