-- ===== src/Examples.antt =====
-- A small server to run the theorems on: its crates, its tables and its requests.
pub mod Data
pub mod Toys
mod Signatures
mod Database
mod Manifests
mod Uploads
mod Hosts
mod Protocol
mod Cycles
mod Clients
mod Commands
mod Logins
