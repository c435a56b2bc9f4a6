-- ===== src/Client.antt =====
-- apps/cli/src: the command line client.
pub mod Paths
pub mod Machine
pub mod Config
pub mod Signing
pub mod Http
pub mod Resolve
pub mod Lowercase
pub mod Login
pub mod Init
pub mod Commands
