-- ===== src/Client/Resolve.antt =====
-- apps/cli/src/resolve.rs: which project and which server a command acts on.
pub mod Manifests
pub mod Servers
pub mod Offer
pub mod Walk
