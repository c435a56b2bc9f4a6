-- ===== src/Server.antt =====
-- apps/server: the API with its database, the signature check and the ingress proxy.
pub mod Db
pub mod Requests
pub mod Signatures
pub mod Minting
pub mod Archive
pub mod Routes
pub mod AdminCli
