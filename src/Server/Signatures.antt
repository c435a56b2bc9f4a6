-- ===== src/Server/Signatures.antt =====
-- apps/server/src/api/auth.rs: the signature check, the replay map and the body hash.
mod Headers
mod Checks
pub mod Authentic
pub mod Accepted
pub mod Signed
pub mod Credible
pub mod Replay
pub mod Raced
unfoldable pub use Headers.*
unfoldable pub use Checks.*
