-- ===== src/Server/Routes.antt =====
-- apps/server/src/api/routes.rs: the handlers, and the two routers that call them.
mod Names
mod Handlers
mod ReleaseHandlers
mod Router
pub mod Keeping
pub mod Soundness
pub mod Confinement
pub mod Authenticated
unfoldable pub use Names.*
unfoldable pub use Handlers.*
unfoldable pub use ReleaseHandlers.*
unfoldable pub use Router.*
