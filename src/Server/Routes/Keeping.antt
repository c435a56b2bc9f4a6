-- ===== src/Server/Routes/Keeping.antt =====
-- What every handler keeps: a predicate of the tables that the methods of `Db` keep.
mod Rules
mod Admin
mod Uploads
pub use Rules.*
pub use Admin.{whoami_in-HandlerKeeps, list_projects-HandlerKeeps}
pub use Uploads.*
