-- ===== src/Server/Db.antt =====
-- apps/server/src/api/db: the tables of the schema, the statements that the program sends, and the
-- connection that runs them.
mod Schema
mod Connection
pub mod Users
pub mod Projects
pub mod Releases
pub mod Invites
pub mod Keeping
pub mod Inserts
pub mod Keyed
pub mod Removing
pub mod Enrolled
pub mod Redeeming
pub mod Redeemed
pub mod SingleUse
pub mod Lost
unfoldable pub use Schema.*
unfoldable pub use Connection.*
