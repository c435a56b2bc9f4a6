-- ===== src/Client/Commands.antt =====
-- apps/cli/src/commands: the commands but `init` and `login`.
pub mod Link
pub mod Whoami
pub mod User
pub mod Up
pub mod Confined
pub mod Unconfirmed
