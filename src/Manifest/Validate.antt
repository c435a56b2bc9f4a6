-- ===== src/Manifest/Validate.antt =====
-- packages/manifest/src/validate.rs: the errors of a manifest. A check returns the errors that the
-- source pushes, in the order in which it pushes them.
pub mod Names
pub mod Services
pub mod Accepted
pub mod Cycle
pub mod Whole
