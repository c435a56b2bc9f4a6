-- ===== src/Manifest.antt =====
-- packages/manifest: the model of a manifest, references, and validation.
pub mod Model
pub mod Reference
pub mod Validate
pub mod Parse
