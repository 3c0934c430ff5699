-- ===== src/Config.antt =====
-- src/config/mod.rs: keys and pools, the model routing, and the validation.
pub mod KeyEntry
pub mod Routing
pub mod Validate
pub mod Metadata
