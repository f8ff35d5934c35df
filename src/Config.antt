-- ===== src/Config.antt =====
-- Package config.
pub mod Defs
pub mod Quota
pub mod Filter
pub mod Blackout
pub mod Validate
pub mod Setters
pub mod Handlers
pub mod Environment
pub mod Load
pub mod Save
pub mod Watcher
