-- ===== src/State/Limits.antt =====
-- state/limits_applier.go, with the PSI boosts and `Cleanup` of state/manager.go: the operations
-- that change which users are limited.
pub mod Jobs
pub mod Frame
pub mod Invariant
pub mod Members
pub mod Restored
pub mod Share
pub mod Activate
pub mod Idle
pub mod Deactivate
