-- ===== src/Tests.antt =====
-- The theorems at concrete inputs.
pub mod Model
mod Decisions
mod Limits
mod Cycles
mod Settings
mod Loading
mod Machine
