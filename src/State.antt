-- ===== src/State.antt =====
-- Package state.
pub mod Defs
pub mod Tracker
pub mod Decision
pub mod Manager
pub mod Limits
pub mod IoRemediation
pub mod Policy
pub mod PatternDetector
pub mod Psi
pub mod History
pub mod Cycle
