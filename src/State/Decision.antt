-- ===== src/State/Decision.antt =====
-- state/decision_engine.go: `makeDecision`, cut into its parts. What it reads from the collector
-- (`GetLimitedUsers`, `GetAllUserMetrics`) is an argument, and so is the clock, read once.
pub mod Defs
pub mod Branches
pub mod Release
pub mod Hysteresis
pub mod Activation
