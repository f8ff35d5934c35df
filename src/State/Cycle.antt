-- ===== src/State/Cycle.antt =====
-- state/control_cycle.go: what a control cycle measures and does.
pub mod Metrics
pub mod Run
pub mod Reach
pub mod Switch
