-- ===== src/Cgroup.antt =====
-- Package cgroup.
pub mod Tracking
pub mod Psi
pub mod PsiWatcher
pub mod Processes
pub mod Files
pub mod Memory
pub mod Io
pub mod Cpu
pub mod Shared
