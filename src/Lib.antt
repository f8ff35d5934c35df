-- ===== src/Lib.antt =====
-- A verification library of resman, the resource manager that limits the CPU, RAM and IO of the
-- users of a Linux machine through cgroups.
--
-- The program measures the users in every control cycle (state/control_cycle.go), decides whether
-- limits are to be activated or deactivated (state/decision_engine.go), and carries the decision out
-- on the cgroups (state/limits_applier.go). Around this loop stand the configuration
-- (config/config.go), its reloading while the program runs (config/watcher.go, reloader/reloader.go), the
-- remediation of IO starvation (state/io_remediation.go), the policies for
-- workload patterns (state/pattern_detector.go, state/policy_engine.go), the PSI boosts
-- (state/manager.go) and the history of the cycles. Files and definitions:
--
-- - Prelude: tests, lists, dictionaries (Go maps), integers with the wrap-around of 64 bits (Int),
--   instants and durations (Clock), float64 as a parameter (Floats), texts as bytes (Text).
-- - Config/Defs: `Config` and `DefaultConfig`. Config/Quota: `ParseRAMQuota`, `isValidByteQuota`,
--   `isValidCPUQuota`. Config/Filter: `matchPattern` with its cache and the include and exclude
--   lists. Config/Blackout: `ParseTimeframe`, `IsInBlackout` and `GetNextBlackoutEnd`.
--   Config/Validate: `validateConfig`. Config/Setters and Config/Handlers: the table of keys and its
--   setters. Config/Load: `loadFromFile` and `LoadAndValidate`. Config/Environment:
--   `loadFromEnvironment`. Config/Save: `SaveToFile` and the calls that change the lists of users.
--   Config/Watcher: the loop of config/watcher.go. Reloader: reloader/reloader.go.
-- - State/Defs: `SystemMetrics`, `UserMetrics` and the decisions. State/Tracker: `ThresholdTracker`.
--   State/Decision: `makeDecision`, in the parts that its sections have, and its theorems.
-- - State/Manager: the state of `Manager`, the calls it makes and the goroutines that wait.
--   State/Limits: `activateLimits` (Activate), `releaseIdleUsers` (Idle), `deactivateLimits`,
--   `ForceDeactivateLimits` and `Cleanup` (Deactivate), the goroutines (Jobs), what the helpers leave
--   alone (Frame), the invariant (Invariant), the limited users (Members), the users' share of the
--   machine (Share) and the calls that restore them (Restored).
-- - State/IoRemediation, State/PatternDetector, State/Policy, State/Psi, State/History: the components of
--   these names.
-- - State/Cycle: the metrics of a cycle (Metrics), the pipeline (Run), all steps of the program and
--   the states that they reach (Reach), and what switches the limits (Switch).
-- - Metrics/Cache: the caches with timestamps of metrics/collector.go. Metrics/Collector: the names of
--   users, the CPU usage of processes (Usage), the scan over the processes (Scan), the values that are read
--   through the cache (Getters) with their types (Typed) in any order of calls (Calls). Metrics/DbWriter:
--   metrics/db_writer.go and `WriteMetricsToDatabase`.
-- - Cgroup/Tracking: the created cgroups and their file (cgroup/storage.go, `CreateUserCgroup` and
--   `CleanupUserCgroup`). Cgroup/Psi: cgroup/psi.go. Cgroup/PsiWatcher: cgroup/psi_watcher.go.
--   Cgroup/Processes: the names of processes and their moves (cgroup/process.go). Cgroup/Files: the files
--   of the cgroups as the package writes them. Cgroup/Cpu, Cgroup/Memory, Cgroup/Io, Cgroup/Shared: the
--   limits of cgroup/cpu.go, cgroup/memory.go and cgroup/io.go, and cgroup/shared.go.
-- - Tests: the parameters instantiated, and the theorems at concrete inputs.
--
-- State is passed explicitly: an operation takes the record of its component and returns the new one,
-- with the error as an `Option` or a Boolean. A call of the cgroup manager, of the PSI watcher or of the exporter
-- is recorded, and an environment, which knows the calls before it, answers whether it succeeds. A
-- goroutine is a job that runs as one step, in any order; a mutex makes an operation one step. A map
-- is an association list, whose order stands for the order of a `range` loop. Each operation reads
-- the clock once. Package regexp, `url.Parse` and float64 are parameters; what is asked of float64 is
-- the order of its comparisons, with a NaN allowed. No loop needs fuel except the printing of
-- numbers, which has 20 for the 20 digits that a number of 64 bits has at most. Texts are bytes, and
-- the blanks that `strings.TrimSpace` and `strings.Fields` skip are those of ASCII: a text with another
-- space of Unicode at the end of a word is outside the model.
--
-- Not modelled: the setup and the final cleanup of the cgroups, the readings of the whole machine and the fallbacks
-- that scan /proc (a machine is a record of what gopsutil answers), the queries of the database, the
-- Prometheus exporter and the MCP server, logging, the limit hook and the wiring of the application.
pub mod Prelude
pub mod Config
pub mod State
pub mod Reloader
pub mod Metrics
pub mod Cgroup
pub mod Tests
