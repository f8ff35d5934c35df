-- ===== src/State/Manager.antt =====
-- state/manager.go: the state of `Manager`, and the calls that it makes of its dependencies. The
-- interfaces `CgroupManager` and the PSI watcher are seen through the calls: a call is recorded, and
-- an environment, which knows the calls before it, says whether it succeeds. Goroutines that are
-- started wait in `pending` until they run. The mutexes are left out: each operation is one step.
use cpu_manager_go.Prelude.{ℕ, ℤ, Bool, List, ◌∷◌}
use cpu_manager_go.Prelude.Clock.{Instant}
use cpu_manager_go.Prelude.Dict.{Dict}
use cpu_manager_go.Prelude.Text.{Bytes}
use cpu_manager_go.Config.Defs.{Config}
use cpu_manager_go.State.Decision.Defs.{DecisionState}

pub data Call : Type 0 where
  increment_limits_activated increment_limits_deactivated : Call
  create_shared_cgroup : Call
  apply_shared_cpu_limit : Bytes → Bytes → Call  -- path, quota
  create_user_sub_cgroup : ℕ → Bytes → Call
  add_monitor : ℕ → Bytes → Call  -- uid, "cpu" or "io"
  remove_monitor : ℕ → Bytes → Call
  move_all_user_processes_to_shared_cgroup : ℕ → Bytes → Call
  release_user_from_shared_cgroup : ℕ → Bytes → Call
  apply_cpu_weight : ℕ → ℤ → Call
  apply_cpu_limit : ℕ → Bytes → Call
  apply_ram_limit : ℕ → Bytes → Call
  apply_ram_limit_with_high : ℕ → Bytes → Bytes → Call  -- uid, max, high
  apply_ram_limit_with_high_and_swap_disabled : ℕ → Bytes → Bytes → Call
  remove_ram_high remove_ram_limit : ℕ → Call
  apply_io_limit : ℕ → Bytes → Bytes → ℤ → ℤ → Bytes → Call
  remove_io_limit : ℕ → Call
  remove_all : Bytes → Call  -- `os.RemoveAll`
  cleanup_all : Call
  stop_exporter : Call
  notify_user_limited : ℕ → Call  -- starts the limit hook

-- What the dependencies answer, given the calls before, most recent first.
pub record Environment : Type 0 where
  pub succeeds : List Call → Call → Bool
  pub shared_path : List Call → Bytes  -- the path that `CreateSharedCgroup` returns
  pub username : ℕ → Bytes  -- `GetUsernameFromUID`

-- The goroutines of `activateLimits` (with the configuration that it captured) and of
-- `releaseIdleUsers`, by the user and the path of the shared cgroup.
pub data Job (F : Type 0) : Type 0 where
  configure : Config F → ℕ → Bytes → Job F
  re_add : ℕ → Bytes → Job F
  release : ℕ → Bytes → Job F

pub record Manager (F : Type 0) : Type 0 where
  pub cfg : Config F
  pub decision : DecisionState
  pub open decision use *
  pub active_users : List ℕ
  pub shared_cgroup_path : Bytes
  pub psi_boosted_at : Dict Instant
  pub has_psi_watcher : Bool
  pub has_exporter : Bool
  pub pending : List (Job F)
  pub calls : List Call

-- Which call a step reports as failed, or that a decision is not known.
pub data Error : Type 0 where
  failed : Call → Error
  unknown_decision : Error

-- One call of a dependency.
unfoldable pub call : {F : Type 0} → Environment → Call → Manager F → Manager F × Bool
call env c m = (record m { calls = c ∷ m.calls }, env.succeeds m.calls c)

-- A call whose failure is only logged.
abbrev pub do_call : {F : Type 0} → Environment → Call → Manager F → Manager F
do_call env c m = (call env c m).0
