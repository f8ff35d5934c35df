-- ===== src/State/Defs.antt =====
-- state/control_cycle.go, state/decision_engine.go, metrics: the data that one control cycle works
-- on. Maps with user ids as keys are `Dict`; user ids are not negative.
use cpu_manager_go.Prelude.{ℕ, ℤ, Bool, List}
use cpu_manager_go.Prelude.Clock.{Instant}
use cpu_manager_go.Prelude.Dict.{Dict}
use cpu_manager_go.Prelude.Text.{Bytes}

-- `UserMetrics` of package metrics.
pub record UserMetrics (F : Type 0) : Type 0 where
  pub uid : ℕ
  pub username : Bytes
  pub cpu_usage : F
  pub cpu_usage_average : F
  pub cpu_usage_ema : F
  pub memory_usage : ℕ
  pub process_count : ℕ
  pub is_limited : Bool
  pub io_read_bytes : ℕ
  pub io_write_bytes : ℕ
  pub io_read_ops : ℕ
  pub io_write_ops : ℕ

pub record SystemMetrics (F : Type 0) : Type 0 where
  pub timestamp : Instant
  pub total_cores : ℤ
  pub total_cpu_usage : F
  pub all_users_cpu_usage : F
  pub all_users_memory_usage : ℕ
  pub all_users_count : ℕ
  pub limited_users_cpu_usage : F
  pub limited_users_memory_usage : ℕ
  pub limited_users_count : ℕ
  pub limited_users_ram_usage_bytes : ℕ
  pub limited_users_io_write_bytes : ℕ
  pub memory_usage : F
  pub total_memory_mb : F
  pub cached_memory_mb : F
  pub system_under_load : Bool
  pub user_cpu_usage : Dict F
  pub user_metrics : Dict (UserMetrics F)
  pub eligible_users : List ℕ

-- The texts that `makeDecision` returns; `other` is any further text.
pub data Decision : Type 0 where
  activate_limits deactivate_limits maintain_current_state other : Decision

-- The reasons that go with a decision, with the values that their texts show.
pub data Reason : Type 0 where
  waiting_min_active_time waiting_stability still_under_load still_above_release : Reason
  insufficient_cores : ℤ → ℤ → Reason
  load_from_other_factors : Reason
  waiting_window : ℤ → Reason
  within_normal_range : Reason
  exceeded : Bool → Bool → Bool → Reason
  all_below_release : Reason
