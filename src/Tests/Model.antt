-- ===== src/Tests/Model.antt =====
-- Concrete stand-ins for the parameters: integers for floats, calls that all succeed, patterns that
-- match only themselves; and a machine with one busy user.
use cpu_manager_go.Prelude.{
  if◌then◌else◌, ℕ, ◌+◌, ◌*◌, ◌/◌, ℤ, pos, pos_part, neg_part, sub_ℕ, ◌+ℤ◌, ◌-ℤ◌, ltb_ℤ, leb_ℤ,
  true, false, some, [], ◌∷◌, arith,
}
use cpu_manager_go.Prelude.Floats.{Floats, Comparisons}
use cpu_manager_go.Prelude.Text.{text, same, format_uint}
use cpu_manager_go.Config.Defs.{Config, default_config}
use cpu_manager_go.Config.Filter.{Compile}
use cpu_manager_go.State.Decision.Defs.{DecisionState}
use cpu_manager_go.State.Defs.{UserMetrics, SystemMetrics}
use cpu_manager_go.State.Manager.{Environment, Manager}

abbrev pub ints : Floats
ints = record {
  F = ℤ;
  of_int = λ i. i;
  of_nat = λ n. pos n;
  add = λ a b. a +ℤ b;
  sub = λ a b. a -ℤ b;
  mul = λ a b.
      sub_ℕ (pos_part a * pos_part b + neg_part a * neg_part b)
        (pos_part a * neg_part b + neg_part a * pos_part b);
  div = λ a b. pos (pos_part a / pos_part b);
  least = λ a b. if ltb_ℤ a b then a else b;
  ltb = λ a b. ltb_ℤ a b;
  leb = λ a b. leb_ℤ a b;
  to_nat = λ a. pos_part a;
}

pub ints_Comparisons : Comparisons ints
ints_Comparisons = record {
  lt_not_ge = λ a b h. ground arith;
  le_lt_trans = λ a b c h k. ground arith;
  lt_le_trans = λ a b c h k. ground arith;
  of_int_mono = λ i j h. ground arith;
}

abbrev pub exact : Compile
exact pattern = some (same pattern)

abbrev pub obedient : Environment
obedient = record {
  succeeds = λ _ _. true;
  shared_path = λ _. text "/shared";
  username = λ uid. format_uint uid;
}

unfoldable pub cfg : Config ℤ
unfolding default_config
cfg = default_config ints (pos 60000)

abbrev pub user : ℕ → ℤ → UserMetrics ℤ
user uid cpu = record {
  uid = uid;
  username = [];
  cpu_usage = cpu;
  cpu_usage_average = cpu;
  cpu_usage_ema = cpu;
  memory_usage = 4096;
  process_count = 1;
  is_limited = true;
  io_read_bytes = 0;
  io_write_bytes = 0;
  io_read_ops = 0;
  io_write_ops = 0;
}

-- Users 1001 and 1002 use CPU as given, on four cores.
abbrev pub usage : ℤ → ℤ → SystemMetrics ℤ
usage first second = record {
  timestamp = 0;
  total_cores = pos 4;
  total_cpu_usage = first +ℤ second;
  all_users_cpu_usage = first +ℤ second;
  all_users_memory_usage = 8192;
  all_users_count = 2;
  limited_users_cpu_usage = first +ℤ second;
  limited_users_memory_usage = 8192;
  limited_users_count = 2;
  limited_users_ram_usage_bytes = 8192;
  limited_users_io_write_bytes = 0;
  memory_usage = pos 1;
  total_memory_mb = pos 100;
  cached_memory_mb = pos 0;
  system_under_load = false;
  user_cpu_usage = (1001, first) ∷ (1002, second) ∷ [];
  user_metrics = (1001, user 1001 first) ∷ (1002, user 1002 second) ∷ [];
  eligible_users = 1001 ∷ 1002 ∷ [];
}

abbrev pub inactive : DecisionState
inactive = record {
  limits_active = false;
  limits_applied_time = 0;
  threshold_tracker = record {
    first_over_threshold_time = 0;
    over_threshold_cycles = 0;
    total_cycles = 0;
  };
  io_threshold_tracker = record {
    first_over_threshold_time = 0;
    over_threshold_cycles = 0;
    total_cycles = 0;
  };
  under_threshold = [];
}

-- CPU has been over its threshold since the first second.
abbrev pub waiting : DecisionState
waiting = record inactive {
  threshold_tracker = record {
    first_over_threshold_time = 1000000000;
    over_threshold_cycles = 3;
    total_cycles = 3;
  };
}

-- The limits have been active since the first second.
abbrev pub active : DecisionState
active = record inactive { limits_active = true; limits_applied_time = 1000000000 }

abbrev pub fresh : Manager ℤ
fresh = record {
  cfg = cfg;
  decision = inactive;
  active_users = [];
  shared_cgroup_path = [];
  psi_boosted_at = [];
  has_psi_watcher = true;
  has_exporter = true;
  pending = [];
  calls = [];
}

-- User 1001 is limited, and boosted in the second second.
abbrev pub limiting : Manager ℤ
limiting = record fresh {
  decision = active;
  active_users = 1001 ∷ [];
  shared_cgroup_path = text "/shared";
  psi_boosted_at = (1001, 2000000000) ∷ [];
}
