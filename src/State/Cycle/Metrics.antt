-- ===== src/State/Cycle/Metrics.antt =====
-- state/control_cycle.go: `collectSystemMetricsWithIOState`. What the `MetricsCollector` returns is
-- given; the map of users is passed through in the order of the dictionary.
use cpu_manager_go.Prelude.{
  ℕ, ◌+◌, ◌-◌, ◌*◌, ◌/◌, ◌%◌, ◌^◌, ◌≡◌, ◌==◌, refl, ap, ◌∙◌, ℤ, pos, negsuc, sub_ℕ, Bool, true,
  false, not, ◌&&◌, ◌||◌, Option, none, some, List, [], ◌∷◌, ◌++◌, leb, ltb, if◌then◌else◌, length,
  member, member-append, Distinct, arith, Bool-cases, inl, inr,
}
use cpu_manager_go.Prelude.Clock.{Instant, is_zero, since, nano}
use cpu_manager_go.Prelude.Dict.{Dict, lookup, put, keep, keys, lookup-put}
use cpu_manager_go.Prelude.Floats.{Floats}
use cpu_manager_go.State.Defs.{UserMetrics, SystemMetrics}
pub mod Users

-- What the collector answers during one cycle.
pub record Reading (F : Type 0) : Type 0 where
  pub cores : ℤ
  pub cpu : F
  pub memory : F
  pub total_memory : F
  pub cached_memory : F
  pub under_load : Bool
  pub users : Dict (UserMetrics F)

-- `prevIOBytes` and `prevIOTime`
pub record IoRates : Type 0 where
  pub prev_io_bytes : Dict ℕ
  pub prev_io_time : Instant

pub record Collected (F : Type 0) : Type 0 where
  pub metrics : SystemMetrics F
  pub written : Dict ℕ  -- `prevIOBytes`, as the loop changes it

module _ (fl : Floats) where
  -- `Seconds()` of a duration
  unfoldable pub in_seconds : ℤ → fl.F
  in_seconds (pos n) =
      fl.add (fl.of_int (pos (n / nano))) (fl.div (fl.of_int (pos (n % nano))) (fl.of_nat nano))
  in_seconds (negsuc n) =
      fl.add (fl.of_int (sub_ℕ 0 ((n + 1) / nano)))
        (fl.div (fl.of_int (sub_ℕ 0 ((n + 1) % nano))) (fl.of_nat nano))

  -- The rate of writing since the last cycle, in whole bytes per second, or 0 if it is not known.
  unfoldable pub write_rate : Instant → Instant → ℕ → Option ℕ → ℕ
  write_rate now prev_time bytes none = 0
  write_rate now prev_time bytes (some prev) =
      let elapsed = in_seconds (since now prev_time) in
      if not (is_zero prev_time) && fl.ltb (fl.of_nat 0) elapsed && leb prev bytes
      then fl.to_nat (fl.div (fl.of_nat (bytes - prev)) elapsed)
      else 0

  -- The totals over all users.
  unfoldable pub add_to_all :
      List ℕ → ℕ → UserMetrics fl.F → SystemMetrics fl.F → SystemMetrics fl.F
  add_to_all active uid um s = record s {
    all_users_cpu_usage = fl.add s.all_users_cpu_usage um.cpu_usage;
    all_users_memory_usage = (s.all_users_memory_usage + um.memory_usage) % 2 ^ 64;
    all_users_count = s.all_users_count + 1;
    user_cpu_usage = put uid um.cpu_usage s.user_cpu_usage;
    user_metrics = put uid (record um { is_limited = member uid active }) s.user_metrics;
  }

  -- The totals over the users that the filters select.
  unfoldable pub add_to_eligible :
      ℕ → ℕ → UserMetrics fl.F → SystemMetrics fl.F → SystemMetrics fl.F
  add_to_eligible rate uid um s = record s {
    eligible_users = s.eligible_users ++ uid ∷ [];
    limited_users_cpu_usage = fl.add s.limited_users_cpu_usage um.cpu_usage;
    limited_users_memory_usage = (s.limited_users_memory_usage + um.memory_usage) % 2 ^ 64;
    limited_users_ram_usage_bytes = (s.limited_users_ram_usage_bytes + um.memory_usage) % 2 ^ 64;
    limited_users_io_write_bytes = (s.limited_users_io_write_bytes + rate) % 2 ^ 64;
  }

  -- One turn of the loop; `update` says whether the IO state is changed.
  unfoldable pub collect_user :
      Bool → Instant → Instant → List ℕ → ℕ → UserMetrics fl.F → Collected fl.F → Collected fl.F
  collect_user update now prev_time active uid um c =
      let all = add_to_all active uid um c.metrics in
      let rate =
        if update then write_rate now prev_time um.io_write_bytes (lookup uid c.written) else 0 in
      if um.is_limited
      then record {
        metrics = add_to_eligible rate uid um all;
        written = if update then put uid um.io_write_bytes c.written else c.written;
      }
      else record c { metrics = all }

  unfoldable pub collect_users :
      Bool → Instant → Instant → List ℕ → Dict (UserMetrics fl.F) → Collected fl.F → Collected fl.F
  collect_users update now prev_time active [] c = c
  collect_users update now prev_time active ((uid, um) ∷ users) c =
      collect_users update now prev_time active users
        (collect_user update now prev_time active uid um c)

  -- The metrics before the loop.
  unfoldable pub no_users : Reading fl.F → Instant → SystemMetrics fl.F
  no_users reading now = record {
    timestamp = now;
    total_cores = reading.cores;
    total_cpu_usage = reading.cpu;
    all_users_cpu_usage = fl.of_nat 0;
    all_users_memory_usage = 0;
    all_users_count = 0;
    limited_users_cpu_usage = fl.of_nat 0;
    limited_users_memory_usage = 0;
    limited_users_count = 0;
    limited_users_ram_usage_bytes = 0;
    limited_users_io_write_bytes = 0;
    memory_usage = reading.memory;
    total_memory_mb = reading.total_memory;
    cached_memory_mb = reading.cached_memory;
    system_under_load = reading.under_load;
    user_cpu_usage = [];
    user_metrics = [];
    eligible_users = [];
  }

  -- `collectSystemMetricsWithIOState`, which returns no error.
  unfoldable pub collect_system_metrics :
      Bool → Instant → List ℕ → Reading fl.F → IoRates → SystemMetrics fl.F × IoRates
  collect_system_metrics update now active reading rates =
      let c =
        collect_users update now rates.prev_io_time active reading.users
          (record { metrics = no_users reading now; written = rates.prev_io_bytes }) in
      let seen = λ (uid : ℕ) (bytes : ℕ). member uid (keys reading.users) in
      (
        record c.metrics { limited_users_count = length c.metrics.eligible_users },
        if update
            then record { prev_io_bytes = keep seen c.written; prev_io_time = now }
            else record { prev_io_bytes = c.written; prev_io_time = rates.prev_io_time },
      )
