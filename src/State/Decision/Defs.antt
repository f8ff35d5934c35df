-- ===== src/State/Decision/Defs.antt =====
-- The parts of `makeDecision`: the thresholds, the windows and the two halves of the decision.
use cpu_manager_go.Prelude.{
  ℕ, ◌+◌, ◌*◌, ◌%◌, ◌^◌, ℤ, pos, ltb_ℤ, leb_ℤ, ◌-ℤ◌, Bool, true, false, not, ◌&&◌, ◌||◌, Option,
  none, some, List, [], ◌∷◌, ltb, leb, if◌then◌else◌,
}
use cpu_manager_go.Prelude.Clock.{Instant, since, seconds}
use cpu_manager_go.Prelude.Dict.{Dict, lookup, put}
use cpu_manager_go.Prelude.Floats.{Floats}
use cpu_manager_go.Prelude.Text.{text, same}
use cpu_manager_go.Config.Defs.{Config}
use cpu_manager_go.Config.Quota.{Quota, bytes, failed, parse_ram_quota}
use cpu_manager_go.State.Defs.{
  UserMetrics, SystemMetrics, Decision, activate_limits, deactivate_limits, maintain_current_state,
  Reason, waiting_min_active_time, waiting_stability, still_under_load, still_above_release,
  insufficient_cores, load_from_other_factors, waiting_window, within_normal_range, exceeded,
  all_below_release,
}
use cpu_manager_go.State.Tracker.{ThresholdTracker, reset, should_activate_limits, get_elapsed}

-- The fields of `Manager` that a decision reads and changes.
pub record DecisionState : Type 0 where
  pub limits_active : Bool
  pub limits_applied_time : Instant
  pub threshold_tracker : ThresholdTracker
  pub io_threshold_tracker : ThresholdTracker
  pub under_threshold : Dict ℕ

pub record Outcome : Type 0 where
  pub state : DecisionState
  pub decision : Decision
  pub reason : Reason

-- A missing counter reads as 0.
abbrev pub count_of : Option ℕ → ℕ
count_of none = 0
count_of (some n) = n

-- Every limited user has been below the threshold for three samples.
unfoldable pub is_stable : List ℕ → Dict ℕ → Bool
is_stable [] under = true
is_stable (uid ∷ uids) under = leb 3 (count_of (lookup uid under)) && is_stable uids under

-- `thresholdTracker.Reset` and `ioThresholdTracker.Reset`
abbrev pub reset_trackers : DecisionState → DecisionState
reset_trackers s = record s {
  threshold_tracker = reset s.threshold_tracker;
  io_threshold_tracker = reset s.io_threshold_tracker;
}

module _ (fl : Floats) where
  unfoldable pub cpu_exceeded : Config fl.F → SystemMetrics fl.F → Bool
  cpu_exceeded cfg m = fl.leb (fl.of_int cfg.cpu_threshold) m.limited_users_cpu_usage

  unfoldable pub cpu_below : Config fl.F → SystemMetrics fl.F → Bool
  cpu_below cfg m = fl.ltb m.limited_users_cpu_usage (fl.of_int cfg.cpu_release_threshold)

  unfoldable pub ram_percent : SystemMetrics fl.F → fl.F
  ram_percent m =
      fl.mul
        (fl.div (fl.div (fl.of_nat m.limited_users_ram_usage_bytes) (fl.of_nat (1024 * 1024)))
          m.total_memory_mb)
        (fl.of_nat 100)

  unfoldable pub ram_exceeded : Config fl.F → SystemMetrics fl.F → Bool
  ram_exceeded cfg m =
      if cfg.ram_enabled
        && ltb_ℤ (pos 0) cfg.ram_threshold
        && fl.ltb (fl.of_nat 0) m.total_memory_mb
      then fl.leb (fl.of_int cfg.ram_threshold) (ram_percent m)
      else false

  unfoldable pub ram_below : Config fl.F → SystemMetrics fl.F → Bool
  ram_below cfg m =
      if cfg.ram_enabled
        && ltb_ℤ (pos 0) cfg.ram_release_threshold
        && fl.ltb (fl.of_nat 0) m.total_memory_mb
      then fl.ltb (ram_percent m) (fl.of_int cfg.ram_release_threshold)
      else true

  -- `writeLimit * uint64(count)`, which wraps, and the share of it that is written, in percent.
  unfoldable pub io_share : ℕ → Quota → ℕ → Option fl.F
  io_share count (failed e) written = none
  io_share count (bytes limit) written =
      let total = limit * count % 2 ^ 64 in
      if ltb 0 limit && ltb 0 total
      then some (fl.mul (fl.div (fl.of_nat written) (fl.of_nat total)) (fl.of_nat 100))
      else none

  -- The share, if the configuration limits writes and `threshold` is set.
  unfoldable pub io_percent : Config fl.F → SystemMetrics fl.F → ℤ → Option fl.F
  io_percent cfg m threshold =
      if cfg.io_enabled
        && ltb_ℤ (pos 0) threshold
        && not (same cfg.io_write_bps [])
        && not (same cfg.io_write_bps (text "max"))
      then io_share m.limited_users_count (parse_ram_quota cfg.io_write_bps)
          m.limited_users_io_write_bytes
      else none

  unfoldable pub io_exceeded : Config fl.F → SystemMetrics fl.F → Bool
  io_exceeded cfg m = elim (io_percent cfg m cfg.io_threshold) [
    | none ↦ false
    | some p ↦ fl.leb (fl.of_int cfg.io_threshold) p
  ]

  unfoldable pub io_below : Config fl.F → SystemMetrics fl.F → Bool
  io_below cfg m = elim (io_percent cfg m cfg.io_release_threshold) [
    | none ↦ true
    | some p ↦ fl.ltb p (fl.of_int cfg.io_release_threshold)
  ]

  -- The IO time window: the tracker, and whether IO still counts as exceeded.
  unfoldable pub io_window :
      Config fl.F → SystemMetrics fl.F → Instant → ThresholdTracker → ThresholdTracker × Bool
  io_window cfg m now t =
      if ltb_ℤ (pos 0) cfg.io_threshold_duration && io_exceeded cfg m
      then should_activate_limits fl
          (elim (io_percent cfg m cfg.io_threshold) [ none ↦ fl.of_nat 0 | some p ↦ p ])
          (fl.of_int cfg.io_threshold) (seconds cfg.io_threshold_duration) now t
      else (reset t, io_exceeded cfg m)

  unfoldable pub all_below : Config fl.F → SystemMetrics fl.F → Bool
  all_below cfg m = cpu_below cfg m && ram_below cfg m && io_below cfg m

  -- One turn of the loop that counts the samples of each limited user below the threshold.
  unfoldable pub count_sample : fl.F → Dict (UserMetrics fl.F) → ℕ → Dict ℕ → Dict ℕ
  count_sample release users uid under = elim (lookup uid users) [
    | none ↦ under
    | some um ↦
        put uid (if fl.ltb um.cpu_usage_ema release then count_of (lookup uid under) + 1 else 0)
          under
  ]

  unfoldable pub count_samples : fl.F → Dict (UserMetrics fl.F) → List ℕ → Dict ℕ → Dict ℕ
  count_samples release users [] under = under
  count_samples release users (uid ∷ uids) under =
      count_samples release users uids (count_sample release users uid under)

  -- The decision while limits are active.
  unfoldable pub decide_active :
      Config fl.F
      → SystemMetrics fl.F
      → List ℕ
      → Dict (UserMetrics fl.F)
      → Instant
      → DecisionState
      → Outcome
  decide_active cfg m limited users now s =
      if ltb_ℤ (since now s.limits_applied_time) (seconds cfg.min_active_time)
      then record { state = s; decision = maintain_current_state; reason = waiting_min_active_time }
      else if all_below cfg m
      then (let under =
            count_samples (fl.of_int cfg.cpu_release_threshold) users limited s.under_threshold in
          let stable = is_stable limited under in
          let s' = record s { under_threshold = under } in
          if not m.system_under_load && stable
          then record {
            state = reset_trackers s';
            decision = deactivate_limits;
            reason = all_below_release;
          }
          else record {
            state = s';
            decision = maintain_current_state;
            reason = if stable then still_under_load else waiting_stability;
          })
      else record { state = s; decision = maintain_current_state; reason = still_above_release }

  -- The CPU time window, which holds back an activation only if nothing else is exceeded.
  unfoldable pub decide_window :
      Config fl.F → SystemMetrics fl.F → Bool → Bool → Instant → DecisionState → Outcome
  decide_window cfg m ram io now s =
      if cpu_exceeded cfg m && ltb_ℤ (pos 0) cfg.cpu_threshold_duration
      then (let (t, ready) =
            should_activate_limits fl m.limited_users_cpu_usage (fl.of_int cfg.cpu_threshold)
              (seconds cfg.cpu_threshold_duration) now s.threshold_tracker in
          let s' = record s { threshold_tracker = t } in
          if not ready && not ram && not io
          then record {
            state = s';
            decision = maintain_current_state;
            reason = waiting_window (seconds cfg.cpu_threshold_duration -ℤ get_elapsed now t);
          }
          else record {
            state = s';
            decision = activate_limits;
            reason = exceeded (cpu_exceeded cfg m) ram io;
          })
      else record {
        state = s;
        decision = activate_limits;
        reason = exceeded (cpu_exceeded cfg m) ram io;
      }

  -- The decision while limits are not active.
  unfoldable pub decide_inactive :
      Config fl.F → SystemMetrics fl.F → Bool → Instant → DecisionState → Outcome
  decide_inactive cfg m io now s =
      if cpu_exceeded cfg m || ram_exceeded cfg m || io
      then if leb_ℤ m.total_cores cfg.min_system_cores
        then record {
          state = reset_trackers s;
          decision = maintain_current_state;
          reason = insufficient_cores m.total_cores cfg.min_system_cores;
        }
        else if not cfg.ignore_system_load && m.system_under_load
        then record {
          state = reset_trackers s;
          decision = maintain_current_state;
          reason = load_from_other_factors;
        }
        else decide_window cfg m (ram_exceeded cfg m) io now s
      else record {
        state = reset_trackers s;
        decision = maintain_current_state;
        reason = within_normal_range;
      }

  -- `makeDecision`
  unfoldable pub make_decision :
      Config fl.F
      → SystemMetrics fl.F
      → List ℕ
      → Dict (UserMetrics fl.F)
      → Instant
      → DecisionState
      → Outcome
  make_decision cfg m limited users now s =
      let (t, io) = io_window cfg m now s.io_threshold_tracker in
      let s' = record s { io_threshold_tracker = t } in
      if s.limits_active
      then decide_active cfg m limited users now s'
      else decide_inactive cfg m io now s'
