-- ===== src/Tests/Cycles.antt =====
-- Control cycles at concrete inputs.
use cpu_manager_go.Prelude.{
  ◌++◌, ◌≤ℤ◌, ltb_ℤ, ℕ, ◌≡◌, ◌*◌, refl, ℤ, pos, true, false, none, some, [], ◌∷◌, arith, member,
  length, wrap64,
}
use cpu_manager_go.Prelude.Clock.{since, seconds}
use cpu_manager_go.Prelude.Dict.{lookup}
use cpu_manager_go.Config.Blackout.{is_in_blackout}
use cpu_manager_go.State.Cycle.Metrics.{
  Reading, collect_system_metrics, collect_users, collect_user, add_to_all, add_to_eligible,
  write_rate, no_users,
}
use cpu_manager_go.State.Cycle.Metrics.Users.{collect_system_metrics-users}
use cpu_manager_go.State.Cycle.Reach.{here, one_more, cycle, force_deactivate, Reach-Inv}
use cpu_manager_go.State.Cycle.Run.{
  Controller, Input, run_control_cycle, finish_cycle, execute_decision, revert_boosts,
  detect_patterns, detect_from, remediate_io,
}
use cpu_manager_go.State.Cycle.Switch.{measured, cycle_switches_on, cycle_switches_off}
use cpu_manager_go.State.Decision.Activation.{IsDue}
use cpu_manager_go.State.Decision.Defs.{
  all_below, make_decision, decide_active, decide_inactive, decide_window, io_window, io_exceeded,
  io_percent, ram_exceeded, cpu_exceeded, cpu_below, ram_below, io_below, count_samples,
  count_sample, is_stable,
}
use cpu_manager_go.State.Tracker.{should_activate_limits, reset}
use cpu_manager_go.State.Psi.{revert_psi_boosts, expired, reset_weights, delete_all}
use cpu_manager_go.State.Limits.Activate.{
  activate_limits, ensure_shared, limit_eligible, limit_users, limit_user, finish_activation,
  drop_gone, total_quota,
}
use cpu_manager_go.State.Limits.Jobs.{
  add_monitors, remove_monitors, should_apply_ram_limits, should_apply_io_limits, wait, run_jobs,
}
use cpu_manager_go.State.Defs.{maintain_current_state, within_normal_range}
use cpu_manager_go.State.History.{
  ControlCycleEntry, add_entries, get_control_history, get-add_entries,
}
use cpu_manager_go.State.Limits.Deactivate.{
  force_deactivate_limits, deactivate_limits, clear, unwatch_users, restore_users, restore_user,
  lift_limits,
}
use cpu_manager_go.State.Limits.Invariant.{Inv}
use cpu_manager_go.State.Manager.{Manager, call}
use cpu_manager_go.State.PatternDetector.{
  UserHourlyStats, set_at, copies, update, analyze, analyze_user, classify_pattern, if_confident,
  match_shape, average, sum_at, overall_average, weighted_sum, calculate_variance, squared_sum,
}
use cpu_manager_go.State.PatternDetector.Samples.{AllCounted, update-AllCounted, analyze-confident}
use cpu_manager_go.State.Policy.{
  batch_night, apply_policy, has_quotas, get_quotas_for_pattern, apply_policy_settles,
}
use cpu_manager_go.Tests.Model.{ints, exact, obedient, cfg, user, fresh, limiting, waiting}

abbrev reading : ℤ → Reading ℤ
reading cpu = record {
  cores = pos 4;
  cpu = cpu;
  memory = pos 10;
  total_memory = pos 100;
  cached_memory = pos 0;
  under_load = false;
  users = (1001, user 1001 cpu) ∷ (1002, record (user 1002 (pos 0)) { is_limited = false }) ∷ [];
}

abbrev input : ℕ → ℤ → Input ℤ
input seconds cpu = record {
  day = 1;
  hour_of_day = 12;
  now = seconds * 1000000000;
  reading = reading cpu;
  limited_users = 1001 ∷ [];
  user_metrics = (1001, user 1001 cpu) ∷ [];
  answers = record { pressure = λ uid. none; removes = λ uid. true };
  duration_ms = pos 3;
}

abbrev controller : Manager ℤ → Controller ℤ
controller m = record {
  manager = m;
  history = record { entries = []; max_size = 100 };
  rates = record { prev_io_bytes = []; prev_io_time = 0 };
  remediation = none;
  policies = [];
  detector = none;
  last_pattern_analysis = 0;
}

-- User 1001 has been quiet in two samples.
abbrev almost_stable : Manager ℤ
almost_stable = record limiting {
  decision = record limiting.decision { under_threshold = (1001, 2) ∷ [] };
}

fresh-Inv : Inv fresh
fresh-Inv = record { idle = λ e. refl; rooted = λ e. absurd (ground arith); distinct = tt }

Reach-Inv_example :
    Inv
      (force_deactivate_limits ints exact obedient
        (run_control_cycle ints exact obedient (input 100 (pos 90)) (controller fresh)).0.manager).0
Reach-Inv_example =
    Reach-Inv ints exact obedient (controller fresh) _ (λ calls. refl) fresh-Inv
      (one_more (one_more here (cycle (input 100 (pos 90)))) force_deactivate)

collect_system_metrics-users_example :
    let m =
      (collect_system_metrics ints true 7
        (1002 ∷ [])
        (reading (pos 80))
        (record { prev_io_bytes = []; prev_io_time = 0 })).0 in
    (member 1002 m.eligible_users ≡ false)
    × (m.limited_users_count ≡ length m.eligible_users)
    × (lookup 1002 m.user_metrics ≡ some (user 1002 (pos 0)))
    × (m.all_users_count ≡ 2)
collect_system_metrics-users_example =
    collect_system_metrics-users ints true 7 (1002 ∷ []) (reading (pos 80))
      (record { prev_io_bytes = []; prev_io_time = 0 }) 1002 (refl, (refl, tt))

abbrev entry : ℕ → ControlCycleEntry ℤ
entry n = record {
  timestamp = n;
  decision = maintain_current_state;
  reason = within_normal_range;
  total_cpu_usage = pos 1;
  user_cpu_usage = pos 1;
  active_users = 0;
  limits_active = false;
  duration_ms = pos 1;
}

get-add_entries_example :
    get_control_history (pos 2) (
      add_entries
        (entry 1 ∷ entry 2 ∷ entry 3 ∷ entry 4 ∷ [])
        (record { entries = []; max_size = 3 }))
    ≡ entry 3 ∷ entry 4 ∷ []
get-add_entries_example = get-add_entries (entry 1 ∷ entry 2 ∷ entry 3 ∷ entry 4 ∷ []) 3 1

apply_policy_settles_example :
    let after = (apply_policy 1001 batch_night cfg 5 []).0 in
    (has_quotas (get_quotas_for_pattern batch_night cfg) (lookup 1001 after) ≡ true)
    × (apply_policy 1001 batch_night cfg 9 after ≡ (after, false))
    × (false ≡ false → lookup 1002 after ≡ none)
apply_policy_settles_example = apply_policy_settles 1001 1002 batch_night cfg 5 9 [] refl

-- One cycle switches the limits on, and another off.
switched_on :
    (run_control_cycle ints exact obedient
      (input 100 (pos 90))
      (controller (record fresh { decision = waiting }))).0.manager.limits_active
    ≡ true
unfolding run_control_cycle finish_cycle execute_decision revert_boosts detect_patterns detect_from
    remediate_io revert_psi_boosts expired reset_weights delete_all activate_limits ensure_shared
    limit_eligible limit_users limit_user finish_activation drop_gone total_quota add_monitors call
    is_in_blackout make_decision decide_active decide_inactive decide_window io_window io_exceeded
    io_percent ram_exceeded cpu_exceeded all_below cpu_below ram_below io_below count_samples
    count_sample is_stable should_activate_limits reset since seconds wrap64 collect_system_metrics
    collect_users collect_user add_to_all add_to_eligible write_rate no_users cfg
switched_on = refl

switched_off :
    (run_control_cycle ints exact obedient
      (input 100 (pos 5))
      (controller almost_stable)).0.manager.limits_active
    ≡ false
unfolding run_control_cycle finish_cycle execute_decision revert_boosts detect_patterns detect_from
    remediate_io revert_psi_boosts expired reset_weights delete_all deactivate_limits clear
    unwatch_users remove_monitors restore_users restore_user lift_limits should_apply_ram_limits
    should_apply_io_limits wait run_jobs call is_in_blackout make_decision decide_active
    decide_inactive decide_window io_window io_exceeded io_percent ram_exceeded cpu_exceeded
    all_below cpu_below ram_below io_below count_samples count_sample is_stable
    should_activate_limits reset since seconds wrap64 collect_system_metrics collect_users
    collect_user add_to_all add_to_eligible write_rate no_users cfg
switched_off = refl

-- The limits are switched on when CPU has been over its threshold for 90 seconds.
cycle_switches_on_example :
    (is_in_blackout cfg 1 12 ≡ false)
    × IsDue ints cfg
        (measured ints exact obedient
          (input 100 (pos 90))
          (controller (record fresh { decision = waiting })))
        100000000000
        waiting
unfolding cfg
cycle_switches_on_example =
    cycle_switches_on ints exact obedient (input 100 (pos 90))
      (controller (record fresh { decision = waiting })) refl switched_on

-- They are switched off after a third quiet sample.
cycle_switches_off_example :
    (is_in_blackout cfg 1 12 ≡ false)
    × (all_below ints cfg
          (measured ints exact obedient (input 100 (pos 5)) (controller almost_stable))
        ≡ true)
unfolding cfg
cycle_switches_off_example =
    cycle_switches_off ints exact obedient (input 100 (pos 5)) (controller almost_stable) refl
      switched_off

-- One sample in the slot of noon.
abbrev sampled : UserHourlyStats ℤ
sampled = record {
  hourly_cpu = set_at 12 (pos 30) (copies 24 (pos 0));
  hourly_count = set_at 12 1 (copies 24 0);
  total_samples = 1;
  first_sample = 5;
  last_sample = 5;
}

update-AllCounted_example : AllCounted ints (update ints 12 9 1001 (pos 60) ((1001, sampled) ∷ []))
unfolding AllCounted
update-AllCounted_example =
    update-AllCounted ints 12 9 1001 (pos 60) ((1001, sampled) ∷ []) (omega arith)
      (record { cpu_slots = refl; count_slots = refl; samples = refl }, tt)

-- A user that is busy at night, after 24 samples.
abbrev nocturnal : UserHourlyStats ℤ
nocturnal = record {
  hourly_cpu = copies 7 (pos 100) ++ copies 15 (pos 10) ++ copies 2 (pos 100);
  hourly_count = copies 24 1;
  total_samples = 24;
  first_sample = 5;
  last_sample = 9;
}

analyze-confident_example :
    (s : UserHourlyStats ℤ) × (some nocturnal ≡ some s)
    × (cfg.pattern_min_samples ≤ℤ pos s.total_samples)
    × (ltb_ℤ (pos 0) cfg.pattern_confidence_threshold ≡ false)
unfolding analyze analyze_user classify_pattern if_confident match_shape average sum_at
    overall_average weighted_sum calculate_variance squared_sum cfg
analyze-confident_example =
    analyze-confident ints cfg 1001 ((1001, nocturnal) ∷ [])
      (record { pattern = batch_night; confidence = pos 0 }) refl refl
