-- ===== src/Tests/Decisions.antt =====
-- The decision engine at concrete inputs.
use cpu_manager_go.Prelude.{
  ℕ, ◌*◌, ◌≤◌, wrap64, ℤ, pos, ◌≤ℤ◌, ◌≡◌, ◌≢◌, ◌↔◌, refl, true, List, [], ◌∷◌, arith,
}
use cpu_manager_go.Prelude.Clock.{since, seconds}
use cpu_manager_go.State.Decision.Activation.{IsDue, activate_iff}
use cpu_manager_go.State.Decision.Defs.{
  make_decision, decide_inactive, decide_window, decide_active, io_window, cpu_exceeded,
  ram_exceeded, io_exceeded, io_percent, all_below, cpu_below, ram_below, io_below, count_samples,
  count_sample, is_stable,
}
use cpu_manager_go.State.Decision.Hysteresis.{IsHysteretic, no_flapping}
use cpu_manager_go.State.Decision.Release.{
  Cycle, after, count, quiet_run, count-after, deactivate_quiet,
}
use cpu_manager_go.State.Defs.{SystemMetrics, activate_limits, deactivate_limits}
use cpu_manager_go.State.Tracker.{should_activate_limits, reset}
use cpu_manager_go.State.Tracker.Window.{Sample, track, is_over, streak, begin, should_activate_iff}
use cpu_manager_go.Tests.Model.{ints, ints_Comparisons, cfg, usage, waiting, active}

abbrev busy : SystemMetrics ℤ
busy = usage (pos 60) (pos 30)

abbrev calm : SystemMetrics ℤ
calm = usage (pos 5) (pos 0)

abbrev second : ℕ
second = 1000000000

activate_iff_example :
    ((make_decision ints cfg busy [] [] (100 * second) waiting).decision ≡ activate_limits)
    ↔ IsDue ints cfg busy (100 * second) waiting
activate_iff_example = activate_iff ints cfg busy (100 * second) [] [] waiting

cfg-IsHysteretic : IsHysteretic cfg
unfolding cfg
cfg-IsHysteretic = record { cpu = omega arith; ram = λ e. ground arith; io = λ e. ground arith }

no_flapping_example :
    (make_decision ints cfg busy (1001 ∷ []) [] (200 * second) active).decision ≢ deactivate_limits
unfolding make_decision decide_inactive decide_window io_window io_exceeded io_percent ram_exceeded
    cpu_exceeded should_activate_limits since seconds wrap64 reset cfg
no_flapping_example =
    no_flapping ints ints_Comparisons cfg busy cfg-IsHysteretic [] (1001 ∷ []) [] [] (100 * second)
      (200 * second) waiting active refl

should_activate_iff_example :
    let h : List (Sample ℤ) =
      record { value = pos 80; now = 30 } ∷ record { value = pos 90; now = 10 } ∷ [] in
    let x : Sample ℤ = record { value = pos 75; now = 50 } in
    ((should_activate_limits ints
        (pos 75)
        (pos 75)
        (pos 40)
        50
        (track ints (pos 75) (pos 40) h waiting.threshold_tracker)).1
      ≡ true)
    ↔ ((is_over ints (pos 75) (pos 40) x ≡ true)
        × (pos 40
            ≤ℤ since 50 (begin ints (pos 75) (pos 40) (streak ints (pos 75) (pos 40) (x ∷ h)))))
should_activate_iff_example =
    should_activate_iff ints (pos 75) (pos 40) (record { value = pos 75; now = 50 })
      (record { value = pos 80; now = 30 } ∷ record { value = pos 90; now = 10 } ∷ [])
      waiting.threshold_tracker (omega arith, (omega arith, (omega arith, tt)))

-- A quiet cycle, so many seconds after the start.
abbrev quiet_at : ℕ → Cycle ℤ
quiet_at n = record {
  cfg = cfg;
  applied = second;
  metrics = calm;
  limited = 1001 ∷ [];
  users = calm.user_metrics;
  now = n * second;
}

-- A cycle in which the CPU is loaded.
abbrev loaded_at : ℕ → Cycle ℤ
loaded_at n = record (quiet_at n) { metrics = busy }

count-after_example :
    count 1001
      (after ints (quiet_at 130 ∷ loaded_at 120 ∷ quiet_at 100 ∷ []) active).under_threshold
    ≡ quiet_run ints 1001 (quiet_at 130 ∷ loaded_at 120 ∷ quiet_at 100 ∷ [])
count-after_example =
    count-after ints 1001 (quiet_at 130 ∷ loaded_at 120 ∷ quiet_at 100 ∷ []) active refl refl
      ((refl, tt), ((refl, tt), ((refl, tt), tt)))

-- The loaded cycle does not keep the limits on.
deactivate_quiet_example :
    3 ≤ quiet_run ints 1001 (quiet_at 160 ∷ quiet_at 130 ∷ loaded_at 120 ∷ quiet_at 100 ∷ [])
unfolding after make_decision decide_active io_window io_exceeded io_percent all_below cpu_below
    ram_below io_below count_samples count_sample is_stable since seconds wrap64 reset cfg
deactivate_quiet_example =
    deactivate_quiet ints 1001 (quiet_at 160) (quiet_at 130 ∷ loaded_at 120 ∷ quiet_at 100 ∷ [])
      active refl refl ((refl, tt), ((refl, tt), ((refl, tt), ((refl, tt), tt)))) refl refl
