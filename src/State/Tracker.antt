-- ===== src/State/Tracker.antt =====
-- state/decision_engine.go: `ThresholdTracker`, which measures for how long a value has stayed at
-- or above its threshold. Each call reads the clock once, as `now`. The two counters are only
-- incremented, once in a cycle, and do not reach the end of an `int`.
pub mod Window
use cpu_manager_go.Prelude.{ℕ, ◌+◌, ℤ, pos, leb_ℤ, Bool, true, false, if◌then◌else◌}
use cpu_manager_go.Prelude.Clock.{Instant, is_zero, since}
use cpu_manager_go.Prelude.Floats.{Floats}

pub record ThresholdTracker : Type 0 where
  pub first_over_threshold_time : Instant
  pub over_threshold_cycles : ℕ
  pub total_cycles : ℕ

-- `Reset`
unfoldable pub reset : ThresholdTracker → ThresholdTracker
reset t = record t { first_over_threshold_time = 0; over_threshold_cycles = 0; total_cycles = 0 }

-- The instant from which the time above the threshold counts.
abbrev first_over : Instant → Instant → Instant
first_over now first = if is_zero first then now else first

-- `ShouldActivateLimits`
unfoldable pub should_activate_limits :
    (fl : Floats) → fl.F → fl.F → ℤ → Instant → ThresholdTracker → ThresholdTracker × Bool
should_activate_limits fl current threshold required now t =
    if fl.leb threshold current
    then (
      record t {
        first_over_threshold_time = first_over now t.first_over_threshold_time;
        over_threshold_cycles = t.over_threshold_cycles + 1;
        total_cycles = t.total_cycles + 1;
      },
      leb_ℤ required (since now (first_over now t.first_over_threshold_time)),
    )
    else (record t { first_over_threshold_time = 0; over_threshold_cycles = 0 }, false)

-- `GetElapsed`
unfoldable pub get_elapsed : Instant → ThresholdTracker → ℤ
get_elapsed now t =
    if is_zero t.first_over_threshold_time then pos 0 else since now t.first_over_threshold_time
