-- ===== src/State/Decision/Activation.antt =====
-- Exactly when `makeDecision` activates the limits.
use cpu_manager_go.Prelude.{
  ℕ, ℤ, pos, ◌<ℤ◌, ◌≤ℤ◌, leb_ℤ, Bool, true, false, ◌||◌, ◌≡◌, ◌↔◌, ◌⊎◌, List, none, some, arith,
}
use cpu_manager_go.Prelude.Clock.{Instant, seconds, since_self}
use cpu_manager_go.Prelude.Dict.{Dict}
use cpu_manager_go.Prelude.Floats.{Floats}
use cpu_manager_go.Config.Defs.{Config}
use cpu_manager_go.State.Defs.{UserMetrics, SystemMetrics, activate_limits}
use cpu_manager_go.State.Tracker.{ThresholdTracker, should_activate_limits, get_elapsed}
use cpu_manager_go.State.Decision.Branches.{decide_active-not_activate}
use cpu_manager_go.State.Decision.Defs.{
  DecisionState, make_decision, decide_inactive, decide_window, cpu_exceeded, ram_exceeded,
  io_exceeded, io_percent, io_window,
}

-- The time window of a resource has passed, or there is none: by `GetElapsed` before the decision.
abbrev pub HasLasted : ℤ → Instant → ThresholdTracker → Type 0
HasLasted duration now t = (duration ≤ℤ pos 0) ⊎ (seconds duration ≤ℤ get_elapsed now t)

module _ (fl : Floats) where
  -- What has to hold before an activation.
  pub record IsDue (cfg : Config fl.F) (m : SystemMetrics fl.F) (now : Instant) (s : DecisionState)
      : Type 0 where
    pub inactive : s.limits_active ≡ false
    pub spare_cores : cfg.min_system_cores <ℤ m.total_cores
    pub load : (cfg.ignore_system_load ≡ true) ⊎ (m.system_under_load ≡ false)
    pub trigger :
        ((cpu_exceeded fl cfg m ≡ true)
          × HasLasted cfg.cpu_threshold_duration now s.threshold_tracker)
        ⊎ (ram_exceeded fl cfg m ≡ true)
        ⊎ ((io_exceeded fl cfg m ≡ true)
            × HasLasted cfg.io_threshold_duration now s.io_threshold_tracker)

  -- The answer of the tracker for a value at the threshold.
  ready_iff :
      (x threshold : fl.F) (d : ℤ) (now : Instant) (t : ThresholdTracker)
      → fl.leb threshold x ≡ true
      → (should_activate_limits fl x threshold d now t).1 ≡ leb_ℤ d (get_elapsed now t)
  unfolding should_activate_limits get_elapsed
  ready_iff x threshold d now t h = ground (arith, since_self now)

  module _ (cfg : Config fl.F) (m : SystemMetrics fl.F) (now : Instant) where
    -- The value that the IO window hands to its tracker is at the threshold.
    io_value :
        io_exceeded fl cfg m ≡ true
        → fl.leb
            (fl.of_int cfg.io_threshold)
            (elim (io_percent fl cfg m cfg.io_threshold) [ none ↦ fl.of_nat 0 | some p ↦ p ])
          ≡ true
    unfolding io_exceeded
    io_value h = ground arith

    io_window_iff :
        (t : ThresholdTracker)
        → ((io_window fl cfg m now t).1 ≡ true)
          ↔ ((io_exceeded fl cfg m ≡ true) × HasLasted cfg.io_threshold_duration now t)
    unfolding io_window
    io_window_iff t =
        let ready = λ (h : io_exceeded fl cfg m ≡ true).
          ready_iff _ (fl.of_int cfg.io_threshold) (seconds cfg.io_threshold_duration) now t
            (io_value h) in
        (λ e. ground (arith, ready), λ e. ground (arith, ready))

    -- What the CPU window adds.
    decide_window_iff :
        (ram io : Bool) (s : DecisionState)
        → (cpu_exceeded fl cfg m || ram || io) ≡ true
        → ((decide_window fl cfg m ram io now s).decision ≡ activate_limits) ↔ (
            ((cpu_exceeded fl cfg m ≡ true)
              × HasLasted cfg.cpu_threshold_duration now s.threshold_tracker)
            ⊎ ((ram || io) ≡ true))
    unfolding decide_window cpu_exceeded
    decide_window_iff ram io s h =
        let ready =
          ready_iff m.limited_users_cpu_usage (fl.of_int cfg.cpu_threshold)
            (seconds cfg.cpu_threshold_duration) now s.threshold_tracker in
        (λ e. ground (arith, ready), λ e. ground (arith, ready))

    decide_inactive_iff :
        (io : Bool) (s : DecisionState)
        → ((decide_inactive fl cfg m io now s).decision ≡ activate_limits) ↔ (
            (cfg.min_system_cores <ℤ m.total_cores)
            × ((cfg.ignore_system_load ≡ true) ⊎ (m.system_under_load ≡ false))
            × (((cpu_exceeded fl cfg m ≡ true)
                  × HasLasted cfg.cpu_threshold_duration now s.threshold_tracker)
                ⊎ ((ram_exceeded fl cfg m || io) ≡ true)))
    unfolding decide_inactive
    decide_inactive_iff io s =
        let window = decide_window_iff (ram_exceeded fl cfg m) io s in
        (λ e. ground (arith, window), λ e. ground (arith, window))

    -- `makeDecision` activates the limits exactly when they are not active, more cores are there
    -- than the system's minimum, the load counts for nothing or is low, and RAM is exceeded, or CPU
    -- is and has been for its window, or IO is and has been for its window. A window of zero or
    -- fewer seconds counts as passed; otherwise its tracker's `GetElapsed` decides.
    pub activate_iff :
        (limited : List ℕ) (users : Dict (UserMetrics fl.F)) (s : DecisionState)
        → ((make_decision fl cfg m limited users now s).decision ≡ activate_limits)
          ↔ IsDue cfg m now s
    unfolding make_decision
    activate_iff limited users s =
        let (t, io) = io_window fl cfg m now s.io_threshold_tracker in
        let s' = record s { io_threshold_tracker = t } in
        let active = decide_active-not_activate fl cfg m limited users now s' in
        let inactive = decide_inactive_iff io s' in
        let window = io_window_iff s.io_threshold_tracker in
        (
          λ e. ground (arith, active, inactive, window),
          λ e. ground (arith, active, inactive, window),
        )
