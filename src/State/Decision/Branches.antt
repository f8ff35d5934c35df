-- ===== src/State/Decision/Branches.antt =====
-- What each half of `makeDecision` can answer, and on which metrics.
use cpu_manager_go.Prelude.{ℕ, Bool, true, ◌||◌, ◌≡◌, ◌≢◌, List, arith}
use cpu_manager_go.Prelude.Clock.{Instant}
use cpu_manager_go.Prelude.Dict.{Dict}
use cpu_manager_go.Prelude.Floats.{Floats}
use cpu_manager_go.Config.Defs.{Config}
use cpu_manager_go.State.Defs.{UserMetrics, SystemMetrics, activate_limits, deactivate_limits}
use cpu_manager_go.State.Decision.Defs.{
  DecisionState, make_decision, decide_active, decide_inactive, decide_window, all_below,
  cpu_exceeded, ram_exceeded, io_exceeded, io_window,
}

module _ (fl : Floats) where
  -- The time window can only withdraw that IO is exceeded.
  io_window-exceeded :
      (cfg : Config fl.F) (m : SystemMetrics fl.F) (now : Instant) (s : DecisionState)
      → (io_window fl cfg m now s.io_threshold_tracker).1 ≡ true
      → io_exceeded fl cfg m ≡ true
  unfolding io_window
  io_window-exceeded cfg m now s e = ground arith

  decide_inactive-exceeded :
      (cfg : Config fl.F) (m : SystemMetrics fl.F) (io : Bool) (now : Instant) (s : DecisionState)
      → (decide_inactive fl cfg m io now s).decision ≡ activate_limits
      → (cpu_exceeded fl cfg m || ram_exceeded fl cfg m || io) ≡ true
  unfolding decide_inactive
  decide_inactive-exceeded cfg m io now s e = ground arith

  decide_active-below :
      (cfg : Config fl.F) (m : SystemMetrics fl.F) (limited : List ℕ)
      (users : Dict (UserMetrics fl.F)) (now : Instant) (s : DecisionState)
      → (decide_active fl cfg m limited users now s).decision ≡ deactivate_limits
      → all_below fl cfg m ≡ true
  unfolding decide_active
  decide_active-below cfg m limited users now s e = ground arith

  pub decide_active-not_activate :
      (cfg : Config fl.F) (m : SystemMetrics fl.F) (limited : List ℕ)
      (users : Dict (UserMetrics fl.F)) (now : Instant) (s : DecisionState)
      → (decide_active fl cfg m limited users now s).decision ≢ activate_limits
  unfolding decide_active
  decide_active-not_activate cfg m limited users now s = ground arith

  pub decide_inactive-not_deactivate :
      (cfg : Config fl.F) (m : SystemMetrics fl.F) (io : Bool) (now : Instant) (s : DecisionState)
      → (decide_inactive fl cfg m io now s).decision ≢ deactivate_limits
  unfolding decide_inactive decide_window
  decide_inactive-not_deactivate cfg m io now s = ground arith

  module _ (cfg : Config fl.F) (m : SystemMetrics fl.F) (limited : List ℕ)
      (users : Dict (UserMetrics fl.F)) (now : Instant) (s : DecisionState) where
    pub activate-exceeded :
        (make_decision fl cfg m limited users now s).decision ≡ activate_limits
        → (cpu_exceeded fl cfg m || ram_exceeded fl cfg m || io_exceeded fl cfg m) ≡ true
    unfolding make_decision
    activate-exceeded e =
        let (t, io) = io_window fl cfg m now s.io_threshold_tracker in
        let s' = record s { io_threshold_tracker = t } in
        ground (
          arith,
          decide_active-not_activate cfg m limited users now s',
          decide_inactive-exceeded cfg m io now s',
          io_window-exceeded cfg m now s,
        )

    pub deactivate-below :
        (make_decision fl cfg m limited users now s).decision ≡ deactivate_limits
        → all_below fl cfg m ≡ true
    unfolding make_decision
    deactivate-below e =
        let (t, io) = io_window fl cfg m now s.io_threshold_tracker in
        let s' = record s { io_threshold_tracker = t } in
        ground (
          arith,
          decide_active-below cfg m limited users now s',
          decide_inactive-not_deactivate cfg m io now s',
        )
