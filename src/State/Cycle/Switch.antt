-- ===== src/State/Cycle/Switch.antt =====
-- What switches the limits on and off in one control cycle.
use cpu_manager_go.Prelude.{
  ℕ, ◌-◌, ◌≡◌, refl, ◌∙◌, true, false, not, Option, none, some, List, [], ◌∷◌, if◌then◌else◌, arith,
  length, select, member,
}
use cpu_manager_go.Prelude.Clock.{Instant, seconds}
use cpu_manager_go.Prelude.Dict.{keep}
use cpu_manager_go.Prelude.Floats.{Floats}
use cpu_manager_go.Config.Defs.{Config}
use cpu_manager_go.Config.Blackout.{is_in_blackout}
use cpu_manager_go.Config.Filter.{Compile}
use cpu_manager_go.State.Cycle.Metrics.{collect_system_metrics}
use cpu_manager_go.State.Cycle.Reach.{
  make_decision-limits_active, detect_patterns-Frame, remediate_io-manager, reset_weights-Frame,
}
use cpu_manager_go.State.Cycle.Run.{
  Controller, Input, execute_decision, detect_patterns, remediate_io, revert_boosts, finish_cycle,
  run_control_cycle,
}
use cpu_manager_go.State.Decision.Activation.{IsDue, activate_iff}
use cpu_manager_go.State.Decision.Branches.{deactivate-below}
use cpu_manager_go.State.Decision.Defs.{Outcome, make_decision, all_below}
use cpu_manager_go.State.Defs.{
  SystemMetrics, Decision, activate_limits, deactivate_limits, maintain_current_state, other,
}
use cpu_manager_go.State.History.{record_control_cycle}
use cpu_manager_go.State.Limits.Activate.{
  activate_limits as start_limits, Progress, drop_gone, limit_eligible, limit_user, limit_users,
  finish_activation, ensure_shared,
}
use cpu_manager_go.State.Limits.Frame.{release_users-Frame, add_users-Frame}
use cpu_manager_go.State.Limits.Idle.{
  release_idle_users, mark_added, release_users, add_users, users_to_release, users_to_add, is_idle,
}
use cpu_manager_go.State.Limits.Invariant.{deactivate_limits-cleared}
use cpu_manager_go.State.Limits.Jobs.{add_monitors}
use cpu_manager_go.State.Manager.{
  Environment, Manager, Error, increment_limits_activated, call, do_call,
}
use cpu_manager_go.State.Psi.{expired, revert_psi_boosts}

module _ (fl : Floats) (env : Environment) where
  limit_user-decision :
      (cfg : Config fl.F) (uid : ℕ) (p : Progress fl.F)
      → (limit_user fl env cfg uid p).manager.limits_active ≡ p.manager.limits_active
  unfolding limit_user call add_monitors
  limit_user-decision cfg uid p = ground arith

  limit_users-decision :
      (cfg : Config fl.F) (uids : List ℕ) (p : Progress fl.F)
      → (limit_users fl env cfg uids p).manager.limits_active ≡ p.manager.limits_active
  unfolding limit_users
  limit_users-decision cfg [] p = refl
  limit_users-decision cfg (uid ∷ uids) p =
      limit_users-decision cfg uids (limit_user fl env cfg uid p) ∙ limit_user-decision cfg uid p

  limit_eligible-on :
      (metrics : SystemMetrics fl.F) (now : Instant) (removed : ℕ) (s : Manager fl.F)
      (e : Option Error)
      → s.limits_active ≡ true
      → (limit_eligible fl env metrics now removed (s, e)).0.limits_active ≡ true
  unfolding limit_eligible finish_activation
  limit_eligible-on metrics now removed s (some e) h = h
  limit_eligible-on metrics now removed s none h =
      let start : Progress fl.F = record { manager = s; limited_count = 0; first_error = none } in
      ground (arith, limit_users-decision s.cfg metrics.eligible_users start, h)

  ensure_shared-limits_active :
      (metrics : SystemMetrics fl.F) (m : Manager fl.F)
      → (ensure_shared fl env metrics m).0.limits_active ≡ m.limits_active
  unfolding ensure_shared call
  ensure_shared-limits_active metrics m = ground arith

  start_limits-on :
      (metrics : SystemMetrics fl.F) (now : Instant) (m : Manager fl.F)
      → m.limits_active ≡ true
      → (start_limits fl env metrics now m).0.limits_active ≡ true
  unfolding start_limits drop_gone call
  start_limits-on metrics now m h =
      let counted = if m.has_exporter then do_call env increment_limits_activated m else m in
      let kept = drop_gone fl env metrics counted in
      let (shared, e) = ensure_shared fl env metrics kept in
      let same = ensure_shared-limits_active metrics kept in
      let on : shared.limits_active ≡ true = ground (arith, h) in
      limit_eligible-on metrics now (length m.active_users - length kept.active_users) shared e on

  mark_added-limits_active :
      (now : Instant) (added : List ℕ) (m : Manager fl.F)
      → (mark_added fl env now added m).limits_active ≡ m.limits_active
  unfolding mark_added
  mark_added-limits_active now [] m = refl
  mark_added-limits_active now (uid ∷ uids) m = refl

  release_idle_users-limits_active :
      (metrics : SystemMetrics fl.F) (now : Instant) (m : Manager fl.F)
      → (release_idle_users fl env metrics now m).limits_active ≡ m.limits_active
  unfolding release_idle_users
  release_idle_users-limits_active metrics now m =
      let start = record m {
        active_users = select (λ uid. not (is_idle fl metrics.user_cpu_usage uid)) m.active_users;
        psi_boosted_at =
            keep (λ uid _. not (member uid (users_to_release fl metrics m))) m.psi_boosted_at;
      } in
      let released =
        release_users fl env m.shared_cgroup_path (users_to_release fl metrics m) start in
      let f =
        release_users-Frame fl env m.shared_cgroup_path (users_to_release fl metrics m) start in
      let s = add_users fl env m.shared_cgroup_path (users_to_add fl metrics m) (released, []) in
      let g = add_users-Frame fl env m.shared_cgroup_path (users_to_add fl metrics m) released [] in
      let marked = mark_added-limits_active now s.1 s.0 in ground arith

module _ (fl : Floats) (compile : Compile) (env : Environment) where
  finish_cycle-limits_active :
      (i : Input fl.F) (o : Outcome) (metrics : SystemMetrics fl.F) (c : Controller fl.F)
      (e : Option Error)
      → (finish_cycle fl compile env i o metrics c e).0.manager.limits_active
        ≡ c.manager.limits_active
  unfolding finish_cycle revert_boosts revert_psi_boosts
  finish_cycle-limits_active i o metrics c (some e) = refl
  finish_cycle-limits_active i o metrics c none =
      let recorded = record c {
        history =
            record_control_cycle o.decision o.reason metrics c.manager.limits_active i.duration_ms
              i.now c.history;
      } in
      let remediated = remediate_io fl compile env i recorded in
      let same = remediate_io-manager fl compile env i recorded in
      let m = remediated.manager in
      let f = detect_patterns-Frame fl compile env i remediated in
      let detected = detect_patterns fl compile env i remediated in
      let kept : detected.manager.limits_active ≡ m.limits_active = ground arith in
      let d = detected.manager in
      let g =
        reset_weights-Frame fl compile env
          (expired (seconds d.cfg.psi_boost_duration) i.now d.psi_boosted_at) d in
      ground arith

  -- Which decision switches the limits.
  execute_decision-switch :
      (d : Decision) (metrics : SystemMetrics fl.F) (now : Instant) (m : Manager fl.F)
      → let after = (execute_decision fl compile env d metrics now m).0.limits_active in
        (m.limits_active ≡ false → after ≡ true → d ≡ activate_limits)
        × (m.limits_active ≡ true → after ≡ false → d ≡ deactivate_limits)
  unfolding execute_decision
  execute_decision-switch activate_limits metrics now m =
      let on = start_limits-on fl env metrics now m in ground arith
  execute_decision-switch deactivate_limits metrics now m =
      let off = deactivate_limits-cleared fl compile env m in ground arith
  execute_decision-switch maintain_current_state metrics now m =
      let same = release_idle_users-limits_active fl env metrics now m in ground arith
  execute_decision-switch other metrics now m = ground arith

  module _ (i : Input fl.F) (c : Controller fl.F) where
    -- The metrics of the cycle.
    abbrev pub measured : SystemMetrics fl.F
    measured = (collect_system_metrics fl true i.now c.manager.active_users i.reading c.rates).0

    abbrev decided : Outcome
    decided =
        make_decision fl c.manager.cfg measured i.limited_users i.user_metrics i.now
          c.manager.decision

    cycle-decision :
        let after = (run_control_cycle fl compile env i c).0.manager.limits_active in
        (c.manager.limits_active ≡ false
          → after ≡ true
          → (is_in_blackout c.manager.cfg i.day i.hour_of_day ≡ false)
            × (decided.decision ≡ activate_limits))
        × (c.manager.limits_active ≡ true
            → after ≡ false
            → (is_in_blackout c.manager.cfg i.day i.hour_of_day ≡ false)
              × (decided.decision ≡ deactivate_limits))
    unfolding run_control_cycle
    cycle-decision =
        let (metrics, rates) =
          collect_system_metrics fl true i.now c.manager.active_users i.reading c.rates in
        let m = record c.manager { decision = decided.state } in
        let same =
          make_decision-limits_active fl c.manager.cfg measured i.limited_users i.user_metrics i.now
            c.manager.decision in
        let (m', e) = execute_decision fl compile env decided.decision measured i.now m in
        let switch = execute_decision-switch decided.decision measured i.now m in
        let kept =
          finish_cycle-limits_active i decided measured (record c { manager = m'; rates = rates })
            e in
        ground arith

    -- A control cycle that begins without active limits and ends with them is outside every blackout,
    -- and its metrics made the activation due: there are spare cores, the load is the users' or
    -- ignored, and a resource exceeds its threshold now and, for CPU and IO where they have a window,
    -- the time that `GetElapsed` reports of its tracker, from the sample that the tracker holds as its
    -- first one, is at least the window.
    pub cycle_switches_on :
        c.manager.limits_active ≡ false
        → (run_control_cycle fl compile env i c).0.manager.limits_active ≡ true
        → (is_in_blackout c.manager.cfg i.day i.hour_of_day ≡ false)
          × IsDue fl c.manager.cfg measured i.now c.manager.decision
    cycle_switches_on off on =
        let d = cycle-decision.0 off on in
        (
          d.0,
          (activate_iff fl c.manager.cfg measured i.now i.limited_users i.user_metrics
                c.manager.decision).0
              d.1,
        )

    -- A control cycle that begins with active limits and ends without them is outside every blackout,
    -- and finds the CPU, RAM and IO usage of the users below the release thresholds.
    pub cycle_switches_off :
        c.manager.limits_active ≡ true
        → (run_control_cycle fl compile env i c).0.manager.limits_active ≡ false
        → (is_in_blackout c.manager.cfg i.day i.hour_of_day ≡ false)
          × (all_below fl c.manager.cfg measured ≡ true)
    cycle_switches_off on off =
        let d = cycle-decision.1 on off in
        (
          d.0,
          deactivate-below fl c.manager.cfg measured i.limited_users i.user_metrics i.now
              c.manager.decision d.1,
        )
