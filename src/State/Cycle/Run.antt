-- ===== src/State/Cycle/Run.antt =====
-- state/control_cycle.go: the stages of a control cycle, and `executeDecision` of
-- state/decision_engine.go. The stages that only report (Prometheus, the database, the log) change
-- nothing of this state and are left out.
use cpu_manager_go.Prelude.{
  ℕ, ◌*◌, ℤ, pos, ltb_ℤ, true, Option, none, some, List, [], ◌∷◌, ◌++◌, if◌then◌else◌, is_empty,
}
use cpu_manager_go.Prelude.Clock.{Instant, since, hour, nano}
use cpu_manager_go.Prelude.Dict.{Dict, lookup}
use cpu_manager_go.Prelude.Floats.{Floats}
use cpu_manager_go.Prelude.Text.{text, format_int}
use cpu_manager_go.Config.Blackout.{is_in_blackout}
use cpu_manager_go.Config.Defs.{Config}
use cpu_manager_go.Config.Filter.{Compile}
use cpu_manager_go.State.Cycle.Metrics.{Reading, IoRates, collect_system_metrics}
use cpu_manager_go.State.Decision.Defs.{Outcome, make_decision}
use cpu_manager_go.State.Defs.{
  UserMetrics, SystemMetrics, Decision, activate_limits, deactivate_limits, maintain_current_state,
  other,
}
use cpu_manager_go.State.History.{ControlHistory, record_control_cycle}
use cpu_manager_go.State.IoRemediation.{IoRemediation, Answers, check_and_remediate}
use cpu_manager_go.State.IoRemediation.{cleanup as cleanup_boosts}
use cpu_manager_go.State.Limits.Activate.{activate_limits as start_limits}
use cpu_manager_go.State.Limits.Deactivate.{deactivate_limits as end_limits}
use cpu_manager_go.State.Limits.Idle.{release_idle_users}
use cpu_manager_go.State.Manager.{
  Environment, Manager, Error, unknown_decision, do_call, apply_cpu_limit, apply_ram_limit,
}
use cpu_manager_go.State.PatternDetector.{
  UserHourlyStats, PatternResult, update, analyze, hours, cleanup_stats,
}
use cpu_manager_go.State.Policy.{
  Policies, UserPolicy, WorkloadPattern, apply_policy, cleanup_policies,
}
use cpu_manager_go.State.Psi.{revert_psi_boosts}

-- The `Manager` with the parts of its state that only the cycle uses.
pub record Controller (F : Type 0) : Type 0 where
  pub manager : Manager F
  pub history : ControlHistory F
  pub rates : IoRates
  pub remediation : Option IoRemediation
  pub policies : Policies
  pub detector : Option (Dict (UserHourlyStats F))
  pub last_pattern_analysis : Instant

-- What one cycle is given: the clock, what the collector answers at each call of it, and what the
-- cgroups answer to the remediation.
pub record Input (F : Type 0) : Type 0 where
  pub day : ℕ
  pub hour_of_day : ℕ
  pub now : Instant
  pub reading : Reading F
  pub limited_users : List ℕ
  pub user_metrics : Dict (UserMetrics F)
  pub answers : Answers F
  pub duration_ms : ℤ

module _ (fl : Floats) (compile : Compile) (env : Environment) where
  -- `executeDecision`
  unfoldable pub execute_decision :
      Decision → SystemMetrics fl.F → Instant → Manager fl.F → Manager fl.F × Option Error
  execute_decision activate_limits metrics now m = start_limits fl env metrics now m
  execute_decision deactivate_limits metrics now m = end_limits fl compile env m
  execute_decision maintain_current_state metrics now m =
      (release_idle_users fl env metrics now m, none)
  execute_decision other metrics now m = (m, some unknown_decision)

  -- The quotas of a changed policy; failures are only logged.
  unfoldable pub apply_quotas : ℕ → UserPolicy → Manager fl.F → Manager fl.F
  apply_quotas uid p m =
      let cpu =
        if ltb_ℤ (pos 0) p.cpu_quota
        then do_call env (apply_cpu_limit uid (format_int p.cpu_quota ++ text " 100000")) m
        else m in
      if is_empty p.ram_quota then cpu else do_call env (apply_ram_limit uid p.ram_quota) cpu

  -- Those of the policy that is found.
  unfoldable pub apply_found : ℕ → Option UserPolicy → Manager fl.F → Manager fl.F
  apply_found uid none m = m
  apply_found uid (some p) m = apply_quotas uid p m

  -- One user of the loop over the patterns.
  unfoldable pub apply_pattern :
      Config fl.F
      → Instant
      → ℕ
      → WorkloadPattern
      → Manager fl.F × Policies
      → Manager fl.F × Policies
  apply_pattern cfg now uid pattern (m, policies) =
      let (policies', changed) = apply_policy uid pattern cfg now policies in
      if changed then (apply_found uid (lookup uid policies') m, policies') else (m, policies')

  unfoldable pub apply_patterns :
      Config fl.F
      → Instant
      → Dict (PatternResult fl.F)
      → Manager fl.F × Policies
      → Manager fl.F × Policies
  apply_patterns cfg now [] s = s
  apply_patterns cfg now ((uid, result) ∷ results) s =
      apply_patterns cfg now results (apply_pattern cfg now uid result.pattern s)

  -- The samples of all users.
  unfoldable pub update_users :
      ℕ
      → Instant
      → Dict (UserMetrics fl.F)
      → Dict (UserHourlyStats fl.F)
      → Dict (UserHourlyStats fl.F)
  update_users slot now [] stats = stats
  update_users slot now ((uid, um) ∷ users) stats =
      update_users slot now users (update fl slot now uid um.cpu_usage stats)

  -- `stageWorkloadPatternDetection` with a detector: the patterns count once an hour.
  unfoldable pub detect_with :
      Input fl.F → Controller fl.F → Dict (UserHourlyStats fl.F) → Controller fl.F
  detect_with i c stats =
      let cfg = c.manager.cfg in
      let (m, policies) = apply_patterns cfg i.now (analyze fl cfg stats) (c.manager, c.policies) in
      if ltb_ℤ hour (since i.now c.last_pattern_analysis)
      then record c {
        manager = m;
        detector = some (cleanup_stats (hours cfg.pattern_history_hours) i.now stats);
        policies = cleanup_policies (pos (24 * 3600 * nano)) i.now policies;
        last_pattern_analysis = i.now;
      }
      else record c { detector = some stats }

  unfoldable pub detect_from :
      Input fl.F → Controller fl.F → Option (Dict (UserHourlyStats fl.F)) → Controller fl.F
  detect_from i c none = c
  detect_from i c (some stats) =
      if c.manager.cfg.autodetect_patterns
      then detect_with i c (update_users i.hour_of_day i.now i.user_metrics stats)
      else c

  -- `stageWorkloadPatternDetection`
  unfoldable pub detect_patterns : Input fl.F → Controller fl.F → Controller fl.F
  detect_patterns i c = detect_from i c c.detector

  -- `stageIORemediation`
  unfoldable pub remediate_io : Input fl.F → Controller fl.F → Controller fl.F
  remediate_io i c = elim c.remediation [
    | none ↦ c
    | some r ↦ record c {
      remediation = some (
          cleanup_boosts (pos (24 * 3600 * nano)) i.now
            (check_and_remediate fl c.manager.cfg i.now i.answers i.limited_users r).0);
    }
  ]

  -- `stageRevertPSIBoosts`
  unfoldable pub revert_boosts : Input fl.F → Controller fl.F → Controller fl.F
  revert_boosts i c =
      if c.manager.has_psi_watcher
      then record c { manager = revert_psi_boosts env i.now c.manager }
      else c

  -- The stages after a decision is executed: an error of it ends the cycle.
  unfoldable pub finish_cycle :
      Input fl.F
      → Outcome
      → SystemMetrics fl.F
      → Controller fl.F
      → Option Error
      → Controller fl.F × Option Error
  finish_cycle i outcome metrics c (some e) = (c, some e)
  finish_cycle i outcome metrics c none =
      let recorded = record c {
        history =
            record_control_cycle outcome.decision outcome.reason metrics c.manager.limits_active
              i.duration_ms i.now c.history;
      } in
      (revert_boosts i (detect_patterns i (remediate_io i recorded)), none)

  -- `RunControlCycleWithTrigger`
  unfoldable pub run_control_cycle : Input fl.F → Controller fl.F → Controller fl.F × Option Error
  run_control_cycle i c =
      let m = c.manager in
      let (metrics, rates) =
        collect_system_metrics fl true i.now m.active_users i.reading c.rates in
      let outcome =
        make_decision fl m.cfg metrics i.limited_users i.user_metrics i.now m.decision in
      let (m', error) =
        execute_decision outcome.decision metrics i.now (record m { decision = outcome.state }) in
      if is_in_blackout m.cfg i.day i.hour_of_day
      then (c, none)
      else finish_cycle i outcome metrics (record c { manager = m'; rates = rates }) error
