-- ===== src/State/Cycle/Reach.antt =====
-- Everything that can happen to the program's state, one step after the other, and its invariant.
use cpu_manager_go.Prelude.{ℕ, ◌≡◌, true, Option, none, some, List, [], ◌∷◌, ◌++◌, arith}
use cpu_manager_go.Prelude.Clock.{Instant, seconds}
use cpu_manager_go.Prelude.Dict.{Dict, lookup}
use cpu_manager_go.Prelude.Floats.{Floats}
use cpu_manager_go.Config.Defs.{Config}
use cpu_manager_go.Config.Filter.{Compile}
use cpu_manager_go.State.Cycle.Metrics.{IoRates, collect_system_metrics}
use cpu_manager_go.State.Cycle.Run.{
  Controller, Input, execute_decision, apply_quotas, apply_found, apply_pattern, apply_patterns,
  update_users, detect_with, detect_from, detect_patterns, remediate_io, revert_boosts,
  finish_cycle, run_control_cycle,
}
use cpu_manager_go.State.Decision.Defs.{
  DecisionState, Outcome, make_decision, decide_active, decide_inactive, decide_window,
}
use cpu_manager_go.State.Defs.{
  UserMetrics, SystemMetrics, Decision, activate_limits, deactivate_limits, maintain_current_state,
  other,
}
use cpu_manager_go.State.History.{record_control_cycle}
use cpu_manager_go.State.Limits.Activate.{activate_limits as start_limits}
use cpu_manager_go.State.Limits.Deactivate.{force_deactivate_limits, cleanup}
use cpu_manager_go.State.Limits.Frame.{Frame, Frame-refl, Frame-trans, call-Frame, run_job-Frame}
use cpu_manager_go.State.Limits.Invariant.{
  Inv, Rooted, Frame-Inv, activate_limits-Inv, release_idle_users-Inv, deactivate_limits-Inv,
  force_deactivate_limits-Inv, cleanup-Inv,
}
use cpu_manager_go.State.Limits.Jobs.{run_job}
use cpu_manager_go.State.Manager.{Environment, Manager, Job, Error, call}
use cpu_manager_go.State.PatternDetector.{UserHourlyStats, PatternResult, analyze}
use cpu_manager_go.State.Policy.{Policies, UserPolicy, WorkloadPattern, apply_policy}
use cpu_manager_go.State.Psi.{on_user_psi_event, reset_weights, expired, revert_psi_boosts}

module _ (fl : Floats) where
  -- A decision does not switch the limits.
  pub make_decision-limits_active :
      (cfg : Config fl.F) (m : SystemMetrics fl.F) (limited : List ℕ)
      (users : Dict (UserMetrics fl.F)) (now : Instant) (s : DecisionState)
      → (make_decision fl cfg m limited users now s).state.limits_active ≡ s.limits_active
  unfolding make_decision decide_active decide_inactive decide_window
  make_decision-limits_active cfg m limited users now s = ground arith

module _ (fl : Floats) (compile : Compile) (env : Environment) where
  -- What happens to the program, and the step that it takes.
  pub data Step : Controller fl.F → Controller fl.F → Type 0 where
    cycle : {c : Controller fl.F} (i : Input fl.F) → Step c (run_control_cycle fl compile env i c).0
    force_activate :
        {c : Controller fl.F} (now : Instant) (metrics : SystemMetrics fl.F) (rates : IoRates)
        → Step c
            (record c { manager = (start_limits fl env metrics now c.manager).0; rates = rates })
    force_deactivate :
        {c : Controller fl.F}
        → Step c (record c { manager = (force_deactivate_limits fl compile env c.manager).0 })
    psi_event :
        {c : Controller fl.F} (uid : ℕ) (now : Instant)
        → Step c (record c { manager = on_user_psi_event env uid now c.manager })
    goroutine :
        {c : Controller fl.F} (before after : List (Job fl.F)) (j : Job fl.F)
        → c.manager.pending ≡ before ++ j ∷ after
        → Step c (record c {
          manager = run_job fl compile env j (record c.manager { pending = before ++ after });
        })
    update_config :
        {c : Controller fl.F} (cfg : Config fl.F)
        → Step c (record c { manager = record c.manager { cfg = cfg } })
    shut_down :
        {c : Controller fl.F} → Step c (record c { manager = (cleanup fl compile env c.manager).0 })

  pub data Reach (start : Controller fl.F) : Controller fl.F → Type 0 where
    here : Reach start start
    one_more : {c c' : Controller fl.F} → Reach start c → Step c c' → Reach start c'

  execute_decision-Inv :
      (d : Decision) (metrics : SystemMetrics fl.F) (now : Instant) (m : Manager fl.F)
      → Rooted env
      → Inv m
      → Inv (execute_decision fl compile env d metrics now m).0
  unfolding execute_decision
  execute_decision-Inv activate_limits metrics now m r h =
      activate_limits-Inv fl env metrics now m r h
  execute_decision-Inv deactivate_limits metrics now m r h = deactivate_limits-Inv fl compile env m
  execute_decision-Inv maintain_current_state metrics now m r h =
      release_idle_users-Inv fl env metrics now m h
  execute_decision-Inv other metrics now m r h = h

  apply_quotas-Frame :
      (uid : ℕ) (p : UserPolicy) (m : Manager fl.F) → Frame m (apply_quotas fl compile env uid p m)
  unfolding apply_quotas call
  apply_quotas-Frame uid p m = ground arith

  apply_found-Frame :
      (uid : ℕ) (p : Option UserPolicy) (m : Manager fl.F)
      → Frame m (apply_found fl compile env uid p m)
  unfolding apply_found
  apply_found-Frame uid none m = Frame-refl m
  apply_found-Frame uid (some p) m = apply_quotas-Frame uid p m

  apply_pattern-Frame :
      (cfg : Config fl.F) (now : Instant) (uid : ℕ) (pattern : WorkloadPattern) (m : Manager fl.F)
      (policies : Policies)
      → Frame m (apply_pattern fl compile env cfg now uid pattern (m, policies)).0
  unfolding apply_pattern
  apply_pattern-Frame cfg now uid pattern m policies =
      let found = lookup uid (apply_policy uid pattern cfg now policies).0 in
      ground (arith, apply_found-Frame uid found m, Frame-refl m)

  apply_patterns-Frame :
      (cfg : Config fl.F) (now : Instant) (results : Dict (PatternResult fl.F)) (m : Manager fl.F)
      (policies : Policies)
      → Frame m (apply_patterns fl compile env cfg now results (m, policies)).0
  unfolding apply_patterns
  apply_patterns-Frame cfg now [] m policies = Frame-refl m
  apply_patterns-Frame cfg now ((uid, result) ∷ results) m policies =
      let (next, changed) = apply_pattern fl compile env cfg now uid result.pattern (m, policies) in
      Frame-trans m next _ (apply_pattern-Frame cfg now uid result.pattern m policies)
        (apply_patterns-Frame cfg now results next changed)

  detect_from-Frame :
      (i : Input fl.F) (c : Controller fl.F) (stats : Option (Dict (UserHourlyStats fl.F)))
      → Frame c.manager (detect_from fl compile env i c stats).manager
  unfolding detect_from detect_with
  detect_from-Frame i c none = Frame-refl c.manager
  detect_from-Frame i c (some stats) =
      let cfg = c.manager.cfg in
      let updated = update_users fl compile env i.hour_of_day i.now i.user_metrics stats in
      ground (
        arith,
        apply_patterns-Frame cfg i.now (analyze fl cfg updated) c.manager c.policies,
        Frame-refl c.manager,
      )

  pub detect_patterns-Frame :
      (i : Input fl.F) (c : Controller fl.F)
      → Frame c.manager (detect_patterns fl compile env i c).manager
  unfolding detect_patterns
  detect_patterns-Frame i c = detect_from-Frame i c c.detector

  pub remediate_io-manager :
      (i : Input fl.F) (c : Controller fl.F) → (remediate_io fl compile env i c).manager ≡ c.manager
  unfolding remediate_io
  remediate_io-manager i c = ground arith

  pub reset_weights-Frame : (uids : List ℕ) (m : Manager fl.F) → Frame m (reset_weights env uids m)
  unfolding reset_weights
  reset_weights-Frame [] m = Frame-refl m
  reset_weights-Frame (uid ∷ uids) m =
      Frame-trans m _ _ (call-Frame env _ m) (reset_weights-Frame uids _)

  revert_psi_boosts-Inv :
      (now : Instant) (m : Manager fl.F) → Inv m → Inv (revert_psi_boosts env now m)
  unfolding revert_psi_boosts
  revert_psi_boosts-Inv now m h =
      let f =
        reset_weights-Frame (expired (seconds m.cfg.psi_boost_duration) now m.psi_boosted_at) m in
      ground (arith, h)

  on_user_psi_event-Inv :
      (uid : ℕ) (now : Instant) (m : Manager fl.F) → Inv m → Inv (on_user_psi_event env uid now m)
  unfolding on_user_psi_event call
  on_user_psi_event-Inv uid now m h = ground arith

  finish_cycle-Inv :
      (i : Input fl.F) (o : Outcome) (metrics : SystemMetrics fl.F) (c : Controller fl.F)
      (e : Option Error)
      → Inv c.manager
      → Inv (finish_cycle fl compile env i o metrics c e).0.manager
  unfolding finish_cycle revert_boosts
  finish_cycle-Inv i o metrics c (some e) h = h
  finish_cycle-Inv i o metrics c none h =
      let recorded = record c {
        history =
            record_control_cycle o.decision o.reason metrics c.manager.limits_active i.duration_ms
              i.now c.history;
      } in
      let detected = detect_patterns fl compile env i (remediate_io fl compile env i recorded) in
      let same = remediate_io-manager i recorded in
      let detected-Inv =
        Frame-Inv (remediate_io fl compile env i recorded).manager detected.manager
          (detect_patterns-Frame i (remediate_io fl compile env i recorded)) (ground arith) in
      ground (arith, revert_psi_boosts-Inv i.now detected.manager detected-Inv)

  cycle-Inv :
      (i : Input fl.F) (c : Controller fl.F)
      → Rooted env
      → Inv c.manager
      → Inv (run_control_cycle fl compile env i c).0.manager
  unfolding run_control_cycle
  cycle-Inv i c r h =
      let m = c.manager in
      let (metrics, rates) =
        collect_system_metrics fl true i.now m.active_users i.reading c.rates in
      let o = make_decision fl m.cfg metrics i.limited_users i.user_metrics i.now m.decision in
      let decided = record m { decision = o.state } in
      let same =
        make_decision-limits_active fl m.cfg metrics i.limited_users i.user_metrics i.now
          m.decision in
      let decided-Inv : Inv decided = ground (arith, h) in
      let done = execute_decision-Inv o.decision metrics i.now decided r decided-Inv in
      let (m', e) = execute_decision fl compile env o.decision metrics i.now decided in
      ground
        (arith, finish_cycle-Inv i o metrics (record c { manager = m'; rates = rates }) e done, h)

  Step-Inv : (c c' : Controller fl.F) → Rooted env → Inv c.manager → Step c c' → Inv c'.manager
  Step-Inv c _ r h (cycle i) = cycle-Inv i c r h
  Step-Inv c _ r h (force_activate now metrics rates) =
      activate_limits-Inv fl env metrics now c.manager r h
  Step-Inv c _ r h force_deactivate = force_deactivate_limits-Inv fl compile env c.manager
  Step-Inv c _ r h (psi_event uid now) = on_user_psi_event-Inv uid now c.manager h
  Step-Inv c _ r h (goroutine before after j e) =
      Frame-Inv _ _
        (run_job-Frame fl compile env j (record c.manager { pending = before ++ after }))
        (ground (arith, h))
  Step-Inv c _ r h (update_config cfg) = ground (arith, h)
  Step-Inv c _ r h shut_down = cleanup-Inv fl compile env c.manager h

  -- In every state that the program reaches from one where the invariant holds, by control cycles,
  -- forced activations and releases, PSI events, goroutines that run in any order, new configurations
  -- and the clean-up at the end, whatever the calls of the cgroups answer: users are limited only
  -- while the limits are active, the shared cgroup is known while they are, and no user is counted
  -- twice. The path that `CreateSharedCgroup` returns must not be empty.
  pub Reach-Inv :
      (start c : Controller fl.F) → Rooted env → Inv start.manager → Reach start c → Inv c.manager
  Reach-Inv start _ r h here = h
  Reach-Inv start c' r h (one_more {c} reach s) = Step-Inv c c' r (Reach-Inv start c r h reach) s
