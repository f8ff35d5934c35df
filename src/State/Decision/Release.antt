-- ===== src/State/Decision/Release.antt =====
-- When `makeDecision` deactivates the limits, and what the stability counters record.
use cpu_manager_go.Prelude.{
  ℕ, ◌+◌, ◌≤◌, ltb_ℤ, Bool, true, false, not, ◌&&◌, ◌≡◌, ◌∙◌, refl, List, [], ◌∷◌, Option, none,
  some, arith, ◌==◌, if◌then◌else◌, member, length, select, Distinct, take_while, Option-cases, inl,
  inr,
}
use cpu_manager_go.Prelude.Clock.{Instant, since, seconds}
use cpu_manager_go.Prelude.Dict.{Dict, lookup, lookup-put}
use cpu_manager_go.Prelude.Floats.{Floats}
use cpu_manager_go.Config.Defs.{Config}
use cpu_manager_go.State.Defs.{UserMetrics, SystemMetrics, deactivate_limits}
use cpu_manager_go.State.Decision.Defs.{
  DecisionState, Outcome, make_decision, decide_active, all_below, io_window, count_of,
  count_sample, count_samples, is_stable,
}

abbrev pub count : ℕ → Dict ℕ → ℕ
count uid under = count_of (lookup uid under)

is_stable-count :
    (uid : ℕ) (limited : List ℕ) (under : Dict ℕ)
    → is_stable limited under ≡ true
    → member uid limited ≡ true
    → 3 ≤ count uid under
unfolding is_stable
is_stable-count uid [] under s h = cc
is_stable-count uid (u ∷ us) under s h = ground (arith, is_stable-count uid us under)

module _ (fl : Floats) where
  -- The number of samples that a user has after one more.
  abbrev sampled_count : fl.F → Option (UserMetrics fl.F) → ℕ → ℕ
  sampled_count release none n = n
  sampled_count release (some um) n = if fl.ltb um.cpu_usage_ema release then n + 1 else 0

  count-count_sample :
      (release : fl.F) (users : Dict (UserMetrics fl.F)) (uid u : ℕ) (under : Dict ℕ)
      → count uid (count_sample fl release users u under) ≡ (
          if uid == u
          then sampled_count release (lookup u users) (count u under)
          else count uid under)
  unfolding count_sample
  count-count_sample release users uid u under = elim (Option-cases (lookup u users)) [
    | inl e ↦ ground arith
    | inr (um, e) ↦ ground (
      arith,
      lookup-put uid u (if fl.ltb um.cpu_usage_ema release then count u under + 1 else 0) under,
    )
  ]

  count-count_samples_other :
      (release : fl.F) (users : Dict (UserMetrics fl.F)) (uid : ℕ) (us : List ℕ) (under : Dict ℕ)
      → member uid us ≡ false
      → count uid (count_samples fl release users us under) ≡ count uid under
  unfolding count_samples
  count-count_samples_other release users uid [] under h = refl
  count-count_samples_other release users uid (u ∷ us) under h = ground (
    arith,
    count-count_samples_other release users uid us (count_sample fl release users u under),
    count-count_sample release users uid u under,
  )

  count-count_samples :
      (release : fl.F) (users : Dict (UserMetrics fl.F)) (uid : ℕ) (us : List ℕ) (under : Dict ℕ)
      → Distinct us
      → member uid us ≡ true
      → count uid (count_samples fl release users us under)
        ≡ sampled_count release (lookup uid users) (count uid under)
  unfolding count_samples
  count-count_samples release users uid [] under d h = cc
  count-count_samples release users uid (u ∷ us) under d h = ground (
    arith,
    count-count_samples release users uid us (count_sample fl release users u under) d.1,
    count-count_samples_other release users uid us (count_sample fl release users u under),
    count-count_sample release users uid u under,
  )

-- What `makeDecision` is called on in one cycle, with the configuration of the time and the instant that
-- the limits count as applied at: the decisions before may have moved it, as `releaseIdleUsers` does.
pub record Cycle (F : Type 0) : Type 0 where
  pub cfg : Config F
  pub applied : Instant
  pub metrics : SystemMetrics F
  pub limited : List ℕ
  pub users : Dict (UserMetrics F)
  pub now : Instant

abbrev is_measured {ℓ} : {A : Type ℓ} → Option A → Bool
is_measured none = false
is_measured (some x) = true

module _ (fl : Floats) where
  abbrev pub decide : Cycle fl.F → DecisionState → Outcome
  decide c s = make_decision fl c.cfg c.metrics c.limited c.users c.now s

  -- The state that the decision of a cycle finds.
  abbrev pub at_cycle : Cycle fl.F → DecisionState → DecisionState
  at_cycle c s = record s { limits_applied_time = c.applied }

  -- The decisions of a history, most recent cycle first, on a manager whose limits stay active.
  unfoldable pub after : List (Cycle fl.F) → DecisionState → DecisionState
  after [] s = s
  after (c ∷ older) s = (decide c (at_cycle c (after older s))).state

  -- The cycles that sample a user: the minimum time has passed, every resource is below its release
  -- threshold, and the user is limited and measured.
  abbrev pub is_sample : ℕ → Cycle fl.F → Bool
  is_sample uid c =
      not (ltb_ℤ (since c.now c.applied) (seconds c.cfg.min_active_time))
      && all_below fl c.cfg c.metrics
      && member uid c.limited
      && is_measured (lookup uid c.users)

  abbrev quiet : fl.F → Option (UserMetrics fl.F) → Bool
  quiet release none = false
  quiet release (some um) = fl.ltb um.cpu_usage_ema release

  -- The user's average is below the release threshold.
  abbrev pub is_quiet : ℕ → Cycle fl.F → Bool
  is_quiet uid c = quiet (fl.of_int c.cfg.cpu_release_threshold) (lookup uid c.users)

  decide_active-count :
      (uid : ℕ) (c : Cycle fl.F) (s : DecisionState)
      → s.limits_applied_time ≡ c.applied
      → Distinct c.limited
      → count uid (decide_active fl c.cfg c.metrics c.limited c.users c.now s).state.under_threshold
        ≡ (if is_sample uid c
            then if is_quiet uid c then count uid s.under_threshold + 1 else 0
            else count uid s.under_threshold)
  unfolding decide_active
  decide_active-count uid c s t d =
      let release = fl.of_int c.cfg.cpu_release_threshold in
      ground (
        arith,
        count-count_samples fl release c.users uid c.limited s.under_threshold d,
        count-count_samples_other fl release c.users uid c.limited s.under_threshold,
      )

  decide_active-fixed :
      (c : Cycle fl.F) (s : DecisionState)
      → (decide_active fl c.cfg c.metrics c.limited c.users c.now s).state.limits_active
        ≡ s.limits_active
  unfolding decide_active
  decide_active-fixed c s = ground arith

  decide_active-stable :
      (c : Cycle fl.F) (s : DecisionState)
      → let o = decide_active fl c.cfg c.metrics c.limited c.users c.now s in
        o.decision ≡ deactivate_limits → is_stable c.limited o.state.under_threshold ≡ true
  unfolding decide_active
  decide_active-stable c s e = ground arith

  -- `makeDecision` on active limits is `decide_active` on a state that differs in the IO tracker.
  decide_of_active :
      (c : Cycle fl.F) (s : DecisionState)
      → s.limits_active ≡ true
      → decide c s
        ≡ decide_active fl c.cfg c.metrics c.limited c.users c.now (record s {
          io_threshold_tracker = (io_window fl c.cfg c.metrics c.now s.io_threshold_tracker).0;
        })
  unfolding make_decision
  decide_of_active c s a = ground arith

  abbrev pub AllDistinct : List (Cycle fl.F) → Type 0
  AllDistinct [] = Unit {0}
  AllDistinct (c ∷ cs) = Distinct c.limited × AllDistinct cs

  -- How many of the last samples of a user, without a gap, were quiet.
  abbrev pub quiet_run : ℕ → List (Cycle fl.F) → ℕ
  quiet_run uid history = length (take_while (is_quiet uid) (select (is_sample uid) history))

  decide-count :
      (uid : ℕ) (c : Cycle fl.F) (s : DecisionState)
      → s.limits_active ≡ true
      → s.limits_applied_time ≡ c.applied
      → Distinct c.limited
      → count uid (decide c s).state.under_threshold ≡ (
          if is_sample uid c
          then if is_quiet uid c then count uid s.under_threshold + 1 else 0
          else count uid s.under_threshold)
  decide-count uid c s a t d = rw (decide_of_active c s a) (decide_active-count uid c _ t d)

  decide-fixed :
      (c : Cycle fl.F) (s : DecisionState)
      → s.limits_active ≡ true
      → (decide c s).state.limits_active ≡ s.limits_active
  decide-fixed c s a = rw (decide_of_active c s a) (decide_active-fixed c _)

  decide-stable :
      (c : Cycle fl.F) (s : DecisionState)
      → s.limits_active ≡ true
      → (decide c s).decision ≡ deactivate_limits
      → is_stable c.limited (decide c s).state.under_threshold ≡ true
  decide-stable c s a = rw (decide_of_active c s a) (decide_active-stable c _)

  after-fixed :
      (h : List (Cycle fl.F)) (s : DecisionState)
      → s.limits_active ≡ true
      → (after h s).limits_active ≡ true
  unfolding after
  after-fixed [] s a = a
  after-fixed (c ∷ h) s a =
      let before = after-fixed h s a in decide-fixed c (at_cycle c (after h s)) before ∙ before

  -- While the limits stay active, starting from a counter of zero, and where no cycle lists a limited
  -- user twice, the stability counter of a user is the number of quiet samples that end its history
  -- of samples, whatever configuration each cycle has and from whenever the limits count as applied.
  -- A cycle is no sample if the minimum time has not passed, if a resource is not below its release
  -- threshold, or if the user is not limited or not measured: such a cycle neither adds to the
  -- counter nor resets it, so the samples that are counted need not be consecutive cycles.
  pub count-after :
      (uid : ℕ) (h : List (Cycle fl.F)) (s : DecisionState)
      → s.limits_active ≡ true
      → count uid s.under_threshold ≡ 0
      → AllDistinct h
      → count uid (after h s).under_threshold ≡ quiet_run uid h
  unfolding after
  count-after uid [] s a z d = z
  count-after uid (c ∷ h) s a z d =
      let before = at_cycle c (after h s) in
      ground
        (arith, count-after uid h s a z d.1, decide-count uid c before (after-fixed h s a) refl d.0)

  -- While the limits stay active, and where no cycle lists a limited user twice, a decision to
  -- deactivate them comes, for each limited user whose counter started from zero, only when the last
  -- three samples of the user at least were quiet: in each of them all resources were below their
  -- release thresholds and so was the user's average CPU usage. Between two samples there may be
  -- cycles that are none, as those in which a resource is not below its release threshold; they do
  -- not end the run. Each cycle has a configuration and an instant that the limits count as applied
  -- at of its own.
  pub deactivate_quiet :
      (uid : ℕ) (c : Cycle fl.F) (h : List (Cycle fl.F)) (s : DecisionState)
      → s.limits_active ≡ true
      → count uid s.under_threshold ≡ 0
      → AllDistinct (c ∷ h)
      → (decide c (at_cycle c (after h s))).decision ≡ deactivate_limits
      → member uid c.limited ≡ true
      → 3 ≤ quiet_run uid (c ∷ h)
  unfolding after
  deactivate_quiet uid c h s a z d e mem =
      let before = at_cycle c (after h s) in
      rw (← count-after uid (c ∷ h) s a z d) (
        is_stable-count uid c.limited (decide c before).state.under_threshold
          (decide-stable c before (after-fixed h s a) e) mem)
