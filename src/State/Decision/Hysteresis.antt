-- ===== src/State/Decision/Hysteresis.antt =====
-- Activation and release thresholds exclude one another: the decision does not flap.
use cpu_manager_go.Prelude.{
  ℕ, ℤ, pos, ◌<ℤ◌, true, false, ◌≡◌, ◌≢◌, List, none, arith, ◌⊎◌, inl, inr, Option-cases,
  Bool-cases,
}
use cpu_manager_go.Prelude.Clock.{Instant}
use cpu_manager_go.Prelude.Dict.{Dict}
use cpu_manager_go.Prelude.Floats.{Floats, Comparisons}
use cpu_manager_go.Config.Defs.{Config}
use cpu_manager_go.State.Defs.{UserMetrics, SystemMetrics, activate_limits, deactivate_limits}
use cpu_manager_go.State.Decision.Branches.{activate-exceeded, deactivate-below}
use cpu_manager_go.State.Decision.Defs.{
  DecisionState, make_decision, all_below, cpu_below, ram_below, io_below, cpu_exceeded,
  ram_exceeded, io_exceeded, io_percent, ram_percent,
}

-- What `validateConfig` asks of the thresholds of each resource that is enabled.
pub record IsHysteretic {F : Type 0} (cfg : Config F) : Type 0 where
  pub cpu : cfg.cpu_release_threshold <ℤ cfg.cpu_threshold
  pub ram :
      cfg.ram_enabled ≡ true
      → (pos 0 <ℤ cfg.ram_release_threshold) × (cfg.ram_release_threshold <ℤ cfg.ram_threshold)
  pub io :
      cfg.io_enabled ≡ true
      → (pos 0 <ℤ cfg.io_release_threshold) × (cfg.io_release_threshold <ℤ cfg.io_threshold)

module _ (fl : Floats) (laws : Comparisons fl) where
  -- A value below the lower of two thresholds is not at the upper one.
  below_lower :
      (x : fl.F) (low high : ℤ)
      → low <ℤ high
      → fl.ltb x (fl.of_int low) ≡ true
      → fl.leb (fl.of_int high) x ≡ false
  below_lower x low high h b = laws.lt_not_ge x (fl.of_int high) (
      laws.lt_le_trans x (fl.of_int low) (fl.of_int high) b
        (laws.of_int_mono low high (omega arith)))

  module _ (cfg : Config fl.F) (m : SystemMetrics fl.F) (h : IsHysteretic cfg) where
    cpu_below-not_exceeded : cpu_below fl cfg m ≡ true → cpu_exceeded fl cfg m ≡ false
    unfolding cpu_below cpu_exceeded
    cpu_below-not_exceeded b = below_lower _ _ _ h.cpu b

    ram_below-not_exceeded : ram_below fl cfg m ≡ true → ram_exceeded fl cfg m ≡ false
    unfolding ram_below ram_exceeded
    ram_below-not_exceeded b =
        ground
          (arith, h.ram, below_lower (ram_percent fl m) cfg.ram_release_threshold cfg.ram_threshold)

    io_percent_off : cfg.io_enabled ≡ false → io_percent fl cfg m cfg.io_threshold ≡ none
    unfolding io_percent
    io_percent_off off = ground arith

    -- The share does not depend on which of the thresholds asks for it.
    io_percent_same :
        (io_percent fl cfg m cfg.io_threshold ≡ none)
        ⊎ (io_percent fl cfg m cfg.io_threshold ≡ io_percent fl cfg m cfg.io_release_threshold)
    unfolding io_percent
    io_percent_same = elim (Bool-cases cfg.io_enabled) [
      | inl on ↦ inr (ground (arith, h.io on))
      | inr off ↦ inl (ground arith)
    ]

    io_below-not_exceeded : io_below fl cfg m ≡ true → io_exceeded fl cfg m ≡ false
    unfolding io_below io_exceeded
    io_below-not_exceeded b = elim (Bool-cases cfg.io_enabled) [
      | inl on ↦ elim (Option-cases (io_percent fl cfg m cfg.io_threshold)) [
        | inl e ↦ rw (e, io_exceeded)
        | inr (p, e) ↦ ground (
          arith,
          io_percent_same,
          below_lower p cfg.io_release_threshold cfg.io_threshold (h.io on).1,
        )
      ]
      | inr off ↦ ground (arith, io_percent_off off)
    ]

    all_below-not_exceeded :
        all_below fl cfg m ≡ true
        → (cpu_exceeded fl cfg m ≡ false)
          × (ram_exceeded fl cfg m ≡ false)
          × (io_exceeded fl cfg m ≡ false)
    unfolding all_below
    all_below-not_exceeded b =
        ground (arith, cpu_below-not_exceeded, ram_below-not_exceeded, io_below-not_exceeded)

  module _ (cfg : Config fl.F) (m : SystemMetrics fl.F) (h : IsHysteretic cfg) where
    -- Under a configuration whose release thresholds lie below the activation thresholds, metrics
    -- at which one state of the manager decides to activate the limits never make any state decide
    -- to deactivate them, whatever the users, the instants and the trackers of the two decisions.
    pub no_flapping :
        (limited limited' : List ℕ) (users users' : Dict (UserMetrics fl.F)) (now now' : Instant)
        (s s' : DecisionState)
        → (make_decision fl cfg m limited users now s).decision ≡ activate_limits
        → (make_decision fl cfg m limited' users' now' s').decision ≢ deactivate_limits
    no_flapping limited limited' users users' now now' s s' e d = ground (
      arith,
      activate-exceeded fl cfg m limited users now s e,
      all_below-not_exceeded cfg m h (deactivate-below fl cfg m limited' users' now' s' d),
    )
