-- ===== src/Config/Validate/Accepted.antt =====
-- What a configuration that passes `validateConfig` promises to the decision engine.
use cpu_manager_go.Prelude.{
  ◌≡◌, refl, pos, ◌<ℤ◌, Bool, true, false, not, List, [], ◌∷◌, ◌++◌, if◌then◌else◌, arith,
}
use cpu_manager_go.Prelude.Floats.{Floats}
use cpu_manager_go.Prelude.Text.{Bytes}
use cpu_manager_go.Config.Defs.{Config}
use cpu_manager_go.Config.Quota.{is_valid_cpu_quota}
use cpu_manager_go.Config.Validate.{
  ConfigError, report, cpu_errors, interval_errors, psi_errors, hook_errors, ram_errors, io_errors,
  general_errors, validate_config, cpu_quota,
}
use cpu_manager_go.State.Decision.Hysteresis.{IsHysteretic}

append-empty : {A : Type 0} (xs ys : List A) → xs ++ ys ≡ [] → (xs ≡ []) × (ys ≡ [])
append-empty [] ys e = (refl, e)
append-empty (x ∷ xs) ys e = absurd (ground arith)

report-silent : (b : Bool) (e : ConfigError) → report b e ≡ [] → b ≡ false
report-silent true e h = absurd (ground arith)
report-silent false e h = refl

append-report :
    (xs : List ConfigError) (b : Bool) (e : ConfigError)
    → xs ++ report b e ≡ []
    → (xs ≡ []) × (b ≡ false)
append-report xs b e h =
    let parts = append-empty xs (report b e) h in (parts.0, report-silent b e parts.1)

if-silent : {A : Type 0} (b : Bool) (xs : List A) → b ≡ true → (if b then xs else []) ≡ [] → xs ≡ []
if-silent b xs on h = ground (arith, h)

module _ (fl : Floats) (is_http_url : Bytes → Bool) (cfg : Config fl.F) where
  cpu-ordered : cpu_errors fl is_http_url cfg ≡ [] → cfg.cpu_release_threshold <ℤ cfg.cpu_threshold
  unfolding cpu_errors
  cpu-ordered e =
      let duration = append-report _ _ _ e in
      let order = append-report _ _ _ duration.0 in ground (arith, order.1)

  ram-ordered :
      ram_errors fl is_http_url cfg ≡ []
      → cfg.ram_enabled ≡ true
      → (pos 0 <ℤ cfg.ram_release_threshold) × (cfg.ram_release_threshold <ℤ cfg.ram_threshold)
  unfolding ram_errors
  ram-ordered e on =
      let ratio = append-report _ _ _ (if-silent _ _ on e) in
      let user_quota = append-report _ _ _ ratio.0 in
      let quota = append-report _ _ _ user_quota.0 in
      let order = append-report _ _ _ quota.0 in
      let release = append-report _ _ _ order.0 in ground (arith, order.1, release.1)

  io-ordered :
      io_errors fl is_http_url cfg ≡ []
      → cfg.io_enabled ≡ true
      → (pos 0 <ℤ cfg.io_release_threshold) × (cfg.io_release_threshold <ℤ cfg.io_threshold)
  unfolding io_errors
  io-ordered e on =
      let write_ops = append-report _ _ _ (if-silent _ _ on e) in
      let read_ops = append-report _ _ _ write_ops.0 in
      let write = append-report _ _ _ read_ops.0 in
      let read = append-report _ _ _ write.0 in
      let order = append-report _ _ _ read.0 in
      let release = append-report _ _ _ order.0 in ground (arith, order.1, release.1)

  -- A configuration for which `validateConfig` reports no error keeps each release threshold below
  -- the threshold of its resource: always for the CPU, and for RAM and IO where they are enabled.
  pub validate_config-IsHysteretic : validate_config fl is_http_url cfg ≡ [] → IsHysteretic cfg
  unfolding validate_config
  validate_config-IsHysteretic e =
      let general = append-empty _ (general_errors fl is_http_url cfg) e in
      let io = append-empty _ (io_errors fl is_http_url cfg) general.0 in
      let ram = append-empty _ (ram_errors fl is_http_url cfg) io.0 in
      let quota =
        append-empty _ (report (not (is_valid_cpu_quota cfg.cpu_quota_limited)) cpu_quota) ram.0 in
      let hook = append-empty _ (hook_errors fl is_http_url cfg) quota.0 in
      let psi = append-empty _ (psi_errors fl is_http_url cfg) hook.0 in
      let cpu =
        append-empty (cpu_errors fl is_http_url cfg) (interval_errors fl is_http_url cfg) psi.0 in
      record { cpu = cpu-ordered cpu.0; ram = ram-ordered ram.1; io = io-ordered io.1 }
