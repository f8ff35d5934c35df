-- ===== src/State/Limits/Jobs.antt =====
-- state/limits_applier.go: the bodies of the goroutines that `activateLimits` and
-- `releaseIdleUsers` start, and `shouldApplyRAMLimits`, `shouldApplyIOLimits`. Their pauses are left
-- out, and so is the interleaving of their calls: a job runs as one step.
use cpu_manager_go.Prelude.{ℕ, pos, Bool, ◌&&◌, ◌||◌, List, [], ◌∷◌, ◌==◌, if◌then◌else◌, is_empty}
use cpu_manager_go.Prelude.Floats.{Floats}
use cpu_manager_go.Prelude.Text.{text, format_uint}
use cpu_manager_go.Config.Defs.{Config}
use cpu_manager_go.Config.Filter.{Compile, is_user_whitelisted_for_ram, is_user_whitelisted_for_io}
use cpu_manager_go.Config.Quota.{Quota, bytes, failed, parse_ram_quota}
use cpu_manager_go.State.Manager.{
  Call, add_monitor, remove_monitor, move_all_user_processes_to_shared_cgroup,
  release_user_from_shared_cgroup, apply_cpu_weight, apply_ram_limit_with_high,
  apply_ram_limit_with_high_and_swap_disabled, apply_io_limit, Environment, Job, configure, re_add,
  release, Manager, do_call,
}

-- `GetRAMHighRatio`
unfoldable pub get_ram_high_ratio : (fl : Floats) → Config fl.F → fl.F
get_ram_high_ratio fl cfg =
    if fl.leb cfg.ram_high_ratio (fl.of_nat 0) || fl.ltb (fl.of_nat 1) cfg.ram_high_ratio
    then fl.div (fl.of_nat 8) (fl.of_nat 10)
    else cfg.ram_high_ratio

module _ (fl : Floats) (env : Environment) where
  -- The monitors of a user, if a PSI watcher is registered.
  unfoldable pub add_monitors : ℕ → Manager fl.F → Manager fl.F
  add_monitors uid m =
      if m.has_psi_watcher
      then do_call env (add_monitor uid (text "io")) (do_call env (add_monitor uid (text "cpu")) m)
      else m

  unfoldable pub remove_monitors : ℕ → Manager fl.F → Manager fl.F
  remove_monitors uid m =
      if m.has_psi_watcher
      then do_call env (remove_monitor uid (text "io"))
          (do_call env (remove_monitor uid (text "cpu")) m)
      else m

module _ (fl : Floats) (compile : Compile) (env : Environment) where
  unfoldable pub should_apply_ram_limits : Config fl.F → ℕ → Bool
  should_apply_ram_limits cfg uid =
      cfg.ram_enabled && is_user_whitelisted_for_ram compile cfg (env.username uid)

  unfoldable pub should_apply_io_limits : Config fl.F → ℕ → Bool
  should_apply_io_limits cfg uid =
      cfg.io_enabled && is_user_whitelisted_for_io compile cfg (env.username uid)

  -- The RAM limits of one user: `memory.high` is a share of `memory.max`.
  unfoldable pub apply_ram : Config fl.F → ℕ → Quota → Manager fl.F → Manager fl.F
  apply_ram cfg uid (failed e) m = m
  apply_ram cfg uid (bytes quota) m =
      let high = format_uint (fl.to_nat (fl.mul (fl.of_nat quota) (get_ram_high_ratio fl cfg))) in
      if quota == 0
      then m
      else do_call env
          (if cfg.disable_swap
            then apply_ram_limit_with_high_and_swap_disabled uid cfg.ram_quota_per_user high
            else apply_ram_limit_with_high uid cfg.ram_quota_per_user high)
          m

  abbrev io_call : Config fl.F → ℕ → Call
  io_call cfg uid =
      apply_io_limit uid cfg.io_read_bps cfg.io_write_bps cfg.io_read_iops cfg.io_write_iops
        cfg.io_device_filter

  -- One job, run to its end. The filters are those of the current configuration.
  unfoldable pub run_job : Job fl.F → Manager fl.F → Manager fl.F
  run_job (configure cfg uid path) m =
      let moved = do_call env (move_all_user_processes_to_shared_cgroup uid path) m in
      let weighed = do_call env (apply_cpu_weight uid (pos 100)) moved in
      let ram =
        if should_apply_ram_limits m.cfg uid
        then apply_ram cfg uid (parse_ram_quota cfg.ram_quota_per_user) weighed
        else weighed in
      if should_apply_io_limits m.cfg uid then do_call env (io_call cfg uid) ram else ram
  run_job (re_add uid path) m =
      do_call env (apply_cpu_weight uid (pos 100))
        (do_call env (move_all_user_processes_to_shared_cgroup uid path) m)
  run_job (release uid path) m =
      if is_empty path then m else do_call env (release_user_from_shared_cgroup uid path) m

  unfoldable pub run_jobs : List (Job fl.F) → Manager fl.F → Manager fl.F
  unfolding run_job
  run_jobs [] m = m
  run_jobs (j ∷ js) m = run_jobs js (run_job j m)

  -- `m.wg.Wait()`: the goroutines that were started run to their ends.
  unfoldable pub wait : Manager fl.F → Manager fl.F
  unfolding run_jobs
  wait m = let done = run_jobs m.pending m in record done { pending = [] }
