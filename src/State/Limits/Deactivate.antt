-- ===== src/State/Limits/Deactivate.antt =====
-- state/limits_applier.go: `deactivateLimits` and `ForceDeactivateLimits`; state/manager.go: `Cleanup`.
use cpu_manager_go.Prelude.{
  ℕ, false, not, Option, none, some, List, [], ◌∷◌, if◌then◌else◌, is_empty, member,
}
use cpu_manager_go.Prelude.Dict.{keep}
use cpu_manager_go.Prelude.Floats.{Floats}
use cpu_manager_go.Config.Filter.{Compile}
use cpu_manager_go.State.Limits.Activate.{first_of_two}
use cpu_manager_go.State.Limits.Jobs.{
  remove_monitors, should_apply_ram_limits, should_apply_io_limits, wait,
}
use cpu_manager_go.State.Manager.{
  increment_limits_deactivated, apply_cpu_limit, remove_ram_high, remove_ram_limit, remove_io_limit,
  remove_all, cleanup_all, stop_exporter, Environment, Manager, Error, failed, call, do_call,
}

module _ (fl : Floats) (env : Environment) where
  unfoldable pub unwatch_users : List ℕ → Manager fl.F → Manager fl.F
  unwatch_users [] m = m
  unwatch_users (uid ∷ uids) m = unwatch_users uids (remove_monitors fl env uid m)

module _ (fl : Floats) (compile : Compile) (env : Environment) where
  -- The RAM and IO limits of one user are taken back; failures are only logged.
  unfoldable pub lift_limits : ℕ → Manager fl.F → Manager fl.F
  lift_limits uid m =
      let ram =
        if should_apply_ram_limits fl compile env m.cfg uid
        then do_call env (remove_ram_limit uid) (do_call env (remove_ram_high uid) m)
        else m in
      if should_apply_io_limits fl compile env ram.cfg uid
      then do_call env (remove_io_limit uid) ram
      else ram

  -- One user, with the first error: a user whose CPU limit cannot be restored keeps the others.
  unfoldable pub restore_user : ℕ → Manager fl.F × Option Error → Manager fl.F × Option Error
  restore_user uid (m, error) =
      let limit = apply_cpu_limit uid m.cfg.cpu_quota_normal in
      let (restored, ok) = call env limit m in
      if ok
      then (lift_limits uid restored, error)
      else (restored, first_of_two error (failed limit))

  unfoldable pub restore_users : List ℕ → Manager fl.F × Option Error → Manager fl.F × Option Error
  restore_users [] s = s
  restore_users (uid ∷ uids) s = restore_users uids (restore_user uid s)

  -- The maps and fields that are cleared, with the stability counters and boosts of the users.
  unfoldable pub clear : Manager fl.F → Manager fl.F
  clear m =
      let users = m.active_users in
      record m {
        active_users = [];
        decision = record m.decision {
          limits_active = false;
          limits_applied_time = 0;
          under_threshold = keep (λ uid _. not (member uid users)) m.under_threshold;
        };
        shared_cgroup_path = [];
        psi_boosted_at = keep (λ uid _. not (member uid users)) m.psi_boosted_at;
      }

  -- `deactivateLimits`
  unfoldable pub deactivate_limits : Manager fl.F → Manager fl.F × Option Error
  deactivate_limits m =
      let idle = wait fl compile env m in
      let counted =
        if idle.has_exporter then do_call env increment_limits_deactivated idle else idle in
      let unwatched = unwatch_users fl env counted.active_users (clear counted) in
      let (restored, error) = restore_users counted.active_users (unwatched, none) in
      (
        if is_empty counted.shared_cgroup_path
            then restored
            else do_call env (remove_all counted.shared_cgroup_path) restored,
        error,
      )

  -- `ForceDeactivateLimits` also forgets all stability counters.
  unfoldable pub force_deactivate_limits : Manager fl.F → Manager fl.F × Option Error
  force_deactivate_limits m =
      let (off, error) = deactivate_limits m in
      (record off { decision = record off.decision { under_threshold = [] } }, error)

  -- The second half of `Cleanup`: the cgroups, and then the exporter.
  unfoldable pub shut_down : Manager fl.F → Manager fl.F × Option Error
  shut_down m =
      let (cleaned, ok) = call env cleanup_all m in
      if not ok
      then (cleaned, some (failed cleanup_all))
      else (if cleaned.has_exporter then do_call env stop_exporter cleaned else cleaned, none)

  -- `Cleanup`
  unfoldable pub cleanup : Manager fl.F → Manager fl.F × Option Error
  cleanup m =
      let idle = wait fl compile env m in
      let (off, error) = deactivate_limits idle in
      if idle.limits_active
      then elim error [ some e ↦ (off, some e) | none ↦ shut_down off ]
      else shut_down idle
