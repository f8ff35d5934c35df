-- ===== src/State/Limits/Activate.antt =====
-- state/limits_applier.go: `activateLimits`.
use cpu_manager_go.Prelude.{
  ℕ, ◌+◌, ◌-◌, ◌*◌, ℤ, pos, pos_part, ltb_ℤ, ◌-ℤ◌, wrap64, Bool, true, not, ◌||◌, Option, none,
  some, List, [], ◌∷◌, ◌++◌, ltb, if◌then◌else◌, is_empty, member, select, length,
}
use cpu_manager_go.Prelude.Clock.{Instant}
use cpu_manager_go.Prelude.Dict.{Dict, keys}
use cpu_manager_go.Prelude.Floats.{Floats}
use cpu_manager_go.Prelude.Text.{text, format_int}
use cpu_manager_go.Config.Defs.{Config}
use cpu_manager_go.State.Defs.{SystemMetrics}
use cpu_manager_go.State.Limits.Jobs.{add_monitors}
use cpu_manager_go.State.Manager.{
  increment_limits_activated, create_shared_cgroup, apply_shared_cpu_limit, create_user_sub_cgroup,
  notify_user_limited, Environment, configure, Manager, Error, failed, call, do_call,
}

-- The keys of `UserCPUUsage`, as a set.
abbrev pub has {ℓ} : {V : Type ℓ} → Dict V → ℕ → Bool
has d uid = member uid (keys d)

-- `firstError`: an error is kept only if there is none yet.
abbrev pub first_of_two : Option Error → Error → Option Error
first_of_two none e = some e
first_of_two (some e) e' = some e

-- The total quota in microseconds of each period of 100000.
unfoldable pub total_quota : ℤ → ℤ → ℤ
total_quota total_cores min_cores =
    let available = wrap64 (total_cores -ℤ min_cores) in
    if ltb_ℤ available (pos 1) then pos 100000 else wrap64 (pos (pos_part available * 100000))

-- The state of the loop over the eligible users.
pub record Progress (F : Type 0) : Type 0 where
  pub manager : Manager F
  pub limited_count : ℕ
  pub first_error : Option Error

module _ (fl : Floats) (env : Environment) where
  -- Phase 2: the shared cgroup, created with its quota if there is none.
  unfoldable pub ensure_shared : SystemMetrics fl.F → Manager fl.F → Manager fl.F × Option Error
  ensure_shared metrics m =
      if is_empty m.shared_cgroup_path
      then (let (created, ok) = call env create_shared_cgroup m in
          let path = env.shared_path m.calls in
          let quota =
            format_int (total_quota metrics.total_cores m.cfg.min_system_cores) ++ text " 100000" in
          let limit = apply_shared_cpu_limit path quota in
          let (limited, applied) = call env limit (record created { shared_cgroup_path = path }) in
          if not ok
          then (created, some (failed create_shared_cgroup))
          else (limited, if applied then none else some (failed limit)))
      else (m, none)

  -- Phase 3 for one eligible user.
  unfoldable pub limit_user : Config fl.F → ℕ → Progress fl.F → Progress fl.F
  limit_user cfg uid p =
      let path = p.manager.shared_cgroup_path in
      let (created, ok) = call env (create_user_sub_cgroup uid path) p.manager in
      let monitored = add_monitors fl env uid created in
      let limited = record monitored {
        pending = monitored.pending ++ configure cfg uid path ∷ [];
        active_users = monitored.active_users ++ uid ∷ [];
      } in
      if member uid p.manager.active_users
      then p
      else if ok
      then record p {
        manager =
            if cfg.limit_hook_enabled
            then do_call env (notify_user_limited uid) limited
            else limited;
        limited_count = p.limited_count + 1;
      }
      else record p {
        manager = created;
        first_error = first_of_two p.first_error (failed (create_user_sub_cgroup uid path));
      }

  unfoldable pub limit_users : Config fl.F → List ℕ → Progress fl.F → Progress fl.F
  limit_users cfg [] p = p
  limit_users cfg (uid ∷ uids) p = limit_users cfg uids (limit_user cfg uid p)

  -- The end: the limits are active if a user was limited or removed.
  unfoldable pub finish_activation : Instant → ℕ → Progress fl.F → Manager fl.F × Option Error
  finish_activation now removed p =
      let m = p.manager in
      (
        if ltb 0 p.limited_count || ltb 0 removed
            then record m {
              decision = record m.decision { limits_active = true; limits_applied_time = now };
            }
            else m,
        p.first_error,
      )

  -- Phase 1 drops the users without a process, and counts them.
  unfoldable pub drop_gone : SystemMetrics fl.F → Manager fl.F → Manager fl.F
  drop_gone metrics m = record m {
    active_users = select (has metrics.user_cpu_usage) m.active_users;
  }

  -- Phase 3 on what phase 2 returned: its error ends the activation.
  unfoldable pub limit_eligible :
      SystemMetrics fl.F → Instant → ℕ → Manager fl.F × Option Error → Manager fl.F × Option Error
  limit_eligible metrics now removed (shared, some e) = (shared, some e)
  limit_eligible metrics now removed (shared, none) = finish_activation now removed (
      limit_users shared.cfg metrics.eligible_users
        (record { manager = shared; limited_count = 0; first_error = none }))

  -- `activateLimits`
  unfoldable pub activate_limits :
      SystemMetrics fl.F → Instant → Manager fl.F → Manager fl.F × Option Error
  activate_limits metrics now m =
      let counted = if m.has_exporter then do_call env increment_limits_activated m else m in
      let kept = drop_gone metrics counted in
      limit_eligible metrics now (length m.active_users - length kept.active_users)
        (ensure_shared metrics kept)
