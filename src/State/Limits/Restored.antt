-- ===== src/State/Limits/Restored.antt =====
-- What `deactivateLimits` asks of the cgroups for each user.
use cpu_manager_go.Prelude.{
  ℕ, ◌≡◌, ◌==◌, ◌⊎◌, inl, inr, true, Option, none, List, [], ◌∷◌, if◌then◌else◌, member, arith,
  Bool-cases,
}
use mathlib.Core.Path.{subst}
use cpu_manager_go.Prelude.Floats.{Floats}
use cpu_manager_go.Prelude.Text.{Bytes}
use cpu_manager_go.Config.Filter.{Compile}
use cpu_manager_go.State.Limits.Deactivate.{
  deactivate_limits, clear, unwatch_users, restore_users, restore_user, lift_limits,
}
use cpu_manager_go.State.Limits.Frame.{
  wait-Frame, unwatch_users-Frame, restore_user-Frame, call-Frame,
}
use cpu_manager_go.State.Limits.Jobs.{wait}
use cpu_manager_go.State.Manager.{
  Call, apply_cpu_limit, increment_limits_deactivated, remove_all, Environment, Manager, Error,
  call, do_call,
}

-- The call is among those recorded.
unfoldable pub Called : Call → List Call → Type 0
Called c [] = ⊥
Called c (d ∷ calls) = (c ≡ d) ⊎ Called c calls

module _ (fl : Floats) (compile : Compile) (env : Environment) where
  restore_user-keeps :
      (c : Call) (uid : ℕ) (m : Manager fl.F) (e : Option Error)
      → Called c m.calls
      → Called c (restore_user fl compile env uid (m, e)).0.calls
  unfolding restore_user lift_limits call Called
  restore_user-keeps c uid m e h = ground arith

  restore_user-calls :
      (uid : ℕ) (m : Manager fl.F) (e : Option Error)
      → Called
          (apply_cpu_limit uid m.cfg.cpu_quota_normal)
          (restore_user fl compile env uid (m, e)).0.calls
  unfolding restore_user lift_limits call Called
  restore_user-calls uid m e = ground arith

  restore_users-keeps :
      (c : Call) (uids : List ℕ) (m : Manager fl.F) (e : Option Error)
      → Called c m.calls
      → Called c (restore_users fl compile env uids (m, e)).0.calls
  unfolding restore_users
  restore_users-keeps c [] m e h = h
  restore_users-keeps c (uid ∷ uids) m e h =
      let (next, first) = restore_user fl compile env uid (m, e) in
      restore_users-keeps c uids next first (restore_user-keeps c uid m e h)

  restore_users-calls :
      (quota : Bytes) (uid : ℕ) (uids : List ℕ) (m : Manager fl.F) (e : Option Error)
      → m.cfg.cpu_quota_normal ≡ quota
      → member uid uids ≡ true
      → Called (apply_cpu_limit uid quota) (restore_users fl compile env uids (m, e)).0.calls
  unfolding restore_users
  restore_users-calls quota uid [] m e q h = absurd (ground arith)
  restore_users-calls quota uid (u ∷ us) m e q h =
      let (next, first) = restore_user fl compile env u (m, e) in
      let f = restore_user-Frame fl compile env u m e in
      elim (Bool-cases (uid == u)) [
        | inl same ↦
            let here : u ≡ uid = ground arith in
            let called =
              subst (λ v. Called (apply_cpu_limit v quota) next.calls) here
                (subst (λ x. Called (apply_cpu_limit u x) next.calls) q
                  (restore_user-calls u m e)) in
            restore_users-keeps (apply_cpu_limit uid quota) us next first called
        | inr other ↦ restore_users-calls quota uid us next first (ground arith) (ground arith)
      ]

  call-keeps : (c d : Call) (m : Manager fl.F) → Called c m.calls → Called c (do_call env d m).calls
  unfolding call Called
  call-keeps c d m h = inr h

  -- For every user that is limited, `deactivateLimits` asks the cgroups to set the configured normal
  -- CPU quota, whatever the calls answer: a failure for one user does not keep another from its turn.
  pub deactivate_limits-calls :
      (uid : ℕ) (m : Manager fl.F)
      → member uid m.active_users ≡ true
      → Called
          (apply_cpu_limit uid m.cfg.cpu_quota_normal)
          (deactivate_limits fl compile env m).0.calls
  unfolding deactivate_limits clear
  deactivate_limits-calls uid m h =
      let idle = wait fl compile env m in
      let f = wait-Frame fl compile env m in
      let counted =
        if idle.has_exporter then do_call env increment_limits_deactivated idle else idle in
      let k = call-Frame env increment_limits_deactivated idle in
      let users = counted.active_users in
      let same : users ≡ m.active_users = ground arith in
      let cleared = clear fl compile env counted in
      let unwatched = unwatch_users fl env users cleared in
      let g = unwatch_users-Frame fl env users cleared in
      let quota : unwatched.cfg.cpu_quota_normal ≡ m.cfg.cpu_quota_normal = ground arith in
      let restored = (restore_users fl compile env users (unwatched, none)).0 in
      let called : Called (apply_cpu_limit uid m.cfg.cpu_quota_normal) restored.calls =
        restore_users-calls m.cfg.cpu_quota_normal uid users unwatched none quota (ground arith) in
      ground (arith, call-keeps _ (remove_all counted.shared_cgroup_path) restored called)
