-- ===== src/State/Limits/Idle.antt =====
-- state/limits_applier.go: `releaseIdleUsers`.
use cpu_manager_go.Prelude.{
  ℕ, Bool, true, false, not, ◌&&◌, none, some, List, [], ◌∷◌, ◌++◌, if◌then◌else◌, is_empty, member,
  insert_all, select,
}
use cpu_manager_go.Prelude.Clock.{Instant}
use cpu_manager_go.Prelude.Dict.{Dict, lookup, keep}
use cpu_manager_go.Prelude.Floats.{Floats}
use cpu_manager_go.Prelude.Text.{Bytes}
use cpu_manager_go.State.Defs.{SystemMetrics}
use cpu_manager_go.State.Limits.Jobs.{add_monitors, remove_monitors}
use cpu_manager_go.State.Manager.{
  create_user_sub_cgroup, Environment, re_add, release, Manager, call,
}

module _ (fl : Floats) where
  -- The constant 0.1.
  abbrev pub idle_threshold : fl.F
  idle_threshold = fl.div (fl.of_nat 1) (fl.of_nat 10)

  -- The user has no process, or uses less CPU than the threshold.
  unfoldable pub is_idle : Dict fl.F → ℕ → Bool
  is_idle usage uid = elim (lookup uid usage) [ none ↦ true | some cpu ↦ fl.ltb cpu idle_threshold ]

  -- The user is measured at or above the threshold.
  unfoldable pub is_busy : Dict fl.F → ℕ → Bool
  is_busy usage uid = elim (lookup uid usage) [
    | none ↦ false
    | some cpu ↦ fl.leb idle_threshold cpu
  ]

  abbrev pub users_to_release : SystemMetrics fl.F → Manager fl.F → List ℕ
  users_to_release metrics m = select (is_idle metrics.user_cpu_usage) m.active_users

  abbrev pub users_to_add : SystemMetrics fl.F → Manager fl.F → List ℕ
  users_to_add metrics m =
      select (λ uid. not (member uid m.active_users) && is_busy metrics.user_cpu_usage uid)
        metrics.eligible_users

  module _ (env : Environment) where
    -- The loop over the users to release, on the path read before it.
    unfoldable pub release_users : Bytes → List ℕ → Manager fl.F → Manager fl.F
    release_users path [] m = m
    release_users path (uid ∷ uids) m =
        let unwatched = remove_monitors fl env uid m in
        release_users path uids
          (record unwatched { pending = unwatched.pending ++ release uid path ∷ [] })

    -- One user to add again: the manager, and the users that were added.
    unfoldable pub add_user : Bytes → ℕ → Manager fl.F × List ℕ → Manager fl.F × List ℕ
    add_user path uid (m, added) =
        let (created, ok) = call env (create_user_sub_cgroup uid path) m in
        let started = record created { pending = created.pending ++ re_add uid path ∷ [] } in
        if ok then (add_monitors fl env uid started, added ++ uid ∷ []) else (created, added)

    unfoldable pub add_users : Bytes → List ℕ → Manager fl.F × List ℕ → Manager fl.F × List ℕ
    add_users path [] s = s
    add_users path (uid ∷ uids) s = add_users path uids (add_user path uid s)

    -- The users that were added are marked, at the end.
    unfoldable pub mark_added : Instant → List ℕ → Manager fl.F → Manager fl.F
    mark_added now [] m = m
    mark_added now (uid ∷ uids) m = record m {
      active_users = insert_all (uid ∷ uids) m.active_users;
      decision = record m.decision { limits_applied_time = now };
    }

    -- `releaseIdleUsers`, which returns no error.
    unfoldable pub release_idle_users : SystemMetrics fl.F → Instant → Manager fl.F → Manager fl.F
    release_idle_users metrics now m =
        let path = m.shared_cgroup_path in
        let idle = is_idle metrics.user_cpu_usage in
        let to_release = users_to_release metrics m in
        let released = release_users path to_release (record m {
          active_users = select (λ uid. not (idle uid)) m.active_users;
          psi_boosted_at = keep (λ uid _. not (member uid to_release)) m.psi_boosted_at;
        }) in
        let (grown, added) = add_users path (users_to_add metrics m) (released, []) in
        if not m.limits_active
        then m
        else if is_empty path
        then released
        else mark_added now added grown
