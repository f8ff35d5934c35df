-- ===== src/State/Limits/Members.antt =====
-- Which users are limited after `activateLimits` and after `releaseIdleUsers`.
use cpu_manager_go.Prelude.{
  ℕ, ◌-◌, ◌≡◌, refl, true, false, not, ◌&&◌, ◌||◌, ◌==◌, if◌then◌else◌, Option, none, some, List,
  [], ◌∷◌, arith, member, select, length, member-append, member-select, member-insert_all,
}
use cpu_manager_go.Prelude.Clock.{Instant}
use cpu_manager_go.Prelude.Dict.{keep}
use cpu_manager_go.Prelude.Floats.{Floats}
use cpu_manager_go.Prelude.Text.{Bytes}
use cpu_manager_go.Config.Defs.{Config}
use cpu_manager_go.State.Defs.{SystemMetrics}
use cpu_manager_go.State.Limits.Activate.{
  Progress, activate_limits, ensure_shared, limit_user, limit_users, limit_eligible,
  finish_activation, drop_gone, has,
}
use cpu_manager_go.State.Limits.Frame.{release_users-Frame, add_users-Frame, call-Frame}
use cpu_manager_go.State.Limits.Idle.{
  release_idle_users, mark_added, release_users, add_user, add_users, users_to_release,
  users_to_add, is_idle, is_busy,
}
use cpu_manager_go.State.Limits.Jobs.{add_monitors}
use cpu_manager_go.State.Manager.{
  Environment, Manager, Error, call, do_call, increment_limits_activated,
}

module _ (fl : Floats) (env : Environment) where
  limit_user-members :
      (cfg : Config fl.F) (u uid : ℕ) (p : Progress fl.F)
      → (limit_user fl env cfg u p).first_error ≡ none
      → (p.first_error ≡ none)
        × (member uid (limit_user fl env cfg u p).manager.active_users
            ≡ (member uid p.manager.active_users || uid == u))
  unfolding limit_user call add_monitors
  limit_user-members cfg u uid p e =
      ground (arith, member-append uid p.manager.active_users (u ∷ []))

  limit_users-members :
      (cfg : Config fl.F) (us : List ℕ) (uid : ℕ) (p : Progress fl.F)
      → (limit_users fl env cfg us p).first_error ≡ none
      → (p.first_error ≡ none)
        × (member uid (limit_users fl env cfg us p).manager.active_users
            ≡ (member uid p.manager.active_users || member uid us))
  unfolding limit_users
  limit_users-members cfg [] uid p e = ground arith
  limit_users-members cfg (u ∷ us) uid p e =
      let rest = limit_users-members cfg us uid (limit_user fl env cfg u p) e in
      ground (arith, limit_user-members cfg u uid p rest.0)

  ensure_shared-users :
      (metrics : SystemMetrics fl.F) (m : Manager fl.F)
      → (ensure_shared fl env metrics m).0.active_users ≡ m.active_users
  unfolding ensure_shared call
  ensure_shared-users metrics m = ground arith

  limit_eligible-members :
      (metrics : SystemMetrics fl.F) (now : Instant) (removed uid : ℕ) (s : Manager fl.F)
      (e : Option Error)
      → (limit_eligible fl env metrics now removed (s, e)).1 ≡ none
      → member uid (limit_eligible fl env metrics now removed (s, e)).0.active_users
        ≡ (member uid s.active_users || member uid metrics.eligible_users)
  unfolding limit_eligible finish_activation
  limit_eligible-members metrics now removed uid s (some e) h = absurd (ground arith)
  limit_eligible-members metrics now removed uid s none h =
      let start : Progress fl.F = record { manager = s; limited_count = 0; first_error = none } in
      ground (arith, limit_users-members s.cfg metrics.eligible_users uid start)

  -- When `activateLimits` returns no error, the limited users are exactly the eligible ones and those
  -- that were limited before and are still measured.
  pub activate_limits-members :
      (metrics : SystemMetrics fl.F) (now : Instant) (uid : ℕ) (m : Manager fl.F)
      → (activate_limits fl env metrics now m).1 ≡ none
      → member uid (activate_limits fl env metrics now m).0.active_users ≡ (
          (has metrics.user_cpu_usage uid && member uid m.active_users)
          || member uid metrics.eligible_users)
  unfolding activate_limits drop_gone
  activate_limits-members metrics now uid m e =
      let counted = if m.has_exporter then do_call env increment_limits_activated m else m in
      let kept = drop_gone fl env metrics counted in
      let (shared, error) = ensure_shared fl env metrics kept in
      let same = ensure_shared-users metrics kept in
      let counted-same : counted.active_users ≡ m.active_users =
        ground (arith, call-Frame env increment_limits_activated m) in
      let selected = member-select uid (has metrics.user_cpu_usage) m.active_users in
      let all =
        limit_eligible-members metrics now (length m.active_users - length kept.active_users) uid
          shared error in
      ground arith

  add_user-added :
      (path : Bytes) (u uid : ℕ) (m : Manager fl.F) (added : List ℕ)
      → member uid (add_user fl env path u (m, added)).1 ≡ true
      → (member uid added || uid == u) ≡ true
  unfolding add_user call add_monitors
  add_user-added path u uid m added h = ground (arith, member-append uid added (u ∷ []))

  add_users-added :
      (path : Bytes) (us : List ℕ) (uid : ℕ) (m : Manager fl.F) (added : List ℕ)
      → member uid (add_users fl env path us (m, added)).1 ≡ true
      → (member uid added || member uid us) ≡ true
  unfolding add_users
  add_users-added path [] uid m added h = ground arith
  add_users-added path (u ∷ us) uid m added h =
      let (m', added') = add_user fl env path u (m, added) in
      let rest = add_users-added path us uid m' added' h in
      ground (arith, add_user-added path u uid m added)

  mark_added-members :
      (now : Instant) (added : List ℕ) (uid : ℕ) (m : Manager fl.F)
      → member uid (mark_added fl env now added m).active_users
        ≡ (member uid added || member uid m.active_users)
  unfolding mark_added
  mark_added-members now [] uid m = refl
  mark_added-members now (u ∷ us) uid m = member-insert_all uid (u ∷ us) m.active_users

  -- While the limits are active, `releaseIdleUsers` releases exactly the limited users that are not
  -- measured or use less than 0.1 of CPU, and any user it limits anew is eligible and measured at 0.1
  -- or more.
  pub release_idle_users-members :
      (metrics : SystemMetrics fl.F) (now : Instant) (uid : ℕ) (m : Manager fl.F)
      → m.limits_active ≡ true
      → let after = member uid (release_idle_users fl env metrics now m).active_users in
        (member uid m.active_users ≡ true → after ≡ not (is_idle fl metrics.user_cpu_usage uid))
        × (member uid m.active_users ≡ false
            → after ≡ true
            → (is_busy fl metrics.user_cpu_usage uid ≡ true)
              × (member uid metrics.eligible_users ≡ true))
  unfolding release_idle_users
  release_idle_users-members metrics now uid m on =
      let usage = metrics.user_cpu_usage in
      let start = record m {
        active_users = select (λ u. not (is_idle fl usage u)) m.active_users;
        psi_boosted_at =
            keep (λ u _. not (member u (users_to_release fl metrics m))) m.psi_boosted_at;
      } in
      let path = m.shared_cgroup_path in
      let released = release_users fl env path (users_to_release fl metrics m) start in
      let f = release_users-Frame fl env path (users_to_release fl metrics m) start in
      let s = add_users fl env path (users_to_add fl metrics m) (released, []) in
      let g = add_users-Frame fl env path (users_to_add fl metrics m) released [] in
      let added = add_users-added path (users_to_add fl metrics m) uid released [] in
      let marked = mark_added-members now s.1 uid s.0 in
      let kept = member-select uid (λ u. not (is_idle fl usage u)) m.active_users in
      let candidates =
        member-select uid (λ u. not (member u m.active_users) && is_busy fl usage u)
          metrics.eligible_users in
      ground arith
