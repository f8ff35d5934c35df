-- ===== src/State/Limits/Invariant.antt =====
-- The invariant of the manager, and that each operation on the limits keeps it.
use cpu_manager_go.Prelude.{
  ℕ, ◌≡◌, refl, true, false, not, if◌then◌else◌, Option, none, some, List, [], ◌∷◌, arith, is_empty,
  Bool-cases, inl, inr, member, select, Distinct, Distinct-select, Distinct-snoc,
  Distinct-insert_all,
}
use cpu_manager_go.Prelude.Clock.{Instant}
use cpu_manager_go.Prelude.Dict.{keep}
use cpu_manager_go.Prelude.Floats.{Floats}
use cpu_manager_go.Config.Defs.{Config}
use cpu_manager_go.Config.Filter.{Compile}
use cpu_manager_go.State.Defs.{SystemMetrics}
use cpu_manager_go.State.Limits.Activate.{
  Progress, activate_limits, ensure_shared, limit_user, limit_users, limit_eligible,
  finish_activation, drop_gone, has,
}
use cpu_manager_go.State.Limits.Deactivate.{
  deactivate_limits, force_deactivate_limits, shut_down, cleanup, clear, unwatch_users,
  restore_users,
}
use cpu_manager_go.State.Limits.Frame.{
  Frame, unwatch_users-Frame, release_users-Frame, add_users-Frame, wait-Frame, restore_users-Frame,
  call-Frame,
}
use cpu_manager_go.State.Limits.Idle.{
  release_idle_users, mark_added, release_users, add_users, users_to_release, users_to_add, is_idle,
}
use cpu_manager_go.State.Limits.Jobs.{add_monitors, wait}
use cpu_manager_go.State.Manager.{
  Call, Environment, Manager, Error, call, do_call, increment_limits_activated,
  increment_limits_deactivated, remove_all,
}

pub record Inv {F : Type 0} (m : Manager F) : Type 0 where
  -- Users are limited only while the limits are active,
  pub idle : m.limits_active ≡ false → m.active_users ≡ []
  -- the shared cgroup is known while the limits are active,
  pub rooted : m.limits_active ≡ true → is_empty m.shared_cgroup_path ≡ false
  -- and no user is counted twice.
  pub distinct : Distinct m.active_users

-- `CreateSharedCgroup` returns a path, and no empty text.
abbrev pub Rooted : Environment → Type 0
Rooted env = (calls : List Call) → is_empty (env.shared_path calls) ≡ false

pub Frame-Inv : {F : Type 0} (m m' : Manager F) → Frame m m' → Inv m → Inv m'
Frame-Inv m m' f h = ground arith

module _ (fl : Floats) (env : Environment) where
  -- What the loop over the eligible users keeps.
  record Ok (start : Manager fl.F) (p : Progress fl.F) : Type 0 where
    decision : p.manager.decision ≡ start.decision
    path : p.manager.shared_cgroup_path ≡ start.shared_cgroup_path
    distinct : Distinct p.manager.active_users
    unchanged : p.limited_count ≡ 0 → p.manager.active_users ≡ start.active_users

  limit_user-Ok :
      (cfg : Config fl.F) (uid : ℕ) (start : Manager fl.F) (p : Progress fl.F)
      → Ok start p
      → Ok start (limit_user fl env cfg uid p)
  unfolding limit_user call add_monitors
  limit_user-Ok cfg uid start p h = ground (arith, Distinct-snoc uid p.manager.active_users)

  limit_users-Ok :
      (cfg : Config fl.F) (uids : List ℕ) (start : Manager fl.F) (p : Progress fl.F)
      → Ok start p
      → Ok start (limit_users fl env cfg uids p)
  unfolding limit_users
  limit_users-Ok cfg [] start p h = h
  limit_users-Ok cfg (uid ∷ uids) start p h =
      limit_users-Ok cfg uids start (limit_user fl env cfg uid p) (limit_user-Ok cfg uid start p h)

  -- The shared cgroup is there, unless the call that should create it failed.
  ensure_shared-keeps :
      (metrics : SystemMetrics fl.F) (m : Manager fl.F)
      → Rooted env
      → let (m', error) = ensure_shared fl env metrics m in
        (m'.decision ≡ m.decision)
        × (m'.active_users ≡ m.active_users)
        × (is_empty m.shared_cgroup_path ≡ false → is_empty m'.shared_cgroup_path ≡ false)
        × (error ≡ none → is_empty m'.shared_cgroup_path ≡ false)
  unfolding ensure_shared call
  ensure_shared-keeps metrics m r = ground (arith, r m.calls)

  finish_activation-Inv :
      (now : Instant) (removed : ℕ) (start : Manager fl.F) (p : Progress fl.F)
      → Inv start
      → is_empty start.shared_cgroup_path ≡ false
      → Ok start p
      → Inv (finish_activation fl env now removed p).0
  unfolding finish_activation
  finish_activation-Inv now removed start p i path h = ground arith

  limit_eligible-Inv :
      (metrics : SystemMetrics fl.F) (now : Instant) (removed : ℕ) (s : Manager fl.F)
      (e : Option Error)
      → Inv s
      → (e ≡ none → is_empty s.shared_cgroup_path ≡ false)
      → Inv (limit_eligible fl env metrics now removed (s, e)).0
  unfolding limit_eligible
  limit_eligible-Inv metrics now removed s (some e) h path = h
  limit_eligible-Inv metrics now removed s none h path =
      let start : Progress fl.F = record { manager = s; limited_count = 0; first_error = none } in
      finish_activation-Inv now removed s _ h (path refl)
        (limit_users-Ok s.cfg metrics.eligible_users s start (ground arith))

  drop_gone-Inv :
      (metrics : SystemMetrics fl.F) (m : Manager fl.F) → Inv m → Inv (drop_gone fl env metrics m)
  unfolding drop_gone
  drop_gone-Inv metrics m h =
      ground (arith, Distinct-select (has metrics.user_cpu_usage) m.active_users h.distinct)

  -- `activateLimits` keeps the invariant, whatever the calls answer.
  pub activate_limits-Inv :
      (metrics : SystemMetrics fl.F) (now : Instant) (m : Manager fl.F)
      → Rooted env
      → Inv m
      → Inv (activate_limits fl env metrics now m).0
  unfolding activate_limits
  activate_limits-Inv metrics now m r h =
      let counted = if m.has_exporter then do_call env increment_limits_activated m else m in
      let counted-Inv : Inv counted =
        ground (arith, Frame-Inv m _ (call-Frame env increment_limits_activated m)) in
      let kept = drop_gone fl env metrics counted in
      let kept-Inv = drop_gone-Inv metrics counted counted-Inv in
      let shared = ensure_shared-keeps metrics kept r in
      limit_eligible-Inv metrics now _ (ensure_shared fl env metrics kept).0
        (ensure_shared fl env metrics kept).1 (ground (arith, kept-Inv, shared)) shared.3

  mark_added-Inv :
      (now : Instant) (added : List ℕ) (m : Manager fl.F)
      → m.limits_active ≡ true
      → Inv m
      → Inv (mark_added fl env now added m)
  unfolding mark_added
  mark_added-Inv now [] m a h = h
  mark_added-Inv now (uid ∷ uids) m a h =
      let d = Distinct-insert_all (uid ∷ uids) m.active_users h.distinct in ground arith

  -- `releaseIdleUsers` keeps the invariant, whatever the calls answer.
  pub release_idle_users-Inv :
      (metrics : SystemMetrics fl.F) (now : Instant) (m : Manager fl.F)
      → Inv m
      → Inv (release_idle_users fl env metrics now m)
  unfolding release_idle_users
  release_idle_users-Inv metrics now m h = elim (Bool-cases m.limits_active) [
    | inl on ↦
        let idle = is_idle fl metrics.user_cpu_usage in
        let to_release = users_to_release fl metrics m in
        let start = record m {
          active_users = select (λ uid. not (idle uid)) m.active_users;
          psi_boosted_at = keep (λ uid _. not (member uid to_release)) m.psi_boosted_at;
        } in
        let released = release_users fl env m.shared_cgroup_path to_release start in
        let released-Inv : Inv released =
          Frame-Inv start released
            (release_users-Frame fl env m.shared_cgroup_path to_release start)
            (ground (arith, Distinct-select (λ uid. not (idle uid)) m.active_users h.distinct)) in
        let released-Frame = release_users-Frame fl env m.shared_cgroup_path to_release start in
        let s = add_users fl env m.shared_cgroup_path (users_to_add fl metrics m) (released, []) in
        let s-Frame =
          add_users-Frame fl env m.shared_cgroup_path (users_to_add fl metrics m) released [] in
        let s-Inv = Frame-Inv released s.0 s-Frame released-Inv in
        let still : s.0.limits_active ≡ true = ground arith in
        let marked = mark_added-Inv now s.1 s.0 still s-Inv in ground arith
    | inr off ↦ ground arith
  ]

module _ (fl : Floats) (compile : Compile) (env : Environment) where
  -- After `deactivateLimits`, whatever the calls answer and also when it returns an error, the limits are
  -- not active and no limited user, no path of a shared cgroup and no instant of activation is left.
  pub deactivate_limits-cleared :
      (m : Manager fl.F)
      → let m' = (deactivate_limits fl compile env m).0 in
        (m'.limits_active ≡ false)
        × (m'.limits_applied_time ≡ 0)
        × (m'.active_users ≡ [])
        × (m'.shared_cgroup_path ≡ [])
  unfolding deactivate_limits clear
  deactivate_limits-cleared m =
      let idle = wait fl compile env m in
      let counted =
        if idle.has_exporter then do_call env increment_limits_deactivated idle else idle in
      let cleared = clear fl compile env counted in
      let unwatched = unwatch_users fl env counted.active_users cleared in
      let restored = (restore_users fl compile env counted.active_users (unwatched, none)).0 in
      let f = unwatch_users-Frame fl env counted.active_users cleared in
      let g = restore_users-Frame fl compile env counted.active_users unwatched none in
      let h = call-Frame env (remove_all counted.shared_cgroup_path) restored in ground arith

  pub deactivate_limits-Inv : (m : Manager fl.F) → Inv (deactivate_limits fl compile env m).0
  deactivate_limits-Inv m = ground (arith, deactivate_limits-cleared m)

  pub force_deactivate_limits-Inv :
      (m : Manager fl.F) → Inv (force_deactivate_limits fl compile env m).0
  unfolding force_deactivate_limits
  force_deactivate_limits-Inv m = ground (arith, deactivate_limits-cleared m)

  shut_down-Frame : (m : Manager fl.F) → Frame m (shut_down fl compile env m).0
  unfolding shut_down call
  shut_down-Frame m = ground arith

  unless_failed-Inv :
      (off : Manager fl.F) (error : Option Error)
      → Inv off
      → Inv
          (elim error as (λ _. Manager fl.F × Option Error) [
            | some e ↦ (off, some e)
            | none ↦ shut_down fl compile env off
          ]).0
  unless_failed-Inv off none h = Frame-Inv off _ (shut_down-Frame off) h
  unless_failed-Inv off (some e) h = h

  pub cleanup-Inv : (m : Manager fl.F) → Inv m → Inv (cleanup fl compile env m).0
  unfolding cleanup
  cleanup-Inv m h =
      let idle = wait fl compile env m in
      let idle-Inv = Frame-Inv m idle (wait-Frame fl compile env m) h in
      let off = deactivate_limits fl compile env idle in
      ground (
        arith,
        unless_failed-Inv off.0 off.1 (deactivate_limits-Inv idle),
        Frame-Inv idle _ (shut_down-Frame idle) idle-Inv,
      )
