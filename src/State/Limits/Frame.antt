-- ===== src/State/Limits/Frame.antt =====
-- What the calls, the monitors and the jobs leave alone: all of the manager but its record of calls
-- and the jobs that wait.
use cpu_manager_go.Prelude.{ℕ, ◌≡◌, Option, List, [], ◌∷◌, pos, arith}
use cpu_manager_go.Prelude.Floats.{Floats}
use cpu_manager_go.Prelude.Text.{Bytes}
use cpu_manager_go.Config.Defs.{Config}
use cpu_manager_go.Config.Filter.{Compile}
use cpu_manager_go.Config.Quota.{Quota, bytes, failed, parse_ram_quota}
use cpu_manager_go.State.Limits.Deactivate.{unwatch_users, lift_limits, restore_user, restore_users}
use cpu_manager_go.State.Limits.Idle.{release_users, add_user, add_users}
use cpu_manager_go.State.Limits.Jobs.{
  add_monitors, remove_monitors, apply_ram, run_job, run_jobs, wait,
}
use cpu_manager_go.State.Manager.{
  Call, apply_cpu_limit, move_all_user_processes_to_shared_cgroup, apply_cpu_weight, Environment,
  Job, configure, re_add, release, Manager, Error, call,
}

pub record Frame {F : Type 0} (m m' : Manager F) : Type 0 where
  pub cfg : m'.cfg ≡ m.cfg
  pub decision : m'.decision ≡ m.decision
  pub active_users : m'.active_users ≡ m.active_users
  pub shared_cgroup_path : m'.shared_cgroup_path ≡ m.shared_cgroup_path
  pub psi_boosted_at : m'.psi_boosted_at ≡ m.psi_boosted_at
  pub has_psi_watcher : m'.has_psi_watcher ≡ m.has_psi_watcher
  pub has_exporter : m'.has_exporter ≡ m.has_exporter

module _ {F : Type 0} where
  pub Frame-refl : (m : Manager F) → Frame m m
  Frame-refl m = ground arith

  pub Frame-trans : (a b c : Manager F) → Frame a b → Frame b c → Frame a c
  Frame-trans a b c h k = ground arith

  pub call-Frame : (env : Environment) (c : Call) (m : Manager F) → Frame m (call env c m).0
  unfolding call
  call-Frame env c m = ground arith

module _ (fl : Floats) (env : Environment) where
  pub add_monitors-Frame : (uid : ℕ) (m : Manager fl.F) → Frame m (add_monitors fl env uid m)
  unfolding add_monitors call
  add_monitors-Frame uid m = ground arith

  pub remove_monitors-Frame : (uid : ℕ) (m : Manager fl.F) → Frame m (remove_monitors fl env uid m)
  unfolding remove_monitors call
  remove_monitors-Frame uid m = ground arith

  pub unwatch_users-Frame :
      (uids : List ℕ) (m : Manager fl.F) → Frame m (unwatch_users fl env uids m)
  unfolding unwatch_users
  unwatch_users-Frame [] m = Frame-refl m
  unwatch_users-Frame (uid ∷ uids) m =
      Frame-trans _ _ _ (remove_monitors-Frame uid m) (unwatch_users-Frame uids _)

  pub release_users-Frame :
      (path : Bytes) (uids : List ℕ) (m : Manager fl.F) → Frame m (release_users fl env path uids m)
  unfolding release_users
  release_users-Frame path [] m = Frame-refl m
  release_users-Frame path (uid ∷ uids) m =
      Frame-trans _ _ _ (ground (arith, remove_monitors-Frame uid m))
        (release_users-Frame path uids _)

  add_user-Frame :
      (path : Bytes) (uid : ℕ) (m : Manager fl.F) (added : List ℕ)
      → Frame m (add_user fl env path uid (m, added)).0
  unfolding add_user call add_monitors
  add_user-Frame path uid m added = ground arith

  pub add_users-Frame :
      (path : Bytes) (uids : List ℕ) (m : Manager fl.F) (added : List ℕ)
      → Frame m (add_users fl env path uids (m, added)).0
  unfolding add_users
  add_users-Frame path [] m added = Frame-refl m
  add_users-Frame path (uid ∷ uids) m added =
      let (next, more) = add_user fl env path uid (m, added) in
      Frame-trans m next _ (add_user-Frame path uid m added) (add_users-Frame path uids next more)

module _ (fl : Floats) (compile : Compile) (env : Environment) where
  apply_ram-Frame :
      (cfg : Config fl.F) (uid : ℕ) (q : Quota) (m : Manager fl.F)
      → Frame m (apply_ram fl compile env cfg uid q m)
  unfolding apply_ram call
  apply_ram-Frame cfg uid (failed e) m = Frame-refl m
  apply_ram-Frame cfg uid (bytes n) m = ground arith

  pub run_job-Frame : (j : Job fl.F) (m : Manager fl.F) → Frame m (run_job fl compile env j m)
  unfolding run_job call
  run_job-Frame (configure cfg uid path) m =
      let moved = (call env (move_all_user_processes_to_shared_cgroup uid path) m).0 in
      let weighed = (call env (apply_cpu_weight uid (pos 100)) moved).0 in
      ground (arith, apply_ram-Frame cfg uid (parse_ram_quota cfg.ram_quota_per_user) weighed)
  run_job-Frame (re_add uid path) m = ground arith
  run_job-Frame (release uid path) m = ground arith

  run_jobs-Frame :
      (js : List (Job fl.F)) (m : Manager fl.F) → Frame m (run_jobs fl compile env js m)
  unfolding run_jobs
  run_jobs-Frame [] m = Frame-refl m
  run_jobs-Frame (j ∷ js) m =
      Frame-trans _ _ _ (run_job-Frame j m) (run_jobs-Frame js (run_job fl compile env j m))

  pub wait-Frame : (m : Manager fl.F) → Frame m (wait fl compile env m)
  unfolding wait
  wait-Frame m = ground (arith, run_jobs-Frame m.pending m)

  pub lift_limits-Frame : (uid : ℕ) (m : Manager fl.F) → Frame m (lift_limits fl compile env uid m)
  unfolding lift_limits call
  lift_limits-Frame uid m = ground arith

  pub restore_user-Frame :
      (uid : ℕ) (m : Manager fl.F) (e : Option Error)
      → Frame m (restore_user fl compile env uid (m, e)).0
  unfolding restore_user call
  restore_user-Frame uid m e =
      ground
        (arith, lift_limits-Frame uid (call env (apply_cpu_limit uid m.cfg.cpu_quota_normal) m).0)

  pub restore_users-Frame :
      (uids : List ℕ) (m : Manager fl.F) (e : Option Error)
      → Frame m (restore_users fl compile env uids (m, e)).0
  unfolding restore_users
  restore_users-Frame [] m e = Frame-refl m
  restore_users-Frame (uid ∷ uids) m e =
      let (next, first) = restore_user fl compile env uid (m, e) in
      Frame-trans m next _ (restore_user-Frame uid m e) (restore_users-Frame uids next first)
