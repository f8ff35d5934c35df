-- ===== src/Tests/Limits.antt =====
-- The operations on the limits at concrete inputs.
use cpu_manager_go.Prelude.{
  ◌≡◌, ◌⊎◌, ◌+◌, ◌*◌, ℕ, false, refl, ℤ, pos, true, false, not, none, some, [], ◌∷◌, arith, member,
  wrap64,
}
use cpu_manager_go.Prelude.Clock.{since, seconds}
use cpu_manager_go.Prelude.Dict.{lookup}
use cpu_manager_go.Prelude.Text.{text, format_int, format_uint, format_fuel}
use cpu_manager_go.Prelude.{◌≤◌}
use cpu_manager_go.Config.Defs.{Config}
use cpu_manager_go.State.IoRemediation.{
  Answers, cleanup_states, remediate, note_start, is_due, apply_boost, revert_boost, is_starved,
}
use cpu_manager_go.State.IoRemediation.Bounds.{
  Sample, cleaned, state_after, boosts, Dated, in_hour, boosts-bound,
}
use cpu_manager_go.State.IoRemediation.Starvation.{
  Check, boosted_users, AllLate, boosted_users-none,
}
use cpu_manager_go.State.Limits.Activate.{
  activate_limits, ensure_shared, limit_eligible, limit_users, limit_user, finish_activation,
  drop_gone, total_quota,
}
use cpu_manager_go.State.Limits.Deactivate.{deactivate_limits}
use cpu_manager_go.State.Limits.Idle.{release_idle_users, is_idle, is_busy}
use cpu_manager_go.State.Limits.Invariant.{deactivate_limits-cleared}
use cpu_manager_go.State.Limits.Jobs.{add_monitors}
use cpu_manager_go.State.Limits.Restored.{Called, deactivate_limits-calls}
use cpu_manager_go.State.Limits.Share.{total_quota-leaves_cores}
use cpu_manager_go.State.Limits.Members.{activate_limits-members, release_idle_users-members}
use cpu_manager_go.State.Manager.{call, apply_cpu_limit, apply_cpu_weight}
use cpu_manager_go.State.Psi.{revert_psi_boosts}
use cpu_manager_go.State.Psi.Expiry.{is_over, lookup-revert_psi_boosts}
use cpu_manager_go.Tests.Model.{ints, exact, obedient, cfg, usage, fresh, limiting}

activate_limits-members_example :
    member 1002 (activate_limits ints obedient (usage (pos 60) (pos 30)) 5 fresh).0.active_users
    ≡ true
unfolding activate_limits ensure_shared limit_eligible limit_users limit_user finish_activation
    drop_gone total_quota add_monitors call cfg format_int format_uint format_fuel wrap64
activate_limits-members_example =
    activate_limits-members ints obedient (usage (pos 60) (pos 30)) 5 1002 fresh refl

release_idle_users-members_example :
    let after =
      member 1002
        (release_idle_users ints obedient (usage (pos 60) (pos 30)) 5 limiting).active_users in
    (false ≡ true → after ≡ not (is_idle ints (usage (pos 60) (pos 30)).user_cpu_usage 1002))
    × (false ≡ false
        → after ≡ true
        → (is_busy ints (usage (pos 60) (pos 30)).user_cpu_usage 1002 ≡ true) × (true ≡ true))
release_idle_users-members_example =
    release_idle_users-members ints obedient (usage (pos 60) (pos 30)) 5 1002 limiting refl

deactivate_limits-cleared_example :
    let m' = (deactivate_limits ints exact obedient limiting).0 in
    (m'.limits_active ≡ false)
    × (m'.limits_applied_time ≡ 0)
    × (m'.active_users ≡ [])
    × (m'.shared_cgroup_path ≡ [])
deactivate_limits-cleared_example = deactivate_limits-cleared ints exact obedient limiting

lookup-revert_psi_boosts_example :
    (lookup 1001 (revert_psi_boosts obedient 200000000000 limiting).psi_boosted_at ≡ none)
    × ((is_over (seconds cfg.psi_boost_duration) 200000000000 (lookup 1001 limiting.psi_boosted_at)
          ≡ false)
        ⊎ Called
            (apply_cpu_weight 1001 (pos 100))
            (revert_psi_boosts obedient 200000000000 limiting).calls)
unfolding cfg since seconds wrap64
lookup-revert_psi_boosts_example =
    lookup-revert_psi_boosts obedient 200000000000 1001 limiting (refl, tt)

abbrev pressed : Answers ℤ
pressed = record { pressure = λ uid. some (pos 80); removes = λ uid. true }

-- A check, so many seconds after a start more than two days after the zero time.
abbrev check_at : ℕ → Check ℤ
check_at n = record {
  cfg = cfg;
  now = (200000 + n) * 1000000000;
  later = (200000 + n) * 1000000000;
  answers = pressed;
  limited_users = 1001 ∷ 1002 ∷ [];
}

-- Ten minutes of pressure, and no boost.
boosted_users-none_example :
    boosted_users ints
      (check_at 0 ∷ check_at 300 ∷ check_at 600 ∷ [])
      (record { boost_states = []; last_check = 0 })
    ≡ []
unfolding cfg since seconds wrap64
boosted_users-none_example =
    boosted_users-none ints (check_at 0 ∷ check_at 300 ∷ check_at 600 ∷ [])
      (record { boost_states = []; last_check = 0 }) refl
      (AllLate.cons refl refl (AllLate.cons refl refl (AllLate.cons refl refl AllLate.nil)))

-- Without a threshold of time a user is given a boost at once, and again after it has been reverted.
abbrev hasty : Config ℤ
hasty = record cfg { io_starvation_threshold = pos 0 }

abbrev sample_at : ℕ → Sample ℤ
sample_at n = record {
  now = (200000 + n) * 1000000000;
  psi = pos 80;
  ok = true;
  later = (200000 + n) * 1000000000;
}

boosts-bound_example :
    in_hour
      (202000 * 1000000000)
      (boosts ints hasty (sample_at 2000 ∷ sample_at 1000 ∷ sample_at 0 ∷ []))
    ≤ 3
unfolding cfg since seconds wrap64 Dated state_after cleaned cleanup_states remediate note_start
    is_due apply_boost revert_boost is_starved
boosts-bound_example =
    boosts-bound ints hasty 3 (sample_at 2000) (sample_at 1000 ∷ sample_at 0 ∷ []) refl
      (omega arith, omega arith, (omega arith, omega arith, tt)) refl

deactivate_limits-calls_example :
    Called
      (apply_cpu_limit 1001 (text "max 100000"))
      (deactivate_limits ints exact obedient limiting).0.calls
unfolding cfg
deactivate_limits-calls_example = deactivate_limits-calls ints exact obedient 1001 limiting refl

-- Of eight cores two are kept.
total_quota-leaves_cores_example : total_quota (pos 8) (pos 2) ≡ pos 600000
total_quota-leaves_cores_example = total_quota-leaves_cores 8 2 (omega arith) (omega arith)
