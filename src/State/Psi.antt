-- ===== src/State/Psi.antt =====
-- state/manager.go: `OnUserPSIEvent`, which raises the CPU weight of a limited user under pressure,
-- and `revertPSIBoosts`, which takes the weight back.
use cpu_manager_go.Prelude.{
  ℕ, zero, suc, ◌≡◌, ◌==◌, ◌+◌, refl, ℤ, pos, leb_ℤ, ltb_ℤ, Bool, true, false, not, ◌&&◌, ◌||◌,
  Option, none, some, List, [], ◌∷◌, if◌then◌else◌, is_empty, member, arith, Bool-cases, inl, inr,
}
use cpu_manager_go.Prelude.Clock.{Instant, since, seconds}
use cpu_manager_go.Prelude.Dict.{Dict, lookup, put, delete, lookup-put, lookup-delete}
use cpu_manager_go.Prelude.Floats.{Floats}
use cpu_manager_go.Prelude.Text.{Bytes}
use cpu_manager_go.State.Manager.{Call, apply_cpu_weight, Environment, Manager, call, do_call}
pub mod Expiry

module _ {F : Type 0} (env : Environment) where
  -- `OnUserPSIEvent`, of an event by its user; a negative user id is not one of an event's.
  unfoldable pub on_user_psi_event : ℕ → Instant → Manager F → Manager F
  on_user_psi_event uid now m =
      let (boosted, ok) = call env (apply_cpu_weight uid m.cfg.psi_boost_weight) m in
      if uid == 0
      then m
      else if not (member uid m.active_users)
      then m
      else if not ok
      then boosted
      else record boosted { psi_boosted_at = put uid now boosted.psi_boosted_at }

  unfoldable pub reset_weights : List ℕ → Manager F → Manager F
  reset_weights [] m = m
  reset_weights (uid ∷ uids) m = reset_weights uids (do_call env (apply_cpu_weight uid (pos 100)) m)

-- The users whose boost is as old as the duration, or older.
unfoldable pub expired : ℤ → Instant → Dict Instant → List ℕ
expired duration now [] = []
expired duration now ((uid, boosted) ∷ d) =
    let rest = expired duration now d in
    if leb_ℤ duration (since now boosted) then uid ∷ rest else rest

unfoldable pub delete_all : List ℕ → Dict Instant → Dict Instant
delete_all [] d = d
delete_all (uid ∷ uids) d = delete_all uids (delete uid d)

module _ {F : Type 0} (env : Environment) where
  -- `revertPSIBoosts`
  unfoldable pub revert_psi_boosts : Instant → Manager F → Manager F
  revert_psi_boosts now m =
      let uids = expired (seconds m.cfg.psi_boost_duration) now m.psi_boosted_at in
      let reverted = reset_weights env uids m in
      if is_empty uids
      then m
      else record reverted { psi_boosted_at = delete_all uids reverted.psi_boosted_at }
