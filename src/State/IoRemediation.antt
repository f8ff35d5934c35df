-- ===== src/State/IoRemediation.antt =====
-- state/io_remediation.go: users that starve for IO lose their IO limit for a while.
use cpu_manager_go.Prelude.{
  ℕ, ◌+◌, ℤ, pos, ltb_ℤ, leb_ℤ, Bool, true, false, not, ◌&&◌, Option, none, some, List, [], ◌∷◌,
  ◌++◌, if◌then◌else◌,
}
use cpu_manager_go.Prelude.Clock.{Instant, is_zero, since, seconds, hour}
use cpu_manager_go.Prelude.Dict.{Dict, lookup, put}
use cpu_manager_go.Prelude.Floats.{Floats}
use cpu_manager_go.Prelude.Text.{Bytes}
use cpu_manager_go.Config.Defs.{Config}
pub mod Bounds
pub mod Starvation

pub record IoBoostState : Type 0 where
  pub is_active : Bool
  pub start_time : Instant
  pub original_read_bps : Bytes
  pub original_write_bps : Bytes
  pub original_read_iops : ℤ
  pub original_write_iops : ℤ
  pub boost_count : ℕ
  pub last_boost_time : Instant
  pub starvation_start : Instant

-- `&IOBoostState{}`
abbrev pub no_boost : IoBoostState
no_boost = record {
  is_active = false;
  start_time = 0;
  original_read_bps = [];
  original_write_bps = [];
  original_read_iops = pos 0;
  original_write_iops = pos 0;
  boost_count = 0;
  last_boost_time = 0;
  starvation_start = 0;
}

-- A user without a state gets a new one.
abbrev pub or_new : Option IoBoostState → IoBoostState
or_new none = no_boost
or_new (some s) = s

pub record IoRemediation : Type 0 where
  pub boost_states : Dict IoBoostState
  pub last_check : Instant

-- What `GetPSIStats` and `RemoveIOLimit` answer for each user during one check.
pub record Answers (F : Type 0) : Type 0 where
  pub pressure : ℕ → Option F
  pub removes : ℕ → Bool

-- The states during a check, and the users for which `RemoveIOLimit` was called.
pub record Round : Type 0 where
  pub states : Dict IoBoostState
  pub removed : List ℕ

-- `applyBoost`, given whether `RemoveIOLimit` succeeds.
unfoldable pub apply_boost : Bool → Instant → IoBoostState → IoBoostState
apply_boost ok now s = if not ok then s else record s {
  is_active = true;
  start_time = now;
  boost_count = s.boost_count + 1;
  last_boost_time = now;
}

-- `revertBoost`
unfoldable pub revert_boost : IoBoostState → IoBoostState
revert_boost s = record s { is_active = false; starvation_start = 0 }

module _ (fl : Floats) where
  -- The state of a user whose pressure is at the threshold or above, with the start of it noted.
  unfoldable pub note_start : Instant → IoBoostState → IoBoostState
  note_start now s = if is_zero s.starvation_start then record s { starvation_start = now } else s

  -- A boost is due: the starvation has lasted, none is active, and the hour's are not used up.
  unfoldable pub is_due : Config fl.F → Instant → IoBoostState → Bool
  is_due cfg now s =
      leb_ℤ (seconds cfg.io_starvation_threshold) (since now s.starvation_start)
      && not s.is_active
      && not (leb_ℤ cfg.io_boost_max_per_hour (pos s.boost_count))

  unfoldable pub is_starved : Config fl.F → fl.F → Bool
  is_starved cfg psi = fl.leb cfg.io_psi_threshold psi

  -- One user whose pressure is known: the new state, and whether `RemoveIOLimit` was called.
  unfoldable pub remediate :
      Config fl.F → Instant → fl.F → Bool → IoBoostState → IoBoostState × Bool
  remediate cfg now psi ok s =
      let noted = note_start now s in
      let calm = record s { starvation_start = 0 } in
      if is_starved cfg psi
      then if is_due cfg now noted
        then (apply_boost ok now noted, true)
        else if noted.is_active
            && leb_ℤ (seconds cfg.io_boost_duration) (since now noted.start_time)
        then (revert_boost noted, false)
        else (noted, false)
      else if calm.is_active && cfg.io_revert_on_normal
      then (revert_boost calm, false)
      else (calm, false)

  -- One turn of the loop: a user whose pressure is not known keeps the state, a new one if need be.
  unfoldable pub remediate_user : Config fl.F → Instant → Answers fl.F → ℕ → Round → Round
  remediate_user cfg now answers uid r =
      let s = or_new (lookup uid r.states) in
      elim (answers.pressure uid) [
        | none ↦ record r { states = put uid s r.states }
        | some psi ↦
            (let (s', called) = remediate cfg now psi (answers.removes uid) s in
              record {
                states = put uid s' r.states;
                removed = if called then r.removed ++ uid ∷ [] else r.removed;
              })
      ]

  unfoldable pub remediate_users : Config fl.F → Instant → Answers fl.F → List ℕ → Round → Round
  remediate_users cfg now answers [] r = r
  remediate_users cfg now answers (uid ∷ uids) r =
      remediate_users cfg now answers uids (remediate_user cfg now answers uid r)

  -- `CheckAndRemediate`, with the users for which `RemoveIOLimit` was called.
  unfoldable pub check_and_remediate :
      Config fl.F → Instant → Answers fl.F → List ℕ → IoRemediation → IoRemediation × List ℕ
  check_and_remediate cfg now answers limited_users r =
      let round =
        remediate_users cfg now answers limited_users
          (record { states = r.boost_states; removed = [] }) in
      if not cfg.io_remediation_enabled
      then (r, [])
      else if ltb_ℤ (since now r.last_check) (seconds cfg.io_starvation_check_interval)
      then (r, [])
      else (record { boost_states = round.states; last_check = now }, round.removed)

-- `Cleanup`, entry by entry: old states go, and the counter restarts an hour after the last boost.
unfoldable pub cleanup_states : ℤ → Instant → Dict IoBoostState → Dict IoBoostState
cleanup_states max_age now [] = []
cleanup_states max_age now ((uid, s) ∷ states) =
    let rest = cleanup_states max_age now states in
    let age = since now s.last_boost_time in
    let kept = if ltb_ℤ hour age then record s { boost_count = 0 } else s in
    if not s.is_active && ltb_ℤ max_age age then rest else (uid, kept) ∷ rest

unfoldable pub cleanup : ℤ → Instant → IoRemediation → IoRemediation
cleanup max_age now r = record r { boost_states = cleanup_states max_age now r.boost_states }
