-- ===== src/State/Cycle/Metrics/Users.antt =====
-- What the metrics of a cycle say of each user.
use cpu_manager_go.Prelude.{
  ℕ, ◌+◌, ◌≡◌, ◌==◌, Bool, false, ◌&&◌, ◌||◌, Option, none, some, List, [], ◌∷◌, if◌then◌else◌,
  length, member, member-append, Distinct, arith, Bool-cases, inl, inr,
}
use cpu_manager_go.Prelude.Clock.{Instant}
use cpu_manager_go.Prelude.Dict.{Dict, lookup, keys, lookup-put, lookup_missing}
use cpu_manager_go.Prelude.Floats.{Floats}
use cpu_manager_go.State.Cycle.Metrics.{
  Reading, IoRates, Collected, add_to_all, add_to_eligible, collect_user, collect_users, no_users,
  collect_system_metrics,
}
use cpu_manager_go.State.Defs.{UserMetrics}

-- The collector's filters select the user.
abbrev pub is_selected : {F : Type 0} → Option (UserMetrics F) → Bool
is_selected none = false
is_selected (some um) = um.is_limited

-- What is known of a user, with the flag that says whether the user is limited at the moment; or else
-- what was known before.
abbrev pub shown :
    {F : Type 0} → Bool → Option (UserMetrics F) → Option (UserMetrics F) → Option (UserMetrics F)
shown limited none before = before
shown limited (some um) before = some (record um { is_limited = limited })

module _ (fl : Floats) (update : Bool) (now prev_time : Instant) (active : List ℕ) where
  collect_user-users :
      (j uid : ℕ) (um : UserMetrics fl.F) (c : Collected fl.F)
      → let m' = (collect_user fl update now prev_time active j um c).metrics in
        (member uid m'.eligible_users
          ≡ (member uid c.metrics.eligible_users || (um.is_limited && uid == j)))
        × (lookup uid m'.user_metrics ≡ (
            if uid == j
            then some (record um { is_limited = member j active })
            else lookup uid c.metrics.user_metrics))
        × (m'.all_users_count ≡ c.metrics.all_users_count + 1)
  unfolding collect_user add_to_all add_to_eligible
  collect_user-users j uid um c =
      let shown_um = record um { is_limited = member j active } in
      ground (
        arith,
        member-append uid c.metrics.eligible_users (j ∷ []),
        lookup-put uid j shown_um c.metrics.user_metrics,
      )

  collect_users-users :
      (users : Dict (UserMetrics fl.F)) (uid : ℕ) (c : Collected fl.F)
      → Distinct (keys users)
      → let m' = (collect_users fl update now prev_time active users c).metrics in
        (member uid m'.eligible_users
          ≡ (member uid c.metrics.eligible_users || is_selected (lookup uid users)))
        × (lookup uid m'.user_metrics
            ≡ shown (member uid active) (lookup uid users) (lookup uid c.metrics.user_metrics))
        × (m'.all_users_count ≡ c.metrics.all_users_count + length users)
  unfolding collect_users
  collect_users-users [] uid c d = ground arith
  collect_users-users ((j, um) ∷ users) uid c d =
      let next = collect_user fl update now prev_time active j um c in
      let step = collect_user-users j uid um c in
      let rest = collect_users-users users uid next d.1 in
      elim (Bool-cases (uid == j)) [
        | inl same ↦
            let e : uid ≡ j = ground arith in
            let missing : lookup uid users ≡ none = rw e (lookup_missing j users d.0) in
            ground arith
        | inr other ↦ ground arith
      ]

module _ (fl : Floats) where
  -- Of the users that the collector measures, each once, the metrics of a cycle list as eligible
  -- exactly those that its filters select, and count them; they show each user as the collector does,
  -- but as limited exactly when the manager limits the user at the moment; and they count all.
  pub collect_system_metrics-users :
      (update : Bool) (now : Instant) (active : List ℕ) (reading : Reading fl.F) (rates : IoRates)
      (uid : ℕ)
      → Distinct (keys reading.users)
      → let m = (collect_system_metrics fl update now active reading rates).0 in
        (member uid m.eligible_users ≡ is_selected (lookup uid reading.users))
        × (m.limited_users_count ≡ length m.eligible_users)
        × (lookup uid m.user_metrics ≡ shown (member uid active) (lookup uid reading.users) none)
        × (m.all_users_count ≡ length reading.users)
  unfolding collect_system_metrics no_users
  collect_system_metrics-users update now active reading rates uid d =
      let start : Collected fl.F = record {
        metrics = no_users fl reading now;
        written = rates.prev_io_bytes;
      } in
      let all =
        collect_users-users fl update now rates.prev_io_time active reading.users uid start d in
      ground arith
