-- ===== src/State/Psi/Expiry.antt =====
-- Which boosts are over after `revertPSIBoosts`.
use mathlib.Core.Path.{subst}
use cpu_manager_go.State.Limits.Restored.{Called}
use cpu_manager_go.Prelude.{
  ℕ, ◌≡◌, ◌==◌, refl, ℤ, pos, leb_ℤ, Bool, true, false, is_empty, ◌∙◌, sym, ◌⊎◌, Option, none, some,
  List, [], ◌∷◌, if◌then◌else◌, member, Distinct, arith, Bool-cases, inl, inr,
}
use cpu_manager_go.Prelude.Clock.{Instant, since, seconds}
use cpu_manager_go.Prelude.Dict.{Dict, lookup, delete, keys, lookup-delete, lookup_missing}
use cpu_manager_go.State.Manager.{Call, apply_cpu_weight, Environment, Manager, call, do_call}
use cpu_manager_go.State.Psi.{reset_weights, expired, delete_all, revert_psi_boosts}

-- A boost that began at the instant is as old as the duration, or older.
abbrev pub is_over : ℤ → Instant → Option Instant → Bool
is_over duration now none = false
is_over duration now (some boosted) = leb_ℤ duration (since now boosted)

member-expired :
    (duration : ℤ) (now : Instant) (uid : ℕ) (d : Dict Instant)
    → Distinct (keys d)
    → member uid (expired duration now d) ≡ is_over duration now (lookup uid d)
unfolding expired
member-expired duration now uid [] h = refl
member-expired duration now uid ((j, t) ∷ d) h = elim (Bool-cases (uid == j)) [
  | inl same ↦
      let e : uid ≡ j = ground arith in
      let missing : lookup uid d ≡ none = rw e (lookup_missing j d h.0) in
      ground (arith, member-expired duration now uid d h.1)
  | inr other ↦ ground (arith, member-expired duration now uid d h.1)
]

lookup-delete_all :
    (uid : ℕ) (us : List ℕ) (d : Dict Instant)
    → lookup uid (delete_all us d) ≡ (if member uid us then none else lookup uid d)
unfolding delete_all
lookup-delete_all uid [] d = refl
lookup-delete_all uid (u ∷ us) d =
    ground (arith, lookup-delete_all uid us (delete u d), lookup-delete uid u d)

member-not_empty : (uid : ℕ) (us : List ℕ) → member uid us ≡ true → is_empty us ≡ false
member-not_empty uid [] h = absurd (ground arith)
member-not_empty uid (u ∷ us) h = refl

module _ {F : Type 0} (env : Environment) where
  boosts-reset_weights :
      (us : List ℕ) (m : Manager F) → (reset_weights env us m).psi_boosted_at ≡ m.psi_boosted_at
  unfolding reset_weights call
  boosts-reset_weights [] m = refl
  boosts-reset_weights (u ∷ us) m = boosts-reset_weights us (do_call env (apply_cpu_weight u _) m)

  call-keeps : (c d : Call) (m : Manager F) → Called c m.calls → Called c (do_call env d m).calls
  unfolding call Called
  call-keeps c d m h = inr h

  reset_weights-keeps :
      (c : Call) (us : List ℕ) (m : Manager F)
      → Called c m.calls
      → Called c (reset_weights env us m).calls
  unfolding reset_weights
  reset_weights-keeps c [] m h = h
  reset_weights-keeps c (u ∷ us) m h =
      reset_weights-keeps c us _ (call-keeps c (apply_cpu_weight u (pos 100)) m h)

  reset_weights-calls :
      (uid : ℕ) (us : List ℕ) (m : Manager F)
      → member uid us ≡ true
      → Called (apply_cpu_weight uid (pos 100)) (reset_weights env us m).calls
  unfolding reset_weights
  reset_weights-calls uid [] m h = absurd (ground arith)
  reset_weights-calls uid (u ∷ us) m h =
      let next = do_call env (apply_cpu_weight u (pos 100)) m in
      elim (Bool-cases (uid == u)) [
        | inl same ↦
            let e : u ≡ uid = ground arith in
            let made : Called (apply_cpu_weight u (pos 100)) next.calls =
              unfold call in unfold Called in inl refl in
            reset_weights-keeps (apply_cpu_weight uid (pos 100)) us next
              (subst (λ v. Called (apply_cpu_weight v (pos 100)) next.calls) e made)
        | inr other ↦ reset_weights-calls uid us next (ground arith)
      ]

  -- `revertPSIBoosts` ends exactly the boosts that have lasted for the configured duration, and keeps
  -- every other with the instant it began, where no user is boosted twice over. For each boost that it
  -- ends it asks the cgroups to set the CPU weight of the user to 100, whatever the calls answer.
  pub lookup-revert_psi_boosts :
      (now : Instant) (uid : ℕ) (m : Manager F)
      → Distinct (keys m.psi_boosted_at)
      → (lookup uid (revert_psi_boosts env now m).psi_boosted_at ≡ (
          if is_over (seconds m.cfg.psi_boost_duration) now (lookup uid m.psi_boosted_at)
          then none
          else lookup uid m.psi_boosted_at))
        × ((is_over (seconds m.cfg.psi_boost_duration) now (lookup uid m.psi_boosted_at) ≡ false)
            ⊎ Called (apply_cpu_weight uid (pos 100)) (revert_psi_boosts env now m).calls)
  unfolding revert_psi_boosts
  lookup-revert_psi_boosts now uid m h =
      let duration = seconds m.cfg.psi_boost_duration in
      let us = expired duration now m.psi_boosted_at in
      let same = boosts-reset_weights us m in
      let over = member-expired duration now uid m.psi_boosted_at h in
      (
        ground (arith, over, lookup-delete_all uid us m.psi_boosted_at),
        elim (Bool-cases (member uid us)) [
          | inr kept ↦ inl (sym over ∙ kept)
          | inl mem ↦
              let some_user : is_empty us ≡ false = member-not_empty uid us mem in
              inr (rw some_user (reset_weights-calls uid us m mem))
        ],
      )
