-- ===== src/State/IoRemediation/Bounds.antt =====
-- How many boosts a user is given within an hour.
use mathlib.Core.Path.{subst}
use cpu_manager_go.Prelude.{sym}
use cpu_manager_go.Prelude.{
  ℕ, suc, ◌+◌, ◌≤◌, ◌≡◌, refl, pos, ltb_ℤ, leb, Bool, true, false, not, ◌&&◌, ◌||◌, List, [], ◌∷◌,
  if◌then◌else◌, arith, Bool-cases, inl, inr,
}
use cpu_manager_go.Prelude.Clock.{Instant, hour, since, since_mono, since_anti, since_self}
use cpu_manager_go.Prelude.Dict.{lookup}
use cpu_manager_go.Prelude.Floats.{Floats}
use cpu_manager_go.Config.Defs.{Config}
use cpu_manager_go.State.IoRemediation.{
  IoBoostState, no_boost, or_new, apply_boost, revert_boost, note_start, is_due, remediate,
  cleanup_states,
}
use cpu_manager_go.State.IoRemediation.Starvation.{day}

-- A check of one user: when, its pressure, whether `RemoveIOLimit` succeeds, and when the clean-up that
-- follows reads the clock.
pub record Sample (F : Type 0) : Type 0 where
  pub now : Instant
  pub psi : F
  pub ok : Bool
  pub later : Instant

-- The state of a user after the clean-up, a new one if it is deleted.
unfoldable pub cleaned : Instant → IoBoostState → IoBoostState
cleaned later s = or_new (lookup 0 (cleanup_states day later ((0, s) ∷ [])))

module _ (fl : Floats) (cfg : Config fl.F) where
  -- The state after a history of checks, most recent first.
  unfoldable pub state_after : List (Sample fl.F) → IoBoostState
  state_after [] = no_boost
  state_after (x ∷ h) = cleaned x.later (remediate fl cfg x.now x.psi x.ok (state_after h)).0

  -- The check gives the user a boost.
  abbrev pub is_boost : Sample fl.F → List (Sample fl.F) → Bool
  is_boost x h = (remediate fl cfg x.now x.psi x.ok (state_after h)).1 && x.ok

  -- The instants of the boosts, most recent first.
  unfoldable pub boosts : List (Sample fl.F) → List Instant
  boosts [] = []
  boosts (x ∷ h) = if is_boost x h then x.now ∷ boosts h else boosts h

  -- The clock never goes back, up to the instant `t`.
  unfoldable pub Dated : List (Sample fl.F) → Instant → Type 0
  Dated [] t = Unit {0}
  Dated (x ∷ h) t = (x.now ≤ x.later) × (x.later ≤ t) × Dated h x.now

-- The boosts of the hour before the instant.
unfoldable pub in_hour : Instant → List Instant → ℕ
in_hour t [] = 0
in_hour t (b ∷ bs) = if ltb_ℤ hour (since t b) then in_hour t bs else suc (in_hour t bs)

in_hour_mono : (t u : Instant) (bs : List Instant) → t ≤ u → in_hour u bs ≤ in_hour t bs
unfolding in_hour
in_hour_mono t u [] h = omega arith
in_hour_mono t u (b ∷ bs) h = ground (arith, in_hour_mono t u bs h, since_mono t u b h)

-- Every boost is no later than the last one that the state knows, or more than an hour old.
unfoldable Known : Instant → Instant → List Instant → Type 0
Known last t [] = Unit {0}
Known last t (b ∷ bs) = (b ≤ t) × ((leb b last || ltb_ℤ hour (since t b)) ≡ true) × Known last t bs

Known-mono : (last t u : Instant) (bs : List Instant) → t ≤ u → Known last t bs → Known last u bs
unfolding Known
Known-mono last t u [] h k = tt
Known-mono last t u (b ∷ bs) h k =
    let older = since_mono t u b h in (omega arith, ground arith, Known-mono last t u bs h k.2)

-- A boost now is later than all that are known.
Known-now : (last t : Instant) (bs : List Instant) → Known last t bs → Known t t bs
unfolding Known
Known-now last t [] k = tt
Known-now last t (b ∷ bs) k = (k.0, ground arith, Known-now last t bs k.2)

Known-forgotten :
    (last t : Instant) (bs : List Instant)
    → ltb_ℤ hour (since t last) ≡ true
    → Known last t bs
    → (in_hour t bs ≡ 0) × Known 0 t bs
unfolding Known in_hour
Known-forgotten last t [] h k = (refl, tt)
Known-forgotten last t (b ∷ bs) h k =
    let rest = Known-forgotten last t bs h k.2 in
    let old : ltb_ℤ hour (since t b) ≡ true = elim (Bool-cases (leb b last)) [
      | inl le ↦ (let older = since_anti t b last (ground arith) in ground arith)
      | inr gt ↦ ground arith
    ] in
    (ground arith, (k.0, ground arith, rest.1))

-- What holds of a state and the boosts so far, at an instant.
abbrev Counts : Instant → IoBoostState → List Instant → Type 0
Counts t s bs = (in_hour t bs ≤ s.boost_count) × Known s.last_boost_time t bs

Counts-mono :
    (t u : Instant) (s : IoBoostState) (bs : List Instant) → t ≤ u → Counts t s bs → Counts u s bs
Counts-mono t u s bs h c =
    let fewer = in_hour_mono t u bs h in (omega arith, Known-mono s.last_boost_time t u bs h c.1)

cleaned-Counts :
    (t : Instant) (s : IoBoostState) (bs : List Instant) → Counts t s bs → Counts t (cleaned t s) bs
unfolding cleaned cleanup_states
cleaned-Counts t s bs c =
    let age = since t s.last_boost_time in
    elim (Bool-cases (ltb_ℤ hour age)) [
      | inr young ↦
          let kept : (not s.is_active && ltb_ℤ day age) ≡ false = ground arith in
          rw (cleaned, cleanup_states, kept, young) c
      | inl old ↦
          let f = Known-forgotten s.last_boost_time t bs old c.1 in
          let none_left : in_hour t bs ≤ 0 = ground (arith, f.0) in
          elim (Bool-cases (not s.is_active && ltb_ℤ day age)) [
            | inl gone ↦ rw (cleaned, cleanup_states, gone) (none_left, f.1)
            | inr kept ↦ rw (cleaned, cleanup_states, kept, old) (none_left, c.1)
          ]
    ]

in_hour-now : (t : Instant) (bs : List Instant) → in_hour t (t ∷ bs) ≡ suc (in_hour t bs)
unfolding in_hour
in_hour-now t bs = ground (arith, since_self t)

Known-cons : (t : Instant) (bs : List Instant) → Known t t bs → Known t t (t ∷ bs)
unfolding Known
Known-cons t bs k = (omega arith, ground arith, k)

boosted-Counts :
    (now : Instant) (next s : IoBoostState) (bs : List Instant)
    → next.boost_count ≡ s.boost_count + 1
    → next.last_boost_time ≡ now
    → Counts now s bs
    → Counts now next (now ∷ bs)
boosted-Counts now next s bs more last c =
    let one = in_hour-now now bs in
    (
      ground (arith, c.0),
      subst (λ l. Known l now (now ∷ bs)) (sym last)
          (Known-cons now bs (Known-now s.last_boost_time now bs c.1)),
    )

same-Counts :
    (now : Instant) (next s : IoBoostState) (bs : List Instant)
    → next.boost_count ≡ s.boost_count
    → next.last_boost_time ≡ s.last_boost_time
    → Counts now s bs
    → Counts now next bs
same-Counts now next s bs same last c =
    (ground (arith, c.0), subst (λ l. Known l now bs) (sym last) c.1)

module _ (fl : Floats) (cfg : Config fl.F) where
  remediate-boosted :
      (x : Sample fl.F) (s : IoBoostState)
      → ((remediate fl cfg x.now x.psi x.ok s).1 && x.ok) ≡ true
      → let next = (remediate fl cfg x.now x.psi x.ok s).0 in
        (next.boost_count ≡ s.boost_count + 1) × (next.last_boost_time ≡ x.now)
  unfolding remediate is_due note_start apply_boost revert_boost
  remediate-boosted x s b = ground arith

  remediate-same :
      (x : Sample fl.F) (s : IoBoostState)
      → ((remediate fl cfg x.now x.psi x.ok s).1 && x.ok) ≡ false
      → let next = (remediate fl cfg x.now x.psi x.ok s).0 in
        (next.boost_count ≡ s.boost_count) × (next.last_boost_time ≡ s.last_boost_time)
  unfolding remediate is_due note_start apply_boost revert_boost
  remediate-same x s b = ground arith

  remediate-Counts :
      (x : Sample fl.F) (s : IoBoostState) (bs : List Instant)
      → Counts x.now s bs
      → let (next, called) = remediate fl cfg x.now x.psi x.ok s in
        Counts x.now next (if called && x.ok then x.now ∷ bs else bs)
  remediate-Counts x s bs c =
      let (next, called) = remediate fl cfg x.now x.psi x.ok s in
      elim (Bool-cases (called && x.ok)) [
        | inl b ↦
            (let k = remediate-boosted x s b in rw b (boosted-Counts x.now next s bs k.0 k.1 c))
        | inr b ↦ (let k = remediate-same x s b in rw b (same-Counts x.now next s bs k.0 k.1 c))
      ]

  state_after-Counts :
      (h : List (Sample fl.F)) (t : Instant)
      → Dated fl cfg h t
      → Counts t (state_after fl cfg h) (boosts fl cfg h)
  unfolding state_after boosts Dated in_hour Known
  state_after-Counts [] t d = (omega arith, tt)
  state_after-Counts (x ∷ h) t d =
      let before = state_after-Counts h x.now d.2 in
      let done = remediate-Counts x (state_after fl cfg h) (boosts fl cfg h) before in
      let next = (remediate fl cfg x.now x.psi x.ok (state_after fl cfg h)).0 in
      let bs = if is_boost fl cfg x h then x.now ∷ boosts fl cfg h else boosts fl cfg h in
      Counts-mono x.later t (cleaned x.later next) bs d.1
        (cleaned-Counts x.later next bs (Counts-mono x.now x.later next bs d.0 done))

  remediate-allowed :
      (n : ℕ) (x : Sample fl.F) (s : IoBoostState)
      → cfg.io_boost_max_per_hour ≡ pos n
      → (remediate fl cfg x.now x.psi x.ok s).1 ≡ true
      → s.boost_count + 1 ≤ n
  unfolding remediate is_due note_start
  remediate-allowed n x s limit b = ground arith

  boosts-cons :
      (x : Sample fl.F) (h : List (Sample fl.F))
      → is_boost fl cfg x h ≡ true
      → boosts fl cfg (x ∷ h) ≡ x.now ∷ boosts fl cfg h
  unfolding boosts
  boosts-cons x h b = rw b refl

  -- Whenever a check gives a user a boost, the boosts that it has been given in the hour up to then, with
  -- this one, are at most the n that the configuration allows for an hour, where every check is
  -- followed by the clean-up of the control cycle and the clock never goes back.
  pub boosts-bound :
      (n : ℕ) (x : Sample fl.F) (h : List (Sample fl.F))
      → cfg.io_boost_max_per_hour ≡ pos n
      → Dated fl cfg h x.now
      → is_boost fl cfg x h ≡ true
      → in_hour x.now (boosts fl cfg (x ∷ h)) ≤ n
  boosts-bound n x h limit d b =
      let before = state_after-Counts h x.now d in
      let allowed = remediate-allowed n x (state_after fl cfg h) limit (ground arith) in
      let more = in_hour-now x.now (boosts fl cfg h) in
      let k : in_hour x.now (x.now ∷ boosts fl cfg h) ≤ n =
        ground (arith, before.0, allowed, more) in
      subst (λ bs. in_hour x.now bs ≤ n) (sym (boosts-cons x h b)) k
