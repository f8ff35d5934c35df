-- ===== src/State/Tracker/Window.antt =====
-- What a `ThresholdTracker` measures, against the history of the samples that it was given.
use cpu_manager_go.Prelude.{
  ◌<◌, ℤ, ◌≤ℤ◌, Bool, true, ◌≡◌, refl, ◌↔◌, List, [], ◌∷◌, arith, if◌then◌else◌, ◌==◌,
}
use cpu_manager_go.Prelude.Clock.{Instant, since}
use cpu_manager_go.Prelude.Floats.{Floats}
use cpu_manager_go.State.Tracker.{ThresholdTracker, reset, should_activate_limits}

pub record Sample (F : Type 0) : Type 0 where
  pub value : F
  pub now : Instant

module _ (fl : Floats) (threshold : fl.F) (required : ℤ) where
  -- The tracker after a history of samples, most recent first, since a reset.
  pub track : List (Sample fl.F) → ThresholdTracker → ThresholdTracker
  unfolding reset should_activate_limits
  track [] t = reset t
  track (x ∷ older) t =
      (should_activate_limits fl x.value threshold required x.now (track older t)).0

  abbrev pub is_over : Sample fl.F → Bool
  is_over x = fl.leb threshold x.value

  -- The samples at or above the threshold that end the history without a gap.
  abbrev pub streak : List (Sample fl.F) → List (Sample fl.F)
  streak [] = []
  streak (x ∷ older) = let rest = streak older in if is_over x then x ∷ rest else []

  -- The instant of the oldest of them, or 0.
  abbrev pub begin : List (Sample fl.F) → Instant
  begin [] = 0
  begin (x ∷ []) = x.now
  begin (x ∷ y ∷ older) = begin (y ∷ older)

  -- The clock never reads the zero time.
  abbrev pub Dated : List (Sample fl.F) → Type 0
  Dated [] = Unit {0}
  Dated (x ∷ older) = (0 < x.now) × Dated older

  streak-Dated : (h : List (Sample fl.F)) → Dated h → Dated (streak h)
  streak-Dated [] d = tt
  streak-Dated (x ∷ h) d = ground (arith, streak-Dated h d.1)

  begin_pos : (x : Sample fl.F) (l : List (Sample fl.F)) → Dated (x ∷ l) → 0 < begin (x ∷ l)
  begin_pos x [] d = d.0
  begin_pos x (y ∷ l) d = begin_pos y l d.1

  begin-cons :
      (x : Sample fl.F) (l : List (Sample fl.F))
      → Dated l
      → begin (x ∷ l) ≡ (if begin l == 0 then x.now else begin l)
  begin-cons x [] d = refl
  begin-cons x (y ∷ l) d = ground (arith, begin_pos y l d)

  first-track :
      (h : List (Sample fl.F)) (t : ThresholdTracker)
      → Dated h
      → (track h t).first_over_threshold_time ≡ begin (streak h)
  unfolding track
  first-track [] t d = refl
  first-track (x ∷ h) t d =
      ground (arith, first-track h t d.1, begin-cons x (streak h) (streak-Dated h d.1))

  -- After a reset and any history of dated samples, `ShouldActivateLimits` answers yes to a sample
  -- exactly when it is at or above the threshold, and so were all samples since one that is at least
  -- the required duration old.
  pub should_activate_iff :
      (x : Sample fl.F) (h : List (Sample fl.F)) (t : ThresholdTracker)
      → Dated (x ∷ h)
      → ((should_activate_limits fl x.value threshold required x.now (track h t)).1 ≡ true)
        ↔ ((is_over x ≡ true) × (required ≤ℤ since x.now (begin (streak (x ∷ h)))))
  unfolding should_activate_limits
  should_activate_iff x h t d =
      let first = first-track h t d.1 in
      let start = begin-cons x (streak h) (streak-Dated h d.1) in
      (λ e. ground (arith, first, start), λ e. ground (arith, first, start))
