-- ===== src/State/PatternDetector/Samples.antt =====
-- The samples that are counted, and what they let the detector say of a user.
use cpu_manager_go.Prelude.{
  ℕ, zero, suc, ◌+◌, ◌<◌, ◌≡◌, ◌==◌, refl, pos, ◌≤ℤ◌, false, some, List, [], ◌∷◌, length, arith,
  Bool-cases, inl, inr,
}
use cpu_manager_go.Prelude.Clock.{Instant}
use cpu_manager_go.Prelude.Dict.{Dict, lookup, put}
use cpu_manager_go.Prelude.Floats.{Floats}
use cpu_manager_go.Config.Defs.{Config}
use cpu_manager_go.State.PatternDetector.{
  UserHourlyStats, PatternResult, entry_at, set_at, new_stats, known_stats, add_sample, update,
  total, if_confident, classify_pattern, analyze_user, analyze,
}
use cpu_manager_go.State.Policy.{is_unknown}

module _ {A : Type 0} where
  length-set_at : (n : ℕ) (y : A) (xs : List A) → length (set_at n y xs) ≡ length xs
  length-set_at n y [] = refl
  length-set_at zero y (x ∷ xs) = refl
  length-set_at (suc n) y (x ∷ xs) = omega (arith, length-set_at n y xs)

module _ (fl : Floats) where
  total-set_at :
      (n : ℕ) (counts : List ℕ)
      → n < length counts
      → total (set_at n (entry_at 0 n counts + 1) counts) ≡ total counts + 1
  total-set_at n [] h = absurd (omega arith)
  total-set_at zero (c ∷ counts) h = omega arith
  total-set_at (suc n) (c ∷ counts) h = let e = total-set_at n counts (omega arith) in omega arith

  -- The statistics have a slot for each hour, and count each sample in one of them.
  pub record IsCounted (s : UserHourlyStats fl.F) : Type 0 where
    pub cpu_slots : length s.hourly_cpu ≡ 24
    pub count_slots : length s.hourly_count ≡ 24
    pub samples : s.total_samples ≡ total s.hourly_count

  unfoldable pub AllCounted : Dict (UserHourlyStats fl.F) → Type 0
  AllCounted [] = Unit {0}
  AllCounted ((uid, s) ∷ stats) = IsCounted s × AllCounted stats

  new_stats-IsCounted : (now : Instant) → IsCounted (new_stats fl now)
  unfolding new_stats
  new_stats-IsCounted now = record { cpu_slots = refl; count_slots = refl; samples = refl }

  add_sample-IsCounted :
      (hour : ℕ) (now : Instant) (cpu : fl.F) (s : UserHourlyStats fl.F)
      → hour < 24
      → IsCounted s
      → IsCounted (add_sample fl hour now cpu s)
  unfolding add_sample
  add_sample-IsCounted hour now cpu s small h =
      let counted = total-set_at hour s.hourly_count (omega (arith, h.count_slots)) in
      record {
        cpu_slots = omega (arith, h.cpu_slots, length-set_at hour _ s.hourly_cpu);
        count_slots = omega (
          arith,
          h.count_slots,
          length-set_at hour (entry_at 0 hour s.hourly_count + 1) s.hourly_count,
        );
        samples = omega (arith, h.samples);
      }

  put-AllCounted :
      (uid : ℕ) (s : UserHourlyStats fl.F) (stats : Dict (UserHourlyStats fl.F))
      → IsCounted s
      → AllCounted stats
      → AllCounted (put uid s stats)
  unfolding AllCounted
  put-AllCounted uid s [] i h = (i, tt)
  put-AllCounted uid s ((j, t) ∷ stats) i h = ground (arith, put-AllCounted uid s stats i h.1)

  known_stats-IsCounted :
      (now : Instant) (uid : ℕ) (stats : Dict (UserHourlyStats fl.F))
      → AllCounted stats
      → IsCounted (known_stats fl now (lookup uid stats))
  unfolding AllCounted
  known_stats-IsCounted now uid [] h = new_stats-IsCounted now
  known_stats-IsCounted now uid ((j, t) ∷ stats) h =
      ground (arith, known_stats-IsCounted now uid stats h.1, h.0)

  -- If each user's statistics have 24 slots whose counts add up to the number of samples, then so
  -- they do after `Update` in any hour of the day, also for a user without statistics before.
  pub update-AllCounted :
      (hour : ℕ) (now : Instant) (uid : ℕ) (cpu : fl.F) (stats : Dict (UserHourlyStats fl.F))
      → hour < 24
      → AllCounted stats
      → AllCounted (update fl hour now uid cpu stats)
  unfolding update
  update-AllCounted hour now uid cpu stats small h =
      put-AllCounted uid _ stats
        (add_sample-IsCounted hour now cpu _ small (known_stats-IsCounted now uid stats h)) h

  analyze_user-confident :
      (cfg : Config fl.F) (s : UserHourlyStats fl.F)
      → is_unknown (analyze_user fl cfg s).pattern ≡ false
      → (cfg.pattern_min_samples ≤ℤ pos s.total_samples)
        × (fl.ltb (analyze_user fl cfg s).confidence cfg.pattern_confidence_threshold ≡ false)
  unfolding analyze_user classify_pattern if_confident
  analyze_user-confident cfg s known = ground arith

  -- `Analyze` names a pattern only for a user with statistics of at least the configured number of
  -- samples, and with a confidence that is not below the configured threshold.
  pub analyze-confident :
      (cfg : Config fl.F) (uid : ℕ) (stats : Dict (UserHourlyStats fl.F)) (r : PatternResult fl.F)
      → lookup uid (analyze fl cfg stats) ≡ some r
      → is_unknown r.pattern ≡ false
      → (s : UserHourlyStats fl.F) × (lookup uid stats ≡ some s)
        × (cfg.pattern_min_samples ≤ℤ pos s.total_samples)
        × (fl.ltb r.confidence cfg.pattern_confidence_threshold ≡ false)
  unfolding analyze
  analyze-confident cfg uid [] r e known = absurd (ground arith)
  analyze-confident cfg uid ((j, s) ∷ stats) r e known = elim (Bool-cases (uid == j)) [
    | inl same ↦
        let found : lookup uid ((j, s) ∷ stats) ≡ some s = ground arith in
        let result : analyze_user fl cfg s ≡ r = ground arith in
        let confident = analyze_user-confident cfg s (ground (arith, known)) in
        (s, found, confident.0, ground (arith, confident.1))
    | inr other ↦
        let rest = analyze-confident cfg uid stats r (ground (arith, e)) known in
        (rest.0, ground (arith, rest.1), rest.2, rest.3)
  ]
