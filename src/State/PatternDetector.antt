-- ===== src/State/PatternDetector.antt =====
-- state/pattern_detector.go: the hourly statistics of each user, and their classification.
use cpu_manager_go.Prelude.{
  ℕ, zero, suc, ◌+◌, ◌-◌, ◌*◌, ◌==◌, ℤ, pos, negsuc, ltb_ℤ, wrap64, Bool, true, false, not, ◌&&◌,
  Option, none, some, List, [], ◌∷◌, if◌then◌else◌, leb, ltb,
}
use cpu_manager_go.Prelude.Clock.{Instant, since, nano}
use cpu_manager_go.Prelude.Dict.{Dict, lookup, put, keep}
use cpu_manager_go.Prelude.Floats.{Floats}
use cpu_manager_go.Config.Defs.{Config}
use cpu_manager_go.State.Policy.{
  WorkloadPattern, batch_night, interactive_day, mixed, always_on, sporadic, unknown,
}
pub mod Samples

-- The arrays are lists of 24 entries.
pub record UserHourlyStats (F : Type 0) : Type 0 where
  pub hourly_cpu : List F
  pub hourly_count : List ℕ
  pub total_samples : ℕ
  pub first_sample : Instant
  pub last_sample : Instant

pub record PatternResult (F : Type 0) : Type 0 where
  pub pattern : WorkloadPattern
  pub confidence : F

module _ {A : Type 0} where
  -- An entry of an array, or a default behind its end.
  abbrev pub entry_at : A → ℕ → List A → A
  entry_at default n [] = default
  entry_at default zero (x ∷ xs) = x
  entry_at default (suc n) (x ∷ xs) = entry_at default n xs

  abbrev pub set_at : ℕ → A → List A → List A
  set_at n y [] = []
  set_at zero y (x ∷ xs) = y ∷ xs
  set_at (suc n) y (x ∷ xs) = x ∷ set_at n y xs

  -- An array of copies.
  abbrev pub copies : ℕ → A → List A
  copies zero x = []
  copies (suc n) x = x ∷ copies n x

-- `time.Duration(n) * time.Hour`
unfoldable pub hours : ℤ → ℤ
hours (pos n) = wrap64 (pos (n * (3600 * nano)))
hours (negsuc n) = wrap64 (negsuc (n * (3600 * nano) + (3600 * nano - 1)))

abbrev pub total : List ℕ → ℕ
total [] = 0
total (c ∷ counts) = c + total counts

abbrev pub how_many : List ℕ → ℕ
how_many [] = 0
how_many (h ∷ hs) = suc (how_many hs)

module _ (fl : Floats) where
  abbrev zero_F : fl.F
  zero_F = fl.of_nat 0

  abbrev one_F : fl.F
  one_F = fl.of_nat 1

  -- The constant with one digit behind its point.
  abbrev tenths : ℕ → fl.F
  tenths n = fl.div (fl.of_nat n) (fl.of_nat 10)

  unfoldable pub new_stats : Instant → UserHourlyStats fl.F
  new_stats now = record {
    hourly_cpu = copies 24 zero_F;
    hourly_count = copies 24 0;
    total_samples = 0;
    first_sample = now;
    last_sample = 0;
  }

  abbrev pub known_stats : Instant → Option (UserHourlyStats fl.F) → UserHourlyStats fl.F
  known_stats now none = new_stats now
  known_stats now (some s) = s

  -- One sample more in the slot of its hour.
  unfoldable pub add_sample : ℕ → Instant → fl.F → UserHourlyStats fl.F → UserHourlyStats fl.F
  add_sample hour now cpu s =
      let count = entry_at 0 hour s.hourly_count in
      let mean = entry_at zero_F hour s.hourly_cpu in
      record s {
        hourly_cpu =
            set_at hour
              (fl.div (fl.add (fl.mul mean (fl.of_nat count)) cpu) (fl.of_nat (count + 1)))
              s.hourly_cpu;
        hourly_count = set_at hour (count + 1) s.hourly_count;
        total_samples = s.total_samples + 1;
        last_sample = now;
      }

  -- `Update`
  unfoldable pub update :
      ℕ → Instant → ℕ → fl.F → Dict (UserHourlyStats fl.F) → Dict (UserHourlyStats fl.F)
  update hour now uid cpu stats =
      put uid (add_sample hour now cpu (known_stats now (lookup uid stats))) stats

  -- The sum of the entries of the given hours, which all lie within the array.
  unfoldable pub sum_at : List ℕ → List fl.F → fl.F → fl.F
  sum_at [] values sum = sum
  sum_at (h ∷ hs) values sum = sum_at hs values (fl.add sum (entry_at zero_F h values))

  abbrev night : List ℕ
  night = 22 ∷ 23 ∷ 0 ∷ 1 ∷ 2 ∷ 3 ∷ 4 ∷ 5 ∷ 6 ∷ []

  abbrev day : List ℕ
  day = 8 ∷ 9 ∷ 10 ∷ 11 ∷ 12 ∷ 13 ∷ 14 ∷ 15 ∷ 16 ∷ 17 ∷ []

  -- `average` of a list of hours within the array that is not empty.
  unfoldable pub average : List fl.F → List ℕ → fl.F
  average values hs = fl.div (sum_at hs values zero_F) (fl.of_nat (how_many hs))

  unfoldable pub weighted_sum : List fl.F → List ℕ → fl.F → fl.F
  weighted_sum [] counts sum = sum
  weighted_sum (v ∷ values) [] sum = sum
  weighted_sum (v ∷ values) (c ∷ counts) sum =
      weighted_sum values counts (fl.add sum (fl.mul v (fl.of_nat c)))

  -- `overallAverage` of arrays of the same length.
  unfoldable pub overall_average : List fl.F → List ℕ → fl.F
  overall_average values counts =
      if total counts == 0
      then zero_F
      else fl.div (weighted_sum values counts zero_F) (fl.of_nat (total counts))

  unfoldable pub squared_sum : fl.F → List fl.F → List ℕ → fl.F → fl.F
  squared_sum mean [] counts sum = sum
  squared_sum mean (v ∷ values) [] sum = sum
  squared_sum mean (v ∷ values) (c ∷ counts) sum =
      let diff = fl.sub v mean in
      squared_sum mean values counts
        (if ltb 0 c then fl.add sum (fl.mul (fl.mul diff diff) (fl.of_nat c)) else sum)

  -- `calculateVariance`; the weights that count are those above 0, so their total is that of all.
  unfoldable pub calculate_variance : List fl.F → List ℕ → fl.F
  calculate_variance values counts =
      let mean = overall_average values counts in
      if fl.leb mean zero_F && fl.leb zero_F mean
      then zero_F
      else if total counts == 0
      then zero_F
      else fl.div (squared_sum mean values counts zero_F) (fl.of_nat (total counts))

  -- The `switch` of `classifyPattern`, on the ratio of night to day, the variance and the average.
  unfoldable pub match_shape : fl.F → fl.F → fl.F → PatternResult fl.F
  match_shape ratio variance overall =
      if fl.ltb (tenths 15) ratio && fl.ltb (tenths 4) variance
      then record {
        pattern = batch_night;
        confidence =
            fl.least
              (fl.add (fl.mul (fl.div ratio (fl.of_nat 3)) (tenths 6)) (fl.mul variance (tenths 4)))
              one_F;
      }
      else if fl.ltb ratio (tenths 5) && fl.ltb variance (tenths 3) && fl.ltb (fl.of_nat 5) overall
      then record {
        pattern = interactive_day;
        confidence =
            fl.least
              (fl.add (fl.mul (fl.sub one_F ratio) (tenths 5))
                (fl.mul (fl.sub one_F variance) (tenths 5)))
              one_F;
      }
      else if fl.ltb (tenths 5) variance && fl.ltb (tenths 8) ratio && fl.ltb ratio (tenths 12)
      then record { pattern = mixed; confidence = fl.least variance one_F }
      else if fl.ltb variance (tenths 2) && fl.ltb (fl.of_nat 10) overall
      then record { pattern = always_on; confidence = fl.least (fl.sub one_F variance) one_F }
      else if fl.ltb overall (fl.of_nat 5) && fl.ltb (tenths 6) variance
      then record {
        pattern = sporadic;
        confidence =
            fl.least
              (fl.add (fl.mul variance (tenths 7))
                (fl.mul (fl.sub one_F (fl.div overall (fl.of_nat 5))) (tenths 3)))
              one_F;
      }
      else record { pattern = unknown; confidence = zero_F }

  abbrev pub no_pattern : PatternResult fl.F
  no_pattern = record { pattern = unknown; confidence = zero_F }

  -- A result below the threshold is dropped.
  unfoldable pub if_confident : fl.F → PatternResult fl.F → PatternResult fl.F
  if_confident threshold r = if fl.ltb r.confidence threshold then no_pattern else r

  -- `classifyPattern`
  unfoldable pub classify_pattern : UserHourlyStats fl.F → fl.F → PatternResult fl.F
  classify_pattern s threshold =
      let night_avg = average s.hourly_cpu night in
      let day_avg = average s.hourly_cpu day in
      let variance = calculate_variance s.hourly_cpu s.hourly_count in
      if_confident threshold (
        match_shape (if fl.ltb zero_F day_avg then fl.div night_avg day_avg else zero_F)
          (fl.least (fl.div variance (fl.of_nat 50)) one_F)
          (overall_average s.hourly_cpu s.hourly_count))

  -- `Analyze` for one user.
  unfoldable pub analyze_user : Config fl.F → UserHourlyStats fl.F → PatternResult fl.F
  analyze_user cfg s =
      if ltb_ℤ (pos s.total_samples) cfg.pattern_min_samples
      then no_pattern
      else classify_pattern s cfg.pattern_confidence_threshold

  -- `Analyze`
  unfoldable pub analyze : Config fl.F → Dict (UserHourlyStats fl.F) → Dict (PatternResult fl.F)
  analyze cfg [] = []
  analyze cfg ((uid, s) ∷ stats) = (uid, analyze_user cfg s) ∷ analyze cfg stats

-- `Cleanup`
unfoldable pub cleanup_stats :
    {F : Type 0} → ℤ → Instant → Dict (UserHourlyStats F) → Dict (UserHourlyStats F)
cleanup_stats max_age now stats =
    keep (λ uid s. not (ltb_ℤ max_age (since now s.last_sample))) stats
