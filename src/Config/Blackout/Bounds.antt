-- ===== src/Config/Blackout/Bounds.antt =====
-- The timeframes that `ParseTimeframe` returns.
use cpu_manager_go.Prelude.{
  ℕ, zero, suc, ◌+◌, ◌-◌, ◌≤◌, ◌≡◌, refl, ℤ, pos, pos_part, ◌≤ℤ◌, ◌<ℤ◌, true, false, Option, none,
  some, List, [], ◌∷◌, ◌++◌, arith, any,
}
use mathlib.Core.Path.{subst}
use cpu_manager_go.Prelude.Text.{Bytes, split, fields, trim_space, atoi}
use cpu_manager_go.Config.Defs.{Timeframe}
use cpu_manager_go.Config.Blackout.{
  is_day, days_from, day_range, single_day, parse_range, parse_part, append_days, parse_parts,
  parse_days, hour_range, hour_parts, parse_hours, make_timeframe, parse_fields, append_timeframe,
  parse_specs, parse_timeframe, covers,
}

-- All days are days of the week.
unfoldable pub AllDays : List ℤ → Type 0
AllDays [] = Unit {0}
AllDays (d ∷ days) = (is_day d ≡ true) × AllDays days

pub record IsTimeframe (t : Timeframe) : Type 0 where
  pub days : AllDays t.days_of_week
  pub from_0 : pos 0 ≤ℤ t.hour_start
  pub ordered : t.hour_start <ℤ t.hour_end
  pub up_to_23 : t.hour_end ≤ℤ pos 23

unfoldable pub AllTimeframes : List Timeframe → Type 0
AllTimeframes [] = Unit {0}
AllTimeframes (t ∷ ts) = IsTimeframe t × AllTimeframes ts

days_from-AllDays : (start n : ℕ) → start + n ≤ 7 → AllDays (days_from start n)
unfolding AllDays days_from
days_from-AllDays start zero h = tt
days_from-AllDays start (suc n) h = ground (arith, days_from-AllDays (suc start) n)

append-AllDays : (a b : List ℤ) → AllDays a → AllDays b → AllDays (a ++ b)
unfolding AllDays
append-AllDays [] b h k = k
append-AllDays (d ∷ a) b h k = (h.0, append-AllDays a b h.1 k)

-- What an optional list of days, of hours and of timeframes promises.
abbrev FineDays : Option (List ℤ) → Type 0
FineDays none = Unit {0}
FineDays (some days) = AllDays days

abbrev FineHours : Option (ℤ × ℤ) → Type 0
FineHours none = Unit {0}
FineHours (some (start, last)) = (pos 0 ≤ℤ start) × (start <ℤ last) × (last ≤ℤ pos 23)

abbrev FineTimeframe : Option Timeframe → Type 0
FineTimeframe none = Unit {0}
FineTimeframe (some t) = IsTimeframe t

abbrev FineTimeframes : Option (List Timeframe) → Type 0
FineTimeframes none = Unit {0}
FineTimeframes (some ts) = AllTimeframes ts

day_range-Fine : (start last : Option ℤ) → FineDays (day_range start last)
unfolding day_range
day_range-Fine none last = tt
day_range-Fine (some start) none = tt
day_range-Fine (some start) (some last) =
    ground (arith, days_from-AllDays (pos_part start) (pos_part last + 1 - pos_part start))

single_day-Fine : (day : Option ℤ) → FineDays (single_day day)
unfolding single_day AllDays
single_day-Fine none = tt
single_day-Fine (some day) = ground arith

parse_range-Fine : (parts : List Bytes) → FineDays (parse_range parts)
unfolding parse_range
parse_range-Fine [] = tt
parse_range-Fine (start ∷ []) = tt
parse_range-Fine (start ∷ last ∷ []) = day_range-Fine (atoi start) (atoi last)
parse_range-Fine (start ∷ last ∷ more ∷ parts) = tt

parse_part-Fine : (part : Bytes) → FineDays (parse_part part)
unfolding parse_part
parse_part-Fine part =
    ground (arith, parse_range-Fine (split b'-' part), single_day-Fine (atoi part))

append_days-Fine : (a b : Option (List ℤ)) → FineDays a → FineDays b → FineDays (append_days a b)
append_days-Fine none b h k = tt
append_days-Fine (some a) none h k = tt
append_days-Fine (some a) (some b) h k = append-AllDays a b h k

parse_parts-Fine : (parts : List Bytes) → FineDays (parse_parts parts)
unfolding parse_parts AllDays
parse_parts-Fine [] = tt
parse_parts-Fine (part ∷ parts) =
    append_days-Fine (parse_part part) (parse_parts parts) (parse_part-Fine part)
      (parse_parts-Fine parts)

parse_days-Fine : (spec : Bytes) → FineDays (parse_days spec)
unfolding parse_days
parse_days-Fine spec =
    ground (arith, parse_parts-Fine (split b',' spec), days_from-AllDays 0 7 (omega arith))

hour_range-Fine : (start last : Option ℤ) → FineHours (hour_range start last)
unfolding hour_range
hour_range-Fine none last = tt
hour_range-Fine (some start) none = tt
hour_range-Fine (some start) (some last) = ground arith

hour_parts-Fine : (parts : List Bytes) → FineHours (hour_parts parts)
unfolding hour_parts
hour_parts-Fine [] = tt
hour_parts-Fine (start ∷ []) = tt
hour_parts-Fine (start ∷ last ∷ []) = hour_range-Fine (atoi start) (atoi last)
hour_parts-Fine (start ∷ last ∷ more ∷ parts) = tt

make_timeframe-Fine :
    (days : Option (List ℤ)) (hours : Option (ℤ × ℤ))
    → FineDays days
    → FineHours hours
    → FineTimeframe (make_timeframe days hours)
unfolding make_timeframe
make_timeframe-Fine none hours h k = tt
make_timeframe-Fine (some days) none h k = tt
make_timeframe-Fine (some days) (some (start, last)) h k = record {
  days = h;
  from_0 = k.0;
  ordered = k.1;
  up_to_23 = k.2;
}

parse_fields-Fine : (parts : List Bytes) → FineTimeframe (parse_fields parts)
unfolding parse_fields parse_hours
parse_fields-Fine [] = tt
parse_fields-Fine (days ∷ []) = tt
parse_fields-Fine (days ∷ hours ∷ []) =
    make_timeframe-Fine (parse_days days) (parse_hours hours) (parse_days-Fine days)
      (hour_parts-Fine (split b'-' hours))
parse_fields-Fine (days ∷ hours ∷ more ∷ parts) = tt

append_timeframe-Fine :
    (t : Option Timeframe) (ts : Option (List Timeframe))
    → FineTimeframe t
    → FineTimeframes ts
    → FineTimeframes (append_timeframe t ts)
unfolding AllTimeframes
append_timeframe-Fine none ts h k = tt
append_timeframe-Fine (some t) none h k = tt
append_timeframe-Fine (some t) (some ts) h k = (h, k)

parse_specs-Fine : (specs : List Bytes) → FineTimeframes (parse_specs specs)
unfolding parse_specs AllTimeframes
parse_specs-Fine [] = tt
parse_specs-Fine (s ∷ specs) = ground (
  arith,
  append_timeframe-Fine (parse_fields (fields (trim_space s))) (parse_specs specs)
      (parse_fields-Fine (fields (trim_space s))) (parse_specs-Fine specs),
  parse_specs-Fine specs,
)

-- If `ParseTimeframe` accepts a text, then every timeframe it returns has days between Sunday (0)
-- and Saturday (6), and hours from 0 to 23 with the start before the end.
pub parse_timeframe-IsTimeframe :
    (spec : Bytes) (ts : List Timeframe) → parse_timeframe spec ≡ some ts → AllTimeframes ts
unfolding parse_timeframe
parse_timeframe-IsTimeframe spec ts e = subst FineTimeframes e (parse_specs-Fine (split b';' spec))

covers-23 : (day : ℕ) (ts : List Timeframe) → AllTimeframes ts → any (covers day 23) ts ≡ false
unfolding AllTimeframes covers
covers-23 day [] h = refl
covers-23 day (t ∷ ts) h = ground (arith, covers-23 day ts)

-- A blackout that `ParseTimeframe` accepts is over by 23:00 on every day: no text names the last
-- hour of the day.
pub parse_timeframe-23 :
    (spec : Bytes) (ts : List Timeframe) (day : ℕ)
    → parse_timeframe spec ≡ some ts
    → any (covers day 23) ts ≡ false
parse_timeframe-23 spec ts day e = covers-23 day ts (parse_timeframe-IsTimeframe spec ts e)
