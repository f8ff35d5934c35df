-- ===== src/Config/Blackout.antt =====
-- config/config.go: `ParseTimeframe`, `parseDays`, `parseHours` and `IsInBlackout`. An error is
-- `none`: its text is left out.
use cpu_manager_go.Prelude.{
  ℕ, zero, suc, ◌+◌, ◌-◌, ◌≡◌, refl, ℤ, pos, negsuc, pos_part, ltb_ℤ, leb_ℤ, Bool, true, false, not,
  ◌&&◌, ◌||◌, Option, none, some, List, [], ◌∷◌, ◌++◌, if◌then◌else◌, is_empty, arith, any,
  Option-cases, Bool-cases, inl, inr,
}
use cpu_manager_go.Prelude.Text.{Bytes, text, same, split, fields, trim_space, contains, atoi}
use cpu_manager_go.Config.Defs.{Timeframe, Config}
pub mod Bounds
pub mod End

abbrev pub is_day : ℤ → Bool
is_day d = leb_ℤ (pos 0) d && leb_ℤ d (pos 6)

-- The `n` days from `start` on.
unfoldable pub days_from : ℕ → ℕ → List ℤ
days_from start zero = []
days_from start (suc n) = pos start ∷ days_from (suc start) n

-- A range of days, whose ends are numbers.
unfoldable pub day_range : Option ℤ → Option ℤ → Option (List ℤ)
day_range none last = none
day_range (some start) none = none
day_range (some start) (some last) =
    if is_day start && is_day last
    then some (days_from (pos_part start) (pos_part last + 1 - pos_part start))
    else none

unfoldable pub single_day : Option ℤ → Option (List ℤ)
single_day none = none
single_day (some day) = if is_day day then some (day ∷ []) else none

-- The two parts of a range.
unfoldable pub parse_range : List Bytes → Option (List ℤ)
parse_range [] = none
parse_range (start ∷ []) = none
parse_range (start ∷ last ∷ []) = day_range (atoi start) (atoi last)
parse_range (start ∷ last ∷ more ∷ parts) = none

unfoldable pub parse_part : Bytes → Option (List ℤ)
parse_part part =
    if contains b'-' part then parse_range (split b'-' part) else single_day (atoi part)

abbrev pub append_days : Option (List ℤ) → Option (List ℤ) → Option (List ℤ)
append_days none more = none
append_days (some days) none = none
append_days (some days) (some more) = some (days ++ more)

unfoldable pub parse_parts : List Bytes → Option (List ℤ)
parse_parts [] = some []
parse_parts (part ∷ parts) = append_days (parse_part part) (parse_parts parts)

-- `parseDays`
unfoldable pub parse_days : Bytes → Option (List ℤ)
parse_days spec =
    if same spec (text "*") then some (days_from 0 7) else parse_parts (split b',' spec)

-- The checks of `parseHours` on the numbers.
unfoldable pub hour_range : Option ℤ → Option ℤ → Option (ℤ × ℤ)
hour_range none last = none
hour_range (some start) none = none
hour_range (some start) (some last) =
    if ltb_ℤ start (pos 0) || ltb_ℤ (pos 23) start || ltb_ℤ last (pos 0) || ltb_ℤ (pos 23) last
    then none
    else if leb_ℤ last start
    then none
    else some (start, last)

unfoldable pub hour_parts : List Bytes → Option (ℤ × ℤ)
hour_parts [] = none
hour_parts (start ∷ []) = none
hour_parts (start ∷ last ∷ []) = hour_range (atoi start) (atoi last)
hour_parts (start ∷ last ∷ more ∷ parts) = none

-- `parseHours`
unfoldable pub parse_hours : Bytes → Option (ℤ × ℤ)
parse_hours spec = hour_parts (split b'-' spec)

unfoldable pub make_timeframe : Option (List ℤ) → Option (ℤ × ℤ) → Option Timeframe
make_timeframe none hours = none
make_timeframe (some days) none = none
make_timeframe (some days) (some (start, last)) =
    some (record { days_of_week = days; hour_start = start; hour_end = last })

-- One timeframe, of its two fields.
unfoldable pub parse_fields : List Bytes → Option Timeframe
parse_fields [] = none
parse_fields (days ∷ []) = none
parse_fields (days ∷ hours ∷ []) = make_timeframe (parse_days days) (parse_hours hours)
parse_fields (days ∷ hours ∷ more ∷ parts) = none

abbrev pub append_timeframe : Option Timeframe → Option (List Timeframe) → Option (List Timeframe)
append_timeframe none more = none
append_timeframe (some t) none = none
append_timeframe (some t) (some ts) = some (t ∷ ts)

unfoldable pub parse_specs : List Bytes → Option (List Timeframe)
parse_specs [] = some []
parse_specs (s ∷ specs) =
    let rest = parse_specs specs in
    if is_empty (trim_space s)
    then rest
    else append_timeframe (parse_fields (fields (trim_space s))) rest

-- `ParseTimeframe`
unfoldable pub parse_timeframe : Bytes → Option (List Timeframe)
parse_timeframe spec = parse_specs (split b';' spec)

abbrev pub has_day : ℤ → List ℤ → Bool
has_day day days = any (λ d. leb_ℤ d day && leb_ℤ day d) days

-- The day and hour lie in the timeframe.
unfoldable pub covers : ℕ → ℕ → Timeframe → Bool
covers day hour t =
    has_day (pos day) t.days_of_week && leb_ℤ t.hour_start (pos hour) && ltb_ℤ (pos hour) t.hour_end

-- `IsInBlackout` on a day of the week (0 is Sunday) and an hour.
unfoldable pub is_in_blackout : {F : Type 0} → Config F → ℕ → ℕ → Bool
is_in_blackout cfg day hour = any (covers day hour) cfg.blackout_timeframes

-- The loop of `GetNextBlackoutEnd`: the hour at which the first timeframe that covers the instant ends.
unfoldable pub first_end : ℕ → ℕ → List Timeframe → Option ℤ
first_end day hour [] = none
first_end day hour (t ∷ ts) = if covers day hour t then some t.hour_end else first_end day hour ts

-- `GetNextBlackoutEnd`, as an hour of the current day.
unfoldable pub get_next_blackout_end : {F : Type 0} → Config F → ℕ → ℕ → Option ℤ
get_next_blackout_end cfg day hour =
    if is_in_blackout cfg day hour then first_end day hour cfg.blackout_timeframes else none
