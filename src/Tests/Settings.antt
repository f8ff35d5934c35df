-- ===== src/Tests/Settings.antt =====
-- The configuration at concrete inputs.
use cpu_manager_go.Prelude.{arith, ◌++◌, ◌≡◌, refl, pos, true, false, List, [], ◌∷◌, any}
use cpu_manager_go.Prelude.Text.{
  format_uint, text, same, split_on, fields, split_space, trim_space, trim_left, trim_right, atoi,
  parse_uint, digits_from,
}
use cpu_manager_go.Config.Blackout.{
  days_from, day_range, single_day, parse_range, parse_part, parse_parts, parse_days, hour_range,
  hour_parts, parse_hours, make_timeframe, parse_fields, parse_specs, parse_timeframe, covers,
}
use cpu_manager_go.Config.Blackout.Bounds.{
  AllTimeframes, parse_timeframe-IsTimeframe, parse_timeframe-23,
}
use cpu_manager_go.Config.Defs.{Timeframe}
use cpu_manager_go.Config.Filter.{match_cached, match_pattern, Cache, Agrees, match_cached-eq}
use cpu_manager_go.Config.Quota.{is_valid_cpu_quota, bytes, parse_ram_quota}
use cpu_manager_go.Config.Quota.Print.{parse_ram_quota-format_uint}
use cpu_manager_go.Config.Validate.{
  validate_config, cpu_errors, interval_errors, psi_errors, hook_errors, ram_errors, io_errors,
  general_errors,
}
use cpu_manager_go.Config.Validate.Accepted.{validate_config-IsHysteretic}
use cpu_manager_go.State.Decision.Hysteresis.{IsHysteretic}
use cpu_manager_go.Tests.Model.{ints, exact, cfg}

abbrev office : List Timeframe
office =
    record { days_of_week = pos 1 ∷ pos 2 ∷ []; hour_start = pos 8; hour_end = pos 18 }
    ∷ record { days_of_week = pos 6 ∷ []; hour_start = pos 0; hour_end = pos 23 }
    ∷ []

parse_timeframe-IsTimeframe_example : AllTimeframes office
unfolding split_on fields split_space trim_space trim_left trim_right atoi parse_uint digits_from
    days_from day_range single_day parse_range parse_part parse_parts parse_days hour_range
    hour_parts parse_hours make_timeframe parse_fields parse_specs parse_timeframe
parse_timeframe-IsTimeframe_example =
    parse_timeframe-IsTimeframe (text "1-2 08-18; 6 00-23") office refl

parse_timeframe-23_example : any (covers 6 23) office ≡ false
unfolding split_on fields split_space trim_space trim_left trim_right atoi parse_uint digits_from
    days_from day_range single_day parse_range parse_part parse_parts parse_days hour_range
    hour_parts parse_hours make_timeframe parse_fields parse_specs parse_timeframe
parse_timeframe-23_example = parse_timeframe-23 (text "1-2 08-18; 6 00-23") office 6 refl

validate_config-IsHysteretic_example : IsHysteretic cfg
unfolding cfg validate_config cpu_errors interval_errors psi_errors hook_errors ram_errors io_errors
    general_errors is_valid_cpu_quota split_on atoi parse_uint digits_from
validate_config-IsHysteretic_example = validate_config-IsHysteretic ints (λ url. true) cfg refl

match_cached-eq_example :
    let cache : Cache = (text "bob", same (text "bob")) ∷ [] in
    ((match_cached exact (text "bob") (text "bob") cache).0
      ≡ match_pattern exact (text "bob") (text "bob"))
    × Agrees exact (match_cached exact (text "bob") (text "bob") cache).1
match_cached-eq_example =
    match_cached-eq exact (text "bob") (text "bob") ((text "bob", same (text "bob")) ∷ [])
      (refl, tt)

-- The number is read back, and 2 ^ 34 gigabytes are read as none.
parse_ram_quota-format_uint_example :
    let printed = format_uint 17179869184 in
    (parse_ram_quota printed ≡ bytes 17179869184)
    × (parse_ram_quota (printed ++ b'K' ∷ []) ≡ bytes 17592186044416)
    × (parse_ram_quota (printed ++ b'M' ∷ []) ≡ bytes 18014398509481984)
    × (parse_ram_quota (printed ++ b'G' ∷ []) ≡ bytes 0)
    × (parse_ram_quota (printed ++ b'T' ∷ []) ≡ bytes 0)
parse_ram_quota-format_uint_example = parse_ram_quota-format_uint 17179869184 (omega arith)
