-- ===== src/Config/Validate.antt =====
-- config/config.go: `validateConfig`. An error stands for the text that is joined to the others.
-- Whether `url.Parse` accepts a URL with a scheme http or https and a host is a parameter.
use cpu_manager_go.Prelude.{
  ℕ, ◌≡◌, refl, ◌+◌, ℤ, pos, negsuc, ltb_ℤ, leb_ℤ, ◌≤ℤ◌, ◌<ℤ◌, Bool, true, false, not, ◌&&◌, ◌||◌,
  List, [], ◌∷◌, ◌++◌, if◌then◌else◌, is_empty, arith, any,
}
use cpu_manager_go.Prelude.Floats.{Floats}
use cpu_manager_go.Prelude.Text.{Bytes, text, same}
use cpu_manager_go.Config.Defs.{Config}
use cpu_manager_go.Config.Quota.{is_valid_byte_quota, is_valid_cpu_quota}
pub mod Accepted

pub data ConfigError : Type 0 where
  cpu_threshold_range cpu_release_range cpu_order cpu_duration : ConfigError
  db_retention db_interval username_ttl polling refresh process_age : ConfigError
  psi_cpu psi_io psi_window psi_fallback psi_weight psi_duration : ConfigError
  hook_timeout hook_target hook_url cpu_quota : ConfigError
  ram_range ram_release_range ram_order ram_quota ram_user_quota ram_ratio : ConfigError
  io_range io_release_range io_order io_read io_write io_read_ops io_write_ops : ConfigError
  log_level uid_min uid_order : ConfigError

-- An `if` that appends an error.
abbrev pub report : Bool → ConfigError → List ConfigError
report true e = e ∷ []
report false e = []

-- Below 1 or above 100.
abbrev pub no_percentage : ℤ → Bool
no_percentage n = ltb_ℤ n (pos 1) || ltb_ℤ (pos 100) n

-- Negative, or 0 although PSI events drive the program.
abbrev pub no_psi_value : Bool → ℤ → Bool
no_psi_value event_driven n =
    ltb_ℤ n (pos 0) || (event_driven && leb_ℤ n (pos 0) && leb_ℤ (pos 0) n)

-- The limit is set, and not to `max`.
abbrev pub is_limit : Bytes → Bool
is_limit s = not (is_empty s) && not (same s (text "max"))

abbrev pub log_levels : List Bytes
log_levels = text "DEBUG" ∷ text "INFO" ∷ text "WARN" ∷ text "ERROR" ∷ []

module _ (fl : Floats) (is_http_url : Bytes → Bool) where
  unfoldable pub cpu_errors : Config fl.F → List ConfigError
  cpu_errors cfg =
      report (no_percentage cfg.cpu_threshold) cpu_threshold_range
      ++ report (no_percentage cfg.cpu_release_threshold) cpu_release_range
      ++ report (leb_ℤ cfg.cpu_threshold cfg.cpu_release_threshold) cpu_order
      ++ report (ltb_ℤ cfg.cpu_threshold_duration (pos 0)) cpu_duration

  unfoldable pub interval_errors : Config fl.F → List ConfigError
  interval_errors cfg =
      report (ltb_ℤ cfg.metrics_db_retention_days (pos 1)) db_retention
      ++ report (ltb_ℤ cfg.metrics_db_write_interval (pos 5)) db_interval
      ++ report (ltb_ℤ cfg.username_cache_ttl (pos 1)) username_ttl
      ++ report (ltb_ℤ cfg.polling_interval (pos 5)) polling
      ++ report (ltb_ℤ cfg.metrics_refresh_interval (pos 5)) refresh
      ++ report (ltb_ℤ cfg.process_min_age_seconds (pos 0)) process_age

  unfoldable pub psi_errors : Config fl.F → List ConfigError
  psi_errors cfg =
      report (no_psi_value cfg.psi_event_driven cfg.psi_cpu_stall_threshold) psi_cpu
      ++ report (no_psi_value cfg.psi_event_driven cfg.psi_io_stall_threshold) psi_io
      ++ report (no_psi_value cfg.psi_event_driven cfg.psi_window_us) psi_window
      ++ report (no_psi_value cfg.psi_event_driven cfg.psi_fallback_interval) psi_fallback
      ++ report
          (no_psi_value cfg.psi_event_driven cfg.psi_boost_weight
            || ltb_ℤ (pos 10000) cfg.psi_boost_weight)
          psi_weight
      ++ report (no_psi_value cfg.psi_event_driven cfg.psi_boost_duration) psi_duration

  unfoldable pub hook_errors : Config fl.F → List ConfigError
  hook_errors cfg =
      if cfg.limit_hook_enabled
      then report (ltb_ℤ cfg.limit_hook_timeout (pos 1)) hook_timeout
        ++ report (is_empty cfg.limit_hook_script && is_empty cfg.limit_hook_url) hook_target
        ++ report (not (is_empty cfg.limit_hook_url) && not (is_http_url cfg.limit_hook_url))
            hook_url
      else []

  unfoldable pub ram_errors : Config fl.F → List ConfigError
  ram_errors cfg =
      if cfg.ram_enabled
      then report (no_percentage cfg.ram_threshold) ram_range
        ++ report (no_percentage cfg.ram_release_threshold) ram_release_range
        ++ report (leb_ℤ cfg.ram_threshold cfg.ram_release_threshold) ram_order
        ++ report (not (is_valid_byte_quota cfg.ram_quota_limited)) ram_quota
        ++ report (not (is_valid_byte_quota cfg.ram_quota_per_user)) ram_user_quota
        ++ report
            (fl.ltb cfg.ram_high_ratio (fl.of_nat 0) || fl.ltb (fl.of_nat 1) cfg.ram_high_ratio)
            ram_ratio
      else []

  unfoldable pub io_errors : Config fl.F → List ConfigError
  io_errors cfg =
      if cfg.io_enabled
      then report (no_percentage cfg.io_threshold) io_range
        ++ report (no_percentage cfg.io_release_threshold) io_release_range
        ++ report (leb_ℤ cfg.io_threshold cfg.io_release_threshold) io_order
        ++ report (is_limit cfg.io_read_bps && not (is_valid_byte_quota cfg.io_read_bps)) io_read
        ++ report (is_limit cfg.io_write_bps && not (is_valid_byte_quota cfg.io_write_bps)) io_write
        ++ report (ltb_ℤ cfg.io_read_iops (pos 0)) io_read_ops
        ++ report (ltb_ℤ cfg.io_write_iops (pos 0)) io_write_ops
      else []

  unfoldable pub general_errors : Config fl.F → List ConfigError
  general_errors cfg =
      report (not (any (same cfg.log_level) log_levels)) log_level
      ++ report (ltb_ℤ cfg.system_uid_min (pos 0)) uid_min
      ++ report (ltb_ℤ cfg.system_uid_max cfg.system_uid_min) uid_order

  -- `validateConfig`: the errors, in order; an empty list is a nil error.
  unfoldable pub validate_config : Config fl.F → List ConfigError
  validate_config cfg =
      cpu_errors cfg
      ++ interval_errors cfg
      ++ psi_errors cfg
      ++ hook_errors cfg
      ++ report (not (is_valid_cpu_quota cfg.cpu_quota_limited)) cpu_quota
      ++ ram_errors cfg
      ++ io_errors cfg
      ++ general_errors cfg
