-- ===== src/Config/Handlers.antt =====
-- config/config.go: the table of handlers, one for each key of a configuration file, and
-- `setConfigField`.
pub mod Sound
pub mod Table
use cpu_manager_go.Prelude.{Bool, true, false, Option, none, some, List, [], ◌∷◌, if◌then◌else◌}
use cpu_manager_go.Prelude.Text.{Bytes, text, same}
use cpu_manager_go.Config.Defs.{Config}
use cpu_manager_go.Config.Filter.{Compile}
use cpu_manager_go.Config.Setters.{
  Handler, to_lower, to_upper, set_string, set_string_transform, set_int, set_positive_int,
  set_float, set_bool, set_port, set_cgroup_base, set_blackout, set_regex_list, set_plain_list,
}

abbrev pub Handlers : Type 0 → Type 0
Handlers F = List (Bytes × Handler F)

abbrev pub find_handler : {F : Type 0} → Bytes → Handlers F → Option (Handler F)
find_handler key [] = none
find_handler key ((k, handler) ∷ handlers) =
    if same key k then some handler else find_handler key handlers

module _ {F : Type 0} (parse_float : Bytes → Option F) (compile : Compile) where
  unfoldable pub config_field_handlers : Handlers F
  config_field_handlers =
      (text "CGROUP_ROOT", set_string (λ c v. record c { cgroup_root = v }))
      ∷ (text "CGROUP_BASE", set_cgroup_base)
      ∷ (text "CONFIG_FILE", set_string (λ c v. record c { config_file = v }))
      ∷ (text "LOG_FILE", set_string (λ c v. record c { log_file = v }))
      ∷ (text "CREATED_CGROUPS_FILE", set_string (λ c v. record c { created_cgroups_file = v }))
      ∷ (text "METRICS_CACHE_FILE", set_string (λ c v. record c { metrics_cache_file = v }))
      ∷ (text "PROMETHEUS_FILE", set_string (λ c v. record c { prometheus_file = v }))
      ∷ (text "POLLING_INTERVAL", set_int (λ c v. record c { polling_interval = v }))
      ∷ (text "MIN_ACTIVE_TIME", set_int (λ c v. record c { min_active_time = v }))
      ∷ (text "METRICS_CACHE_TTL", set_int (λ c v. record c { metrics_cache_ttl = v }))
      ∷ (
        text "METRICS_REFRESH_INTERVAL",
        set_positive_int (λ c v. record c { metrics_refresh_interval = v }),
      )
      ∷ (text "PROCESS_MIN_AGE_SECONDS", set_int (λ c v. record c { process_min_age_seconds = v }))
      ∷ (text "CPU_THRESHOLD", set_int (λ c v. record c { cpu_threshold = v }))
      ∷ (text "CPU_RELEASE_THRESHOLD", set_int (λ c v. record c { cpu_release_threshold = v }))
      ∷ (text "CPU_THRESHOLD_DURATION", set_int (λ c v. record c { cpu_threshold_duration = v }))
      ∷ (text "CPU_QUOTA_NORMAL", set_string (λ c v. record c { cpu_quota_normal = v }))
      ∷ (text "CPU_QUOTA_LIMITED", set_string (λ c v. record c { cpu_quota_limited = v }))
      ∷ (text "LIMIT_HOOK_ENABLED", set_bool false (λ c v. record c { limit_hook_enabled = v }))
      ∷ (text "LIMIT_HOOK_SCRIPT", set_string (λ c v. record c { limit_hook_script = v }))
      ∷ (text "LIMIT_HOOK_URL", set_string (λ c v. record c { limit_hook_url = v }))
      ∷ (text "LIMIT_HOOK_TIMEOUT", set_int (λ c v. record c { limit_hook_timeout = v }))
      ∷ (text "ENABLE_PROMETHEUS", set_bool false (λ c v. record c { enable_prometheus = v }))
      ∷ (
        text "PROMETHEUS_METRICS_BIND_HOST",
        set_string (λ c v. record c { prometheus_metrics_bind_host = v }),
      )
      ∷ (
        text "PROMETHEUS_METRICS_BIND_PORT",
        set_port (λ c v. record c { prometheus_metrics_bind_port = v }),
      )
      ∷ (text "PROMETHEUS_HOST", set_string (λ c v. record c { prometheus_metrics_bind_host = v }))
      ∷ (text "PROMETHEUS_PORT", set_port (λ c v. record c { prometheus_metrics_bind_port = v }))
      ∷ (
        text "PROMETHEUS_TLS_ENABLED",
        set_bool false (λ c v. record c { prometheus_tls_enabled = v }),
      )
      ∷ (
        text "PROMETHEUS_TLS_CERT_FILE",
        set_string (λ c v. record c { prometheus_tls_cert_file = v }),
      )
      ∷ (
        text "PROMETHEUS_TLS_KEY_FILE",
        set_string (λ c v. record c { prometheus_tls_key_file = v }),
      )
      ∷ (text "PROMETHEUS_TLS_CA_FILE", set_string (λ c v. record c { prometheus_tls_ca_file = v }))
      ∷ (
        text "PROMETHEUS_TLS_MIN_VERSION",
        set_string_transform to_upper (λ c v. record c { prometheus_tls_min_version = v }),
      )
      ∷ (
        text "PROMETHEUS_AUTH_TYPE",
        set_string_transform to_lower (λ c v. record c { prometheus_auth_type = v }),
      )
      ∷ (
        text "PROMETHEUS_AUTH_USERNAME",
        set_string (λ c v. record c { prometheus_auth_username = v }),
      )
      ∷ (
        text "PROMETHEUS_AUTH_PASSWORD_FILE",
        set_string (λ c v. record c { prometheus_auth_password_file = v }),
      )
      ∷ (
        text "PROMETHEUS_JWT_SECRET_FILE",
        set_string (λ c v. record c { prometheus_jwt_secret_file = v }),
      )
      ∷ (text "PROMETHEUS_JWT_ISSUER", set_string (λ c v. record c { prometheus_jwt_issuer = v }))
      ∷ (
        text "PROMETHEUS_JWT_AUDIENCE",
        set_string (λ c v. record c { prometheus_jwt_audience = v }),
      )
      ∷ (text "PROMETHEUS_JWT_EXPIRY", set_int (λ c v. record c { prometheus_jwt_expiry = v }))
      ∷ (text "LOG_LEVEL", set_string_transform to_upper (λ c v. record c { log_level = v }))
      ∷ (text "LOG_MAX_SIZE", set_int (λ c v. record c { log_max_size = v }))
      ∷ (text "USE_SYSLOG", set_bool false (λ c v. record c { use_syslog = v }))
      ∷ (text "MIN_SYSTEM_CORES", set_int (λ c v. record c { min_system_cores = v }))
      ∷ (text "SYSTEM_UID_MIN", set_int (λ c v. record c { system_uid_min = v }))
      ∷ (text "SYSTEM_UID_MAX", set_int (λ c v. record c { system_uid_max = v }))
      ∷ (
        text "USER_INCLUDE_LIST",
        set_regex_list compile (λ c v. record c { user_include_list = v }),
      )
      ∷ (
        text "USER_EXCLUDE_LIST",
        set_regex_list compile (λ c v. record c { user_exclude_list = v }),
      )
      ∷ (
        text "PROCESS_EXCLUDE_LIST",
        set_regex_list compile (λ c v. record c { process_exclude_list = v }),
      )
      ∷ (text "BLACKOUT", set_blackout)
      ∷ (text "USER_WHITELIST", set_plain_list (λ c v. record c { user_exclude_list = v }))
      ∷ (text "IGNORE_SYSTEM_LOAD", set_bool false (λ c v. record c { ignore_system_load = v }))
      ∷ (text "SERVER_ROLE", set_string (λ c v. record c { server_role = v }))
      ∷ (text "MCP_ENABLED", set_bool false (λ c v. record c { mcp_enabled = v }))
      ∷ (
        text "MCP_TRANSPORT",
        set_string_transform to_lower (λ c v. record c { mcp_transport = v }),
      )
      ∷ (text "MCP_HTTP_PORT", set_int (λ c v. record c { mcp_http_port = v }))
      ∷ (text "MCP_HTTP_HOST", set_string (λ c v. record c { mcp_http_host = v }))
      ∷ (
        text "MCP_LOG_LEVEL",
        set_string_transform to_upper (λ c v. record c { mcp_log_level = v }),
      )
      ∷ (text "MCP_AUTH_TOKEN", set_string (λ c v. record c { mcp_auth_token = v }))
      ∷ (text "MCP_ALLOW_WRITE_OPS", set_bool false (λ c v. record c { mcp_allow_write_ops = v }))
      ∷ (text "METRICS_DB_ENABLED", set_bool false (λ c v. record c { metrics_db_enabled = v }))
      ∷ (text "METRICS_DB_PATH", set_string (λ c v. record c { metrics_db_path = v }))
      ∷ (
        text "METRICS_DB_RETENTION_DAYS",
        set_positive_int (λ c v. record c { metrics_db_retention_days = v }),
      )
      ∷ (
        text "METRICS_DB_WRITE_INTERVAL",
        set_positive_int (λ c v. record c { metrics_db_write_interval = v }),
      )
      ∷ (text "USERNAME_CACHE_TTL", set_positive_int (λ c v. record c { username_cache_ttl = v }))
      ∷ (
        text "CGROUP_OPERATION_TIMEOUT",
        set_int (λ c v. record c { cgroup_operation_timeout = v }),
      )
      ∷ (text "CGROUP_RETRY_DELAY_MS", set_int (λ c v. record c { cgroup_retry_delay_ms = v }))
      ∷ (text "MCP_SHUTDOWN_TIMEOUT", set_int (λ c v. record c { mcp_shutdown_timeout = v }))
      ∷ (text "RAM_LIMIT_ENABLED", set_bool false (λ c v. record c { ram_enabled = v }))
      ∷ (text "RAM_THRESHOLD", set_int (λ c v. record c { ram_threshold = v }))
      ∷ (text "RAM_RELEASE_THRESHOLD", set_int (λ c v. record c { ram_release_threshold = v }))
      ∷ (text "RAM_QUOTA_LIMITED", set_string (λ c v. record c { ram_quota_limited = v }))
      ∷ (text "RAM_QUOTA_PER_USER", set_string (λ c v. record c { ram_quota_per_user = v }))
      ∷ (text "DISABLE_SWAP", set_bool false (λ c v. record c { disable_swap = v }))
      ∷ (text "RAM_HIGH_RATIO", set_float parse_float (λ c v. record c { ram_high_ratio = v }))
      ∷ (
        text "RAM_USER_INCLUDE_LIST",
        set_regex_list compile (λ c v. record c { ram_user_include_list = v }),
      )
      ∷ (
        text "RAM_USER_EXCLUDE_LIST",
        set_regex_list compile (λ c v. record c { ram_user_exclude_list = v }),
      )
      ∷ (text "IO_LIMIT_ENABLED", set_bool false (λ c v. record c { io_enabled = v }))
      ∷ (text "IO_THRESHOLD", set_int (λ c v. record c { io_threshold = v }))
      ∷ (text "IO_RELEASE_THRESHOLD", set_int (λ c v. record c { io_release_threshold = v }))
      ∷ (text "IO_READ_BPS", set_string (λ c v. record c { io_read_bps = v }))
      ∷ (text "IO_WRITE_BPS", set_string (λ c v. record c { io_write_bps = v }))
      ∷ (text "IO_READ_IOPS", set_int (λ c v. record c { io_read_iops = v }))
      ∷ (text "IO_WRITE_IOPS", set_int (λ c v. record c { io_write_iops = v }))
      ∷ (text "IO_DEVICE_FILTER", set_string (λ c v. record c { io_device_filter = v }))
      ∷ (text "IO_THRESHOLD_DURATION", set_int (λ c v. record c { io_threshold_duration = v }))
      ∷ (
        text "IO_USER_INCLUDE_LIST",
        set_regex_list compile (λ c v. record c { io_user_include_list = v }),
      )
      ∷ (
        text "IO_USER_EXCLUDE_LIST",
        set_regex_list compile (λ c v. record c { io_user_exclude_list = v }),
      )
      ∷ (
        text "IO_REMEDIATION_ENABLED",
        set_bool false (λ c v. record c { io_remediation_enabled = v }),
      )
      ∷ (text "IO_STARVATION_THRESHOLD", set_int (λ c v. record c { io_starvation_threshold = v }))
      ∷ (
        text "IO_STARVATION_CHECK_INTERVAL",
        set_int (λ c v. record c { io_starvation_check_interval = v }),
      )
      ∷ (
        text "IO_BOOST_MULTIPLIER",
        set_float parse_float (λ c v. record c { io_boost_multiplier = v }),
      )
      ∷ (text "IO_BOOST_DURATION", set_int (λ c v. record c { io_boost_duration = v }))
      ∷ (text "IO_BOOST_MAX_PER_HOUR", set_int (λ c v. record c { io_boost_max_per_hour = v }))
      ∷ (text "IO_PSI_THRESHOLD", set_float parse_float (λ c v. record c { io_psi_threshold = v }))
      ∷ (text "IO_REVERT_ON_NORMAL", set_bool true (λ c v. record c { io_revert_on_normal = v }))
      ∷ (text "AUTODETECT_PATTERNS", set_bool false (λ c v. record c { autodetect_patterns = v }))
      ∷ (
        text "PATTERN_HISTORY_HOURS",
        set_positive_int (λ c v. record c { pattern_history_hours = v }),
      )
      ∷ (text "PATTERN_MIN_SAMPLES", set_positive_int (λ c v. record c { pattern_min_samples = v }))
      ∷ (
        text "PATTERN_CONFIDENCE_THRESHOLD",
        set_float parse_float (λ c v. record c { pattern_confidence_threshold = v }),
      )
      ∷ (text "BATCH_NIGHT_CPU_QUOTA", set_int (λ c v. record c { batch_night_cpu_quota = v }))
      ∷ (text "BATCH_NIGHT_RAM_QUOTA", set_string (λ c v. record c { batch_night_ram_quota = v }))
      ∷ (text "INTERACTIVE_CPU_QUOTA", set_int (λ c v. record c { interactive_cpu_quota = v }))
      ∷ (text "INTERACTIVE_RAM_QUOTA", set_string (λ c v. record c { interactive_ram_quota = v }))
      ∷ (text "PSI_EVENT_DRIVEN", set_bool false (λ c v. record c { psi_event_driven = v }))
      ∷ (
        text "PSI_CPU_STALL_THRESHOLD",
        set_positive_int (λ c v. record c { psi_cpu_stall_threshold = v }),
      )
      ∷ (
        text "PSI_IO_STALL_THRESHOLD",
        set_positive_int (λ c v. record c { psi_io_stall_threshold = v }),
      )
      ∷ (text "PSI_WINDOW_US", set_positive_int (λ c v. record c { psi_window_us = v }))
      ∷ (
        text "PSI_FALLBACK_INTERVAL",
        set_positive_int (λ c v. record c { psi_fallback_interval = v }),
      )
      ∷ (text "PSI_BOOST_WEIGHT", set_positive_int (λ c v. record c { psi_boost_weight = v }))
      ∷ (text "PSI_BOOST_DURATION", set_positive_int (λ c v. record c { psi_boost_duration = v }))
      ∷ []

  -- `setConfigField`: a key that the table lacks is skipped.
  unfoldable pub set_config_field : Config F → Bytes → Bytes → Option (Config F)
  set_config_field cfg key value = elim (find_handler key config_field_handlers) [
    | none ↦ some cfg
    | some handler ↦ handler cfg value
  ]
