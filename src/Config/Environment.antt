-- ===== src/Config/Environment.antt =====
-- config/config.go: `loadFromEnvironment`. The fields of `Config` with a tag `config`, in order, are a
-- table; a warning is the name of its variable.
pub mod Blackout
use mathlib.Core.Option
use cpu_manager_go.Prelude.{
  ℤ, Bool, true, false, Option, none, some, List, [], ◌∷◌, ◌++◌, if◌then◌else◌, is_empty,
}
use cpu_manager_go.Prelude.Text.{Bytes, text, split, atoi}
use cpu_manager_go.Config.Defs.{Config}
use cpu_manager_go.Config.Setters.{truth, trimmed_parts}

-- What a variable does to the configuration, and whether it is warned about.
abbrev pub Variable : Type 0 → Type 0
Variable F = Config F → Bytes → Config F × Bool

module _ {F : Type 0} where
  abbrev pub assign_or_warn :
      {A : Type 0} → (Config F → A → Config F) → Config F → Option A → Config F × Bool
  assign_or_warn assign cfg none = (cfg, true)
  assign_or_warn assign cfg (some a) = (assign cfg a, false)

  unfoldable pub env_string : (Config F → Bytes → Config F) → Variable F
  env_string assign cfg value = (assign cfg value, false)

  unfoldable pub env_int : (Config F → ℤ → Config F) → Variable F
  env_int assign cfg value = assign_or_warn assign cfg (atoi value)

  unfoldable pub env_float : (Bytes → Option F) → (Config F → F → Config F) → Variable F
  env_float parse_float assign cfg value = assign_or_warn assign cfg (parse_float value)

  -- A word that is neither true nor false is warned about, and sets the field to false.
  abbrev pub assign_bool : (Config F → Bool → Config F) → Config F → Option Bool → Config F × Bool
  assign_bool assign cfg none = (assign cfg false, true)
  assign_bool assign cfg (some b) = (assign cfg b, false)

  unfoldable pub env_bool : (Config F → Bool → Config F) → Variable F
  env_bool assign cfg value = assign_bool assign cfg (truth value)

  unfoldable pub env_list : (Config F → List Bytes → Config F) → Variable F
  env_list assign cfg value = (assign cfg (trimmed_parts (split b',' value)), false)

abbrev pub Variables : Type 0 → Type 0
Variables F = List (Bytes × Variable F)

module _ {F : Type 0} (parse_float : Bytes → Option F) where
  unfoldable pub config_variables : Variables F
  config_variables =
      (text "CGROUP_ROOT", env_string (λ c v. record c { cgroup_root = v }))
      ∷ (text "CGROUP_BASE", env_string (λ c v. record c { cgroup_base = v }))
      ∷ (text "CONFIG_FILE", env_string (λ c v. record c { config_file = v }))
      ∷ (text "LOG_FILE", env_string (λ c v. record c { log_file = v }))
      ∷ (text "CREATED_CGROUPS_FILE", env_string (λ c v. record c { created_cgroups_file = v }))
      ∷ (text "METRICS_CACHE_FILE", env_string (λ c v. record c { metrics_cache_file = v }))
      ∷ (text "PROMETHEUS_FILE", env_string (λ c v. record c { prometheus_file = v }))
      ∷ (text "POLLING_INTERVAL", env_int (λ c v. record c { polling_interval = v }))
      ∷ (text "MIN_ACTIVE_TIME", env_int (λ c v. record c { min_active_time = v }))
      ∷ (text "METRICS_CACHE_TTL", env_int (λ c v. record c { metrics_cache_ttl = v }))
      ∷ (
        text "METRICS_REFRESH_INTERVAL",
        env_int (λ c v. record c { metrics_refresh_interval = v }),
      )
      ∷ (text "PROCESS_MIN_AGE_SECONDS", env_int (λ c v. record c { process_min_age_seconds = v }))
      ∷ (
        text "CGROUP_OPERATION_TIMEOUT",
        env_int (λ c v. record c { cgroup_operation_timeout = v }),
      )
      ∷ (text "CGROUP_RETRY_DELAY_MS", env_int (λ c v. record c { cgroup_retry_delay_ms = v }))
      ∷ (text "MCP_SHUTDOWN_TIMEOUT", env_int (λ c v. record c { mcp_shutdown_timeout = v }))
      ∷ (text "CPU_THRESHOLD", env_int (λ c v. record c { cpu_threshold = v }))
      ∷ (text "CPU_RELEASE_THRESHOLD", env_int (λ c v. record c { cpu_release_threshold = v }))
      ∷ (text "CPU_THRESHOLD_DURATION", env_int (λ c v. record c { cpu_threshold_duration = v }))
      ∷ (text "CPU_QUOTA_NORMAL", env_string (λ c v. record c { cpu_quota_normal = v }))
      ∷ (text "CPU_QUOTA_LIMITED", env_string (λ c v. record c { cpu_quota_limited = v }))
      ∷ (text "RAM_LIMIT_ENABLED", env_bool (λ c v. record c { ram_enabled = v }))
      ∷ (text "RAM_THRESHOLD", env_int (λ c v. record c { ram_threshold = v }))
      ∷ (text "RAM_RELEASE_THRESHOLD", env_int (λ c v. record c { ram_release_threshold = v }))
      ∷ (text "RAM_QUOTA_LIMITED", env_string (λ c v. record c { ram_quota_limited = v }))
      ∷ (text "RAM_QUOTA_PER_USER", env_string (λ c v. record c { ram_quota_per_user = v }))
      ∷ (text "DISABLE_SWAP", env_bool (λ c v. record c { disable_swap = v }))
      ∷ (text "RAM_HIGH_RATIO", env_float parse_float (λ c v. record c { ram_high_ratio = v }))
      ∷ (text "RAM_USER_INCLUDE_LIST", env_list (λ c v. record c { ram_user_include_list = v }))
      ∷ (text "RAM_USER_EXCLUDE_LIST", env_list (λ c v. record c { ram_user_exclude_list = v }))
      ∷ (text "IO_LIMIT_ENABLED", env_bool (λ c v. record c { io_enabled = v }))
      ∷ (text "IO_THRESHOLD", env_int (λ c v. record c { io_threshold = v }))
      ∷ (text "IO_RELEASE_THRESHOLD", env_int (λ c v. record c { io_release_threshold = v }))
      ∷ (text "IO_READ_BPS", env_string (λ c v. record c { io_read_bps = v }))
      ∷ (text "IO_WRITE_BPS", env_string (λ c v. record c { io_write_bps = v }))
      ∷ (text "IO_READ_IOPS", env_int (λ c v. record c { io_read_iops = v }))
      ∷ (text "IO_WRITE_IOPS", env_int (λ c v. record c { io_write_iops = v }))
      ∷ (text "IO_DEVICE_FILTER", env_string (λ c v. record c { io_device_filter = v }))
      ∷ (text "IO_THRESHOLD_DURATION", env_int (λ c v. record c { io_threshold_duration = v }))
      ∷ (text "IO_REMEDIATION_ENABLED", env_bool (λ c v. record c { io_remediation_enabled = v }))
      ∷ (text "IO_STARVATION_THRESHOLD", env_int (λ c v. record c { io_starvation_threshold = v }))
      ∷ (
        text "IO_STARVATION_CHECK_INTERVAL",
        env_int (λ c v. record c { io_starvation_check_interval = v }),
      )
      ∷ (
        text "IO_BOOST_MULTIPLIER",
        env_float parse_float (λ c v. record c { io_boost_multiplier = v }),
      )
      ∷ (text "IO_BOOST_DURATION", env_int (λ c v. record c { io_boost_duration = v }))
      ∷ (text "IO_BOOST_MAX_PER_HOUR", env_int (λ c v. record c { io_boost_max_per_hour = v }))
      ∷ (text "IO_PSI_THRESHOLD", env_float parse_float (λ c v. record c { io_psi_threshold = v }))
      ∷ (text "IO_REVERT_ON_NORMAL", env_bool (λ c v. record c { io_revert_on_normal = v }))
      ∷ (text "IO_USER_INCLUDE_LIST", env_list (λ c v. record c { io_user_include_list = v }))
      ∷ (text "IO_USER_EXCLUDE_LIST", env_list (λ c v. record c { io_user_exclude_list = v }))
      ∷ (text "AUTODETECT_PATTERNS", env_bool (λ c v. record c { autodetect_patterns = v }))
      ∷ (text "PATTERN_HISTORY_HOURS", env_int (λ c v. record c { pattern_history_hours = v }))
      ∷ (text "PATTERN_MIN_SAMPLES", env_int (λ c v. record c { pattern_min_samples = v }))
      ∷ (
        text "PATTERN_CONFIDENCE_THRESHOLD",
        env_float parse_float (λ c v. record c { pattern_confidence_threshold = v }),
      )
      ∷ (text "BATCH_NIGHT_CPU_QUOTA", env_int (λ c v. record c { batch_night_cpu_quota = v }))
      ∷ (text "BATCH_NIGHT_RAM_QUOTA", env_string (λ c v. record c { batch_night_ram_quota = v }))
      ∷ (text "INTERACTIVE_CPU_QUOTA", env_int (λ c v. record c { interactive_cpu_quota = v }))
      ∷ (text "INTERACTIVE_RAM_QUOTA", env_string (λ c v. record c { interactive_ram_quota = v }))
      ∷ (text "LIMIT_HOOK_ENABLED", env_bool (λ c v. record c { limit_hook_enabled = v }))
      ∷ (text "LIMIT_HOOK_SCRIPT", env_string (λ c v. record c { limit_hook_script = v }))
      ∷ (text "LIMIT_HOOK_URL", env_string (λ c v. record c { limit_hook_url = v }))
      ∷ (text "LIMIT_HOOK_TIMEOUT", env_int (λ c v. record c { limit_hook_timeout = v }))
      ∷ (text "ENABLE_PROMETHEUS", env_bool (λ c v. record c { enable_prometheus = v }))
      ∷ (
        text "PROMETHEUS_METRICS_BIND_HOST",
        env_string (λ c v. record c { prometheus_metrics_bind_host = v }),
      )
      ∷ (
        text "PROMETHEUS_METRICS_BIND_PORT",
        env_int (λ c v. record c { prometheus_metrics_bind_port = v }),
      )
      ∷ (text "PROMETHEUS_TLS_ENABLED", env_bool (λ c v. record c { prometheus_tls_enabled = v }))
      ∷ (
        text "PROMETHEUS_TLS_CERT_FILE",
        env_string (λ c v. record c { prometheus_tls_cert_file = v }),
      )
      ∷ (
        text "PROMETHEUS_TLS_KEY_FILE",
        env_string (λ c v. record c { prometheus_tls_key_file = v }),
      )
      ∷ (text "PROMETHEUS_TLS_CA_FILE", env_string (λ c v. record c { prometheus_tls_ca_file = v }))
      ∷ (
        text "PROMETHEUS_TLS_MIN_VERSION",
        env_string (λ c v. record c { prometheus_tls_min_version = v }),
      )
      ∷ (text "PROMETHEUS_AUTH_TYPE", env_string (λ c v. record c { prometheus_auth_type = v }))
      ∷ (
        text "PROMETHEUS_AUTH_USERNAME",
        env_string (λ c v. record c { prometheus_auth_username = v }),
      )
      ∷ (
        text "PROMETHEUS_AUTH_PASSWORD_FILE",
        env_string (λ c v. record c { prometheus_auth_password_file = v }),
      )
      ∷ (
        text "PROMETHEUS_JWT_SECRET_FILE",
        env_string (λ c v. record c { prometheus_jwt_secret_file = v }),
      )
      ∷ (text "PROMETHEUS_JWT_ISSUER", env_string (λ c v. record c { prometheus_jwt_issuer = v }))
      ∷ (
        text "PROMETHEUS_JWT_AUDIENCE",
        env_string (λ c v. record c { prometheus_jwt_audience = v }),
      )
      ∷ (text "PROMETHEUS_JWT_EXPIRY", env_int (λ c v. record c { prometheus_jwt_expiry = v }))
      ∷ (text "LOG_LEVEL", env_string (λ c v. record c { log_level = v }))
      ∷ (text "LOG_MAX_SIZE", env_int (λ c v. record c { log_max_size = v }))
      ∷ (text "USE_SYSLOG", env_bool (λ c v. record c { use_syslog = v }))
      ∷ (text "MIN_SYSTEM_CORES", env_int (λ c v. record c { min_system_cores = v }))
      ∷ (text "SYSTEM_UID_MIN", env_int (λ c v. record c { system_uid_min = v }))
      ∷ (text "SYSTEM_UID_MAX", env_int (λ c v. record c { system_uid_max = v }))
      ∷ (text "USER_INCLUDE_LIST", env_list (λ c v. record c { user_include_list = v }))
      ∷ (text "USER_EXCLUDE_LIST", env_list (λ c v. record c { user_exclude_list = v }))
      ∷ (text "PROCESS_EXCLUDE_LIST", env_list (λ c v. record c { process_exclude_list = v }))
      ∷ (text "BLACKOUT", env_string (λ c v. record c { blackout_spec = v }))
      ∷ (text "IGNORE_SYSTEM_LOAD", env_bool (λ c v. record c { ignore_system_load = v }))
      ∷ (text "SERVER_ROLE", env_string (λ c v. record c { server_role = v }))
      ∷ (text "MCP_ENABLED", env_bool (λ c v. record c { mcp_enabled = v }))
      ∷ (text "MCP_TRANSPORT", env_string (λ c v. record c { mcp_transport = v }))
      ∷ (text "MCP_HTTP_PORT", env_int (λ c v. record c { mcp_http_port = v }))
      ∷ (text "MCP_HTTP_HOST", env_string (λ c v. record c { mcp_http_host = v }))
      ∷ (text "MCP_LOG_LEVEL", env_string (λ c v. record c { mcp_log_level = v }))
      ∷ (text "MCP_AUTH_TOKEN", env_string (λ c v. record c { mcp_auth_token = v }))
      ∷ (text "MCP_ALLOW_WRITE_OPS", env_bool (λ c v. record c { mcp_allow_write_ops = v }))
      ∷ (text "METRICS_DB_ENABLED", env_bool (λ c v. record c { metrics_db_enabled = v }))
      ∷ (text "METRICS_DB_PATH", env_string (λ c v. record c { metrics_db_path = v }))
      ∷ (
        text "METRICS_DB_RETENTION_DAYS",
        env_int (λ c v. record c { metrics_db_retention_days = v }),
      )
      ∷ (
        text "METRICS_DB_WRITE_INTERVAL",
        env_int (λ c v. record c { metrics_db_write_interval = v }),
      )
      ∷ (text "USERNAME_CACHE_TTL", env_int (λ c v. record c { username_cache_ttl = v }))
      ∷ (text "PSI_EVENT_DRIVEN", env_bool (λ c v. record c { psi_event_driven = v }))
      ∷ (text "PSI_CPU_STALL_THRESHOLD", env_int (λ c v. record c { psi_cpu_stall_threshold = v }))
      ∷ (text "PSI_IO_STALL_THRESHOLD", env_int (λ c v. record c { psi_io_stall_threshold = v }))
      ∷ (text "PSI_WINDOW_US", env_int (λ c v. record c { psi_window_us = v }))
      ∷ (text "PSI_FALLBACK_INTERVAL", env_int (λ c v. record c { psi_fallback_interval = v }))
      ∷ (text "PSI_BOOST_WEIGHT", env_int (λ c v. record c { psi_boost_weight = v }))
      ∷ (text "PSI_BOOST_DURATION", env_int (λ c v. record c { psi_boost_duration = v }))
      ∷ []

  -- The loop over the fields. An empty variable is like one that is not set.
  unfoldable pub load_variables : (Bytes → Bytes) → Variables F → Config F → Config F × List Bytes
  load_variables getenv [] cfg = (cfg, [])
  load_variables getenv ((key, variable) ∷ rest) cfg =
      let (next, warned) =
        if is_empty (getenv key) then (cfg, false) else variable cfg (getenv key) in
      let (last, warnings) = load_variables getenv rest next in
      (last, if warned then key ∷ warnings else warnings)

  unfoldable pub load_from_environment : (Bytes → Bytes) → Config F → Config F × List Bytes
  load_from_environment getenv cfg = load_variables getenv config_variables cfg
