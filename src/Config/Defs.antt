-- ===== src/Config/Defs.antt =====
-- config/config.go: the types `Timeframe` and `Config`, and `DefaultConfig`. The mutex and the cache
-- of compiled patterns are left out; a nil list of patterns is the empty list, since the program
-- never tells them apart.
use cpu_manager_go.Prelude.{ℤ, pos, Bool, true, false, List, [], ◌∷◌}
use cpu_manager_go.Prelude.Floats.{Floats}
use cpu_manager_go.Prelude.Text.{Bytes, text}

pub record Timeframe : Type 0 where
  pub days_of_week : List ℤ
  pub hour_start : ℤ
  pub hour_end : ℤ

pub record Config (F : Type 0) : Type 0 where
  pub cgroup_root : Bytes
  pub cgroup_base : Bytes
  pub config_file : Bytes
  pub log_file : Bytes
  pub created_cgroups_file : Bytes
  pub metrics_cache_file : Bytes
  pub prometheus_file : Bytes
  pub polling_interval : ℤ
  pub min_active_time : ℤ
  pub metrics_cache_ttl : ℤ
  pub metrics_refresh_interval : ℤ
  pub process_min_age_seconds : ℤ
  pub cgroup_operation_timeout : ℤ
  pub cgroup_retry_delay_ms : ℤ
  pub mcp_shutdown_timeout : ℤ
  pub cpu_threshold : ℤ
  pub cpu_release_threshold : ℤ
  pub cpu_threshold_duration : ℤ
  pub cpu_quota_normal : Bytes
  pub cpu_quota_limited : Bytes
  pub ram_enabled : Bool
  pub ram_threshold : ℤ
  pub ram_release_threshold : ℤ
  pub ram_quota_limited : Bytes
  pub ram_quota_per_user : Bytes
  pub disable_swap : Bool
  pub ram_high_ratio : F
  pub ram_user_include_list : List Bytes
  pub ram_user_exclude_list : List Bytes
  pub io_enabled : Bool
  pub io_threshold : ℤ
  pub io_release_threshold : ℤ
  pub io_read_bps : Bytes
  pub io_write_bps : Bytes
  pub io_read_iops : ℤ
  pub io_write_iops : ℤ
  pub io_device_filter : Bytes
  pub io_threshold_duration : ℤ
  pub io_remediation_enabled : Bool
  pub io_starvation_threshold : ℤ
  pub io_starvation_check_interval : ℤ
  pub io_boost_multiplier : F
  pub io_boost_duration : ℤ
  pub io_boost_max_per_hour : ℤ
  pub io_psi_threshold : F
  pub io_revert_on_normal : Bool
  pub io_user_include_list : List Bytes
  pub io_user_exclude_list : List Bytes
  pub autodetect_patterns : Bool
  pub pattern_history_hours : ℤ
  pub pattern_min_samples : ℤ
  pub pattern_confidence_threshold : F
  pub batch_night_cpu_quota : ℤ
  pub batch_night_ram_quota : Bytes
  pub interactive_cpu_quota : ℤ
  pub interactive_ram_quota : Bytes
  pub limit_hook_enabled : Bool
  pub limit_hook_script : Bytes
  pub limit_hook_url : Bytes
  pub limit_hook_timeout : ℤ
  pub enable_prometheus : Bool
  pub prometheus_metrics_bind_host : Bytes
  pub prometheus_metrics_bind_port : ℤ
  pub prometheus_tls_enabled : Bool
  pub prometheus_tls_cert_file : Bytes
  pub prometheus_tls_key_file : Bytes
  pub prometheus_tls_ca_file : Bytes
  pub prometheus_tls_min_version : Bytes
  pub prometheus_auth_type : Bytes
  pub prometheus_auth_username : Bytes
  pub prometheus_auth_password_file : Bytes
  pub prometheus_jwt_secret_file : Bytes
  pub prometheus_jwt_issuer : Bytes
  pub prometheus_jwt_audience : Bytes
  pub prometheus_jwt_expiry : ℤ
  pub log_level : Bytes
  pub log_max_size : ℤ
  pub use_syslog : Bool
  pub min_system_cores : ℤ
  pub system_uid_min : ℤ
  pub system_uid_max : ℤ
  pub user_include_list : List Bytes
  pub user_exclude_list : List Bytes
  pub process_exclude_list : List Bytes
  pub blackout_timeframes : List Timeframe
  pub blackout_spec : Bytes
  pub ignore_system_load : Bool
  pub server_role : Bytes
  pub mcp_enabled : Bool
  pub mcp_transport : Bytes
  pub mcp_http_port : ℤ
  pub mcp_http_host : Bytes
  pub mcp_log_level : Bytes
  pub mcp_auth_token : Bytes
  pub mcp_allow_write_ops : Bool
  pub metrics_db_enabled : Bool
  pub metrics_db_path : Bytes
  pub metrics_db_retention_days : ℤ
  pub metrics_db_write_interval : ℤ
  pub username_cache_ttl : ℤ
  pub psi_event_driven : Bool
  pub psi_cpu_stall_threshold : ℤ
  pub psi_io_stall_threshold : ℤ
  pub psi_window_us : ℤ
  pub psi_fallback_interval : ℤ
  pub psi_boost_weight : ℤ
  pub psi_boost_duration : ℤ

-- `system_uid_max` is the kernel's pid_max, which `DefaultConfig` reads, or else 60000.
unfoldable pub default_config : (fl : Floats) → ℤ → Config fl.F
default_config fl system_uid_max = record {
  cgroup_root = text "/sys/fs/cgroup";
  cgroup_base = text "resman";
  config_file = text "/etc/resman.conf";
  log_file = text "/var/log/resman.log";
  created_cgroups_file = text "/var/run/resman-cgroups.txt";
  metrics_cache_file = text "/var/run/resman-metrics.cache";
  prometheus_file = text "/var/run/resman-metrics.prom";
  polling_interval = pos 30;
  min_active_time = pos 60;
  metrics_cache_ttl = pos 15;
  metrics_refresh_interval = pos 30;
  process_min_age_seconds = pos 60;
  cgroup_operation_timeout = pos 5;
  cgroup_retry_delay_ms = pos 100;
  mcp_shutdown_timeout = pos 10;
  cpu_threshold = pos 75;
  cpu_release_threshold = pos 40;
  cpu_threshold_duration = pos 90;
  cpu_quota_normal = text "max 100000";
  cpu_quota_limited = text "50000 100000";
  ram_enabled = false;
  ram_threshold = pos 75;
  ram_release_threshold = pos 40;
  ram_quota_limited = text "2G";
  ram_quota_per_user = text "512M";
  disable_swap = false;
  ram_high_ratio = fl.div (fl.of_int (pos 8)) (fl.of_int (pos 10));
  ram_user_include_list = [];
  ram_user_exclude_list = [];
  io_enabled = false;
  io_threshold = pos 75;
  io_release_threshold = pos 40;
  io_read_bps = text "100M";
  io_write_bps = text "50M";
  io_read_iops = pos 1000;
  io_write_iops = pos 500;
  io_device_filter = text "all";
  io_threshold_duration = pos 0;
  io_remediation_enabled = false;
  io_starvation_threshold = pos 300;
  io_starvation_check_interval = pos 30;
  io_boost_multiplier = fl.of_int (pos 2);
  io_boost_duration = pos 600;
  io_boost_max_per_hour = pos 3;
  io_psi_threshold = fl.of_int (pos 50);
  io_revert_on_normal = true;
  io_user_include_list = [];
  io_user_exclude_list = [];
  autodetect_patterns = false;
  pattern_history_hours = pos 168;
  pattern_min_samples = pos 24;
  pattern_confidence_threshold = fl.div (fl.of_int (pos 7)) (fl.of_int (pos 10));
  batch_night_cpu_quota = pos 200000;
  batch_night_ram_quota = text "4G";
  interactive_cpu_quota = pos 50000;
  interactive_ram_quota = text "1G";
  limit_hook_enabled = false;
  limit_hook_script = [];
  limit_hook_url = [];
  limit_hook_timeout = pos 10;
  enable_prometheus = false;
  prometheus_metrics_bind_host = text "127.0.0.1";
  prometheus_metrics_bind_port = pos 1974;
  prometheus_tls_enabled = false;
  prometheus_tls_cert_file = text "/etc/resman/tls/server.crt";
  prometheus_tls_key_file = text "/etc/resman/tls/server.key";
  prometheus_tls_ca_file = [];
  prometheus_tls_min_version = text "1.2";
  prometheus_auth_type = text "none";
  prometheus_auth_username = [];
  prometheus_auth_password_file = [];
  prometheus_jwt_secret_file = [];
  prometheus_jwt_issuer = text "resman";
  prometheus_jwt_audience = text "prometheus";
  prometheus_jwt_expiry = pos 3600;
  log_level = text "INFO";
  log_max_size = pos 10485760;
  use_syslog = false;
  min_system_cores = pos 1;
  system_uid_min = pos 1000;
  system_uid_max = system_uid_max;
  user_include_list = [];
  user_exclude_list = [];
  process_exclude_list =
      text "^systemd$" ∷ text "^dbus-daemon$" ∷ text "^dbus-broker$" ∷ text "^polkitd$" ∷ [];
  blackout_timeframes = [];
  blackout_spec = [];
  ignore_system_load = false;
  server_role = [];
  mcp_enabled = false;
  mcp_transport = text "stdio";
  mcp_http_port = pos 1969;
  mcp_http_host = [];
  mcp_log_level = text "INFO";
  mcp_auth_token = [];
  mcp_allow_write_ops = false;
  metrics_db_enabled = false;
  metrics_db_path = text "/etc/resman/metrics.db";
  metrics_db_retention_days = pos 30;
  metrics_db_write_interval = pos 30;
  username_cache_ttl = pos 60;
  psi_event_driven = false;
  psi_cpu_stall_threshold = pos 50000;
  psi_io_stall_threshold = pos 50000;
  psi_window_us = pos 1000000;
  psi_fallback_interval = pos 300;
  psi_boost_weight = pos 300;
  psi_boost_duration = pos 120;
}
