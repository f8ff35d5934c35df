-- ===== src/Reloader.antt =====
-- reloader/reloader.go: `Reloader`, with the configuration that each component holds. The state
-- manager (state/manager.go), the collector (metrics/collector.go) and the exporter
-- (metrics/prometheus.go) may be absent. The cgroup manager is only told in the log.
pub mod Adopted
pub mod Running
use cpu_manager_go.Prelude.{
  ℕ, suc, ℤ, Bool, true, false, not, ◌&&◌, ◌||◌, Option, none, some, ◌++◌, if◌then◌else◌,
}
use cpu_manager_go.Prelude.Text.{Bytes, text, same, format_int}
use cpu_manager_go.Config.Defs.{Config}

-- `PrometheusExporter`: whether it runs, the address it was made with, and the requests to stop.
pub record Exporter : Type 0 where
  pub is_running : Bool
  pub bind_host : Bytes
  pub bind_port : ℤ
  pub stop_requests : ℕ

pub record System (F : Type 0) : Type 0 where
  pub state_manager : Option (Config F)
  pub collector : Option (Config F)
  pub exporter : Option Exporter

abbrev pub endpoint : Bytes → ℤ → Bytes
endpoint host port = text "http://" ++ host ++ text ":" ++ format_int port ++ text "/metrics"

-- `GetMetricsEndpoint`
unfoldable pub get_metrics_endpoint : Exporter → Bytes
get_metrics_endpoint e = endpoint e.bind_host e.bind_port

-- `PrometheusExporter.Stop`: an error if nobody receives the request.
unfoldable pub stop_exporter : Bool → Exporter → Exporter × Bool
stop_exporter busy e =
    if busy then (e, true) else (record e { stop_requests = suc e.stop_requests }, false)

-- `UpdateConfig` of the state manager and of the collector, where there is one.
unfoldable pub update_config : {F : Type 0} → Config F → Option (Config F) → Option (Config F)
update_config new none = none
update_config new (some old) = some new

module _ {F : Type 0} (busy : Bool) (new : Config F) where
  -- `handlePrometheusConfigChange`, and whether it fails.
  unfoldable pub handle_prometheus_config_change : Exporter → Exporter × Bool
  handle_prometheus_config_change e =
      if not e.is_running && new.enable_prometheus
      then (e, true)
      else if e.is_running && not new.enable_prometheus
      then stop_exporter busy e
      else if not (
          same (get_metrics_endpoint e)
            (endpoint new.prometheus_metrics_bind_host new.prometheus_metrics_bind_port))
      then (e, true)
      else (e, false)

  abbrev pub change_exporter : Option Exporter → Option Exporter × Bool
  change_exporter none = (none, false)
  change_exporter (some e) =
      let (next, failed) = handle_prometheus_config_change e in (some next, failed)

  -- `OnConfigChange`, and whether it fails.
  unfoldable pub on_config_change : System F → System F × Bool
  on_config_change s =
      let (exporter, failed) = change_exporter s.exporter in
      (
        record {
          state_manager = update_config new s.state_manager;
          collector = update_config new s.collector;
          exporter = exporter;
        },
        failed,
      )

-- `SafeConfigUpdate`; a nil configuration is `none`.
unfoldable pub safe_config_update :
    {F : Type 0} → Bool → (Config F → Option (Config F)) → System F → System F × Bool
safe_config_update busy update s = elim s.state_manager [
  | none ↦ (s, true)
  | some current ↦ elim (update current) [
    | none ↦ (s, true)
    | some new ↦ on_config_change busy new s
  ]
]
