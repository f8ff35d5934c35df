-- ===== src/Reloader/Adopted.antt =====
-- What a change of the configuration does to the components.
use cpu_manager_go.Prelude.{◌<◌, true, false, ◌≡◌, ◌⊎◌, Option, none, some}
use cpu_manager_go.Prelude.Text.{same}
use cpu_manager_go.Config.Defs.{Config}
use cpu_manager_go.Reloader.{Exporter, endpoint, get_metrics_endpoint}

module _ {F : Type 0} (new : Config F) where
  -- A component that is there has the configuration.
  unfoldable pub Holds : Option (Config F) → Type 0
  Holds none = Unit {0}
  Holds (some c) = c ≡ new

  -- An exporter that is there is as the configuration asks: it runs at the configured address, or it
  -- is disabled and does not run or has been asked to stop.
  unfoldable pub Conforms : Option Exporter → Type 0
  Conforms none = Unit {0}
  Conforms (some e) =
      ((new.enable_prometheus ≡ true)
        × (e.is_running ≡ true)
        × (same (get_metrics_endpoint e)
              (endpoint new.prometheus_metrics_bind_host new.prometheus_metrics_bind_port)
            ≡ true))
      ⊎ ((new.enable_prometheus ≡ false) × ((e.is_running ≡ false) ⊎ (0 < e.stop_requests)))
