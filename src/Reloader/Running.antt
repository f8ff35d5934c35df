-- ===== src/Reloader/Running.antt =====
-- The watcher with `LoadAndValidate` and the reloader: the configurations in use while the program runs.
use cpu_manager_go.Prelude.{ℤ, Bool, ◌≡◌, refl, Option, none, some, List, [], ◌∷◌}
use cpu_manager_go.Prelude.Floats.{Floats}
use cpu_manager_go.Prelude.Text.{Bytes}
use cpu_manager_go.Config.Defs.{Config}
use cpu_manager_go.Config.Filter.{Compile}
use cpu_manager_go.Config.Load.{ReadResult, load_and_validate}
use cpu_manager_go.Config.Load.Sound.{load_and_validate-IsHysteretic}
use cpu_manager_go.Config.Watcher.{FileInfo, Watcher, Found, Signal, watch_loop}
use cpu_manager_go.Config.Watcher.Held.{LoadsGood, AllLoadGood, watch_loop-Both}
use cpu_manager_go.State.Decision.Hysteresis.{IsHysteretic}
use cpu_manager_go.Reloader.{System, update_config, on_config_change}

-- What the loop receives, and what the disk and the environment hold then.
pub record Moment : Type 0 where
  pub signal : Signal
  pub stat : Option FileInfo
  pub file : ReadResult
  pub getenv : Bytes → Bytes

module _ (fl : Floats) (parse_float : Bytes → Option fl.F) (compile : Compile)
    (is_http_url : Bytes → Bool) (pid_max : ℤ) where
  unfoldable pub observe : Moment → Signal × Found fl.F
  observe m = (
    m.signal,
    record {
      stat = m.stat;
      loaded = load_and_validate fl parse_float compile is_http_url pid_max m.getenv m.file;
    },
  )

  unfoldable pub observe_all : List Moment → List (Signal × Found fl.F)
  unfolding observe
  observe_all [] = []
  observe_all (m ∷ moments) = observe m ∷ observe_all moments

  -- The configuration of a component that is there keeps release thresholds below thresholds.
  abbrev pub HoldsHysteretic : Option (Config fl.F) → Type 0
  HoldsHysteretic none = Unit {0}
  HoldsHysteretic (some c) = IsHysteretic c

  abbrev pub AllHysteretic : System fl.F → Type 0
  AllHysteretic s = HoldsHysteretic s.state_manager × HoldsHysteretic s.collector

  update_config-Hysteretic :
      (busy : Bool) (new : Config fl.F) (o : Option (Config fl.F))
      → IsHysteretic new
      → HoldsHysteretic (update_config new o)
  unfolding update_config
  update_config-Hysteretic busy new none h = tt
  update_config-Hysteretic busy new (some old) h = h

  on_config_change-Hysteretic :
      (busy : Bool) (new : Config fl.F) (s : System fl.F)
      → IsHysteretic new
      → AllHysteretic s
      → AllHysteretic (on_config_change busy new s).0
  unfolding on_config_change
  on_config_change-Hysteretic busy new s h a = (
    update_config-Hysteretic busy new s.state_manager h,
    update_config-Hysteretic busy new s.collector h,
  )

  module _ (busy : Bool) where
    loads-Good :
        (m : Moment) (o : Option (Config fl.F))
        → load_and_validate fl parse_float compile is_http_url pid_max m.getenv m.file ≡ o
        → LoadsGood (on_config_change busy) IsHysteretic AllHysteretic o
    loads-Good m none e = tt
    loads-Good m (some c) e =
        load_and_validate-IsHysteretic fl parse_float compile is_http_url pid_max m.getenv m.file c
          e

    observe_all-Good :
        (moments : List Moment)
        → AllLoadGood (on_config_change busy) IsHysteretic AllHysteretic (observe_all moments)
    unfolding observe_all
    observe_all-Good [] = tt
    observe_all-Good (m ∷ moments) = (loads-Good m _ refl, observe_all-Good moments)

    -- While the program runs, whatever the file, the environment and the signals of the watcher are,
    -- the configurations of the watcher, of the state manager and of the collector keep each release
    -- threshold below the threshold of its resource, if those at the start do.
    pub watch_loop-IsHysteretic :
        (moments : List Moment) (w : Watcher fl.F) (s : System fl.F)
        → IsHysteretic w.current_config
        → AllHysteretic s
        → IsHysteretic
            (watch_loop (on_config_change busy) (observe_all moments) (w, s)).0.current_config
          × AllHysteretic (watch_loop (on_config_change busy) (observe_all moments) (w, s)).1
    watch_loop-IsHysteretic moments w s h a =
        watch_loop-Both (on_config_change busy) IsHysteretic AllHysteretic
          (on_config_change-Hysteretic busy) (observe_all moments) (w, s) (observe_all-Good moments)
          (h, a)
