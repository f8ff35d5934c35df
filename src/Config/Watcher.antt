-- ===== src/Config/Watcher.antt =====
-- config/watcher.go: `Watcher`. What `os.Stat` answers and what `LoadAndValidate` makes of the file
-- are arguments of a step, and so is the handler of a change: a function of the state of the rest of
-- the program, which may fail. The channels of `watchLoop` are the steps.
pub mod Held
pub mod Debounce
use cpu_manager_go.Prelude.{
  ℕ, Bool, true, false, not, ◌&&◌, ◌||◌, ◌==◌, Option, none, some, List, [], ◌∷◌, if◌then◌else◌,
}
use cpu_manager_go.Prelude.Clock.{Instant}
use cpu_manager_go.Config.Defs.{Config}

-- What the watcher reads of an `os.FileInfo`.
pub record FileInfo : Type 0 where
  pub mod_time : Instant
  pub size : ℕ

-- `Watcher`, with the flag `pendingReload` of its loop.
pub record Watcher (F : Type 0) : Type 0 where
  pub current_config : Config F
  pub is_running : Bool
  pub last_mod_time : Instant
  pub last_file_size : ℕ
  pub pending_reload : Bool

-- `NewWatcher`; `none` if fsnotify or `os.Stat` fails.
unfoldable pub new_watcher : {F : Type 0} → Config F → Bool → Option FileInfo → Option (Watcher F)
new_watcher initial watched none = none
new_watcher initial watched (some info) =
    if watched
    then some (record {
      current_config = initial;
      is_running = false;
      last_mod_time = info.mod_time;
      last_file_size = info.size;
      pending_reload = false;
    })
    else none

-- `Start`, and whether it fails.
unfoldable pub start : {F : Type 0} → Watcher F → Watcher F × Bool
start w = if w.is_running then (w, true) else (record w { is_running = true }, false)

-- `Stop`
unfoldable pub stop : {F : Type 0} → Watcher F → Watcher F
stop w = if w.is_running then record w { is_running = false } else w

-- What a step of the loop finds: the file's data, and the configuration it holds, if it is valid.
pub record Found (F : Type 0) : Type 0 where
  pub stat : Option FileInfo
  pub loaded : Option (Config F)

-- What the loop's `select` receives: an event (whether it is a write, creation, removal or renaming,
-- and whether it names the file), an error, a tick of the periodic check, or the debounce timer.
pub data Signal : Type 0 where
  file_event : Bool → Bool → Signal
  watch_error periodic_check debounce_timer : Signal

unfoldable pub is_unchanged : {F : Type 0} → FileInfo → Watcher F → Bool
is_unchanged info w = info.mod_time == w.last_mod_time && info.size == w.last_file_size

abbrev pub adopt : {F : Type 0} → Config F → FileInfo → Watcher F → Watcher F
adopt new info w = record w {
  current_config = new;
  last_mod_time = info.mod_time;
  last_file_size = info.size;
}

abbrev pub set_pending : {F S : Type 0} → Bool → Watcher F × S → Watcher F × S
set_pending b (w, s) = (record w { pending_reload = b }, s)

module _ {F S : Type 0} (apply : Config F → S → S × Bool) where
  unfoldable pub try_apply : Config F → FileInfo → Watcher F × S → Watcher F × S
  try_apply new info (w, s) =
      let (applied, failed) = apply new s in
      if failed then (w, applied) else (adopt new info w, applied)

  unfoldable pub reload : Option (Config F) → FileInfo → Watcher F × S → Watcher F × S
  reload none info ws = ws
  reload (some new) info ws = try_apply new info ws

  -- `handleConfigChange`
  unfoldable pub handle_config_change : Found F → Watcher F × S → Watcher F × S
  handle_config_change found ws = elim found.stat [
    | none ↦ ws
    | some info ↦ if is_unchanged info ws.0 then ws else reload found.loaded info ws
  ]

  -- `checkConfigChange`
  unfoldable pub check_config_change : Found F → Watcher F × S → Watcher F × S
  check_config_change found ws = elim found.stat [
    | none ↦ ws
    | some info ↦ if is_unchanged info ws.0 then ws else handle_config_change found ws
  ]

  -- One round of `watchLoop`.
  unfoldable pub watch_step : Signal → Found F → Watcher F × S → Watcher F × S
  watch_step (file_event relevant ours) found ws =
      if relevant && ours && not ws.0.pending_reload then set_pending true ws else ws
  watch_step watch_error found ws = ws
  watch_step periodic_check found ws = check_config_change found ws
  watch_step debounce_timer found ws =
      if ws.0.pending_reload then handle_config_change found (set_pending false ws) else ws

  unfoldable pub watch_loop : List (Signal × Found F) → Watcher F × S → Watcher F × S
  watch_loop [] ws = ws
  watch_loop ((signal, found) ∷ rest) ws = watch_loop rest (watch_step signal found ws)
