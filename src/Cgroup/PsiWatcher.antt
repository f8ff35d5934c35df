-- ===== src/Cgroup/PsiWatcher.antt =====
-- cgroup/psi_watcher.go: `PSIWatcher`. The wake pipe counts the bytes written to it; whether a file
-- opens and takes the threshold is an argument. The poll loop is the list of the monitors it polls and
-- the event that a monitor yields.
pub mod Unique
use mathlib.Core.Option
use cpu_manager_go.Prelude.{
  ℕ, zero, suc, ◌+◌, ◌≤◌, ◌≡◌, refl, Bool, true, false, not, ◌&&◌, ◌||◌, ◌==◌, Option, none, some,
  List, [], ◌∷◌, ◌++◌, if◌then◌else◌, any, arith, Bool-cases, Option-cases, inl, inr,
}
use cpu_manager_go.Prelude.Text.{Bytes, text, same, same_refl, format_uint}

-- `psiMonitor`
pub record Monitor : Type 0 where
  pub uid : ℕ
  pub typ : Bytes
  pub path : Bytes
  pub active : Bool

pub record PsiWatcher : Type 0 where
  pub monitors : List Monitor
  pub thresholds : List (Bytes × ℕ)
  pub window_us : ℕ
  pub started : Bool
  pub wakes : ℕ

-- `NewPSIWatcher`
unfoldable pub new_psi_watcher : ℕ → PsiWatcher
new_psi_watcher window_us = record {
  monitors = [];
  thresholds = [];
  window_us = window_us;
  started = false;
  wakes = 0;
}

unfoldable pub find_threshold : Bytes → List (Bytes × ℕ) → Option ℕ
find_threshold typ [] = none
find_threshold typ ((t, us) ∷ thresholds) =
    if same typ t then some us else find_threshold typ thresholds

-- `SetThreshold`; the first entry of a type is the one in force.
unfoldable pub set_threshold : Bytes → ℕ → PsiWatcher → PsiWatcher
set_threshold typ us w = record w { thresholds = (typ, us) ∷ w.thresholds }

unfoldable pub is_monitor : ℕ → Bytes → Monitor → Bool
is_monitor uid typ m = m.uid == uid && same m.typ typ && m.active

-- `wake`
unfoldable pub wake : PsiWatcher → PsiWatcher
wake w = if w.started then record w { wakes = suc w.wakes } else w

-- The text that is written to the pressure file.
unfoldable pub threshold_line : ℕ → ℕ → Bytes
threshold_line us window = text "some " ++ format_uint us ++ text " " ++ format_uint window

abbrev pub new_monitor : ℕ → Bytes → Bytes → Monitor
new_monitor uid typ path = record { uid = uid; typ = typ; path = path; active = true }

abbrev pub open_monitor :
    Bool → Bool → ℕ → Bytes → Bytes → Option ℕ → PsiWatcher → PsiWatcher × Bool
open_monitor opened written uid typ path none w = (w, true)
open_monitor opened written uid typ path (some us) w =
    if opened && written
    then (wake (record w { monitors = w.monitors ++ new_monitor uid typ path ∷ [] }), false)
    else (w, true)

-- `AddMonitor`, and whether it fails.
unfoldable pub add_monitor : Bool → Bool → ℕ → Bytes → Bytes → PsiWatcher → PsiWatcher × Bool
add_monitor opened written uid typ path w =
    if any (is_monitor uid typ) w.monitors
    then (w, false)
    else open_monitor opened written uid typ path (find_threshold typ w.thresholds) w

unfoldable pub deactivate : ℕ → Bytes → List Monitor → List Monitor
deactivate uid typ [] = []
deactivate uid typ (m ∷ monitors) =
    (if is_monitor uid typ m then record m { active = false } else m) ∷ deactivate uid typ monitors

-- `RemoveMonitor`
unfoldable pub remove_monitor : ℕ → Bytes → PsiWatcher → PsiWatcher
remove_monitor uid typ w = wake (record w { monitors = deactivate uid typ w.monitors })

-- `Start`, where the pipe is made, or not.
unfoldable pub start_watcher : Bool → PsiWatcher → PsiWatcher × Bool
start_watcher piped w = if piped then (record w { started = true }, false) else (w, true)

-- `Stop`
unfoldable pub stop_watcher : PsiWatcher → PsiWatcher
stop_watcher w = record (wake w) { monitors = []; started = false }

-- The positions of the monitors that a round of `pollLoop` polls.
unfoldable pub polled : ℕ → List Monitor → List ℕ
polled i [] = []
polled i (m ∷ monitors) = let rest = polled (suc i) monitors in if m.active then i ∷ rest else rest

unfoldable pub monitor_at : ℕ → List Monitor → Option Monitor
monitor_at i [] = none
monitor_at zero (m ∷ monitors) = some m
monitor_at (suc i) (m ∷ monitors) = monitor_at i monitors

-- The user and the type of the event of a polled monitor, unless it has been removed since.
unfoldable pub pressure_event : ℕ → PsiWatcher → Option (ℕ × Bytes)
pressure_event i w = elim (monitor_at i w.monitors) [
  | none ↦ none
  | some m ↦ if m.active then some (m.uid, m.typ) else none
]
