-- ===== src/Cgroup/Processes.antt =====
-- cgroup/process.go: the names of the processes, and which of them are moved. What gopsutil and /proc
-- show of a process is a record, and whether the write to `cgroup.procs` succeeds is an argument.
pub mod Names
use mathlib.Core.Option
use cpu_manager_go.Prelude.{
  ℕ, zero, suc, ◌+◌, ltb, Bool, true, false, not, ◌&&◌, ◌||◌, ◌==◌, Option, none, some, List, [],
  ◌∷◌, ◌++◌, if◌then◌else◌, is_empty, length,
}
use cpu_manager_go.Prelude.Text.{Bytes, text, fields, trim_space, format_uint}
use cpu_manager_go.Config.Defs.{Config}
use cpu_manager_go.Config.Filter.{Compile, is_process_excluded}
use cpu_manager_go.Cgroup.Tracking.{Tracking, get_cgroup_path}

-- A process, its user (`none` if it cannot be read), and the texts of its files `comm` and `cmdline`.
pub record ProcessInfo : Type 0 where
  pub pid : ℕ
  pub uid : Option ℕ
  pub comm : Option Bytes
  pub cmdline : Option Bytes

-- `strings.ReplaceAll(s, "\x00", " ")`
unfoldable pub blank_zeros : Bytes → Bytes
blank_zeros [] = []
blank_zeros (c ∷ s) = (if c == 0 then b' ' else c) ∷ blank_zeros s

-- The name and the command line of `getProcessInfo`.
unfoldable pub name_of : Option Bytes → Bytes
name_of none = text "unknown"
name_of (some s) = trim_space s

unfoldable pub cmdline_of : Option Bytes → Bytes
cmdline_of none = []
cmdline_of (some s) = trim_space (blank_zeros s)

-- What follows the last slash, after the text read so far.
unfoldable pub after_slash : Bytes → Bytes → Bytes
after_slash acc [] = acc
after_slash acc (c ∷ s) = if c == b'/' then after_slash [] s else after_slash (acc ++ c ∷ []) s

unfoldable pub drop_slashes : Bytes → Bytes
drop_slashes [] = []
drop_slashes (c ∷ s) =
    let rest = drop_slashes s in
    elim rest [ [] ↦ if c == b'/' then [] else c ∷ [] | d ∷ r ↦ c ∷ d ∷ r ]

-- `filepath.Base`
unfoldable pub base : Bytes → Bytes
base [] = text "."
base (c ∷ s) =
    if is_empty (drop_slashes (c ∷ s)) then text "/" else after_slash [] (drop_slashes (c ∷ s))

-- `fmt.Sprintf("%s[%d]", name, pid)`
unfoldable pub decorate : Bytes → ℕ → Bytes
decorate name pid = name ++ b'[' ∷ format_uint pid ++ b']' ∷ []

unfoldable pub named : Bytes → ℕ → Bytes
named name pid = if is_empty name then text "PID-" ++ format_uint pid else decorate name pid

-- The name by the first word of the command line, or else by `comm`.
unfoldable pub choose_name : List Bytes → Bytes → ℕ → Bytes
choose_name [] name pid = named name pid
choose_name (word ∷ words) name pid = decorate (base word) pid

-- `getProcessName`
unfoldable pub get_process_name : ProcessInfo → Bytes
get_process_name p =
    let cmdline = cmdline_of p.cmdline in
    let short = not (is_empty cmdline) && ltb (length cmdline) 100 in
    choose_name (if short then fields cmdline else []) (name_of p.comm) p.pid

-- The pids that were tried, and the number of those that failed.
pub record Moved : Type 0 where
  pub tried : List ℕ
  pub errors : ℕ

-- `MoveProcessToCgroup`: whether it fails.
unfoldable pub move_process_to_cgroup : (ℕ → Bool) → Tracking → ℕ → ℕ → Bool
move_process_to_cgroup written t pid uid =
    uid == 0 || elim (get_cgroup_path uid t) [ none ↦ true | some path ↦ not (written pid) ]

abbrev pub belongs : ℕ → Option ℕ → Bool
belongs uid none = false
belongs uid (some u) = u == uid

module _ {F : Type 0} (compile : Compile) (cfg : Config F) (written : ℕ → Bool) (t : Tracking) where
  abbrev pub try_move : ℕ → ProcessInfo → Moved → Moved
  try_move uid p m = record {
    tried = p.pid ∷ m.tried;
    errors = if move_process_to_cgroup written t p.pid uid then suc m.errors else m.errors;
  }

  -- The loop of `MoveAllUserProcesses`.
  unfoldable pub move_processes : ℕ → List ProcessInfo → Moved
  move_processes uid [] = record { tried = []; errors = 0 }
  move_processes uid (p ∷ ps) =
      let rest = move_processes uid ps in
      if belongs uid p.uid && not (is_process_excluded compile cfg (get_process_name p))
      then try_move uid p rest
      else rest

  -- `MoveAllUserProcesses`, and whether it fails. Nothing is tried for root.
  unfoldable pub move_all_user_processes : ℕ → List ProcessInfo → Moved × Bool
  move_all_user_processes zero ps = (record { tried = []; errors = 0 }, true)
  move_all_user_processes (suc uid) ps =
      let moved = move_processes (suc uid) ps in (moved, not (moved.errors == 0))
