-- ===== src/Cgroup/Memory.antt =====
-- cgroup/memory.go: the limits of RAM and what the kernel reports of them. An operation returns the
-- new state and whether it fails.
use cpu_manager_go.Prelude.{ℕ, Bool, Option, none, some, List, [], ◌∷◌, if◌then◌else◌}
use cpu_manager_go.Prelude.Text.{Bytes, text, split, fields, trim_space, has_prefix, parse_uint}
use cpu_manager_go.Cgroup.Files.{
  Access, Host, at, or_max, path_of, write_file, write_limit, write_tracked, read_tracked,
  unless_failed,
}

unfoldable pub apply_ram_limit : Access → ℕ → Bytes → Host → Host × Bool
apply_ram_limit a uid limit h = write_limit a (text "memory.max") (or_max limit) uid h

abbrev disable_swap : Access → ℕ → Host → Host × Bool
disable_swap a uid h = write_file a (at (path_of uid h) (text "memory.swap.max")) (text "0") h

unfoldable pub apply_ram_limit_with_swap_disabled : Access → ℕ → Bytes → Host → Host × Bool
apply_ram_limit_with_swap_disabled a uid limit h =
    unless_failed (apply_ram_limit a uid limit h) (disable_swap a uid)

unfoldable pub remove_ram_limit : Access → ℕ → Host → Host × Bool
remove_ram_limit a uid h = apply_ram_limit a uid (text "max") h

unfoldable pub apply_ram_high : Access → ℕ → Bytes → Host → Host × Bool
apply_ram_high a uid limit h = write_limit a (text "memory.high") (or_max limit) uid h

unfoldable pub apply_ram_limit_with_high : Access → ℕ → Bytes → Bytes → Host → Host × Bool
apply_ram_limit_with_high a uid max_limit high_limit h =
    unless_failed (apply_ram_high a uid high_limit h) (apply_ram_limit a uid max_limit)

unfoldable pub apply_ram_limit_with_high_and_swap_disabled :
    Access → ℕ → Bytes → Bytes → Host → Host × Bool
apply_ram_limit_with_high_and_swap_disabled a uid max_limit high_limit h =
    unless_failed (apply_ram_limit_with_high a uid max_limit high_limit h) (disable_swap a uid)

unfoldable pub remove_ram_high : Access → ℕ → Host → Host × Bool
remove_ram_high a uid h = write_tracked a (text "memory.high") (text "max") uid h

-- `GetCgroupRAMUsage`; `none` is an error.
unfoldable pub get_cgroup_ram_usage : Access → ℕ → Host → Option ℕ
get_cgroup_ram_usage a uid h = elim (read_tracked a (text "memory.current") uid h) [
  | none ↦ none
  | some s ↦ parse_uint (trim_space s)
]

abbrev second_of_two : Option ℕ → List Bytes → Option ℕ
second_of_two rest [] = rest
second_of_two rest (key ∷ []) = rest
second_of_two rest (key ∷ value ∷ []) = parse_uint value
second_of_two rest (key ∷ value ∷ more ∷ parts) = rest

-- The first line "high n", or 0.
unfoldable pub high_events : List Bytes → Option ℕ
high_events [] = some 0
high_events (line ∷ lines) =
    let rest = high_events lines in
    if has_prefix (trim_space line) (text "high ")
    then second_of_two rest (fields (trim_space line))
    else rest

-- `GetMemoryHighEvents`
unfoldable pub get_memory_high_events : Access → ℕ → Host → Option ℕ
get_memory_high_events a uid h = elim (read_tracked a (text "memory.events") uid h) [
  | none ↦ none
  | some s ↦ high_events (split b'\n' s)
]
