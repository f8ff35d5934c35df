-- ===== src/Cgroup/Shared.antt =====
-- cgroup/shared.go: the cgroup that limited users share. gopsutil's processes are a list.
use cpu_manager_go.Prelude.{
  ℕ, ℤ, Bool, true, false, not, ◌&&◌, ◌||◌, ◌==◌, Option, none, some, List, [], ◌∷◌, if◌then◌else◌,
  is_empty, suc,
}
use cpu_manager_go.Prelude.Text.{Bytes, text, trim_space, has_prefix, atoi, format_uint, format_int}
use cpu_manager_go.Prelude.Text.Split.{join}
use cpu_manager_go.Config.Defs.{Config}
use cpu_manager_go.Config.Filter.{Compile, is_process_excluded}
use cpu_manager_go.Cgroup.Tracking.{lines_of}
use cpu_manager_go.Cgroup.Processes.{ProcessInfo, belongs, get_process_name}
use cpu_manager_go.Cgroup.Cpu.{is_valid_cpu_quota_format}
use cpu_manager_go.Cgroup.Files.{
  Access, Host, at, user_name, write_file, unless_failed, with_directory, without_directory,
}

unfoldable pub apply_shared_cpu_limit : Access → Bytes → Bytes → Host → Host × Bool
apply_shared_cpu_limit a shared quota h =
    if is_valid_cpu_quota_format quota
    then write_file a (at shared (text "cpu.max")) quota h
    else (h, true)

-- `CreateUserSubCgroup`: that the weight cannot be written is only logged.
unfoldable pub create_user_sub_cgroup : Access → ℕ → Bytes → Host → Host × Bool
create_user_sub_cgroup a uid shared h =
    let path = at shared (user_name uid) in
    if a.makes path
    then (
      (write_file a (at path (text "cpu.weight")) (text "100") (with_directory path h)).0,
      false,
    )
    else (h, true)

unfoldable pub move_process_to_shared_cgroup : Access → ℕ → Bytes → ℕ → Host → Host × Bool
move_process_to_shared_cgroup a pid shared uid h =
    let path = at shared (user_name uid) in
    unless_failed (if h.present path then (h, false) else create_user_sub_cgroup a uid shared h)
      (write_file a (at path (text "cgroup.procs")) (format_uint pid))

abbrev count_error : Host × Bool → ℕ → Host × ℕ
count_error (h, true) n = (h, suc n)
count_error (h, false) n = (h, n)

module _ {F : Type 0} (compile : Compile) (cfg : Config F) (a : Access) where
  -- The loop of `MoveAllUserProcessesToSharedCgroup`, with the number of errors so far.
  unfoldable pub move_all_shared : ℕ → Bytes → List ProcessInfo → Host × ℕ → Host × ℕ
  move_all_shared uid shared [] s = s
  move_all_shared uid shared (p ∷ ps) s =
      let next = count_error (move_process_to_shared_cgroup a p.pid shared uid s.0) s.1 in
      move_all_shared uid shared ps (
        if belongs uid p.uid && not (is_process_excluded compile cfg (get_process_name p))
        then next
        else s)

  unfoldable pub move_all_user_processes_to_shared_cgroup :
      ℕ → Bytes → List ProcessInfo → Host → Host × Bool
  move_all_user_processes_to_shared_cgroup uid shared ps h =
      let (g, errors) = move_all_shared uid shared ps (h, 0) in (g, not (errors == 0))

-- `readPidsFromFile`, past the reading.
unfoldable pub read_pids : List Bytes → List ℤ
read_pids [] = []
read_pids (line ∷ lines) =
    let rest = read_pids lines in
    if is_empty (trim_space line)
    then rest
    else elim (atoi (trim_space line)) [ none ↦ rest | some pid ↦ pid ∷ rest ]

unfoldable pub print_pids : List ℤ → List Bytes
print_pids [] = []
print_pids (pid ∷ pids) = format_int pid ∷ print_pids pids

-- `writePidsBatch`: the pids in one write.
unfoldable pub write_pids_batch : Access → Bytes → List ℤ → Host → Host × Bool
write_pids_batch a path [] h = (h, false)
write_pids_batch a path (pid ∷ pids) h = write_file a path (join b'\n' (print_pids (pid ∷ pids))) h

-- `ReleaseUserFromSharedCgroup`: the processes go to the root, and the directory is removed.
unfoldable pub release_user_from_shared_cgroup : Access → ℕ → Bytes → Host → Host × Bool
release_user_from_shared_cgroup a uid shared h =
    let path = at shared (user_name uid) in
    if not (h.present path) then (h, false) else elim (a.read (at path (text "cgroup.procs"))) [
      | none ↦ (h, true)
      | some s ↦
          unless_failed
            (write_pids_batch a (at a.root_path (text "cgroup.procs")) (read_pids (lines_of s)) h)
            (λ g. if a.removes path then (without_directory path g, false) else (g, true))
    ]

-- `strings.Contains`
unfoldable pub has_text : Bytes → Bytes → Bool
has_text part [] = is_empty part
has_text part (c ∷ s) = has_prefix (c ∷ s) part || has_text part s

-- `writeControllerIfMissing`, where the file that cannot be read is an error.
unfoldable pub write_controller_if_missing : Access → Bytes → Bytes → Host → Host × Bool
write_controller_if_missing a path name h = elim (a.read path) [
  | none ↦ (h, true)
  | some s ↦ if has_text name s then (h, false) else write_file a path (b'+' ∷ name) h
]

-- The processes are moved to the root one by one; a failure is only logged.
unfoldable pub move_pids : Access → Bytes → List ℤ → Host → Host
move_pids a path [] h = h
move_pids a path (pid ∷ pids) h = move_pids a path pids (write_file a path (format_int pid) h).0

abbrev pids_in : Option Bytes → List ℤ
pids_in none = []
pids_in (some s) = read_pids (lines_of s)

-- A shared cgroup that is there is emptied and removed, if it can be.
unfoldable pub drop_shared : Access → Bytes → Host → Host
drop_shared a shared h =
    let pids = pids_in (a.read (at shared (text "cgroup.procs"))) in
    let g = move_pids a (at a.root_path (text "cgroup.procs")) pids h in
    if not (h.present shared) then h else if a.removes shared then without_directory shared g else g

abbrev enable : Access → Bytes → Bytes → Host → Host
enable a shared name h =
    (write_controller_if_missing a (at shared (text "cgroup.subtree_control")) name h).0

abbrev offers : Bytes → Option Bytes → Bool
offers name none = false
offers name (some s) = has_text name s

-- The controllers are enabled, io and memory where the cgroup has them; a failure is only logged.
unfoldable pub enable_controllers : Access → Bytes → Host → Host
enable_controllers a shared h =
    let offered = a.read (at shared (text "cgroup.controllers")) in
    let cpus = enable a shared (text "cpuset") (enable a shared (text "cpu") h) in
    let ios = if offers (text "io") offered then enable a shared (text "io") cpus else cpus in
    if offers (text "memory") offered then enable a shared (text "memory") ios else ios

-- `CreateSharedCgroup`: the path, or `none` on an error.
unfoldable pub create_shared_cgroup : Access → Host → Host × Option Bytes
create_shared_cgroup a h =
    let shared = at a.base_path (text "limited") in
    let g = drop_shared a shared h in
    if a.makes shared
    then (enable_controllers a shared (with_directory shared g), some shared)
    else (g, none)
