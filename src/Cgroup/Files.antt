-- ===== src/Cgroup/Files.antt =====
-- The files of the cgroups, as the package cgroup writes them: the manager's tracking, the writes so
-- far, the last one first, and the directories that are there. Whether a call of the file system succeeds is asked of an `Access`.
use cpu_manager_go.Prelude.{
  ℕ, Bool, true, false, not, ◌&&◌, ◌||◌, Option, none, some, List, [], ◌∷◌, ◌++◌, if◌then◌else◌,
}
use cpu_manager_go.Prelude.Text.{Bytes, text, same, format_uint}
use cpu_manager_go.Cgroup.Tracking.{Tracking, get_cgroup_path, create_user_cgroup}

-- The paths, what can be made, written, removed and read, and whether the tracking file
-- can be written.
pub record Access : Type 0 where
  pub base_path : Bytes
  pub root_path : Bytes
  pub makes : Bytes → Bool
  pub writes : Bytes → Bool
  pub removes : Bytes → Bool
  pub saves : Bool
  pub read : Bytes → Option Bytes

pub record Host : Type 0 where
  pub tracking : Tracking
  pub written : List (Bytes × Bytes)
  pub present : Bytes → Bool

-- `filepath.Join` of a clean path and a name.
abbrev pub at : Bytes → Bytes → Bytes
at path name = path ++ b'/' ∷ name

-- `fmt.Sprintf("user_%d", uid)`
abbrev pub user_name : ℕ → Bytes
user_name uid = text "user_" ++ format_uint uid

-- `getUserCgroupPath`
unfoldable pub get_user_cgroup_path : Access → ℕ → Bytes
get_user_cgroup_path a uid = at a.base_path (user_name uid)

-- `os.WriteFile`, and whether it fails.
unfoldable pub write_file : Access → Bytes → Bytes → Host → Host × Bool
write_file a path content h =
    if a.writes path then (record h { written = (path, content) ∷ h.written }, false) else (h, true)

-- `os.MkdirAll` where it succeeds, and `os.Remove`.
abbrev pub with_directory : Bytes → Host → Host
with_directory path h = record h { present = λ p. same p path || h.present p }

abbrev pub without_directory : Bytes → Host → Host
without_directory path h = record h { present = λ p. not (same p path) && h.present p }

abbrev is_some : Option Bytes → Bool
is_some none = false
is_some (some s) = true

-- `CreateUserCgroup`, and whether it fails. A user that is tracked has no directory made.
unfoldable pub create : Access → ℕ → Host → Host × Bool
create a uid h =
    let path = get_user_cgroup_path a uid in
    let (tracking, failed) = create_user_cgroup (a.makes path) a.saves path uid h.tracking in
    let kept = is_some (get_cgroup_path uid h.tracking) || not (a.makes path) in
    let g = if kept then h else with_directory path h in (record g { tracking = tracking }, failed)

-- The path that is tracked; "" where there is none.
unfoldable pub path_of : ℕ → Host → Bytes
path_of uid h = elim (get_cgroup_path uid h.tracking) [ none ↦ [] | some path ↦ path ]

-- The start of the operations that apply a limit: the cgroup is created unless it is tracked.
unfoldable pub ensure_cgroup : Access → ℕ → Host → Host × Bool
ensure_cgroup a uid h = elim (get_cgroup_path uid h.tracking) [
  | some path ↦ (h, false)
  | none ↦ create a uid h
]

abbrev pub unless_failed : Host × Bool → (Host → Host × Bool) → Host × Bool
unless_failed (h, true) next = (h, true)
unless_failed (h, false) next = next h

-- The cgroup of a user is ensured, and one of its files is written.
unfoldable pub write_limit : Access → Bytes → Bytes → ℕ → Host → Host × Bool
write_limit a name content uid h =
    unless_failed (ensure_cgroup a uid h) (λ g. write_file a (at (path_of uid g) name) content g)

-- A file of a cgroup that must be tracked.
unfoldable pub write_tracked : Access → Bytes → Bytes → ℕ → Host → Host × Bool
write_tracked a name content uid h = elim (get_cgroup_path uid h.tracking) [
  | none ↦ (h, true)
  | some path ↦ write_file a (at path name) content h
]

-- The text of a file of a cgroup that must be tracked.
unfoldable pub read_tracked : Access → Bytes → ℕ → Host → Option Bytes
read_tracked a name uid h = elim (get_cgroup_path uid h.tracking) [
  | none ↦ none
  | some path ↦ a.read (at path name)
]

-- "max" stands for a limit that is empty or "0".
abbrev pub or_max : Bytes → Bytes
or_max [] = text "max"
or_max (c ∷ s) = if same (c ∷ s) (text "0") then text "max" else c ∷ s
