-- ===== src/Cgroup/Tracking.antt =====
-- cgroup/storage.go and cgroup/cleanup.go: the cgroups that the manager has created, and the file
-- that tracks them. The file is its text, or `none` if there is none; calls of the file system that
-- may fail are answered by an argument. `bufio.Scanner` yields the lines without their ends.
pub mod Entries
use mathlib.Core.Option
use cpu_manager_go.Prelude.{
  ℕ, ℤ, pos, leb_ℤ, Bool, true, false, not, ◌&&◌, ◌||◌, ◌==◌, Option, none, some, List, [], ◌∷◌,
  ◌++◌, if◌then◌else◌, is_empty,
}
use cpu_manager_go.Prelude.Dict.{Dict, lookup, put, delete, keys}
use cpu_manager_go.Prelude.Text.{Bytes, text, split, atoi, format_uint, has_prefix, trim_space}
use cpu_manager_go.Prelude.Text.Split.{join}

-- `createdCgroups` and the tracking file.
pub record Tracking : Type 0 where
  pub created : Dict Bytes
  pub file : Option Bytes

-- A line without the `\r` that ends it.
unfoldable pub drop_return : Bytes → Bytes
drop_return [] = []
drop_return (c ∷ []) = if c == b'\r' then [] else c ∷ []
drop_return (c ∷ d ∷ s) = c ∷ drop_return (d ∷ s)

unfoldable pub scan_lines : List Bytes → List Bytes
scan_lines [] = []
scan_lines (line ∷ lines) = drop_return line ∷ scan_lines lines

-- The lines of a text. A last line that is empty is no line for the scanner; every loop skips it.
unfoldable pub lines_of : Bytes → List Bytes
unfolding scan_lines drop_return
lines_of s = scan_lines (split b'\n' s)

-- `fmt.Sprintf("%d:%s\n", uid, path)`, without its end.
unfoldable pub entry : ℕ → Bytes → Bytes
entry uid path = format_uint uid ++ b':' ∷ path

-- `saveCgroupToFile`: the file is created, or appended to.
unfoldable pub save_cgroup_to_file : ℕ → Bytes → Option Bytes → Option Bytes
save_cgroup_to_file uid path none = some (entry uid path ++ b'\n' ∷ [])
save_cgroup_to_file uid path (some s) = some (s ++ entry uid path ++ b'\n' ∷ [])

-- The first part of `strings.SplitN(line, ":", 2)`, and the second if there is one.
unfoldable pub split_entry : Bytes → Bytes × Option Bytes
split_entry [] = ([], none)
split_entry (c ∷ s) =
    let (first, second) = split_entry s in if c == b':' then ([], some s) else (c ∷ first, second)

-- The line names the user.
abbrev pub is_uid : ℕ → Option ℤ → Bool
is_uid uid none = false
is_uid uid (some n) = leb_ℤ n (pos uid) && leb_ℤ (pos uid) n

-- The lines that `removeCgroupFromFile` keeps.
unfoldable pub other_lines : ℕ → List Bytes → List Bytes
other_lines uid [] = []
other_lines uid (line ∷ lines) =
    let rest = other_lines uid lines in
    if is_empty line || is_uid uid (atoi (split_entry line).0) then rest else line ∷ rest

-- `removeCgroupFromFile`
unfoldable pub remove_cgroup_from_file : ℕ → Option Bytes → Option Bytes
remove_cgroup_from_file uid none = none
remove_cgroup_from_file uid (some s) =
    some (join b'\n' (other_lines uid (lines_of s)) ++ b'\n' ∷ [])

-- The uid and the path of a line; negative uids, which no user has, are left out.
abbrev pub uid_of : Option ℤ → Option ℕ
uid_of none = none
uid_of (some (pos n)) = some n
uid_of (some _) = none

abbrev pub pair_of : Option ℕ → Option Bytes → Option (ℕ × Bytes)
pair_of none path = none
pair_of (some uid) none = none
pair_of (some uid) (some path) = some (uid, path)

unfoldable pub read_entry : Bytes → Option (ℕ × Bytes)
read_entry line = pair_of (uid_of (atoi (split_entry line).0)) (split_entry line).1

abbrev pub add_entry : (Bytes → Bool) → Option (ℕ × Bytes) → Dict Bytes → Dict Bytes
add_entry exists none d = d
add_entry exists (some (uid, path)) d = if exists path then put uid path d else d

-- `loadExistingCgroups`: the loop over the lines; `exists` is `os.Stat` of a path.
unfoldable pub load_entries : (Bytes → Bool) → List Bytes → Dict Bytes → Dict Bytes
load_entries exists [] d = d
load_entries exists (line ∷ lines) d =
    load_entries exists lines (if is_empty line then d else add_entry exists (read_entry line) d)

unfoldable pub load_existing_cgroups : (Bytes → Bool) → Tracking → Tracking
load_existing_cgroups exists t = elim t.file [
  | none ↦ t
  | some s ↦ record t { created = load_entries exists (lines_of s) t.created }
]

-- `getCgroupPath` and `GetCreatedCgroups`
unfoldable pub get_cgroup_path : ℕ → Tracking → Option Bytes
get_cgroup_path uid t = lookup uid t.created

unfoldable pub get_created_cgroups : Tracking → List ℕ
get_created_cgroups t = keys t.created

-- `CreateUserCgroup`, where the directory is made (or not) and the file is written (or not).
unfoldable pub create_user_cgroup : Bool → Bool → Bytes → ℕ → Tracking → Tracking × Bool
create_user_cgroup made written path uid t = elim (lookup uid t.created) [
  | some old ↦ (t, false)
  | none ↦
      if made
      then (
        record {
          created = put uid path t.created;
          file = if written then save_cgroup_to_file uid path t.file else t.file;
        },
        false,
      )
      else (t, true)
]

abbrev forget : ℕ → Bool → Tracking → Tracking
forget uid written t = record {
  created = delete uid t.created;
  file = if written then remove_cgroup_from_file uid t.file else t.file;
}

-- `CleanupUserCgroup`, and whether it fails: the directory of a user that is not tracked may be
-- missing, and one that is there is removed at the first or the second try, or not.
unfoldable pub cleanup_user_cgroup : Bool → Bool → Bool → ℕ → Tracking → Tracking × Bool
cleanup_user_cgroup present removed written uid t = elim (lookup uid t.created) [
  | none ↦
      if not present
      then (t, false)
      else if removed
      then (forget uid written t, false)
      else (t, true)
  | some path ↦ if removed then (forget uid written t, false) else (t, true)
]
