-- ===== src/Config/Save.antt =====
-- config/config.go: `SetUserIncludeList`, `SetUserExcludeList`, `SaveToFile`, `updateConfigLines` and
-- `generateConfigLines`. The files are a record that a save changes, and an argument answers each
-- call of the file system.
pub mod RoundTrip
pub mod Files
pub mod Reload
pub mod Failure
use cpu_manager_go.Prelude.{
  ℕ, Bool, true, false, not, ◌&&◌, ◌||◌, Option, none, some, List, [], ◌∷◌, ◌++◌, if◌then◌else◌,
  is_empty, any,
}
use cpu_manager_go.Prelude.Text.{Bytes, text, split, trim_space, has_prefix}
use cpu_manager_go.Prelude.Text.Split.{join}
use cpu_manager_go.Config.Defs.{Config}
use cpu_manager_go.Config.Filter.{Compile}
use cpu_manager_go.Config.Load.{ReadResult, missing, unreadable, content, is_skipped}

abbrev pub include_key : Bytes
include_key = text "USER_INCLUDE_LIST="

abbrev pub exclude_key : Bytes
exclude_key = text "USER_EXCLUDE_LIST="

-- The flags `includeListWritten` and `excludeListWritten`, and the lines so far.
pub record Updated : Type 0 where
  pub include_written : Bool
  pub exclude_written : Bool
  pub lines : List Bytes

module _ (include_list exclude_list : List Bytes) where
  abbrev pub include_line : Bytes
  include_line = include_key ++ join b',' include_list

  abbrev pub exclude_line : Bytes
  exclude_line = exclude_key ++ join b',' exclude_list

  -- One round of the loop.
  unfoldable pub update_line : Bytes → Updated → Updated
  update_line line u =
      let trimmed = trim_space line in
      if is_skipped trimmed
      then record u { lines = u.lines ++ line ∷ [] }
      else if has_prefix trimmed include_key
      then record u { lines = u.lines ++ include_line ∷ []; include_written = true }
      else if has_prefix trimmed exclude_key
      then record u { lines = u.lines ++ exclude_line ∷ []; exclude_written = true }
      else record u { lines = u.lines ++ line ∷ [] }

  unfoldable pub update_lines : List Bytes → Updated → Updated
  update_lines [] u = u
  update_lines (line ∷ lines) u = update_lines lines (update_line line u)

  unfoldable pub add_missing : Updated → List Bytes
  add_missing u =
      u.lines
      ++ (if u.include_written then [] else include_line ∷ [])
      ++ (if u.exclude_written then [] else exclude_line ∷ [])

  -- `generateConfigLines`
  unfoldable pub generate_config_lines : List Bytes
  generate_config_lines = text "# CPU Manager Configuration" ∷ include_line ∷ exclude_line ∷ [] ∷ []

  -- `updateConfigLines`
  unfoldable pub update_config_lines : ReadResult → Option (List Bytes)
  update_config_lines missing = some generate_config_lines
  update_config_lines unreadable = none
  update_config_lines (content bytes) = some (
      add_missing (
        update_lines (split b'\n' bytes)
          (record { include_written = false; exclude_written = false; lines = [] })))

-- The files: the configuration, the last backup and the temporary file.
pub record Disk : Type 0 where
  pub file : ReadResult
  pub backup : Option Bytes
  pub temporary : Option Bytes

-- What the file system answers while a configuration is saved: whether `os.Stat` finds the file,
-- whether the backup, the temporary file and the renaming succeed, and what a write that fails leaves.
pub record Access : Type 0 where
  pub exists : Bool
  pub backup_written : Bool
  pub temporary_written : Bool
  pub renamed : Bool
  pub partial : Bytes

abbrev pub write_backup : Access → ReadResult → Disk → Disk × Bool
write_backup a missing disk = (disk, true)
write_backup a unreadable disk = (disk, true)
write_backup a (content bytes) disk =
    if a.backup_written
    then (record disk { backup = some bytes }, false)
    else (record disk { backup = some a.partial }, true)

-- The backup of a file that exists, and whether it fails.
unfoldable pub back_up : Access → Disk → Disk × Bool
back_up a disk = if a.exists then write_backup a disk.file disk else (disk, false)

-- The temporary file is written and renamed; it is removed where the renaming fails.
abbrev pub write_and_rename : Access → Option (List Bytes) → Disk → Disk × Bool
write_and_rename a none disk = (disk, true)
write_and_rename a (some lines) disk =
    if not a.temporary_written
    then (record disk { temporary = some a.partial }, true)
    else if a.renamed
    then (record disk { file = content (join b'\n' lines); temporary = none }, false)
    else (record disk { temporary = none }, true)

-- `SaveToFile`: the files after it, and whether it fails.
unfoldable pub save_to_file : {F : Type 0} → Config F → Access → Disk → Disk × Bool
save_to_file cfg a disk =
    let (saved, failed) = back_up a disk in
    if failed
    then (saved, true)
    else write_and_rename a
        (update_config_lines cfg.user_include_list cfg.user_exclude_list saved.file) saved

-- The configuration in memory, the files, and the previous list, or `none` for an error.
pub record Outcome (F : Type 0) : Type 0 where
  pub cfg : Config F
  pub disk : Disk
  pub previous : Option (List Bytes)

unfoldable pub all_compile : Compile → List Bytes → Bool
all_compile compile patterns =
    not (any (λ p. elim (compile p) [ none ↦ true | some re ↦ false ]) patterns)

abbrev pub keep_or_restore :
    {F : Type 0} → Config F → Config F → List Bytes → Disk × Bool → Outcome F
keep_or_restore old new previous (disk, true) = record { cfg = old; disk = disk; previous = none }
keep_or_restore old new previous (disk, false) = record {
  cfg = new;
  disk = disk;
  previous = some previous;
}

-- `SetUserIncludeList`
unfoldable pub set_user_include_list :
    {F : Type 0} → Compile → Access → List Bytes → Config F → Disk → Outcome F
set_user_include_list compile a patterns cfg disk =
    let new = record cfg { user_include_list = patterns } in
    if all_compile compile patterns
    then keep_or_restore (record new { user_include_list = cfg.user_include_list }) new
        cfg.user_include_list (save_to_file new a disk)
    else record { cfg = cfg; disk = disk; previous = none }

-- `SetUserExcludeList`
unfoldable pub set_user_exclude_list :
    {F : Type 0} → Compile → Access → List Bytes → Config F → Disk → Outcome F
set_user_exclude_list compile a patterns cfg disk =
    let new = record cfg { user_exclude_list = patterns } in
    if all_compile compile patterns
    then keep_or_restore (record new { user_exclude_list = cfg.user_exclude_list }) new
        cfg.user_exclude_list (save_to_file new a disk)
    else record { cfg = cfg; disk = disk; previous = none }
