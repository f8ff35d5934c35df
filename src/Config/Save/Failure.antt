-- ===== src/Config/Save/Failure.antt =====
-- The lists of the users in memory and on disk.
use cpu_manager_go.Prelude.{
  true, refl, ◌≡◌, ◌⊎◌, none, some, List, [], ◌∷◌, arith, Bool-cases, Option-cases, inl, inr,
}
use cpu_manager_go.Prelude.Text.{Bytes}
use cpu_manager_go.Config.Defs.{Config}
use cpu_manager_go.Config.Filter.{Compile}
use cpu_manager_go.Config.Handlers.Sound.{AllCompile, compiles}
use cpu_manager_go.Config.Load.{content}
use cpu_manager_go.Config.Save.{
  Disk, Access, Outcome, all_compile, update_config_lines, set_user_include_list,
}
use cpu_manager_go.Config.Save.Files.{IsBackedUp, save_to_file-cases}
use cpu_manager_go.Prelude.Text.Split.{join}

pub all_compile-AllCompile :
    (compile : Compile) (ps : List Bytes) → all_compile compile ps ≡ true → AllCompile compile ps
unfolding all_compile AllCompile compiles
all_compile-AllCompile compile [] h = tt
all_compile-AllCompile compile (p ∷ ps) h = elim (Option-cases (compile p)) [
  | inl n ↦ ground arith
  | inr (re, n) ↦ ground (arith, all_compile-AllCompile compile ps)
]

-- The change has been made: all patterns compile, the configuration has them and nothing else new, and
-- the file holds the lines that `updateConfigLines` makes of it, with the old text in the backup.
pub record IsCommitted {F : Type 0} (compile : Compile) (a : Access) (patterns : List Bytes)
    (cfg : Config F) (disk : Disk) (o : Outcome F) : Type 0 where
  pub lines : List Bytes
  pub compiled : AllCompile compile patterns
  pub memory : o.cfg ≡ record cfg { user_include_list = patterns }
  pub updated : update_config_lines patterns cfg.user_exclude_list disk.file ≡ some lines
  pub written : o.disk.file ≡ content (join b'\n' lines)
  pub cleaned : o.disk.temporary ≡ none
  pub backed_up : IsBackedUp a disk o.disk

module _ {F : Type 0} (compile : Compile) (a : Access) (patterns : List Bytes)
    (cfg : Config F) where
  -- `SetUserIncludeList` either returns an error, and then leaves the configuration in memory and the
  -- file as they were, whichever call of the file system has failed, or it returns the previous list,
  -- and then all patterns compile, the configuration differs in the include list only, the file
  -- holds what `updateConfigLines` makes of it, no temporary file is left, and a file that existed has
  -- its old text in the backup.
  pub set_user_include_list-atomic :
      (disk : Disk)
      → let o = set_user_include_list compile a patterns cfg disk in
        ((o.previous ≡ none) × (o.cfg ≡ cfg) × (o.disk.file ≡ disk.file))
        ⊎ ((o.previous ≡ some cfg.user_include_list) × IsCommitted compile a patterns cfg disk o)
  unfolding set_user_include_list
  set_user_include_list-atomic disk =
      let new = record cfg { user_include_list = patterns } in
      elim (Bool-cases (all_compile compile patterns)) [
        | inl c ↦ elim (save_to_file-cases a new disk) [
          | inl (failed, kept) ↦ rw (c, failed) (inl (refl, refl, kept))
          | inr (lines, fine, updated, written, cleaned, backed) ↦
              rw (c, fine)
                (inr (
                  refl,
                  record {
                    lines = lines;
                    compiled = all_compile-AllCompile compile patterns c;
                    memory = refl;
                    updated = updated;
                    written = written;
                    cleaned = cleaned;
                    backed_up = backed;
                  },
                ))
        ]
        | inr c ↦ rw c (inl (refl, refl, refl))
      ]
