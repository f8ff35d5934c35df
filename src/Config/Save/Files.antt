-- ===== src/Config/Save/Files.antt =====
-- What `SaveToFile` does to the files.
use mathlib.Core.Path.{subst}
use mathlib.Core.Option.{some-injective}
use cpu_manager_go.Prelude.{
  true, false, ◌≡◌, ◌⊎◌, refl, sym, ap, ◌∙◌, Option, none, some, List, arith, Bool-cases, inl, inr,
}
use cpu_manager_go.Prelude.Text.{Bytes}
use cpu_manager_go.Prelude.Text.Split.{join}
use cpu_manager_go.Config.Defs.{Config}
use cpu_manager_go.Config.Load.{ReadResult, missing, unreadable, content}
use cpu_manager_go.Config.Save.{
  update_config_lines, Disk, Access, write_backup, back_up, write_and_rename, save_to_file,
}

-- The file as it was, or with the lines; then a file that existed has a backup.
abbrev pub IsBackedUp : Access → Disk → Disk → Type 0
IsBackedUp a before after =
    (a.exists ≡ false)
    ⊎ ((bytes : Bytes) × (before.file ≡ content bytes) × (after.backup ≡ some bytes))

module _ (a : Access) where
  write_backup-file : (f : ReadResult) (disk : Disk) → (write_backup a f disk).0.file ≡ disk.file
  write_backup-file missing disk = refl
  write_backup-file unreadable disk = refl
  write_backup-file (content bytes) disk = ground arith

  write_backup-backup :
      (f : ReadResult) (disk : Disk)
      → (write_backup a f disk).1 ≡ false
      → (bytes : Bytes) × (f ≡ content bytes) × ((write_backup a f disk).0.backup ≡ some bytes)
  write_backup-backup missing disk h = absurd (ground arith)
  write_backup-backup unreadable disk h = absurd (ground arith)
  write_backup-backup (content bytes) disk h = (bytes, refl, ground arith)

  back_up-file : (disk : Disk) → (back_up a disk).0.file ≡ disk.file
  unfolding back_up
  back_up-file disk = elim (Bool-cases a.exists) [
    | inl e ↦ rw e (write_backup-file disk.file disk)
    | inr e ↦ rw e refl
  ]

  back_up-IsBackedUp :
      (disk : Disk) → (back_up a disk).1 ≡ false → IsBackedUp a disk (back_up a disk).0
  unfolding back_up
  back_up-IsBackedUp disk h = elim (Bool-cases a.exists) [
    | inl e ↦
        let k : (write_backup a disk.file disk).1 ≡ false = ground arith in
        rw e (inr (write_backup-backup disk.file disk k))
    | inr e ↦ inl e
  ]

  write_and_rename-cases :
      (o : Option (List Bytes)) (disk : Disk)
      → let r = write_and_rename a o disk in
        ((r.1 ≡ true) × (r.0.file ≡ disk.file))
        ⊎ ((lines : List Bytes) × (o ≡ some lines)
            × (r ≡ (record disk { file = content (join b'\n' lines); temporary = none }, false)))
  write_and_rename-cases none disk = inl (refl, refl)
  write_and_rename-cases (some lines) disk = elim (Bool-cases a.temporary_written) [
    | inr e ↦ inl (ground arith)
    | inl e ↦ elim (Bool-cases a.renamed) [
      | inl f ↦ inr (lines, refl, ground arith)
      | inr f ↦ inl (ground arith)
    ]
  ]

  -- Either the save fails and the file is as before, or the file has the new lines, there is no
  -- temporary file, and the old text is in the backup.
  pub save_to_file-cases :
      {F : Type 0} (cfg : Config F) (disk : Disk)
      → let r = save_to_file cfg a disk in
        ((r.1 ≡ true) × (r.0.file ≡ disk.file))
        ⊎ ((lines : List Bytes) × (r.1 ≡ false)
            × (update_config_lines cfg.user_include_list cfg.user_exclude_list disk.file
                ≡ some lines)
            × (r.0.file ≡ content (join b'\n' lines))
            × (r.0.temporary ≡ none)
            × IsBackedUp a disk r.0)
  unfolding save_to_file
  save_to_file-cases cfg disk =
      let (saved, failed) = back_up a disk in
      let kept = back_up-file disk in
      let o = update_config_lines cfg.user_include_list cfg.user_exclude_list saved.file in
      elim (Bool-cases failed) [
        | inl e ↦ rw e (inl (refl, kept))
        | inr e ↦
            let backed = back_up-IsBackedUp disk e in
            elim (write_and_rename-cases o saved) [
              | inl bad ↦ rw e (inl (bad.0, bad.1 ∙ kept))
              | inr (lines, found, done) ↦
                  let updated : update_config_lines cfg.user_include_list cfg.user_exclude_list
                        disk.file
                      ≡ some lines =
                    subst
                      (λ f.
                        update_config_lines cfg.user_include_list cfg.user_exclude_list f
                        ≡ some lines)
                      kept found in
                  rw (e, done) (inr (lines, refl, updated, refl, refl, backed))
            ]
      ]

-- What a save that does not fail leaves in the file.
pub saved-file :
    {F : Type 0} (cfg : Config F) (a : Access) (disk : Disk) (lines : List Bytes)
    → update_config_lines cfg.user_include_list cfg.user_exclude_list disk.file ≡ some lines
    → (save_to_file cfg a disk).1 ≡ false
    → (save_to_file cfg a disk).0.file ≡ content (join b'\n' lines)
saved-file cfg a disk lines u s = elim (save_to_file-cases a cfg disk) [
  | inl bad ↦ absurd (ground (arith, bad.0))
  | inr (found, fine, updated, written, clean, backed) ↦
      written ∙ ap (λ l. content (join b'\n' l)) (some-injective _ _ (sym updated ∙ u))
]
