-- ===== src/Config/Save/Reload.antt =====
-- A saved file, loaded again.
use mathlib.Core.Path.{subst}
use mathlib.Core.List.{append-nil, append_assoc}
use cpu_manager_go.Prelude.{false, ◌≡◌, sym, ap, ◌∙◌, Option, some, List, [], ◌∷◌, ◌++◌, arith}
use cpu_manager_go.Prelude.Text.{Bytes, split, trim_space, has_prefix}
use cpu_manager_go.Prelude.Text.Split.{
  AllBytes, AllTexts, AllBytes-append, AllBytes-weaken, AllTexts-append, other_than, split-join,
  split-AllTexts, join,
}
use cpu_manager_go.Config.Defs.{Config}
use cpu_manager_go.Config.Filter.{Compile}
use cpu_manager_go.Config.Handlers.Sound.{AllCompile}
use cpu_manager_go.Config.Load.{load_lines, content, load_from_file}
use cpu_manager_go.Config.Save.{
  include_key, exclude_key, include_line, exclude_line, Updated, update_line, update_lines,
  add_missing, update_config_lines, Disk, Access, save_to_file,
}
use cpu_manager_go.Config.Save.Files.{saved-file}
use cpu_manager_go.Config.Save.RoundTrip.{
  clean, ArePatterns, join-clean, load_include_line, load_exclude_line, load_lines-append,
}

-- No line sets one of the two lists.
unfoldable pub AllUnwritten : List Bytes → Type 0
AllUnwritten [] = Unit {0}
AllUnwritten (line ∷ lines) =
    (has_prefix (trim_space line) include_key ≡ false)
    × (has_prefix (trim_space line) exclude_key ≡ false)
    × AllUnwritten lines

module _ (ps qs : List Bytes) where
  update_lines-eq :
      (lines : List Bytes) (u : Updated)
      → AllUnwritten lines
      → update_lines ps qs lines u ≡ record u { lines = u.lines ++ lines }
  unfolding update_lines update_line AllUnwritten
  update_lines-eq [] u h = ap (λ l. record u { lines = l }) (sym (append-nil u.lines))
  update_lines-eq (line ∷ lines) u h =
      let next = record u { lines = u.lines ++ line ∷ [] } in
      let one : update_line ps qs line u ≡ next = ground arith in
      ap (update_lines ps qs lines) one
      ∙ update_lines-eq lines next h.2
      ∙ ap (λ l. record u { lines = l }) (append_assoc u.lines (line ∷ []) lines)

  update_config_lines-eq :
      (bytes : Bytes)
      → AllUnwritten (split b'\n' bytes)
      → update_config_lines ps qs (content bytes)
        ≡ some (split b'\n' bytes ++ include_line ps qs ∷ exclude_line ps qs ∷ [])
  unfolding update_config_lines add_missing
  update_config_lines-eq bytes h =
      ap (λ u. some (add_missing ps qs u)) (update_lines-eq _ _ h)
      ∙ ap some
          (append_assoc (split b'\n' bytes) (include_line ps qs ∷ []) (exclude_line ps qs ∷ []))

  include_line-clean : ArePatterns ps → AllBytes clean (include_line ps qs)
  include_line-clean h =
      let key : AllBytes clean include_key = unfold AllBytes in ground arith in
      AllBytes-append clean include_key (join b',' ps) key (join-clean ps h)

  exclude_line-clean : ArePatterns qs → AllBytes clean (exclude_line ps qs)
  exclude_line-clean h =
      let key : AllBytes clean exclude_key = unfold AllBytes in ground arith in
      AllBytes-append clean exclude_key (join b',' qs) key (join-clean qs h)

  no_newline : (s : Bytes) → AllBytes clean s → AllBytes (other_than b'\n') s
  no_newline s h = AllBytes-weaken clean (other_than b'\n') s (λ c k. ground arith) h

  -- The lines of the saved text are those that were joined.
  split-saved :
      (bytes : Bytes)
      → ArePatterns ps
      → ArePatterns qs
      → split b'\n' (join b'\n' (split b'\n' bytes ++ include_line ps qs ∷ exclude_line ps qs ∷ []))
        ≡ split b'\n' bytes ++ include_line ps qs ∷ exclude_line ps qs ∷ []
  unfolding AllTexts
  split-saved bytes h k = split-join b'\n' _ _ (
      AllTexts-append (other_than b'\n') (split b'\n' bytes) _ (split-AllTexts b'\n' bytes)
        (no_newline _ (include_line-clean h), (no_newline _ (exclude_line-clean k), tt)))

module _ {F : Type 0} (parse_float : Bytes → Option F) (compile : Compile) where
  abbrev with_lists : Config F → List Bytes → List Bytes → Config F
  with_lists c ps qs = record c { user_include_list = ps; user_exclude_list = qs }

  load_lists :
      (ps qs : List Bytes) (c : Config F)
      → ArePatterns ps
      → ArePatterns qs
      → AllCompile compile ps
      → AllCompile compile qs
      → load_lines parse_float compile (include_line ps qs ∷ exclude_line ps qs ∷ []) c
        ≡ some (with_lists c ps qs)
  unfolding load_lines
  load_lists ps qs c h k a b =
      let one = load_include_line parse_float compile ps qs c h a in
      let two =
        load_exclude_line parse_float compile ps qs (record c { user_include_list = ps }) k b in
      ground (arith, one, two)

  -- A file that could be loaded, and in which no line sets the include or the exclude list of the
  -- users, is saved with both lists of a configuration: where `SaveToFile` does not fail, loading the
  -- file that it leaves gives what loading the old one gave, with the two lists of that configuration. Their patterns are not empty, have no
  -- blank, comma, quote or `#`, and compile.
  pub load-save_to_file :
      (cfg c loaded : Config F) (a : Access) (disk : Disk) (bytes : Bytes)
      → disk.file ≡ content bytes
      → AllUnwritten (split b'\n' bytes)
      → ArePatterns cfg.user_include_list
      → ArePatterns cfg.user_exclude_list
      → AllCompile compile cfg.user_include_list
      → AllCompile compile cfg.user_exclude_list
      → load_from_file parse_float compile (content bytes) c ≡ some loaded
      → (save_to_file cfg a disk).1 ≡ false
      → load_from_file parse_float compile (save_to_file cfg a disk).0.file c
        ≡ some (record loaded {
          user_include_list = cfg.user_include_list;
          user_exclude_list = cfg.user_exclude_list;
        })
  unfolding load_from_file
  load-save_to_file cfg c loaded access disk bytes file u h k a b e s =
      let ps = cfg.user_include_list in
      let qs = cfg.user_exclude_list in
      let lines = split b'\n' bytes ++ include_line ps qs ∷ exclude_line ps qs ∷ [] in
      let updated : update_config_lines ps qs disk.file ≡ some lines =
        subst (λ f. update_config_lines ps qs f ≡ some lines) (sym file)
          (update_config_lines-eq ps qs bytes u) in
      let written = saved-file cfg access disk lines updated s in
      subst (λ f. load_from_file parse_float compile f c ≡ some (with_lists loaded ps qs))
        (sym written)
        (ap (λ l. load_lines parse_float compile l c) (split-saved ps qs bytes h k)
          ∙ load_lines-append parse_float compile (split b'\n' bytes) _ c loaded e
          ∙ load_lists ps qs loaded h k a b)
