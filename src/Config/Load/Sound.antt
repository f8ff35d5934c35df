-- ===== src/Config/Load/Sound.antt =====
-- What a loaded configuration promises.
use mathlib.Core.Path.{subst}
use cpu_manager_go.Prelude.{
  ℤ, Bool, true, ◌≡◌, refl, Option, none, some, List, [], ◌∷◌, arith, is_empty, Bool-cases,
  Option-cases, inl, inr,
}
use cpu_manager_go.Prelude.Floats.{Floats}
use cpu_manager_go.Prelude.Text.{Bytes, trim_space, split}
use cpu_manager_go.Config.Defs.{Config, default_config}
use cpu_manager_go.Config.Filter.{Compile}
use cpu_manager_go.Config.Handlers.Sound.{IsSound, Fine}
use cpu_manager_go.Config.Handlers.Table.{set_config_field-Fine}
use cpu_manager_go.Config.Environment.{load_from_environment}
use cpu_manager_go.Config.Validate.{validate_config}
use cpu_manager_go.State.Decision.Hysteresis.{IsHysteretic}
use cpu_manager_go.Config.Validate.Accepted.{validate_config-IsHysteretic}
use cpu_manager_go.Config.Load.{
  ReadResult, missing, unreadable, content, split_pair, clean_value, is_skipped, set_pair,
  load_line, load_lines, load_from_file, load_and_validate,
}

module _ (F : Type 0) (parse_float : Bytes → Option F) (compile : Compile) where
  set_pair-Fine :
      (c : Config F) (pair : Option (Bytes × Bytes))
      → IsSound F compile c
      → Fine F compile (set_pair parse_float compile c pair)
  unfolding set_pair Fine
  set_pair-Fine c none h = tt
  set_pair-Fine c (some (key, value)) h =
      set_config_field-Fine F parse_float compile c (trim_space key) (clean_value value) h

  load_line-Fine :
      (c : Config F) (raw : Bytes)
      → IsSound F compile c
      → Fine F compile (load_line parse_float compile c raw)
  unfolding load_line Fine
  load_line-Fine c raw h = elim (Bool-cases (is_skipped (trim_space raw))) [
    | inl e ↦ rw e h
    | inr e ↦ rw e (set_pair-Fine c (split_pair (trim_space raw)) h)
  ]

  load_lines-Fine :
      (lines : List Bytes) (c : Config F)
      → IsSound F compile c
      → Fine F compile (load_lines parse_float compile lines c)
  unfolding load_lines Fine
  load_lines-Fine [] c h = h
  load_lines-Fine (line ∷ lines) c h =
      let here = load_line-Fine c line h in
      elim (Option-cases (load_line parse_float compile c line)) [
        | inl e ↦ rw (Fine, e) tt
        | inr (next, e) ↦ rw (Fine, e) (load_lines-Fine lines next (subst (Fine F compile) e here))
      ]

  -- Whatever the file holds, the configuration that `loadFromFile` makes of a sound one is sound: its
  -- base path is relative and without `..`, the port of the exporter is between 1 and 65535, the
  -- timeframes are those of the specification, the settings that must be positive are, and the
  -- patterns of all lists but the exclude list of the users compile.
  pub load_from_file-IsSound :
      (file : ReadResult) (c loaded : Config F)
      → IsSound F compile c
      → load_from_file parse_float compile file c ≡ some loaded
      → IsSound F compile loaded
  unfolding load_from_file Fine IsSound
  load_from_file-IsSound missing c loaded h e = subst (Fine F compile) e h
  load_from_file-IsSound unreadable c loaded h e = cc
  load_from_file-IsSound (content bytes) c loaded h e =
      subst (Fine F compile) e (load_lines-Fine (split b'\n' bytes) c h)

is_empty-eq : {A : Type 0} (xs : List A) → is_empty xs ≡ true → xs ≡ []
is_empty-eq [] h = refl
is_empty-eq (x ∷ xs) h = absurd (ground arith)

module _ (fl : Floats) (parse_float : Bytes → Option fl.F) (compile : Compile)
    (is_http_url : Bytes → Bool) where
  -- A configuration that `LoadAndValidate` returns, whatever the file and the environment hold, keeps
  -- each release threshold below the threshold of its resource: always for the CPU, and for RAM and
  -- IO where they are enabled.
  pub load_and_validate-IsHysteretic :
      (pid_max : ℤ) (getenv : Bytes → Bytes) (file : ReadResult) (cfg : Config fl.F)
      → load_and_validate fl parse_float compile is_http_url pid_max getenv file ≡ some cfg
      → IsHysteretic cfg
  unfolding load_and_validate
  load_and_validate-IsHysteretic pid_max getenv file cfg e =
      elim (Option-cases (load_from_file parse_float compile file (default_config fl pid_max))) [
        | inl n ↦ ground arith
        | inr (filled, f) ↦
            let c = (load_from_environment parse_float getenv filled).0 in
            elim (Bool-cases (is_empty (validate_config fl is_http_url c))) [
              | inl v ↦
                  let same : c ≡ cfg = ground arith in
                  let quiet : validate_config fl is_http_url c ≡ [] = is_empty-eq _ v in
                  subst IsHysteretic same (validate_config-IsHysteretic fl is_http_url c quiet)
              | inr n ↦ ground arith
            ]
      ]
