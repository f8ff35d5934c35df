-- ===== src/Cgroup/Psi.antt =====
-- cgroup/psi.go: `parsePSI`. `strconv.ParseFloat` and the conversion to `uint64` are parameters.
use cpu_manager_go.Prelude.{ℕ, Option, none, some, List, [], ◌∷◌, if◌then◌else◌, leb, length}
use cpu_manager_go.Prelude.Floats.{Floats}
use cpu_manager_go.Prelude.Text.{Bytes, text, same, split, fields, trim_space}
use cpu_manager_go.Config.Load.{split_pair}

-- `psiLine`
pub record PsiLine (F : Type 0) : Type 0 where
  pub avg10 : F
  pub avg60 : F
  pub avg300 : F
  pub total : ℕ

-- `PSIStats`, as its line `some` and its line `full`.
pub record PsiStats (F : Type 0) : Type 0 where
  pub some_line : PsiLine F
  pub full_line : PsiLine F

module _ (fl : Floats) (parse_float : Bytes → Option fl.F) where
  open fl use {F, of_nat, to_nat}

  abbrev pub empty_line : PsiLine F
  empty_line = record { avg10 = of_nat 0; avg60 = of_nat 0; avg300 = of_nat 0; total = 0 }

  unfoldable pub set_value : Bytes → F → PsiLine F → PsiLine F
  set_value key value l =
      if same key (text "avg10")
      then record l { avg10 = value }
      else if same key (text "avg60")
      then record l { avg60 = value }
      else if same key (text "avg300")
      then record l { avg300 = value }
      else if same key (text "total")
      then record l { total = to_nat value }
      else l

  abbrev pub set_field : Option (Bytes × Bytes) → PsiLine F → PsiLine F
  set_field none l = l
  set_field (some (key, value)) l = elim (parse_float value) [
    | none ↦ l
    | some v ↦ set_value key v l
  ]

  unfoldable pub set_fields : List Bytes → PsiLine F → PsiLine F
  set_fields [] l = l
  set_fields (field ∷ parts) l = set_fields parts (set_field (split_pair field) l)

  abbrev pub line_of_fields : List Bytes → Option (PsiLine F)
  line_of_fields [] = none
  line_of_fields (name ∷ parts) =
      if leb 4 (length parts) then some (set_fields parts empty_line) else none

  -- `parsePSILine`
  unfoldable pub parse_psi_line : Bytes → Option (PsiLine F)
  parse_psi_line line = line_of_fields (fields line)

  abbrev pub both_lines : Option (PsiLine F) → Option (PsiLine F) → Option (PsiStats F)
  both_lines none full = none
  both_lines (some s) none = none
  both_lines (some s) (some f) = some (record { some_line = s; full_line = f })

  abbrev pub first_two : List Bytes → Option (PsiStats F)
  first_two [] = none
  first_two (line ∷ []) = none
  first_two (line ∷ next ∷ lines) = both_lines (parse_psi_line line) (parse_psi_line next)

  -- `parsePSI`
  unfoldable pub parse_psi : Bytes → Option (PsiStats F)
  parse_psi content = first_two (split b'\n' (trim_space content))
