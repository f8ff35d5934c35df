-- ===== src/Config/Load.antt =====
-- config/config.go: `loadFromFile` and `LoadAndValidate`. What `os.ReadFile` answers is an argument; a
-- failed load is `none`, since the program drops the configuration that was being filled.
pub mod Sound
use mathlib.Core.Option
use cpu_manager_go.Prelude.{
  ℕ, ℤ, Bool, true, false, not, ◌||◌, Option, none, some, List, [], ◌∷◌, if◌then◌else◌, is_empty,
  ◌==◌, take_while,
}
use cpu_manager_go.Prelude.Floats.{Floats}
use cpu_manager_go.Prelude.Text.{Bytes, text, split, trim_space, has_prefix}
use cpu_manager_go.Config.Defs.{Config, default_config}
use cpu_manager_go.Config.Filter.{Compile}
use cpu_manager_go.Config.Handlers.{set_config_field}
use cpu_manager_go.Config.Environment.{load_from_environment}
use cpu_manager_go.Config.Validate.{validate_config}

-- The answer of `os.ReadFile`.
pub data ReadResult : Type 0 where
  missing unreadable : ReadResult
  content : Bytes → ReadResult

abbrev pub add_before : ℕ → Option (Bytes × Bytes) → Option (Bytes × Bytes)
add_before c none = none
add_before c (some (k, v)) = some (c ∷ k, v)

-- `strings.SplitN(s, "=", 2)`, if it has two parts.
unfoldable pub split_pair : Bytes → Option (Bytes × Bytes)
split_pair [] = none
split_pair (c ∷ s) =
    let rest = split_pair s in if c == b'=' then some ([], s) else add_before c rest

abbrev pub is_quote : ℕ → Bool
is_quote c = c == b'"' || c == b'\''

unfoldable pub trim_quotes_left : Bytes → Bytes
trim_quotes_left [] = []
trim_quotes_left (c ∷ s) = let rest = trim_quotes_left s in if is_quote c then rest else c ∷ s

unfoldable pub trim_quotes_right : Bytes → Bytes
trim_quotes_right [] = []
trim_quotes_right (c ∷ s) =
    let rest = trim_quotes_right s in
    elim rest [ [] ↦ if is_quote c then [] else c ∷ [] | d ∷ r ↦ c ∷ d ∷ r ]

-- The value: up to a `#`, without the quotes around it.
unfoldable pub clean_value : Bytes → Bytes
clean_value value =
    let uncommented = take_while (λ c. not (c == b'#')) (trim_space value) in
    trim_space (trim_quotes_right (trim_quotes_left uncommented))

abbrev pub is_skipped : Bytes → Bool
is_skipped line = is_empty line || has_prefix line (text "#")

module _ {F : Type 0} (parse_float : Bytes → Option F) (compile : Compile) where
  unfoldable pub set_pair : Config F → Option (Bytes × Bytes) → Option (Config F)
  set_pair cfg none = none
  set_pair cfg (some (key, value)) =
      set_config_field parse_float compile cfg (trim_space key) (clean_value value)

  -- One line of the file.
  unfoldable pub load_line : Config F → Bytes → Option (Config F)
  load_line cfg raw =
      let line = trim_space raw in
      if is_skipped line then some cfg else set_pair cfg (split_pair line)

  unfoldable pub load_lines : List Bytes → Config F → Option (Config F)
  load_lines [] cfg = some cfg
  load_lines (line ∷ lines) cfg = elim (load_line cfg line) [
    | none ↦ none
    | some next ↦ load_lines lines next
  ]

  -- `loadFromFile`
  unfoldable pub load_from_file : ReadResult → Config F → Option (Config F)
  load_from_file missing cfg = some cfg
  load_from_file unreadable cfg = none
  load_from_file (content bytes) cfg = load_lines (split b'\n' bytes) cfg

-- `LoadAndValidate`, from the default configuration.
unfoldable pub load_and_validate :
    (fl : Floats)
    → (Bytes → Option fl.F)
    → Compile
    → (Bytes → Bool)
    → ℤ
    → (Bytes → Bytes)
    → ReadResult
    → Option (Config fl.F)
load_and_validate fl parse_float compile is_http_url pid_max getenv file =
    elim (load_from_file parse_float compile file (default_config fl pid_max)) [
      | none ↦ none
      | some filled ↦
          let cfg = (load_from_environment parse_float getenv filled).0 in
          if is_empty (validate_config fl is_http_url cfg) then some cfg else none
    ]
