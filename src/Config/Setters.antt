-- ===== src/Config/Setters.antt =====
-- config/config.go: the setters behind the keys of a configuration file (`setString` to
-- `setPlainList`). A handler changes the configuration, or is `none` for an error, whose text is left
-- out. `strconv.ParseFloat` and package regexp are parameters.
use mathlib.Core.Option
use cpu_manager_go.Prelude.{
  ◌+◌, ◌-◌, ℤ, pos, ltb_ℤ, Bool, true, false, ◌&&◌, ◌||◌, Option, none, some, List, [], ◌∷◌,
  if◌then◌else◌, leb, is_empty, any,
}
use cpu_manager_go.Prelude.Text.{Bytes, text, same, split, trim_space, has_prefix, atoi}
use cpu_manager_go.Config.Defs.{Config, Timeframe}
use cpu_manager_go.Config.Filter.{Compile}
use cpu_manager_go.Config.Blackout.{parse_timeframe}

abbrev pub Handler : Type 0 → Type 0
Handler F = Config F → Bytes → Option (Config F)

-- `strings.ToLower` and `strings.ToUpper`, on ASCII.
abbrev pub to_lower : Bytes → Bytes
to_lower [] = []
to_lower (c ∷ s) = (if leb b'A' c && leb c b'Z' then c + 32 else c) ∷ to_lower s

abbrev pub to_upper : Bytes → Bytes
to_upper [] = []
to_upper (c ∷ s) = (if leb b'a' c && leb c b'z' then c - 32 else c) ∷ to_upper s

abbrev pub one_of : List Bytes → Bytes → Bool
one_of words s = any (λ w. same s w) words

-- The words for true and for false, in any case.
unfoldable pub truth : Bytes → Option Bool
truth value =
    if one_of (text "true" ∷ text "1" ∷ text "yes" ∷ text "on" ∷ []) (to_lower value)
    then some true
    else if one_of (text "false" ∷ text "0" ∷ text "no" ∷ text "off" ∷ []) (to_lower value)
    then some false
    else none

-- `strings.Contains(s, "..")`
abbrev pub has_dots : Bytes → Bool
has_dots [] = false
has_dots (c ∷ s) = has_prefix (c ∷ s) (text "..") || has_dots s

-- The loop of `parsePlainList`.
unfoldable pub trimmed_parts : List Bytes → List Bytes
trimmed_parts [] = []
trimmed_parts (p ∷ parts) =
    let rest = trimmed_parts parts in if is_empty (trim_space p) then rest else trim_space p ∷ rest

-- `parsePlainList`
unfoldable pub parse_plain_list : Bytes → List Bytes
parse_plain_list value =
    if is_empty (trim_space value) then [] else trimmed_parts (split b',' (trim_space value))

module _ (compile : Compile) where
  abbrev add_pattern : Bytes → Option (List Bytes) → Option (List Bytes)
  add_pattern pattern rest = elim (compile pattern) [
    | none ↦ none
    | some re ↦ Option.map (◌∷◌ pattern) rest
  ]

  -- The loop of `parseRegexList`.
  unfoldable pub compiled_parts : List Bytes → Option (List Bytes)
  compiled_parts [] = some []
  compiled_parts (p ∷ parts) =
      let rest = compiled_parts parts in
      if is_empty (trim_space p) then rest else add_pattern (trim_space p) rest

  -- `parseRegexList`
  unfoldable pub parse_regex_list : Bytes → Option (List Bytes)
  parse_regex_list value =
      if is_empty (trim_space value)
      then some []
      else compiled_parts (split b',' (trim_space value))

-- What is left of a number that must be positive.
abbrev pub keep_positive : Option ℤ → Option ℤ
keep_positive none = none
keep_positive (some i) = if ltb_ℤ (pos 0) i then some i else none

abbrev pub bad_port : ℤ → Bool
bad_port i = ltb_ℤ i (pos 1) || ltb_ℤ (pos 65535) i

abbrev pub bad_base : Bytes → Bool
bad_base value = has_dots value || has_prefix value (text "/")

module _ {F : Type 0} where
  -- A value that does not parse is skipped.
  abbrev pub assign_some : {A : Type 0} → (Config F → A → Config F) → Config F → Option A → Config F
  assign_some assign cfg none = cfg
  assign_some assign cfg (some a) = assign cfg a

  unfoldable pub set_string : (Config F → Bytes → Config F) → Handler F
  set_string assign cfg value = some (assign cfg value)

  unfoldable pub set_string_transform : (Bytes → Bytes) → (Config F → Bytes → Config F) → Handler F
  set_string_transform transform assign cfg value = some (assign cfg (transform value))

  unfoldable pub set_int : (Config F → ℤ → Config F) → Handler F
  set_int assign cfg value = some (assign_some assign cfg (atoi value))

  unfoldable pub set_positive_int : (Config F → ℤ → Config F) → Handler F
  set_positive_int assign cfg value = some (assign_some assign cfg (keep_positive (atoi value)))

  unfoldable pub set_float : (Bytes → Option F) → (Config F → F → Config F) → Handler F
  set_float parse_float assign cfg value = some (assign_some assign cfg (parse_float value))

  unfoldable pub set_bool : Bool → (Config F → Bool → Config F) → Handler F
  set_bool default_value assign cfg value =
      some (assign cfg (Option.get_or (truth value) default_value))

  abbrev pub assign_port : (Config F → ℤ → Config F) → Config F → Option ℤ → Option (Config F)
  assign_port assign cfg none = some cfg
  assign_port assign cfg (some i) = if bad_port i then none else some (assign cfg i)

  unfoldable pub set_port : (Config F → ℤ → Config F) → Handler F
  set_port assign cfg value = assign_port assign cfg (atoi value)

  unfoldable pub set_cgroup_base : Handler F
  set_cgroup_base cfg value =
      if bad_base value then none else some (record cfg { cgroup_base = value })

  abbrev pub with_timeframes : Config F → Option (List Timeframe) → Option (Config F)
  with_timeframes cfg none = none
  with_timeframes cfg (some ts) = some (record cfg { blackout_timeframes = ts })

  unfoldable pub set_blackout : Handler F
  set_blackout cfg value =
      let spec = trim_space value in
      let cfg1 = record cfg { blackout_spec = spec } in
      if is_empty spec
      then some (record cfg1 { blackout_timeframes = [] })
      else with_timeframes cfg1 (parse_timeframe spec)

  unfoldable pub set_regex_list : Compile → (Config F → List Bytes → Config F) → Handler F
  set_regex_list compile assign cfg value = Option.map (assign cfg) (parse_regex_list compile value)

  unfoldable pub set_plain_list : (Config F → List Bytes → Config F) → Handler F
  set_plain_list assign cfg value = some (assign cfg (parse_plain_list value))
