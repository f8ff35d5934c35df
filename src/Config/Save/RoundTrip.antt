-- ===== src/Config/Save/RoundTrip.antt =====
-- What is saved is what a later load reads.
use mathlib.Core.Option
use cpu_manager_go.Prelude.{
  ℕ, Bool, false, not, ◌&&◌, ◌≡◌, refl, ap, ◌∙◌, Option, some, List, [], ◌∷◌, ◌++◌, arith, is_empty,
  ◌==◌, Option-cases, inl, inr, if◌then◌else◌,
}
use cpu_manager_go.Prelude.Text.{Bytes, text, is_space, split, trim_space, trim_left, trim_right}
use cpu_manager_go.Prelude.Text.Split.{
  AllBytes, AllTexts, AllBytes-append, AllBytes-weaken, AllTexts-weaken, AllBytes-join, other_than,
  split-join, trim_space-eq, take_while-eq, no_space, join,
}
use cpu_manager_go.Config.Defs.{Config}
use cpu_manager_go.Config.Filter.{Compile}
use cpu_manager_go.Config.Setters.{compiled_parts, parse_regex_list, set_regex_list}
use cpu_manager_go.Config.Handlers.{config_field_handlers, set_config_field}
use cpu_manager_go.Config.Handlers.Sound.{AllCompile, compiles}
use cpu_manager_go.Config.Load.{
  is_quote, trim_quotes_left, trim_quotes_right, clean_value, split_pair, set_pair, load_line,
  load_lines, is_skipped,
}
use cpu_manager_go.Config.Save.{include_key, exclude_key, include_line, exclude_line}

-- A byte of a value that a load does not change: no blank, no quote and no `#`.
abbrev pub clean : ℕ → Bool
clean c = not (is_space c) && not (is_quote c) && not (c == b'#')

-- A byte of a pattern: no comma either.
abbrev pub plain : ℕ → Bool
plain c = clean c && not (c == b',')

-- A pattern of plain bytes, not empty.
unfoldable pub ArePatterns : List Bytes → Type 0
unfolding AllBytes
ArePatterns [] = Unit {0}
ArePatterns (p ∷ ps) = (is_empty p ≡ false) × AllBytes plain p × ArePatterns ps

ArePatterns-AllTexts : (ps : List Bytes) → ArePatterns ps → AllTexts plain ps
unfolding ArePatterns AllTexts
ArePatterns-AllTexts [] h = tt
ArePatterns-AllTexts (p ∷ ps) h = (h.1, ArePatterns-AllTexts ps h.2)

trim_quotes_left-eq : (s : Bytes) → AllBytes clean s → trim_quotes_left s ≡ s
unfolding trim_quotes_left AllBytes
trim_quotes_left-eq [] h = refl
trim_quotes_left-eq (c ∷ s) h = ground (arith, trim_quotes_left-eq s h.1)

trim_quotes_right-eq : (s : Bytes) → AllBytes clean s → trim_quotes_right s ≡ s
unfolding trim_quotes_right AllBytes
trim_quotes_right-eq [] h = refl
trim_quotes_right-eq (c ∷ []) h = ground arith
trim_quotes_right-eq (c ∷ d ∷ s) h = ground (arith, trim_quotes_right-eq (d ∷ s) h.1)

clean-trim_space : (s : Bytes) → AllBytes clean s → trim_space s ≡ s
clean-trim_space s h = trim_space-eq s (AllBytes-weaken clean no_space s (λ c k. ground arith) h)

clean_value-eq : (s : Bytes) → AllBytes clean s → clean_value s ≡ s
unfolding clean_value
clean_value-eq s h =
    let trimmed = clean-trim_space s h in
    let taken =
      take_while-eq (other_than b'#') s
        (AllBytes-weaken clean (other_than b'#') s (λ c k. ground arith) h) in
    let left = trim_quotes_left-eq s h in let right = trim_quotes_right-eq s h in ground arith

pub join-clean : (ps : List Bytes) → ArePatterns ps → AllBytes clean (join b',' ps)
join-clean ps h =
    AllBytes-join clean b',' ps refl
      (AllTexts-weaken plain clean ps (λ c k. ground arith) (ArePatterns-AllTexts ps h))

module _ (compile : Compile) where
  compiled_parts-eq :
      (ps : List Bytes)
      → ArePatterns ps
      → AllCompile compile ps
      → compiled_parts compile ps ≡ some ps
  unfolding compiled_parts ArePatterns AllCompile compiles
  compiled_parts-eq [] h k = refl
  compiled_parts-eq (p ∷ ps) h k =
      let rest = compiled_parts-eq ps h.2 k.1 in
      let trimmed = clean-trim_space p (AllBytes-weaken plain clean p (λ c e. ground arith) h.1) in
      ground arith

  split-patterns :
      (p : Bytes) (ps : List Bytes)
      → ArePatterns (p ∷ ps)
      → split b',' (join b',' (p ∷ ps)) ≡ p ∷ ps
  split-patterns p ps h = split-join b',' p ps (
      AllTexts-weaken plain (other_than b',') (p ∷ ps) (λ c k. ground arith)
        (ArePatterns-AllTexts (p ∷ ps) h))

  join-not_empty :
      (p : Bytes) (ps : List Bytes) → is_empty p ≡ false → is_empty (join b',' (p ∷ ps)) ≡ false
  unfolding join
  join-not_empty [] ps h = absurd (ground arith)
  join-not_empty (c ∷ p) ps h = refl

  -- A list of patterns is read back from its commas.
  parse_regex_list-join :
      (ps : List Bytes)
      → ArePatterns ps
      → AllCompile compile ps
      → parse_regex_list compile (join b',' ps) ≡ some ps
  unfolding parse_regex_list ArePatterns
  parse_regex_list-join [] h k = unfold join in unfold trim_space in unfold trim_left in refl
  parse_regex_list-join (p ∷ ps) h k =
      let trimmed = clean-trim_space (join b',' (p ∷ ps)) (join-clean (p ∷ ps) h) in
      let parts = split-patterns p ps h in
      let compiled = compiled_parts-eq (p ∷ ps) h k in
      let present = join-not_empty p ps h.0 in ground arith

module _ {F : Type 0} (parse_float : Bytes → Option F) (compile : Compile) where
  pub load_include_line :
      (ps qs : List Bytes) (c : Config F)
      → ArePatterns ps
      → AllCompile compile ps
      → load_line parse_float compile c (include_line ps qs)
        ≡ some (record c { user_include_list = ps })
  unfolding load_line set_pair set_config_field config_field_handlers set_regex_list split_pair
      trim_space trim_left trim_right
  load_include_line ps qs c h k =
      let key_clean : AllBytes clean include_key = unfold AllBytes in ground arith in
      let trimmed =
        clean-trim_space (include_line ps qs)
          (AllBytes-append clean include_key (join b',' ps) key_clean (join-clean ps h)) in
      ap
        (λ line.
          if is_skipped line then some c else set_pair parse_float compile c (split_pair line))
        trimmed
      ∙ ap (set_config_field parse_float compile c (text "USER_INCLUDE_LIST"))
          (clean_value-eq (join b',' ps) (join-clean ps h))
      ∙ ap (Option.map (λ v. record c { user_include_list = v }))
          (parse_regex_list-join compile ps h k)

  pub load_exclude_line :
      (ps qs : List Bytes) (c : Config F)
      → ArePatterns qs
      → AllCompile compile qs
      → load_line parse_float compile c (exclude_line ps qs)
        ≡ some (record c { user_exclude_list = qs })
  unfolding load_line set_pair set_config_field config_field_handlers set_regex_list split_pair
      trim_space trim_left trim_right
  load_exclude_line ps qs c h k =
      let key_clean : AllBytes clean exclude_key = unfold AllBytes in ground arith in
      let trimmed =
        clean-trim_space (exclude_line ps qs)
          (AllBytes-append clean exclude_key (join b',' qs) key_clean (join-clean qs h)) in
      ap
        (λ line.
          if is_skipped line then some c else set_pair parse_float compile c (split_pair line))
        trimmed
      ∙ ap (set_config_field parse_float compile c (text "USER_EXCLUDE_LIST"))
          (clean_value-eq (join b',' qs) (join-clean qs h))
      ∙ ap (Option.map (λ v. record c { user_exclude_list = v }))
          (parse_regex_list-join compile qs h k)

  pub load_lines-append :
      (xs ys : List Bytes) (c d : Config F)
      → load_lines parse_float compile xs c ≡ some d
      → load_lines parse_float compile (xs ++ ys) c ≡ load_lines parse_float compile ys d
  unfolding load_lines
  load_lines-append [] ys c d e = ap (λ o. load_lines parse_float compile ys o) (ground arith)
  load_lines-append (x ∷ xs) ys c d e = elim (Option-cases (load_line parse_float compile c x)) [
    | inl n ↦ ground arith
    | inr (next, n) ↦ ground (arith, load_lines-append xs ys next d)
  ]
