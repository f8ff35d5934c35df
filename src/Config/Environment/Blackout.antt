-- ===== src/Config/Environment/Blackout.antt =====
-- What the environment leaves alone.
use cpu_manager_go.Prelude.{
  ℕ, true, any, if◌then◌else◌, ap, ℤ, Bool, false, ◌≡◌, refl, Option, none, some, List, [], ◌∷◌,
  arith, is_empty, Bool-cases, inl, inr,
}
use cpu_manager_go.Prelude.Text.{Bytes, text, atoi}
use cpu_manager_go.Config.Blackout.{is_in_blackout, covers}
use cpu_manager_go.Config.Defs.{Config}
use cpu_manager_go.Config.Setters.{truth}
use cpu_manager_go.Config.Environment.{
  Variable, Variables, assign_or_warn, assign_bool, env_string, env_int, env_float, env_bool,
  env_list, config_variables, load_variables, load_from_environment,
}

module _ {F : Type 0} where
  -- The timeframes and their specification are the same.
  abbrev Kept : Config F → Config F → Type 0
  Kept c d = (d.blackout_timeframes ≡ c.blackout_timeframes) × (d.blackout_spec ≡ c.blackout_spec)

  abbrev Leaves : Variable F → Type 0
  Leaves variable = (c : Config F) (value : Bytes) → Kept c (variable c value).0

  abbrev Off : {A : Type 0} → (Config F → A → Config F) → Type 0
  Off {A} assign = (c : Config F) (a : A) → Kept c (assign c a)

  assign_or_warn-Leaves :
      {A : Type 0} (assign : Config F → A → Config F) (c : Config F) (o : Option A)
      → Off assign
      → Kept c (assign_or_warn assign c o).0
  assign_or_warn-Leaves assign c none s = (refl, refl)
  assign_or_warn-Leaves assign c (some a) s = s c a

  assign_bool-Leaves :
      (assign : Config F → Bool → Config F) (c : Config F) (o : Option Bool)
      → Off assign
      → Kept c (assign_bool assign c o).0
  assign_bool-Leaves assign c none s = s c false
  assign_bool-Leaves assign c (some b) s = s c b

  env_string-Leaves :
      (assign : Config F → Bytes → Config F) → Off assign → Leaves (env_string assign)
  unfolding env_string
  env_string-Leaves assign s c value = s c value

  env_int-Leaves : (assign : Config F → ℤ → Config F) → Off assign → Leaves (env_int assign)
  unfolding env_int
  env_int-Leaves assign s c value = assign_or_warn-Leaves assign c (atoi value) s

  env_float-Leaves :
      (parse_float : Bytes → Option F) (assign : Config F → F → Config F)
      → Off assign
      → Leaves (env_float parse_float assign)
  unfolding env_float
  env_float-Leaves parse_float assign s c value =
      assign_or_warn-Leaves assign c (parse_float value) s

  env_bool-Leaves : (assign : Config F → Bool → Config F) → Off assign → Leaves (env_bool assign)
  unfolding env_bool
  env_bool-Leaves assign s c value = assign_bool-Leaves assign c (truth value) s

  env_list-Leaves :
      (assign : Config F → List Bytes → Config F) → Off assign → Leaves (env_list assign)
  unfolding env_list
  env_list-Leaves assign s c value = s c _

  infixr 5 ◌&◌
  -- All variables leave them alone, or, for `true`, all but the specification itself.
  data AllLeave : Bool → Variables F → Type 0 where
    done : AllLeave false []
    ◌&◌ :
        {b : Bool} {key : Bytes} {variable : Variable F} {variables : Variables F}
        → Leaves variable
        → AllLeave b variables
        → AllLeave b ((key, variable) ∷ variables)
    blackout :
        {variables : Variables F}
        → AllLeave false variables
        → AllLeave true
            ((text "BLACKOUT", env_string (λ c v. record c { blackout_spec = v })) ∷ variables)

module _ {F : Type 0} (parse_float : Bytes → Option F) where
  config_variables-AllLeave : AllLeave true (config_variables parse_float)
  unfolding config_variables
  config_variables-AllLeave =
      env_string-Leaves _ (λ c v. (refl, refl))
      & env_string-Leaves _ (λ c v. (refl, refl))
      & env_string-Leaves _ (λ c v. (refl, refl))
      & env_string-Leaves _ (λ c v. (refl, refl))
      & env_string-Leaves _ (λ c v. (refl, refl))
      & env_string-Leaves _ (λ c v. (refl, refl))
      & env_string-Leaves _ (λ c v. (refl, refl))
      & env_int-Leaves _ (λ c v. (refl, refl))
      & env_int-Leaves _ (λ c v. (refl, refl))
      & env_int-Leaves _ (λ c v. (refl, refl))
      & env_int-Leaves _ (λ c v. (refl, refl))
      & env_int-Leaves _ (λ c v. (refl, refl))
      & env_int-Leaves _ (λ c v. (refl, refl))
      & env_int-Leaves _ (λ c v. (refl, refl))
      & env_int-Leaves _ (λ c v. (refl, refl))
      & env_int-Leaves _ (λ c v. (refl, refl))
      & env_int-Leaves _ (λ c v. (refl, refl))
      & env_int-Leaves _ (λ c v. (refl, refl))
      & env_string-Leaves _ (λ c v. (refl, refl))
      & env_string-Leaves _ (λ c v. (refl, refl))
      & env_bool-Leaves _ (λ c v. (refl, refl))
      & env_int-Leaves _ (λ c v. (refl, refl))
      & env_int-Leaves _ (λ c v. (refl, refl))
      & env_string-Leaves _ (λ c v. (refl, refl))
      & env_string-Leaves _ (λ c v. (refl, refl))
      & env_bool-Leaves _ (λ c v. (refl, refl))
      & env_float-Leaves parse_float _ (λ c v. (refl, refl))
      & env_list-Leaves _ (λ c v. (refl, refl))
      & env_list-Leaves _ (λ c v. (refl, refl))
      & env_bool-Leaves _ (λ c v. (refl, refl))
      & env_int-Leaves _ (λ c v. (refl, refl))
      & env_int-Leaves _ (λ c v. (refl, refl))
      & env_string-Leaves _ (λ c v. (refl, refl))
      & env_string-Leaves _ (λ c v. (refl, refl))
      & env_int-Leaves _ (λ c v. (refl, refl))
      & env_int-Leaves _ (λ c v. (refl, refl))
      & env_string-Leaves _ (λ c v. (refl, refl))
      & env_int-Leaves _ (λ c v. (refl, refl))
      & env_bool-Leaves _ (λ c v. (refl, refl))
      & env_int-Leaves _ (λ c v. (refl, refl))
      & env_int-Leaves _ (λ c v. (refl, refl))
      & env_float-Leaves parse_float _ (λ c v. (refl, refl))
      & env_int-Leaves _ (λ c v. (refl, refl))
      & env_int-Leaves _ (λ c v. (refl, refl))
      & env_float-Leaves parse_float _ (λ c v. (refl, refl))
      & env_bool-Leaves _ (λ c v. (refl, refl))
      & env_list-Leaves _ (λ c v. (refl, refl))
      & env_list-Leaves _ (λ c v. (refl, refl))
      & env_bool-Leaves _ (λ c v. (refl, refl))
      & env_int-Leaves _ (λ c v. (refl, refl))
      & env_int-Leaves _ (λ c v. (refl, refl))
      & env_float-Leaves parse_float _ (λ c v. (refl, refl))
      & env_int-Leaves _ (λ c v. (refl, refl))
      & env_string-Leaves _ (λ c v. (refl, refl))
      & env_int-Leaves _ (λ c v. (refl, refl))
      & env_string-Leaves _ (λ c v. (refl, refl))
      & env_bool-Leaves _ (λ c v. (refl, refl))
      & env_string-Leaves _ (λ c v. (refl, refl))
      & env_string-Leaves _ (λ c v. (refl, refl))
      & env_int-Leaves _ (λ c v. (refl, refl))
      & env_bool-Leaves _ (λ c v. (refl, refl))
      & env_string-Leaves _ (λ c v. (refl, refl))
      & env_int-Leaves _ (λ c v. (refl, refl))
      & env_bool-Leaves _ (λ c v. (refl, refl))
      & env_string-Leaves _ (λ c v. (refl, refl))
      & env_string-Leaves _ (λ c v. (refl, refl))
      & env_string-Leaves _ (λ c v. (refl, refl))
      & env_string-Leaves _ (λ c v. (refl, refl))
      & env_string-Leaves _ (λ c v. (refl, refl))
      & env_string-Leaves _ (λ c v. (refl, refl))
      & env_string-Leaves _ (λ c v. (refl, refl))
      & env_string-Leaves _ (λ c v. (refl, refl))
      & env_string-Leaves _ (λ c v. (refl, refl))
      & env_string-Leaves _ (λ c v. (refl, refl))
      & env_int-Leaves _ (λ c v. (refl, refl))
      & env_string-Leaves _ (λ c v. (refl, refl))
      & env_int-Leaves _ (λ c v. (refl, refl))
      & env_bool-Leaves _ (λ c v. (refl, refl))
      & env_int-Leaves _ (λ c v. (refl, refl))
      & env_int-Leaves _ (λ c v. (refl, refl))
      & env_int-Leaves _ (λ c v. (refl, refl))
      & env_list-Leaves _ (λ c v. (refl, refl))
      & env_list-Leaves _ (λ c v. (refl, refl))
      & env_list-Leaves _ (λ c v. (refl, refl))
      & blackout (
          env_bool-Leaves _ (λ c v. (refl, refl))
          & env_string-Leaves _ (λ c v. (refl, refl))
          & env_bool-Leaves _ (λ c v. (refl, refl))
          & env_string-Leaves _ (λ c v. (refl, refl))
          & env_int-Leaves _ (λ c v. (refl, refl))
          & env_string-Leaves _ (λ c v. (refl, refl))
          & env_string-Leaves _ (λ c v. (refl, refl))
          & env_string-Leaves _ (λ c v. (refl, refl))
          & env_bool-Leaves _ (λ c v. (refl, refl))
          & env_bool-Leaves _ (λ c v. (refl, refl))
          & env_string-Leaves _ (λ c v. (refl, refl))
          & env_int-Leaves _ (λ c v. (refl, refl))
          & env_int-Leaves _ (λ c v. (refl, refl))
          & env_int-Leaves _ (λ c v. (refl, refl))
          & env_bool-Leaves _ (λ c v. (refl, refl))
          & env_int-Leaves _ (λ c v. (refl, refl))
          & env_int-Leaves _ (λ c v. (refl, refl))
          & env_int-Leaves _ (λ c v. (refl, refl))
          & env_int-Leaves _ (λ c v. (refl, refl))
          & env_int-Leaves _ (λ c v. (refl, refl))
          & env_int-Leaves _ (λ c v. (refl, refl))
          & done)

  abbrev IsLoaded : (Bytes → Bytes) → Config F → Config F → Type 0
  IsLoaded getenv c d =
      (d.blackout_timeframes ≡ c.blackout_timeframes)
      × (d.blackout_spec ≡ (
          if is_empty (getenv (text "BLACKOUT"))
          then c.blackout_spec
          else getenv (text "BLACKOUT")))

  load_variables-Kept :
      (getenv : Bytes → Bytes) (variables : Variables F) (c : Config F)
      → AllLeave false variables
      → Kept c (load_variables parse_float getenv variables c).0
  unfolding load_variables
  load_variables-Kept getenv [] c done = (refl, refl)
  load_variables-Kept getenv ((key, variable) ∷ rest) c (l & ls) =
      elim (Bool-cases (is_empty (getenv key))) [
        | inl e ↦ ground (arith, load_variables-Kept getenv rest c ls)
        | inr e ↦
            (let here = l c (getenv key) in
              let there = load_variables-Kept getenv rest (variable c (getenv key)).0 ls in
              ground arith)
      ]

  load_variables-IsLoaded :
      (getenv : Bytes → Bytes) (variables : Variables F) (c : Config F)
      → AllLeave true variables
      → IsLoaded getenv c (load_variables parse_float getenv variables c).0
  unfolding load_variables env_string
  load_variables-IsLoaded getenv [] c l = elim l [ ]
  load_variables-IsLoaded getenv (_ ∷ rest) c (blackout ls) =
      elim (Bool-cases (is_empty (getenv (text "BLACKOUT")))) [
        | inl e ↦ rw e (load_variables-Kept getenv rest c ls)
        | inr e ↦ rw e (
            load_variables-Kept getenv rest (record c { blackout_spec = getenv (text "BLACKOUT") })
              ls)
      ]
  load_variables-IsLoaded getenv ((key, variable) ∷ rest) c (l & ls) =
      elim (Bool-cases (is_empty (getenv key))) [
        | inl e ↦ ground (arith, load_variables-IsLoaded getenv rest c ls)
        | inr e ↦
            (let here = l c (getenv key) in
              let there = load_variables-IsLoaded getenv rest (variable c (getenv key)).0 ls in
              ground arith)
      ]

  -- A variable `BLACKOUT` of the environment that is not empty becomes the specification of the
  -- blackout, and yet no environment changes whether a blackout holds at any day and hour.
  pub load_from_environment-blackout :
      (getenv : Bytes → Bytes) (c : Config F) (day hour : ℕ)
      → let loaded = (load_from_environment parse_float getenv c).0 in
        (is_in_blackout loaded day hour ≡ is_in_blackout c day hour)
        × (loaded.blackout_spec ≡ (
            if is_empty (getenv (text "BLACKOUT"))
            then c.blackout_spec
            else getenv (text "BLACKOUT")))
  unfolding load_from_environment is_in_blackout
  load_from_environment-blackout getenv c day hour =
      let kept = load_variables-IsLoaded getenv _ c config_variables-AllLeave in
      (ap (any (covers day hour)) kept.0, kept.1)
