-- ===== src/Config/Handlers/Sound.antt =====
-- What the handlers of a configuration file keep true of a configuration.
use mathlib.Core.Option
use cpu_manager_go.Prelude.{
  ℕ, zero, suc, refl, ℤ, pos, ltb_ℤ, ◌≡◌, Bool, true, false, Option, none, some, List, [], ◌∷◌,
  arith, is_empty, if◌then◌else◌, Option-cases, Bool-cases, inl, inr,
}
use cpu_manager_go.Prelude.Text.{Bytes, trim_space, split, atoi}
use cpu_manager_go.Config.Defs.{Config, Timeframe}
use cpu_manager_go.Config.Filter.{Compile}
use cpu_manager_go.Config.Blackout.{parse_timeframe}
use cpu_manager_go.Config.Setters.{
  Handler, bad_base, bad_port, keep_positive, assign_some, assign_port, compiled_parts,
  parse_regex_list, set_string, set_string_transform, set_int, set_positive_int, set_float,
  set_bool, set_port, set_cgroup_base, set_blackout, set_regex_list, set_plain_list,
}

-- The timeframes that a trimmed specification stands for.
unfoldable pub blackout_of : Bytes → Option (List Timeframe)
blackout_of spec = if is_empty spec then some [] else parse_timeframe spec

pub data AllPositive : List ℤ → Type 0 where
  nil : AllPositive []
  cons : {i : ℤ} {is : List ℤ} → ltb_ℤ (pos 0) i ≡ true → AllPositive is → AllPositive (i ∷ is)

-- The pattern compiles.
unfoldable pub compiles : Compile → Bytes → Bool
compiles compile p = elim (compile p) [ none ↦ false | some re ↦ true ]

unfoldable pub AllCompile : Compile → List Bytes → Type 0
AllCompile compile [] = Unit {0}
AllCompile compile (p ∷ ps) = (compiles compile p ≡ true) × AllCompile compile ps

pub data AllListsCompile (compile : Compile) : List (List Bytes) → Type 0 where
  nil : AllListsCompile compile []
  cons :
      {l : List Bytes} {ls : List (List Bytes)}
      → AllCompile compile l
      → AllListsCompile compile ls
      → AllListsCompile compile (l ∷ ls)

-- The list with another element at a position.
unfoldable pub put_at : {A : Type 0} → ℕ → A → List A → List A
put_at n a [] = []
put_at zero a (x ∷ xs) = a ∷ xs
put_at (suc n) a (x ∷ xs) = x ∷ put_at n a xs

pub put_at-AllPositive :
    (n : ℕ) (i : ℤ) (is : List ℤ)
    → ltb_ℤ (pos 0) i ≡ true
    → AllPositive is
    → AllPositive (put_at n i is)
unfolding put_at
put_at-AllPositive n i [] p nil = nil
put_at-AllPositive zero i (x ∷ is) p (cons h t) = cons p t
put_at-AllPositive (suc n) i (x ∷ is) p (cons h t) = cons h (put_at-AllPositive n i is p t)

pub put_at-AllListsCompile :
    (compile : Compile) (n : ℕ) (l : List Bytes) (ls : List (List Bytes))
    → AllCompile compile l
    → AllListsCompile compile ls
    → AllListsCompile compile (put_at n l ls)
unfolding put_at
put_at-AllListsCompile compile n l [] p nil = nil
put_at-AllListsCompile compile zero l (x ∷ ls) p (cons h t) = cons p t
put_at-AllListsCompile compile (suc n) l (x ∷ ls) p (cons h t) =
    cons h (put_at-AllListsCompile compile n l ls p t)

module _ (compile : Compile) where
  compiled_parts-AllCompile :
      (parts ps : List Bytes) → compiled_parts compile parts ≡ some ps → AllCompile compile ps
  unfolding compiled_parts AllCompile compiles
  compiled_parts-AllCompile [] ps e = ground arith
  compiled_parts-AllCompile (p ∷ parts) ps e = elim (Option-cases (compiled_parts compile parts)) [
    | inl n ↦ ground arith
    | inr (qs, q) ↦ (let ih = compiled_parts-AllCompile parts qs q in ground arith)
  ]

  parse_regex_list-AllCompile :
      (value : Bytes) (ps : List Bytes)
      → parse_regex_list compile value ≡ some ps
      → AllCompile compile ps
  unfolding parse_regex_list AllCompile
  parse_regex_list-AllCompile value ps e =
      ground (arith, compiled_parts-AllCompile (split b',' (trim_space value)) ps)

module _ (F : Type 0) (compile : Compile) where
  -- The base path is relative and has no `..`, the port of the exporter is one, the timeframes are
  -- those of the specification, the settings that must be positive are, and the patterns compile.
  unfoldable pub IsSound : Config F → Type 0
  IsSound c =
      (bad_base c.cgroup_base ≡ false)
      × (bad_port c.prometheus_metrics_bind_port ≡ false)
      × (blackout_of c.blackout_spec ≡ some c.blackout_timeframes)
      × AllPositive (
          c.metrics_refresh_interval ∷ c.metrics_db_retention_days ∷ c.metrics_db_write_interval
          ∷ c.username_cache_ttl ∷ c.pattern_history_hours ∷ c.pattern_min_samples
          ∷ c.psi_cpu_stall_threshold ∷ c.psi_io_stall_threshold ∷ c.psi_window_us
          ∷ c.psi_fallback_interval ∷ c.psi_boost_weight ∷ c.psi_boost_duration ∷ [])
      × AllListsCompile compile (
          c.user_include_list ∷ c.process_exclude_list ∷ c.ram_user_include_list
          ∷ c.ram_user_exclude_list ∷ c.io_user_include_list ∷ c.io_user_exclude_list ∷ [])

  unfoldable pub Fine : Option (Config F) → Type 0
  unfolding IsSound
  Fine none = Unit {0}
  Fine (some c) = IsSound c

  unfoldable pub Keeps : Handler F → Type 0
  unfolding Fine
  Keeps handler = (c : Config F) (value : Bytes) → IsSound c → Fine (handler c value)

  -- The assignment touches nothing that a sound configuration promises.
  abbrev Safe : {A : Type 0} → (Config F → A → Config F) → Type 0
  Safe {A} assign = (c : Config F) (a : A) → IsSound c → IsSound (assign c a)

  pub set_string-Keeps :
      (assign : Config F → Bytes → Config F) → Safe assign → Keeps (set_string assign)
  unfolding set_string Keeps
  set_string-Keeps assign s c value h = s c value h

  pub set_string_transform-Keeps :
      (f : Bytes → Bytes) (assign : Config F → Bytes → Config F)
      → Safe assign
      → Keeps (set_string_transform f assign)
  unfolding set_string_transform Keeps
  set_string_transform-Keeps f assign s c value h = s c (f value) h

  assign_some-IsSound :
      {A : Type 0} (assign : Config F → A → Config F) (c : Config F) (o : Option A)
      → Safe assign
      → IsSound c
      → IsSound (assign_some assign c o)
  assign_some-IsSound assign c none s h = h
  assign_some-IsSound assign c (some a) s h = s c a h

  pub set_int-Keeps : (assign : Config F → ℤ → Config F) → Safe assign → Keeps (set_int assign)
  unfolding set_int Keeps
  set_int-Keeps assign s c value h = assign_some-IsSound assign c (atoi value) s h

  pub set_float-Keeps :
      (parse_float : Bytes → Option F) (assign : Config F → F → Config F)
      → Safe assign
      → Keeps (set_float parse_float assign)
  unfolding set_float Keeps
  set_float-Keeps parse_float assign s c value h =
      assign_some-IsSound assign c (parse_float value) s h

  pub set_bool-Keeps :
      (d : Bool) (assign : Config F → Bool → Config F) → Safe assign → Keeps (set_bool d assign)
  unfolding set_bool Keeps
  set_bool-Keeps d assign s c value h = s c _ h

  abbrev SafePositive : (Config F → ℤ → Config F) → Type 0
  SafePositive assign =
      (c : Config F) (i : ℤ) → ltb_ℤ (pos 0) i ≡ true → IsSound c → IsSound (assign c i)

  assign_positive-IsSound :
      (assign : Config F → ℤ → Config F) (c : Config F) (o : Option ℤ)
      → SafePositive assign
      → IsSound c
      → IsSound (assign_some assign c (keep_positive o))
  assign_positive-IsSound assign c none s h = h
  assign_positive-IsSound assign c (some i) s h = elim (Bool-cases (ltb_ℤ (pos 0) i)) [
    | inl e ↦ rw e (s c i e h)
    | inr e ↦ rw e h
  ]

  pub set_positive_int-Keeps :
      (assign : Config F → ℤ → Config F) → SafePositive assign → Keeps (set_positive_int assign)
  unfolding set_positive_int Keeps
  set_positive_int-Keeps assign s c value h = assign_positive-IsSound assign c (atoi value) s h

  assign_port-Fine :
      (assign : Config F → ℤ → Config F) (c : Config F) (o : Option ℤ)
      → ((d : Config F) (i : ℤ) → bad_port i ≡ false → IsSound d → IsSound (assign d i))
      → IsSound c
      → Fine (assign_port assign c o)
  unfolding Fine
  assign_port-Fine assign c none s h = h
  assign_port-Fine assign c (some i) s h = elim (Bool-cases (bad_port i)) [
    | inl e ↦ rw e tt
    | inr e ↦ rw e (s c i e h)
  ]

  pub set_port-Keeps :
      (assign : Config F → ℤ → Config F)
      → ((d : Config F) (i : ℤ) → bad_port i ≡ false → IsSound d → IsSound (assign d i))
      → Keeps (set_port assign)
  unfolding set_port Keeps
  set_port-Keeps assign s c value h = assign_port-Fine assign c (atoi value) s h

  pub set_cgroup_base-Keeps : Keeps set_cgroup_base
  unfolding set_cgroup_base Keeps IsSound
  set_cgroup_base-Keeps c value h = elim (Bool-cases (bad_base value)) [
    | inl e ↦ rw e tt
    | inr e ↦ rw e (e, h.1, h.2, h.3, h.4)
  ]

  pub set_blackout-Keeps : Keeps set_blackout
  unfolding set_blackout Keeps IsSound blackout_of
  set_blackout-Keeps c value h = elim (Bool-cases (is_empty (trim_space value))) [
    | inl e ↦ ground arith
    | inr e ↦ elim (Option-cases (parse_timeframe (trim_space value))) [
      | inl n ↦ ground arith
      | inr (ts, p) ↦ ground arith
    ]
  ]

  map-Fine :
      (assign : Config F → List Bytes → Config F) (c : Config F) (o : Option (List Bytes))
      → ((ps : List Bytes) → o ≡ some ps → IsSound (assign c ps))
      → Fine (Option.map (assign c) o)
  unfolding Fine
  map-Fine assign c none s = tt
  map-Fine assign c (some ps) s = s ps refl

  pub set_regex_list-Keeps :
      (assign : Config F → List Bytes → Config F)
      → ((c : Config F) (ps : List Bytes)
          → AllCompile compile ps
          → IsSound c
          → IsSound (assign c ps))
      → Keeps (set_regex_list compile assign)
  unfolding set_regex_list Keeps
  set_regex_list-Keeps assign s c value h =
      map-Fine assign c (parse_regex_list compile value)
        (λ ps e. s c ps (parse_regex_list-AllCompile compile value ps e) h)

  pub set_plain_list-Keeps :
      (assign : Config F → List Bytes → Config F) → Safe assign → Keeps (set_plain_list assign)
  unfolding set_plain_list Keeps
  set_plain_list-Keeps assign s c value h = s c _ h
