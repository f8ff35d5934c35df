-- ===== src/Config/Handlers/Table.antt =====
-- Every handler of the table keeps a configuration sound.
use mathlib.Core.Path.{subst}
use cpu_manager_go.Prelude.{
  ◌≡◌, Option, some, [], ◌∷◌, arith, Option-cases, Bool-cases, inl, inr, true, false,
}
use cpu_manager_go.Prelude.Text.{Bytes, same}
use cpu_manager_go.Config.Defs.{Config}
use cpu_manager_go.Config.Filter.{Compile}
use cpu_manager_go.Config.Setters.{Handler, to_lower, to_upper}
use cpu_manager_go.Config.Handlers.{Handlers, find_handler, config_field_handlers, set_config_field}
use cpu_manager_go.Config.Handlers.Sound.{
  IsSound, Fine, Keeps, put_at, set_string-Keeps, set_string_transform-Keeps, set_int-Keeps,
  set_positive_int-Keeps, set_float-Keeps, set_bool-Keeps, set_port-Keeps, set_cgroup_base-Keeps,
  set_blackout-Keeps, set_regex_list-Keeps, set_plain_list-Keeps, put_at-AllPositive,
  put_at-AllListsCompile,
}

module _ (F : Type 0) (parse_float : Bytes → Option F) (compile : Compile) where
  infixr 5 ◌&◌
  data AllKeep : Handlers F → Type 0 where
    done : AllKeep []
    ◌&◌ :
        {k : Bytes} {handler : Handler F} {handlers : Handlers F}
        → Keeps F compile handler
        → AllKeep handlers
        → AllKeep ((k, handler) ∷ handlers)

  config_field_handlers-AllKeep : AllKeep (config_field_handlers parse_float compile)
  unfolding config_field_handlers IsSound Keeps put_at
  config_field_handlers-AllKeep =
      set_string-Keeps F compile _ (λ c a h. h)
      & set_cgroup_base-Keeps F compile
      & set_string-Keeps F compile _ (λ c a h. h)
      & set_string-Keeps F compile _ (λ c a h. h)
      & set_string-Keeps F compile _ (λ c a h. h)
      & set_string-Keeps F compile _ (λ c a h. h)
      & set_string-Keeps F compile _ (λ c a h. h)
      & set_int-Keeps F compile _ (λ c a h. h)
      & set_int-Keeps F compile _ (λ c a h. h)
      & set_int-Keeps F compile _ (λ c a h. h)
      & set_positive_int-Keeps F compile _
          (λ c i p h. (h.0, h.1, h.2, put_at-AllPositive 0 i _ p h.3, h.4))
      & set_int-Keeps F compile _ (λ c a h. h)
      & set_int-Keeps F compile _ (λ c a h. h)
      & set_int-Keeps F compile _ (λ c a h. h)
      & set_int-Keeps F compile _ (λ c a h. h)
      & set_string-Keeps F compile _ (λ c a h. h)
      & set_string-Keeps F compile _ (λ c a h. h)
      & set_bool-Keeps F compile false _ (λ c a h. h)
      & set_string-Keeps F compile _ (λ c a h. h)
      & set_string-Keeps F compile _ (λ c a h. h)
      & set_int-Keeps F compile _ (λ c a h. h)
      & set_bool-Keeps F compile false _ (λ c a h. h)
      & set_string-Keeps F compile _ (λ c a h. h)
      & set_port-Keeps F compile _ (λ c i p h. (h.0, p, h.2, h.3, h.4))
      & set_string-Keeps F compile _ (λ c a h. h)
      & set_port-Keeps F compile _ (λ c i p h. (h.0, p, h.2, h.3, h.4))
      & set_bool-Keeps F compile false _ (λ c a h. h)
      & set_string-Keeps F compile _ (λ c a h. h)
      & set_string-Keeps F compile _ (λ c a h. h)
      & set_string-Keeps F compile _ (λ c a h. h)
      & set_string_transform-Keeps F compile to_upper _ (λ c a h. h)
      & set_string_transform-Keeps F compile to_lower _ (λ c a h. h)
      & set_string-Keeps F compile _ (λ c a h. h)
      & set_string-Keeps F compile _ (λ c a h. h)
      & set_string-Keeps F compile _ (λ c a h. h)
      & set_string-Keeps F compile _ (λ c a h. h)
      & set_string-Keeps F compile _ (λ c a h. h)
      & set_int-Keeps F compile _ (λ c a h. h)
      & set_string_transform-Keeps F compile to_upper _ (λ c a h. h)
      & set_int-Keeps F compile _ (λ c a h. h)
      & set_bool-Keeps F compile false _ (λ c a h. h)
      & set_int-Keeps F compile _ (λ c a h. h)
      & set_int-Keeps F compile _ (λ c a h. h)
      & set_int-Keeps F compile _ (λ c a h. h)
      & set_regex_list-Keeps F compile _
          (λ c ps k h. (h.0, h.1, h.2, h.3, put_at-AllListsCompile compile 0 ps _ k h.4))
      & set_regex_list-Keeps F compile _ (λ c ps k h. h)
      & set_regex_list-Keeps F compile _
          (λ c ps k h. (h.0, h.1, h.2, h.3, put_at-AllListsCompile compile 1 ps _ k h.4))
      & set_blackout-Keeps F compile
      & set_plain_list-Keeps F compile _ (λ c a h. h)
      & set_bool-Keeps F compile false _ (λ c a h. h)
      & set_string-Keeps F compile _ (λ c a h. h)
      & set_bool-Keeps F compile false _ (λ c a h. h)
      & set_string_transform-Keeps F compile to_lower _ (λ c a h. h)
      & set_int-Keeps F compile _ (λ c a h. h)
      & set_string-Keeps F compile _ (λ c a h. h)
      & set_string_transform-Keeps F compile to_upper _ (λ c a h. h)
      & set_string-Keeps F compile _ (λ c a h. h)
      & set_bool-Keeps F compile false _ (λ c a h. h)
      & set_bool-Keeps F compile false _ (λ c a h. h)
      & set_string-Keeps F compile _ (λ c a h. h)
      & set_positive_int-Keeps F compile _
          (λ c i p h. (h.0, h.1, h.2, put_at-AllPositive 1 i _ p h.3, h.4))
      & set_positive_int-Keeps F compile _
          (λ c i p h. (h.0, h.1, h.2, put_at-AllPositive 2 i _ p h.3, h.4))
      & set_positive_int-Keeps F compile _
          (λ c i p h. (h.0, h.1, h.2, put_at-AllPositive 3 i _ p h.3, h.4))
      & set_int-Keeps F compile _ (λ c a h. h)
      & set_int-Keeps F compile _ (λ c a h. h)
      & set_int-Keeps F compile _ (λ c a h. h)
      & set_bool-Keeps F compile false _ (λ c a h. h)
      & set_int-Keeps F compile _ (λ c a h. h)
      & set_int-Keeps F compile _ (λ c a h. h)
      & set_string-Keeps F compile _ (λ c a h. h)
      & set_string-Keeps F compile _ (λ c a h. h)
      & set_bool-Keeps F compile false _ (λ c a h. h)
      & set_float-Keeps F compile parse_float _ (λ c a h. h)
      & set_regex_list-Keeps F compile _
          (λ c ps k h. (h.0, h.1, h.2, h.3, put_at-AllListsCompile compile 2 ps _ k h.4))
      & set_regex_list-Keeps F compile _
          (λ c ps k h. (h.0, h.1, h.2, h.3, put_at-AllListsCompile compile 3 ps _ k h.4))
      & set_bool-Keeps F compile false _ (λ c a h. h)
      & set_int-Keeps F compile _ (λ c a h. h)
      & set_int-Keeps F compile _ (λ c a h. h)
      & set_string-Keeps F compile _ (λ c a h. h)
      & set_string-Keeps F compile _ (λ c a h. h)
      & set_int-Keeps F compile _ (λ c a h. h)
      & set_int-Keeps F compile _ (λ c a h. h)
      & set_string-Keeps F compile _ (λ c a h. h)
      & set_int-Keeps F compile _ (λ c a h. h)
      & set_regex_list-Keeps F compile _
          (λ c ps k h. (h.0, h.1, h.2, h.3, put_at-AllListsCompile compile 4 ps _ k h.4))
      & set_regex_list-Keeps F compile _
          (λ c ps k h. (h.0, h.1, h.2, h.3, put_at-AllListsCompile compile 5 ps _ k h.4))
      & set_bool-Keeps F compile false _ (λ c a h. h)
      & set_int-Keeps F compile _ (λ c a h. h)
      & set_int-Keeps F compile _ (λ c a h. h)
      & set_float-Keeps F compile parse_float _ (λ c a h. h)
      & set_int-Keeps F compile _ (λ c a h. h)
      & set_int-Keeps F compile _ (λ c a h. h)
      & set_float-Keeps F compile parse_float _ (λ c a h. h)
      & set_bool-Keeps F compile true _ (λ c a h. h)
      & set_bool-Keeps F compile false _ (λ c a h. h)
      & set_positive_int-Keeps F compile _
          (λ c i p h. (h.0, h.1, h.2, put_at-AllPositive 4 i _ p h.3, h.4))
      & set_positive_int-Keeps F compile _
          (λ c i p h. (h.0, h.1, h.2, put_at-AllPositive 5 i _ p h.3, h.4))
      & set_float-Keeps F compile parse_float _ (λ c a h. h)
      & set_int-Keeps F compile _ (λ c a h. h)
      & set_string-Keeps F compile _ (λ c a h. h)
      & set_int-Keeps F compile _ (λ c a h. h)
      & set_string-Keeps F compile _ (λ c a h. h)
      & set_bool-Keeps F compile false _ (λ c a h. h)
      & set_positive_int-Keeps F compile _
          (λ c i p h. (h.0, h.1, h.2, put_at-AllPositive 6 i _ p h.3, h.4))
      & set_positive_int-Keeps F compile _
          (λ c i p h. (h.0, h.1, h.2, put_at-AllPositive 7 i _ p h.3, h.4))
      & set_positive_int-Keeps F compile _
          (λ c i p h. (h.0, h.1, h.2, put_at-AllPositive 8 i _ p h.3, h.4))
      & set_positive_int-Keeps F compile _
          (λ c i p h. (h.0, h.1, h.2, put_at-AllPositive 9 i _ p h.3, h.4))
      & set_positive_int-Keeps F compile _
          (λ c i p h. (h.0, h.1, h.2, put_at-AllPositive 10 i _ p h.3, h.4))
      & set_positive_int-Keeps F compile _
          (λ c i p h. (h.0, h.1, h.2, put_at-AllPositive 11 i _ p h.3, h.4))
      & done

  find_handler-Keeps :
      (key : Bytes) (handlers : Handlers F) (handler : Handler F)
      → AllKeep handlers
      → find_handler key handlers ≡ some handler
      → Keeps F compile handler
  find_handler-Keeps key [] handler done e = cc
  find_handler-Keeps key ((k, h) ∷ handlers) handler (a & rest) e = elim (Bool-cases (same key k)) [
    | inl s ↦ (let e' : h ≡ handler = ground arith in subst (Keeps F compile) e' a)
    | inr n ↦ find_handler-Keeps key handlers handler rest (ground arith)
  ]

  pub set_config_field-Fine :
      (c : Config F) (key value : Bytes)
      → IsSound F compile c
      → Fine F compile (set_config_field parse_float compile c key value)
  unfolding set_config_field Fine Keeps
  set_config_field-Fine c key value h =
      elim (Option-cases (find_handler key (config_field_handlers parse_float compile))) [
        | inl e ↦ rw (set_config_field, e) h
        | inr (f, e) ↦
            rw (set_config_field, e)
              (find_handler-Keeps key _ f config_field_handlers-AllKeep e c value h)
      ]
