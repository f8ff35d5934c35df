-- ===== src/Config/Filter.antt =====
-- config/config.go: the include and exclude lists, and `matchPattern` with its cache. Package regexp
-- is a parameter: `compile` gives the matcher of a pattern, or `none` for an invalid one.
use cpu_manager_go.Prelude.{
  Bool, true, false, not, ◌&&◌, ◌≡◌, Option, none, some, List, [], ◌∷◌, arith, any, if◌then◌else◌,
  Option-cases, inl, inr,
}
use cpu_manager_go.Prelude.Text.{Bytes, same, same_iff}
use cpu_manager_go.Config.Defs.{Config}

abbrev pub Compile : Type 0
Compile = Bytes → Option (Bytes → Bool)

-- `regexCache`, most recent pattern first.
abbrev pub Cache : Type 0
Cache = List (Bytes × (Bytes → Bool))

abbrev pub load : Bytes → Cache → Option (Bytes → Bool)
load pattern [] = none
load pattern ((p, re) ∷ cache) = if same pattern p then some re else load pattern cache

module _ (compile : Compile) where
  -- What `matchPattern` answers, and the cache that it leaves.
  unfoldable pub match_cached : Bytes → Bytes → Cache → Bool × Cache
  match_cached pattern s cache = elim (load pattern cache) [
    | some re ↦ (re s, cache)
    | none ↦ elim (compile pattern) [
      | none ↦ (false, cache)
      | some re ↦ (re s, (pattern, re) ∷ cache)
    ]
  ]

  -- `matchPattern` without its cache.
  unfoldable pub match_pattern : Bytes → Bytes → Bool
  match_pattern pattern s = elim (compile pattern) [ none ↦ false | some re ↦ re s ]

  -- The body of `IsUserIncluded`, `IsUserIncludedForRAM` and `IsUserIncludedForIO`.
  unfoldable pub included : List Bytes → Bytes → Bool
  included [] username = true
  included (p ∷ patterns) username = any (λ q. match_pattern q username) (p ∷ patterns)

  -- The body of `IsUserExcluded`, `IsUserExcludedForRAM`, `IsUserExcludedForIO`, `IsProcessExcluded`.
  unfoldable pub excluded : List Bytes → Bytes → Bool
  excluded patterns username = any (λ q. match_pattern q username) patterns

  module _ {F : Type 0} (cfg : Config F) where
    unfoldable pub is_user_whitelisted : Bytes → Bool
    is_user_whitelisted u =
        included cfg.user_include_list u && not (excluded cfg.user_exclude_list u)

    unfoldable pub is_user_whitelisted_for_ram : Bytes → Bool
    is_user_whitelisted_for_ram u =
        included cfg.ram_user_include_list u && not (excluded cfg.ram_user_exclude_list u)

    unfoldable pub is_user_whitelisted_for_io : Bytes → Bool
    is_user_whitelisted_for_io u =
        included cfg.io_user_include_list u && not (excluded cfg.io_user_exclude_list u)

    unfoldable pub is_process_excluded : Bytes → Bool
    is_process_excluded name = excluded cfg.process_exclude_list name

  -- Every entry of the cache is the compiled form of its pattern.
  abbrev pub Agrees : Cache → Type 0
  Agrees [] = Unit {0}
  Agrees ((p, re) ∷ cache) = (compile p ≡ some re) × Agrees cache

  load-Agrees :
      (pattern : Bytes) (re : Bytes → Bool) (cache : Cache)
      → Agrees cache
      → load pattern cache ≡ some re
      → compile pattern ≡ some re
  load-Agrees pattern re [] a e = cc
  load-Agrees pattern re ((p, r) ∷ cache) a e =
      ground (arith, same_iff pattern p, load-Agrees pattern re cache a.1)

  -- On a cache whose entries agree with the compiler, `matchPattern` answers as it would without a
  -- cache, and the cache that it leaves agrees too.
  pub match_cached-eq :
      (pattern s : Bytes) (cache : Cache)
      → Agrees cache
      → ((match_cached pattern s cache).0 ≡ match_pattern pattern s)
        × Agrees (match_cached pattern s cache).1
  unfolding match_cached match_pattern
  match_cached-eq pattern s cache a = elim (Option-cases (load pattern cache)) [
    | inl e ↦ elim (Option-cases (compile pattern)) [
      | inl c ↦ ground arith
      | inr (re, c) ↦ ground arith
    ]
    | inr (re, e) ↦ ground (arith, load-Agrees pattern re cache a e)
  ]
