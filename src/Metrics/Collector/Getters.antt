-- ===== src/Metrics/Collector/Getters.antt =====
-- metrics/collector.go: the getters that go through the cache of metrics. A value of the cache is
-- asserted to have the type that its key promises; an assertion that fails is a panic, which is `none`.
use cpu_manager_go.Prelude.{
  ℕ, ℤ, pos, Bool, true, false, Option, none, some, List, [], ◌∷◌, ◌++◌, if◌then◌else◌,
}
use cpu_manager_go.Prelude.Clock.{seconds}
use cpu_manager_go.Prelude.Dict.{Dict, lookup}
use cpu_manager_go.Prelude.Floats.{Floats}
use cpu_manager_go.Prelude.Text.{Bytes, text, same, format_uint}
use cpu_manager_go.Config.Defs.{Config}
use cpu_manager_go.Config.Filter.{Compile}
use cpu_manager_go.State.Defs.{UserMetrics}
use cpu_manager_go.Metrics.Cache.{get_cached, set_cached}
use cpu_manager_go.Metrics.Collector.{
  Value, user_metrics, float, uids, bytes, int, flag, Collector, Machine, max_cache_size,
  is_monitored_user_uid,
}
use cpu_manager_go.Metrics.Collector.Scan.{add64, scan_users}

module _ {F : Type 0} where
  abbrev pub as_float : Value F → Option F
  as_float (float f) = some f
  as_float _ = none

  abbrev pub as_uids : Value F → Option (List ℕ)
  as_uids (uids l) = some l
  as_uids _ = none

  abbrev pub as_bytes : Value F → Option ℕ
  as_bytes (bytes n) = some n
  as_bytes _ = none

  abbrev pub as_int : Value F → Option ℕ
  as_int (int n) = some n
  as_int _ = none

  abbrev pub as_flag : Value F → Option Bool
  as_flag (flag b) = some b
  as_flag _ = none

  abbrev pub as_user_metrics : Value F → Option (Dict (UserMetrics F))
  as_user_metrics (user_metrics d) = some d
  as_user_metrics _ = none

  abbrev pub metrics_of : Option (Value F) → Option (Dict (UserMetrics F))
  metrics_of none = none
  metrics_of (some v) = as_user_metrics v

  unfoldable pub cached_value : Machine F → Bytes → Collector F → Option (Value F)
  cached_value m key c = get_cached same m.now (seconds c.cfg.metrics_cache_ttl) key c.cache

  -- The same with a lifetime of its own.
  unfoldable pub cached_for : ℤ → Machine F → Bytes → Collector F → Option (Value F)
  cached_for ttl m key c = get_cached same m.now ttl key c.cache

  unfoldable pub store_value : Machine F → Bytes → Value F → Collector F → Collector F
  store_value m key v c = record c { cache = set_cached same [] max_cache_size m.now key v c.cache }

  unfoldable pub update_collector : Config F → Collector F → Collector F
  update_collector new c = record c { cfg = new; cache = record { values = []; times = [] } }

  unfoldable pub clear_cache : Collector F → Collector F
  clear_cache c = record c { cache = record { values = []; times = [] } }

  module _ {A : Type 0} (key : Bytes) (assertion : Value F → Option A) (wrap : A → Value F) where
    -- What is read where the cache has no value: a fallback is not stored.
    abbrev pub read : Machine F → Option A × A → Collector F → Option A × Collector F
    read m (some a, fallback) c = (some a, store_value m key (wrap a) c)
    read m (none, fallback) c = (some fallback, c)

    unfoldable pub read_through :
        Machine F → Option (Value F) → Option A × A → Collector F → Option A × Collector F
    read_through m none reading c = read m reading c
    read_through m (some v) reading c = (assertion v, c)

module _ (fl : Floats) (compile : Compile) where
  open fl use {F, of_nat, add, mul, div, ltb}

  abbrev pub scan_and_store : Machine F → Collector F → Dict (UserMetrics F) × Collector F
  scan_and_store m c =
      let (metrics, scanned) = scan_users fl compile m c in
      (metrics, store_value m (text "all_user_metrics") (user_metrics metrics) scanned)

  abbrev pub or_scan :
      Machine F → Collector F → Option (Dict (UserMetrics F)) → Dict (UserMetrics F) × Collector F
  or_scan m c none = scan_and_store m c
  or_scan m c (some d) = (d, c)

  -- `GetAllUserMetrics`: a value of another type is scanned for again.
  unfoldable pub get_all_user_metrics : Machine F → Collector F → Dict (UserMetrics F) × Collector F
  get_all_user_metrics m c = or_scan m c (metrics_of (cached_value m (text "all_user_metrics") c))

  module _ {A : Type 0} (key : Bytes) (assertion : Value F → Option A) (wrap : A → Value F)
      (compute : Dict (UserMetrics F) → A) where
    unfoldable pub answer : Machine F → Collector F → Option (Value F) → Option A × Collector F
    answer m c (some v) = (assertion v, c)
    answer m c none =
        let (metrics, next) = get_all_user_metrics m c in
        (some (compute metrics), store_value m key (wrap (compute metrics)) next)

    -- A getter: the cached value, or what it computes of the metrics of all users.
    unfoldable pub get_value : Machine F → Collector F → Option A × Collector F
    get_value m c = answer m c (cached_value m key c)

  unfoldable pub sum_cpu : (UserMetrics F → Bool) → Dict (UserMetrics F) → F → F
  sum_cpu p [] total = total
  sum_cpu p ((uid, um) ∷ d) total = sum_cpu p d (if p um then add total um.cpu_usage else total)

  unfoldable pub sum_memory : (UserMetrics F → Bool) → Dict (UserMetrics F) → ℕ → ℕ
  sum_memory p [] total = total
  sum_memory p ((uid, um) ∷ d) total =
      sum_memory p d (if p um then add64 total um.memory_usage else total)

  unfoldable pub select_uids : (UserMetrics F → Bool) → Dict (UserMetrics F) → List ℕ
  select_uids p [] = []
  select_uids p ((uid, um) ∷ d) = let rest = select_uids p d in if p um then uid ∷ rest else rest

  abbrev pub all : UserMetrics F → Bool
  all um = true

  abbrev pub limited : UserMetrics F → Bool
  limited um = um.is_limited

  unfoldable pub get_all_users_cpu_usage : Machine F → Collector F → Option F × Collector F
  get_all_users_cpu_usage =
      get_value (text "all_users_cpu_usage") as_float float (λ d. sum_cpu all d (of_nat 0))

  unfoldable pub get_limited_users_cpu_usage : Machine F → Collector F → Option F × Collector F
  get_limited_users_cpu_usage =
      get_value (text "limited_users_cpu_usage") as_float float (λ d. sum_cpu limited d (of_nat 0))

  unfoldable pub get_all_users : Machine F → Collector F → Option (List ℕ) × Collector F
  get_all_users = get_value (text "all_users") as_uids uids (λ d. select_uids all d)

  unfoldable pub get_limited_users : Machine F → Collector F → Option (List ℕ) × Collector F
  get_limited_users = get_value (text "limited_users") as_uids uids (λ d. select_uids limited d)

  unfoldable pub get_all_users_memory_usage : Machine F → Collector F → Option ℕ × Collector F
  get_all_users_memory_usage =
      get_value (text "all_users_memory_usage") as_bytes bytes (λ d. sum_memory all d 0)

  unfoldable pub get_limited_users_memory_usage : Machine F → Collector F → Option ℕ × Collector F
  get_limited_users_memory_usage =
      get_value (text "limited_users_memory_usage") as_bytes bytes (λ d. sum_memory limited d 0)

  abbrev pub of_user : {A : Type 0} → ℕ → A → (UserMetrics F → A) → Dict (UserMetrics F) → A
  of_user uid default f d = elim (lookup uid d) [ none ↦ default | some um ↦ f um ]

  unfoldable pub get_user_cpu_usage : ℕ → Machine F → Collector F → Option F × Collector F
  get_user_cpu_usage uid m c =
      if is_monitored_user_uid uid c
      then get_value (text "cpu_usage_uid_" ++ format_uint uid) as_float float
          (of_user uid (of_nat 0) (λ um. um.cpu_usage)) m c
      else (some (of_nat 0), c)

  unfoldable pub get_user_memory_usage : ℕ → Machine F → Collector F → Option ℕ × Collector F
  get_user_memory_usage uid m c =
      if is_monitored_user_uid uid c
      then get_value (text "memory_usage_uid_" ++ format_uint uid) as_bytes bytes
          (of_user uid 0 (λ um. um.memory_usage)) m c
      else (some 0, c)

  unfoldable pub get_user_process_count : ℕ → Machine F → Collector F → Option ℕ × Collector F
  get_user_process_count uid m c =
      if is_monitored_user_uid uid c
      then get_value (text "process_count_uid_" ++ format_uint uid) as_int int
          (of_user uid 0 (λ um. um.process_count)) m c
      else (some 0, c)

  unfoldable pub get_total_cores : Machine F → Collector F → Option ℕ × Collector F
  get_total_cores m c =
      read_through (text "total_cores") as_int int m
        (cached_for (seconds (pos 3600)) m (text "total_cores") c) (some m.cores, m.cores) c

  unfoldable pub get_total_cpu_usage : Machine F → Collector F → Option F × Collector F
  get_total_cpu_usage m c =
      read_through (text "total_cpu_usage") as_float float m
        (cached_value m (text "total_cpu_usage") c) m.cpu_percent c

  unfoldable pub get_memory_usage : Machine F → Collector F → Option F × Collector F
  get_memory_usage m c =
      read_through (text "memory_usage") as_float float m (cached_value m (text "memory_usage") c)
        m.used_memory c

  unfoldable pub get_total_memory_mb : Machine F → Collector F → Option F × Collector F
  get_total_memory_mb m c =
      read_through (text "total_memory") as_float float m (cached_value m (text "total_memory") c)
        m.total_memory c

  unfoldable pub get_cached_memory_mb : Machine F → Collector F → Option F × Collector F
  get_cached_memory_mb m c =
      read_through (text "cached_memory") as_float float m (cached_value m (text "cached_memory") c)
        m.cached_memory c

  -- The load is above 0.7 for each core.
  abbrev pub compare_load : Machine F → F → Option ℕ × Collector F → Option Bool × Collector F
  compare_load m load (none, c) = (none, c)
  compare_load m load (some cores, c) =
      let under = ltb (mul (of_nat cores) (div (of_nat 7) (of_nat 10))) load in
      (some under, store_value m (text "system_under_load") (flag under) c)

  abbrev pub load_of :
      Machine F → Option F → Option (Value F) → Collector F → Option Bool × Collector F
  load_of m load (some v) c = (as_flag v, c)
  load_of m none none c = (some false, c)
  load_of m (some load) none c = compare_load m load (get_total_cores m c)

  -- `IsSystemUnderLoad`, with `getLoadAverage`.
  unfoldable pub is_system_under_load : Machine F → Collector F → Option Bool × Collector F
  is_system_under_load m c =
      load_of m m.load (cached_for (seconds (pos 10)) m (text "system_under_load") c) c
