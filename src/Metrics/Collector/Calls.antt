-- ===== src/Metrics/Collector/Calls.antt =====
-- Calls of the collector's getters, one after another.
use cpu_manager_go.Prelude.{
  ℕ, ◌≡◌, refl, Bool, true, false, Option, none, some, List, [], ◌∷◌, if◌then◌else◌, arith,
  Bool-cases, inl, inr,
}
use cpu_manager_go.Prelude.{pos}
use cpu_manager_go.Prelude.Clock.{seconds}
use cpu_manager_go.Prelude.Text.{text}
use cpu_manager_go.Prelude.Floats.{Floats}
use cpu_manager_go.Config.Defs.{Config}
use cpu_manager_go.Config.Filter.{Compile}
use cpu_manager_go.Metrics.Collector.{
  Value, user_metrics, float, uids, bytes, int, flag, cleanup_collector, Collector, Machine,
  is_monitored_user_uid,
}
use cpu_manager_go.Metrics.Collector.Getters.{
  as_float, as_uids, as_bytes, as_int, update_collector, get_all_user_metrics,
  get_all_users_cpu_usage, get_limited_users_cpu_usage, get_all_users, get_limited_users,
  get_all_users_memory_usage, get_limited_users_memory_usage, get_user_cpu_usage,
  get_user_memory_usage, get_user_process_count, as_flag, get_total_cores, get_total_cpu_usage,
  get_memory_usage, get_total_memory_mb, get_cached_memory_mb, is_system_under_load, clear_cache,
  cached_for, compare_load, load_of,
}
use cpu_manager_go.Metrics.Collector.Typed.{
  float_kind, uids_kind, bytes_kind, int_kind, flag_kind, kind_of, fits, IsTyped, Returns,
  get_value-Returns, get_all_user_metrics-IsTyped, update_collector-IsTyped, read_value-Returns,
  read_for-Returns, store_value-IsTyped, cached_for-fits, cleanup_collector-IsTyped,
  clear_cache-IsTyped,
}

pub data Call (F : Type 0) : Type 0 where
  all_metrics all_users_cpu limited_users_cpu all_users limited_users all_users_memory
        limited_users_memory total_cores total_cpu memory total_memory cached_memory under_load
        cleanup clear :
      Call F
  user_cpu user_memory user_processes : ℕ → Call F
  reconfigure : Config F → Call F

abbrev returned : {A : Type 0} → Option A → Bool
returned none = false
returned (some a) = true

module _ (fl : Floats) (compile : Compile) where
  open fl use {F}

  abbrev outcome : {A : Type 0} → Option A × Collector F → Bool × Collector F
  outcome r = (returned r.0, r.1)

  -- Whether the call returns, and the collector that it leaves.
  unfoldable pub call : Call F → Machine F → Collector F → Bool × Collector F
  call all_metrics m c = (true, (get_all_user_metrics fl compile m c).1)
  call all_users_cpu m c = outcome (get_all_users_cpu_usage fl compile m c)
  call limited_users_cpu m c = outcome (get_limited_users_cpu_usage fl compile m c)
  call all_users m c = outcome (get_all_users fl compile m c)
  call limited_users m c = outcome (get_limited_users fl compile m c)
  call all_users_memory m c = outcome (get_all_users_memory_usage fl compile m c)
  call limited_users_memory m c = outcome (get_limited_users_memory_usage fl compile m c)
  call (user_cpu uid) m c = outcome (get_user_cpu_usage fl compile uid m c)
  call (user_memory uid) m c = outcome (get_user_memory_usage fl compile uid m c)
  call (user_processes uid) m c = outcome (get_user_process_count fl compile uid m c)
  call total_cores m c = outcome (get_total_cores fl compile m c)
  call total_cpu m c = outcome (get_total_cpu_usage fl compile m c)
  call memory m c = outcome (get_memory_usage fl compile m c)
  call total_memory m c = outcome (get_total_memory_mb fl compile m c)
  call cached_memory m c = outcome (get_cached_memory_mb fl compile m c)
  call under_load m c = outcome (is_system_under_load fl compile m c)
  call cleanup m c = (true, cleanup_collector m.now c)
  call clear m c = (true, clear_cache c)
  call (reconfigure new) m c = (true, update_collector new c)

  -- Whether all calls return.
  unfoldable pub calls_return : List (Call F × Machine F) → Collector F → Bool
  calls_return [] c = true
  calls_return ((k, m) ∷ calls) c =
      let (returns, next) = call k m c in if returns then calls_return calls next else false

  abbrev Good : Bool × Collector F → Type 0
  Good r = (r.0 ≡ true) × IsTyped r.1

  outcome-Good : {A : Type 0} (r : Option A × Collector F) → Returns fl compile r → Good (outcome r)
  outcome-Good (o, c) ((a, e), t) = (rw e refl, t)

  float-asserts : (v : Value F) → fits float_kind v ≡ true → (a : F) × (as_float v ≡ some a)
  unfolding fits
  float-asserts (float f) h = (f, refl)
  float-asserts (user_metrics d) h = absurd (ground arith)
  float-asserts (uids d) h = absurd (ground arith)
  float-asserts (bytes d) h = absurd (ground arith)
  float-asserts (int d) h = absurd (ground arith)
  float-asserts (flag b) h = absurd (ground arith)

  uids-asserts : (v : Value F) → fits uids_kind v ≡ true → (a : List ℕ) × (as_uids v ≡ some a)
  unfolding fits
  uids-asserts (uids l) h = (l, refl)
  uids-asserts (user_metrics d) h = absurd (ground arith)
  uids-asserts (float d) h = absurd (ground arith)
  uids-asserts (bytes d) h = absurd (ground arith)
  uids-asserts (int d) h = absurd (ground arith)
  uids-asserts (flag b) h = absurd (ground arith)

  bytes-asserts : (v : Value F) → fits bytes_kind v ≡ true → (a : ℕ) × (as_bytes v ≡ some a)
  unfolding fits
  bytes-asserts (bytes n) h = (n, refl)
  bytes-asserts (user_metrics d) h = absurd (ground arith)
  bytes-asserts (float d) h = absurd (ground arith)
  bytes-asserts (uids d) h = absurd (ground arith)
  bytes-asserts (int d) h = absurd (ground arith)
  bytes-asserts (flag b) h = absurd (ground arith)

  int-asserts : (v : Value F) → fits int_kind v ≡ true → (a : ℕ) × (as_int v ≡ some a)
  unfolding fits
  int-asserts (int n) h = (n, refl)
  int-asserts (user_metrics d) h = absurd (ground arith)
  int-asserts (float d) h = absurd (ground arith)
  int-asserts (uids d) h = absurd (ground arith)
  int-asserts (bytes d) h = absurd (ground arith)
  int-asserts (flag b) h = absurd (ground arith)

  flag-asserts : (v : Value F) → fits flag_kind v ≡ true → (a : Bool) × (as_flag v ≡ some a)
  unfolding fits
  flag-asserts (flag b) h = (b, refl)
  flag-asserts (user_metrics d) h = absurd (ground arith)
  flag-asserts (float d) h = absurd (ground arith)
  flag-asserts (uids d) h = absurd (ground arith)
  flag-asserts (bytes d) h = absurd (ground arith)
  flag-asserts (int d) h = absurd (ground arith)

  get_total_cores-Returns :
      (m : Machine F) (c : Collector F)
      → IsTyped c
      → Returns fl compile (get_total_cores fl compile m c)
  unfolding get_total_cores kind_of fits
  get_total_cores-Returns m c t =
      read_for-Returns fl compile (text "total_cores") as_int int (λ d. 0) int-asserts (λ a. refl) _
        m (some m.cores, m.cores) c t

  compare_load-Returns :
      (m : Machine F) (load : F) (r : Option ℕ × Collector F)
      → Returns fl compile r
      → Returns fl compile (compare_load fl compile m load r)
  unfolding kind_of fits
  compare_load-Returns m load (none, c) r = absurd (ground arith)
  compare_load-Returns m load (some cores, c) r =
      ((_, refl), store_value-IsTyped m (text "system_under_load") (flag _) c refl r.1)

  load_of-Returns :
      (m : Machine F) (load : Option F) (o : Option (Value F)) (c : Collector F)
      → ((v : Value F) → o ≡ some v → fits flag_kind v ≡ true)
      → IsTyped c
      → Returns fl compile (load_of fl compile m load o c)
  load_of-Returns m load (some v) c f t = (flag-asserts v (f v refl), t)
  load_of-Returns m none none c f t = ((false, refl), t)
  load_of-Returns m (some load) none c f t =
      compare_load-Returns m load _ (get_total_cores-Returns m c t)

  call-Good : (k : Call F) (m : Machine F) (c : Collector F) → IsTyped c → Good (call k m c)
  unfolding call kind_of fits get_all_users_cpu_usage get_limited_users_cpu_usage get_all_users
      get_limited_users get_all_users_memory_usage get_limited_users_memory_usage get_user_cpu_usage
      get_user_memory_usage get_user_process_count get_total_cpu_usage get_memory_usage
      get_total_memory_mb get_cached_memory_mb is_system_under_load
  call-Good all_metrics m c t = (refl, get_all_user_metrics-IsTyped fl compile m c t)
  call-Good all_users_cpu m c t =
      outcome-Good _
        (get_value-Returns fl compile _ as_float float _ float-asserts (λ a. refl) m c t)
  call-Good limited_users_cpu m c t =
      outcome-Good _
        (get_value-Returns fl compile _ as_float float _ float-asserts (λ a. refl) m c t)
  call-Good all_users m c t =
      outcome-Good _ (get_value-Returns fl compile _ as_uids uids _ uids-asserts (λ a. refl) m c t)
  call-Good limited_users m c t =
      outcome-Good _ (get_value-Returns fl compile _ as_uids uids _ uids-asserts (λ a. refl) m c t)
  call-Good all_users_memory m c t =
      outcome-Good _
        (get_value-Returns fl compile _ as_bytes bytes _ bytes-asserts (λ a. refl) m c t)
  call-Good limited_users_memory m c t =
      outcome-Good _
        (get_value-Returns fl compile _ as_bytes bytes _ bytes-asserts (λ a. refl) m c t)
  call-Good (user_cpu uid) m c t = elim (Bool-cases (is_monitored_user_uid uid c)) [
    | inl e ↦ rw e (
        outcome-Good _
          (get_value-Returns fl compile _ as_float float _ float-asserts (λ a. refl) m c t))
    | inr e ↦ rw e (refl, t)
  ]
  call-Good (user_memory uid) m c t = elim (Bool-cases (is_monitored_user_uid uid c)) [
    | inl e ↦ rw e (
        outcome-Good _
          (get_value-Returns fl compile _ as_bytes bytes _ bytes-asserts (λ a. refl) m c t))
    | inr e ↦ rw e (refl, t)
  ]
  call-Good (user_processes uid) m c t = elim (Bool-cases (is_monitored_user_uid uid c)) [
    | inl e ↦
        rw e (
          outcome-Good _
            (get_value-Returns fl compile _ as_int int _ int-asserts (λ a. refl) m c t))
    | inr e ↦ rw e (refl, t)
  ]
  call-Good total_cores m c t = outcome-Good _ (get_total_cores-Returns m c t)
  call-Good total_cpu m c t = outcome-Good _ (
      read_value-Returns fl compile (text "total_cpu_usage") as_float float (λ d. fl.of_nat 0)
        float-asserts (λ a. refl) m _ c t)
  call-Good memory m c t = outcome-Good _ (
      read_value-Returns fl compile (text "memory_usage") as_float float (λ d. fl.of_nat 0)
        float-asserts (λ a. refl) m _ c t)
  call-Good total_memory m c t = outcome-Good _ (
      read_value-Returns fl compile (text "total_memory") as_float float (λ d. fl.of_nat 0)
        float-asserts (λ a. refl) m _ c t)
  call-Good cached_memory m c t = outcome-Good _ (
      read_value-Returns fl compile (text "cached_memory") as_float float (λ d. fl.of_nat 0)
        float-asserts (λ a. refl) m _ c t)
  call-Good under_load m c t = outcome-Good _ (
      load_of-Returns m m.load (cached_for (seconds (pos 10)) m (text "system_under_load") c) c
        (λ v e. cached_for-fits (seconds (pos 10)) m (text "system_under_load") v c t e) t)
  call-Good cleanup m c t = (refl, cleanup_collector-IsTyped m.now c t)
  call-Good clear m c t = (refl, clear_cache-IsTyped c)
  call-Good (reconfigure new) m c t = (refl, update_collector-IsTyped new c)

  -- Whatever the machine answers, no type assertion on a value of the cache fails in any sequence of
  -- calls of the getters that read the cache, of `ClearCache`, of `cleanupCache` and of `UpdateConfig`,
  -- in any order: every call returns, if the values that the cache starts with have the types that
  -- their keys promise.
  pub calls_return-true :
      (calls : List (Call F × Machine F)) (c : Collector F)
      → IsTyped c
      → calls_return calls c ≡ true
  unfolding calls_return
  calls_return-true [] c t = refl
  calls_return-true ((k, m) ∷ calls) c t =
      let good = call-Good k m c t in
      let rest = calls_return-true calls (call k m c).1 good.1 in ground arith
