-- ===== src/Metrics/Collector/Typed.antt =====
-- The types of the values in the cache of metrics.
use mathlib.Core.Path.{subst}
use cpu_manager_go.Prelude.{
  ℕ, ◌≡◌, refl, sym, ◌*◌, ℤ, pos, ltb_ℤ, Bool, true, false, not, ◌&&◌, ◌||◌, Option, none, some,
  List, [], ◌∷◌, if◌then◌else◌, arith, Bool-cases, inl, inr, leb, length,
}
use cpu_manager_go.Prelude.Clock.{Instant, nano, since, seconds}
use cpu_manager_go.Prelude.Dict.{Dict, delete}
use cpu_manager_go.Prelude.Floats.{Floats}
use cpu_manager_go.Prelude.Text.{Bytes, text, same, same_iff, has_prefix}
use cpu_manager_go.Config.Defs.{Config}
use cpu_manager_go.Config.Filter.{Compile}
use cpu_manager_go.State.Defs.{UserMetrics}
use cpu_manager_go.Metrics.Cache.{
  Cache, find, store, drop_key, if_stored, get_cached, oldest, evict, expire, cleanup_cache,
  set_cached,
}
use cpu_manager_go.Metrics.Collector.{
  Value, user_metrics, float, uids, bytes, int, flag, Collector, Machine, max_cache_size,
  expire_processes, cleanup_collector,
}
use cpu_manager_go.Metrics.Collector.Scan.{scan_users}
use cpu_manager_go.Metrics.Collector.Scan.Users.{scan_users-Same}
use cpu_manager_go.Metrics.Collector.Getters.{
  cached_value, cached_for, clear_cache, read_through, store_value, update_collector,
  scan_and_store, metrics_of, or_scan, get_all_user_metrics, answer, get_value,
}

-- The dynamic type of a value, and the one that a key promises.
pub data Kind : Type 0 where
  metrics_kind float_kind uids_kind bytes_kind int_kind flag_kind : Kind

unfoldable pub kind_of : Bytes → Kind
kind_of key =
    if same key (text "all_user_metrics")
    then metrics_kind
    else if same key (text "all_users") || same key (text "limited_users")
    then uids_kind
    else if same key (text "all_users_memory_usage")
        || same key (text "limited_users_memory_usage")
        || has_prefix key (text "memory_usage_uid_")
    then bytes_kind
    else if same key (text "total_cores") || has_prefix key (text "process_count_uid_")
    then int_kind
    else if same key (text "system_under_load")
    then flag_kind
    else float_kind

module _ {F : Type 0} where
  unfoldable pub fits : Kind → Value F → Bool
  fits metrics_kind (user_metrics d) = true
  fits float_kind (float f) = true
  fits uids_kind (uids l) = true
  fits bytes_kind (bytes n) = true
  fits int_kind (int n) = true
  fits flag_kind (flag b) = true
  fits _ _ = false

  -- Every value has the type that its key promises.
  unfoldable pub AllFit : List (Bytes × Value F) → Type 0
  AllFit [] = Unit {0}
  AllFit ((key, v) ∷ values) = (fits (kind_of key) v ≡ true) × AllFit values

  unfoldable pub IsTyped : Collector F → Type 0
  IsTyped c = AllFit c.cache.values

  AllFit-store :
      (key : Bytes) (v : Value F) (values : List (Bytes × Value F))
      → fits (kind_of key) v ≡ true
      → AllFit values
      → AllFit (store same key v values)
  unfolding AllFit store
  AllFit-store key v [] h a = (h, tt)
  AllFit-store key v ((j, w) ∷ values) h a = elim (Bool-cases (same key j)) [
    | inl e ↦ rw e (h, a.1)
    | inr e ↦ rw e (a.0, AllFit-store key v values h a.1)
  ]

  AllFit-drop :
      (key : Bytes) (values : List (Bytes × Value F))
      → AllFit values
      → AllFit (drop_key same key values)
  unfolding AllFit drop_key
  AllFit-drop key [] a = tt
  AllFit-drop key ((j, w) ∷ values) a = elim (Bool-cases (same key j)) [
    | inl e ↦ rw e (AllFit-drop key values a.1)
    | inr e ↦ rw e (a.0, AllFit-drop key values a.1)
  ]

  evict-AllFit :
      (size : ℕ) (now : Instant) (c : Cache Bytes (Value F))
      → AllFit c.values
      → AllFit (evict same [] size now c).values
  unfolding evict
  evict-AllFit size now c a =
      let key = oldest same [] now c.times in
      elim (Bool-cases (leb size (length c.values) && not (same key []))) [
        | inl e ↦ rw e (AllFit-drop key c.values a)
        | inr e ↦ rw e a
      ]

  pub store_value-IsTyped :
      (m : Machine F) (key : Bytes) (v : Value F) (c : Collector F)
      → fits (kind_of key) v ≡ true
      → IsTyped c
      → IsTyped (store_value m key v c)
  unfolding IsTyped store_value set_cached
  store_value-IsTyped m key v c h a =
      AllFit-store key v _ h (evict-AllFit max_cache_size m.now c.cache a)

  find-fits :
      (key : Bytes) (v : Value F) (values : List (Bytes × Value F))
      → AllFit values
      → find same key values ≡ some v
      → fits (kind_of key) v ≡ true
  unfolding AllFit find
  find-fits key v [] a e = cc
  find-fits key v ((j, w) ∷ values) a e = elim (Bool-cases (same key j)) [
    | inl s ↦
        let eq_key : j ≡ key = sym ((same_iff key j).0 s) in
        let eq_value : w ≡ v = ground arith in
        subst (λ k. fits (kind_of k) v ≡ true) eq_key
          (subst (λ x. fits (kind_of j) x ≡ true) eq_value a.0)
    | inr n ↦ find-fits key v values a.1 (ground arith)
  ]

  if_stored-some :
      (now : Instant) (ttl : ℤ) (o : Option (Value F)) (t : Option Instant) (v : Value F)
      → if_stored now ttl o t ≡ some v
      → o ≡ some v
  if_stored-some now ttl none t v e = cc
  if_stored-some now ttl (some w) none v e = cc
  if_stored-some now ttl (some w) (some t) v e = ground arith

  pub cached_for-fits :
      (ttl : ℤ) (m : Machine F) (key : Bytes) (v : Value F) (c : Collector F)
      → IsTyped c
      → cached_for ttl m key c ≡ some v
      → fits (kind_of key) v ≡ true
  unfolding IsTyped cached_for get_cached
  cached_for-fits ttl m key v c a e =
      find-fits key v c.cache.values a
        (if_stored-some m.now ttl (find same key c.cache.values) (find same key c.cache.times) v e)

  cached_value-fits :
      (m : Machine F) (key : Bytes) (v : Value F) (c : Collector F)
      → IsTyped c
      → cached_value m key c ≡ some v
      → fits (kind_of key) v ≡ true
  unfolding cached_value cached_for
  cached_value-fits m key v c a e = cached_for-fits (seconds c.cfg.metrics_cache_ttl) m key v c a e

  expire-AllFit :
      (now : Instant) (ttl : ℤ) (times : List (Bytes × Instant)) (c : Cache Bytes (Value F))
      → AllFit c.values
      → AllFit (expire same now ttl times c).values
  unfolding expire AllFit
  expire-AllFit now ttl [] c a = a
  expire-AllFit now ttl ((key, t) ∷ times) c a = elim (Bool-cases (ltb_ℤ ttl (since now t))) [
    | inl e ↦ rw (AllFit, expire, e) (expire-AllFit now ttl times _ (AllFit-drop key c.values a))
    | inr e ↦ rw (AllFit, expire, e) (expire-AllFit now ttl times c a)
  ]

  expire_processes-cache :
      (now : Instant) (times : Dict Instant) (c : Collector F)
      → (expire_processes now times c).cache ≡ c.cache
  unfolding expire_processes
  expire_processes-cache now [] c = refl
  expire_processes-cache now ((pid, t) ∷ times) c =
      let gone = record c {
        prev_proc_cpu = delete pid c.prev_proc_cpu;
        prev_proc_time = delete pid c.prev_proc_time;
      } in
      ground (arith, expire_processes-cache now times c, expire_processes-cache now times gone)

  pub cleanup_collector-IsTyped :
      (now : Instant) (c : Collector F) → IsTyped c → IsTyped (cleanup_collector now c)
  unfolding cleanup_collector cleanup_cache IsTyped
  cleanup_collector-IsTyped now c a =
      let age : ℤ = pos (300 * nano) in
      let cleaned = record c { cache = expire same now age c.cache.times c.cache } in
      let kept = expire_processes-cache now cleaned.prev_proc_time cleaned in
      subst (λ k. AllFit k.values) (sym kept) (expire-AllFit now age c.cache.times c.cache a)

  pub clear_cache-IsTyped : (c : Collector F) → IsTyped (clear_cache c)
  unfolding clear_cache IsTyped AllFit
  clear_cache-IsTyped c = tt

  pub update_collector-IsTyped :
      (new : Config F) (c : Collector F) → IsTyped (update_collector new c)
  unfolding update_collector IsTyped AllFit
  update_collector-IsTyped new c = tt

module _ (fl : Floats) (compile : Compile) where
  scan_and_store-IsTyped :
      (m : Machine fl.F) (c : Collector fl.F)
      → IsTyped c
      → IsTyped (scan_and_store fl compile m c).1
  scan_and_store-IsTyped m c t =
      let (metrics, scanned) = scan_users fl compile m c in
      let kept = scan_users-Same fl compile m c in
      let typed : IsTyped scanned = unfold IsTyped in subst (λ k. AllFit k.values) (sym kept.0) t in
      store_value-IsTyped m (text "all_user_metrics") (user_metrics metrics) scanned
        (unfold kind_of in unfold fits in refl) typed

  or_scan-IsTyped :
      (m : Machine fl.F) (c : Collector fl.F) (o : Option (Dict (UserMetrics fl.F)))
      → IsTyped c
      → IsTyped (or_scan fl compile m c o).1
  or_scan-IsTyped m c none t = scan_and_store-IsTyped m c t
  or_scan-IsTyped m c (some d) t = t

  pub get_all_user_metrics-IsTyped :
      (m : Machine fl.F) (c : Collector fl.F)
      → IsTyped c
      → IsTyped (get_all_user_metrics fl compile m c).1
  unfolding get_all_user_metrics
  get_all_user_metrics-IsTyped m c t =
      or_scan-IsTyped m c (metrics_of (cached_value m (text "all_user_metrics") c)) t

  -- A getter returns, and leaves a cache with values of the right types.
  abbrev pub Returns : {A : Type 0} → Option A × Collector fl.F → Type 0
  Returns {A} r = ((a : A) × (r.0 ≡ some a)) × IsTyped r.1

  module _ {A : Type 0} (key : Bytes) (assertion : Value fl.F → Option A) (wrap : A → Value fl.F)
      (compute : Dict (UserMetrics fl.F) → A)
      (asserts : (v : Value fl.F) → fits (kind_of key) v ≡ true → (a : A) × (assertion v ≡ some a))
      (wraps : (a : A) → fits (kind_of key) (wrap a) ≡ true) where
    answer-Returns :
        (m : Machine fl.F) (c : Collector fl.F) (o : Option (Value fl.F))
        → ((v : Value fl.F) → o ≡ some v → fits (kind_of key) v ≡ true)
        → IsTyped c
        → Returns (answer fl compile key assertion wrap compute m c o)
    unfolding answer
    answer-Returns m c (some v) f t = (asserts v (f v refl), t)
    answer-Returns m c none f t =
        let (metrics, next) = get_all_user_metrics fl compile m c in
        (
          (compute metrics, refl),
          store_value-IsTyped m key (wrap (compute metrics)) next (wraps (compute metrics))
              (get_all_user_metrics-IsTyped m c t),
        )

    pub get_value-Returns :
        (m : Machine fl.F) (c : Collector fl.F)
        → IsTyped c
        → Returns (get_value fl compile key assertion wrap compute m c)
    unfolding get_value
    get_value-Returns m c t =
        answer-Returns m c (cached_value m key c) (λ v e. cached_value-fits m key v c t e) t

    pub read_through-Returns :
        (m : Machine fl.F) (o : Option (Value fl.F)) (reading : Option A × A) (c : Collector fl.F)
        → ((v : Value fl.F) → o ≡ some v → fits (kind_of key) v ≡ true)
        → IsTyped c
        → Returns (read_through key assertion wrap m o reading c)
    unfolding read_through
    read_through-Returns m (some v) reading c f t = (asserts v (f v refl), t)
    read_through-Returns m none (some a, fallback) c f t =
        ((a, refl), store_value-IsTyped m key (wrap a) c (wraps a) t)
    read_through-Returns m none (none, fallback) c f t = ((fallback, refl), t)

    pub read_value-Returns :
        (m : Machine fl.F) (reading : Option A × A) (c : Collector fl.F)
        → IsTyped c
        → Returns (read_through key assertion wrap m (cached_value m key c) reading c)
    read_value-Returns m reading c t =
        read_through-Returns m (cached_value m key c) reading c
          (λ v e. cached_value-fits m key v c t e) t

    pub read_for-Returns :
        (ttl : ℤ) (m : Machine fl.F) (reading : Option A × A) (c : Collector fl.F)
        → IsTyped c
        → Returns (read_through key assertion wrap m (cached_for ttl m key c) reading c)
    read_for-Returns ttl m reading c t =
        read_through-Returns m (cached_for ttl m key c) reading c
          (λ v e. cached_for-fits ttl m key v c t e) t
