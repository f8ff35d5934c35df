-- ===== src/Metrics/Collector.antt =====
-- metrics/collector.go: the state of `Collector`, the names of the users, the samples of the CPU times
-- of processes, and the cleanup. What gopsutil and /proc answer is an argument.
pub mod Usage
pub mod Scan
pub mod Getters
pub mod Typed
pub mod Calls
use cpu_manager_go.Prelude.{
  ℕ, zero, suc, ◌+◌, ◌*◌, ◌/◌, ◌%◌, ℤ, pos, negsuc, ltb_ℤ, leb_ℤ, Bool, true, false, not, ◌&&◌,
  ◌||◌, Option, none, some, List, [], ◌∷◌, ◌++◌, if◌then◌else◌, leb, ltb, length, is_empty, any,
  ◌==◌,
}
use cpu_manager_go.Prelude.Clock.{Instant, nano, since, seconds}
use cpu_manager_go.Prelude.Dict.{Dict, lookup, put, delete}
use cpu_manager_go.Prelude.Floats.{Floats}
use cpu_manager_go.Prelude.Text.{Bytes, text, same, split, has_prefix, atoi, format_uint}
use cpu_manager_go.Config.Defs.{Config}
use cpu_manager_go.State.Defs.{UserMetrics}
use cpu_manager_go.Metrics.Cache.{Cache, get_cached, set_cached, cleanup_cache}

-- The dynamic types of the values in the cache of metrics.
pub data Value (F : Type 0) : Type 0 where
  user_metrics : Dict (UserMetrics F) → Value F
  float : F → Value F
  uids : List ℕ → Value F
  bytes : ℕ → Value F
  int : ℕ → Value F
  flag : Bool → Value F

pub record Collector (F : Type 0) : Type 0 where
  pub cfg : Config F
  pub cache : Cache Bytes (Value F)
  pub usernames : Cache ℕ Bytes
  pub username_cache_ttl : ℤ
  pub prev_proc_cpu : Dict (F × F)
  pub prev_proc_time : Dict Instant
  pub ema : Dict F

-- A process as gopsutil shows it; `none` is an error. The CPU times are those of the user and of the
-- system; the last field is what `getProcessIO` reads.
pub record Process (F : Type 0) : Type 0 where
  pub pid : ℕ
  pub uid : Option ℕ
  pub statuses : Option (List Bytes)
  pub create_time : Option ℕ
  pub times : Option (F × F)
  pub rss : Option ℕ
  pub io : ℕ × ℕ × ℕ × ℕ

-- What the machine answers during a scan: the processes, the clock, the uptime, the time of the boot,
-- `user.LookupId` and the lines of /etc/passwd; the number of cores, the readings of the whole machine,
-- each as the value that is stored, if there is one, and the answer that is given without storing it
-- otherwise, and the load of the last minute.
pub record Machine (F : Type 0) : Type 0 where
  pub now : Instant
  pub unix_milli : ℕ
  pub uptime : F
  pub boot_time : Option ℕ
  pub processes : List (Process F)
  pub lookup_id : ℕ → Option Bytes
  pub passwd : Option (List Bytes)
  pub cores : ℕ
  pub cpu_percent : Option F × F
  pub used_memory : Option F × F
  pub total_memory : Option F × F
  pub cached_memory : Option F × F
  pub load : Option F

abbrev pub eq_uid : ℕ → ℕ → Bool
eq_uid j k = j == k

abbrev pub max_cache_size : ℕ
max_cache_size = 10000

abbrev pub max_proc_cache_size : ℕ
max_proc_cache_size = 5000

-- The user name of a line `name:password:uid:...` that has the uid.
unfoldable pub passwd_name : ℕ → List Bytes → Option Bytes
passwd_name uid [] = none
passwd_name uid (name ∷ []) = none
passwd_name uid (name ∷ password ∷ []) = none
passwd_name uid (name ∷ password ∷ id ∷ rest) = elim (atoi id) [
  | none ↦ none
  | some n ↦ if leb_ℤ n (pos uid) && leb_ℤ (pos uid) n then some name else none
]

-- `getUsernameFromPasswd`, over the lines of the file.
unfoldable pub find_username : ℕ → List Bytes → Option Bytes
find_username uid [] = none
find_username uid (line ∷ lines) =
    let rest = find_username uid lines in
    if has_prefix line (text "#")
    then rest
    else elim (passwd_name uid (split b':' line)) [ none ↦ rest | some name ↦ some name ]

abbrev pub some_text : Option Bytes → Option Bytes
some_text none = none
some_text (some []) = none
some_text (some (c ∷ s)) = some (c ∷ s)

-- The states, `R` or `running`.
unfoldable pub is_running : Option (List Bytes) → Bool
is_running none = false
is_running (some states) = any (λ s. same s (text "R") || same s (text "running")) states

-- The loop for the oldest process of the cache, from the first one.
unfoldable pub oldest_process : ℕ → Instant → Dict Instant → ℕ
oldest_process pid time [] = pid
oldest_process pid time ((p, t) ∷ times) =
    if ltb t time then oldest_process p t times else oldest_process pid time times

module _ {F : Type 0} where
  -- The name that is looked up.
  unfoldable pub resolve : Machine F → ℕ → Option Bytes
  resolve m uid = elim (some_text (m.lookup_id uid)) [
    | some name ↦ some name
    | none ↦ elim m.passwd [ none ↦ none | some lines ↦ some_text (find_username uid lines) ]
  ]

  unfoldable pub cache_username : Instant → ℕ → Bytes → Collector F → Collector F
  cache_username now uid name c = record c {
    usernames = set_cached eq_uid 0 max_cache_size now uid name c.usernames;
  }

  -- `getUsername`
  unfoldable pub get_username : Machine F → ℕ → Collector F → Bytes × Collector F
  get_username m uid c = elim (get_cached eq_uid m.now c.username_cache_ttl uid c.usernames) [
    | some name ↦ (name, c)
    | none ↦ elim (resolve m uid) [
      | some name ↦ (name, cache_username m.now uid name c)
      | none ↦ (format_uint uid, c)
    ]
  ]

  unfoldable pub is_monitored_user_uid : ℕ → Collector F → Bool
  is_monitored_user_uid uid c =
      leb_ℤ c.cfg.system_uid_min (pos uid) && leb_ℤ (pos uid) c.cfg.system_uid_max

  abbrev pub make_room : Dict Instant → Collector F → Collector F
  make_room [] c = c
  make_room ((p, t) ∷ times) c =
      let pid = oldest_process p t times in
      record c {
        prev_proc_cpu = delete pid c.prev_proc_cpu;
        prev_proc_time = delete pid c.prev_proc_time;
      }

  abbrev pub store_sample : ℕ → F × F → Instant → Collector F → Collector F
  store_sample pid times now c = record c {
    prev_proc_cpu = put pid times c.prev_proc_cpu;
    prev_proc_time = put pid now c.prev_proc_time;
  }

  -- The first sample of a process.
  unfoldable pub first_sample : ℕ → F × F → Instant → Collector F → Collector F
  first_sample pid times now c =
      store_sample pid times now (
        if leb max_proc_cache_size (length c.prev_proc_cpu)
        then make_room c.prev_proc_time c
        else c)

abbrev five_minutes : ℤ
five_minutes = pos (300 * nano)

-- The loop of `cleanupCache` over the processes.
unfoldable pub expire_processes : {F : Type 0} → Instant → Dict Instant → Collector F → Collector F
expire_processes now [] c = c
expire_processes now ((pid, t) ∷ times) c = expire_processes now times (
    if ltb_ℤ five_minutes (since now t)
    then record c {
      prev_proc_cpu = delete pid c.prev_proc_cpu;
      prev_proc_time = delete pid c.prev_proc_time;
    }
    else c)

-- `cleanupCache`
unfoldable pub cleanup_collector : {F : Type 0} → Instant → Collector F → Collector F
cleanup_collector now c =
    let cleaned = record c { cache = cleanup_cache same now five_minutes c.cache } in
    let sampled = expire_processes now cleaned.prev_proc_time cleaned in
    record sampled { usernames = cleanup_cache eq_uid now c.username_cache_ttl sampled.usernames }

-- `SetUsernameCacheTTL`
unfoldable pub set_username_cache_ttl : {F : Type 0} → ℤ → Collector F → Collector F
set_username_cache_ttl ttl c = record c { username_cache_ttl = ttl }
