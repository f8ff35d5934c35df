-- ===== src/Metrics/Collector/Scan/Users.antt =====
-- What a scan leaves alone, and the users that it finds.
use cpu_manager_go.Prelude.{
  ℕ, ◌≡◌, refl, ◌∙◌, Option, none, some, List, [], ◌∷◌, arith, Bool-cases, Option-cases, inl, inr,
  leb, length,
}
use cpu_manager_go.Prelude.Dict.{Dict, lookup}
use cpu_manager_go.Prelude.Floats.{Floats}
use cpu_manager_go.Config.Filter.{Compile}
use cpu_manager_go.State.Defs.{UserMetrics}
use cpu_manager_go.Metrics.Cache.{get_cached}
use cpu_manager_go.Metrics.Collector.{
  Collector, Machine, Process, make_room, first_sample, is_monitored_user_uid, eq_uid, resolve,
  cache_username, get_username,
}
use cpu_manager_go.Metrics.Collector.Usage.{
  since_sample, sample, is_process_running_long_enough, get_process_cpu_usage, calculate_ema,
}
use cpu_manager_go.Metrics.Collector.Scan.{
  UserData, scan_process, scan_processes, scan_io, merge_io, convert, convert_all, scan_users,
}

-- The cache of metrics and the configuration stay.
abbrev pub Same : {F : Type 0} → Collector F → Collector F → Type 0
Same c d = (d.cache ≡ c.cache) × (d.cfg ≡ c.cfg)

module _ {F : Type 0} where
  Same-refl : (c : Collector F) → Same c c
  Same-refl c = (refl, refl)

  Same-trans : (b c d : Collector F) → Same b c → Same c d → Same b d
  Same-trans b c d h k = (k.0 ∙ h.0, k.1 ∙ h.1)

  make_room-Same : (times : Dict ℕ) (c : Collector F) → Same c (make_room times c)
  make_room-Same [] c = (refl, refl)
  make_room-Same ((p, t) ∷ times) c = (refl, refl)

  first_sample-Same :
      (pid : ℕ) (times : F × F) (now : ℕ) (c : Collector F) → Same c (first_sample pid times now c)
  unfolding first_sample
  first_sample-Same pid times now c = elim (Bool-cases (leb 5000 (length c.prev_proc_cpu))) [
    | inl e ↦ rw e (make_room-Same c.prev_proc_time c)
    | inr e ↦ rw e (refl, refl)
  ]

module _ (fl : Floats) where
  sample-Same :
      (m : Machine fl.F) (pid : ℕ) (times : fl.F × fl.F) (o : Option fl.F) (c : Collector fl.F)
      → Same c (sample fl m pid times o c).1
  sample-Same m pid times (some percent) c = (refl, refl)
  sample-Same m pid times none c = first_sample-Same pid times m.now c

  get_process_cpu_usage-Same :
      (m : Machine fl.F) (p : Process fl.F) (c : Collector fl.F)
      → Same c (get_process_cpu_usage fl m p c).1
  unfolding get_process_cpu_usage
  get_process_cpu_usage-Same m p c = elim (Bool-cases (is_process_running_long_enough fl m p c)) [
    | inl e ↦ elim (Option-cases p.times) [
      | inl n ↦ ground arith
      | inr (times, n) ↦
          let o =
            since_sample fl m times (lookup p.pid c.prev_proc_cpu)
              (lookup p.pid c.prev_proc_time) in
          let kept = sample-Same m p.pid times o c in ground arith
    ]
    | inr e ↦ ground arith
  ]

  scan_process-Same :
      (m : Machine fl.F) (p : Process fl.F) (o : Option ℕ)
      (s : Dict (UserData fl.F) × Collector fl.F)
      → Same s.1 (scan_process fl m p o s).1
  unfolding scan_process
  scan_process-Same m p none s = (refl, refl)
  scan_process-Same m p (some uid) (d, c) = elim (Bool-cases (is_monitored_user_uid uid c)) [
    | inl e ↦ rw e (get_process_cpu_usage-Same m p c)
    | inr e ↦ rw e (refl, refl)
  ]

  scan_processes-Same :
      (m : Machine fl.F) (ps : List (Process fl.F)) (s : Dict (UserData fl.F) × Collector fl.F)
      → Same s.1 (scan_processes fl m ps s).1
  unfolding scan_processes
  scan_processes-Same m [] s = (refl, refl)
  scan_processes-Same m (p ∷ ps) s =
      let next = scan_process fl m p p.uid s in
      Same-trans s.1 next.1 (scan_processes fl m ps next).1 (scan_process-Same m p p.uid s)
        (scan_processes-Same m ps next)

  get_username-Same :
      (m : Machine fl.F) (uid : ℕ) (c : Collector fl.F) → Same c (get_username m uid c).1
  unfolding get_username cache_username
  get_username-Same m uid c =
      elim (Option-cases (get_cached eq_uid m.now c.username_cache_ttl uid c.usernames)) [
        | inl e ↦ elim (Option-cases (resolve m uid)) [
          | inl r ↦ ground arith
          | inr (name, r) ↦ ground arith
        ]
        | inr (name, e) ↦ ground arith
      ]

  convert-Same :
      (compile : Compile) (m : Machine fl.F) (uid : ℕ) (d : UserData fl.F)
      (s : Dict (UserMetrics fl.F) × Collector fl.F)
      → Same s.1 (convert fl compile m uid d s).1
  unfolding convert calculate_ema
  convert-Same compile m uid d (metrics, c) = get_username-Same m uid c

  convert_all-Same :
      (compile : Compile) (m : Machine fl.F) (ds : Dict (UserData fl.F))
      (s : Dict (UserMetrics fl.F) × Collector fl.F)
      → Same s.1 (convert_all fl compile m ds s).1
  unfolding convert_all
  convert_all-Same compile m [] s = (refl, refl)
  convert_all-Same compile m ((uid, d) ∷ ds) s =
      let next = convert fl compile m uid d s in
      Same-trans s.1 next.1 (convert_all fl compile m ds next).1 (convert-Same compile m uid d s)
        (convert_all-Same compile m ds next)

  pub scan_users-Same :
      (compile : Compile) (m : Machine fl.F) (c : Collector fl.F)
      → Same c (scan_users fl compile m c).1
  unfolding scan_users
  scan_users-Same compile m c =
      let (found, scanned) = scan_processes fl m m.processes ([], c) in
      let merged = merge_io fl scanned (scan_io fl m.processes []) found in
      Same-trans c scanned (convert_all fl compile m merged ([], scanned)).1
        (scan_processes-Same m m.processes ([], c))
        (convert_all-Same compile m merged ([], scanned))
