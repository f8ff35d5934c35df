-- ===== src/Metrics/Collector/Scan.antt =====
-- metrics/collector.go: `GetAllUserMetrics` past its cache, where gopsutil lists the processes.
pub mod Users
use cpu_manager_go.Prelude.{
  ℕ, suc, ◌+◌, ◌%◌, ◌^◌, ℤ, pos, Bool, true, false, not, ◌&&◌, Option, none, some, List, [], ◌∷◌,
  if◌then◌else◌,
}
use cpu_manager_go.Prelude.Dict.{Dict, lookup, put}
use cpu_manager_go.Prelude.Floats.{Floats}
use cpu_manager_go.Prelude.Text.{Bytes}
use cpu_manager_go.Config.Filter.{Compile, is_user_whitelisted}
use cpu_manager_go.State.Defs.{UserMetrics}
use cpu_manager_go.Metrics.Collector.{
  Collector, Machine, Process, is_monitored_user_uid, get_username,
}
use cpu_manager_go.Metrics.Collector.Usage.{
  get_process_cpu_usage, get_process_cpu_average, calculate_ema,
}

-- `userData`
pub record UserData (F : Type 0) : Type 0 where
  pub cpu_usage : F
  pub cpu_usage_avg : F
  pub process_count : ℕ
  pub memory_usage : ℕ
  pub io_read_bytes : ℕ
  pub io_write_bytes : ℕ
  pub io_read_ops : ℕ
  pub io_write_ops : ℕ

-- A sum in `uint64`.
abbrev pub add64 : ℕ → ℕ → ℕ
add64 a b = (a + b) % 2 ^ 64

abbrev pub or_else : {A : Type 0} → A → Option A → A
or_else a none = a
or_else a (some b) = b

module _ (fl : Floats) where
  open fl use {F, of_nat, add}

  abbrev pub no_data : UserData F
  no_data = record {
    cpu_usage = of_nat 0;
    cpu_usage_avg = of_nat 0;
    process_count = 0;
    memory_usage = 0;
    io_read_bytes = 0;
    io_write_bytes = 0;
    io_read_ops = 0;
    io_write_ops = 0;
  }

  abbrev pub data_of : ℕ → Dict (UserData F) → UserData F
  data_of uid d = or_else no_data (lookup uid d)

  unfoldable pub add_process : F → F → Process F → UserData F → UserData F
  add_process usage average p d = record d {
    process_count = suc d.process_count;
    cpu_usage = add d.cpu_usage usage;
    memory_usage = add64 d.memory_usage (or_else 0 p.rss);
    cpu_usage_avg = add d.cpu_usage_avg average;
  }

  abbrev pub scan_monitored :
      Machine F → Process F → ℕ → Dict (UserData F) × Collector F → Dict (UserData F) × Collector F
  scan_monitored m p uid (d, c) =
      let (usage, next) = get_process_cpu_usage fl m p c in
      (put uid (add_process usage (get_process_cpu_average fl m p) p (data_of uid d)) d, next)

  -- One round of the first loop.
  unfoldable pub scan_process :
      Machine F
      → Process F
      → Option ℕ
      → Dict (UserData F) × Collector F
      → Dict (UserData F) × Collector F
  scan_process m p none s = s
  scan_process m p (some uid) s =
      if is_monitored_user_uid uid s.1 then scan_monitored m p uid s else s

  unfoldable pub scan_processes :
      Machine F
      → List (Process F)
      → Dict (UserData F) × Collector F
      → Dict (UserData F) × Collector F
  scan_processes m [] s = s
  scan_processes m (p ∷ ps) s = scan_processes m ps (scan_process m p p.uid s)

  unfoldable pub add_io : ℕ × ℕ × ℕ × ℕ → UserData F → UserData F
  add_io (read_bytes, write_bytes, read_ops, write_ops) d = record d {
    io_read_bytes = add64 d.io_read_bytes read_bytes;
    io_write_bytes = add64 d.io_write_bytes write_bytes;
    io_read_ops = add64 d.io_read_ops read_ops;
    io_write_ops = add64 d.io_write_ops write_ops;
  }

  abbrev pub scan_io_of : Process F → Option ℕ → Dict (UserData F) → Dict (UserData F)
  scan_io_of p none d = d
  scan_io_of p (some uid) d = put uid (add_io p.io (data_of uid d)) d

  -- The second loop, over all processes.
  unfoldable pub scan_io : List (Process F) → Dict (UserData F) → Dict (UserData F)
  scan_io [] d = d
  scan_io (p ∷ ps) d = scan_io ps (scan_io_of p p.uid d)

  abbrev pub io_of : UserData F → ℕ × ℕ × ℕ × ℕ
  io_of d = (d.io_read_bytes, d.io_write_bytes, d.io_read_ops, d.io_write_ops)

  -- The third loop, which adds what the second has found.
  unfoldable pub merge_io : Collector F → Dict (UserData F) → Dict (UserData F) → Dict (UserData F)
  merge_io c [] d = d
  merge_io c ((uid, io) ∷ rest) d =
      merge_io c rest
        (if is_monitored_user_uid uid c then put uid (add_io (io_of io) (data_of uid d)) d else d)

  module _ (compile : Compile) where
    unfoldable pub make_metrics : ℕ → Bytes → F → UserData F → Bool → UserMetrics F
    make_metrics uid name ema d limited = record {
      uid = uid;
      username = name;
      cpu_usage = d.cpu_usage;
      cpu_usage_average = d.cpu_usage_avg;
      cpu_usage_ema = ema;
      memory_usage = d.memory_usage;
      process_count = d.process_count;
      is_limited = limited;
      io_read_bytes = d.io_read_bytes;
      io_write_bytes = d.io_write_bytes;
      io_read_ops = d.io_read_ops;
      io_write_ops = d.io_write_ops;
    }

    -- One round of the last loop.
    unfoldable pub convert :
        Machine F
        → ℕ
        → UserData F
        → Dict (UserMetrics F) × Collector F
        → Dict (UserMetrics F) × Collector F
    convert m uid d (metrics, c) =
        let (name, named) = get_username m uid c in
        let (ema, next) = calculate_ema fl uid d.cpu_usage named in
        (
          put uid (make_metrics uid name ema d (is_user_whitelisted compile next.cfg name)) metrics,
          next,
        )

    unfoldable pub convert_all :
        Machine F
        → Dict (UserData F)
        → Dict (UserMetrics F) × Collector F
        → Dict (UserMetrics F) × Collector F
    convert_all m [] s = s
    convert_all m ((uid, d) ∷ rest) s = convert_all m rest (convert m uid d s)

    -- The metrics of all users, from the processes.
    unfoldable pub scan_users : Machine F → Collector F → Dict (UserMetrics F) × Collector F
    scan_users m c =
        let (found, scanned) = scan_processes m m.processes ([], c) in
        convert_all m (merge_io scanned (scan_io m.processes []) found) ([], scanned)
