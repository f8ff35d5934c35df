-- ===== src/Metrics/Collector/Usage.antt =====
-- metrics/collector.go: the CPU usage of a process since its last sample and since its start, and the
-- moving average of a user.
use cpu_manager_go.Prelude.{
  ℕ, suc, ◌/◌, ◌%◌, ℤ, pos, negsuc, leb_ℤ, Bool, false, not, ◌&&◌, ◌||◌, Option, none, some,
  if◌then◌else◌, ◌==◌,
}
use cpu_manager_go.Prelude.Clock.{Instant, nano, since}
use cpu_manager_go.Prelude.Dict.{lookup, put}
use cpu_manager_go.Prelude.Floats.{Floats}
use cpu_manager_go.Metrics.Collector.{
  Collector, Process, Machine, is_running, store_sample, first_sample,
}

module _ (fl : Floats) where
  open fl use {F, of_int, of_nat, add, sub, mul, div, ltb as ltb_F, leb as leb_F}

  -- `Duration.Seconds()`
  unfoldable pub in_seconds : ℤ → F
  in_seconds (pos d) = add (of_nat (d / nano)) (div (of_nat (d % nano)) (of_nat nano))
  in_seconds (negsuc d) =
      let n = suc d in
      add (sub (of_nat 0) (of_nat (n / nano)))
        (div (sub (of_nat 0) (of_nat (n % nano))) (of_nat nano))

  -- The state of the process, and its age.
  abbrev pub is_old : ℤ → ℕ → Option ℕ → Bool
  is_old min_age now none = false
  is_old min_age now (some created) =
      not (created == 0)
      && leb_F (of_int min_age) (div (sub (of_nat now) (of_nat created)) (of_nat 1000))

  -- `isProcessRunningLongEnough`
  unfoldable pub is_process_running_long_enough : Machine F → Process F → Collector F → Bool
  is_process_running_long_enough m p c =
      is_running p.statuses
      && (leb_ℤ c.cfg.process_min_age_seconds (pos 0)
          || is_old c.cfg.process_min_age_seconds m.unix_milli p.create_time)

  -- The usage since the previous sample, if time has passed.
  unfoldable pub since_sample : Machine F → F × F → Option (F × F) → Option Instant → Option F
  since_sample m times none t = none
  since_sample m times (some before) none = none
  since_sample m times (some before) (some t) =
      let elapsed = in_seconds (since m.now t) in
      let delta = add (sub times.0 before.0) (sub times.1 before.1) in
      if ltb_F (of_nat 0) elapsed then some (mul (div delta elapsed) (of_nat 100)) else none

  abbrev pub sample : Machine F → ℕ → F × F → Option F → Collector F → F × Collector F
  sample m pid times (some percent) c = (percent, store_sample pid times m.now c)
  sample m pid times none c = (of_nat 0, first_sample pid times m.now c)

  -- `getProcessCPUUsageSimpleWithHandle`
  unfoldable pub get_process_cpu_usage : Machine F → Process F → Collector F → F × Collector F
  get_process_cpu_usage m p c =
      if is_process_running_long_enough m p c
      then elim p.times [
        | none ↦ (of_nat 0, c)
        | some times ↦
            sample m p.pid times
              (since_sample m times (lookup p.pid c.prev_proc_cpu) (lookup p.pid c.prev_proc_time))
              c
      ]
      else (of_nat 0, c)

  abbrev pub average_of : F → F → F
  average_of total age =
      let average = mul (div total age) (of_nat 100) in
      if leb_F age (of_nat 0)
      then of_nat 0
      else if ltb_F average (of_nat 0)
      then of_nat 0
      else if ltb_F (of_nat 100) average
      then of_nat 100
      else average

  abbrev pub average_since : F → F → Option ℕ → Option ℕ → F
  average_since total uptime none boot = of_nat 0
  average_since total uptime (some created) none = of_nat 0
  average_since total uptime (some created) (some boot) =
      if created == 0 || boot == 0
      then of_nat 0
      else average_of total (sub uptime (sub (div (of_nat created) (of_nat 1000)) (of_nat boot)))

  -- `getProcessCPUAverage`
  unfoldable pub get_process_cpu_average : Machine F → Process F → F
  get_process_cpu_average m p = elim p.times [
    | none ↦ of_nat 0
    | some times ↦ average_since (add times.0 times.1) m.uptime p.create_time m.boot_time
  ]

  abbrev pub next_ema : F → Option F → F
  next_ema value none = value
  next_ema value (some before) =
      let alpha = div (of_nat 3) (of_nat 10) in
      add (mul alpha value) (mul (sub (of_nat 1) alpha) before)

  -- `calculateEMA`
  unfoldable pub calculate_ema : ℕ → F → Collector F → F × Collector F
  calculate_ema uid value c =
      let average = next_ema value (lookup uid c.ema) in
      (average, record c { ema = put uid average c.ema })
