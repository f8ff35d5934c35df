-- ===== src/Metrics/DbWriter.antt =====
-- metrics/db_writer.go, and `WriteMetricsToDatabase` of metrics/collector.go. What is handed to the
-- database is part of the result; that a write fails is only logged.
use cpu_manager_go.Prelude.{
  ℕ, ℤ, leb_ℤ, Bool, true, false, ◌&&◌, Option, none, some, List, [], ◌∷◌, ◌++◌, if◌then◌else◌,
}
use cpu_manager_go.Prelude.Clock.{Instant, since, seconds}
use cpu_manager_go.Prelude.Dict.{Dict}
use cpu_manager_go.Prelude.Text.{Bytes}
use cpu_manager_go.State.Defs.{UserMetrics}

-- `DBWriter`; whether there is a database.
pub record DbWriter : Type 0 where
  pub has_database : Bool
  pub write_interval : ℤ
  pub last_write_time : Instant
  pub enabled : Bool

-- `NewDBWriter`
unfoldable pub new_db_writer : Bool → ℤ → DbWriter
new_db_writer has_database interval = record {
  has_database = has_database;
  write_interval = seconds interval;
  last_write_time = 0;
  enabled = true;
}

pub data Row (F : Type 0) : Type 0 where
  user_row : ℕ → Bytes → F → ℕ → ℕ → Bool → Instant → Row F
  system_row : F → ℤ → F → Bool → ℕ → Instant → Row F

unfoldable pub should_write : Instant → DbWriter → Bool
should_write now w = w.enabled && leb_ℤ w.write_interval (since now w.last_write_time)

unfoldable pub mark_written : Instant → DbWriter → DbWriter
mark_written now w = record w { last_write_time = now }

unfoldable pub set_enabled : Bool → DbWriter → DbWriter
set_enabled b w = record w { enabled = b }

-- `Close`
unfoldable pub close : DbWriter → DbWriter
close w = record w { enabled = false }

module _ {F : Type 0} where
  abbrev if_open : DbWriter → Row F → List (Row F)
  if_open w row = if w.enabled && w.has_database then row ∷ [] else []

  -- `WriteUserMetrics`, for what `WriteMetricsToDatabase` passes.
  unfoldable pub write_user_metrics : Instant → ℕ → UserMetrics F → DbWriter → List (Row F)
  write_user_metrics now uid um w =
      if_open w (user_row uid um.username um.cpu_usage um.memory_usage um.process_count false now)

  -- `WriteSystemMetrics`
  unfoldable pub write_system_metrics : Instant → F → ℤ → F → Bool → ℕ → DbWriter → List (Row F)
  write_system_metrics now usage cores load active limited w =
      if_open w (system_row usage cores load active limited now)

  unfoldable pub write_all_users : Instant → Dict (UserMetrics F) → DbWriter → List (Row F)
  write_all_users now [] w = []
  write_all_users now ((uid, um) ∷ users) w =
      write_user_metrics now uid um w ++ write_all_users now users w

  -- `WriteMetricsToDatabase`: the rows, in order, and the writer.
  unfoldable pub write_metrics_to_database :
      Instant
      → Dict (UserMetrics F)
      → F
      → ℤ
      → F
      → Bool
      → ℕ
      → Option DbWriter
      → List (Row F) × Option DbWriter
  write_metrics_to_database now users usage cores load active limited none = ([], none)
  write_metrics_to_database now users usage cores load active limited (some w) = (
    write_system_metrics now usage cores load active limited w ++ write_all_users now users w,
    some (mark_written now w),
  )
