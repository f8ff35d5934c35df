-- ===== src/Prelude/Clock.antt =====
-- Instants and durations of Go's package `time`, in nanoseconds.
use Prim.Native.Nat.{ℕ, ◌+◌, ◌-◌, ◌*◌, ◌^◌, ◌≤◌, min}
use mathlib.Core.Path.{◌≡◌}
use mathlib.Core.Bool.{Bool}
use native.Mathlib.Omega.{arith}
use cpu_manager_go.Prelude.Tests.{leb, ◌==◌, if◌then◌else◌}
use cpu_manager_go.Prelude.Int.{ℤ, pos, negsuc, ◌≤ℤ◌, wrap64, wrap64_small}

-- `time.Time`: nanoseconds since year 1. The zero time is 0.
abbrev pub Instant : Type 0
Instant = ℕ

abbrev pub is_zero : Instant → Bool
is_zero t = t == 0

-- `now.Sub(t)` and `time.Since(t)`: the difference, cut off at the ends of an `int64`.
unfoldable pub since : Instant → Instant → ℤ
since now t =
    if leb t now then pos (min (now - t) (2 ^ 63 - 1)) else negsuc (min (t - now - 1) (2 ^ 63 - 1))

abbrev pub nano : ℕ
nano = 1000000000

-- `time.Duration(n) * time.Second` on `int64`, which wraps.
unfoldable pub seconds : ℤ → ℤ
seconds (pos n) = wrap64 (pos (n * nano))
seconds (negsuc n) = wrap64 (negsuc (n * nano + (nano - 1)))

-- Up to 292 years nothing wraps.
pub seconds_small : (n : ℕ) → n ≤ 9223372036 → seconds (pos n) ≡ pos (n * nano)
unfolding seconds
seconds_small n h = wrap64_small (n * nano) (omega arith)

abbrev pub hour : ℤ
hour = pos (3600 * nano)

pub since_self : (t : Instant) → since t t ≡ pos 0
unfolding since
since_self t = ground arith

-- Time that passes never makes an age smaller.
pub since_mono : (now later t : Instant) → now ≤ later → since now t ≤ℤ since later t
unfolding since
since_mono now later t h = ground arith

-- What began earlier is older.
pub since_anti : (now t t' : Instant) → t ≤ t' → since now t' ≤ℤ since now t
unfolding since
since_anti now t t' h = ground arith
