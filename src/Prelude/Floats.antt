-- ===== src/Prelude/Floats.antt =====
-- `float64`, which the program only converts to, multiplies, divides and compares: the type and
-- its operations are parameters.
use Prim.Native.Nat.{ℕ}
use mathlib.Core.Path.{◌≡◌}
use mathlib.Core.Bool.{Bool, true, false}
use cpu_manager_go.Prelude.Int.{ℤ, ◌≤ℤ◌}

pub record Floats : Type 1 where
  pub F : Type 0
  pub of_int : ℤ → F  -- `float64(i)`
  pub of_nat : ℕ → F  -- `float64(u)` of an unsigned integer
  pub add : F → F → F
  pub sub : F → F → F
  pub mul : F → F → F
  pub div : F → F → F
  pub least : F → F → F  -- `math.Min`
  pub ltb : F → F → Bool
  pub leb : F → F → Bool
  pub to_nat : F → ℕ  -- `uint64(f)`

-- What IEEE 754 promises of the comparisons, a NaN included (every test of it is false), and of
-- the conversion of an integer, which is monotone.
pub record Comparisons (fl : Floats) : Type 0 where
  pub lt_not_ge : (a b : fl.F) → fl.ltb a b ≡ true → fl.leb b a ≡ false
  pub le_lt_trans : (a b c : fl.F) → fl.leb a b ≡ true → fl.ltb b c ≡ true → fl.ltb a c ≡ true
  pub lt_le_trans : (a b c : fl.F) → fl.ltb a b ≡ true → fl.leb b c ≡ true → fl.ltb a c ≡ true
  pub of_int_mono : (i j : ℤ) → i ≤ℤ j → fl.leb (fl.of_int i) (fl.of_int j) ≡ true
