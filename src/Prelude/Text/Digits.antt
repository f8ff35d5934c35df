-- ===== src/Prelude/Text/Digits.antt =====
-- The printing of a number, and the reading of its digits.
use Prim.Native.Nat.{ℕ, zero, suc, ◌+◌, ◌-◌, ◌*◌, ◌/◌, ◌%◌, ◌^◌, ◌<◌}
use mathlib.Core.Path.{◌≡◌, refl}
use mathlib.Core.Logic.{inl, inr}
use mathlib.Core.Bool.{Bool, true, false, ◌&&◌}
use mathlib.Core.Option.{Option, none, some}
use mathlib.Core.List.{[], ◌∷◌, ◌++◌}
use native.Mathlib.Omega.{arith}
use cpu_manager_go.Prelude.Tests.{ltb, leb, ◌==◌, if◌then◌else◌, Bool-cases}
use cpu_manager_go.Prelude.Lists.{is_empty}
use cpu_manager_go.Prelude.Text.{
  Bytes, digits_from, format_fuel, format_uint, parse_uint, cut_suffix, below,
}

abbrev pub is_digit : ℕ → Bool
is_digit c = leb 48 c && leb c 57

-- One more digit.
abbrev pub then_digit : Option ℕ → ℕ → Option ℕ
then_digit none c = none
then_digit (some v) c = if is_digit c then some (v * 10 + (c - 48)) else none

digits_from-snoc :
    (acc c : ℕ) (s : Bytes) → digits_from acc (s ++ c ∷ []) ≡ then_digit (digits_from acc s) c
unfolding digits_from
digits_from-snoc acc c [] = ground arith
digits_from-snoc acc c (x ∷ s) = ground (arith, digits_from-snoc (acc * 10 + (x - 48)) c s)

digits_from-format_fuel : (fuel n : ℕ) → n < 10 ^ fuel → digits_from 0 (format_fuel fuel n) ≡ some n
unfolding format_fuel digits_from
digits_from-format_fuel zero n h = (let e : n ≡ 0 = omega arith in ground arith)
digits_from-format_fuel (suc fuel) n h = elim (Bool-cases (ltb n 10)) [
  | inl small ↦ ground arith
  | inr large ↦
      let quotient : n / 10 < 10 ^ fuel = omega arith in
      ground (
        arith,
        digits_from-format_fuel fuel (n / 10) quotient,
        digits_from-snoc 0 (48 + n % 10) (format_fuel fuel (n / 10)),
      )
]

-- All bytes are digits, and there is one.
unfoldable pub IsNumeral : Bytes → Type 0
IsNumeral [] = Unit {0}
IsNumeral (c ∷ s) = (is_digit c ≡ true) × IsNumeral s

IsNumeral-append : (s t : Bytes) → IsNumeral s → IsNumeral t → IsNumeral (s ++ t)
unfolding IsNumeral
IsNumeral-append [] t h k = k
IsNumeral-append (c ∷ s) t h k = (h.0, IsNumeral-append s t h.1 k)

format_fuel-IsNumeral : (fuel n : ℕ) → IsNumeral (format_fuel fuel n)
unfolding format_fuel IsNumeral
format_fuel-IsNumeral zero n = tt
format_fuel-IsNumeral (suc fuel) n =
    let rest = format_fuel-IsNumeral fuel (n / 10) in
    let last : (is_digit (48 + n % 10) ≡ true) × Unit {0} = (ground arith, tt) in
    ground (arith, IsNumeral-append (format_fuel fuel (n / 10)) ((48 + n % 10) ∷ []) rest last)

pub append-not_empty : (s : Bytes) (c : ℕ) → is_empty (s ++ c ∷ []) ≡ false
append-not_empty [] c = refl
append-not_empty (x ∷ s) c = refl

format_fuel-not_empty : (fuel n : ℕ) → is_empty (format_fuel (suc fuel) n) ≡ false
unfolding format_fuel
format_fuel-not_empty fuel n =
    ground (arith, append-not_empty (format_fuel fuel (n / 10)) (48 + n % 10))

parse_uint-digits :
    (s : Bytes) → is_empty s ≡ false → parse_uint s ≡ below (2 ^ 64) (digits_from 0 s)
unfolding parse_uint
parse_uint-digits [] h = absurd (ground arith)
parse_uint-digits (c ∷ s) h = refl

-- `ParseUint` reads back what `FormatUint` prints of a number of 64 bits.
pub parse_uint-format_uint : (n : ℕ) → n < 2 ^ 64 → parse_uint (format_uint n) ≡ some n
unfolding format_uint
parse_uint-format_uint n h =
    let value = digits_from-format_fuel 20 n (omega arith) in
    let some_digit = format_fuel-not_empty 19 n in
    ground (arith, parse_uint-digits (format_fuel 20 n) some_digit)

-- A suffix that is no digit is not cut from a numeral, and is cut from one that it follows.
pub cut_suffix-IsNumeral :
    (c : ℕ) (s : Bytes) → is_digit c ≡ false → IsNumeral s → cut_suffix c s ≡ none
unfolding cut_suffix IsNumeral
cut_suffix-IsNumeral c [] d h = refl
cut_suffix-IsNumeral c (x ∷ []) d h = ground arith
cut_suffix-IsNumeral c (x ∷ y ∷ s) d h = ground (arith, cut_suffix-IsNumeral c (y ∷ s) d h.1)

pub cut_suffix-snoc :
    (c d : ℕ) (s : Bytes) → cut_suffix c (s ++ d ∷ []) ≡ (if d == c then some s else none)
unfolding cut_suffix
cut_suffix-snoc c d [] = ground arith
cut_suffix-snoc c d (x ∷ []) = ground arith
cut_suffix-snoc c d (x ∷ y ∷ s) = ground (arith, cut_suffix-snoc c d (y ∷ s))

pub format_uint-IsNumeral : (n : ℕ) → IsNumeral (format_uint n)
unfolding format_uint
format_uint-IsNumeral n = format_fuel-IsNumeral 20 n

pub format_uint-not_empty : (n : ℕ) → is_empty (format_uint n) ≡ false
unfolding format_uint
format_uint-not_empty n = format_fuel-not_empty 19 n
