-- ===== src/Prelude/Text.antt =====
-- Go strings as lists of bytes, and what the program uses of `strings` and `strconv`.
pub mod Digits
pub mod Split
use Prim.Native.Char.{code}
use Prim.Native.String.{String}
use Prim.Native.Nat.{ℕ, zero, suc, ◌+◌, ◌-◌, ◌*◌, ◌/◌, ◌%◌, ◌^◌}
use mathlib.Core.Path.{◌≡◌, refl}
use mathlib.Core.Logic.{◌↔◌}
use mathlib.Core.Bool.{Bool, true, false, ◌&&◌, ◌||◌}
use mathlib.Core.List.{List, [], ◌∷◌, ◌++◌}
use mathlib.Core.Option
use mathlib.Core.Option.{Option, none, some}
use native.Mathlib.Omega.{arith}
use cpu_manager_go.Prelude.Tests.{leb, ltb, ◌==◌, if◌then◌else◌}
use cpu_manager_go.Prelude.Int.{ℤ, pos, negsuc}

abbrev pub Bytes : Type 0
Bytes = List ℕ

abbrev pub text : String → Bytes
text String.[] = []
text (String.◌∷◌ c s) = code c ∷ text s

-- `s == t`
abbrev pub same : Bytes → Bytes → Bool
same [] [] = true
same [] (y ∷ t) = false
same (x ∷ s) [] = false
same (x ∷ s) (y ∷ t) = x == y && same s t

pub same_iff : (s t : Bytes) → (same s t ≡ true) ↔ (s ≡ t)
same_iff [] [] = (λ _. refl, λ _. refl)
same_iff [] (y ∷ t) = (λ h. ground arith, λ h. ground arith)
same_iff (x ∷ s) [] = (λ h. ground arith, λ h. ground arith)
same_iff (x ∷ s) (y ∷ t) = (λ h. ground (arith, same_iff s t), λ h. ground (arith, same_iff s t))

pub same_refl : (s : Bytes) → same s s ≡ true
same_refl s = (same_iff s s).1 refl

-- ASCII blanks, which `strings.TrimSpace` and `strings.Fields` skip.
abbrev pub is_space : ℕ → Bool
is_space c = c == 32 || (leb 9 c && leb c 13)

-- `strings.TrimLeft(s, " ...")`
unfoldable pub trim_left : Bytes → Bytes
trim_left [] = []
trim_left (c ∷ s) = let rest = trim_left s in if is_space c then rest else c ∷ s

unfoldable pub trim_right : Bytes → Bytes
trim_right [] = []
trim_right (c ∷ s) =
    let rest = trim_right s in
    elim rest [ [] ↦ if is_space c then [] else c ∷ [] | d ∷ r ↦ c ∷ d ∷ r ]

-- `strings.TrimSpace`
unfoldable pub trim_space : Bytes → Bytes
unfolding trim_left trim_right
trim_space s = trim_right (trim_left s)

-- `strings.Split(s, sep)` for a separator of one byte: at least one part.
unfoldable pub split_on : ℕ → Bytes → Bytes × List Bytes
split_on sep [] = ([], [])
split_on sep (c ∷ s) =
    let (part, parts) = split_on sep s in if c == sep then ([], part ∷ parts) else (c ∷ part, parts)

abbrev pub split : ℕ → Bytes → List Bytes
split sep s = let (part, parts) = split_on sep s in part ∷ parts

-- `strings.Fields`: the parts between runs of blanks.
abbrev pub non_empty : List Bytes → List Bytes
non_empty [] = []
non_empty ([] ∷ parts) = non_empty parts
non_empty ((c ∷ s) ∷ parts) = (c ∷ s) ∷ non_empty parts

unfoldable pub split_space : Bytes → Bytes × List Bytes
split_space [] = ([], [])
split_space (c ∷ s) =
    let (part, parts) = split_space s in
    if is_space c then ([], part ∷ parts) else (c ∷ part, parts)

unfoldable pub fields : Bytes → List Bytes
unfolding split_space
fields s = let (part, parts) = split_space s in non_empty (part ∷ parts)

-- `strings.Contains(s, sep)` for one byte.
abbrev pub contains : ℕ → Bytes → Bool
contains sep [] = false
contains sep (c ∷ s) = c == sep || contains sep s

-- `strings.HasPrefix(s, prefix)`
abbrev pub has_prefix : Bytes → Bytes → Bool
has_prefix s [] = true
has_prefix [] (p ∷ ps) = false
has_prefix (c ∷ s) (p ∷ ps) = c == p && has_prefix s ps

-- `strings.CutSuffix(s, suffix)` for a suffix of one byte.
unfoldable pub cut_suffix : ℕ → Bytes → Option Bytes
cut_suffix c [] = none
cut_suffix c (x ∷ []) = if x == c then some [] else none
cut_suffix c (x ∷ y ∷ s) = Option.map (◌∷◌ x) (cut_suffix c (y ∷ s))

-- The value of a run of decimal digits, read after the digits that gave `acc`.
unfoldable pub digits_from : ℕ → Bytes → Option ℕ
digits_from acc [] = some acc
digits_from acc (c ∷ s) =
    let rest = digits_from (acc * 10 + (c - 48)) s in if leb 48 c && leb c 57 then rest else none

abbrev pub below : ℕ → Option ℕ → Option ℕ
below limit none = none
below limit (some n) = if ltb n limit then some n else none

-- `strconv.ParseUint(s, 10, 64)`: `none` for any error.
unfoldable pub parse_uint : Bytes → Option ℕ
unfolding digits_from
parse_uint [] = none
parse_uint (c ∷ s) = below (2 ^ 64) (digits_from 0 (c ∷ s))

abbrev magnitude : ℕ → Bytes → Option ℕ
unfolding digits_from
magnitude limit [] = none
magnitude limit (c ∷ s) = below limit (digits_from 0 (c ∷ s))

abbrev negated : ℕ → ℤ
negated zero = pos 0
negated (suc n) = negsuc n

-- `strconv.Atoi(s)`: an optional sign and digits, within an `int64`.
unfoldable pub atoi : Bytes → Option ℤ
unfolding digits_from
atoi [] = none
atoi (c ∷ s) =
    if c == b'-'
    then Option.map negated (magnitude (2 ^ 63 + 1) s)
    else if c == b'+'
    then Option.map pos (magnitude (2 ^ 63) s)
    else Option.map pos (magnitude (2 ^ 63) (c ∷ s))

atoi_plain : atoi (text "08") ≡ some (pos 8)
unfolding atoi
atoi_plain = refl

atoi_signed : atoi (text "-12") ≡ some (negsuc 11)
unfolding atoi
atoi_signed = refl

fields_runs : fields (text " 1-5  08-18 ") ≡ text "1-5" ∷ text "08-18" ∷ []
unfolding fields
fields_runs = refl

trim_space_ends : trim_space (text "  a b ") ≡ text "a b"
unfolding trim_space
trim_space_ends = refl

-- `%d` and `strconv.FormatUint` of a number below 10 ^ fuel.
unfoldable pub format_fuel : ℕ → ℕ → Bytes
format_fuel zero n = []
format_fuel (suc fuel) n =
    let rest = format_fuel fuel (n / 10) in
    if ltb n 10 then (48 + n) ∷ [] else rest ++ (48 + n % 10) ∷ []

unfoldable pub format_uint : ℕ → Bytes
unfolding format_fuel
format_uint n = format_fuel 20 n

-- `%d` of an `int`.
unfoldable pub format_int : ℤ → Bytes
format_int (pos n) = format_uint n
format_int (negsuc n) = b'-' ∷ format_uint (suc n)
