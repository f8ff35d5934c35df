-- ===== src/Cgroup/Io/Units.antt =====
-- A quota that the configuration accepts, as cgroup/io.go reads it.
use mathlib.Core.Option.{some-injective}
use mathlib.Core.Path.{subst}
use mathlib.Core.Option
use cpu_manager_go.Prelude.{
  inl, inr, ap, ◌∙◌, ℕ, ◌+◌, ◌*◌, ◌%◌, ◌^◌, ◌≡◌, refl, sym, ◌-◌, ◌<◌, Bool, true, false, ◌||◌, ◌==◌,
  Option, none, some, List, [], ◌∷◌, arith, Option-cases, Bool-cases,
}
use cpu_manager_go.Prelude.Text.{Bytes, below, cut_suffix, digits_from, parse_uint}
use cpu_manager_go.Prelude.Text.Digits.{is_digit}
use cpu_manager_go.Prelude.Text.Split.{AllBytes, no_space, trim_space-eq}
use cpu_manager_go.Config.Quota.{bytes, parse_suffixes, parse_ram_quota}
use cpu_manager_go.Cgroup.Io.{units, parse_units, parse_bps_value}

-- The characters of a quota.
abbrev of_quota : ℕ → Bool
of_quota c = is_digit c || c == b'K' || c == b'M' || c == b'G' || c == b'T'

digits_from-of_quota : (acc n : ℕ) (s : Bytes) → digits_from acc s ≡ some n → AllBytes of_quota s
unfolding digits_from AllBytes
digits_from-of_quota acc n [] h = tt
digits_from-of_quota acc n (c ∷ s) h = elim (Bool-cases (is_digit c)) [
  | inl is ↦ (ground arith, digits_from-of_quota (acc * 10 + (c - 48)) n s (ground arith))
  | inr is_not ↦ absurd (ground arith)
]

parse_uint-of_quota : (n : ℕ) (s : Bytes) → parse_uint s ≡ some n → AllBytes of_quota s
unfolding parse_uint AllBytes
parse_uint-of_quota n [] h = tt
parse_uint-of_quota n (c ∷ s) h = elim (Option-cases (digits_from 0 (c ∷ s))) [
  | inl missing ↦ absurd (ground arith)
  | inr (v, found) ↦ digits_from-of_quota 0 v (c ∷ s) found
]

below-small : (limit v : ℕ) (o : Option ℕ) → below limit o ≡ some v → v < limit
below-small limit v none h = absurd (ground arith)
below-small limit v (some w) h = ground arith

parse_uint-small : (s : Bytes) (v : ℕ) → parse_uint s ≡ some v → v < 2 ^ 64
unfolding parse_uint
parse_uint-small [] v h = absurd (ground arith)
parse_uint-small (c ∷ s) v h = below-small (2 ^ 64) v (digits_from 0 (c ∷ s)) h

mod-small : (v : ℕ) → v < 2 ^ 64 → v * 1 % 2 ^ 64 ≡ v
mod-small v h = omega arith

cut_suffix-of_quota :
    (c : ℕ) (s t : Bytes)
    → of_quota c ≡ true
    → cut_suffix c s ≡ some t
    → AllBytes of_quota t
    → AllBytes of_quota s
unfolding cut_suffix AllBytes
cut_suffix-of_quota c [] t q h a = tt
cut_suffix-of_quota c (x ∷ []) t q h a = elim (Bool-cases (x == c)) [
  | inl same ↦ (let e : x ≡ c = ground arith in rw e (q, tt))
  | inr other ↦ absurd (ground arith)
]
cut_suffix-of_quota c (x ∷ y ∷ s) t q h a = elim (Option-cases (cut_suffix c (y ∷ s))) [
  | inl missing ↦ absurd (ground arith)
  | inr (u, found) ↦
      let e : x ∷ u ≡ t = some-injective _ _ (ap (Option.map (◌∷◌ x)) (sym found) ∙ h) in
      let b : AllBytes of_quota (x ∷ u) = subst (AllBytes of_quota) (sym e) a in
      (b.0, cut_suffix-of_quota c (y ∷ s) u q found b.1)
]

cut_suffix-none :
    (c : ℕ) (s : Bytes) → of_quota c ≡ false → AllBytes of_quota s → cut_suffix c s ≡ none
unfolding cut_suffix AllBytes
cut_suffix-none c [] q a = refl
cut_suffix-none c (x ∷ []) q a = ground arith
cut_suffix-none c (x ∷ y ∷ s) q a = ground (arith, cut_suffix-none c (y ∷ s) q a.1)

of_quota-no_space : (s : Bytes) → AllBytes of_quota s → AllBytes no_space s
unfolding AllBytes
of_quota-no_space [] a = tt
of_quota-no_space (c ∷ s) a = (ground arith, of_quota-no_space s a.1)

-- The suffixes of `ParseRAMQuota` that go with units, and what is asked of the units' letters.
abbrev uppers : List (ℕ × ℕ × ℕ) → List (ℕ × ℕ)
uppers [] = []
uppers ((upper, lower, multiplier) ∷ us) = (upper, multiplier) ∷ uppers us

abbrev Letters : List (ℕ × ℕ × ℕ) → Type 0
Letters [] = Unit {0}
Letters ((upper, lower, multiplier) ∷ us) =
    (of_quota upper ≡ true) × (of_quota lower ≡ false) × Letters us

parse_suffixes-of_quota :
    (us : List (ℕ × ℕ × ℕ)) (s : Bytes) (n : ℕ)
    → Letters us
    → parse_suffixes (uppers us) s ≡ bytes n
    → AllBytes of_quota s
unfolding parse_suffixes
parse_suffixes-of_quota [] s n l h = elim (Option-cases (parse_uint s)) [
  | inl missing ↦ absurd (ground arith)
  | inr (v, found) ↦ parse_uint-of_quota v s found
]
parse_suffixes-of_quota ((upper, lower, multiplier) ∷ us) s n l h =
    elim (Option-cases (cut_suffix upper s)) [
      | inl missing ↦ parse_suffixes-of_quota us s n l.2 (ground arith)
      | inr (t, found) ↦ elim (Option-cases (parse_uint t)) [
        | inl bad ↦ absurd (ground arith)
        | inr (v, good) ↦ cut_suffix-of_quota upper s t l.0 found (parse_uint-of_quota v t good)
      ]
    ]

parse_units-eq :
    (us : List (ℕ × ℕ × ℕ)) (s : Bytes) (n : ℕ)
    → Letters us
    → AllBytes of_quota s
    → parse_suffixes (uppers us) s ≡ bytes n
    → parse_units us s ≡ n
unfolding parse_suffixes parse_units
parse_units-eq [] s n l a h = elim (Option-cases (parse_uint s)) [
  | inl missing ↦ absurd (ground arith)
  | inr (v, found) ↦ (let small = parse_uint-small s v found in ground (arith, mod-small v small))
]
parse_units-eq ((upper, lower, multiplier) ∷ us) s n l a h =
    let low = cut_suffix-none lower s l.1 a in
    elim (Option-cases (cut_suffix upper s)) [
      | inl missing ↦ (let rest = parse_units-eq us s n l.2 a (ground arith) in ground arith)
      | inr (t, found) ↦ elim (Option-cases (parse_uint t)) [
        | inl bad ↦ absurd (ground arith)
        | inr (v, good) ↦ ground arith
      ]
    ]

-- A quota that `ParseRAMQuota` accepts, of RAM or of bytes per second, has the value n for
-- `parseBPSValue` that it has for `ParseRAMQuota`.
pub parse_bps_value-eq : (s : Bytes) (n : ℕ) → parse_ram_quota s ≡ bytes n → parse_bps_value s ≡ n
unfolding parse_ram_quota parse_bps_value
parse_bps_value-eq [] n h = absurd (ground arith)
parse_bps_value-eq (c ∷ s) n h =
    let a =
      parse_suffixes-of_quota units (c ∷ s) n
        (refl, refl, (refl, refl, (refl, refl, (refl, refl, tt)))) h in
    let e = trim_space-eq (c ∷ s) (of_quota-no_space (c ∷ s) a) in
    let value =
      parse_units-eq units (c ∷ s) n (refl, refl, (refl, refl, (refl, refl, (refl, refl, tt)))) a
        h in
    rw e value
