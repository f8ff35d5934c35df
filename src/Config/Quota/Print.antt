-- ===== src/Config/Quota/Print.antt =====
-- `ParseRAMQuota` on printed numbers, with and without a suffix.
use cpu_manager_go.Prelude.{
  ℕ, ◌*◌, ◌%◌, ◌^◌, ◌<◌, ◌≡◌, ◌==◌, refl, false, [], ◌∷◌, ◌++◌, some, none, arith, is_empty,
  if◌then◌else◌,
}
use cpu_manager_go.Prelude.Text.{Bytes, format_uint, cut_suffix}
use cpu_manager_go.Prelude.Text.Digits.{
  parse_uint-format_uint, cut_suffix-IsNumeral, cut_suffix-snoc, format_uint-IsNumeral,
  format_uint-not_empty, append-not_empty,
}
use cpu_manager_go.Config.Quota.{bytes, suffixes, parse_suffixes, parse_ram_quota}

parse_ram_quota-not_empty :
    (s : Bytes) → is_empty s ≡ false → parse_ram_quota s ≡ parse_suffixes suffixes s
unfolding parse_ram_quota
parse_ram_quota-not_empty [] h = absurd (ground arith)
parse_ram_quota-not_empty (c ∷ s) h = refl

module _ (n : ℕ) (small : n < 2 ^ 64) where
  parse_plain : parse_ram_quota (format_uint n) ≡ bytes n
  unfolding parse_suffixes
  parse_plain =
      let s = format_uint n in
      let k = cut_suffix-IsNumeral b'K' s refl (format_uint-IsNumeral n) in
      let m = cut_suffix-IsNumeral b'M' s refl (format_uint-IsNumeral n) in
      let g = cut_suffix-IsNumeral b'G' s refl (format_uint-IsNumeral n) in
      let t = cut_suffix-IsNumeral b'T' s refl (format_uint-IsNumeral n) in
      let whole = parse_ram_quota-not_empty s (format_uint-not_empty n) in
      ground (arith, parse_uint-format_uint n small)

  -- What is left of a numeral with a suffix.
  cut :
      (c d : ℕ)
      → cut_suffix c (format_uint n ++ d ∷ []) ≡ (if d == c then some (format_uint n) else none)
  cut c d = cut_suffix-snoc c d (format_uint n)

  whole :
      (d : ℕ)
      → parse_ram_quota (format_uint n ++ d ∷ [])
        ≡ parse_suffixes suffixes (format_uint n ++ d ∷ [])
  whole d = parse_ram_quota-not_empty _ (append-not_empty (format_uint n) d)

  -- For a number of 64 bits printed in decimal, `ParseRAMQuota` returns the number, and with the
  -- suffix K, M, G or T behind it the product with the power of 1024 that the suffix stands for,
  -- modulo 2 ^ 64.
  pub parse_ram_quota-format_uint :
      (parse_ram_quota (format_uint n) ≡ bytes n)
      × (parse_ram_quota (format_uint n ++ b'K' ∷ []) ≡ bytes (n * 1024 % 2 ^ 64))
      × (parse_ram_quota (format_uint n ++ b'M' ∷ []) ≡ bytes (n * 1024 ^ 2 % 2 ^ 64))
      × (parse_ram_quota (format_uint n ++ b'G' ∷ []) ≡ bytes (n * 1024 ^ 3 % 2 ^ 64))
      × (parse_ram_quota (format_uint n ++ b'T' ∷ []) ≡ bytes (n * 1024 ^ 4 % 2 ^ 64))
  unfolding parse_suffixes
  parse_ram_quota-format_uint =
      let read = parse_uint-format_uint n small in
      (
        parse_plain,
        ground (arith, whole b'K', cut b'K' b'K', read),
        ground (arith, whole b'M', cut b'K' b'M', cut b'M' b'M', read),
        ground (arith, whole b'G', cut b'K' b'G', cut b'M' b'G', cut b'G' b'G', read),
        ground
            (arith, whole b'T', cut b'K' b'T', cut b'M' b'T', cut b'G' b'T', cut b'T' b'T', read),
      )
