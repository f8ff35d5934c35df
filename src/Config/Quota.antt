-- ===== src/Config/Quota.antt =====
-- config/config.go: the formats of quotas, `isValidCPUQuota`, `isValidByteQuota`, `ParseRAMQuota`.
pub mod Print
use cpu_manager_go.Prelude.{
  ℕ, ◌*◌, ◌%◌, ◌^◌, Bool, true, false, ◌&&◌, Option, none, some, List, [], ◌∷◌, if◌then◌else◌,
}
use cpu_manager_go.Prelude.Text.{Bytes, text, same, split, cut_suffix, parse_uint, atoi}

-- The two errors that `ParseRAMQuota` tells apart, and the missing quota.
pub data QuotaError : Type 0 where
  empty_quota invalid_number invalid_format : QuotaError

pub data Quota : Type 0 where
  bytes : ℕ → Quota
  failed : QuotaError → Quota

-- The map `suffixes`. No text ends in two of them, so the order of the loop does not matter.
abbrev pub suffixes : List (ℕ × ℕ)
suffixes =
    (b'K', 1024)
    ∷ (b'M', 1024 * 1024)
    ∷ (b'G', 1024 * 1024 * 1024)
    ∷ (b'T', 1024 * 1024 * 1024 * 1024)
    ∷ []

-- `uint64` multiplication wraps.
abbrev pub scaled : ℕ → Option ℕ → Quota
scaled multiplier none = failed invalid_number
scaled multiplier (some val) = bytes (val * multiplier % 2 ^ 64)

abbrev pub plain : Option ℕ → Quota
plain none = failed invalid_format
plain (some val) = bytes val

-- The loop over the suffixes, and the code behind it.
unfoldable pub parse_suffixes : List (ℕ × ℕ) → Bytes → Quota
parse_suffixes [] quota = plain (parse_uint quota)
parse_suffixes ((suffix, multiplier) ∷ more) quota =
    let rest = parse_suffixes more quota in
    elim (cut_suffix suffix quota) [ some num ↦ scaled multiplier (parse_uint num) | none ↦ rest ]

unfoldable pub parse_ram_quota : Bytes → Quota
unfolding parse_suffixes
parse_ram_quota [] = failed empty_quota
parse_ram_quota (c ∷ s) = parse_suffixes suffixes (c ∷ s)

abbrev pub is_bytes : Quota → Bool
is_bytes (bytes n) = true
is_bytes (failed e) = false

unfoldable pub is_valid_byte_quota : Bytes → Bool
is_valid_byte_quota [] = false
is_valid_byte_quota (c ∷ s) = is_bytes (parse_ram_quota (c ∷ s))

abbrev is_number : Bytes → Bool
is_number s = elim (atoi s) [ none ↦ false | some n ↦ true ]

abbrev pub two_parts : List Bytes → Bool
two_parts [] = false
two_parts (quota ∷ []) = false
two_parts (quota ∷ period ∷ []) =
    if same quota (text "max") then is_number period else is_number quota && is_number period
two_parts (quota ∷ period ∷ more ∷ parts) = false

unfoldable pub is_valid_cpu_quota : Bytes → Bool
is_valid_cpu_quota quota = two_parts (split b' ' quota)
