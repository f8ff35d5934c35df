-- ===== src/Cgroup/Io.antt =====
-- cgroup/io.go: the limits of IO and its statistics. `int(f)` of a float is a parameter.
pub mod Units
use cpu_manager_go.Prelude.{
  ℕ, ◌+◌, ◌*◌, ◌%◌, ◌^◌, ◌==◌, ℤ, pos, negsuc, Bool, true, false, ◌&&◌, ◌||◌, not, Option, none,
  some, List, [], ◌∷◌, ◌++◌, if◌then◌else◌, is_empty,
}
use cpu_manager_go.Prelude.Floats.{Floats}
use cpu_manager_go.Prelude.Text.{
  Bytes, text, same, split, fields, trim_space, cut_suffix, parse_uint, format_uint,
}
use cpu_manager_go.Config.Load.{split_pair}
use cpu_manager_go.Cgroup.Tracking.{get_cgroup_path}
use cpu_manager_go.Cgroup.Files.{Access, Host, at, or_max, write_limit, write_tracked}

-- A number of operations; what is not positive is no limit.
unfoldable pub iops_text : ℤ → Bytes
iops_text n = elim n [
  | pos k ↦ if k == 0 then text "max" else format_uint k
  | negsuc k ↦ text "max"
]

unfoldable pub device_of : Bytes → Bytes
device_of filter = if is_empty filter || same filter (text "all") then text "default" else filter

-- The text that is written to `io.max`.
unfoldable pub io_max : Bytes → Bytes → ℤ → ℤ → Bytes → Bytes
io_max read_bps write_bps read_iops write_iops filter =
    device_of filter
    ++ text " rbps="
    ++ or_max read_bps
    ++ text " wbps="
    ++ or_max write_bps
    ++ text " riops="
    ++ iops_text read_iops
    ++ text " wiops="
    ++ iops_text write_iops

unfoldable pub apply_io_limit : Access → ℕ → Bytes → Bytes → ℤ → ℤ → Bytes → Host → Host × Bool
apply_io_limit a uid read_bps write_bps read_iops write_iops filter h =
    write_limit a (text "io.max") (io_max read_bps write_bps read_iops write_iops filter) uid h

unfoldable pub remove_io_limit : Access → ℕ → Host → Host × Bool
remove_io_limit a uid h =
    write_tracked a (text "io.max") (text "default rbps=max wbps=max riops=max wiops=max") uid h

-- What `GetIOStats` returns.
pub record IoStats : Type 0 where
  pub read_bytes : ℕ
  pub write_bytes : ℕ
  pub read_ops : ℕ
  pub write_ops : ℕ

abbrev pub no_io : IoStats
no_io = record { read_bytes = 0; write_bytes = 0; read_ops = 0; write_ops = 0 }

abbrev plus : ℕ → ℕ → ℕ
plus a b = (a + b) % 2 ^ 64

unfoldable pub add_value : Bytes → ℕ → IoStats → IoStats
add_value key val s =
    if same key (text "rios")
    then record s { read_ops = plus s.read_ops val }
    else if same key (text "wios")
    then record s { write_ops = plus s.write_ops val }
    else if same key (text "rbytes")
    then record s { read_bytes = plus s.read_bytes val }
    else if same key (text "wbytes")
    then record s { write_bytes = plus s.write_bytes val }
    else s

abbrev add_pair : Option (Bytes × Bytes) → IoStats → IoStats
add_pair none s = s
add_pair (some (key, value)) s = elim (parse_uint value) [ none ↦ s | some n ↦ add_value key n s ]

-- The loop over the parts of a line.
unfoldable pub add_parts : List Bytes → IoStats → IoStats
add_parts [] s = s
add_parts (part ∷ parts) s = add_parts parts (add_pair (split_pair part) s)

-- The loop over the lines; a blank one has no parts.
unfoldable pub add_lines : List Bytes → IoStats → IoStats
add_lines [] s = s
add_lines (line ∷ lines) s = add_lines lines (add_parts (fields (trim_space line)) s)

-- `GetIOStats`; `none` is an error. A file that is not there, which
-- `no_file` tells, counts nothing.
unfoldable pub get_io_stats : Access → (Bytes → Bool) → ℕ → Host → Option IoStats
get_io_stats a no_file uid h = elim (get_cgroup_path uid h.tracking) [
  | none ↦ none
  | some path ↦
      if no_file (at path (text "io.stat"))
      then some no_io
      else elim (a.read (at path (text "io.stat"))) [
        | none ↦ none
        | some s ↦ some (add_lines (split b'\n' s) no_io)
      ]
]

-- `val * multiplier` in `uint64`; 0 where the number does not parse.
abbrev pub scaled_by : ℕ → Option ℕ → ℕ
scaled_by multiplier none = 0
scaled_by multiplier (some val) = val * multiplier % 2 ^ 64

abbrev pub either : Option Bytes → Option Bytes → Option Bytes
either none second = second
either (some s) second = some s

-- The switch over the last character, in both cases of the letters.
abbrev pub units : List (ℕ × ℕ × ℕ)
units =
    (b'K', b'k', 1024)
    ∷ (b'M', b'm', 1024 * 1024)
    ∷ (b'G', b'g', 1024 * 1024 * 1024)
    ∷ (b'T', b't', 1024 * 1024 * 1024 * 1024)
    ∷ []

unfoldable pub parse_units : List (ℕ × ℕ × ℕ) → Bytes → ℕ
parse_units [] s = scaled_by 1 (parse_uint s)
parse_units ((upper, lower, multiplier) ∷ more) s =
    let rest = parse_units more s in
    elim (either (cut_suffix upper s) (cut_suffix lower s)) [
      | some number ↦ scaled_by multiplier (parse_uint number)
      | none ↦ rest
    ]

-- `parseBPSValue`
unfoldable pub parse_bps_value : Bytes → ℕ
parse_bps_value s = if is_empty (trim_space s) then 0 else parse_units units (trim_space s)

module _ (fl : Floats) (to_int : fl.F → ℤ) where
  open fl use {F, of_nat, of_int, mul, to_nat}

  unfoldable pub apply_multiplier_to_bps : Bytes → F → Bytes
  apply_multiplier_to_bps bps multiplier =
      let boosted = format_uint (to_nat (mul (of_nat (parse_bps_value bps)) multiplier)) in
      if is_empty bps || same bps (text "max") || same bps (text "0")
      then text "max"
      else if parse_bps_value bps == 0
      then text "max"
      else boosted

  unfoldable pub apply_temporary_io_limit :
      Access → ℕ → Bytes → Bytes → ℤ → ℤ → Bytes → F → Host → Host × Bool
  apply_temporary_io_limit a uid read_bps write_bps read_iops write_iops filter multiplier h =
      elim (get_cgroup_path uid h.tracking) [
        | none ↦ (h, true)
        | some path ↦
            apply_io_limit a uid (apply_multiplier_to_bps read_bps multiplier)
              (apply_multiplier_to_bps write_bps multiplier)
              (to_int (mul (of_int read_iops) multiplier))
              (to_int (mul (of_int write_iops) multiplier)) filter h
      ]
