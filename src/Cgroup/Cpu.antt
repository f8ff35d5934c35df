-- ===== src/Cgroup/Cpu.antt =====
-- cgroup/cpu.go: the limits of the CPU of a user.
use cpu_manager_go.Prelude.{
  ℕ, ℤ, pos, ltb_ℤ, Bool, true, false, not, Option, none, some, ◌∷◌, if◌then◌else◌,
}
use cpu_manager_go.Prelude.Text.{Bytes, text, same, fields, trim_space, format_int}
use cpu_manager_go.Config.Quota.{two_parts}
use cpu_manager_go.Cgroup.Files.{
  Access, Host, at, create, get_user_cgroup_path, write_file, unless_failed,
}

-- `isValidCPUQuotaFormat`
unfoldable pub is_valid_cpu_quota_format : Bytes → Bool
is_valid_cpu_quota_format quota = two_parts (fields quota)

-- The directory of the user is created unless it is there.
abbrev if_missing : Access → ℕ → Host → Host × Bool
if_missing a uid h = if h.present (get_user_cgroup_path a uid) then (h, false) else create a uid h

abbrev clamp : ℤ → ℤ
clamp weight =
    if ltb_ℤ weight (pos 1) then pos 1 else if ltb_ℤ (pos 10000) weight then pos 10000 else weight

unfoldable pub apply_cpu_weight : Access → ℕ → ℤ → Host → Host × Bool
apply_cpu_weight a uid weight h =
    unless_failed (if_missing a uid h) (
      write_file a (at (get_user_cgroup_path a uid) (text "cpu.weight"))
        (format_int (clamp weight)))

-- A write that fails for want of permission is tried again; `again` answers the second try.
abbrev retried : Access → Bool → Bytes → Bytes → Host → Host × Bool
retried a again path content h =
    if a.writes path
    then write_file a path content h
    else if again
    then (record h { written = (path, content) ∷ h.written }, false)
    else (h, true)

-- The limit is read back, and written once more where another text is found; that may fail.
abbrev verified : Access → Option Bytes → Bytes → Bytes → Host → Host
verified a none path content h = h
verified a (some found) path content h =
    if same (trim_space found) content then h else (write_file a path content h).0

-- `ApplyCPULimit`, where `moved` is the outcome of moving the user's processes, of which a timeout
-- and an error are failures.
unfoldable pub apply_cpu_limit : Access → Bool → Bool → ℕ → Bytes → Host → Host × Bool
apply_cpu_limit a again moved uid quota h =
    let path = at (get_user_cgroup_path a uid) (text "cpu.max") in
    unless_failed (if_missing a uid h) (λ g.
      if not (is_valid_cpu_quota_format quota)
      then (g, true)
      else unless_failed (retried a again path quota g)
          (λ k. (verified a (a.read path) path quota k, not moved)))

unfoldable pub remove_cpu_limit : Access → Bool → Bool → ℕ → Host → Host × Bool
remove_cpu_limit a again moved uid h = apply_cpu_limit a again moved uid (text "max 100000") h
