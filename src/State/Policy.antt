-- ===== src/State/Policy.antt =====
-- state/policy_engine.go, and the patterns of state/pattern_detector.go: the quotas of a workload.
use cpu_manager_go.Prelude.{
  ℕ, ◌+◌, ◌-◌, ◌/◌, ◌≡◌, ◌==◌, ℤ, pos, negsuc, ltb_ℤ, leb_ℤ, wrap64, ◌+ℤ◌, Bool, true, false, not,
  ◌&&◌, Option, none, some, [], if◌then◌else◌, arith,
}
use cpu_manager_go.Prelude.Clock.{Instant, since}
use cpu_manager_go.Prelude.Dict.{Dict, lookup, put, keep, lookup-put}
use cpu_manager_go.Prelude.Text.{Bytes, same, same_refl}
use cpu_manager_go.Config.Defs.{Config}

pub data WorkloadPattern : Type 0 where
  batch_night interactive_day mixed always_on sporadic unknown : WorkloadPattern

pub record UserPolicy : Type 0 where
  pub cpu_quota : ℤ
  pub ram_quota : Bytes
  pub applied_at : Instant
  pub last_changed : Instant
  pub previous_cpu_quota : ℤ
  pub previous_ram_quota : Bytes

-- `userPolicies`
abbrev pub Policies : Type 0
Policies = Dict UserPolicy

-- Go's division by 2, which rounds towards zero.
abbrev pub half : ℤ → ℤ
half (pos n) = pos (n / 2)
half (negsuc n) = if n == 0 then pos 0 else negsuc ((n + 1) / 2 - 1)

abbrev eq_ℤ : ℤ → ℤ → Bool
eq_ℤ a b = leb_ℤ a b && leb_ℤ b a

-- `getQuotasForPattern`
unfoldable pub get_quotas_for_pattern : {F : Type 0} → WorkloadPattern → Config F → ℤ × Bytes
get_quotas_for_pattern batch_night cfg = (cfg.batch_night_cpu_quota, cfg.batch_night_ram_quota)
get_quotas_for_pattern interactive_day cfg = (cfg.interactive_cpu_quota, cfg.interactive_ram_quota)
get_quotas_for_pattern mixed cfg = (
  half (wrap64 (cfg.batch_night_cpu_quota +ℤ cfg.interactive_cpu_quota)),
  cfg.interactive_ram_quota,
)
get_quotas_for_pattern always_on cfg = (cfg.interactive_cpu_quota, cfg.interactive_ram_quota)
get_quotas_for_pattern sporadic cfg = (half cfg.interactive_cpu_quota, cfg.interactive_ram_quota)
get_quotas_for_pattern unknown cfg = (pos 0, [])

abbrev pub is_unknown : WorkloadPattern → Bool
is_unknown unknown = true
is_unknown batch_night = false
is_unknown interactive_day = false
is_unknown mixed = false
is_unknown always_on = false
is_unknown sporadic = false

-- The policy of a user that gets other quotas.
unfoldable pub set_quotas : ℤ × Bytes → Instant → Option UserPolicy → UserPolicy
set_quotas (cpu, ram) now none = record {
  cpu_quota = cpu;
  ram_quota = ram;
  applied_at = now;
  last_changed = now;
  previous_cpu_quota = pos 0;
  previous_ram_quota = [];
}
set_quotas (cpu, ram) now (some p) = record p {
  previous_cpu_quota = p.cpu_quota;
  previous_ram_quota = p.ram_quota;
  cpu_quota = cpu;
  ram_quota = ram;
  last_changed = now;
}

unfoldable pub has_quotas : ℤ × Bytes → Option UserPolicy → Bool
has_quotas (cpu, ram) none = false
has_quotas (cpu, ram) (some p) = eq_ℤ p.cpu_quota cpu && same p.ram_quota ram

-- `ApplyPolicy`: the policies, and whether one changed.
unfoldable pub apply_policy :
    {F : Type 0} → ℕ → WorkloadPattern → Config F → Instant → Policies → Policies × Bool
apply_policy uid pattern cfg now policies =
    let target = get_quotas_for_pattern pattern cfg in
    let existing = lookup uid policies in
    if is_unknown pattern
    then (policies, false)
    else if has_quotas target existing
    then (policies, false)
    else (put uid (set_quotas target now existing) policies, true)

-- `Cleanup`
unfoldable pub cleanup_policies : ℤ → Instant → Policies → Policies
cleanup_policies max_age now policies =
    keep (λ uid p. not (ltb_ℤ max_age (since now p.last_changed))) policies

has_quotas-set_quotas :
    (q : ℤ × Bytes) (now : Instant) (p : Option UserPolicy)
    → has_quotas q (some (set_quotas q now p)) ≡ true
unfolding has_quotas set_quotas
has_quotas-set_quotas (cpu, ram) now none = ground (arith, same_refl ram)
has_quotas-set_quotas (cpu, ram) now (some p) = ground (arith, same_refl ram)

-- After `ApplyPolicy` with a known pattern the user has the quotas of the pattern, whatever policy
-- there was before, applying the same pattern again at any later time changes nothing, and the
-- policies of all other users are as before.
pub apply_policy_settles :
    {F : Type 0} (uid other : ℕ) (pattern : WorkloadPattern) (cfg : Config F) (now later : Instant)
    (policies : Policies)
    → is_unknown pattern ≡ false
    → let after = (apply_policy uid pattern cfg now policies).0 in
      (has_quotas (get_quotas_for_pattern pattern cfg) (lookup uid after) ≡ true)
      × (apply_policy uid pattern cfg later after ≡ (after, false))
      × ((other == uid) ≡ false → lookup other after ≡ lookup other policies)
unfolding apply_policy
apply_policy_settles uid other pattern cfg now later policies known =
    let q = get_quotas_for_pattern pattern cfg in
    let existing = lookup uid policies in
    let set = set_quotas q now existing in
    ground (
      arith,
      has_quotas-set_quotas q now existing,
      lookup-put uid uid set policies,
      lookup-put other uid set policies,
    )
