-- ===== src/State/Limits/Share.antt =====
-- The share of the machine that the limited users get.
use cpu_manager_go.Prelude.{
  ℕ, ◌-◌, ◌*◌, ◌≤◌, ◌^◌, ◌≡◌, pos, wrap64_small, wrap64_small_neg, ltb, leb, if◌then◌else◌,
  Bool-cases, inl, inr, arith,
}
use cpu_manager_go.State.Limits.Activate.{total_quota}

-- On a machine of up to 2 ^ 32 cores, the total quota of the limited users leaves the configured
-- number of cores to the system, in microseconds of each period of 100000, as long as another core
-- is left; and it is one core otherwise.
pub total_quota-leaves_cores :
    (cores reserved : ℕ)
    → cores ≤ 2 ^ 32
    → reserved ≤ 2 ^ 32
    → total_quota (pos cores) (pos reserved)
      ≡ pos ((if ltb reserved cores then cores - reserved else 1) * 100000)
unfolding total_quota
total_quota-leaves_cores cores reserved c r = elim (Bool-cases (leb reserved cores)) [
  | inl enough ↦ ground (
    arith,
    wrap64_small (cores - reserved) (ground arith),
    wrap64_small ((cores - reserved) * 100000) (ground arith),
    wrap64_small 100000 (omega arith),
  )
  | inr short ↦ ground (
    arith,
    wrap64_small_neg (reserved - cores - 1) (ground arith),
    wrap64_small 100000 (omega arith),
  )
]
