-- ===== src/Manager/Cpu/Amounts.antt =====
-- The amounts that `handle_cpu_usage_report` computes, over the numbers that it reads.
use ec_gcm.Common.{ℕ, ◌/◌, if◌then◌else◌, ltb, sub64, min64, max64}
use ec_gcm.Platform.{Double}

-- What one report says (`rx_quota`, `runtime_remaining`), the two means, and the state read: the
-- slice, the pool, the overrun and the fair share.
pub record Usage : Type 0 where
  pub rx_quota : ℕ
  pub rt_remaining : ℕ
  pub rt_mean : ℕ
  pub thr_mean : ℕ
  pub slice : ℕ
  pub unallocated : ℕ
  pub overrun : ℕ
  pub fair : ℕ

abbrev pub one_core : ℕ
one_core = 100_000_000

abbrev pub max_cpu_loss : ℕ
max_cpu_loss = 1000

abbrev pub max_unused_rt : ℕ
max_unused_rt = 5_000_000

-- The new quota of a container that was idle.
unfoldable pub idle_quota : Usage → ℕ
idle_quota u = min64 u.unallocated one_core

-- 5 ms less, but at least a slice.
unfoldable pub trimmed_quota : Usage → ℕ
trimmed_quota u = max64 u.slice (sub64 u.rx_quota max_unused_rt)

module _ ⦃d : Double⦄ where
  open d use {of_u64, of_i64, to_u64, decimal, diff, prod, quot, lt}

  -- `percent_decr`: the share of the quota that was not used. The integer is the remaining time,
  -- taken through two differences of `int64_t`.
  unfoldable pub unused_fraction : Usage → ℕ
  unused_fraction u =
      quot (of_i64 (sub64 u.rx_quota (sub64 u.rx_quota u.rt_remaining))) (of_u64 u.rx_quota)

  -- `to_sub`: what a container above its fair share gives back of the overrun.
  abbrev pub percent_over : Usage → ℕ
  percent_over u = quot (diff (of_u64 u.rx_quota) (of_u64 u.fair)) (of_u64 u.fair)

  abbrev pub wanted_back : Usage → ℕ
  wanted_back u =
      if lt (of_u64 1) (percent_over u)
      then to_u64 (prod (percent_over u) (of_u64 u.slice))
      else to_u64 (prod (percent_over u) (of_u64 (sub64 u.rx_quota u.fair)))

  unfoldable pub overrun_share : Usage → ℕ
  overrun_share u =
      let to_sub =
        if ltb (wanted_back u) (u.slice / 2) then sub64 u.rx_quota u.fair else wanted_back u in
      min64 u.overrun to_sub

  -- `percent_under * amnt_share_lacking`.
  abbrev pub part_lacking : Usage → ℕ
  part_lacking u = to_u64 (
      prod (quot (diff (of_u64 u.fair) (of_u64 u.rx_quota)) (of_u64 u.fair))
        (of_u64 (sub64 u.fair u.rx_quota)))

  -- `to_add`, out of a pool that is not empty.
  unfoldable pub fair_share_pooled : Usage → ℕ
  fair_share_pooled u =
      if ltb (u.slice / 2) (sub64 u.fair u.rx_quota)
      then min64 u.unallocated (part_lacking u)
      else sub64 u.fair u.rx_quota

  -- `overrun`, where the pool is empty.
  unfoldable pub fair_share_lent : Usage → ℕ
  fair_share_lent u =
      if ltb (u.slice / 2) (sub64 u.fair u.rx_quota)
      then part_lacking u
      else sub64 u.fair u.rx_quota

  -- `extra_rt` for a throttled container.
  unfoldable pub throttle_relief : Usage → ℕ
  throttle_relief u =
      min64 u.unallocated (to_u64 (prod (prod (of_u64 20) u.thr_mean) (of_u64 u.slice)))

  -- Four fifths of the quota, but at least a slice.
  unfoldable pub unused_quota : Usage → ℕ
  unused_quota u = max64 u.slice (to_u64 (prod (of_u64 u.rx_quota) (diff (of_u64 1) (decimal 2 1))))
