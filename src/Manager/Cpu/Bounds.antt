-- ===== src/Manager/Cpu/Bounds.antt =====
-- Bounds on the amounts of `handle_cpu_usage_report`.
use ec_gcm.Common.{ℕ, ◌+◌, ◌-◌, ◌/◌, ◌≡◌, ◌≤◌, ◌<◌, ◌^◌, arith, sub64, ltb, Bool-cases, inl, inr}
use ec_gcm.Platform.{Double}
use ec_gcm.Manager.Cpu.Amounts.{
  Usage, max_unused_rt, idle_quota, overrun_share, fair_share_pooled, fair_share_lent,
  throttle_relief, unused_quota, trimmed_quota, part_lacking,
}

-- What the branches rely on of `double`: where all the numbers are integers that a double holds
-- exactly, a fraction of at most 1 of a number, and 0.8 of it, are at most the number.
pub record IsRounding ⦃d : Double⦄ : Type 0 where
  pub fraction_le :
      (part whole n : ℕ)
      → part < whole
      → whole < 2 ^ 53
      → n < 2 ^ 53
      → d.to_u64
          (d.prod (d.quot (d.diff (d.of_u64 whole) (d.of_u64 part)) (d.of_u64 whole)) (d.of_u64 n))
        ≤ n
  pub most_le :
      (n : ℕ)
      → n < 2 ^ 53
      → d.to_u64 (d.prod (d.of_u64 n) (d.diff (d.of_u64 1) (d.decimal 2 1))) ≤ n

module _ ⦃d : Double⦄ where
  pub idle_quota-le : (u : Usage) → idle_quota u ≤ u.unallocated
  unfolding idle_quota
  idle_quota-le u = ground arith

  pub overrun_share-le : (u : Usage) → overrun_share u ≤ u.overrun
  unfolding overrun_share
  overrun_share-le u = ground arith

  pub throttle_relief-le : (u : Usage) → throttle_relief u ≤ u.unallocated
  unfolding throttle_relief
  throttle_relief-le u = ground arith

  -- A container whose quota is at least a slice, of 5 ms or more, and below `2 ^ 53`: the quota that
  -- is 5 ms less is still at least the slice and at most the old quota.
  pub trimmed_quota_bounds :
      (u : Usage)
      → max_unused_rt ≤ u.slice
      → u.slice ≤ u.rx_quota
      → u.rx_quota < 2 ^ 53
      → (u.slice ≤ trimmed_quota u) × (trimmed_quota u ≤ u.rx_quota)
  unfolding trimmed_quota
  trimmed_quota_bounds u h k l = ground arith

  pub fair_share_pooled-le :
      (u : Usage)
      → u.rx_quota < u.fair
      → u.fair < 2 ^ 53
      → (u.fair ≤ u.rx_quota + u.slice / 2 → u.fair ≤ u.rx_quota + u.unallocated)
      → fair_share_pooled u ≤ u.unallocated
  unfolding fair_share_pooled
  fair_share_pooled-le u h k enough = ground arith

  module _ (laws : IsRounding) where
    -- With doubles whose rounding `IsRounding` bounds, a container whose quota is at least a slice and
    -- below `2 ^ 53`: four fifths of the quota, raised to the slice, is at least the slice and at most
    -- the old quota.
    pub unused_quota_bounds :
        (u : Usage)
        → u.slice ≤ u.rx_quota
        → u.rx_quota < 2 ^ 53
        → (u.slice ≤ unused_quota u) × (unused_quota u ≤ u.rx_quota)
    unfolding unused_quota
    unused_quota_bounds u h k = ground (arith, laws.most_le u.rx_quota k)

    sub64-eq : (a b : ℕ) → b < a → a < 2 ^ 53 → sub64 a b ≡ a - b
    sub64-eq a b h k = omega arith

    pub part_lacking-le :
        (u : Usage) → u.rx_quota < u.fair → u.fair < 2 ^ 53 → part_lacking u ≤ u.fair - u.rx_quota
    part_lacking-le u h k =
        rw (sub64-eq u.fair u.rx_quota h k, part_lacking)
          (laws.fraction_le u.rx_quota u.fair (u.fair - u.rx_quota) h k (omega arith))

    pub fair_share_lent-le :
        (u : Usage)
        → u.rx_quota < u.fair
        → u.fair < 2 ^ 53
        → fair_share_lent u ≤ u.fair - u.rx_quota
    unfolding fair_share_lent
    fair_share_lent-le u h k =
        let part = part_lacking-le u h k in
        elim (Bool-cases (ltb (u.slice / 2) (sub64 u.fair u.rx_quota))) [
          | inl e ↦ rw e part
          | inr e ↦ rw e (omega arith)
        ]
