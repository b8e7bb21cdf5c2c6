-- ===== src/Stats/GlobalCpu/Laws.antt =====
-- The counters of cpu_g.cpp against plain arithmetic.
use ec_gcm.Common.{ℕ, ◌+◌, ◌-◌, ◌≤◌, ◌<◌, ◌^◌, ◌≡◌, arith, u64}
use ec_gcm.Stats.GlobalCpu.{
  GlobalCpu, decr_clamped, incr_unallocated_rt, decr_unallocated_rt, incr_alloc_rt, decr_alloc_rt,
  IsValid,
}

-- Below half the range of the type a decrement stops at 0.
pub decr_clamped-eq_sub :
    (value decr : ℕ) → value < 2 ^ 63 → decr < 2 ^ 63 → decr_clamped value decr ≡ value - decr
decr_clamped-eq_sub value decr h k = ground arith

-- A decrement by the wrapped difference of two words gives the amount back.
pub decr_clamped-wrapped :
    (value gift : ℕ)
    → 0 < gift
    → value + gift < 2 ^ 63
    → decr_clamped value (u64 - gift) ≡ value + gift
decr_clamped-wrapped value gift h k = ground arith

-- Handing CPU time out and taking it back leaves the counters as they were, while the pool holds
-- what is handed out and the counters are below `2 ^ 62`.
pub give-take :
    (amount : ℕ) (c : GlobalCpu)
    → IsValid c
    → amount ≤ c.unallocated_rt
    → incr_unallocated_rt amount
        (decr_alloc_rt amount (incr_alloc_rt amount (decr_unallocated_rt amount c)))
      ≡ c
unfolding incr_unallocated_rt decr_alloc_rt incr_alloc_rt decr_unallocated_rt
give-take amount c v h = ground arith

-- With counters and an amount below `2 ^ 62`, a move from the pool to the containers keeps their sum if the pool holds the amount, and raises
-- the sum by what the pool lacks if it does not.
pub give_total :
    (amount : ℕ) (c : GlobalCpu)
    → IsValid c
    → amount < 2 ^ 62
    → let d = incr_alloc_rt amount (decr_unallocated_rt amount c) in
      d.unallocated_rt + d.alloc_rt ≡ c.unallocated_rt + c.alloc_rt + (amount - c.unallocated_rt)
unfolding incr_alloc_rt decr_unallocated_rt
give_total amount c v h = ground arith
