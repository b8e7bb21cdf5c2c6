-- ===== src/EcApi/NewPod.antt =====
-- `determine_quota_for_new_pod`: what a new container gets, and where it comes from.
use ec_gcm.Common.{ℕ, ◌+◌, ◌≡◌, ◌≤◌, ◌<◌, ◌^◌, true, arith, ◌↔◌, min}
use ec_gcm.Stats.GlobalCpu.{
  GlobalCpu, IsValid, decr_unallocated_rt, incr_alloc_rt, incr_overrun, set_unallocated_rt,
}
use ec_gcm.EcApi.{determine_quota_for_new_pod}

-- With counters and a request below `2 ^ 62`, the quota of a new container is what it asks for, as far as the pool goes, and one slice out of
-- an empty pool. The time that is allocated grows by that quota, and comes from the pool or is
-- recorded as overrun: the rest of the pool, and the sum of the two less the overrun, are kept.
-- The agent is told exactly when the container asks for more than the pool holds.
pub new_pod_quota :
    (req_quota : ℕ) (c : GlobalCpu)
    → IsValid c
    → req_quota < 2 ^ 62
    → let (new, quota, update) = determine_quota_for_new_pod req_quota c in
      ((0 < c.unallocated_rt) → quota ≡ min req_quota c.unallocated_rt)
      × (c.unallocated_rt ≡ 0 → 0 < req_quota → quota ≡ c.slice_size)
      × (new.alloc_rt ≡ c.alloc_rt + quota)
      × (new.unallocated_rt ≤ c.unallocated_rt)
      × (new.alloc_rt + new.unallocated_rt + c.overrun
          ≡ c.alloc_rt + c.unallocated_rt + new.overrun)
      × ((update ≡ true) ↔ (c.unallocated_rt < req_quota))
unfolding determine_quota_for_new_pod decr_unallocated_rt incr_alloc_rt incr_overrun
    set_unallocated_rt
new_pod_quota req_quota c v h = ground arith
