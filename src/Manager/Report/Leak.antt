-- ===== src/Manager/Report/Leak.antt =====
-- What `handle_cpu_usage_report` does about time that is lost (Manager.cpp).
use ec_gcm.Common.{ℕ, ◌+◌, ◌≡◌, ◌<◌, arith, if◌then◌else◌, leb}
use ec_gcm.Stats.GlobalCpu.{GlobalCpu, IsValid, incr_unallocated_rt}
use ec_gcm.Platform.{Double, Net}
use ec_gcm.Manager.Report.{fix_leak}

module _ ⦃d : Double⦄ ⦃net : Net⦄ where
  -- With counters below `2 ^ 62`, where the time handed out and the pool are `missing` short of the
  -- total and earlier reports left a leak of less than 1000 on record: once the two reach 1000, all
  -- of both goes to the pool, so that the two counters pass the total by what was on record; below
  -- that, the missing time is added to the leak on record, though it may be the same time that
  -- was counted before.
  pub fix_leak_overshoots :
      (leak missing : ℕ) (c : GlobalCpu)
      → IsValid c
      → leak < 1000
      → c.alloc_rt + c.unallocated_rt + missing ≡ c.total_cpu
      → let (fixed, left) = fix_leak leak c in
        (fixed.alloc_rt + fixed.unallocated_rt ≡ (
          if leb 1000 (leak + missing) then c.total_cpu + leak else c.alloc_rt + c.unallocated_rt))
        × (left ≡ (if leb 1000 (leak + missing) then 0 else leak + missing))
  unfolding fix_leak incr_unallocated_rt
  fix_leak_overshoots leak missing c v h e = ground arith
