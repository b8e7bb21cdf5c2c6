-- ===== src/Manager/Cpu/Branches.antt =====
-- What the branches of `handle_cpu_usage_report` do to the counters and to the container's quota.
use ec_gcm.Common.{ℕ, ◌+◌, ◌-◌, ◌≡◌, ◌≤◌, ◌<◌, ◌^◌, refl, arith, sub64}
use ec_gcm.Platform.{Double, Net}
use ec_gcm.Stats.GlobalCpu.{
  GlobalCpu, IsValid, incr_unallocated_rt, decr_unallocated_rt, incr_alloc_rt, decr_alloc_rt,
  incr_overrun, decr_overrun,
}
use ec_gcm.SubContainer.{set_quota, set_quota_flag, flush_stats}
use ec_gcm.SubContainer.Identity.{container_key}
use ec_gcm.Stats.LocalCpu
use ec_gcm.Manager.Cpu.{Session, give, take_back, repay, lend}

-- Time handed to containers, plus the pool, less what was lent beyond it, is the same in both.
abbrev pub Balanced : GlobalCpu → GlobalCpu → Type 0
Balanced b c = c.alloc_rt + c.unallocated_rt + b.overrun ≡ b.alloc_rt + b.unallocated_rt + c.overrun

module _ ⦃d : Double⦄ ⦃net : Net⦄ where
  -- `give` out of a pool that holds the amount, or of a wrapped difference, which hands time back.
  pub give-Balanced :
      (amount quota : ℕ) (s : Session)
      → IsValid s.ec.cpu
      → amount ≤ s.ec.cpu.unallocated_rt
      → Balanced s.ec.cpu (give amount quota s).ec.cpu
  unfolding give incr_alloc_rt decr_unallocated_rt
  give-Balanced amount quota s v h = ground arith

  pub give-Balanced_wrapped :
      (new old quota : ℕ) (s : Session)
      → IsValid s.ec.cpu
      → new < old
      → old ≤ s.ec.cpu.alloc_rt
      → Balanced s.ec.cpu (give (sub64 new old) quota s).ec.cpu
  unfolding give incr_alloc_rt decr_unallocated_rt
  give-Balanced_wrapped new old quota s v h k = ground arith

  pub take_back-Balanced :
      (amount quota : ℕ) (s : Session)
      → IsValid s.ec.cpu
      → amount ≤ s.ec.cpu.alloc_rt
      → Balanced s.ec.cpu (take_back amount quota s).ec.cpu
  unfolding take_back decr_alloc_rt incr_unallocated_rt
  take_back-Balanced amount quota s v h = ground arith

  pub repay-Balanced :
      (amount quota : ℕ) (s : Session)
      → IsValid s.ec.cpu
      → amount ≤ s.ec.cpu.overrun
      → amount ≤ s.ec.cpu.alloc_rt
      → Balanced s.ec.cpu (repay amount quota s).ec.cpu
  unfolding repay decr_alloc_rt decr_overrun
  repay-Balanced amount quota s v h k = ground arith

  pub lend-Balanced :
      (amount quota : ℕ) (s : Session)
      → IsValid s.ec.cpu
      → amount < 2 ^ 62
      → Balanced s.ec.cpu (lend amount quota s).ec.cpu
  unfolding lend incr_alloc_rt incr_overrun
  lend-Balanced amount quota s v h = ground arith

  -- What an effect does to the container and to the calls on record.
  abbrev pub Resets : ℕ → Session → Session → Type 0
  Resets quota s s' = (s'.sc.cpu.quota ≡ quota) × (s'.sc.c_id ≡ s.sc.c_id) × (s'.sent ≡ s.sent)

  pub give-Resets : (amount quota : ℕ) (s : Session) → Resets quota s (give amount quota s)
  unfolding give set_quota set_quota_flag flush_stats LocalCpu.flush LocalCpu.set_quota
      LocalCpu.set_set_quota_flag
  give-Resets amount quota s = (refl, refl, refl)

  pub take_back-Resets :
      (amount quota : ℕ) (s : Session) → Resets quota s (take_back amount quota s)
  unfolding take_back set_quota set_quota_flag flush_stats LocalCpu.flush LocalCpu.set_quota
      LocalCpu.set_set_quota_flag
  take_back-Resets amount quota s = (refl, refl, refl)

  pub repay-Resets : (amount quota : ℕ) (s : Session) → Resets quota s (repay amount quota s)
  unfolding repay set_quota set_quota_flag flush_stats LocalCpu.flush LocalCpu.set_quota
      LocalCpu.set_set_quota_flag
  repay-Resets amount quota s = (refl, refl, refl)

  pub lend-Resets : (amount quota : ℕ) (s : Session) → Resets quota s (lend amount quota s)
  unfolding lend set_quota set_quota_flag flush_stats LocalCpu.flush LocalCpu.set_quota
      LocalCpu.set_set_quota_flag
  lend-Resets amount quota s = (refl, refl, refl)

  -- A pool that does not hold the amount is emptied, and the sum of the two counters grows by what
  -- it lacks.
  pub give_short :
      (amount quota : ℕ) (s : Session)
      → IsValid s.ec.cpu
      → amount < 2 ^ 62
      → let c = (give amount quota s).ec.cpu in
        (c.overrun ≡ s.ec.cpu.overrun)
        × (c.alloc_rt ≡ s.ec.cpu.alloc_rt + amount)
        × (c.unallocated_rt ≡ s.ec.cpu.unallocated_rt - amount)
  unfolding give incr_alloc_rt decr_unallocated_rt
  give_short amount quota s v h = ground arith
