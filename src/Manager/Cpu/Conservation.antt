-- ===== src/Manager/Cpu/Conservation.antt =====
-- Conservation of CPU time over all the branches of `handle_cpu_usage_report`, and the one case in
-- which time is made up.
use ec_gcm.Common.{
  true, false, ℕ, ◌+◌, ◌-◌, ◌/◌, ◌≡◌, ◌≤◌, ◌<◌, ◌^◌, inl, inr, refl, Bool, ◌&&◌, leb, ltb, ltb→lt,
  lt→ltb, leb→le, if_cases, and-true_left, and-true_right, arith, Outcome, add64, sub64, Bool-cases,
  ◌==◌, Returns,
}
use native.Mathlib.Nat.{le_of_lt}
use ec_gcm.Platform.{Double, Net, World}
use ec_gcm.Agents.{AgentClient}
use ec_gcm.Stats.GlobalCpu.{IsValid}
use ec_gcm.SubContainer.Identity.{container_key}
use ec_gcm.Manager.Cpu.Amounts.{
  Usage, max_unused_rt, idle_quota, overrun_share, fair_share_pooled, fair_share_lent,
  throttle_relief, unused_quota, trimmed_quota, unused_fraction,
}
use ec_gcm.Manager.Cpu.{
  Session, give, take_back, repay, lend, resize, serve_idle, serve_above_share, serve_below_share,
  serve_throttled, shrink, reallocate,
}
use ec_gcm.Manager.Cpu.Resize.{IsReachable, called, resize_lem, resize-Returns}
use ec_gcm.Manager.Cpu.Bounds.{
  IsRounding, idle_quota-le, overrun_share-le, throttle_relief-le, trimmed_quota_bounds,
  fair_share_pooled-le, unused_quota_bounds, fair_share_lent-le,
}
use ec_gcm.Manager.Cpu.Branches.{
  Balanced, give-Balanced, give-Balanced_wrapped, take_back-Balanced, repay-Balanced, lend-Balanced,
  give_short, give-Resets,
}

-- The numbers of a report are the counters of its session, and are ordinary ones: time below
-- 2 ^ 53 ns, the reported quota and the overrun part of what is allocated, a slice of 5 ms or more.
pub record IsOrdinary (u : Usage) (s : Session) : Type 0 where
  pub counters : IsValid s.ec.cpu
  pub slice_eq : u.slice ≡ s.ec.cpu.slice_size
  pub unallocated_eq : u.unallocated ≡ s.ec.cpu.unallocated_rt
  pub overrun_eq : u.overrun ≡ s.ec.cpu.overrun
  pub rx_lt : u.rx_quota < 2 ^ 53
  pub fair_lt : u.fair < 2 ^ 53
  pub rx_le : u.rx_quota ≤ s.ec.cpu.alloc_rt
  pub overrun_le : s.ec.cpu.overrun ≤ s.ec.cpu.alloc_rt
  pub slice_ge : max_unused_rt ≤ u.slice

module _ ⦃d : Double⦄ ⦃net : Net⦄ where
  module _ (world : World) (seq : ℕ) (u : Usage) (s : Session) (ac : AgentClient)
      (laws : IsRounding) (o : IsOrdinary u s) (r : IsReachable ac s) where
    abbrev Kept : Outcome Session → Type 0
    Kept = Returns (λ s'. Balanced s.ec.cpu s'.ec.cpu)

    -- A call whose effect keeps the balance.
    resize-Kept :
        (quota : ℕ) (effect : Session → Session)
        → Balanced s.ec.cpu (effect (called ac seq quota s)).ec.cpu
        → Kept (resize world seq quota effect s)
    resize-Kept quota effect =
        resize-Returns (λ s'. Balanced s.ec.cpu s'.ec.cpu) world seq quota effect s ac r refl

    serve_idle-Kept : Kept (serve_idle world seq u s)
    unfolding serve_idle
    serve_idle-Kept =
        let quota = idle_quota u in
        let extra_rt = sub64 quota u.rx_quota in
        let step : Kept (resize world seq quota (give extra_rt quota) s) =
          elim (Bool-cases (ltb quota u.rx_quota)) [
            | inl e ↦ resize-Kept quota (give extra_rt quota) (
                give-Balanced_wrapped quota u.rx_quota quota (called ac seq quota s) o.counters
                  (ltb→lt _ _ e) o.rx_le)
            | inr e ↦ resize-Kept quota (give extra_rt quota) (
                give-Balanced extra_rt quota (called ac seq quota s) o.counters
                  (ground (arith, idle_quota-le u, o.unallocated_eq, o.counters.unallocated_lt)))
          ] in
        if_cases Kept (ltb 0 extra_rt) (λ _. step) (λ _. refl)

    serve_above_share-Kept : Kept (serve_above_share world seq u s)
    unfolding serve_above_share
    serve_above_share-Kept =
        let quota = sub64 u.rx_quota (overrun_share u) in
        let back = overrun_share-le u in
        resize-Kept quota (repay (overrun_share u) quota) (
          repay-Balanced (overrun_share u) quota (called ac seq quota s) o.counters
            (omega (arith, back, o.overrun_eq)) (omega (arith, back, o.overrun_eq, o.overrun_le)))

    serve_throttled-Kept : Kept (serve_throttled world seq u s)
    unfolding serve_throttled
    serve_throttled-Kept =
        let extra_rt = throttle_relief u in
        let quota = add64 u.rx_quota extra_rt in
        let step : Kept (resize world seq quota (give extra_rt quota) s) =
          resize-Kept quota (give extra_rt quota) (
            give-Balanced extra_rt quota (called ac seq quota s) o.counters
              (omega (arith, throttle_relief-le u, o.unallocated_eq))) in
        if_cases Kept (ltb 0 extra_rt) (λ _. step) (λ _. refl)

    shrink-Kept : (quota : ℕ) → quota ≤ u.rx_quota → Kept (shrink world seq quota u s)
    unfolding shrink
    shrink-Kept quota h =
        let amount = sub64 u.rx_quota quota in
        let step : Kept (resize world seq quota (take_back amount quota) s) =
          resize-Kept quota (take_back amount quota) (
            take_back-Balanced amount quota (called ac seq quota s) o.counters
              (omega (arith, o.rx_le, o.rx_lt))) in
        if_cases Kept (quota == u.rx_quota) (λ _. refl) (λ _. step)

    serve_below_share-Kept :
        u.rx_quota < u.fair
        → (u.fair ≤ u.rx_quota + u.slice / 2
            → 0 < u.unallocated
            → u.fair ≤ u.rx_quota + u.unallocated)
        → Kept (serve_below_share world seq u s)
    unfolding serve_below_share
    serve_below_share-Kept below enough =
        let pooled = fair_share_pooled u in
        let lent = fair_share_lent u in
        if_cases Kept (ltb 0 u.unallocated)
          (λ e. resize-Kept (add64 u.rx_quota pooled) (give pooled (add64 u.rx_quota pooled)) (
            give-Balanced pooled _ (called ac seq (add64 u.rx_quota pooled) s) o.counters (
              omega (
                arith,
                fair_share_pooled-le u below o.fair_lt (λ near. enough near (ltb→lt _ _ e)),
                o.unallocated_eq,
              ))))
          (λ _. resize-Kept (add64 u.rx_quota lent) (lend lent (add64 u.rx_quota lent)) (
            lend-Balanced lent _ (called ac seq (add64 u.rx_quota lent) s) o.counters
              (omega (arith, fair_share_lent-le laws u below o.fair_lt, o.fair_lt))))

    -- Whichever case a report falls into and whatever the agent answers, the time handed out plus
    -- the pool, less the overrun, is what it was. The doubles round as
    -- `IsRounding` says, the numbers are ordinary (`IsOrdinary`), the container is
    -- inserted and its client known, and a container that lacks half a slice or less finds that
    -- much in the pool unless the pool is empty.
    pub reallocate-Balanced :
        (idle : Bool)
        → (u.fair ≤ u.rx_quota + u.slice / 2
            → 0 < u.unallocated
            → u.fair ≤ u.rx_quota + u.unallocated)
        → Returns (λ s'. Balanced s.ec.cpu s'.ec.cpu) (reallocate world seq idle u s)
    unfolding reallocate
    reallocate-Balanced idle enough =
        if_cases Kept (idle && ltb 0 u.unallocated) (λ _. serve_idle-Kept)
          λ _.
            if_cases Kept (ltb 0 u.overrun && ltb u.fair u.rx_quota) (λ _. serve_above_share-Kept)
              λ _.
                if_cases Kept (ltb u.rx_quota u.fair && d.lt (d.decimal 5 1) u.thr_mean)
                  (λ e. serve_below_share-Kept (ltb→lt _ _ (and-true_left _ _ e)) enough)
                  λ _.
                    if_cases Kept (d.le (d.decimal 1 1) u.thr_mean && ltb 0 u.unallocated)
                      (λ _. serve_throttled-Kept)
                      λ _.
                        if_cases Kept
                          (d.lt (d.decimal 2 1) (unused_fraction u) && leb u.slice u.rx_quota)
                          (λ e.
                            shrink-Kept (unused_quota u)
                              (unused_quota_bounds laws u (leb→le _ _ (and-true_right _ _ e))
                                o.rx_lt).1)
                          λ _.
                            if_cases Kept (ltb max_unused_rt u.rt_mean && ltb u.slice u.rx_quota)
                              (λ e.
                                shrink-Kept (trimmed_quota u)
                                  (trimmed_quota_bounds u o.slice_ge
                                    (le_of_lt (ltb→lt _ _ (and-true_right _ _ e))) o.rx_lt).1)
                              λ _. refl

    pooled_near :
        u.rx_quota < u.fair
        → u.fair ≤ u.rx_quota + u.slice / 2
        → (fair_share_pooled u ≡ u.fair - u.rx_quota)
          × (add64 u.rx_quota (u.fair - u.rx_quota) ≡ u.fair)
    unfolding fair_share_pooled
    pooled_near below near = ground (arith, o.fair_lt)

    -- The branch that serves a container below its share, with a pool that holds less than it lacks.
    serve_below_share_makes_time :
        0 < u.unallocated
        → u.rx_quota + u.unallocated < u.fair
        → u.fair ≤ u.rx_quota + u.slice / 2
        → world.quota_status ac.handle s.sc.c_id.cgroup_id u.fair ≡ 0
        → Returns
            (λ s'.
              (s'.sc.cpu.quota ≡ u.fair)
              × (s'.ec.cpu.overrun ≡ s.ec.cpu.overrun)
              × (s'.ec.cpu.alloc_rt + s'.ec.cpu.unallocated_rt + u.rx_quota + u.unallocated
                  ≡ s.ec.cpu.alloc_rt + s.ec.cpu.unallocated_rt + u.fair))
            (serve_below_share world seq u s)
    unfolding serve_below_share
    serve_below_share_makes_time some_left short near agreed =
        let (amount, quota) = pooled_near (omega arith) near in
        let after = called ac seq u.fair s in
        let (same, alloc, pool) =
          give_short (u.fair - u.rx_quota) u.fair after o.counters (omega (arith, o.fair_lt)) in
        rw
          (
            lt→ltb 0 u.unallocated some_left,
            amount,
            quota,
            resize_lem world seq u.fair (give (u.fair - u.rx_quota) u.fair) s ac r,
            agreed,
          )
          (
            (give-Resets (u.fair - u.rx_quota) u.fair after).0,
            same,
            omega (arith, alloc, pool, o.unallocated_eq),
          )

    -- With the numbers ordinary (`IsOrdinary`), the container inserted, its client known and not found
    -- idle, and the mean of its throttle counts above 0.5: a container that lacks at most half a slice,
    -- where the pool is not empty and holds less than it lacks, is raised to its fair share all the
    -- same when the agent agrees: the time handed out plus the pool grows by what the pool could
    -- not cover, and no overrun is recorded for it.
    pub reallocate_makes_time :
        0 < u.unallocated
        → u.rx_quota + u.unallocated < u.fair
        → u.fair ≤ u.rx_quota + u.slice / 2
        → d.lt (d.decimal 5 1) u.thr_mean ≡ true
        → world.quota_status ac.handle s.sc.c_id.cgroup_id u.fair ≡ 0
        → Returns
            (λ s'.
              (s'.sc.cpu.quota ≡ u.fair)
              × (s'.ec.cpu.overrun ≡ s.ec.cpu.overrun)
              × (s'.ec.cpu.alloc_rt + s'.ec.cpu.unallocated_rt + u.rx_quota + u.unallocated
                  ≡ s.ec.cpu.alloc_rt + s.ec.cpu.unallocated_rt + u.fair))
            (reallocate world seq false u s)
    unfolding reallocate
    reallocate_makes_time some_left short near throttled agreed =
        let not_above : (ltb 0 u.overrun && ltb u.fair u.rx_quota) ≡ false = ground arith in
        let below : ltb u.rx_quota u.fair ≡ true = ground arith in
        rw not_above
          (rw (below, throttled) (serve_below_share_makes_time some_left short near agreed))
