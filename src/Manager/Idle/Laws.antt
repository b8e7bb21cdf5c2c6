-- ===== src/Manager/Idle/Laws.antt =====
-- What one idle container's reset does to the time of the application.
use ec_gcm.Common.{
  ℕ, ◌+◌, ◌-◌, ◌^◌, ◌≡◌, ◌≤◌, ◌<◌, ◌==◌, refl, arith, sub64, some, true, false, ok, Returns, add32,
}
use ec_gcm.Platform.{Double, Net, World}
use ec_gcm.Agents.{AgentClient}
use ec_gcm.Stats.GlobalCpu.{IsValid, decr_alloc_rt, incr_unallocated_rt}
use ec_gcm.SubContainer.{SubContainer, check_if_idle}
use ec_gcm.ElasticContainer.{store}
use ec_gcm.Manager.{Manager}
use ec_gcm.Manager.Cpu.{Session, take_back}
use ec_gcm.Manager.Cpu.Branches.{take_back-Resets}
use ec_gcm.Manager.Cpu.Resize.{IsReachable, called, resize_lem}
use ec_gcm.Manager.Idle.{min_quota, lower_to_min, check_one}

module _ ⦃d : Double⦄ ⦃net : Net⦄ where
  abbrev pub session_of : SubContainer → Manager → Session
  session_of sc m = record { ec = m.ec; sc = sc; sent = m.sent }

  pub lower_to_min_lem :
      (world : World) (p seq : ℕ) (sc : SubContainer) (m : Manager) (ac : AgentClient)
      → IsReachable ac (session_of sc m)
      → world.quota_status ac.handle sc.c_id.cgroup_id min_quota ≡ 0
      → let s =
          take_back
            (sub64 sc.cpu.quota min_quota)
            min_quota
            (called ac seq min_quota (session_of sc m)) in
        lower_to_min world p seq sc m
        ≡ ok (record m { ec = store p s.sc s.ec; sent = s.sent }, add32 seq 1)
  unfolding lower_to_min
  lower_to_min_lem world p seq sc m ac r e =
      rw
        (resize_lem world seq min_quota (take_back (sub64 sc.cpu.quota min_quota) min_quota)
          (session_of sc m) ac r)
        (rw e refl)

  -- The time in the counters after the reset of a container with the quota `old`.
  take_back_moves :
      (old : ℕ) (s : Session)
      → IsValid s.ec.cpu
      → min_quota ≤ old
      → old ≤ s.ec.cpu.alloc_rt
      → let c = (take_back (sub64 old min_quota) min_quota s).ec.cpu in
        (c.unallocated_rt ≡ s.ec.cpu.unallocated_rt + (old - min_quota))
        × (c.alloc_rt ≡ s.ec.cpu.alloc_rt - (old - min_quota))
  unfolding take_back decr_alloc_rt incr_unallocated_rt
  take_back_moves old s v h k = ground arith

  take_back_wraps :
      (old : ℕ) (s : Session)
      → IsValid s.ec.cpu
      → old + s.ec.cpu.unallocated_rt < min_quota
      → let c = (take_back (sub64 old min_quota) min_quota s).ec.cpu in
        (c.unallocated_rt + (30_000_000 - old) ≡ 2 ^ 64 + s.ec.cpu.unallocated_rt)
        × (c.alloc_rt ≡ s.ec.cpu.alloc_rt + (30_000_000 - old))
  unfolding take_back decr_alloc_rt incr_unallocated_rt
  take_back_wraps old s v h = ground arith

  check_one_lem :
      (world : World) (now p seq : ℕ) (sc : SubContainer) (m : Manager)
      → m.ec.heap p ≡ some sc
      → check_if_idle now sc ≡ true
      → (sc.cpu.quota == min_quota) ≡ false
      → check_one world now p seq m ≡ lower_to_min world p seq sc m
  unfolding check_one
  check_one_lem world now p seq sc m h i q = rw h (rw i (rw q refl))

  -- An idle container whose quota is above 30 ms, whose client is known and whose agent agrees, with
  -- the quota within what is allocated and counters below `2 ^ 62`: exactly the time above 30 ms goes back to the pool, and the
  -- sum of the two counters is kept.
  pub idle_gives_back :
      (world : World) (now p seq : ℕ) (sc : SubContainer) (m : Manager) (ac : AgentClient)
      → m.ec.heap p ≡ some sc
      → check_if_idle now sc ≡ true
      → IsReachable ac (session_of sc m)
      → world.quota_status ac.handle sc.c_id.cgroup_id min_quota ≡ 0
      → IsValid m.ec.cpu
      → 30_000_000 < sc.cpu.quota
      → sc.cpu.quota ≤ m.ec.cpu.alloc_rt
      → Returns
          (λ r.
            (r.0.ec.cpu.unallocated_rt ≡ m.ec.cpu.unallocated_rt + (sc.cpu.quota - 30_000_000))
            × (r.0.ec.cpu.alloc_rt + r.0.ec.cpu.unallocated_rt
                ≡ m.ec.cpu.alloc_rt + m.ec.cpu.unallocated_rt))
          (check_one world now p seq m)
  idle_gives_back world now p seq sc m ac h i r e v a k =
      rw (check_one_lem world now p seq sc m h i (ground arith)) (
        rw (lower_to_min_lem world p seq sc m ac r e) (
          let moves =
            take_back_moves sc.cpu.quota (called ac seq min_quota (session_of sc m)) v
              (ground arith) k in
          (moves.0, ground (arith, moves))))

  -- An idle container whose quota and the pool together are below 30 ms, whose client is known and
  -- whose agent agrees, with counters below `2 ^ 62`: it is raised to 30 ms without a look at the pool.
  -- What it lacks is counted as allocated, and the counter of the pool, which holds less, goes below 0
  -- and wraps: it is `2 ^ 64` above what the subtraction asks for.
  pub idle_below_minimum_wraps :
      (world : World) (now p seq : ℕ) (sc : SubContainer) (m : Manager) (ac : AgentClient)
      → m.ec.heap p ≡ some sc
      → check_if_idle now sc ≡ true
      → IsReachable ac (session_of sc m)
      → world.quota_status ac.handle sc.c_id.cgroup_id min_quota ≡ 0
      → IsValid m.ec.cpu
      → sc.cpu.quota + m.ec.cpu.unallocated_rt < 30_000_000
      → Returns
          (λ r.
            ((new : SubContainer) × (r.0.ec.heap p ≡ some new) × (new.cpu.quota ≡ 30_000_000))
            × (r.0.ec.cpu.unallocated_rt + (30_000_000 - sc.cpu.quota)
                ≡ 2 ^ 64 + m.ec.cpu.unallocated_rt)
            × (r.0.ec.cpu.alloc_rt ≡ m.ec.cpu.alloc_rt + (30_000_000 - sc.cpu.quota)))
          (check_one world now p seq m)
  idle_below_minimum_wraps world now p seq sc m ac h i r e v k =
      let before = called ac seq min_quota (session_of sc m) in
      let after = take_back (sub64 sc.cpu.quota min_quota) min_quota before in
      let raised = (take_back-Resets (sub64 sc.cpu.quota min_quota) min_quota before).0 in
      let (wrapped, counted) = take_back_wraps sc.cpu.quota before v k in
      rw (check_one_lem world now p seq sc m h i (ground arith)) (
        rw (lower_to_min_lem world p seq sc m ac r e)
          ((after.sc, ground arith, raised), wrapped, counted))
