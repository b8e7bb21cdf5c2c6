-- ===== src/Manager/Cpu/Resize.antt =====
-- One quota call of `handle_cpu_usage_report`, and what no call and no branch touches.
use ec_gcm.Common.{
  ℕ, ◌∙◌, arith, ◌≡◌, refl, Bool, true, ◌∷◌, ◌&&◌, if◌then◌else◌, if_cases, Outcome, ok, some,
  Bool-cases, ◌==◌, Returns, inl, inr, ltb, leb, sub64,
}
use ec_gcm.Common.Map.{find}
use ec_gcm.Platform.{Double, Net, World}
use ec_gcm.Agents.{AgentClient}
use ec_gcm.SubContainer.{set_quota, set_quota_flag, flush_stats}
use ec_gcm.SubContainer.Identity.{container_key}
use ec_gcm.EcApi.Calls.{quota_call, set_sc_quota_syscall_lem}
use ec_gcm.Manager.Cpu.Amounts.{
  Usage, max_unused_rt, idle_quota, throttle_relief, unused_quota, trimmed_quota, unused_fraction,
}
use ec_gcm.Manager.Cpu.{
  Session, give, take_back, repay, lend, resize, serve_idle, serve_above_share, serve_below_share,
  serve_throttled, shrink, reallocate,
}

module _ ⦃d : Double⦄ ⦃net : Net⦄ where
  -- The container is inserted and its agent's client is known.
  pub record IsReachable (ac : AgentClient) (s : Session) : Type 0 where
    pub inserted : s.sc.inserted ≡ true
    pub known : find s.sc.c_id s.ec.sc_ac_map ≡ some (some ac)

  -- The session with one more call on record.
  abbrev pub called : AgentClient → ℕ → ℕ → Session → Session
  called ac seq quota s = record s { sent = quota_call ac s.sc quota seq ∷ s.sent }

  pub resize_lem :
      (world : World) (seq quota : ℕ) (effect : Session → Session) (s : Session) (ac : AgentClient)
      → IsReachable ac s
      → resize world seq quota effect s
        ≡ ok (
            if world.quota_status ac.handle s.sc.c_id.cgroup_id quota == 0
            then effect (called ac seq quota s)
            else called ac seq quota s)
  unfolding resize
  resize_lem world seq quota effect s ac r =
      rw (set_sc_quota_syscall_lem world s.sc quota seq s.ec s.sent ac r.inserted r.known)

  -- A property of the session holds after a call if it holds whether or not the agent agreed.
  pub resize-Returns :
      (P : Session → Type 0) (world : World) (seq quota : ℕ) (effect : Session → Session)
      (s : Session) (ac : AgentClient)
      → IsReachable ac s
      → P (called ac seq quota s)
      → P (effect (called ac seq quota s))
      → Returns P (resize world seq quota effect s)
  resize-Returns P world seq quota effect s ac r p q =
      rw (resize_lem world seq quota effect s ac r)
        (elim (Bool-cases (world.quota_status ac.handle s.sc.c_id.cgroup_id quota == 0)) [
          | inl e ↦ rw e q
          | inr e ↦ rw e p
        ])

  -- Every case of the ladder does nothing, or makes one call with one of the four effects.
  pub reallocate_cases :
      (P : Outcome Session → Type 0) (world : World) (seq : ℕ) (idle : Bool) (u : Usage)
      (s : Session)
      → P (ok s)
      → ((amount quota : ℕ) → P (resize world seq quota (give amount quota) s))
      → ((amount quota : ℕ) → P (resize world seq quota (take_back amount quota) s))
      → ((amount quota : ℕ) → P (resize world seq quota (repay amount quota) s))
      → ((amount quota : ℕ) → P (resize world seq quota (lend amount quota) s))
      → P (reallocate world seq idle u s)
  unfolding reallocate serve_idle serve_above_share serve_below_share serve_throttled shrink
  reallocate_cases P world seq idle u s none-Made gives takes repays lends =
      if_cases P (idle && ltb 0 u.unallocated)
        (λ _.
          if_cases P (ltb 0 (sub64 (idle_quota u) u.rx_quota)) (λ _. gives _ _) (λ _. none-Made))
        λ _.
          if_cases P (ltb 0 u.overrun && ltb u.fair u.rx_quota) (λ _. repays _ _)
            λ _.
              if_cases P (ltb u.rx_quota u.fair && d.lt (d.decimal 5 1) u.thr_mean)
                (λ _. if_cases P (ltb 0 u.unallocated) (λ _. gives _ _) (λ _. lends _ _))
                λ _.
                  if_cases P (d.le (d.decimal 1 1) u.thr_mean && ltb 0 u.unallocated)
                    (λ _. if_cases P (ltb 0 (throttle_relief u)) (λ _. gives _ _) (λ _. none-Made))
                    λ _.
                      if_cases P
                        (d.lt (d.decimal 2 1) (unused_fraction u) && leb u.slice u.rx_quota)
                        (λ _.
                          if_cases P (unused_quota u == u.rx_quota) (λ _. none-Made)
                            (λ _. takes _ _))
                        λ _.
                          if_cases P (ltb max_unused_rt u.rt_mean && ltb u.slice u.rx_quota)
                            (λ _.
                              if_cases P (trimmed_quota u == u.rx_quota) (λ _. none-Made)
                                (λ _. takes _ _))
                            λ _. none-Made

  -- What a report leaves as it was, in the application and in its container.
  pub record Frame (s s' : Session) : Type 0 where
    pub subcontainers_eq : s'.ec.subcontainers ≡ s.ec.subcontainers
    pub sc_ac_map_eq : s'.ec.sc_ac_map ≡ s.ec.sc_ac_map
    pub heap_eq : s'.ec.heap ≡ s.ec.heap
    pub next_sc_eq : s'.ec.next_sc ≡ s.ec.next_sc
    pub fair_eq : s'.ec.fair_cpu_share ≡ s.ec.fair_cpu_share
    pub mem_eq : s'.ec.mem ≡ s.ec.mem
    pub c_id_eq : s'.sc.c_id ≡ s.sc.c_id
    pub inserted_eq : s'.sc.inserted ≡ s.sc.inserted
    pub limit_eq : s'.sc.mem ≡ s.sc.mem

  pub Frame-refl : (s : Session) → Frame s s
  Frame-refl s = record {
    subcontainers_eq = refl;
    sc_ac_map_eq = refl;
    heap_eq = refl;
    next_sc_eq = refl;
    fair_eq = refl;
    mem_eq = refl;
    c_id_eq = refl;
    inserted_eq = refl;
    limit_eq = refl;
  }

  pub Frame-trans : (s t u : Session) → Frame s t → Frame t u → Frame s u
  Frame-trans s t u f g = record {
    subcontainers_eq = g.subcontainers_eq ∙ f.subcontainers_eq;
    sc_ac_map_eq = g.sc_ac_map_eq ∙ f.sc_ac_map_eq;
    heap_eq = g.heap_eq ∙ f.heap_eq;
    next_sc_eq = g.next_sc_eq ∙ f.next_sc_eq;
    fair_eq = g.fair_eq ∙ f.fair_eq;
    mem_eq = g.mem_eq ∙ f.mem_eq;
    c_id_eq = g.c_id_eq ∙ f.c_id_eq;
    inserted_eq = g.inserted_eq ∙ f.inserted_eq;
    limit_eq = g.limit_eq ∙ f.limit_eq;
  }

  effects-Frame :
      (amount quota : ℕ) (s : Session)
      → Frame s (give amount quota s)
        × Frame s (take_back amount quota s)
        × Frame s (repay amount quota s)
        × Frame s (lend amount quota s)
  unfolding give take_back repay lend set_quota set_quota_flag flush_stats
  effects-Frame amount quota s = ground arith

  pub reallocate-Frame :
      (world : World) (seq : ℕ) (idle : Bool) (u : Usage) (s : Session) (ac : AgentClient)
      → IsReachable ac s
      → Returns (Frame s) (reallocate world seq idle u s)
  reallocate-Frame world seq idle u s ac r =
      reallocate_cases (Returns (Frame s)) world seq idle u s (Frame-refl s)
        (λ amount quota. step quota (give amount quota) (effects-Frame amount quota _).0)
        (λ amount quota. step quota (take_back amount quota) (effects-Frame amount quota _).1)
        (λ amount quota. step quota (repay amount quota) (effects-Frame amount quota _).2)
        (λ amount quota. step quota (lend amount quota) (effects-Frame amount quota _).3)
    where
      step :
          (quota : ℕ) (effect : Session → Session)
          → Frame (called ac seq quota s) (effect (called ac seq quota s))
          → Returns (Frame s) (resize world seq quota effect s)
      step quota effect f =
          resize-Returns (Frame s) world seq quota effect s ac r logged
            (Frame-trans s (called ac seq quota s) (effect (called ac seq quota s)) logged f)
        where
          logged : Frame s (called ac seq quota s)
          logged = record {
            subcontainers_eq = refl;
            sc_ac_map_eq = refl;
            heap_eq = refl;
            next_sc_eq = refl;
            fair_eq = refl;
            mem_eq = refl;
            c_id_eq = refl;
            inserted_eq = refl;
            limit_eq = refl;
          }
