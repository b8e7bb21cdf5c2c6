-- ===== src/Manager/Cpu/Agreement.antt =====
-- The quota that the ladder of cases of `handle_cpu_usage_report` (Manager.cpp) leaves on record.
use ec_gcm.Common.{ℕ, ◌≡◌, refl, Bool, ◌∷◌, if◌then◌else◌, ◌==◌, Returns, ◌⊎◌, inl, inr, Bool-cases}
use ec_gcm.Platform.{Double, Net, World}
use ec_gcm.Agents.{AgentClient}
use ec_gcm.EcApi.Calls.{quota_call}
use ec_gcm.Manager.Cpu.Amounts.{Usage}
use ec_gcm.Manager.Cpu.{Session, give, take_back, repay, lend, resize, reallocate}
use ec_gcm.Manager.Cpu.Branches.{Resets, give-Resets, take_back-Resets, repay-Resets, lend-Resets}
use ec_gcm.Manager.Cpu.Resize.{IsReachable, called, resize_lem, reallocate_cases}

-- No call was made and the quota is the old one; or one was made for the container, and the quota
-- is that of the call if the agent's status is 0, and the old one if not.
abbrev pub IsAgreed : World → AgentClient → ℕ → Session → Session → Type 0
IsAgreed world ac seq s s' =
    ((s'.sent ≡ s.sent) × (s'.sc.cpu.quota ≡ s.sc.cpu.quota))
    ⊎ ((quota : ℕ) × (s'.sent ≡ quota_call ac s.sc quota seq ∷ s.sent)
        × (s'.sc.cpu.quota ≡ (
            if world.quota_status ac.handle s.sc.c_id.cgroup_id quota == 0
            then quota
            else s.sc.cpu.quota)))

module _ ⦃d : Double⦄ ⦃net : Net⦄ (world : World) (seq : ℕ) (s : Session) (ac : AgentClient)
    (r : IsReachable ac s) where
  resize-IsAgreed :
      (quota : ℕ) (effect : Session → Session)
      → Resets quota (called ac seq quota s) (effect (called ac seq quota s))
      → Returns (IsAgreed world ac seq s) (resize world seq quota effect s)
  resize-IsAgreed quota effect h =
      rw (resize_lem world seq quota effect s ac r)
        (elim (Bool-cases (world.quota_status ac.handle s.sc.c_id.cgroup_id quota == 0)) [
          | inl e ↦ rw e (inr (quota, h.2, rw e h.0))
          | inr e ↦ rw e (inr (quota, refl, rw e))
        ])

  -- The ladder of cases that follows the check of the reported quota, for an inserted container with
  -- a known client, makes at most one call, and leaves the quota of the call on record if the agent
  -- agreed, and the one before if it did not or if there was no call.
  pub reallocate-IsAgreed :
      (idle : Bool) (u : Usage) → Returns (IsAgreed world ac seq s) (reallocate world seq idle u s)
  reallocate-IsAgreed idle u =
      reallocate_cases (Returns (IsAgreed world ac seq s)) world seq idle u s (inl (refl, refl))
        (λ amount quota.
          resize-IsAgreed quota (give amount quota)
            (give-Resets amount quota (called ac seq quota s)))
        (λ amount quota.
          resize-IsAgreed quota (take_back amount quota)
            (take_back-Resets amount quota (called ac seq quota s)))
        (λ amount quota.
          resize-IsAgreed quota (repay amount quota)
            (repay-Resets amount quota (called ac seq quota s)))
        (λ amount quota.
          resize-IsAgreed quota (lend amount quota)
            (lend-Resets amount quota (called ac seq quota s)))
