-- ===== src/Manager/Cpu/Evolution.antt =====
-- The ladder of cases keeps the key of the reporting container, and its windows as long as they are.
use ec_gcm.Common.{ℕ, ◌≡◌, refl, ◌∙◌, Bool, if_cases, ◌==◌, some, List, Whenever, >>=-Whenever}
use ec_gcm.Platform.{Double, Net, World}
use ec_gcm.Stats.LocalCpu
use ec_gcm.Stats.GlobalCpu.{GlobalCpu}
use ec_gcm.Stats.Window.Laws.{flush-IsValid}
use ec_gcm.SubContainer.{SubContainer, set_quota, set_quota_flag, flush_stats}
use ec_gcm.SubContainer.Identity.{same_container_refl}
use ec_gcm.ElasticContainer.{ElasticContainer, store}
use ec_gcm.ElasticContainer.Evolution.{
  HasWindows, Replaces, Replaces-refl, Replaces-trans, Evolves, Evolves-trans, store-Evolves,
}
use ec_gcm.EcApi.{QuotaCall, set_sc_quota_syscall}
use ec_gcm.EcApi.Evolution.{
  SameContainers, SameContainers-Evolves, set_sc_quota_syscall-SameContainers,
}
use ec_gcm.Manager.Cpu.Amounts.{Usage}
use ec_gcm.Manager.Cpu.{Session, give, take_back, repay, lend, resize, reallocate}
use ec_gcm.Manager.Cpu.Resize.{reallocate_cases}

module _ ⦃d : Double⦄ ⦃net : Net⦄ where
  -- The containers of the application are as they were, and the session's own one can take the
  -- place of the one before.
  pub record Follows (s s' : Session) : Type 0 where
    pub others : SameContainers s.ec s'.ec
    pub own : Replaces s.sc s'.sc

  pub Follows-refl : (s : Session) → Follows s s
  Follows-refl s = record {
    others = record { subcontainers_eq = refl; next_sc_eq = refl; heap_eq = refl };
    own = Replaces-refl s.sc;
  }

  pub Follows-trans : (a b c : Session) → Follows a b → Follows b c → Follows a c
  Follows-trans a b c f g = record {
    others = record {
      subcontainers_eq = g.others.subcontainers_eq ∙ f.others.subcontainers_eq;
      next_sc_eq = g.others.next_sc_eq ∙ f.others.next_sc_eq;
      heap_eq = g.others.heap_eq ∙ f.others.heap_eq;
    };
    own = Replaces-trans a.sc b.sc c.sc f.own g.own;
  }

  pub stored-Evolves :
      (p : ℕ) (s s' : Session)
      → s.ec.heap p ≡ some s.sc
      → Follows s s'
      → Evolves s.ec (store p s'.sc s'.ec)
  stored-Evolves p s s' e f =
      Evolves-trans s.ec s'.ec (store p s'.sc s'.ec) (SameContainers-Evolves s.ec s'.ec f.others)
        (store-Evolves p s.sc s'.sc s'.ec (rw (f.others.heap_eq) e) f.own)

  pub flush_stats-HasWindows : (sc : SubContainer) → HasWindows sc → HasWindows (flush_stats sc)
  unfolding flush_stats LocalCpu.flush
  flush_stats-HasWindows sc w = record {
    rt_valid = flush-IsValid sc.cpu.rt_winstats w.rt_valid;
    th_valid = flush-IsValid sc.cpu.th_winstats w.th_valid;
  }

  effects-Follows :
      (amount quota : ℕ) (s : Session)
      → Follows s (give amount quota s)
        × Follows s (take_back amount quota s)
        × Follows s (repay amount quota s)
        × Follows s (lend amount quota s)
  unfolding give take_back repay lend set_quota set_quota_flag flush_stats LocalCpu.flush
      LocalCpu.set_quota LocalCpu.set_set_quota_flag
  effects-Follows amount quota s = (flushed _ _, flushed _ _, flushed _ _, flushed _ _)
    where
      flushed :
          (cpu : GlobalCpu) (flag : Bool)
          → Follows s (record s {
            ec = record (s.ec) { cpu = cpu };
            sc = record (s.sc) {
              cpu = LocalCpu.flush (record (s.sc.cpu) { quota = quota; set_quota_flag = flag });
            };
          })
      flushed cpu flag = record {
        others = record { subcontainers_eq = refl; next_sc_eq = refl; heap_eq = refl };
        own = (
          same_container_refl s.sc.c_id,
          λ w. record {
            rt_valid = flush-IsValid s.sc.cpu.rt_winstats w.rt_valid;
            th_valid = flush-IsValid s.sc.cpu.th_winstats w.th_valid;
          },
        );
      }

  pub resize-Follows :
      (world : World) (seq quota : ℕ) (effect : Session → Session) (s : Session)
      → ((t : Session) → Follows t (effect t))
      → Whenever (Follows s) (resize world seq quota effect s)
  unfolding resize
  resize-Follows world seq quota effect s f =
      >>=-Whenever (λ (r : ElasticContainer × List QuotaCall × ℕ). SameContainers s.ec r.0)
        (Follows s) (set_sc_quota_syscall world s.sc quota seq s.ec s.sent) _
        (set_sc_quota_syscall-SameContainers world s.sc quota seq s.ec s.sent)
        (λ (ec', sent', ret) k.
          let s' : Session = record s { ec = ec'; sent = sent' } in
          let first : Follows s s' = record { others = k; own = Replaces-refl s.sc } in
          if_cases (Follows s) (ret == 0) (λ _. Follows-trans s s' (effect s') first (f s'))
            (λ _. first))

  pub reallocate-Follows :
      (world : World) (seq : ℕ) (idle : Bool) (u : Usage) (s : Session)
      → Whenever (Follows s) (reallocate world seq idle u s)
  reallocate-Follows world seq idle u s =
      reallocate_cases (Whenever (Follows s)) world seq idle u s (Follows-refl s)
        (λ amount quota.
          resize-Follows world seq quota (give amount quota) s
            (λ t. (effects-Follows amount quota t).0))
        (λ amount quota.
          resize-Follows world seq quota (take_back amount quota) s
            (λ t. (effects-Follows amount quota t).1))
        (λ amount quota.
          resize-Follows world seq quota (repay amount quota) s
            (λ t. (effects-Follows amount quota t).2))
        (λ amount quota.
          resize-Follows world seq quota (lend amount quota) s
            (λ t. (effects-Follows amount quota t).3))

  pub take_back-Follows : (amount quota : ℕ) (s : Session) → Follows s (take_back amount quota s)
  take_back-Follows amount quota s = (effects-Follows amount quota s).1
