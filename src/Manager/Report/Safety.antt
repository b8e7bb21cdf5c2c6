-- ===== src/Manager/Report/Safety.antt =====
-- A CPU report and a round over the idle containers, of a valid application, do not follow a null or
-- dangling pointer.
use ec_gcm.Common.{
  ℕ, ◌%◌, ◌^◌, ◌==◌, Bool, not, if_cases, ok, List, [], ◌∷◌, All, back?, Safe, >>=-Safe,
  or_fault-Safe, Safe-join,
}
use ec_gcm.Platform.{Double, Net, World}
use ec_gcm.SubContainer.{container_id, check_if_idle}
use ec_gcm.ElasticContainer.{ElasticContainer, SubcontainerMap, get_sc_for_update_back}
use ec_gcm.ElasticContainer.Invariant.{IsValid, Entry}
use ec_gcm.ElasticContainer.Evolution.{Evolves, Entry-Evolves}
use ec_gcm.ElasticContainer.Safety.{Live, get_sc_for_update_back-Safe, back-Live}
use ec_gcm.EcApi.{QuotaCall, set_sc_quota_syscall}
use ec_gcm.EcApi.Safety.{set_sc_quota_syscall-Safe}
use ec_gcm.Msg.{Msg, cpu_type}
use ec_gcm.Manager.{Manager}
use ec_gcm.Manager.Cpu.{Session, give, take_back, repay, lend, resize, reallocate}
use ec_gcm.Manager.Cpu.Amounts.{Usage}
use ec_gcm.Manager.Cpu.Resize.{reallocate_cases}
use ec_gcm.Manager.Report.{
  answered, greet, check_mismatch, measure, redistribute, handle_cpu_usage_report,
}
use ec_gcm.Manager.Report.Evolution.{check_one-Evolves}
use ec_gcm.Manager.Idle.{min_quota, lower_to_min, check_one, check_all, check_for_idle_containers}

module _ ⦃d : Double⦄ ⦃net : Net⦄ where
  resize-Safe :
      (world : World) (seq quota : ℕ) (effect : Session → Session) (s : Session)
      → Safe (λ (r : Session). Unit) (resize world seq quota effect s)
  unfolding resize
  resize-Safe world seq quota effect s =
      >>=-Safe (λ (r : ElasticContainer × List QuotaCall × ℕ). Unit) (λ (r : Session). Unit)
        (set_sc_quota_syscall world s.sc quota seq s.ec s.sent) _
        (set_sc_quota_syscall-Safe world s.sc quota seq s.ec s.sent) (λ r u. tt)

  reallocate-Safe :
      (world : World) (seq : ℕ) (idle : Bool) (u : Usage) (s : Session)
      → Safe (λ (r : Session). Unit) (reallocate world seq idle u s)
  reallocate-Safe world seq idle u s =
      reallocate_cases (Safe (λ (r : Session). Unit)) world seq idle u s tt
        (λ amount quota. resize-Safe world seq quota (give amount quota) s)
        (λ amount quota. resize-Safe world seq quota (take_back amount quota) s)
        (λ amount quota. resize-Safe world seq quota (repay amount quota) s)
        (λ amount quota. resize-Safe world seq quota (lend amount quota) s)

  redistribute-Safe :
      (world : World) (seq : ℕ) (idle : Bool) (req : Msg) (leak : ℕ) (s : Session)
      → Safe (λ (r : Session × ℕ). Unit) (redistribute world seq idle req leak s)
  unfolding redistribute
  redistribute-Safe world seq idle req leak s =
      >>=-Safe (λ (r : Session). Unit) (λ (r : Session × ℕ). Unit)
        (reallocate world seq idle (measure req leak s).1 (measure req leak s).0) _
        (reallocate-Safe world seq idle (measure req leak s).1 (measure req leak s).0) (λ r u. tt)

  pub handle_cpu_usage_report-Safe :
      (world : World) (now : ℕ) (req res : Msg) (m : Manager)
      → IsValid m.ec
      → Safe (λ (r : Manager × Msg × ℕ). Unit) (handle_cpu_usage_report world now req res m)
  unfolding handle_cpu_usage_report
  handle_cpu_usage_report-Safe world now req res m v =
      let id = container_id req.cgroup_id req.client_ip in
      if_cases (Safe AnyAnswer) (not (req.req_type == cpu_type)) (λ _. tt)
        (λ _.
          >>=-Safe (Live m.ec) AnyAnswer (get_sc_for_update_back id m.ec) _
            (get_sc_for_update_back-Safe id m.ec v)
            (λ p (sc, e). or_fault-Safe AnyAnswer (m.ec.heap p) sc _ e (
              let greeted : Session = record {
                ec = m.ec;
                sc = greet now req.cpustat_seq_num sc;
                sent = m.sent;
              } in
              let checked = (check_mismatch req.rsrc_amnt greeted).0 in
              if_cases (Safe AnyAnswer) (check_mismatch req.rsrc_amnt greeted).1 (λ _. tt)
                (λ _.
                  >>=-Safe (λ (r : Session × ℕ). Unit) AnyAnswer
                    (redistribute world (m.syscall_sequence_number % 2 ^ 32) (check_if_idle now sc)
                      req m.cpuleak checked)
                    (λ r. ok (answered p res m r))
                    (redistribute-Safe world (m.syscall_sequence_number % 2 ^ 32)
                      (check_if_idle now sc) req m.cpuleak checked)
                    (λ r u. tt)))))
    where
      AnyAnswer : Manager × Msg × ℕ → Type 0
      AnyAnswer r = Unit

  abbrev AnyRound : Manager × ℕ → Type 0
  AnyRound r = Unit

  check_one-Safe :
      (world : World) (now p seq : ℕ) (m : Manager)
      → Live m.ec p
      → Safe AnyRound (check_one world now p seq m)
  unfolding check_one lower_to_min
  check_one-Safe world now p seq m (sc, e) = or_fault-Safe AnyRound (m.ec.heap p) sc _ e (
      if_cases (Safe AnyRound) (check_if_idle now sc)
        (λ _.
          if_cases (Safe AnyRound) (sc.cpu.quota == min_quota) (λ _. tt)
            (λ _.
              >>=-Safe (λ (r : Session). Unit) AnyRound
                (resize world seq min_quota (take_back _ min_quota)
                  (record { ec = m.ec; sc = sc; sent = m.sent }))
                _
                (resize-Safe world seq min_quota (take_back _ min_quota)
                  (record { ec = m.ec; sc = sc; sent = m.sent }))
                (λ s u. tt)))
        (λ _. tt))

  check_all-Safe :
      (world : World) (now : ℕ) (q : SubcontainerMap) (seq : ℕ) (m : Manager)
      → All (Entry m.ec.heap) q
      → Safe AnyRound (check_all world now q seq m)
  unfolding check_all
  check_all-Safe world now [] seq m h = tt
  check_all-Safe world now ((id, q) ∷ entries) seq m (h, hs) =
      let (p, back, live) = back-Live m.ec id q h in
      or_fault-Safe AnyRound (back? q) p _ back (
        >>=-Safe (λ (r : Manager × ℕ). Evolves m.ec r.0.ec) AnyRound (check_one world now p seq m) _
          (Safe-join (λ (r : Manager × ℕ). Evolves m.ec r.0.ec) AnyRound
            (check_one world now p seq m) (check_one-Evolves world now p seq m)
            (check_one-Safe world now p seq m live))
          (λ r f.
            check_all-Safe world now entries r.1 r.0 (Entry-Evolves m.ec r.0.ec entries f hs)))

  pub check_for_idle_containers-Safe :
      (world : World) (now seq : ℕ) (m : Manager)
      → IsValid m.ec
      → Safe (λ (r : Manager × ℕ). Unit) (check_for_idle_containers world now seq m)
  unfolding check_for_idle_containers
  check_for_idle_containers-Safe world now seq m v =
      check_all-Safe world now m.ec.subcontainers seq m v.entries
