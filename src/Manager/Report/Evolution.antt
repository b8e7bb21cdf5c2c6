-- ===== src/Manager/Report/Evolution.antt =====
-- A CPU report and a round over the idle containers leave the queues, and every container under its
-- key with windows of their length.
use ec_gcm.Common.{
  ℕ, ◌%◌, ◌/◌, ◌^◌, ◌==◌, refl, Bool, true, false, if◌then◌else◌, not, if_cases, ok, [], ◌∷◌, ltb,
  Whenever, >>=-Whenever, or_fault-Whenever, Whenever-any, Whenever-map, back?,
}
use ec_gcm.Platform.{Double, Net, World}
use ec_gcm.Stats.LocalCpu
use ec_gcm.Stats.LocalCpu.{insert_rt_stats, insert_th_stats}
use ec_gcm.Stats.GlobalCpu.{GlobalCpu}
use ec_gcm.Stats.Window.Laws.{insert-IsValid}
use ec_gcm.SubContainer.{
  SubContainer, container_id, set_quota, flush_stats, check_if_idle, incr_cpustat_seq_num,
  set_cpustat_seq_num, incr_quota_mismatch_counter, reset_quota_mismatch_counter,
  update_last_seen_ts,
}
use ec_gcm.SubContainer.Identity.{same_container_refl}
use ec_gcm.ElasticContainer.{SubcontainerMap, get_sc_for_update_back}
use ec_gcm.ElasticContainer.Evolution.{Replaces, Evolves, Evolves-refl, Evolves-trans}
use ec_gcm.Msg.{Msg, cpu_type}
use ec_gcm.Manager.{Manager}
use ec_gcm.Manager.Cpu.{Session, on_sc, take_back, resize, reallocate}
use ec_gcm.Manager.Cpu.Evolution.{
  Follows, Follows-refl, Follows-trans, stored-Evolves, flush_stats-HasWindows, reallocate-Follows,
  resize-Follows, take_back-Follows,
}
use ec_gcm.Manager.Report.{
  adopt_quota, check_mismatch, greet, record_usage, measure, redistribute, handle_cpu_usage_report,
  answered,
}
use ec_gcm.Manager.Idle.{min_quota, lower_to_min, check_one, check_all, check_for_idle_containers}

module _ ⦃d : Double⦄ ⦃net : Net⦄ where
  -- A session that differs in its counters and in its own container.
  moved :
      (s : Session) (cpu : GlobalCpu) (sc : SubContainer)
      → Replaces s.sc sc
      → Follows s (record s { ec = record (s.ec) { cpu = cpu }; sc = sc })
  moved s cpu sc r = record {
    others = record { subcontainers_eq = refl; next_sc_eq = refl; heap_eq = refl };
    own = r;
  }

  adopted : (quota : ℕ) (sc : SubContainer) → Replaces sc (flush_stats (set_quota quota sc))
  unfolding set_quota LocalCpu.set_quota flush_stats
  adopted quota sc = (
    same_container_refl sc.c_id,
    λ w.
        flush_stats-HasWindows (set_quota quota sc)
          (record { rt_valid = w.rt_valid; th_valid = w.th_valid }),
  )

  adopt_quota-Follows : (rx_quota : ℕ) (s : Session) → Follows s (adopt_quota rx_quota s)
  unfolding adopt_quota
  adopt_quota-Follows rx_quota s =
      if_cases (Follows s) (ltb rx_quota s.sc.cpu.quota)
        (λ _. moved s _ (flush_stats (set_quota rx_quota s.sc)) (adopted rx_quota s.sc))
        (λ _. moved s _ (flush_stats (set_quota rx_quota s.sc)) (adopted rx_quota s.sc))

  counted : (sc : SubContainer) → Replaces sc (incr_quota_mismatch_counter sc).0
  unfolding incr_quota_mismatch_counter
  counted sc =
      (same_container_refl sc.c_id, λ w. record { rt_valid = w.rt_valid; th_valid = w.th_valid })

  uncounted : (sc : SubContainer) → Replaces sc (reset_quota_mismatch_counter sc)
  unfolding reset_quota_mismatch_counter
  uncounted sc =
      (same_container_refl sc.c_id, λ w. record { rt_valid = w.rt_valid; th_valid = w.th_valid })

  check_mismatch-Follows : (rx_quota : ℕ) (s : Session) → Follows s (check_mismatch rx_quota s).0
  unfolding check_mismatch incr_quota_mismatch_counter
  check_mismatch-Follows rx_quota s =
      let s' : Session = record s { sc = (incr_quota_mismatch_counter s.sc).0 } in
      let first : Follows s s' = moved s s.ec.cpu s'.sc (counted s.sc) in
      let adopted = adopt_quota rx_quota s' in
      if_fst s (rx_quota / 1000 == s.sc.cpu.quota / 1000) (s, false) _ (Follows-refl s)
        (if_fst s (ltb 2 (incr_quota_mismatch_counter s.sc).1)
          (on_sc reset_quota_mismatch_counter adopted, false) (s', true)
          (Follows-trans s s' (on_sc reset_quota_mismatch_counter adopted) first (
            Follows-trans s' adopted (on_sc reset_quota_mismatch_counter adopted)
              (adopt_quota-Follows rx_quota s')
              (moved adopted adopted.ec.cpu (reset_quota_mismatch_counter adopted.sc)
                (uncounted adopted.sc))))
          first)
    where
      if_fst :
          (s : Session) (b : Bool) (x y : Session × Bool)
          → Follows s x.0
          → Follows s y.0
          → Follows s (if b then x else y).0
      if_fst s true x y f g = f
      if_fst s false x y f g = g

  greet-Replaces : (now seq : ℕ) (sc : SubContainer) → Replaces sc (greet now seq sc)
  unfolding greet incr_cpustat_seq_num set_cpustat_seq_num update_last_seen_ts LocalCpu.incr_seq_num
      LocalCpu.set_seq_num
  greet-Replaces now seq sc = if_cases (Replaces sc) _ (λ _. kept _) (λ _. kept _)
    where
      kept :
          (n : ℕ)
          → Replaces sc (record sc { cpu = record (sc.cpu) { seq_num = n }; last_seen_ts = now })
      kept n = (
        same_container_refl sc.c_id,
        λ w. record { rt_valid = w.rt_valid; th_valid = w.th_valid },
      )

  record_usage-Replaces :
      (rt throttled : ℕ) (sc : SubContainer) → Replaces sc (record_usage rt throttled sc).0
  unfolding record_usage insert_rt_stats insert_th_stats
  record_usage-Replaces rt throttled sc = (
    same_container_refl sc.c_id,
    λ w. record {
      rt_valid = insert-IsValid _ sc.cpu.rt_winstats w.rt_valid;
      th_valid = insert-IsValid _ sc.cpu.th_winstats w.th_valid;
    },
  )

  measure-Follows : (req : Msg) (leak : ℕ) (s : Session) → Follows s (measure req leak s).0
  unfolding measure
  measure-Follows req leak s =
      moved s _ _ (record_usage-Replaces req.runtime_remaining req.request s.sc)

  redistribute-Follows :
      (world : World) (seq : ℕ) (idle : Bool) (req : Msg) (leak : ℕ) (s : Session)
      → Whenever (λ (r : Session × ℕ). Follows s r.0) (redistribute world seq idle req leak s)
  unfolding redistribute
  redistribute-Follows world seq idle req leak s =
      let s' = (measure req leak s).0 in
      >>=-Whenever (Follows s') (λ (r : Session × ℕ). Follows s r.0)
        (reallocate world seq idle (measure req leak s).1 s') _
        (reallocate-Follows world seq idle (measure req leak s).1 s')
        (λ s'' g. Follows-trans s s' s'' (measure-Follows req leak s) g)

  pub handle_cpu_usage_report-Evolves :
      (world : World) (now : ℕ) (req res : Msg) (m : Manager)
      → Whenever
          (λ (r : Manager × Msg × ℕ). Evolves m.ec r.0.ec)
          (handle_cpu_usage_report world now req res m)
  unfolding handle_cpu_usage_report
  handle_cpu_usage_report-Evolves world now req res m =
      let id = container_id req.cgroup_id req.client_ip in
      if_cases (Whenever served) (not (req.req_type == cpu_type)) (λ _. Evolves-refl m.ec)
        (λ _.
          >>=-Whenever (λ (p : ℕ). Unit) served (get_sc_for_update_back id m.ec) _
            (Whenever-any (get_sc_for_update_back id m.ec))
            (λ p _. or_fault-Whenever served (m.ec.heap p) _ (λ sc live.
              let first : Session = record { ec = m.ec; sc = sc; sent = m.sent } in
              let greeted : Session = record {
                ec = m.ec;
                sc = greet now req.cpustat_seq_num sc;
                sent = m.sent;
              } in
              let checked = (check_mismatch req.rsrc_amnt greeted).0 in
              let up_to : Follows first checked =
                Follows-trans first greeted checked
                  (moved first m.ec.cpu _ (greet-Replaces now req.cpustat_seq_num sc))
                  (check_mismatch-Follows req.rsrc_amnt greeted) in
              if_cases (Whenever served) (check_mismatch req.rsrc_amnt greeted).1
                (λ _. stored-Evolves p first checked live up_to)
                (λ _.
                  >>=-Whenever (λ (r : Session × ℕ). Follows checked r.0) served
                    (redistribute world (m.syscall_sequence_number % 2 ^ 32) (check_if_idle now sc)
                      req m.cpuleak checked)
                    (λ r. ok (answered p res m r))
                    (redistribute-Follows world (m.syscall_sequence_number % 2 ^ 32)
                      (check_if_idle now sc) req m.cpuleak checked)
                    (λ r g.
                      stored-Evolves p first r.0 live (Follows-trans first checked r.0 up_to g))))))
    where
      served : Manager × Msg × ℕ → Type 0
      served r = Evolves m.ec r.0.ec

  pub check_one-Evolves :
      (world : World) (now p seq : ℕ) (m : Manager)
      → Whenever (λ (r : Manager × ℕ). Evolves m.ec r.0.ec) (check_one world now p seq m)
  unfolding check_one lower_to_min
  check_one-Evolves world now p seq m = or_fault-Whenever kept (m.ec.heap p) _ (λ sc live.
      let first : Session = record { ec = m.ec; sc = sc; sent = m.sent } in
      if_cases (Whenever kept) (check_if_idle now sc)
        (λ _.
          if_cases (Whenever kept) (sc.cpu.quota == min_quota) (λ _. Evolves-refl m.ec)
            (λ _.
              >>=-Whenever (Follows first) kept
                (resize world seq min_quota (take_back _ min_quota) first) _
                (resize-Follows world seq min_quota (take_back _ min_quota) first
                  (λ t. take_back-Follows _ min_quota t))
                (λ s f. stored-Evolves p first s live f)))
        (λ _. Evolves-refl m.ec))
    where
      kept : Manager × ℕ → Type 0
      kept r = Evolves m.ec r.0.ec

  check_all-Evolves :
      (world : World) (now : ℕ) (q : SubcontainerMap) (seq : ℕ) (m : Manager)
      → Whenever (λ (r : Manager × ℕ). Evolves m.ec r.0.ec) (check_all world now q seq m)
  unfolding check_all
  check_all-Evolves world now [] seq m = Evolves-refl m.ec
  check_all-Evolves world now ((id, q) ∷ entries) seq m =
      or_fault-Whenever (λ (r : Manager × ℕ). Evolves m.ec r.0.ec) (back? q) _
        (λ p _.
          >>=-Whenever (λ (r : Manager × ℕ). Evolves m.ec r.0.ec)
            (λ (r : Manager × ℕ). Evolves m.ec r.0.ec) (check_one world now p seq m) _
            (check_one-Evolves world now p seq m)
            (λ r f.
              Whenever-map (λ (t : Manager × ℕ). Evolves r.0.ec t.0.ec)
                (λ (t : Manager × ℕ). Evolves m.ec t.0.ec) (check_all world now entries r.1 r.0)
                (λ t g. Evolves-trans m.ec r.0.ec t.0.ec f g)
                (check_all-Evolves world now entries r.1 r.0)))

  pub check_for_idle_containers-Evolves :
      (world : World) (now seq : ℕ) (m : Manager)
      → Whenever
          (λ (r : Manager × ℕ). Evolves m.ec r.0.ec)
          (check_for_idle_containers world now seq m)
  unfolding check_for_idle_containers
  check_for_idle_containers-Evolves world now seq m =
      check_all-Evolves world now m.ec.subcontainers seq m
