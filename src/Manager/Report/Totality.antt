-- ===== src/Manager/Report/Totality.antt =====
-- A report of a known container always ends in an answer, and what it leaves as it was.
use ec_gcm.Common.{
  ℕ, ◌≡◌, ◌%◌, ◌^◌, refl, ap, ◌∙◌, Bool, true, false, some, if_cases, arith, ok, List, >>=-Returns,
  Returns, ◌==◌, Option,
}
use ec_gcm.Common.Map.{find}
use ec_gcm.Platform.{Double, Net, World}
use ec_gcm.Agents.{AgentClient}
use ec_gcm.Stats.LocalCpu.{insert_rt_stats, insert_th_stats}
use ec_gcm.SubContainer.{
  SubContainer, container_id, set_quota, flush_stats, incr_cpustat_seq_num, set_cpustat_seq_num,
  incr_quota_mismatch_counter, reset_quota_mismatch_counter, check_if_idle, update_last_seen_ts,
}
use ec_gcm.SubContainer.Identity.{container_key, same_container_refl}
use ec_gcm.EcApi.{QuotaCall}
use ec_gcm.ElasticContainer.{ElasticContainer, store, get_sc_for_update_back}
use ec_gcm.ElasticContainer.Invariant.{IsValid, IsValid-congr, store-IsValid}
use ec_gcm.Msg.{Msg, alloc_success, cpu_type}
use ec_gcm.Manager.{Manager}
use ec_gcm.Manager.Cpu.{Session, reallocate}
use ec_gcm.Manager.Cpu.Resize.{Frame, Frame-trans, IsReachable, reallocate-Frame}
use ec_gcm.Manager.Report.{
  answered, measure, adopt_quota, check_mismatch, greet, record_usage, redistribute,
  handle_cpu_usage_report,
}

module _ ⦃d : Double⦄ ⦃net : Net⦄ where
  pub check_mismatch-Frame : (rx_quota : ℕ) (s : Session) → Frame s (check_mismatch rx_quota s).0
  unfolding check_mismatch adopt_quota incr_quota_mismatch_counter reset_quota_mismatch_counter
      set_quota flush_stats
  check_mismatch-Frame rx_quota s = ground arith

  record_usage-kept :
      (rt throttled : ℕ) (sc : SubContainer)
      → let sc' = (record_usage rt throttled sc).0 in
        (sc'.c_id ≡ sc.c_id) × (sc'.inserted ≡ sc.inserted) × (sc'.mem ≡ sc.mem)
  unfolding record_usage
  record_usage-kept rt throttled sc = (refl, refl, refl)

  pub greet-kept :
      (now seq : ℕ) (sc : SubContainer)
      → let sc' = greet now seq sc in
        (sc'.c_id ≡ sc.c_id) × (sc'.inserted ≡ sc.inserted) × (sc'.mem ≡ sc.mem)
  unfolding greet incr_cpustat_seq_num set_cpustat_seq_num update_last_seen_ts
  greet-kept now seq sc = ground arith

  pub measure-Frame : (req : Msg) (leak : ℕ) (s : Session) → Frame s (measure req leak s).0
  unfolding measure record_usage insert_rt_stats insert_th_stats
  measure-Frame req leak s = ground arith

  pub Frame-IsReachable :
      (s s' : Session) (ac : AgentClient) → Frame s s' → IsReachable ac s → IsReachable ac s'
  Frame-IsReachable s s' ac f r = record {
    inserted = f.inserted_eq ∙ r.inserted;
    known = rw (f.c_id_eq, f.sc_ac_map_eq) r.known;
  }

  redistribute-Frame :
      (world : World) (seq : ℕ) (idle : Bool) (req : Msg) (leak : ℕ) (s : Session)
      (ac : AgentClient)
      → IsReachable ac s
      → Returns (λ (r : Session × ℕ). Frame s r.0) (redistribute world seq idle req leak s)
  unfolding redistribute
  redistribute-Frame world seq idle req leak s ac r =
      let s' = (measure req leak s).0 in
      let f = measure-Frame req leak s in
      >>=-Returns (Frame s') (λ (x : Session × ℕ). Frame s x.0)
        (reallocate world seq idle (measure req leak s).1 s') _
        (reallocate-Frame world seq idle (measure req leak s).1 s' ac
          (Frame-IsReachable s s' ac f r))
        (λ s'' g. Frame-trans s s' s'' f g)

  -- The answer to a report: accepted, not to be sent back, over a valid application whose queues,
  -- clients, fair share and memory are as they were, whose container keeps its id and its memory
  -- limit, and whose other containers are untouched.
  pub record IsServed (p : ℕ) (sc : SubContainer) (res : Msg) (m : Manager)
      (out : Manager × Msg × ℕ) : Type 0 where
    pub code_eq : out.2 ≡ alloc_success
    pub answer_eq : out.1 ≡ record res { request = 1 }
    pub valid : IsValid out.0.ec
    pub subcontainers_eq : out.0.ec.subcontainers ≡ m.ec.subcontainers
    pub clients_eq : out.0.ec.sc_ac_map ≡ m.ec.sc_ac_map
    pub agents_eq : out.0.agents ≡ m.agents
    pub fair_eq : out.0.ec.fair_cpu_share ≡ m.ec.fair_cpu_share
    pub mem_eq : out.0.ec.mem ≡ m.ec.mem
    pub own :
        (new : SubContainer) × (out.0.ec.heap p ≡ some new)
        × (new.c_id ≡ sc.c_id)
        × (new.mem ≡ sc.mem)
    pub others : (q : ℕ) → (p == q) ≡ false → out.0.ec.heap q ≡ m.ec.heap q

  -- Storing the container of a session that keeps the frame.
  stored-IsServed :
      (p : ℕ) (sc : SubContainer) (res : Msg) (m : Manager) (s : Session) (seq leak : ℕ)
      (sent : List QuotaCall)
      → IsValid m.ec
      → m.ec.heap p ≡ some sc
      → Frame (record { ec = m.ec; sc = sc; sent = m.sent }) s
      → IsServed p sc res m (
        record {
          ec = store p s.sc s.ec;
          agents = m.agents;
          syscall_sequence_number = seq;
          cpuleak = leak;
          sent = sent;
        },
        record res { request = 1 },
        alloc_success,
      )
  stored-IsServed p sc res m s seq leak sent v live f = record {
    code_eq = refl;
    answer_eq = refl;
    valid =
        store-IsValid p sc s.sc s.ec (ap (λ (h : ℕ → Option SubContainer). h p) f.heap_eq ∙ live)
          (rw f.c_id_eq (same_container_refl sc.c_id))
          (IsValid-congr m.ec s.ec f.subcontainers_eq f.heap_eq f.next_sc_eq v);
    subcontainers_eq = f.subcontainers_eq;
    clients_eq = f.sc_ac_map_eq;
    agents_eq = refl;
    fair_eq = f.fair_eq;
    mem_eq = f.mem_eq;
    own = (s.sc, ground arith, f.c_id_eq, f.limit_eq);
    others = λ q h. ground (arith, f.heap_eq);
  }

  -- The frame of a session seen from the container as the report found it.
  Frame-greeted :
      (now seq : ℕ) (sc : SubContainer) (ec : ElasticContainer) (sent : List QuotaCall)
      (s : Session)
      → Frame (record { ec = ec; sc = greet now seq sc; sent = sent }) s
      → Frame (record { ec = ec; sc = sc; sent = sent }) s
  Frame-greeted now seq sc ec sent s f =
      let (id, ins, mem) = greet-kept now seq sc in
      record {
        subcontainers_eq = f.subcontainers_eq;
        sc_ac_map_eq = f.sc_ac_map_eq;
        heap_eq = f.heap_eq;
        next_sc_eq = f.next_sc_eq;
        fair_eq = f.fair_eq;
        mem_eq = f.mem_eq;
        c_id_eq = f.c_id_eq ∙ id;
        inserted_eq = f.inserted_eq ∙ ins;
        limit_eq = f.limit_eq ∙ mem;
      }

  -- A CPU report of a known container that is inserted and whose client is known is always
  -- answered: no case leaves the program, waits, or follows a bad pointer, whatever the agent
  -- answers and whatever the arithmetic on doubles gives. The application stays valid, its queues,
  -- clients, fair share and memory stay as they were, the container keeps its id and memory limit,
  -- and no other container is touched.
  pub handle_cpu_usage_report-IsServed :
      (world : World) (now : ℕ) (req res : Msg) (m : Manager) (p : ℕ) (sc : SubContainer)
      (ac : AgentClient)
      → req.req_type ≡ cpu_type
      → IsValid m.ec
      → get_sc_for_update_back (container_id req.cgroup_id req.client_ip) m.ec ≡ ok p
      → m.ec.heap p ≡ some sc
      → sc.inserted ≡ true
      → find sc.c_id m.ec.sc_ac_map ≡ some (some ac)
      → Returns (IsServed p sc res m) (handle_cpu_usage_report world now req res m)
  unfolding handle_cpu_usage_report
  handle_cpu_usage_report-IsServed world now req res m p sc ac t v back live ins known =
      let is_cpu : (req.req_type == cpu_type) ≡ true = ground arith in
      let start = greet now req.cpustat_seq_num sc in
      let first : Session = record { ec = m.ec; sc = start; sent = m.sent } in
      let checked = check_mismatch req.rsrc_amnt first in
      let f : Frame first checked.0 = check_mismatch-Frame req.rsrc_amnt first in
      let (id, in', _) = greet-kept now req.cpustat_seq_num sc in
      let r : IsReachable ac checked.0 =
        Frame-IsReachable first checked.0 ac f
          (record { inserted = in' ∙ ins; known = rw id known }) in
      rw (is_cpu, back, live)
        (if_cases (Returns (IsServed p sc res m)) checked.1
          (λ _.
            stored-IsServed p sc res m checked.0 m.syscall_sequence_number m.cpuleak m.sent v live
              (Frame-greeted now req.cpustat_seq_num sc m.ec m.sent checked.0 f))
          (λ _.
            >>=-Returns (λ (x : Session × ℕ). Frame checked.0 x.0) (IsServed p sc res m)
              (redistribute world (m.syscall_sequence_number % 2 ^ 32) (check_if_idle now sc) req
                m.cpuleak checked.0)
              (λ x. ok (answered p res m x))
              (redistribute-Frame world (m.syscall_sequence_number % 2 ^ 32) (check_if_idle now sc)
                req m.cpuleak checked.0 ac r)
              (λ x g. stored-IsServed p sc res m x.0 _ x.1 x.0.sent v live (
                Frame-greeted now req.cpustat_seq_num sc m.ec m.sent x.0
                  (Frame-trans first checked.0 x.0 f g)))))
