-- ===== src/Manager/Report/Agreement.antt =====
-- The quota that `handle_cpu_usage_report` (Manager.cpp) leaves on record, from the check of the
-- reported one to the answer of the agent.
use ec_gcm.Common.{
  ℕ, ◌≡◌, ◌∙◌, refl, Bool, true, not, ◌∷◌, List, arith, some, ok, if◌then◌else◌, if_cases, ◌==◌,
  ◌/◌, ◌%◌, ◌^◌, ltb, ◌||◌, ◌⊎◌, inl, inr, Returns, >>=-Returns,
}
use ec_gcm.Common.Map.{find}
use ec_gcm.Platform.{Double, Net, World}
use ec_gcm.Agents.{AgentClient}
use ec_gcm.Stats.LocalCpu.{insert_rt_stats, insert_th_stats}
use ec_gcm.Stats.LocalCpu
use ec_gcm.SubContainer.{
  SubContainer, container_id, set_quota, flush_stats, incr_cpustat_seq_num, set_cpustat_seq_num,
  incr_quota_mismatch_counter, reset_quota_mismatch_counter, check_if_idle, update_last_seen_ts,
}
use ec_gcm.SubContainer.Identity.{container_key}
use ec_gcm.EcApi.{QuotaCall, change_of}
use ec_gcm.ElasticContainer.{ElasticContainer, get_sc_for_update_back}
use ec_gcm.Msg.{Msg, cpu_type}
use ec_gcm.Manager.{Manager}
use ec_gcm.Manager.Cpu.{Session, reallocate}
use ec_gcm.Manager.Cpu.Resize.{IsReachable}
use ec_gcm.Manager.Report.Totality.{
  check_mismatch-Frame, measure-Frame, greet-kept, Frame-IsReachable,
}
use ec_gcm.Manager.Cpu.Agreement.{IsAgreed, reallocate-IsAgreed}
use ec_gcm.Manager.Report.{
  answered, measure, adopt_quota, check_mismatch, greet, record_usage, redistribute,
  handle_cpu_usage_report,
}

-- The two quotas are the same in microseconds.
abbrev pub matches : ℕ → SubContainer → Bool
matches rx_quota sc = rx_quota / 1000 == sc.cpu.quota / 1000

-- The quota on record after the check: the reported one once three mismatches were
-- counted before.
abbrev pub settled : ℕ → SubContainer → ℕ
settled rx_quota sc =
    if matches rx_quota sc
    then sc.cpu.quota
    else if ltb 2 sc.quota_mismatch_counter
    then rx_quota
    else sc.cpu.quota

-- The report goes on to the ladder of cases.
abbrev pub proceeds : ℕ → SubContainer → Bool
proceeds rx_quota sc = matches rx_quota sc || ltb 2 sc.quota_mismatch_counter

-- A report of the quota `rx_quota` for the container `sc` at the address `p` made no call and left
-- the settled quota; or it went on, made one call, and left the quota of that call if the agent's
-- status is 0, and the settled one if not.
abbrev pub IsSettled :
    ⦃net : Net⦄ → World → AgentClient → ℕ → SubContainer → ℕ → Manager → Manager × Msg × ℕ → Type 0
IsSettled world ac rx_quota sc p m out =
    let kept = settled rx_quota sc in
    (new : SubContainer) × (out.0.ec.heap p ≡ some new)
    × (((out.0.sent ≡ m.sent) × (new.cpu.quota ≡ kept))
        ⊎ ((quota : ℕ) × (proceeds rx_quota sc ≡ true)
            × (out.0.sent
                ≡ record {
                  client = ac.handle;
                  cgroup_id = sc.c_id.cgroup_id;
                  new_quota = quota;
                  change = change_of quota kept;
                  seq_num = m.syscall_sequence_number % 2 ^ 32;
                }
                  ∷ m.sent)
            × (new.cpu.quota ≡ (
                if world.quota_status ac.handle sc.c_id.cgroup_id quota == 0
                then quota
                else kept))))

module _ ⦃d : Double⦄ ⦃net : Net⦄ where
  greet_lem :
      (now seq : ℕ) (sc : SubContainer)
      → let sc' = greet now seq sc in
        (sc'.cpu.quota ≡ sc.cpu.quota) × (sc'.quota_mismatch_counter ≡ sc.quota_mismatch_counter)
  unfolding greet incr_cpustat_seq_num set_cpustat_seq_num update_last_seen_ts LocalCpu.incr_seq_num
      LocalCpu.set_seq_num
  greet_lem now seq sc = ground arith

  check_mismatch_lem :
      (rx_quota : ℕ) (s : Session)
      → let (s', stop) = check_mismatch rx_quota s in
        (s'.sent ≡ s.sent)
        × (s'.sc.cpu.quota ≡ settled rx_quota s.sc)
        × (stop ≡ not (proceeds rx_quota s.sc))
  unfolding check_mismatch adopt_quota incr_quota_mismatch_counter reset_quota_mismatch_counter
      set_quota flush_stats LocalCpu.set_quota LocalCpu.flush
  check_mismatch_lem rx_quota s = ground arith

  -- The check, read from the container as the report found it.
  check_greeted :
      (now seq rx_quota : ℕ) (sc : SubContainer) (ec : ElasticContainer) (sent : List QuotaCall)
      → let (s', stop) =
          check_mismatch rx_quota (record { ec = ec; sc = greet now seq sc; sent = sent }) in
        (s'.sent ≡ sent)
        × (s'.sc.cpu.quota ≡ settled rx_quota sc)
        × (stop ≡ not (proceeds rx_quota sc))
  check_greeted now seq rx_quota sc ec sent =
      let (quota, counter) = greet_lem now seq sc in
      let (same, left, stop) =
        check_mismatch_lem rx_quota (record { ec = ec; sc = greet now seq sc; sent = sent }) in
      (same, left ∙ rw (quota, counter) refl, stop ∙ rw (quota, counter) refl)

  measure_lem :
      (req : Msg) (leak : ℕ) (s : Session)
      → let s' = (measure req leak s).0 in (s'.sent ≡ s.sent) × (s'.sc.cpu.quota ≡ s.sc.cpu.quota)
  unfolding measure record_usage insert_rt_stats insert_th_stats
  measure_lem req leak s = ground arith

  redistribute-IsAgreed :
      (world : World) (seq : ℕ) (idle : Bool) (req : Msg) (leak : ℕ) (s : Session)
      (ac : AgentClient)
      → IsReachable ac s
      → Returns
          (λ (x : Session × ℕ). IsAgreed world ac seq (measure req leak s).0 x.0)
          (redistribute world seq idle req leak s)
  unfolding redistribute
  redistribute-IsAgreed world seq idle req leak s ac r =
      let (s', u, _) = measure req leak s in
      >>=-Returns (IsAgreed world ac seq s') (λ (x : Session × ℕ). IsAgreed world ac seq s' x.0)
        (reallocate world seq idle u s') _
        (reallocate-IsAgreed world seq s' ac
          (Frame-IsReachable s s' ac (measure-Frame req leak s) r) idle u)
        (λ s'' g. g)

  -- The ladder's result, read from the container as the report found it.
  settle :
      (world : World) (ac : AgentClient) (p rx_quota leak : ℕ) (sc : SubContainer) (m : Manager)
      (res : Msg) (s s' : Session)
      → s.sent ≡ m.sent
      → s.sc.cpu.quota ≡ settled rx_quota sc
      → s.sc.c_id ≡ sc.c_id
      → proceeds rx_quota sc ≡ true
      → IsAgreed world ac (m.syscall_sequence_number % 2 ^ 32) s s'
      → IsSettled world ac rx_quota sc p m (answered p res m (s', leak))
  settle world ac p rx_quota leak sc m res s s' sent quota id go (inl (same, kept)) =
      (s'.sc, ground arith, inl (same ∙ sent, kept ∙ quota))
  settle world ac p rx_quota leak sc m res s s' sent quota id go (inr (q, call, new)) = (
    s'.sc,
    ground arith,
    inr (q, go, call ∙ rw (sent, quota, id) refl, new ∙ rw (quota, id) refl),
  )

  -- A CPU report of a known container that is inserted and whose client is known returns. Where the
  -- reported quota agrees with the recorded one in microseconds, the recorded one is the settled
  -- quota. Where it does not, and fewer than three disagreements were on count, the recorded one is
  -- the settled quota too, and no call is made; with three or more on count, the reported one is the
  -- settled quota. The report makes at most one call, to the container's client, whose change is that
  -- from the settled quota. In the end the quota on record is the one called for if the agent agreed,
  -- and the settled one if it did not or if there was no call.
  pub handle_cpu_usage_report-IsSettled :
      (world : World) (now : ℕ) (req res : Msg) (m : Manager) (p : ℕ) (sc : SubContainer)
      (ac : AgentClient)
      → req.req_type ≡ cpu_type
      → get_sc_for_update_back (container_id req.cgroup_id req.client_ip) m.ec ≡ ok p
      → m.ec.heap p ≡ some sc
      → sc.inserted ≡ true
      → find sc.c_id m.ec.sc_ac_map ≡ some (some ac)
      → Returns
          (IsSettled world ac req.rsrc_amnt sc p m)
          (handle_cpu_usage_report world now req res m)
  unfolding handle_cpu_usage_report
  handle_cpu_usage_report-IsSettled world now req res m p sc ac t back live ins known =
      let is_cpu : (req.req_type == cpu_type) ≡ true = ground arith in
      let start = greet now req.cpustat_seq_num sc in
      let first : Session = record { ec = m.ec; sc = start; sent = m.sent } in
      let checked = check_mismatch req.rsrc_amnt first in
      let seq = m.syscall_sequence_number % 2 ^ 32 in
      let idle = check_if_idle now sc in
      let measured = measure req m.cpuleak checked.0 in
      let (id, in', _) = greet-kept now req.cpustat_seq_num sc in
      let f = check_mismatch-Frame req.rsrc_amnt first in
      let r : IsReachable ac checked.0 =
        Frame-IsReachable first checked.0 ac f
          (record { inserted = in' ∙ ins; known = rw id known }) in
      let (sent, quota, stop) =
        check_greeted now req.cpustat_seq_num req.rsrc_amnt sc m.ec m.sent in
      rw (is_cpu, back, live)
        (if_cases (Returns (IsSettled world ac req.rsrc_amnt sc p m)) checked.1
          (λ _. (checked.0.sc, ground arith, inl (refl, quota)))
          (λ going.
            >>=-Returns (λ (x : Session × ℕ). IsAgreed world ac seq measured.0 x.0)
              (IsSettled world ac req.rsrc_amnt sc p m)
              (redistribute world seq idle req m.cpuleak checked.0) (λ x. ok (answered p res m x))
              (redistribute-IsAgreed world seq idle req m.cpuleak checked.0 ac r)
              (λ x g.
                let (sent', quota') = measure_lem req m.cpuleak checked.0 in
                settle world ac p req.rsrc_amnt x.1 sc m res measured.0 x.0 (sent' ∙ sent)
                  (quota' ∙ quota)
                  ((measure-Frame req m.cpuleak checked.0).c_id_eq ∙ f.c_id_eq ∙ id) (ground arith)
                  g)))
