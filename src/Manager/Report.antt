-- ===== src/Manager/Report.antt =====
-- `Manager::handle_cpu_usage_report` and the loop body of `check_for_idle_containers`.
pub mod Totality
pub mod Evolution
pub mod Safety
pub mod Leak
pub mod Agreement
use ec_gcm.Common.{
  ℕ, ◌+◌, ◌/◌, ◌%◌, ◌^◌, Bool, true, false, not, List, if◌then◌else◌, ltb, ◌==◌, add64, sub64,
  slt64, Outcome, ok, or_fault, ◌>>=◌,
}
use ec_gcm.Platform.{Double, Net, World}
use ec_gcm.Stats.GlobalCpu.{
  GlobalCpu, incr_unallocated_rt, decr_unallocated_rt, incr_alloc_rt, decr_alloc_rt,
}
use ec_gcm.Stats.LocalCpu.{LocalCpu, insert_rt_stats, insert_th_stats}
use ec_gcm.SubContainer.{
  ContainerId, SubContainer, container_id, set_quota, set_quota_flag, flush_stats,
  incr_cpustat_seq_num, set_cpustat_seq_num, incr_quota_mismatch_counter,
  reset_quota_mismatch_counter, check_if_idle, update_last_seen_ts,
}
use ec_gcm.ElasticContainer.{ElasticContainer, get_sc_for_update_back, store}
use ec_gcm.Msg.{Msg, alloc_failed, alloc_success, cpu_type}
use ec_gcm.Manager.{Manager}
use ec_gcm.Manager.Cpu.Amounts.{Usage, max_cpu_loss}
use ec_gcm.Manager.Cpu.{Session, on_cpu, on_sc, usage_of, reallocate, resize}

module _ ⦃d : Double⦄ ⦃net : Net⦄ where
  -- The recorded quota is replaced by the reported one, and the difference moved.
  unfoldable pub adopt_quota : ℕ → Session → Session
  adopt_quota rx_quota s =
      let old = s.sc.cpu.quota in
      if ltb rx_quota old
      then on_cpu (incr_unallocated_rt (sub64 old rx_quota)) (
          on_cpu (decr_alloc_rt (sub64 old rx_quota))
            (on_sc flush_stats (on_sc (set_quota rx_quota) s)))
      else on_cpu (incr_alloc_rt (sub64 rx_quota old)) (
          on_sc flush_stats
            (on_sc (set_quota rx_quota) (on_cpu (decr_unallocated_rt (sub64 rx_quota old)) s)))

  -- The check of the reported quota against the recorded one, in microseconds. The flag is true
  -- where the report ends here.
  unfoldable pub check_mismatch : ℕ → Session → Session × Bool
  check_mismatch rx_quota s =
      if rx_quota / 1000 == s.sc.cpu.quota / 1000
      then (s, false)
      else (let (sc', count) = incr_quota_mismatch_counter s.sc in
          let s' = record s { sc = sc' } in
          if ltb 2 count
          then (on_sc reset_quota_mismatch_counter (adopt_quota rx_quota s'), false)
          else (s', true))

  -- `cpuleak`, with the new value and the counters.
  unfoldable pub fix_leak : ℕ → GlobalCpu → GlobalCpu × ℕ
  fix_leak cpuleak c =
      let leak = add64 cpuleak (sub64 c.total_cpu (add64 c.alloc_rt c.unallocated_rt)) in
      if slt64 leak max_cpu_loss then (c, leak) else (incr_unallocated_rt leak c, 0)

  -- What every report does to its container first.
  unfoldable pub greet : ℕ → ℕ → SubContainer → SubContainer
  greet now rx_seq_num sc =
      let sc' = incr_cpustat_seq_num (update_last_seen_ts now sc) in
      if sc'.cpu.seq_num == rx_seq_num then sc' else set_cpustat_seq_num rx_seq_num sc'

  -- The two means and the new state of the container.
  unfoldable pub record_usage : ℕ → ℕ → SubContainer → SubContainer × ℕ × ℕ
  record_usage rt_remaining throttled sc =
      let (cpu1, rt_mean) = insert_rt_stats rt_remaining sc.cpu in
      let (cpu2, thr_mean) = insert_th_stats throttled cpu1 in
      (record sc { cpu = cpu2 }, rt_mean, thr_mean)

  -- The leak is fixed and the usage recorded: the new session, what the ladder of cases reads, and
  -- the new leak.
  unfoldable pub measure : Msg → ℕ → Session → Session × Usage × ℕ
  measure req cpuleak s =
      let (cpu, leak) = fix_leak cpuleak s.ec.cpu in
      let (sc, rt_mean, thr_mean) = record_usage req.runtime_remaining req.request s.sc in
      let s' = record (on_cpu (λ _. cpu) s) { sc = sc } in
      (s', usage_of req.rsrc_amnt req.runtime_remaining rt_mean thr_mean s'.ec, leak)

  unfoldable pub redistribute : World → ℕ → Bool → Msg → ℕ → Session → Outcome (Session × ℕ)
  redistribute world seq idle req cpuleak s = do
    let (s', u, leak) = measure req cpuleak s
    s'' ← reallocate world seq idle u s'
    ok (s'', leak)

  -- The manager, the answer and the code after the ladder of cases.
  abbrev pub answered : ℕ → Msg → Manager → Session × ℕ → Manager × Msg × ℕ
  answered p res m (s, leak) = (
    record m {
      ec = store p s.sc s.ec;
      syscall_sequence_number = add64 m.syscall_sequence_number 1;
      cpuleak = leak;
      sent = s.sent;
    },
    record res { request = 1 },
    alloc_success,
  )

  -- The manager, the answer and the code. A report for a container that is not known leaves the
  -- program in `get_sc_for_update_back`.
  unfoldable pub handle_cpu_usage_report :
      World → ℕ → Msg → Msg → Manager → Outcome (Manager × Msg × ℕ)
  handle_cpu_usage_report world now req res m =
      if not (req.req_type == cpu_type) then ok (m, res, alloc_failed) else do
        p ← get_sc_for_update_back (container_id req.cgroup_id req.client_ip) m.ec
        sc ← or_fault (m.ec.heap p)
        let idle = check_if_idle now sc
        let seq = m.syscall_sequence_number % 2 ^ 32
        let start = greet now req.cpustat_seq_num sc
        let (s, stop) =
            check_mismatch req.rsrc_amnt (record { ec = m.ec; sc = start; sent = m.sent })
        if stop
            then ok (record m { ec = store p s.sc s.ec }, record res { request = 1 }, alloc_success)
            else do r ← redistribute world seq idle req m.cpuleak s; ok (answered p res m r)
