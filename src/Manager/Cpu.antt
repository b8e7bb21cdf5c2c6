-- ===== src/Manager/Cpu.antt =====
-- `Manager::handle_cpu_usage_report`. The container is one object, which only this request writes:
-- it is read at the start, carried along with its application, and stored at the end.
pub mod Amounts
pub mod Bounds
pub mod Branches
pub mod Resize
pub mod Agreement
pub mod Evolution
pub mod Conservation
use ec_gcm.Common.{
  ℕ, ◌+◌, ◌/◌, ◌%◌, ◌^◌, Bool, true, false, not, ◌&&◌, List, if◌then◌else◌, ltb, leb, ◌==◌, add64,
  sub64, slt64, Outcome, ok, or_fault, ◌>>=◌,
}
use ec_gcm.Platform.{Double, Net, World}
use ec_gcm.Stats.GlobalCpu.{
  GlobalCpu, incr_unallocated_rt, decr_unallocated_rt, incr_alloc_rt, decr_alloc_rt, incr_overrun,
  decr_overrun,
}
use ec_gcm.Stats.LocalCpu.{insert_rt_stats, insert_th_stats}
use ec_gcm.SubContainer.{
  ContainerId, SubContainer, container_id, set_quota, set_quota_flag, flush_stats,
  incr_cpustat_seq_num, set_cpustat_seq_num, incr_quota_mismatch_counter,
  reset_quota_mismatch_counter, check_if_idle, update_last_seen_ts,
}
use ec_gcm.ElasticContainer.{ElasticContainer, get_sc_for_update_back, store}
use ec_gcm.EcApi.{QuotaCall, set_sc_quota_syscall}
use ec_gcm.Msg.{Msg, alloc_failed, alloc_success, cpu_type}
use ec_gcm.Manager.{Manager}
use Amounts.{
  Usage, one_core, max_cpu_loss, max_unused_rt, idle_quota, overrun_share, fair_share_pooled,
  fair_share_lent, throttle_relief, unused_quota, trimmed_quota, unused_fraction,
}

-- The application, the reporting container, and the calls made.
pub record Session : Type 0 where
  pub ec : ElasticContainer
  pub sc : SubContainer
  pub sent : List QuotaCall

abbrev pub on_cpu : (GlobalCpu → GlobalCpu) → Session → Session
on_cpu f s = record s { ec = ec' }
  where
    ec' : ElasticContainer
    ec' = record (s.ec) { cpu = f s.ec.cpu }

abbrev pub on_sc : (SubContainer → SubContainer) → Session → Session
on_sc f s = record s { sc = f s.sc }

module _ ⦃d : Double⦄ ⦃net : Net⦄ where
  -- What the branches do once the agent has taken the new quota: move time from the pool to the
  -- container, back to the pool, back against the overrun, or lend it as overrun.
  unfoldable pub give : ℕ → ℕ → Session → Session
  give amount quota s = on_cpu (incr_alloc_rt amount) (
      on_sc flush_stats (
        on_sc (set_quota quota)
          (on_cpu (decr_unallocated_rt amount) (on_sc (set_quota_flag true) s))))

  unfoldable pub take_back : ℕ → ℕ → Session → Session
  take_back amount quota s = on_cpu (decr_alloc_rt amount) (
      on_sc flush_stats (
        on_sc (set_quota quota)
          (on_cpu (incr_unallocated_rt amount) (on_sc (set_quota_flag true) s))))

  unfoldable pub repay : ℕ → ℕ → Session → Session
  repay amount quota s = on_cpu (decr_alloc_rt amount) (
      on_sc (set_quota quota)
        (on_cpu (decr_overrun amount) (on_sc flush_stats (on_sc (set_quota_flag true) s))))

  unfoldable pub lend : ℕ → ℕ → Session → Session
  lend amount quota s = on_cpu (incr_alloc_rt amount) (
      on_sc flush_stats
        (on_sc (set_quota quota) (on_cpu (incr_overrun amount) (on_sc (set_quota_flag true) s))))

  -- `ret = set_sc_quota_syscall(...); if(ret) { log } else { ... }`.
  unfoldable pub resize : World → ℕ → ℕ → (Session → Session) → Session → Outcome Session
  resize world seq quota effect s = do
    (ec', sent', ret) ← set_sc_quota_syscall world s.sc quota seq s.ec s.sent
    let s' = record s { ec = ec'; sent = sent' }
    ok (if ret == 0 then effect s' else s')

  unfoldable pub usage_of : ℕ → ℕ → ℕ → ℕ → ElasticContainer → Usage
  usage_of rx_quota rt_remaining rt_mean thr_mean ec = record {
    rx_quota = rx_quota;
    rt_remaining = rt_remaining;
    rt_mean = rt_mean;
    thr_mean = thr_mean;
    slice = ec.cpu.slice_size;
    unallocated = ec.cpu.unallocated_rt;
    overrun = ec.cpu.overrun;
    fair = ec.fair_cpu_share;
  }

  unfoldable pub serve_idle : World → ℕ → Usage → Session → Outcome Session
  serve_idle world seq u s =
      let quota = idle_quota u in
      let extra_rt = sub64 quota u.rx_quota in
      if ltb 0 extra_rt then resize world seq quota (give extra_rt quota) s else ok s

  unfoldable pub serve_above_share : World → ℕ → Usage → Session → Outcome Session
  serve_above_share world seq u s =
      let to_sub = overrun_share u in
      let quota = sub64 u.rx_quota to_sub in resize world seq quota (repay to_sub quota) s

  unfoldable pub serve_below_share : World → ℕ → Usage → Session → Outcome Session
  serve_below_share world seq u s =
      if ltb 0 u.unallocated
      then (let quota = add64 u.rx_quota (fair_share_pooled u) in
          resize world seq quota (give (fair_share_pooled u) quota) s)
      else (let quota = add64 u.rx_quota (fair_share_lent u) in
          resize world seq quota (lend (fair_share_lent u) quota) s)

  unfoldable pub serve_throttled : World → ℕ → Usage → Session → Outcome Session
  serve_throttled world seq u s =
      let extra_rt = throttle_relief u in
      let quota = add64 u.rx_quota extra_rt in
      if ltb 0 extra_rt then resize world seq quota (give extra_rt quota) s else ok s

  -- The two branches that shrink a quota to another.
  unfoldable pub shrink : World → ℕ → ℕ → Usage → Session → Outcome Session
  shrink world seq quota u s =
      if quota == u.rx_quota
      then ok s
      else resize world seq quota (take_back (sub64 u.rx_quota quota) quota) s

  open d use {lt, le, decimal}

  -- The ladder of cases.
  unfoldable pub reallocate : World → ℕ → Bool → Usage → Session → Outcome Session
  reallocate world seq idle u s =
      if idle && ltb 0 u.unallocated
      then serve_idle world seq u s
      else if ltb 0 u.overrun && ltb u.fair u.rx_quota
      then serve_above_share world seq u s
      else if ltb u.rx_quota u.fair && lt (decimal 5 1) u.thr_mean
      then serve_below_share world seq u s
      else if le (decimal 1 1) u.thr_mean && ltb 0 u.unallocated
      then serve_throttled world seq u s
      else if lt (decimal 2 1) (unused_fraction u) && leb u.slice u.rx_quota
      then shrink world seq (unused_quota u) u s
      else if ltb max_unused_rt u.rt_mean && ltb u.slice u.rx_quota
      then shrink world seq (trimmed_quota u) u s
      else ok s
