-- ===== src/Examples/Cpu.antt =====
-- The theorems on the quotas of one application, at concrete values.
use ec_gcm.Common.{◌^◌, ◌≡◌, ◌+◌, ◌-◌, refl, arith, true, false, some, Returns, ok}
use ec_gcm.Common.Map.{find}
use ec_gcm.SubContainer.{SubContainer, same_container, container_id, check_if_idle}
use ec_gcm.SubContainer.Identity.{container_key}
use ec_gcm.ElasticContainer.{get_sc_for_update_back, write}
use ec_gcm.Manager.{Manager}
use ec_gcm.Msg.{Msg}
use ec_gcm.Manager.Cpu.{reallocate}
use ec_gcm.Manager.Cpu.Amounts.{Usage}
use ec_gcm.Manager.Cpu.Branches.{Balanced}
use ec_gcm.Manager.Cpu.Resize.{IsReachable}
use ec_gcm.Manager.Cpu.Conservation.{IsOrdinary, reallocate-Balanced, reallocate_makes_time}
use ec_gcm.Manager.Report.Agreement.{IsSettled, handle_cpu_usage_report-IsSettled}
use ec_gcm.Manager.Report.{handle_cpu_usage_report}
use ec_gcm.Manager.Report.Totality.{IsServed, handle_cpu_usage_report-IsServed}
use ec_gcm.Manager.Idle.{check_one}
use ec_gcm.Manager.Idle.Laws.{session_of, idle_gives_back, idle_below_minimum_wraps}
use ec_gcm.Examples.{
  plain_net, thousandths, thousandths-IsRounding, willing, client, seven, eight, application,
  application-IsValid, manager,
}
use ec_gcm.Examples.Stats.{application_cpu-IsValid}

-- A report of the container 7, which runs at its whole quota.
abbrev busy : Usage
busy = record {
  rx_quota = 50_000_000;
  rt_remaining = 0;
  rt_mean = 0;
  thr_mean = 900;
  slice = 30_000_000;
  unallocated = 4_000_000;
  overrun = 0;
  fair = 60_000_000;
}

eight_known : find eight.c_id application.sc_ac_map ≡ some (some client)
unfolding find same_container
eight_known = refl

pub seven_known : find seven.c_id application.sc_ac_map ≡ some (some client)
unfolding find same_container
seven_known = refl

seven-IsReachable : IsReachable client (session_of seven manager)
seven-IsReachable = record { inserted = refl; known = seven_known }

eight-IsReachable : IsReachable client (session_of eight manager)
eight-IsReachable = record { inserted = refl; known = eight_known }

busy-IsOrdinary : IsOrdinary busy (session_of seven manager)
busy-IsOrdinary = record {
  counters = application_cpu-IsValid;
  slice_eq = refl;
  unallocated_eq = refl;
  overrun_eq = refl;
  rx_lt = omega arith;
  fair_lt = omega arith;
  rx_le = omega arith;
  overrun_le = omega arith;
  slice_ge = omega arith;
}

-- With a fair share that the pool can pay for.
abbrev modest : Usage
modest = record busy { fair = 53_000_000 }

modest-IsOrdinary : IsOrdinary modest (session_of seven manager)
modest-IsOrdinary = record {
  counters = application_cpu-IsValid;
  slice_eq = refl;
  unallocated_eq = refl;
  overrun_eq = refl;
  rx_lt = omega arith;
  fair_lt = omega arith;
  rx_le = omega arith;
  overrun_le = omega arith;
  slice_ge = omega arith;
}

reallocate-Balanced_example :
    Returns
      (λ s'. Balanced application.cpu s'.ec.cpu)
      (reallocate willing 1 false modest (session_of seven manager))
reallocate-Balanced_example =
    reallocate-Balanced willing 1 modest (session_of seven manager) client thousandths-IsRounding
      modest-IsOrdinary seven-IsReachable false (λ h k. omega arith)

reallocate_makes_time_example :
    Returns
      (λ s'.
        (s'.sc.cpu.quota ≡ 60_000_000)
        × (s'.ec.cpu.overrun ≡ 0)
        × (s'.ec.cpu.alloc_rt + s'.ec.cpu.unallocated_rt + 50_000_000 + 4_000_000
            ≡ 70_000_000 + 4_000_000 + 60_000_000))
      (reallocate willing 1 false busy (session_of seven manager))
reallocate_makes_time_example =
    reallocate_makes_time willing 1 busy (session_of seven manager) client thousandths-IsRounding
      busy-IsOrdinary seven-IsReachable (omega arith) (omega arith) (omega arith) refl refl

abbrev pub report : Msg
report = record {
  client_ip = 1;
  cgroup_id = 7;
  req_type = 0;
  rsrc_amnt = 50_000_000;
  request = 2;
  runtime_remaining = 0;
  cpustat_seq_num = 1;
  sock_addr = 0;
}

pub seven_found : get_sc_for_update_back (container_id 7 1) application ≡ ok 0
unfolding get_sc_for_update_back find same_container
seven_found = refl

handle_cpu_usage_report-IsServed_example :
    Returns
      (IsServed 0 seven report manager)
      (handle_cpu_usage_report willing 3_000_000_000 report report manager)
handle_cpu_usage_report-IsServed_example =
    handle_cpu_usage_report-IsServed willing 3_000_000_000 report report manager 0 seven client refl
      application-IsValid seven_found refl refl seven_known

-- The container 7 after three reports of another quota, and the fourth.
abbrev disputed : SubContainer
disputed = record seven { quota_mismatch_counter = 3 }

abbrev disputing : Manager
disputing = record manager {
  ec = record application { heap = write application.heap 0 (some disputed) };
}

abbrev dispute : Msg
dispute = record report { rsrc_amnt = 40_000_000 }

disputed_found : get_sc_for_update_back (container_id 7 1) disputing.ec ≡ ok 0
unfolding get_sc_for_update_back find same_container
disputed_found = refl

handle_cpu_usage_report-IsSettled_example :
    Returns
      (IsSettled willing client 40_000_000 disputed 0 disputing)
      (handle_cpu_usage_report willing 3_000_000_000 dispute dispute disputing)
handle_cpu_usage_report-IsSettled_example =
    handle_cpu_usage_report-IsSettled willing 3_000_000_000 dispute dispute disputing 0 disputed
      client refl disputed_found refl refl seven_known

long_idle : (sc : SubContainer) → sc.last_seen_ts ≡ 0 → check_if_idle 5_000_000_000 sc ≡ true
unfolding check_if_idle
long_idle sc h = ground arith

idle_gives_back_example :
    Returns
      (λ r.
        (r.0.ec.cpu.unallocated_rt ≡ 4_000_000 + (50_000_000 - 30_000_000))
        × (r.0.ec.cpu.alloc_rt + r.0.ec.cpu.unallocated_rt ≡ 70_000_000 + 4_000_000))
      (check_one willing 5_000_000_000 0 1 manager)
idle_gives_back_example =
    idle_gives_back willing 5_000_000_000 0 1 seven manager client refl (long_idle seven refl)
      seven-IsReachable refl application_cpu-IsValid (omega arith) (omega arith)

idle_below_minimum_wraps_example :
    Returns
      (λ r.
        ((new : SubContainer) × (r.0.ec.heap 1 ≡ some new) × (new.cpu.quota ≡ 30_000_000))
        × (r.0.ec.cpu.unallocated_rt + (30_000_000 - 20_000_000) ≡ 2 ^ 64 + 4_000_000)
        × (r.0.ec.cpu.alloc_rt ≡ 70_000_000 + (30_000_000 - 20_000_000)))
      (check_one willing 5_000_000_000 1 1 manager)
idle_below_minimum_wraps_example =
    idle_below_minimum_wraps willing 5_000_000_000 1 1 eight manager client refl
      (long_idle eight refl) eight-IsReachable refl application_cpu-IsValid (omega arith)
