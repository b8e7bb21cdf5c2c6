-- ===== src/Examples/Stats.antt =====
-- The theorems on the statistics and on the identity of containers, at concrete values.
use ec_gcm.Common.{◌≡◌, ◌≤◌, ◌<◌, ◌↔◌, refl, arith, ◌+◌, true, min}
use ec_gcm.Stats.GlobalCpu.{IsValid}
use ec_gcm.Stats.Window
use ec_gcm.Stats.Window.{slot}
use ec_gcm.AgentClientDb.{ip_key}
use ec_gcm.EcApi.{determine_quota_for_new_pod}
use ec_gcm.EcApi.NewPod.{new_pod_quota}
use ec_gcm.Examples.{plain_net, thousandths, application, window}

pub application_cpu-IsValid : IsValid application.cpu
application_cpu-IsValid = record {
  slice_lt = omega arith;
  unallocated_lt = omega arith;
  total_lt = omega arith;
  overrun_lt = omega arith;
  alloc_lt = omega arith;
}

window-IsValid : Window.IsValid window
window-IsValid = record { length_eq = refl; positive = omega arith }

new_pod_quota_example :
    let c = application.cpu in
    let (new, quota, update) = determine_quota_for_new_pod 9_000_000 c in
    (0 < c.unallocated_rt → quota ≡ min 9_000_000 c.unallocated_rt)
    × (c.unallocated_rt ≡ 0 → 0 < 9_000_000 → quota ≡ c.slice_size)
    × (new.alloc_rt ≡ c.alloc_rt + quota)
    × (new.unallocated_rt ≤ c.unallocated_rt)
    × (new.alloc_rt + new.unallocated_rt + c.overrun ≡ c.alloc_rt + c.unallocated_rt + new.overrun)
    × ((update ≡ true) ↔ (c.unallocated_rt < 9_000_000))
new_pod_quota_example =
    new_pod_quota 9_000_000 application.cpu application_cpu-IsValid (omega arith)
