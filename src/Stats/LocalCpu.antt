-- ===== src/Stats/LocalCpu.antt =====
-- stats/local/cpu_l.h and cpu_l.cpp: one container's quota, throttle count and windows. The field
-- `period` is never written or read, and is left out.
use ec_gcm.Common.{ℕ, Bool, false, add64, sub32}
use ec_gcm.Platform.{Double}
use ec_gcm.Stats.Window.{Window}
use ec_gcm.Stats.Window

pub record LocalCpu : Type 0 where
  pub quota : ℕ
  pub seq_num : ℕ
  pub nr_throttled : ℕ
  pub rt_winstats : Window
  pub th_winstats : Window
  pub set_quota_flag : Bool

abbrev pub window_stat_size : ℕ
window_stat_size = 10

-- `get_throttle_increase`, on `uint32_t`.
abbrev pub get_throttle_increase : ℕ → LocalCpu → ℕ
get_throttle_increase throttled c = sub32 throttled c.nr_throttled

unfoldable pub set_throttled : ℕ → LocalCpu → LocalCpu
set_throttled throttled c = record c { nr_throttled = throttled }

unfoldable pub set_quota : ℕ → LocalCpu → LocalCpu
set_quota quota c = record c { quota = quota }

unfoldable pub set_set_quota_flag : Bool → LocalCpu → LocalCpu
set_set_quota_flag value c = record c { set_quota_flag = value }

unfoldable pub incr_seq_num : LocalCpu → LocalCpu
incr_seq_num c = record c { seq_num = add64 c.seq_num 1 }

unfoldable pub set_seq_num : ℕ → LocalCpu → LocalCpu
set_seq_num value c = record c { seq_num = value }

module _ ⦃d : Double⦄ where
  open d use {of_u64, to_u64}

  -- `cpu(uint64_t, uint32_t)`.
  unfoldable pub init : ℕ → ℕ → LocalCpu
  init quota nr_throttled = record {
    quota = quota;
    seq_num = 0;
    nr_throttled = nr_throttled;
    rt_winstats = Window.init window_stat_size;
    th_winstats = Window.init window_stat_size;
    set_quota_flag = false;
  }

  -- The new state and the mean, as an integer.
  unfoldable pub insert_rt_stats : ℕ → LocalCpu → LocalCpu × ℕ
  insert_rt_stats element c =
      let window = Window.insert (of_u64 element) c.rt_winstats in
      (record c { rt_winstats = window }, to_u64 window.mean)

  -- The new state and the mean of the increases, as a double.
  unfoldable pub insert_th_stats : ℕ → LocalCpu → LocalCpu × ℕ
  insert_th_stats element c =
      let window = Window.insert (of_u64 (get_throttle_increase element c)) c.th_winstats in
      (record c { th_winstats = window; nr_throttled = element }, window.mean)

  unfoldable pub flush : LocalCpu → LocalCpu
  flush c = record c {
    rt_winstats = Window.flush c.rt_winstats;
    th_winstats = Window.flush c.th_winstats;
  }
