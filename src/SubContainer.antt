-- ===== src/SubContainer.antt =====
-- SubContainer.h and SubContainer.cpp: one container on one node. Times are nanoseconds of the
-- system clock; the clock is an argument.
pub mod Identity
use ec_gcm.Common.{
  ℕ, zero, ◌^◌, ◌-◌, ◌/◌, ◌≡◌, Bool, true, false, ◌&&◌, String, ltb, ◌==◌, if◌then◌else◌, add32,
}
use ec_gcm.Common.Map.{Key}
use ec_gcm.Platform.{Double, Net}
use ec_gcm.Stats.LocalCpu.{LocalCpu}
use ec_gcm.Stats.LocalCpu
use ec_gcm.Stats.LocalMem.{LocalMem}
use ec_gcm.Stats.LocalMem

pub record ContainerId : Type 0 where
  pub cgroup_id : ℕ
  pub server_ip : ℕ
  pub docker_id : String

-- `operator==`: the docker id does not count.
unfoldable pub same_container : ⦃net : Net⦄ → ContainerId → ContainerId → Bool
same_container ⦃net⦄ a b = (a.cgroup_id == b.cgroup_id) && net.same a.server_ip b.server_ip

pub record SubContainer : Type 0 where
  pub c_id : ContainerId
  pub fd : ℕ
  pub inserted : Bool
  pub cpu : LocalCpu
  pub mem : LocalMem
  pub quota_mismatch_counter : ℕ
  pub counter : ℕ
  pub last_seen_ts : ℕ

-- `ContainerId(uint32_t, ip4_addr)`.
abbrev pub container_id : ℕ → ℕ → ContainerId
container_id cgroup_id ip = record { cgroup_id = cgroup_id; server_ip = ip; docker_id = "" }

-- `SubContainer(cgroup_id, ip, fd, quota, nr_throttled)`, at time `now`.
unfoldable pub init : ⦃d : Double⦄ ⦃net : Net⦄ → ℕ → ℕ → ℕ → ℕ → ℕ → ℕ → SubContainer
init ⦃d⦄ ⦃net⦄ now cgroup_id ip fd quota nr_throttled = record {
  c_id = container_id cgroup_id (net.from_net ip);
  fd = fd;
  inserted = false;
  cpu = LocalCpu.init quota nr_throttled;
  mem = LocalMem.init;
  quota_mismatch_counter = 0;
  counter = 0;
  last_seen_ts = now;
}

-- `SubContainer(cgroup_id, ip, fd)`: the quota is -1.
unfoldable pub init_unlimited : ⦃d : Double⦄ ⦃net : Net⦄ → ℕ → ℕ → ℕ → ℕ → SubContainer
unfolding init
init_unlimited now cgroup_id ip fd = init now cgroup_id ip fd (2 ^ 64 - 1) 0

unfoldable pub set_quota : ℕ → SubContainer → SubContainer
set_quota quota sc = record sc { cpu = LocalCpu.set_quota quota sc.cpu }

unfoldable pub set_quota_flag : Bool → SubContainer → SubContainer
set_quota_flag value sc = record sc { cpu = LocalCpu.set_set_quota_flag value sc.cpu }

unfoldable pub set_docker_id : String → SubContainer → SubContainer
set_docker_id docker_id sc = record sc { c_id = c }
  where
    c : ContainerId
    c = record (sc.c_id) { docker_id = docker_id }

unfoldable pub get_thr_incr_and_set_thr : ℕ → SubContainer → SubContainer × ℕ
get_thr_incr_and_set_thr throttled sc =
    let incr = LocalCpu.get_throttle_increase throttled sc.cpu in
    (if incr == 0 then sc else record sc { cpu = LocalCpu.set_throttled throttled sc.cpu }, incr)

unfoldable pub incr_counter : SubContainer → SubContainer
incr_counter sc = record sc { counter = add32 sc.counter 1 }

unfoldable pub set_mem_limit_in_pages : ℕ → SubContainer → SubContainer
set_mem_limit_in_pages limit sc = record sc { mem = LocalMem.set_mem_limit_in_pages limit sc.mem }

unfoldable pub sc_incr_mem_limit : ℕ → SubContainer → SubContainer
sc_incr_mem_limit incr sc = record sc { mem = LocalMem.incr_mem_limit incr sc.mem }

unfoldable pub sc_decr_mem_limit : ℕ → SubContainer → SubContainer
sc_decr_mem_limit decr sc = record sc { mem = LocalMem.decr_mem_limit decr sc.mem }

unfoldable pub set_sc_inserted : Bool → SubContainer → SubContainer
set_sc_inserted value sc = record sc { inserted = value }

unfoldable pub incr_cpustat_seq_num : SubContainer → SubContainer
incr_cpustat_seq_num sc = record sc { cpu = LocalCpu.incr_seq_num sc.cpu }

unfoldable pub set_cpustat_seq_num : ℕ → SubContainer → SubContainer
set_cpustat_seq_num value sc = record sc { cpu = LocalCpu.set_seq_num value sc.cpu }

-- The new state and the old count: the increment is a postfix one.
unfoldable pub incr_quota_mismatch_counter : SubContainer → SubContainer × ℕ
incr_quota_mismatch_counter sc = (
  record sc { quota_mismatch_counter = add32 sc.quota_mismatch_counter 1 },
  sc.quota_mismatch_counter,
)

unfoldable pub reset_quota_mismatch_counter : SubContainer → SubContainer
reset_quota_mismatch_counter sc = record sc { quota_mismatch_counter = 0 }

-- Unseen for more than two seconds, in whole microseconds. A clock that was set back gives a
-- negative difference there and 0 here: not idle in both.
unfoldable pub check_if_idle : ℕ → SubContainer → Bool
check_if_idle now sc = ltb 2_000_000 ((now - sc.last_seen_ts) / 1000)

unfoldable pub update_last_seen_ts : ℕ → SubContainer → SubContainer
update_last_seen_ts now sc = record sc { last_seen_ts = now }

-- `sc->get_cpu_stats()->flush()`.
unfoldable pub flush_stats : ⦃d : Double⦄ → SubContainer → SubContainer
flush_stats sc = record sc { cpu = LocalCpu.flush sc.cpu }
