-- ===== src/Examples.antt =====
-- Concrete parameters and one small application, at which the theorems are applied: doubles with
-- three decimal places, nodes that are equal when their words are, and an application with the
-- containers 7 and 8 on the node 1, whose agent says yes to every call.
mod Stats
mod Containers
mod Cpu
mod Memory
mod Admission
mod Deployment
mod Socket
mod Systems
mod Threads
mod Races
mod Files
use native.Mathlib.Nat.{div-le_of_le-mul, mul-le-mul_left, mul_comm}
use ec_gcm.Common.{
  ℕ, suc, ◌+◌, ◌-◌, ◌*◌, ◌/◌, ◌^◌, ◌≤◌, ◌<◌, ◌≡◌, refl, ◌==◌, true, none, some, String, [], ◌∷◌,
  arith, ltb, leb,
}
use ec_gcm.Common.Map.{contains}
use ec_gcm.Platform.{Double, Net, World}
use ec_gcm.Agents.{AgentClient}
use ec_gcm.SubContainer.{ContainerId, SubContainer, same_container}
use ec_gcm.SubContainer
use ec_gcm.Stats.GlobalCpu.{GlobalCpu}
use ec_gcm.Stats.GlobalMem.{GlobalMem}
use ec_gcm.Stats.LocalCpu.{LocalCpu}
use ec_gcm.Stats.LocalMem.{LocalMem}
use ec_gcm.Stats.Window
use ec_gcm.Stats.Window.{Window}
use ec_gcm.ElasticContainer.{ElasticContainer, write}
use ec_gcm.ElasticContainer.Invariant.{IsValid}
use ec_gcm.Manager.{Manager}
use ec_gcm.Manager.Cpu.Bounds.{IsRounding}

-- Thousandths.
instance abbrev pub thousandths : Double
thousandths = record {
  of_u64 = λ n. n * 1000;
  of_i64 = λ n. n * 1000;
  to_u64 = λ x. x / 1000;
  decimal = λ m e. m * 1000 / 10 ^ e;
  sum = λ x y. x + y;
  diff = λ x y. x - y;
  prod = λ x y. x * y / 1000;
  quot = λ x y. x * 1000 / y;
  lt = ltb;
  le = leb;
}

-- Addresses that are kept as they come.
instance abbrev pub plain_net : Net
plain_net = record {
  from_net = λ a. a;
  from_host = λ a. a;
  from_string = λ _. 1;
  to_uint32 = λ a. a;
  same = λ a b. a == b;
  same_refl = λ a. ground arith;
  same_sym = λ a b h. ground arith;
  same_trans = λ a b c h k. ground arith;
}

-- Every call succeeds, a container uses 1000 pages, and its limit is 40000 pages.
abbrev pub willing : World
willing = record {
  quota_status = λ _ _ _. 0;
  resize_status = λ _ _ _. 0;
  usage_bytes = λ _ _. 1000 * 4096;
  limit_bytes = λ _ _. 40_000 * 4096;
}

quotient_le : (a b n : ℕ) → a ≤ b → a * 1000 / b * (n * 1000) / 1000 / 1000 ≤ n
quotient_le a b n h =
    let q = a * 1000 / b in
    let q_le : q ≤ 1000 = div-le_of_le-mul b (omega arith) in
    let product_le = mul-le-mul_left (n * 1000) q_le in
    let swapped : q * (n * 1000) ≡ n * 1000 * q = mul_comm q (n * 1000) in
    omega (arith, product_le, swapped)

pub thousandths-IsRounding : IsRounding
thousandths-IsRounding = record {
  fraction_le =
      λ part whole n h k l. quotient_le (whole * 1000 - part * 1000) (whole * 1000) n (omega arith);
  most_le = λ n h. omega arith;
}

abbrev pub client : AgentClient
client = record { handle = 5; ip = 1; port = 4448 }

abbrev pub window : Window
window = record {
  winsize = 3;
  mean = 0;
  periods_elapsed = 5;
  trend = 0;
  offset = 0;
  popped = 0;
  winstat = 1000 ∷ 2000 ∷ 3000 ∷ [];
}

-- A container with a quota in nanoseconds and a memory limit in pages.
abbrev pub container : ℕ → String → ℕ → ℕ → SubContainer
container cgroup_id docker_id quota pages = record {
  c_id = record { cgroup_id = cgroup_id; server_ip = 1; docker_id = docker_id };
  fd = cgroup_id;
  inserted = true;
  cpu = record {
    quota = quota;
    seq_num = 0;
    nr_throttled = 0;
    rt_winstats = window;
    th_winstats = window;
    set_quota_flag = true;
  };
  mem = record { mem_limit_in_pages = pages; current_usage = 0 };
  quota_mismatch_counter = 0;
  counter = 0;
  last_seen_ts = 0;
}

abbrev pub seven : SubContainer
seven = container 7 "d7" 50_000_000 40_000

abbrev pub eight : SubContainer
eight = container 8 "d8" 20_000_000 0

abbrev pub application : ElasticContainer
application = record {
  ec_id = 1;
  subcontainers = (seven.c_id, 0 ∷ []) ∷ (eight.c_id, 1 ∷ []) ∷ [];
  sc_ac_map = (seven.c_id, some client) ∷ (eight.c_id, some client) ∷ [];
  fair_cpu_share = 60_000_000;
  mem = record {
    memory_limit_in_pages = 90_000;
    slice_size = 5000;
    unallocated_memory_in_pages = 2000;
    allocated_memory_in_pages = 50_000;
  };
  cpu = record {
    slice_size = 30_000_000;
    unallocated_rt = 4_000_000;
    total_cpu = 120_000_000;
    overrun = 0;
    alloc_rt = 70_000_000;
  };
  heap = write (write (λ _. none) 1 (some eight)) 0 (some seven);
  next_sc = 2;
}

pub application-IsValid : IsValid application
unfolding contains same_container
application-IsValid = record {
  distinct = (refl, (refl, tt));
  entries =
      ((ground arith, ((seven, refl, refl), tt)), ((ground arith, ((eight, refl, refl), tt)), tt));
  once = λ p. ground arith;
  unborn = λ p h. ground arith;
  bounded = λ p h. ground arith;
}

abbrev pub manager : Manager
manager = record {
  ec = application;
  agents = (1, client) ∷ [];
  syscall_sequence_number = 0;
  cpuleak = 0;
  sent = [];
}
