-- ===== src/Msg.antt =====
-- types/msg.h and msg.cpp: the message that containers and the manager exchange, and the codes of
-- ElasticContainer.h and Server.h.
use ec_gcm.Common.{ℕ, ◌^◌, ◌-◌}

pub record Msg : Type 0 where
  pub client_ip : ℕ
  pub cgroup_id : ℕ
  pub req_type : ℕ
  pub rsrc_amnt : ℕ
  pub request : ℕ
  pub runtime_remaining : ℕ
  pub cpustat_seq_num : ℕ
  pub sock_addr : ℕ

-- The copy constructor leaves `sock_addr` as memory has it.
unfoldable pub copy : ℕ → Msg → Msg
copy garbage m = record m { sock_addr = garbage }

-- What a buffer of zeroes holds.
abbrev pub zeroed : Msg
zeroed = record {
  client_ip = 0;
  cgroup_id = 0;
  req_type = 0;
  rsrc_amnt = 0;
  request = 0;
  runtime_remaining = 0;
  cpustat_seq_num = 0;
  sock_addr = 0;
}

abbrev pub alloc_failed : ℕ
alloc_failed = 0

abbrev pub alloc_success : ℕ
alloc_success = 1

abbrev pub alloc_init : ℕ
alloc_init = 2

abbrev pub alloc_mem_failed : ℕ
alloc_mem_failed = 3

-- `__FAILED__`, the `int` -1.
abbrev pub failed : ℕ
failed = 2 ^ 64 - 1

abbrev pub cpu_type : ℕ
cpu_type = 0

abbrev pub mem_type : ℕ
mem_type = 1

abbrev pub init_type : ℕ
init_type = 2
