-- ===== src/Manager.antt =====
-- Manager.h and Manager.cpp: the requests of the containers of one application.
pub mod Cpu
pub mod Report
pub mod Idle
pub mod Memory
pub mod Admission
use ec_gcm.Common.{ℕ, List}
use ec_gcm.AgentClientDb.{AgentClientDb}
use ec_gcm.EcApi.{QuotaCall}
use ec_gcm.ElasticContainer.{ElasticContainer}

-- A manager with its application, the clients of the agents, and the quota calls that it has made,
-- the last one first. `cpuleak` and `syscall_sequence_number` are `int64_t` patterns.
pub record Manager : Type 0 where
  pub ec : ElasticContainer
  pub agents : AgentClientDb
  pub syscall_sequence_number : ℕ
  pub cpuleak : ℕ
  pub sent : List QuotaCall
