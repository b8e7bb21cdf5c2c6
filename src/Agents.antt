-- ===== src/Agents.antt =====
-- Agents/: the clients through which a manager talks to the agents of the nodes.
pub mod Rpc
use ec_gcm.Common.{ℕ}

-- `Agent` and the `AgentClient` over it, named by its address in memory. Its calls are in `Rpc`; elsewhere they are
-- answered by the parameter `World`.
pub record AgentClient : Type 0 where
  pub handle : ℕ
  pub ip : ℕ
  pub port : ℕ

abbrev pub agent_port : ℕ
agent_port = 4448
