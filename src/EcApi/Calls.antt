-- ===== src/EcApi/Calls.antt =====
-- When a call of an agent goes through.
use ec_gcm.Common.{ℕ, ◌≡◌, true, some, List, ◌∷◌, arith, ok}
use ec_gcm.Common.Map.{find}
use ec_gcm.Platform.{Net, World}
use ec_gcm.Agents.{AgentClient}
use ec_gcm.SubContainer.{ContainerId, SubContainer}
use ec_gcm.SubContainer.Identity.{container_key}
use ec_gcm.ElasticContainer.{ElasticContainer, get_corres_agent_client}
use ec_gcm.EcApi.{QuotaCall, change_of, set_sc_quota_syscall, sc_resize_memory_limit_in_pages}

-- The call that `set_sc_quota_syscall` makes of a client.
abbrev pub quota_call : AgentClient → SubContainer → ℕ → ℕ → QuotaCall
quota_call ac sc quota seq = record {
  client = ac.handle;
  cgroup_id = sc.c_id.cgroup_id;
  new_quota = quota;
  change = change_of quota sc.cpu.quota;
  seq_num = seq;
}

module _ ⦃net : Net⦄ where
  -- With a client for an inserted container the call is made and nothing else changes.
  pub set_sc_quota_syscall_lem :
      (world : World) (sc : SubContainer) (quota seq : ℕ) (ec : ElasticContainer)
      (sent : List QuotaCall) (ac : AgentClient)
      → sc.inserted ≡ true
      → find sc.c_id ec.sc_ac_map ≡ some (some ac)
      → set_sc_quota_syscall world sc quota seq ec sent
        ≡ ok (
          ec,
          quota_call ac sc quota seq ∷ sent,
          world.quota_status ac.handle sc.c_id.cgroup_id quota,
        )
  unfolding set_sc_quota_syscall get_corres_agent_client
  set_sc_quota_syscall_lem world sc quota seq ec sent ac h e = ground arith

  pub sc_resize_lem :
      (world : World) (id : ContainerId) (pages : ℕ) (ec : ElasticContainer) (ac : AgentClient)
      → find id ec.sc_ac_map ≡ some (some ac)
      → sc_resize_memory_limit_in_pages world id pages ec
        ≡ ok (ec, world.resize_status ac.handle id.cgroup_id pages)
  unfolding sc_resize_memory_limit_in_pages get_corres_agent_client
  sc_resize_lem world id pages ec ac e = ground arith
