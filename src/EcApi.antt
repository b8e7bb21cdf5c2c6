-- ===== src/EcApi.antt =====
-- ECAPI.h and ECAPI.cpp: the calls through which a manager changes its application and its agents.
-- The plain forwarders of ECAPI.h are the operations of `ElasticContainer`, `GlobalCpu` and
-- `GlobalMem` themselves.
pub mod NewPod
pub mod Calls
pub mod Traffic
pub mod Evolution
pub mod Safety
use ec_gcm.Common.{
  ℕ, ◌+◌, ◌≡◌, Bool, true, false, not, Option, some, none, List, [], ◌∷◌, if◌then◌else◌, leb, ltb,
  ◌==◌, sub64, mul64, is_neg, Outcome, ok, exited, hung, or_exit, or_fault, ◌>>=◌,
}
use ec_gcm.Platform.{Net, World}
use ec_gcm.Agents.{AgentClient}
use ec_gcm.Stats.GlobalCpu.{
  GlobalCpu, decr_unallocated_rt, incr_alloc_rt, incr_overrun, set_unallocated_rt,
}
use ec_gcm.Stats.GlobalMem.{
  GlobalMem, decr_unallocated_memory_in_pages, incr_unallocated_memory_in_pages,
  incr_allocated_memory_in_pages, decr_allocated_memory_in_pages,
}
use ec_gcm.SubContainer.{ContainerId, SubContainer, set_mem_limit_in_pages}
use ec_gcm.ElasticContainer.{
  ElasticContainer, init, store, get_corres_agent_client, get_sc_for_update_back,
}

-- The counters after `determine_quota_for_new_pod`, the quota, and whether the agent must be told.
unfoldable pub determine_quota_for_new_pod : ℕ → GlobalCpu → GlobalCpu × ℕ × Bool
determine_quota_for_new_pod req_quota c =
    if leb req_quota c.unallocated_rt
    then (incr_alloc_rt req_quota (decr_unallocated_rt req_quota c), req_quota, false)
    else if c.unallocated_rt == 0
    then (incr_alloc_rt c.slice_size (incr_overrun c.slice_size c), c.slice_size, true)
    else (incr_alloc_rt c.unallocated_rt (set_unallocated_rt 0 c), c.unallocated_rt, true)

unfoldable pub ec_update_alloc_memory_in_pages : ℕ → GlobalMem → GlobalMem
ec_update_alloc_memory_in_pages mem m =
    incr_allocated_memory_in_pages mem (decr_unallocated_memory_in_pages mem m)

unfoldable pub ec_update_reclaim_memory_in_pages : ℕ → GlobalMem → GlobalMem
ec_update_reclaim_memory_in_pages mem m =
    decr_allocated_memory_in_pages mem (incr_unallocated_memory_in_pages mem m)

pub data Change : Type 0 where
  decr incr : Change

-- `create_ec`, and `get_elastic_container`, which leaves the program where there is no application.
unfoldable pub create_ec : ℕ → Option ElasticContainer
create_ec ecapi_id = some (init ecapi_id)

unfoldable pub get_elastic_container : Option ElasticContainer → Outcome ElasticContainer
get_elastic_container ec = or_exit ec

-- A call of `updateContainerQuota`: to which client, for which group, with what.
pub record QuotaCall : Type 0 where
  pub client : ℕ
  pub cgroup_id : ℕ
  pub new_quota : ℕ
  pub change : Change
  pub seq_num : ℕ

-- The two words of the log message and the request: "decr" if the new quota is the smaller.
abbrev pub change_of : ℕ → ℕ → Change
change_of quota old = if is_neg (sub64 quota old) then decr else incr

module _ ⦃net : Net⦄ where
  -- The caller has checked the pointer. A container that is not marked as inserted is waited for:
  -- with no other thread the loop does not end. The result is the status of the agent's call.
  unfoldable pub set_sc_quota_syscall :
      World
      → SubContainer
      → ℕ
      → ℕ
      → ElasticContainer
      → List QuotaCall
      → Outcome (ElasticContainer × List QuotaCall × ℕ)
  set_sc_quota_syscall world sc quota seq ec sent =
      let (ec', agent) = get_corres_agent_client sc.c_id ec in
      if not sc.inserted then hung else elim agent [
        | none ↦ exited
        | some ac ↦ ok (
          ec',
          record {
            client = ac.handle;
            cgroup_id = sc.c_id.cgroup_id;
            new_quota = quota;
            change = change_of quota sc.cpu.quota;
            seq_num = seq;
          }
              ∷ sent,
          world.quota_status ac.handle sc.c_id.cgroup_id quota,
        )
      ]

  unfoldable pub sc_resize_memory_limit_in_pages :
      World → ContainerId → ℕ → ElasticContainer → Outcome (ElasticContainer × ℕ)
  sc_resize_memory_limit_in_pages world id pages ec =
      let (ec', agent) = get_corres_agent_client id ec in
      elim agent [
        | none ↦ exited
        | some ac ↦ ok (ec', world.resize_status ac.handle id.cgroup_id pages)
      ]

  -- `__syscall_get_memory_usage_in_bytes` and `__syscall_get_memory_limit_in_bytes`, over what the call
  -- of the client gives for a group.
  unfoldable pub syscall_get_memory_in_bytes :
      (ℕ → ℕ) → ContainerId → ElasticContainer → Outcome (ElasticContainer × ℕ)
  syscall_get_memory_in_bytes asked id ec =
      let (ec', agent) = get_corres_agent_client id ec in
      elim agent [ none ↦ exited | some ac ↦ ok (ec', mul64 (asked id.cgroup_id) 4096) ]

  unfoldable pub sc_set_memory_limit_in_pages :
      ContainerId → ℕ → ElasticContainer → Outcome ElasticContainer
  sc_set_memory_limit_in_pages id pages ec = do
    p ← get_sc_for_update_back id ec
    sc ← or_fault (ec.heap p)
    ok (store p (set_mem_limit_in_pages pages sc) ec)
