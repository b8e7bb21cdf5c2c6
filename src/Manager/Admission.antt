-- ===== src/Manager/Admission.antt =====
-- `Manager::handle_add_cgroup_to_ec`, which runs in place of the one of ECAPI, and
-- `Manager::handle_req`. The thread that the first one starts is
-- `determine_mem_limit_for_new_pod` of Memory, a step of its own. Reads and writes through the null
-- messages that the source tests for do not occur here: a message is a value.
pub mod Laws
pub mod Evolution
pub mod Base
use ec_gcm.Common.{
  ℕ, Bool, true, false, Option, none, some, List, if◌then◌else◌, ◌==◌, add32, Outcome, ok, or_fault,
  ◌>>=◌,
}
use ec_gcm.Platform.{Double, Net, World}
use ec_gcm.Agents.{AgentClient}
use ec_gcm.AgentClientDb.{get_agent_client_by_ip}
use ec_gcm.SubContainer.{SubContainer, init, set_sc_inserted}
use ec_gcm.ElasticContainer.{
  ElasticContainer, create_new_sc, insert_sc, update_fair_cpu_share, add_to_sc_ac_map, store,
}
use ec_gcm.EcApi.{QuotaCall, determine_quota_for_new_pod, set_sc_quota_syscall}
use ec_gcm.Msg.{Msg, alloc_init, failed, cpu_type, mem_type, init_type}
use ec_gcm.Manager.{Manager}
use ec_gcm.Manager.Report.{handle_cpu_usage_report}
use ec_gcm.Manager.Memory.{handle_mem_req}

abbrev pub new_pod_seq : ℕ
new_pod_seq = 13

module _ ⦃net : Net⦄ where
  -- The link to the client of the container's node, which lets calls for the container through.
  unfoldable pub link :
      ℕ → SubContainer → Option AgentClient → ElasticContainer → ElasticContainer × SubContainer
  link p sc none ec = (ec, sc)
  link p sc (some ac) ec = (
    store p (set_sc_inserted true sc) (add_to_sc_ac_map sc.c_id (some ac) ec),
    set_sc_inserted true sc,
  )

  -- The call for a new container, whose status the handler drops.
  unfoldable pub tell_agent :
      World
      → Bool
      → SubContainer
      → ℕ
      → ElasticContainer
      → List QuotaCall
      → Outcome (ElasticContainer × List QuotaCall)
  tell_agent world update sc quota ec sent =
      if update
      then (do r ← set_sc_quota_syscall world sc quota new_pod_seq ec sent; ok (r.0, r.1))
      else ok (ec, sent)

module _ ⦃d : Double⦄ ⦃net : Net⦄ where
  unfoldable pub handle_add_cgroup_to_ec :
      World → ℕ → Msg → Msg → ℕ → ℕ → Manager → Outcome (Manager × Msg × ℕ)
  handle_add_cgroup_to_ec world now req res ip fd m =
      let (cpu, quota, update) = determine_quota_for_new_pod req.rsrc_amnt m.ec.cpu in
      let sc = init now req.cgroup_id ip fd quota req.request in
      let (p, created) = create_new_sc sc (record (m.ec) { cpu = cpu }) in
      let agent = get_agent_client_by_ip sc.c_id.server_ip m.agents in
      do
        inserted ← insert_sc p created
        let linked = link p sc agent (update_fair_cpu_share inserted)
        r ← tell_agent world update linked.1 quota linked.0 m.sent
        ok (
          record m { ec = r.0; sent = r.1 },
          record res { request = add32 res.request 1 },
          alloc_init,
        )

  unfoldable pub handle_req : World → ℕ → Msg → Msg → ℕ → ℕ → Manager → Outcome (Manager × Msg × ℕ)
  handle_req world now req res host_ip clifd m =
      if req.req_type == mem_type
      then (do r ← handle_mem_req world req res clifd m.ec; ok (record m { ec = r.0 }, r.1, r.2))
      else if req.req_type == cpu_type
      then handle_cpu_usage_report world now req res m
      else if req.req_type == init_type
      then handle_add_cgroup_to_ec world now req res host_ip clifd m
      else ok (m, res, failed)
