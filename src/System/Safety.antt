-- ===== src/System/Safety.antt =====
-- No handler, in any state that a system comes to, follows a bad pointer.
use ec_gcm.Common.{
  ℕ, ◌≡◌, ◌≢◌, ◌↔◌, ◌==◌, refl, some, none, Option, String, if_cases, fault, List, Option-cases,
  inl, inr, Safe, >>=-Safe, or_fault-Safe, Safe-fault,
}
use ec_gcm.Common.Map.{contains}
use ec_gcm.Platform.{Double, Net, World}
use ec_gcm.AgentClientDb.{AgentClientDb, get_agent_client_by_ip}
use ec_gcm.SubContainer.{ContainerId}
use ec_gcm.SubContainer.Identity.{container_key}
use ec_gcm.ElasticContainer.{ElasticContainer, get_sc_for_update_back, get_subcontainer_front}
use ec_gcm.ElasticContainer.Invariant.{IsValid}
use ec_gcm.ElasticContainer.Safety.{Live, get_sc_for_update_back-Safe, get_subcontainer_front-Safe}
use ec_gcm.EcApi.{QuotaCall, set_sc_quota_syscall, determine_quota_for_new_pod}
use ec_gcm.EcApi.Safety.{set_sc_quota_syscall-Safe}
use ec_gcm.Msg.{Msg, copy, zeroed, cpu_type, mem_type, init_type}
use ec_gcm.Manager.{Manager}
use ec_gcm.Manager.Admission.{new_pod_seq, link, tell_agent, handle_add_cgroup_to_ec, handle_req}
use ec_gcm.Manager.Admission.Laws.{newcomer, admitted, new_quota, handle_add_cgroup_lem}
use ec_gcm.Manager.Idle.{check_for_idle_containers}
use ec_gcm.Manager.Memory.{handle_mem_req, periodic_reclaim, determine_mem_limit_for_new_pod}
use ec_gcm.Manager.Memory.Safety.{
  handle_mem_req-Safe, periodic_reclaim-Safe, determine_mem_limit_for_new_pod-Safe,
}
use ec_gcm.Manager.Report.Safety.{handle_cpu_usage_report-Safe, check_for_idle_containers-Safe}
use ec_gcm.Server.{stamp, stamp_host, handle_client_req_tcp, handle_client_reqs_udp}
use ec_gcm.Deployer.{
  Deployer, Reply, get_sc_id_from_docker_id, insert_pod_spec, match_docker_id, report_pod_spec,
  delete_known, delete_pod, docker_key,
}
use ec_gcm.System.{System, Reaches, started, deployer}
use ec_gcm.System.Invariant.{Reaches-IsWellFormed}

module _ ⦃d : Double⦄ ⦃net : Net⦄ where
  abbrev AnyResult : Manager × Msg × ℕ → Type 0
  AnyResult r = Unit

  handle_add_cgroup_to_ec-Safe :
      (world : World) (now : ℕ) (req res : Msg) (ip fd : ℕ) (m : Manager)
      → Safe AnyResult (handle_add_cgroup_to_ec world now req res ip fd m)
  unfolding tell_agent
  handle_add_cgroup_to_ec-Safe world now req res ip fd m =
      let client = get_agent_client_by_ip (net.from_net ip) m.agents in
      let linked = link m.ec.next_sc (newcomer now req ip fd m) client (admitted now req ip fd m) in
      let update = (determine_quota_for_new_pod req.rsrc_amnt m.ec.cpu).2 in
      let call =
        set_sc_quota_syscall world linked.1 (new_quota req m) new_pod_seq linked.0 m.sent in
      rw (handle_add_cgroup_lem world now req res ip fd m) (
        >>=-Safe (λ (r : ElasticContainer × List QuotaCall). Unit) AnyResult
          (tell_agent world update linked.1 (new_quota req m) linked.0 m.sent) _
          (if_cases (Safe (λ (r : ElasticContainer × List QuotaCall). Unit)) update
            (λ _.
              >>=-Safe (λ (r : ElasticContainer × List QuotaCall × ℕ). Unit)
                (λ (r : ElasticContainer × List QuotaCall). Unit) call _
                (set_sc_quota_syscall-Safe world linked.1 (new_quota req m) new_pod_seq linked.0
                  m.sent)
                (λ r u. tt))
            (λ _. tt))
          (λ r u. tt))

  handle_req-Safe :
      (world : World) (now : ℕ) (req res : Msg) (ip fd : ℕ) (m : Manager)
      → IsValid m.ec
      → Safe AnyResult (handle_req world now req res ip fd m)
  unfolding handle_req
  handle_req-Safe world now req res ip fd m v =
      if_cases (Safe AnyResult) (req.req_type == mem_type)
        (λ _.
          >>=-Safe (λ (r : ElasticContainer × Msg × ℕ). Unit) AnyResult
            (handle_mem_req world req res fd m.ec) _ (handle_mem_req-Safe world req res fd m.ec v)
            (λ r u. tt))
        (λ _.
          if_cases (Safe AnyResult) (req.req_type == cpu_type)
            (λ _. handle_cpu_usage_report-Safe world now req res m v)
            (λ _.
              if_cases (Safe AnyResult) (req.req_type == init_type)
                (λ _. handle_add_cgroup_to_ec-Safe world now req res ip fd m) (λ _. tt)))

  abbrev AnyWritten : Manager × Option Msg → Type 0
  AnyWritten r = Unit

  handle_client_req_tcp-Safe :
      (world : World) (now garbage : ℕ) (received : Msg) (ip fd : ℕ) (m : Manager)
      → IsValid m.ec
      → Safe AnyWritten (handle_client_req_tcp world now garbage received ip fd m)
  unfolding handle_client_req_tcp
  handle_client_req_tcp-Safe world now garbage received ip fd m v =
      let req = stamp ip received in
      >>=-Safe AnyResult AnyWritten
        (handle_req world now req (copy garbage req) (net.to_uint32 (net.from_net ip)) fd m) _
        (handle_req-Safe world now req (copy garbage req) (net.to_uint32 (net.from_net ip)) fd m v)
        (λ r u. tt)

  handle_client_reqs_udp-Safe :
      (world : World) (now garbage : ℕ) (received : Option Msg) (ip fd : ℕ) (m : Manager)
      → IsValid m.ec
      → Safe AnyWritten (handle_client_reqs_udp world now garbage received ip fd m)
  unfolding handle_client_reqs_udp
  handle_client_reqs_udp-Safe world now garbage received ip fd m v =
      let req = stamp_host (elim received [ none ↦ zeroed | some msg ↦ msg ]) in
      >>=-Safe AnyResult AnyWritten
        (handle_req world now req (copy garbage req) (net.to_uint32 (net.from_net ip)) fd m) _
        (handle_req-Safe world now req (copy garbage req) (net.to_uint32 (net.from_net ip)) fd m v)
        (λ r u. tt)

  abbrev AnyReply : Deployer × Reply → Type 0
  AnyReply r = Unit

  report_pod_spec-Safe :
      (id : ContainerId) (docker_id : String) (d : Deployer)
      → IsValid d.ec
      → Safe AnyReply (report_pod_spec id docker_id d)
  unfolding report_pod_spec insert_pod_spec match_docker_id
  report_pod_spec-Safe id docker_id d v =
      if_cases (Safe AnyReply) (contains docker_id d.docker_to_subcontainer) (λ _. tt)
        (λ _.
          >>=-Safe (λ (ec : ElasticContainer). Unit) AnyReply (match_docker_id id docker_id d.ec) _
            (if_cases (Safe (λ (ec : ElasticContainer). Unit)) (contains id d.ec.sc_ac_map)
              (λ _.
                >>=-Safe (Live d.ec) (λ (ec : ElasticContainer). Unit)
                  (get_sc_for_update_back id d.ec) _ (get_sc_for_update_back-Safe id d.ec v)
                  (λ p (sc, e).
                    or_fault-Safe (λ (ec : ElasticContainer). Unit) (d.ec.heap p) sc _ e tt))
              (λ _. tt))
            (λ ec u. tt))

  delete_pod-Safe :
      (docker_id : String) (d : Deployer) → IsValid d.ec → Safe AnyReply (delete_pod docker_id d)
  unfolding delete_pod delete_known
  delete_pod-Safe docker_id d v = elim (Option-cases (get_sc_id_from_docker_id docker_id d)) [
    | inl e ↦ rw (e, delete_pod) tt
    | inr (id, e) ↦
        rw (e, delete_pod)
          (if_cases (Safe AnyReply) (id.cgroup_id == 0) (λ _. tt)
            (λ _.
              >>=-Safe (Live d.ec) AnyReply (get_subcontainer_front id d.ec) _
                (get_subcontainer_front-Safe id d.ec v)
                (λ p (sc, e). or_fault-Safe AnyReply (d.ec.heap p) sc _ e tt)))
  ]

  -- In every state that a system comes to from its start, by whatever messages, rounds and calls: no
  -- message over TCP or UDP, whatever it holds and whoever sends it, follows a null or dangling
  -- pointer to a container or reads an end of an empty queue, and neither does a round over the
  -- idle containers, a round of reclaiming, or the announcement or the deletion of a pod.
  pub Reaches-faultless :
      (ec_id : ℕ) (agents : AgentClientDb) (s : System)
      → Reaches (started ec_id agents) s
      → ((world : World) (now garbage : ℕ) (received : Msg) (ip fd : ℕ)
          → handle_client_req_tcp world now garbage received ip fd s.manager ≢ fault)
        × ((world : World) (now garbage : ℕ) (received : Option Msg) (ip fd : ℕ)
            → handle_client_reqs_udp world now garbage received ip fd s.manager ≢ fault)
        × ((world : World) (now seq : ℕ)
            → check_for_idle_containers world now seq s.manager ≢ fault)
        × ((world : World) → periodic_reclaim world s.manager.ec ≢ fault)
        × ((id : ContainerId) (docker_id : String)
            → report_pod_spec id docker_id (deployer s) ≢ fault)
        × ((docker_id : String) → delete_pod docker_id (deployer s) ≢ fault)
  Reaches-faultless ec_id agents s r =
      let v = (Reaches-IsWellFormed ec_id agents s r).valid in
      (
        (λ world now garbage received ip fd.
            Safe-fault AnyWritten (handle_client_req_tcp world now garbage received ip fd s.manager)
              (handle_client_req_tcp-Safe world now garbage received ip fd s.manager v)),
        (λ world now garbage received ip fd.
            Safe-fault AnyWritten
              (handle_client_reqs_udp world now garbage received ip fd s.manager)
              (handle_client_reqs_udp-Safe world now garbage received ip fd s.manager v)),
        (λ world now seq.
            Safe-fault (λ (r : Manager × ℕ). Unit)
              (check_for_idle_containers world now seq s.manager)
              (check_for_idle_containers-Safe world now seq s.manager v)),
        (λ world.
            Safe-fault (λ (t : ElasticContainer). Unit) (periodic_reclaim world s.manager.ec)
              (periodic_reclaim-Safe world s.manager.ec v)),
        (λ id docker_id.
            Safe-fault AnyReply (report_pod_spec id docker_id (deployer s))
              (report_pod_spec-Safe id docker_id (deployer s) v)),
        (λ docker_id.
            Safe-fault AnyReply (delete_pod docker_id (deployer s))
              (delete_pod-Safe docker_id (deployer s) v)),
      )

  -- In every state that a system comes to from its start: the thread that sets the memory limit of a
  -- new container follows a dangling pointer exactly when the object that it was started for was
  -- freed before.
  pub Reaches-faultless_thread :
      (ec_id : ℕ) (agents : AgentClientDb) (s : System) (world : World) (p fd : ℕ)
      → Reaches (started ec_id agents) s
      → (determine_mem_limit_for_new_pod world p fd s.manager.ec ≡ fault)
        ↔ (s.manager.ec.heap p ≡ none)
  unfolding determine_mem_limit_for_new_pod
  Reaches-faultless_thread ec_id agents s world p fd r =
      let v = (Reaches-IsWellFormed ec_id agents s r).valid in
      (
        (λ e. elim (Option-cases (s.manager.ec.heap p)) [
          | inl gone ↦ gone
          | inr (sc, live) ↦ absurd (
              Safe-fault (λ (t : ElasticContainer). Unit)
                (determine_mem_limit_for_new_pod world p fd s.manager.ec)
                (determine_mem_limit_for_new_pod-Safe world p fd s.manager.ec v (sc, live)) e)
        ]),
        (λ gone. rw gone refl),
      )
