-- ===== src/Server/Udp.antt =====
-- The messages that come over UDP, next to the same ones over TCP (Server.cpp).
use ec_gcm.Common.{
  ℕ, ◌≡◌, refl, true, false, none, some, arith, ◌==◌, ok, exited, Returns, >>=-Returns,
}
use ec_gcm.Common.Map.{find}
use ec_gcm.Platform.{Double, Net, World}
use ec_gcm.Agents.{AgentClient}
use ec_gcm.AgentClientDb.{get_agent_client_by_ip}
use ec_gcm.SubContainer.{container_id, init}
use ec_gcm.SubContainer.Identity.{container_key}
use ec_gcm.ElasticContainer.{get_sc_for_update_back}
use ec_gcm.ElasticContainer.Invariant.{IsValid}
use ec_gcm.Msg.{Msg, copy, init_type, mem_type, cpu_type}
use ec_gcm.Manager.{Manager}
use ec_gcm.Manager.Admission.{handle_add_cgroup_to_ec, handle_req}
use ec_gcm.Manager.Admission.Laws.{IsAdmitted, newcomer, admission-IsAdmitted}
use ec_gcm.Manager.Report.{handle_cpu_usage_report}
use ec_gcm.Server.{
  answer, udp_answer, stamp, stamp_host, handle_client_req_tcp, handle_client_reqs_udp,
}

module _ ⦃d : Double⦄ ⦃net : Net⦄ where
  -- A read from the UDP socket that fails, while there is no container with group 0 on the node whose
  -- address is made from a word of zeroes: the program is left. The zeroes of the buffer are handled
  -- as a CPU report of that container.
  pub udp_failed_read_exits :
      (world : World) (now garbage client_ip client_fd : ℕ) (m : Manager)
      → find (container_id 0 (net.from_host (net.to_uint32 0))) m.ec.subcontainers ≡ none
      → handle_client_reqs_udp world now garbage none client_ip client_fd m ≡ exited
  unfolding handle_client_reqs_udp handle_req handle_cpu_usage_report stamp_host
      get_sc_for_update_back
  udp_failed_read_exits world now garbage client_ip client_fd m e = rw e refl

  -- The announcement of a container, from a node with the client `ac`, in a valid application
  -- without a client for the container, is taken over both sockets: over TCP it is answered,
  -- and over UDP nothing is sent back, though the container is admitted.
  pub init_answered_over_tcp_only :
      (world : World) (now garbage : ℕ) (received : Msg) (client_ip client_fd : ℕ) (m : Manager)
      (ac : AgentClient)
      → received.req_type ≡ init_type
      → IsValid m.ec
      → get_agent_client_by_ip (net.from_net (net.to_uint32 (net.from_net client_ip))) m.agents
        ≡ some ac
      → find
          (container_id received.cgroup_id (net.from_net (net.to_uint32 (net.from_net client_ip))))
          m.ec.sc_ac_map
        ≡ none
      → Returns
          (λ out. (res : Msg) × (out.1 ≡ some res))
          (handle_client_req_tcp world now garbage received client_ip client_fd m)
        × Returns
            (λ out.
              (out.1 ≡ none)
              × (get_sc_for_update_back
                    (container_id received.cgroup_id
                      (net.from_net (net.to_uint32 (net.from_net client_ip))))
                    out.0.ec
                  ≡ ok m.ec.next_sc))
            (handle_client_reqs_udp world now garbage (some received) client_ip client_fd m)
  unfolding handle_client_req_tcp handle_client_reqs_udp handle_req stamp stamp_host answer
      udp_answer copy init
  init_answered_over_tcp_only world now garbage received client_ip client_fd m ac t v a n =
      let not_mem : (received.req_type == mem_type) ≡ false = ground arith in
      let not_cpu : (received.req_type == cpu_type) ≡ false = ground arith in
      let is_init : (received.req_type == init_type) ≡ true = ground arith in
      let ip = net.to_uint32 (net.from_net client_ip) in
      let tcp = stamp client_ip received in
      let udp = stamp_host received in
      (
        rw not_mem (
            rw not_cpu (
              rw is_init (
                >>=-Returns (IsAdmitted ac tcp m (newcomer now tcp ip client_fd m)) _
                  (handle_add_cgroup_to_ec world now tcp (copy garbage tcp) ip client_fd m) _
                  (admission-IsAdmitted world now tcp (copy garbage tcp) ip client_fd m ac v a n)
                  (λ r f. (r.1, rw (f.code_eq) refl))))),
        rw not_mem (
            rw not_cpu (
              rw is_init (
                >>=-Returns (IsAdmitted ac udp m (newcomer now udp ip client_fd m)) _
                  (handle_add_cgroup_to_ec world now udp (copy garbage udp) ip client_fd m) _
                  (admission-IsAdmitted world now udp (copy garbage udp) ip client_fd m ac v a n)
                  (λ r f. (ground (arith, f.code_eq), f.found))))),
      )
