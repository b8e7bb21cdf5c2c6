-- ===== src/Server/Datagrams.antt =====
-- `serve_udp` of Server.cpp. It handles each datagram itself, in its loop, and under the address of its
-- own socket, which `recvfrom` does not write.
use ec_gcm.Common.{
  ℕ, ◌≡◌, refl, ◌≤◌, ◌<◌, ◌==◌, Bool, true, false, Option, none, some, List, [], ◌∷◌, if◌then◌else◌,
  arith, Outcome, ok, hung, ◌>>=◌, >>=-eta, add32,
}
use ec_gcm.Stats.GlobalCpu.{GlobalCpu}
use ec_gcm.Platform.{Double, Net, World}
use ec_gcm.AgentClientDb.{get_agent_client_by_ip}
use ec_gcm.ElasticContainer.{update_fair_cpu_share}
use ec_gcm.EcApi.{determine_quota_for_new_pod}
use ec_gcm.Msg.{Msg, alloc_init, copy, init_type, mem_type, cpu_type}
use ec_gcm.Manager.{Manager}
use ec_gcm.Manager.Admission.{handle_add_cgroup_to_ec, handle_req, link, tell_agent}
use ec_gcm.Manager.Admission.Laws.{admission_without_agent_hangs, handle_add_cgroup_lem, admitted}
use ec_gcm.Server.{udp_answer, stamp_host, handle_client_reqs_udp}
use ec_gcm.Server.Startup.{Listener, serve_guard}
use ec_gcm.Server.Connections.{inaddr_any}

-- One round of the loop: whether the socket is ready, what is read from it then, and what the world
-- answers meanwhile.
pub record Datagram : Type 0 where
  pub ready : Bool
  pub world : World
  pub now : ℕ
  pub garbage : ℕ
  pub received : Option Msg

-- What is sent back, before what follows.
abbrev sending : Option Msg → List Msg → List Msg
sending none later = later
sending (some res) later = res ∷ later

not_told :
    (req_quota : ℕ) (c : GlobalCpu)
    → req_quota ≤ c.unallocated_rt
    → (determine_quota_for_new_pod req_quota c).2 ≡ false
unfolding determine_quota_for_new_pod
not_told req_quota c h = ground arith

module _ ⦃d : Double⦄ ⦃net : Net⦄ where
  unfoldable pub serve_datagrams : List Datagram → ℕ → Manager → Outcome (Manager × List Msg)
  serve_datagrams [] sock_fd m = ok (m, [])
  serve_datagrams (x ∷ xs) sock_fd m = do
    r ←
        if x.ready
        then handle_client_reqs_udp x.world x.now x.garbage x.received inaddr_any sock_fd m
        else ok (m, none)
    s ← serve_datagrams xs sock_fd r.0
    ok (s.0, sending r.1 s.1)

  unfoldable pub serve_udp : List Datagram → Listener → Manager → Outcome (Manager × List Msg)
  serve_udp xs s m = do t ← serve_guard s; serve_datagrams xs t.udp_fd m

  -- The address under which a container is known that announces itself over UDP.
  abbrev pub udp_host : ℕ
  udp_host = net.from_net (net.to_uint32 (net.from_net inaddr_any))

  -- The agent is not told where the pool holds what is asked for.
  admission_unlinked :
      (world : World) (now : ℕ) (req res : Msg) (ip fd : ℕ) (m : Manager)
      → get_agent_client_by_ip (net.from_net ip) m.agents ≡ none
      → req.rsrc_amnt ≤ m.ec.cpu.unallocated_rt
      → handle_add_cgroup_to_ec world now req res ip fd m
        ≡ ok (
          record m { ec = admitted now req ip fd m },
          record res { request = add32 res.request 1 },
          alloc_init,
        )
  unfolding link tell_agent
  admission_unlinked world now req res ip fd m a h =
      let untold : (determine_quota_for_new_pod req.rsrc_amnt m.ec.cpu).2 ≡ false =
        not_told req.rsrc_amnt m.ec.cpu h in
      rw (handle_add_cgroup_lem world now req res ip fd m) (rw a (rw untold refl))

  init_unanswered : (res : Msg) → udp_answer res alloc_init ≡ none
  unfolding udp_answer
  init_unanswered res = ground arith

  -- A datagram that announces a container, with no agent on record for the address 0.0.0.0, which is
  -- taken for that of the container's node. If the container asks for more than the pool holds, the
  -- loop never ends, whatever datagrams follow: no other one is handled. Else the container
  -- is added to the application, the table of clients stays as it is, nothing is sent back, and
  -- the datagrams that follow are handled.
  pub udp_announcement_unlinked :
      (x : Datagram) (xs : List Datagram) (received : Msg) (s : Listener) (m : Manager)
      → s.server_initialized ≡ 2
      → x.ready ≡ true
      → x.received ≡ some received
      → received.req_type ≡ init_type
      → get_agent_client_by_ip udp_host m.agents ≡ none
      → (m.ec.cpu.unallocated_rt < received.rsrc_amnt → serve_udp (x ∷ xs) s m ≡ hung)
        × (received.rsrc_amnt ≤ m.ec.cpu.unallocated_rt
            → (after : Manager) × (after.ec
                ≡ admitted x.now
                    (stamp_host received)
                    (net.to_uint32 (net.from_net inaddr_any))
                    s.udp_fd
                    m)
              × (after.ec.sc_ac_map ≡ m.ec.sc_ac_map)
              × (serve_udp (x ∷ xs) s m ≡ serve_datagrams xs s.udp_fd after))
  unfolding serve_udp serve_guard serve_datagrams handle_client_reqs_udp handle_req stamp_host
      update_fair_cpu_share
  udp_announcement_unlinked x xs received s m i r e t a =
      let not_mem : (received.req_type == mem_type) ≡ false = ground arith in
      let not_cpu : (received.req_type == cpu_type) ≡ false = ground arith in
      let is_init : (received.req_type == init_type) ≡ true = ground arith in
      let up : (s.server_initialized == 2) ≡ true = ground arith in
      let req = stamp_host received in
      let ip = net.to_uint32 (net.from_net inaddr_any) in
      (
        λ h. rw up (
            rw r (
              rw e (
                rw not_mem (
                  rw not_cpu (
                    rw is_init (
                      rw
                        (admission_without_agent_hangs x.world x.now req (copy x.garbage req) ip
                          s.udp_fd m a h)
                        refl)))))),
        λ h. (
          record m { ec = admitted x.now req ip s.udp_fd m },
          refl,
          refl,
          rw up (
              rw r (
                rw e (
                  rw not_mem (
                    rw not_cpu (
                      rw is_init (
                        rw
                          (admission_unlinked x.world x.now req (copy x.garbage req) ip s.udp_fd m a
                            h)
                          (rw (init_unanswered _) (>>=-eta _)))))))),
        ),
      )
