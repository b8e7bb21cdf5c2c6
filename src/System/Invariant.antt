-- ===== src/System/Invariant.antt =====
-- Every state that a system comes to is well-formed, whatever its messages, rounds and calls.
use ec_gcm.Common.{ℕ, some, none, Option, Whenever, Whenever-ok, >>=-Whenever}
use ec_gcm.Platform.{Double, Net, World}
use ec_gcm.AgentClientDb.{AgentClientDb}
use ec_gcm.ElasticContainer.{init}
use ec_gcm.ElasticContainer.Invariant.{init-IsValid}
use ec_gcm.ElasticContainer.Evolution.{Evolves, Evolves-IsWellFormed, IsWellFormed}
use ec_gcm.Msg.{Msg, copy, zeroed}
use ec_gcm.Manager.{Manager}
use ec_gcm.Manager.Admission.{handle_req}
use ec_gcm.Manager.Admission.Evolution.{LeavesWellFormed, handle_req-IsWellFormed}
use ec_gcm.Manager.Idle.{check_for_idle_containers}
use ec_gcm.Manager.Memory.{periodic_reclaim, determine_mem_limit_for_new_pod}
use ec_gcm.Manager.Memory.Evolution.{
  periodic_reclaim-Evolves, determine_mem_limit_for_new_pod-Evolves,
}
use ec_gcm.Manager.Report.Evolution.{check_for_idle_containers-Evolves}
use ec_gcm.Server.{stamp, stamp_host, handle_client_req_tcp, handle_client_reqs_udp}
use ec_gcm.Deployer.{report_pod_spec, delete_pod}
use ec_gcm.Deployer.Evolution.{
  Replies, report_app_spec-Evolves, report_pod_spec-IsWellFormed, delete_pod-IsWellFormed,
}
use ec_gcm.System.{System, Step, Reaches, started, deployer}

module _ ⦃d : Double⦄ ⦃net : Net⦄ where
  abbrev ServesOn : Manager × Option Msg → Type 0
  ServesOn r = IsWellFormed r.0.ec

  handle_client_req_tcp-IsWellFormed :
      (world : World) (now garbage : ℕ) (received : Msg) (ip fd : ℕ) (m : Manager)
      → IsWellFormed m.ec
      → Whenever ServesOn (handle_client_req_tcp world now garbage received ip fd m)
  unfolding handle_client_req_tcp
  handle_client_req_tcp-IsWellFormed world now garbage received ip fd m f =
      let req = stamp ip received in
      >>=-Whenever LeavesWellFormed ServesOn
        (handle_req world now req (copy garbage req) (net.to_uint32 (net.from_net ip)) fd m) _
        (handle_req-IsWellFormed world now req (copy garbage req) (net.to_uint32 (net.from_net ip))
          fd m f)
        (λ r g. g)

  handle_client_reqs_udp-IsWellFormed :
      (world : World) (now garbage : ℕ) (received : Option Msg) (ip fd : ℕ) (m : Manager)
      → IsWellFormed m.ec
      → Whenever ServesOn (handle_client_reqs_udp world now garbage received ip fd m)
  unfolding handle_client_reqs_udp
  handle_client_reqs_udp-IsWellFormed world now garbage received ip fd m f =
      let req = stamp_host (elim received [ none ↦ zeroed | some msg ↦ msg ]) in
      >>=-Whenever LeavesWellFormed ServesOn
        (handle_req world now req (copy garbage req) (net.to_uint32 (net.from_net ip)) fd m) _
        (handle_req-IsWellFormed world now req (copy garbage req) (net.to_uint32 (net.from_net ip))
          fd m f)
        (λ r g. g)

  pub init-IsWellFormed : (ec_id : ℕ) → IsWellFormed (init ec_id)
  unfolding init
  init-IsWellFormed ec_id = record { valid = init-IsValid ec_id; windows = λ p sc e. absurd (cc) }

  pub Step-IsWellFormed :
      (s t : System) → Step s t → IsWellFormed s.manager.ec → IsWellFormed t.manager.ec
  Step-IsWellFormed s t (Step.tcp_message world now garbage received ip fd m written e) f =
      Whenever-ok ServesOn (handle_client_req_tcp world now garbage received ip fd s.manager)
        (handle_client_req_tcp-IsWellFormed world now garbage received ip fd s.manager f) e
  Step-IsWellFormed s t (Step.udp_message world now garbage received ip fd m written e) f =
      Whenever-ok ServesOn (handle_client_reqs_udp world now garbage received ip fd s.manager)
        (handle_client_reqs_udp-IsWellFormed world now garbage received ip fd s.manager f) e
  Step-IsWellFormed s t (Step.new_pod_memory world p fd ec e) f =
      Evolves-IsWellFormed s.manager.ec ec
        (Whenever-ok (Evolves s.manager.ec)
          (determine_mem_limit_for_new_pod world p fd s.manager.ec)
          (determine_mem_limit_for_new_pod-Evolves world p fd s.manager.ec) e)
        f
  Step-IsWellFormed s t (Step.idle_round world now seq m seq' e) f =
      Evolves-IsWellFormed s.manager.ec m.ec
        (Whenever-ok (λ (r : Manager × ℕ). Evolves s.manager.ec r.0.ec)
          (check_for_idle_containers world now seq s.manager)
          (check_for_idle_containers-Evolves world now seq s.manager) e)
        f
  Step-IsWellFormed s t (Step.reclaim_round world ec e) f =
      Evolves-IsWellFormed s.manager.ec ec
        (Whenever-ok (Evolves s.manager.ec) (periodic_reclaim world s.manager.ec)
          (periodic_reclaim-Evolves world s.manager.ec) e)
        f
  Step-IsWellFormed s t (Step.app_announced cpu_limit mem_limit) f =
      Evolves-IsWellFormed s.manager.ec t.manager.ec
        (report_app_spec-Evolves cpu_limit mem_limit s.manager.ec) f
  Step-IsWellFormed s t (Step.pod_announced id docker_id d' reply e) f =
      Whenever-ok Replies (report_pod_spec id docker_id (deployer s))
        (report_pod_spec-IsWellFormed id docker_id (deployer s) f) e
  Step-IsWellFormed s t (Step.pod_deleted docker_id d' reply e) f =
      Whenever-ok Replies (delete_pod docker_id (deployer s))
        (delete_pod-IsWellFormed docker_id (deployer s) f) e

  -- Whatever messages arrive, rounds run and calls come in, in whatever order and with whatever
  -- answers of the agents: every state that a system comes to from its start is well-formed. The
  -- queues of its containers are not empty and hold live objects, each once and under its own id,
  -- and the windows of every object have their length.
  pub Reaches-IsWellFormed :
      (ec_id : ℕ) (agents : AgentClientDb) (s : System)
      → Reaches (started ec_id agents) s
      → IsWellFormed s.manager.ec
  Reaches-IsWellFormed ec_id agents s Reaches.stays = init-IsWellFormed ec_id
  Reaches-IsWellFormed ec_id agents s (Reaches.goes {t} r step) =
      Step-IsWellFormed t s step (Reaches-IsWellFormed ec_id agents t r)
