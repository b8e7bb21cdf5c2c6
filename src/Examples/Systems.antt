-- ===== src/Examples/Systems.antt =====
-- The theorems on the whole system and on start-up, at concrete values.
use ec_gcm.Common.{
  ℕ, ◌-◌, ◌^◌, ◌≡◌, ◌≢◌, ◌↔◌, refl, arith, true, false, none, Option, List, [], ◌∷◌, ok, exited,
  hung, fault, String, inr, map,
}
use ec_gcm.Common.Map.{find, contains, insert}
use ec_gcm.Platform.{World}
use ec_gcm.AgentClientDb.{
  AgentClientDb, init_agent_connections, connect, add_agent_client, get_agent_client_by_ip,
}
use ec_gcm.SubContainer.{ContainerId}
use ec_gcm.SubContainer.Identity.{container_key}
use ec_gcm.EcApi.{determine_quota_for_new_pod}
use ec_gcm.Manager.Admission.{handle_req, handle_add_cgroup_to_ec, link, tell_agent}
use ec_gcm.Stats.GlobalCpu.{set_total_cpu, set_unallocated_rt}
use ec_gcm.ElasticContainer.{init, create_new_sc, insert_sc}
use ec_gcm.ElasticContainer.Evolution.{IsWellFormed}
use ec_gcm.Msg.{Msg}
use ec_gcm.Manager.{Manager}
use ec_gcm.Manager.Idle.{check_for_idle_containers}
use ec_gcm.Manager.Memory.{periodic_reclaim, determine_mem_limit_for_new_pod}
use ec_gcm.Server.{stamp, handle_client_req_tcp, handle_client_reqs_udp}
use ec_gcm.Server.Startup.{SocketCalls, Round}
use ec_gcm.Deployer.{report_app_spec, report_pod_spec, delete_pod}
use ec_gcm.Json.Config.{Config}
use ec_gcm.Startup.{main}
use ec_gcm.Startup.Laws.{IsStarted, main-IsStarted}
use ec_gcm.System.{System, Step, Reaches, started, with_ec, deployer}
use ec_gcm.System.Invariant.{Reaches-IsWellFormed}
use ec_gcm.System.Safety.{Reaches-faultless, Reaches-faultless_thread}
use ec_gcm.Examples.{plain_net, thousandths, willing, client}

-- The container 9 starts on the node 1 and asks for 20 ms.
abbrev pub hello : Msg
hello = record {
  client_ip = 1;
  cgroup_id = 9;
  req_type = 2;
  rsrc_amnt = 20_000_000;
  request = 0;
  runtime_remaining = 0;
  cpustat_seq_num = 0;
  sock_addr = 0;
}

abbrev db : AgentClientDb
db = (1, client) ∷ []

-- The application is announced, with a core and 400 MiB, and the container 9 starts.
abbrev announced : System
announced = with_ec (report_app_spec 1000 400 (init 1)) (started 1 db)

abbrev after_hello : Manager
after_hello = elim (handle_client_req_tcp willing 1000 77 hello 1 30 announced.manager) [
  | ok r ↦ r.0
  | exited ↦ announced.manager
  | hung ↦ announced.manager
  | fault ↦ announced.manager
]

abbrev running : System
running = record announced { manager = after_hello }

hello_written : Option Msg
hello_written = elim (handle_client_req_tcp willing 1000 77 hello 1 30 announced.manager) [
  | ok r ↦ r.1
  | exited ↦ none
  | hung ↦ none
  | fault ↦ none
]

hello_handled :
    handle_client_req_tcp willing 1000 77 hello 1 30 announced.manager
    ≡ ok (after_hello, hello_written)
unfolding hello_written handle_client_req_tcp handle_req handle_add_cgroup_to_ec
    determine_quota_for_new_pod create_new_sc insert_sc link tell_agent report_app_spec
    set_total_cpu set_unallocated_rt get_agent_client_by_ip find stamp init
hello_handled = refl

running-Reaches : Reaches (started 1 db) running
running-Reaches =
    Reaches.goes (Reaches.goes Reaches.stays (Step.app_announced 1000 400))
      (Step.tcp_message willing 1000 77 hello 1 30 after_hello hello_written hello_handled)

Reaches-IsWellFormed_example : IsWellFormed running.manager.ec
Reaches-IsWellFormed_example = Reaches-IsWellFormed 1 db running running-Reaches

Reaches-faultless_example :
    ((world : World) (now garbage : ℕ) (received : Msg) (ip fd : ℕ)
      → handle_client_req_tcp world now garbage received ip fd running.manager ≢ fault)
    × ((world : World) (now garbage : ℕ) (received : Option Msg) (ip fd : ℕ)
        → handle_client_reqs_udp world now garbage received ip fd running.manager ≢ fault)
    × ((world : World) (now seq : ℕ)
        → check_for_idle_containers world now seq running.manager ≢ fault)
    × ((world : World) → periodic_reclaim world running.manager.ec ≢ fault)
    × ((id : ContainerId) (docker_id : String)
        → report_pod_spec id docker_id (deployer running) ≢ fault)
    × ((docker_id : String) → delete_pod docker_id (deployer running) ≢ fault)
Reaches-faultless_example = Reaches-faultless 1 db running running-Reaches

Reaches-faultless_thread_example :
    (determine_mem_limit_for_new_pod willing 0 30 running.manager.ec ≡ fault)
    ↔ (running.manager.ec.heap 0 ≡ none)
Reaches-faultless_thread_example =
    Reaches-faultless_thread 1 db running willing 0 30 running-Reaches

-- Socket calls that succeed, with the sockets 5 and 6.
abbrev calls : ℕ → SocketCalls
calls fd = record { socket = fd; setsockopt = 0; bind = 0; listen = 0 }

abbrev rounds : List Round
rounds = record { ready = true; accepted = 9 } ∷ record { ready = true; accepted = 2 ^ 32 - 1 } ∷ []

abbrev two_tenants : Config
two_tenants = record {
  app_name = "shop";
  agent_ips = "10.0.0.1" ∷ [];
  gcm_ip = "10.0.0.9";
  num_tenants = 2;
  num_containers = 3;
}

one_connected :
    (init_agent_connections (map plain_net.from_string two_tenants.agent_ips) []).1 ≡ true
unfolding init_agent_connections connect add_agent_client contains insert
one_connected = refl

main-IsStarted_example :
    IsStarted (λ _. (calls 5, calls 6)) 2 1 (main (λ _. (calls 5, calls 6)) (two_tenants, false))
main-IsStarted_example =
    main-IsStarted (λ _. (calls 5, calls 6)) two_tenants 1 (λ p. refl) one_connected
      (inr (omega arith))
