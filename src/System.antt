-- ===== src/System.antt =====
-- A manager with its deployer service, as one system: its steps are the messages of containers, the
-- rounds of its threads, and the calls of the deployer (Manager.cpp, Server.cpp and
-- DeployServerGRPC/DeployerExportServiceImpl.cpp). A step is one handler from its start to its end.
pub mod Invariant
pub mod Safety
use ec_gcm.Common.{ℕ, ◌≡◌, String, List, [], Option, Outcome, ok}
use ec_gcm.Platform.{Double, Net, World}
use ec_gcm.AgentClientDb.{AgentClientDb}
use ec_gcm.SubContainer.{ContainerId}
use ec_gcm.ElasticContainer.{ElasticContainer, init}
use ec_gcm.Msg.{Msg}
use ec_gcm.Manager.{Manager}
use ec_gcm.Manager.Idle.{check_for_idle_containers}
use ec_gcm.Manager.Memory.{periodic_reclaim, determine_mem_limit_for_new_pod}
use ec_gcm.Server.{handle_client_req_tcp, handle_client_reqs_udp}
use ec_gcm.Deployer.{Deployer, Reply, report_app_spec, report_pod_spec, delete_pod}

-- The manager, and the two tables of the deployer service.
pub record System : Type 0 where
  pub manager : Manager
  pub deployed_pods : List (ContainerId × List String)
  pub docker_to_subcontainer : List (String × ContainerId)

-- `Manager::Manager` and `create_ec`, with the clients of the agents.
abbrev pub started : ℕ → AgentClientDb → System
started ec_id agents = record {
  manager = record {
    ec = init ec_id;
    agents = agents;
    syscall_sequence_number = 0;
    cpuleak = 0;
    sent = [];
  };
  deployed_pods = [];
  docker_to_subcontainer = [];
}

abbrev pub with_ec : ElasticContainer → System → System
with_ec ec s = record s { manager = manager }
  where
    manager : Manager
    manager = record (s.manager) { ec = ec }

-- The service works on the application of the manager.
abbrev pub deployer : System → Deployer
deployer s = record {
  ec = s.manager.ec;
  deployed_pods = s.deployed_pods;
  docker_to_subcontainer = s.docker_to_subcontainer;
}

abbrev pub with_deployer : Deployer → System → System
with_deployer d s = record {
  manager = record (s.manager) { ec = d.ec };
  deployed_pods = d.deployed_pods;
  docker_to_subcontainer = d.docker_to_subcontainer;
}

module _ ⦃d : Double⦄ ⦃net : Net⦄ where
  -- One handler of the system that ends with a result.
  pub data Step (s : System) : System → Type 0 where
    tcp_message :
        (world : World) (now garbage : ℕ) (received : Msg) (client_ip client_fd : ℕ) (m : Manager)
        (written : Option Msg)
        → handle_client_req_tcp world now garbage received client_ip client_fd s.manager
          ≡ ok (m, written)
        → Step s (record s { manager = m })
    udp_message :
        (world : World) (now garbage : ℕ) (received : Option Msg) (client_ip client_fd : ℕ)
        (m : Manager) (written : Option Msg)
        → handle_client_reqs_udp world now garbage received client_ip client_fd s.manager
          ≡ ok (m, written)
        → Step s (record s { manager = m })
    new_pod_memory :
        (world : World) (p fd : ℕ) (ec : ElasticContainer)
        → determine_mem_limit_for_new_pod world p fd s.manager.ec ≡ ok ec
        → Step s (with_ec ec s)
    idle_round :
        (world : World) (now seq : ℕ) (m : Manager) (seq' : ℕ)
        → check_for_idle_containers world now seq s.manager ≡ ok (m, seq')
        → Step s (record s { manager = m })
    reclaim_round :
        (world : World) (ec : ElasticContainer)
        → periodic_reclaim world s.manager.ec ≡ ok ec
        → Step s (with_ec ec s)
    app_announced :
        (cpu_limit mem_limit : ℕ)
        → Step s (with_ec (report_app_spec cpu_limit mem_limit s.manager.ec) s)
    pod_announced :
        (id : ContainerId) (docker_id : String) (d : Deployer) (reply : Reply)
        → report_pod_spec id docker_id (deployer s) ≡ ok (d, reply)
        → Step s (with_deployer d s)
    pod_deleted :
        (docker_id : String) (d : Deployer) (reply : Reply)
        → delete_pod docker_id (deployer s) ≡ ok (d, reply)
        → Step s (with_deployer d s)

  -- The states that a system comes to.
  pub data Reaches (s : System) : System → Type 0 where
    stays : Reaches s s
    goes : {t u : System} → Reaches s t → Step t u → Reaches s u
