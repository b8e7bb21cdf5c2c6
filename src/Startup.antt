-- ===== src/Startup.antt =====
-- main.cpp and GlobalControlManager.cpp: the program from its arguments to the manager that it runs.
-- Which managers the constructor of Manager.cpp builds, and the ports of each.
pub mod Laws
use ec_gcm.Common.{
  ℕ, zero, suc, ◌+◌, ◌-◌, ◌%◌, ◌^◌, ◌≡◌, refl, sym, Bool, true, false, not, String, Option, none,
  some, List, [], ◌∷◌, map, if◌then◌else◌, leb, ◌==◌, arith, get_elem?, Outcome, ok, exited, fault,
  or_fault, ◌>>=◌,
}
use ec_gcm.Common.Map.{Key, find, contains, insert}
use ec_gcm.Platform.{Net}
use ec_gcm.AgentClientDb.{AgentClientDb, init_agent_connections}
use ec_gcm.Json.Config.{Config}
use ec_gcm.Server.Startup.{SocketCalls, Listener, construct}

abbrev pub base_tcp_port : ℕ
base_tcp_port = 5000

abbrev pub base_udp_port : ℕ
base_udp_port = 6000

abbrev pub base_grpc_port : ℕ
base_grpc_port = 4447

-- `ports_t`.
pub record Ports : Type 0 where
  pub tcp : ℕ
  pub udp : ℕ

-- A manager as its constructor leaves it, but for its application, which `start` makes.
pub record Built : Type 0 where
  pub manager_id : ℕ
  pub ports : Ports
  pub grpc_port : ℕ
  pub listener : Listener

pub record GlobalControlManager : Type 0 where
  pub controller_ports : List Ports
  pub managers : List (ℕ × Built)
  pub manager_counts : ℕ

pub id_refl : (a : ℕ) → (a == a) ≡ true
id_refl a = ground arith

pub id_sym : (a b : ℕ) → (a == b) ≡ true → (b == a) ≡ true
id_sym a b h = ground arith

pub id_trans : (a b c : ℕ) → (a == b) ≡ true → (b == c) ≡ true → (a == c) ≡ true
id_trans a b c h k = ground arith

-- `int` keys.
instance abbrev pub id_key : Key ℕ
id_key = record { beq = ◌==◌; beq_refl = id_refl; beq_sym = id_sym; beq_trans = id_trans }

-- The loop of `main` over the tenants from `i`; the ports are `uint16_t`.
unfoldable pub tenant_ports : ℕ → ℕ → List Ports
tenant_ports i zero = []
tenant_ports i (suc n) =
    record { tcp = (base_tcp_port + i) % 2 ^ 16; udp = (base_udp_port + i) % 2 ^ 16 }
    ∷ tenant_ports (suc i) n

-- The constructor of GlobalControlManager.
unfoldable pub construct_gcm : List Ports → GlobalControlManager
construct_gcm ports = record { controller_ports = ports; managers = []; manager_counts = 1 }

-- What the socket calls of a manager with these ports return.
abbrev pub Sockets : Type 0
Sockets = Ports → SocketCalls × SocketCalls

-- The sockets of a manager are unset, here 0, until its constructor opens them. `manager_counts` is
-- at least 1.
unfoldable pub create_manager : Sockets → GlobalControlManager → Outcome (GlobalControlManager × ℕ)
create_manager sockets g = if contains g.manager_counts g.managers then ok (g, 0) else (do
  ports ← or_fault (get_elem? g.controller_ports (g.manager_counts - 1))
  listener ← construct 0 0 (sockets ports).0 (sockets ports).1
  ok (
    record g {
      managers =
          insert g.manager_counts
            (record {
              manager_id = g.manager_counts;
              ports = ports;
              grpc_port = base_grpc_port + g.manager_counts - 1;
              listener = listener;
            })
            g.managers;
      manager_counts = suc g.manager_counts;
    },
    g.manager_counts,
  ))

-- The loop of `main` that makes one manager for each entry of a list.
unfoldable pub create_managers :
    Sockets → List Ports → GlobalControlManager → Outcome GlobalControlManager
create_managers sockets [] g = ok g
create_managers sockets (p ∷ ps) g = do r ← create_manager sockets g; create_managers sockets ps r.0

-- `get_manager`, which leaves the program for an id that is not known, and `run`, which reads the
-- entry of the id 1 without a test.
unfoldable pub get_manager : ℕ → GlobalControlManager → Outcome Built
get_manager manager_id g = elim (find manager_id g.managers) [ none ↦ exited | some m ↦ ok m ]

unfoldable pub run : GlobalControlManager → Outcome Built
run g = or_fault (find 1 g.managers)

-- A negative `int` makes no port.
abbrev pub tenants : ℕ → ℕ
tenants n = if leb (2 ^ 31) n then 0 else n

module _ ⦃net : Net⦄ where
  -- `main`, after `parseFile`, up to the manager that it starts, with the managers that it made and
  -- the clients of the agents. A return of 1 is an exit here.
  unfoldable pub main :
      Sockets → Config × Bool → Outcome (GlobalControlManager × AgentClientDb × Built)
  main sockets (config, failed) = if failed then exited else (do
    let ports = tenant_ports 0 (tenants config.num_tenants)
    g ← create_managers sockets ports (construct_gcm ports)
    let connected = init_agent_connections (map net.from_string config.agent_ips) []
    if connected.1 then (do m ← run g; ok (g, connected.0, m)) else exited)
