-- ===== src/Startup/Laws.antt =====
-- Which managers start-up makes, and which it runs.
use ec_gcm.Common.{
  ℕ, zero, suc, ◌+◌, ◌-◌, ◌%◌, ◌^◌, ◌≡◌, ◌<◌, refl, ap, ◌∙◌, Bool, true, false, some, List, [], ◌∷◌,
  map, length, if◌then◌else◌, arith, get_elem?, Outcome, ok, exited, fault, ◌>>=◌, Returns, ◌⊎◌,
  inl, inr, >>=-Returns,
}
use mathlib.Core.Path.{subst}
use ec_gcm.Common.Map.{find, contains, insert}
use ec_gcm.Platform.{Net}
use ec_gcm.AgentClientDb.{init_agent_connections}
use ec_gcm.Json.Config.{Config}
use ec_gcm.Server.Startup.{
  SocketCalls, Listener, construct, initialize_tcp, initialize_udp, all_open,
}
use ec_gcm.Startup.{
  Ports, Built, GlobalControlManager, id_key, tenant_ports, construct_gcm, Sockets, create_manager,
  create_managers, get_manager, run, tenants, main,
}

-- The server of a manager whose socket calls succeed.
abbrev pub listening : SocketCalls × SocketCalls → Listener
listening (tcp, udp) = record {
  server_initialized = 2;
  num_of_cli = 0;
  tcp_fd = tcp.socket;
  udp_fd = udp.socket;
}

construct-listening :
    (calls : SocketCalls × SocketCalls)
    → all_open calls.0 calls.1 ≡ true
    → construct 0 0 calls.0 calls.1 ≡ ok (listening calls)
unfolding construct initialize_tcp initialize_udp
construct-listening (tcp, udp) h = ground (arith, h)

length-tenant_ports : (i n : ℕ) → length (tenant_ports i n) ≡ n
unfolding tenant_ports
length-tenant_ports i zero = refl
length-tenant_ports i (suc n) = ap suc (length-tenant_ports (suc i) n)

get_elem?-tenant_ports :
    (i n k : ℕ)
    → k < n
    → get_elem? (tenant_ports i n) k
      ≡ some (record { tcp = (5000 + (i + k)) % 2 ^ 16; udp = (6000 + (i + k)) % 2 ^ 16 })
unfolding tenant_ports
get_elem?-tenant_ports i zero k h = absurd (omega arith)
get_elem?-tenant_ports i (suc n) zero h = ground arith
get_elem?-tenant_ports i (suc n) (suc k) h =
    get_elem?-tenant_ports (suc i) n k (omega arith) ∙ ground arith

get_elem?-some : (ps : List Ports) (k : ℕ) → k < length ps → (p : Ports) × (get_elem? ps k ≡ some p)
get_elem?-some [] k h = absurd (omega arith)
get_elem?-some (p ∷ ps) zero h = (p, refl)
get_elem?-some (p ∷ ps) (suc k) h = get_elem?-some ps k (omega arith)

-- The manager that is made for an id and its ports.
abbrev pub built : Sockets → ℕ → Ports → Built
built sockets id ports = record {
  manager_id = id;
  ports = ports;
  grpc_port = 4447 + id - 1;
  listener = listening (sockets ports);
}

module _ (sockets : Sockets) (ports : List Ports)
    (opened : (p : Ports) → all_open (sockets p).0 (sockets p).1 ≡ true) where
  -- The first managers are made.
  record Made (k : ℕ) (g : GlobalControlManager) : Type 0 where
    controller_eq : g.controller_ports ≡ ports
    counts_eq : g.manager_counts ≡ suc k
    length_eq : length g.managers ≡ k
    fresh : (j : ℕ) → k < j → contains j g.managers ≡ false
    found :
        (j : ℕ) (p : Ports)
        → j < k
        → get_elem? ports j ≡ some p
        → find (suc j) g.managers ≡ some (built sockets (suc j) p)

  Made-one :
      (k : ℕ) (g : GlobalControlManager) (p : Ports)
      → Made k g
      → get_elem? ports k ≡ some p
      → create_manager sockets g
        ≡ ok (
          record g {
            managers = (suc k, built sockets (suc k) p) ∷ g.managers;
            manager_counts = suc (suc k);
          },
          suc k,
        )
  unfolding create_manager insert
  Made-one k g p m e =
      let index : suc k - 1 ≡ k = omega arith in
      let at : get_elem? g.controller_ports (suc k - 1) ≡ some p =
        rw (m.controller_eq) (rw index e) in
      rw (m.counts_eq) (
        rw (m.fresh (suc k) (omega arith))
          (rw at (rw (construct-listening (sockets p) (opened p)) refl)))

  Made-next :
      (k : ℕ) (g : GlobalControlManager) (p : Ports)
      → Made k g
      → get_elem? ports k ≡ some p
      → Made (suc k) (record g {
        managers = (suc k, built sockets (suc k) p) ∷ g.managers;
        manager_counts = suc (suc k);
      })
  unfolding contains find
  Made-next k g p m e = record {
    controller_eq = m.controller_eq;
    counts_eq = refl;
    length_eq = ap suc m.length_eq;
    fresh = λ j h. ground (arith, m.fresh j);
    found = λ j q h e'. ground (arith, m.found j q, e, e');
  }

  create_managers-Made :
      (qs : List Ports) (k : ℕ) (g : GlobalControlManager)
      → Made k g
      → k + length qs ≡ length ports
      → Returns (Made (length ports)) (create_managers sockets qs g)
  unfolding create_managers
  create_managers-Made [] k g m e =
      let same : k ≡ length ports = omega arith in subst (λ n. Made n g) same m
  create_managers-Made (q ∷ qs) k g m e =
      let (p, at) = get_elem?-some ports k (omega arith) in
      rw (Made-one k g p m at)
        (create_managers-Made qs (suc k) _ (Made-next k g p m at) (omega arith))

-- How start-up ends for a number of tenants: without any, in a read past the end of an empty table;
-- else with a manager for each tenant, the `j`-th with the ports 5000 + j and 6000 + j from `j` = 0
-- on and its own port for gRPC, and the first of them, and only it, is run.
abbrev pub IsStarted :
    {Db : Type 0} → Sockets → ℕ → ℕ → Outcome (GlobalControlManager × Db × Built) → Type 0
IsStarted sockets zero j r = r ≡ fault
IsStarted sockets (suc n) j r =
    Returns
      (λ (g, db, first).
        (length g.managers ≡ suc n)
        × (first ≡ built sockets 1 (record { tcp = 5000; udp = 6000 }))
        × (get_manager (suc j) g
            ≡ ok (
                built sockets (suc j)
                  (record { tcp = (5000 + j) % 2 ^ 16; udp = (6000 + j) % 2 ^ 16 }))))
      r

-- The part of `main` after the configuration, for a number of tenants.
abbrev start_up :
    {Db : Type 0} → Sockets → ℕ → Db × Bool → Outcome (GlobalControlManager × Db × Built)
start_up sockets n connected = do
  g ← create_managers sockets (tenant_ports 0 n) (construct_gcm (tenant_ports 0 n))
  if connected.1 then (do m ← run g; ok (g, connected.0, m)) else exited

none-Made :
    (sockets : Sockets) (ports : List Ports)
    (o : (p : Ports) → all_open (sockets p).0 (sockets p).1 ≡ true)
    → Made sockets ports o 0 (construct_gcm ports)
unfolding construct_gcm contains
none-Made sockets ports o = record {
  controller_eq = refl;
  counts_eq = refl;
  length_eq = refl;
  fresh = λ j h. refl;
  found = λ j p h e. absurd (omega arith);
}

listed :
    (j : ℕ) (g : GlobalControlManager) {b : Built}
    → find (suc j) g.managers ≡ some b
    → get_manager (suc j) g ≡ ok b
unfolding get_manager
listed j g e = rw (e, get_manager) refl

start_up-IsStarted :
    {Db : Type 0} (sockets : Sockets) (n j : ℕ) (connected : Db × Bool)
    → ((p : Ports) → all_open (sockets p).0 (sockets p).1 ≡ true)
    → connected.1 ≡ true
    → (n ≡ 0) ⊎ (j < n)
    → IsStarted sockets n j (start_up sockets n connected)
unfolding create_managers construct_gcm run tenant_ports find
start_up-IsStarted sockets zero j connected o c b = rw c refl
start_up-IsStarted sockets (suc n) j connected o c (inl z) = absurd (omega arith)
start_up-IsStarted sockets (suc n) j connected o c (inr b) =
    let ports = tenant_ports 0 (suc n) in
    let count = length-tenant_ports 0 (suc n) in
    let from_zero : 0 + j ≡ j = omega arith in
    >>=-Returns (Made sockets ports o (length ports)) _
      (create_managers sockets ports (construct_gcm ports)) _
      (create_managers-Made sockets ports o ports 0 (construct_gcm ports)
        (none-Made sockets ports o) (omega arith))
      (λ g m.
        let first =
          m.found 0 _ (rw count (omega arith)) (get_elem?-tenant_ports 0 (suc n) 0 (omega arith)) in
        let other = m.found j _ (rw count (omega arith)) (
          subst
            (λ i.
              get_elem? ports j
              ≡ some (record { tcp = (5000 + i) % 2 ^ 16; udp = (6000 + i) % 2 ^ 16 }))
            from_zero (get_elem?-tenant_ports 0 (suc n) j b)) in
        rw c (rw first (m.length_eq ∙ count, refl, listed j g other)))

module _ ⦃net : Net⦄ where
  -- A configuration that could be read, with pairwise distinct agents, where every socket call of
  -- every manager succeeds: without tenants start-up ends in a read past the end of an empty table;
  -- else it makes a manager for each tenant, the `j`-th with the ports 5000 + j and 6000 + j, and
  -- runs the first one, and no other.
  pub main-IsStarted :
      (sockets : Sockets) (config : Config) (j : ℕ)
      → ((p : Ports) → all_open (sockets p).0 (sockets p).1 ≡ true)
      → (init_agent_connections (map net.from_string config.agent_ips) []).1 ≡ true
      → (tenants config.num_tenants ≡ 0) ⊎ (j < tenants config.num_tenants)
      → IsStarted sockets (tenants config.num_tenants) j (main sockets (config, false))
  unfolding main
  main-IsStarted sockets config j o c b =
      start_up-IsStarted sockets (tenants config.num_tenants) j
        (init_agent_connections (map net.from_string config.agent_ips) []) o c b
