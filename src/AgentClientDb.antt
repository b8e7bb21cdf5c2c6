-- ===== src/AgentClientDb.antt =====
-- Agents/AgentClientDB.h and AgentClientDB.cpp: the clients by the address of their node, and the
-- loop of GlobalControlManager.cpp that fills the table.
use ec_gcm.Common.{
  ℕ, suc, ◌≡◌, Bool, Option, none, some, List, [], ◌∷◌, arith, ◌==◌, if◌then◌else◌, length,
}
use ec_gcm.Common.Map.{Key, find, contains, insert, erase, find-insert, find-erase}
use ec_gcm.Platform.{Net}
use ec_gcm.Agents.{AgentClient, agent_port}

-- Addresses as keys.
instance abbrev pub ip_key : ⦃net : Net⦄ → Key ℕ
ip_key ⦃net⦄ = record {
  beq = net.same;
  beq_refl = net.same_refl;
  beq_sym = net.same_sym;
  beq_trans = net.same_trans;
}

abbrev pub AgentClientDb : Type 0
AgentClientDb = List (ℕ × AgentClient)

module _ ⦃net : Net⦄ where
  -- A second client for an address is refused.
  unfoldable pub add_agent_client : AgentClient → AgentClientDb → AgentClientDb
  add_agent_client c db = if contains c.ip db then db else insert c.ip c db

  unfoldable pub remove_agent_client : AgentClient → AgentClientDb → AgentClientDb
  remove_agent_client c db = erase c.ip db

  unfoldable pub get_agent_client_by_ip : ℕ → AgentClientDb → Option AgentClient
  get_agent_client_by_ip ip db = find ip db

  -- `GlobalControlManager::init_agent_connections`, over the addresses of the agents. `next` is the
  -- address of the next client made.
  unfoldable pub connect : ℕ → List ℕ → AgentClientDb → AgentClientDb
  connect next [] db = db
  connect next (ip ∷ ips) db =
      connect (suc next) ips
        (add_agent_client (record { handle = next; ip = ip; port = agent_port }) db)

  unfoldable pub init_agent_connections : List ℕ → AgentClientDb → AgentClientDb × Bool
  init_agent_connections ips db = let db' = connect 0 ips db in (db', length ips == length db')

  -- The client of an address is the first that was added for it, until it is removed; adding and
  -- removing leave the clients of all other addresses as they were.
  pub get-add-remove :
      (c : AgentClient) (ip : ℕ) (db : AgentClientDb)
      → (get_agent_client_by_ip ip (add_agent_client c db) ≡ (
          if contains c.ip db
          then get_agent_client_by_ip ip db
          else if net.same c.ip ip
          then some c
          else get_agent_client_by_ip ip db))
        × (get_agent_client_by_ip ip (remove_agent_client c db)
            ≡ (if net.same c.ip ip then none else get_agent_client_by_ip ip db))
  unfolding get_agent_client_by_ip add_agent_client remove_agent_client
  get-add-remove c ip db = (ground (arith, find-insert c.ip ip c db), find-erase c.ip ip db)
