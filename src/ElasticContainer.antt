-- ===== src/ElasticContainer.antt =====
-- ElasticContainer.h and ElasticContainer.cpp: the containers of one application. `SubContainer *`
-- is an address in `heap`, which `create_new_sc` extends; a queue is a list, its front first.
-- A null `AgentClient *` is `none`. The child modules hold the proofs.
pub mod Heap
pub mod Invariant
pub mod Lookup
pub mod Deletion
pub mod Evolution
pub mod Safety
use ec_gcm.Common.{
  ℕ, suc, ◌+◌, ◌/◌, ◌≡◌, ◌≢◌, ◌≤◌, Bool, true, false, String, Option, none, some, List, [], ◌∷◌,
  ◌++◌, if◌then◌else◌, ltb, ◌==◌, length, front?, back?, add64, Outcome, ok, exited, fault, or_exit,
  or_fault, ◌>>=◌,
}
use text.Mathlib.Text.{◌==◌ as str_eq}
use ec_gcm.Common.Map.{find, contains, insert, erase, update}
use ec_gcm.Platform.{Double, Net, World}
use ec_gcm.Agents.{AgentClient}
use ec_gcm.Stats.GlobalCpu.{GlobalCpu}
use ec_gcm.Stats.GlobalCpu
use ec_gcm.Stats.GlobalMem.{GlobalMem}
use ec_gcm.Stats.GlobalMem
use ec_gcm.SubContainer.{ContainerId, SubContainer}
use ec_gcm.SubContainer
use ec_gcm.SubContainer.Identity.{container_key}

abbrev pub SubcontainerMap : Type 0
SubcontainerMap = List (ContainerId × List ℕ)

pub record ElasticContainer : Type 0 where
  pub ec_id : ℕ
  pub subcontainers : SubcontainerMap
  pub sc_ac_map : List (ContainerId × Option AgentClient)
  pub fair_cpu_share : ℕ
  pub mem : GlobalMem
  pub cpu : GlobalCpu
  pub heap : ℕ → Option SubContainer
  pub next_sc : ℕ

-- `ElasticContainer(uint32_t)`.
unfoldable pub init : ℕ → ElasticContainer
init ec_id = record {
  ec_id = ec_id;
  subcontainers = [];
  sc_ac_map = [];
  fair_cpu_share = 0;
  mem = GlobalMem.init;
  cpu = GlobalCpu.init GlobalCpu.default_slice;
  heap = λ _. none;
  next_sc = 0;
}

-- The heap with another value at one address.
abbrev pub write : (ℕ → Option SubContainer) → ℕ → Option SubContainer → ℕ → Option SubContainer
write heap p v q = if p == q then v else heap q

abbrev pub store : ℕ → SubContainer → ElasticContainer → ElasticContainer
store p sc ec = record ec { heap = write ec.heap p (some sc) }

-- `create_new_sc`, with the object that its constructor builds.
unfoldable pub create_new_sc : SubContainer → ElasticContainer → ℕ × ElasticContainer
create_new_sc sc ec =
    (ec.next_sc, record ec { heap = write ec.heap ec.next_sc (some sc); next_sc = suc ec.next_sc })

-- The share is 0 parts of nothing where there is no container.
unfoldable pub update_fair_cpu_share : ElasticContainer → ElasticContainer
update_fair_cpu_share ec = record ec {
  fair_cpu_share =
      if length ec.subcontainers == 0
      then ec.cpu.total_cpu
      else ec.cpu.total_cpu / length ec.subcontainers;
}

module _ ⦃net : Net⦄ where
  -- `get_subcontainer_front` and `get_subcontainer_back` with `get_sc_for_update_back`. They leave
  -- the program where the container is not known; an empty queue has neither front nor back.
  unfoldable pub get_subcontainer_front : ContainerId → ElasticContainer → Outcome ℕ
  get_subcontainer_front id ec = do q ← or_exit (find id ec.subcontainers); or_fault (front? q)

  unfoldable pub get_sc_for_update_back : ContainerId → ElasticContainer → Outcome ℕ
  get_sc_for_update_back id ec = do q ← or_exit (find id ec.subcontainers); or_fault (back? q)

  -- The queue of a known container is one object, which the entry points at.
  abbrev pub enqueue : ContainerId → ℕ → SubcontainerMap → SubcontainerMap
  enqueue id p m = elim (find id m) [
    | none ↦ insert id (p ∷ []) m
    | some q ↦ insert id (q ++ p ∷ []) (update id (q ++ p ∷ []) m)
  ]

  unfoldable pub insert_sc : ℕ → ElasticContainer → Outcome ElasticContainer
  insert_sc p ec = do
    sc ← or_fault (ec.heap p)
    ok (record ec { subcontainers = enqueue sc.c_id p ec.subcontainers })

  -- The result is true where the source returns -1. The last container of a queue is not freed.
  abbrev pub drop_oldest : ContainerId → List ℕ → ElasticContainer → ElasticContainer
  drop_oldest id (p ∷ q ∷ qs) ec = record ec {
    subcontainers = update id (q ∷ qs) ec.subcontainers;
    heap = write ec.heap p none;
  }
  drop_oldest id _ ec = record ec { subcontainers = erase id ec.subcontainers }

  unfoldable pub ec_delete_from_subcontainers_map :
      ContainerId → ElasticContainer → ElasticContainer × Bool
  ec_delete_from_subcontainers_map id ec = elim (find id ec.subcontainers) [
    | none ↦ (ec, true)
    | some q ↦ (drop_oldest id q ec, false)
  ]

  unfoldable pub add_to_sc_ac_map :
      ContainerId → Option AgentClient → ElasticContainer → ElasticContainer
  add_to_sc_ac_map id client ec = record ec { sc_ac_map = insert id client ec.sc_ac_map }

  -- `sc_ac_map[container_id]`: a missing entry is made, with a null client.
  unfoldable pub get_corres_agent_client :
      ContainerId → ElasticContainer → ElasticContainer × Option AgentClient
  get_corres_agent_client id ec = elim (find id ec.sc_ac_map) [
    | none ↦ (record ec { sc_ac_map = insert id none ec.sc_ac_map }, none)
    | some client ↦ (ec, client)
  ]

  -- What cAdvisor reports for a container: 0 bytes without an agent or a docker id.
  abbrev ask : (ℕ → String → ℕ) → String → Option AgentClient → ℕ
  ask report docker_id none = 0
  ask report docker_id (some ac) = if str_eq docker_id "" then 0 else report ac.ip docker_id

  unfoldable pub get_sc_memory_limit_in_bytes :
      World → ContainerId → ElasticContainer → ElasticContainer × ℕ
  get_sc_memory_limit_in_bytes world id ec =
      let (ec', ac) = get_corres_agent_client id ec in (ec', ask world.limit_bytes id.docker_id ac)

  unfoldable pub get_sc_memory_usage_in_bytes :
      World → ContainerId → String → ElasticContainer → ElasticContainer × ℕ
  get_sc_memory_usage_in_bytes world id docker_id ec =
      let (ec', ac) = get_corres_agent_client id ec in (ec', ask world.usage_bytes docker_id ac)

  -- The loop of `get_tot_mem_alloc_in_pages`, over the entries in their order.
  unfoldable pub sum_limits : World → SubcontainerMap → ℕ → ElasticContainer → ElasticContainer × ℕ
  sum_limits world [] total ec = (ec, total)
  sum_limits world ((id, q) ∷ entries) total ec =
      let (ec', bytes) = get_sc_memory_limit_in_bytes world id ec in
      sum_limits world entries (add64 total bytes) ec'

  -- The `ceil` acts on a quotient that is rounded down already.
  unfoldable pub get_tot_mem_alloc_in_pages : World → ElasticContainer → ElasticContainer × ℕ
  get_tot_mem_alloc_in_pages world ec =
      let (ec', total) = sum_limits world ec.subcontainers 0 ec in (ec', total / 4096)

  -- The containers of one client. An empty table leaves the program.
  unfoldable pub ids_of_client :
      AgentClient → List (ContainerId × Option AgentClient) → List ContainerId
  ids_of_client client [] = []
  ids_of_client client ((id, none) ∷ entries) = ids_of_client client entries
  ids_of_client client ((id, some c) ∷ entries) =
      let rest = ids_of_client client entries in
      if c.handle == client.handle then id ∷ rest else rest

  unfoldable pub get_sc_from_agent :
      AgentClient → List ContainerId → ElasticContainer → Outcome (List ContainerId)
  get_sc_from_agent client res ec =
      if length ec.sc_ac_map == 0 then exited else ok (res ++ ids_of_client client ec.sc_ac_map)
