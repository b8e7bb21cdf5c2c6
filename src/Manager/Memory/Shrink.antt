-- ===== src/Manager/Memory/Shrink.antt =====
-- What `reclaim` leaves of one container, whatever the agent and cAdvisor reply.
use mathlib.Core.Path.{subst}
use ec_gcm.Common.{
  All, back?-All, true, ◌∙◌, ℕ, ◌+◌, ◌*◌, ◌^◌, ◌≡◌, refl, ◌≤◌, ◌<◌, ◌==◌, arith, true, false,
  Option, none, some, List, [], ◌∷◌, back?, add64, sub64, ltb, if_cases, if◌then◌else◌, ok, Returns,
  Bool-cases, inl, inr,
}
use text.Mathlib.Text.{◌==◌ as str_eq}
use ec_gcm.Common.Map.{find, find_congr}
use ec_gcm.Platform.{Net, World}
use ec_gcm.Agents.{AgentClient}
use ec_gcm.Stats.LocalMem
use ec_gcm.SubContainer.{ContainerId, SubContainer, same_container, set_mem_limit_in_pages}
use ec_gcm.SubContainer.Identity.{container_key}
use ec_gcm.ElasticContainer.{
  ElasticContainer, SubcontainerMap, store, get_corres_agent_client, get_sc_memory_usage_in_bytes,
  get_sc_for_update_back,
}
use ec_gcm.ElasticContainer.Invariant.{IsValid, Entry, Holds}
use ec_gcm.Common.Map.Entries.{Distinct-find}
use ec_gcm.ElasticContainer.Heap.{count}
use ec_gcm.EcApi.{sc_set_memory_limit_in_pages}
use ec_gcm.EcApi.Calls.{sc_resize_lem}
use ec_gcm.Manager.Memory.{
  safe_margin_bytes, byte_to_page, page_to_byte, usage_failed, shrink_limit, reclaim,
}

abbrev pub Heap : Type 0
Heap = ℕ → Option SubContainer

abbrev pub pages_of : Option SubContainer → ℕ
pages_of none = 0
pages_of (some sc) = sc.mem.mem_limit_in_pages

abbrev pub limit_at : Heap → Option ℕ → ℕ
limit_at heap none = 0
limit_at heap (some p) = pages_of (heap p)

-- The limits of the containers that stand last in the entries, summed.
abbrev pub limits : Heap → SubcontainerMap → ℕ
limits heap [] = 0
limits heap ((id, q) ∷ m) = limit_at heap (back? q) + limits heap m

pub count-back : (p : ℕ) (q : List ℕ) → back? q ≡ some p → 1 ≤ count p q
count-back p [] e = absurd (cc)
count-back p (x ∷ []) e = let same : x ≡ p = cc in ground arith
count-back p (x ∷ y ∷ q) e =
    let h : 1 ≤ count p (y ∷ q) = count-back p (y ∷ q) e in ground (arith, h)

-- An address that a queue does not hold is not the last of it.
pub unheld : (p r : ℕ) (q : List ℕ) → back? q ≡ some r → count p q ≡ 0 → (p == r) ≡ false
unheld p r q e h =
    let held : 1 ≤ count r q = count-back r q e in
    elim (Bool-cases (p == r)) [
      | inl same ↦
          let eq : p ≡ r = ground arith in
          let held' : 1 ≤ count p q = rw eq held in absurd (omega arith)
      | inr e ↦ e
    ]

pub held_elsewhere : (p r : ℕ) (q : List ℕ) → back? q ≡ some r → count p q ≡ 0 → (r == p) ≡ false
held_elsewhere p r q e h = let other : (p == r) ≡ false = unheld p r q e h in ground arith

-- What the manager reads for a container of a known agent.
abbrev pub usage_of : World → AgentClient → SubContainer → ℕ
usage_of world ac sc =
    if str_eq sc.c_id.docker_id "" then 0 else world.usage_bytes ac.ip sc.c_id.docker_id

module _ ⦃net : Net⦄ (world : World) where
  -- The agent of the last container of an entry is known, and the container uses at most its limit.
  pub record IsWithin (ec : ElasticContainer) (entry : ContainerId × List ℕ) : Type 0 where
    pub address : ℕ
    pub container : SubContainer
    pub client : AgentClient
    pub last : back? entry.1 ≡ some address
    pub stored : ec.heap address ≡ some container
    pub known : find entry.0 ec.sc_ac_map ≡ some (some client)
    pub limit_lt : container.mem.mem_limit_in_pages < 2 ^ 50
    pub usage_le : usage_of world client container ≤ container.mem.mem_limit_in_pages * 4096

  -- The same with the entry that is found under the container's own id.
  pub record IsReached (ec : ElasticContainer) (entry : ContainerId × List ℕ) : Type 0 where
    pub address : ℕ
    pub container : SubContainer
    pub client : AgentClient
    pub last : back? entry.1 ≡ some address
    pub stored : ec.heap address ≡ some container
    pub found : find container.c_id ec.subcontainers ≡ some entry.1
    pub known : find entry.0 ec.sc_ac_map ≡ some (some client)
    pub limit_lt : container.mem.mem_limit_in_pages < 2 ^ 50
    pub usage_le : usage_of world client container ≤ container.mem.mem_limit_in_pages * 4096

  reached :
      (ec : ElasticContainer) (m : SubcontainerMap)
      → All (Entry ec.heap) m
      → All (λ (e : ContainerId × List ℕ). find e.0 ec.subcontainers ≡ some e.1) m
      → All (IsWithin ec) m
      → All (IsReached ec) m
  reached ec [] held found ws = tt
  reached ec ((id, q) ∷ m) ((ne, held), helds) (f, fs) (w, ws) =
      let (sc, e, s) = back?-All (Holds ec.heap id) q held w.last in
      let same : sc ≡ w.container =
        let both : ec.heap w.address ≡ some w.container = w.stored in cc in
      (
        record {
          address = w.address;
          container = w.container;
          client = w.client;
          last = w.last;
          stored = w.stored;
          found =
              find_congr w.container.c_id id ec.subcontainers
                (subst (λ c. same_container c.c_id id ≡ true) same s)
              ∙ f;
          known = w.known;
          limit_lt = w.limit_lt;
          usage_le = w.usage_le;
        },
        reached ec m helds fs ws,
      )

  -- In a valid application each entry is found under the id of its last container.
  pub IsWithin-IsReached :
      (ec : ElasticContainer)
      → IsValid ec
      → All (IsWithin ec) ec.subcontainers
      → All (IsReached ec) ec.subcontainers
  IsWithin-IsReached ec v =
      reached ec ec.subcontainers v.entries (Distinct-find ec.subcontainers v.distinct)

  -- A step at one address: no other container changes, and the limit there falls by at least the
  -- pages reported.
  pub record Shrinks (ec : ElasticContainer) (p : ℕ) (r : ElasticContainer × ℕ) : Type 0 where
    pub heap : Heap
    pub same : r.0 ≡ record ec { heap = heap }
    pub elsewhere : (q : ℕ) → (p == q) ≡ false → heap q ≡ ec.heap q
    pub kept : pages_of (heap p) + r.1 ≤ pages_of (ec.heap p)

  unfoldable pub unchanged : (ec : ElasticContainer) (p : ℕ) → Shrinks ec p (ec, 0)
  unchanged ec p = record {
    heap = ec.heap;
    same = refl;
    elsewhere = λ q e. refl;
    kept = omega arith;
  }

  usage_read :
      (ec : ElasticContainer) (id : ContainerId) (q : List ℕ) (w : IsReached ec (id, q))
      → get_sc_memory_usage_in_bytes world id w.container.c_id.docker_id ec
        ≡ (ec, usage_of world w.client w.container)
  unfolding get_sc_memory_usage_in_bytes get_corres_agent_client
  usage_read ec id q w = ground (arith, w.known)

  set_limit :
      (pages : ℕ) (ec : ElasticContainer) (id : ContainerId) (q : List ℕ) (w : IsReached ec (id, q))
      → sc_set_memory_limit_in_pages w.container.c_id pages ec
        ≡ ok (store w.address (set_mem_limit_in_pages pages w.container) ec)
  unfolding sc_set_memory_limit_in_pages get_sc_for_update_back
  set_limit pages ec id q w = rw (w.found) (rw (w.last) (rw (w.stored) refl))

  stored-Shrinks :
      (ec : ElasticContainer) (id : ContainerId) (q : List ℕ) (w : IsReached ec (id, q))
      (new pages : ℕ)
      → new + pages ≤ w.container.mem.mem_limit_in_pages
      → Shrinks ec w.address (store w.address (set_mem_limit_in_pages new w.container) ec, pages)
  unfolding set_mem_limit_in_pages LocalMem.set_mem_limit_in_pages
  stored-Shrinks ec id q w new pages h = record {
    heap = (store w.address (set_mem_limit_in_pages new w.container) ec).heap;
    same = refl;
    elsewhere = λ x e. rw e refl;
    kept = ground (arith, w.stored);
  }

  shrink_limit-Shrinks :
      (ec : ElasticContainer) (id : ContainerId) (q : List ℕ) (w : IsReached ec (id, q))
      → let limit = page_to_byte w.container.mem.mem_limit_in_pages in
        let usage = usage_of world w.client w.container in
        ltb safe_margin_bytes (sub64 limit usage) ≡ true
        → Returns (Shrinks ec w.address) (shrink_limit world id w.container limit usage ec)
  unfolding shrink_limit
  shrink_limit-Shrinks ec id q w m =
      let limit = page_to_byte w.container.mem.mem_limit_in_pages in
      let usage = usage_of world w.client w.container in
      let target = add64 usage safe_margin_bytes in
      let new = byte_to_page target in
      let small = w.limit_lt in
      let fits = w.usage_le in
      let taken : new + byte_to_page (sub64 limit target) ≤ w.container.mem.mem_limit_in_pages =
        ground arith in
      rw (sc_resize_lem world id new ec w.client w.known) (
        rw (set_limit new ec id q w) (
          if_cases (Returns (Shrinks ec w.address))
            (world.resize_status w.client.handle id.cgroup_id new == 0)
            (λ _. stored-Shrinks ec id q w new (byte_to_page (sub64 limit target)) taken)
            (λ _. unchanged ec w.address)))

  -- Whatever the agent and cAdvisor reply, the container at the address is left with its limit or
  -- gives pages back out of it.
  pub reclaim-Shrinks :
      (ec : ElasticContainer) (id : ContainerId) (q : List ℕ) (w : IsReached ec (id, q))
      → Returns (Shrinks ec w.address) (reclaim world id w.address ec)
  unfolding reclaim
  reclaim-Shrinks ec id q w =
      let limit = page_to_byte w.container.mem.mem_limit_in_pages in
      let usage = usage_of world w.client w.container in
      let untouched = unchanged ec w.address in
      rw (w.stored) (
        rw (usage_read ec id q w) (
          if_cases (Returns (Shrinks ec w.address)) (usage == usage_failed) (λ _. untouched)
            (λ _.
              if_cases (Returns (Shrinks ec w.address)) (ltb safe_margin_bytes (sub64 limit usage))
                (λ m. shrink_limit-Shrinks ec id q w m) (λ _. untouched))))
