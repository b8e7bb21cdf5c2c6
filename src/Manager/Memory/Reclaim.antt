-- ===== src/Manager/Memory/Reclaim.antt =====
-- What `Manager::reclaim` takes from one container.
use ec_gcm.Common.{
  ℕ, ◌+◌, ◌-◌, ◌*◌, ◌/◌, ◌^◌, ◌≡◌, sym, ◌≤◌, ◌<◌, ◌==◌, arith, refl, add64, sub64, some, false,
  true, ok, ltb, back?, List,
}
use text.Mathlib.Text.{◌==◌ as str_eq}
use ec_gcm.Common.Map.{find}
use ec_gcm.Platform.{Net, World}
use ec_gcm.Agents.{AgentClient}
use ec_gcm.SubContainer.{SubContainer, set_mem_limit_in_pages}
use ec_gcm.SubContainer.Identity.{container_key}
use ec_gcm.ElasticContainer.{
  ElasticContainer, store, get_corres_agent_client, get_sc_memory_usage_in_bytes,
  get_sc_for_update_back,
}
use ec_gcm.EcApi.{sc_set_memory_limit_in_pages}
use ec_gcm.EcApi.Calls.{sc_resize_lem}
use ec_gcm.Manager.Memory.{
  safe_margin_bytes, byte_to_page, page_to_byte, usage_failed, shrink_limit, reclaim,
}

module _ ⦃net : Net⦄ where
  -- The container at an address is the last of its entry, and its agent's client is known.
  pub record IsServed (ec : ElasticContainer) (p : ℕ) (sc : SubContainer) (ac : AgentClient)
      : Type 0 where
    pub queue : List ℕ
    pub entry : find sc.c_id ec.subcontainers ≡ some queue
    pub last : back? queue ≡ some p
    pub stored : ec.heap p ≡ some sc
    pub named : str_eq sc.c_id.docker_id "" ≡ false
    pub known : find sc.c_id ec.sc_ac_map ≡ some (some ac)

  pub sc_set_memory_limit_lem :
      (pages p : ℕ) (ec : ElasticContainer) (sc : SubContainer) (ac : AgentClient)
      → IsServed ec p sc ac
      → sc_set_memory_limit_in_pages sc.c_id pages ec
        ≡ ok (store p (set_mem_limit_in_pages pages sc) ec)
  unfolding sc_set_memory_limit_in_pages get_sc_for_update_back
  sc_set_memory_limit_lem pages p ec sc ac s = rw (s.entry) (rw (s.last) (rw (s.stored) refl))

  pub usage_lem :
      (world : World) (p : ℕ) (ec : ElasticContainer) (sc : SubContainer) (ac : AgentClient)
      → IsServed ec p sc ac
      → get_sc_memory_usage_in_bytes world sc.c_id sc.c_id.docker_id ec
        ≡ (ec, world.usage_bytes ac.ip sc.c_id.docker_id)
  unfolding get_sc_memory_usage_in_bytes get_corres_agent_client
  usage_lem world p ec sc ac s = ground (arith, s.known, s.named)

  -- The limit is more than the usage and the margin: the container keeps just these.
  pub shrink_limit_lem :
      (world : World) (p limit usage : ℕ) (ec : ElasticContainer) (sc : SubContainer)
      (ac : AgentClient)
      → IsServed ec p sc ac
      → let target = byte_to_page (add64 usage safe_margin_bytes) in
        world.resize_status ac.handle sc.c_id.cgroup_id target ≡ 0
        → shrink_limit world sc.c_id sc limit usage ec
          ≡ ok (
            store p (set_mem_limit_in_pages target sc) ec,
            byte_to_page (sub64 limit (add64 usage safe_margin_bytes)),
          )
  unfolding shrink_limit
  shrink_limit_lem world p limit usage ec sc ac s e =
      rw (sc_resize_lem world sc.c_id (byte_to_page (add64 usage safe_margin_bytes)) ec ac s.known)
        (rw e (
          rw (sc_set_memory_limit_lem (byte_to_page (add64 usage safe_margin_bytes)) p ec sc ac s)
            refl))

  -- A container that the agent agrees to shrink: `usage` is what the report says, not the value
  -- for a failed report, and the limit differs from it by more than the margin, as unsigned numbers.
  pub reclaim_lem :
      (world : World) (p : ℕ) (ec : ElasticContainer) (sc : SubContainer) (ac : AgentClient)
      → IsServed ec p sc ac
      → let limit = page_to_byte sc.mem.mem_limit_in_pages in
        let usage = world.usage_bytes ac.ip sc.c_id.docker_id in
        let target = byte_to_page (add64 usage safe_margin_bytes) in
        (usage == usage_failed) ≡ false
        → ltb safe_margin_bytes (sub64 limit usage) ≡ true
        → world.resize_status ac.handle sc.c_id.cgroup_id target ≡ 0
        → reclaim world sc.c_id p ec
          ≡ ok (
            store p (set_mem_limit_in_pages target sc) ec,
            byte_to_page (sub64 limit (add64 usage safe_margin_bytes)),
          )
  unfolding reclaim
  reclaim_lem world p ec sc ac s f m e =
      rw (s.stored) (
        rw (usage_lem world p ec sc ac s) (rw f (rw m (shrink_limit_lem world p _ _ ec sc ac s e))))

  pub reclaim_at :
      (world : World) (p : ℕ) (ec : ElasticContainer) (sc : SubContainer) (ac : AgentClient)
      (new pages : ℕ)
      → IsServed ec p sc ac
      → let limit = page_to_byte sc.mem.mem_limit_in_pages in
        let usage = world.usage_bytes ac.ip sc.c_id.docker_id in
        let target = add64 usage safe_margin_bytes in
        byte_to_page target ≡ new
        → byte_to_page (sub64 limit target) ≡ pages
        → (usage == usage_failed) ≡ false
        → ltb safe_margin_bytes (sub64 limit usage) ≡ true
        → world.resize_status ac.handle sc.c_id.cgroup_id new ≡ 0
        → reclaim world sc.c_id p ec ≡ ok (store p (set_mem_limit_in_pages new sc) ec, pages)
  reclaim_at world p ec sc ac new pages s n k f m e =
      rw (sym n) (rw (sym k) (reclaim_lem world p ec sc ac s f m (rw n e)))

  -- A container with a docker id, the last of its entry and with a known client, whose memory limit
  -- is below `2 ^ 50` pages, whose use and the margin of 50 MiB are less than the limit, and whose agent agrees: `reclaim` stores the use with the margin, in whole
  -- pages, as the new limit, and what it reports as reclaimed is the old limit less the new one, or
  -- one page less than that.
  pub reclaim_keeps_margin :
      (world : World) (p : ℕ) (ec : ElasticContainer) (sc : SubContainer) (ac : AgentClient)
      → IsServed ec p sc ac
      → let old = sc.mem.mem_limit_in_pages in
        let usage = world.usage_bytes ac.ip sc.c_id.docker_id in
        let new = (usage + 52_428_800) / 4096 in
        old < 2 ^ 50
        → usage + 52_428_800 < old * 4096
        → world.resize_status ac.handle sc.c_id.cgroup_id new ≡ 0
        → (pages : ℕ) × (reclaim world sc.c_id p ec
            ≡ ok (store p (set_mem_limit_in_pages new sc) ec, pages))
          × (new + pages ≤ old)
          × (old ≤ new + pages + 1)
  reclaim_keeps_margin world p ec sc ac s b m e =
      let old = sc.mem.mem_limit_in_pages in
      let usage = world.usage_bytes ac.ip sc.c_id.docker_id in
      let pages = byte_to_page (old * 4096 - (usage + 52_428_800)) in
      (
        pages,
        reclaim_at world p ec sc ac ((usage + 52_428_800) / 4096) pages s (ground arith)
            (ground arith) (ground arith) (ground arith) e,
        ground arith,
        ground arith,
      )

  -- A container with a docker id, the last of its entry and with a known client, whose use is above
  -- the limit on record, as for one whose limit is not yet set: with
  -- a use below `2 ^ 62` bytes and an agent that agrees, `reclaim` reports more than `2 ^ 50` pages.
  pub reclaim_wraps :
      (world : World) (p : ℕ) (ec : ElasticContainer) (sc : SubContainer) (ac : AgentClient)
      → IsServed ec p sc ac
      → let old = sc.mem.mem_limit_in_pages in
        let usage = world.usage_bytes ac.ip sc.c_id.docker_id in
        let new = (usage + 52_428_800) / 4096 in
        usage < 2 ^ 62
        → old * 4096 < usage
        → world.resize_status ac.handle sc.c_id.cgroup_id new ≡ 0
        → (pages : ℕ) × (reclaim world sc.c_id p ec
            ≡ ok (store p (set_mem_limit_in_pages new sc) ec, pages))
          × (2 ^ 50 < pages)
  reclaim_wraps world p ec sc ac s b m e =
      let old = sc.mem.mem_limit_in_pages in
      let usage = world.usage_bytes ac.ip sc.c_id.docker_id in
      let pages = byte_to_page (old * 4096 + 2 ^ 64 - (usage + 52_428_800)) in
      (
        pages,
        reclaim_at world p ec sc ac ((usage + 52_428_800) / 4096) pages s (ground arith)
            (ground arith) (ground arith) (ground arith) e,
        ground arith,
      )
