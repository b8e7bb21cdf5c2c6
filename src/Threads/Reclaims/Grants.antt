-- ===== src/Threads/Reclaims/Grants.antt =====
-- A reclaim of the thread of `run`, which does not hold `memlock`, with a request of the same container
-- in the middle of it.
use ec_gcm.Common.{
  ℕ, ◌+◌, ◌-◌, ◌*◌, ◌^◌, ◌≡◌, refl, ◌≤◌, ◌<◌, ◌==◌, min, arith, Option, some, true, slt64, ok,
}
use ec_gcm.Platform.{Net, World}
use ec_gcm.Agents.{AgentClient}
use ec_gcm.Stats.GlobalMem.{
  IsValid, decr_allocated_memory_in_pages, incr_unallocated_memory_in_pages,
}
use ec_gcm.Stats.LocalMem
use ec_gcm.SubContainer.{SubContainer, set_mem_limit_in_pages}
use ec_gcm.ElasticContainer.{ElasticContainer, store}
use ec_gcm.EcApi.{ec_update_reclaim_memory_in_pages}
use ec_gcm.Msg.{Msg, mem_type, alloc_success}
use ec_gcm.Manager.Memory.{on_mem, page_to_byte, shrink_limit, handle_mem_req}
use ec_gcm.Manager.Memory.Reclaim.{IsServed}
use ec_gcm.Manager.Memory.Request.{IsSender, granted, grant_memory_lem}
use ec_gcm.Threads.Reclaims.{
  Plan, plan_reclaim, carry_out, target, pages_taken, plan_made, carried_out,
}

module _ ⦃net : Net⦄ (world : World) where
  -- A request is granted from the pool.
  handle_mem_req_lem :
      (req res : Msg) (clifd : ℕ) (ec : ElasticContainer) (p : ℕ) (sc : SubContainer)
      → IsSender ec req p sc
      → IsValid ec.mem
      → req.rsrc_amnt < 2 ^ 62
      → req.req_type ≡ mem_type
      → 0 < ec.mem.unallocated_memory_in_pages
      → handle_mem_req world req res clifd ec
        ≡ granted req res (min ec.mem.slice_size ec.mem.unallocated_memory_in_pages) p sc ec
  unfolding handle_mem_req
  handle_mem_req_lem req res clifd ec p sc s v h t k =
      let typed : (req.req_type == mem_type) ≡ true = ground arith in
      let pooled : slt64 0 ec.mem.unallocated_memory_in_pages ≡ true = ground arith in
      rw typed (rw pooled (grant_memory_lem world req res ec p sc s v h))

module _ ⦃net : Net⦄ (world world' : World) (p : ℕ) (ec : ElasticContainer) (sc : SubContainer)
    (ac : AgentClient) (s : IsServed ec p sc ac) where
  abbrev grant : ℕ
  grant = min ec.mem.slice_size ec.mem.unallocated_memory_in_pages

  abbrev raised : Msg → SubContainer
  raised req = set_mem_limit_in_pages (req.rsrc_amnt + grant) sc

  abbrev between : Msg → ElasticContainer
  between req = store p (raised req) (
      on_mem
        (λ m. record m {
          unallocated_memory_in_pages = m.unallocated_memory_in_pages - grant;
          allocated_memory_in_pages = m.allocated_memory_in_pages + grant;
        })
        ec)

  between-IsServed : (req : Msg) → IsServed (between req) p (raised req) ac
  unfolding set_mem_limit_in_pages
  between-IsServed req = record {
    queue = s.queue;
    entry = s.entry;
    last = s.last;
    stored = ground arith;
    named = s.named;
    known = s.known;
  }

  -- The account at the end.
  counted :
      IsValid ec.mem
      → (req : Msg) (pages : ℕ) → pages ≤ ec.mem.allocated_memory_in_pages
      → (ec_update_reclaim_memory_in_pages pages (between req).mem).allocated_memory_in_pages
          + pages
        ≡ ec.mem.allocated_memory_in_pages + grant
  unfolding ec_update_reclaim_memory_in_pages decr_allocated_memory_in_pages
      incr_unallocated_memory_in_pages
  counted v req pages h = ground arith

  -- A container with a docker id, the last of its entry and with a known client, whose memory limit
  -- is at most the pages counted as allocated and below `2 ^ 50`, whose use and the margin of 50 MiB
  -- are less than the limit, and whose agent agrees to the new limit; counters below `2 ^ 62`, a pool
  -- that is not empty. A thread that reclaims reads the limit and the use; then a request
  -- of the container, for an amount below `2 ^ 62`, is granted; then the first thread calls the
  -- agent, sets the limit and counts its pages as given back. In the end the limit is the one
  -- that the reclaim worked out before the grant: what the request was answered is nowhere on record,
  -- and the pages granted are counted as allocated all the same.
  pub reclaim_overwrites_grant :
      (req res : Msg) (clifd : ℕ)
      → IsSender ec req p sc
      → IsValid ec.mem
      → req.rsrc_amnt < 2 ^ 62
      → req.req_type ≡ mem_type
      → 0 < ec.mem.unallocated_memory_in_pages
      → sc.mem.mem_limit_in_pages ≤ ec.mem.allocated_memory_in_pages
      → sc.mem.mem_limit_in_pages < 2 ^ 50
      → let goal = target world p ec sc ac s in
        let grant = min ec.mem.slice_size ec.mem.unallocated_memory_in_pages in
        world.usage_bytes ac.ip sc.c_id.docker_id + 52_428_800 < sc.mem.mem_limit_in_pages * 4096
        → world.resize_status ac.handle sc.c_id.cgroup_id goal ≡ 0
        → (plan : Option Plan) × (between after : ElasticContainer) × (answer : Msg) × (pages : ℕ)
          × (plan_reclaim world sc.c_id p ec ≡ ok (ec, plan))
          × (handle_mem_req world' req res clifd ec ≡ ok (between, answer, alloc_success))
          × (carry_out world sc.c_id plan between ≡ ok (after, pages))
          × (answer.rsrc_amnt ≡ req.rsrc_amnt + grant)
          × (after.heap p ≡ some (set_mem_limit_in_pages goal sc))
          × (goal + pages ≤ sc.mem.mem_limit_in_pages)
          × (sc.mem.mem_limit_in_pages ≤ goal + pages + 1)
          × ((on_mem (ec_update_reclaim_memory_in_pages pages) after).mem.allocated_memory_in_pages
                + pages
              ≡ ec.mem.allocated_memory_in_pages + grant)
  unfolding carry_out shrink_limit set_mem_limit_in_pages LocalMem.set_mem_limit_in_pages
  reclaim_overwrites_grant req res clifd sender v a t k held b m e =
      let pages = pages_taken world p ec sc ac s in
      let reclaimed : ElasticContainer =
        store p (set_mem_limit_in_pages (target world p ec sc ac s) (raised req)) (between req) in
      (
        some (record {
          container = sc;
          limit = page_to_byte sc.mem.mem_limit_in_pages;
          usage = world.usage_bytes ac.ip sc.c_id.docker_id;
        }),
        between req,
        reclaimed,
        record res { rsrc_amnt = req.rsrc_amnt + grant; request = 0 },
        pages,
        plan_made world p ec sc ac s b m,
        handle_mem_req_lem world' req res clifd ec p sc sender v a t k,
        carried_out world p ec sc ac s (between req) (raised req) (between-IsServed req) b m e,
        refl,
        ground arith,
        omega arith,
        omega arith,
        counted v req pages (omega arith),
      )
