-- ===== src/Manager/Memory/Request.antt =====
-- What `handle_mem_req` answers, and how the limit of a new container is put on account.
use ec_gcm.Common.{
  ℕ, ◌+◌, ◌-◌, ◌^◌, ◌≡◌, ◌∙◌, sym, ◌≤◌, ◌<◌, ◌==◌, arith, refl, add64, some, false, true, ltb, ok,
  back?, List, min, Returns, Outcome, slt64, is_neg,
}
use mathlib.Core.Path.{ap, subst}
use ec_gcm.Common.Map.{find}
use ec_gcm.Platform.{Net, World}
use ec_gcm.Agents.{AgentClient}
use ec_gcm.Stats.GlobalMem.{
  IsValid, incr_allocated_memory_in_pages, decr_unallocated_memory_in_pages,
}
use ec_gcm.SubContainer.{SubContainer, container_id, set_mem_limit_in_pages}
use ec_gcm.SubContainer.Identity.{container_key}
use ec_gcm.ElasticContainer.{ElasticContainer, store, get_sc_for_update_back}
use ec_gcm.EcApi.{ec_update_alloc_memory_in_pages}
use ec_gcm.EcApi.Calls.{sc_resize_lem}
use ec_gcm.Msg.{Msg, mem_type, alloc_success, alloc_mem_failed}
use ec_gcm.Manager.Memory.{
  on_mem, grant_memory, handle_mem_req, handle_reclaim_memory, refill, cut_limit,
}
use ec_gcm.Manager.Memory.Pages.{alloc_lem, reclaim_lem_pages, pages-eq_min, pages_held, returned}

module _ ⦃net : Net⦄ where
  -- The sender's container: the last of the entry under the group and the address of the request.
  pub record IsSender (ec : ElasticContainer) (req : Msg) (p : ℕ) (sc : SubContainer) : Type 0 where
    pub queue : List ℕ
    pub entry : find (container_id req.cgroup_id req.client_ip) ec.subcontainers ≡ some queue
    pub last : back? queue ≡ some p
    pub stored : ec.heap p ≡ some sc

  -- The answer to a request that is granted: `pages` more than it names.
  abbrev pub granted :
      Msg → Msg → ℕ → ℕ → SubContainer → ElasticContainer → Outcome (ElasticContainer × Msg × ℕ)
  granted req res pages p sc ec = ok (
    store p (set_mem_limit_in_pages (req.rsrc_amnt + pages) sc) (
        on_mem
          (λ m. record m {
            unallocated_memory_in_pages = m.unallocated_memory_in_pages - pages;
            allocated_memory_in_pages = m.allocated_memory_in_pages + pages;
          })
          ec),
    record res { rsrc_amnt = req.rsrc_amnt + pages; request = 0 },
    alloc_success,
  )

  pub grant_memory_lem :
      (world : World) (req res : Msg) (ec : ElasticContainer) (p : ℕ) (sc : SubContainer)
      → IsSender ec req p sc
      → IsValid ec.mem
      → req.rsrc_amnt < 2 ^ 62
      → grant_memory world req res ec
        ≡ granted req res (min ec.mem.slice_size ec.mem.unallocated_memory_in_pages) p sc ec
  unfolding grant_memory get_sc_for_update_back
  grant_memory_lem world req res ec p sc s v h =
      let pages = min ec.mem.slice_size ec.mem.unallocated_memory_in_pages in
      let sum : add64 req.rsrc_amnt pages ≡ req.rsrc_amnt + pages = ground arith in
      rw (s.entry) (
        rw (s.last) (
          rw (s.stored) (
            rw (pages-eq_min ec.mem) (rw (alloc_lem pages ec.mem v (ground arith)) (rw sum refl)))))

  -- What a granted request leaves: the answer is the amount of the request and the pages handed out,
  -- it is on record as the container's limit, and no page is made or lost.
  abbrev pub IsGranted :
      Msg → ℕ → ℕ → SubContainer → ElasticContainer → ElasticContainer × Msg × ℕ → Type 0
  IsGranted req pages p sc before (after, res, status) =
      (status ≡ alloc_success)
      × (res.request ≡ 0)
      × (res.rsrc_amnt ≡ req.rsrc_amnt + pages)
      × (after.heap p ≡ some (set_mem_limit_in_pages res.rsrc_amnt sc))
      × (pages_held after ≡ pages_held before)

  granted-IsGranted :
      (req res : Msg) (pages p : ℕ) (sc : SubContainer) (ec : ElasticContainer)
      → pages ≤ ec.mem.unallocated_memory_in_pages
      → Returns (IsGranted req pages p sc ec) (granted req res pages p sc ec)
  granted-IsGranted req res pages p sc ec h = (refl, refl, refl, ground arith, ground arith)

  -- A request for memory while the pool holds some, from a container on record, with counters and an
  -- amount below `2 ^ 62`: it is granted, with a slice of pages or the whole pool, whichever is less.
  -- The answer is the amount asked with these pages, it is on record as the container's limit, and
  -- the pages in the pool and in containers sum to what they did.
  pub handle_mem_req-IsGranted :
      (world : World) (req res : Msg) (clifd : ℕ) (ec : ElasticContainer) (p : ℕ)
      (sc : SubContainer)
      → IsSender ec req p sc
      → IsValid ec.mem
      → req.rsrc_amnt < 2 ^ 62
      → req.req_type ≡ mem_type
      → 0 < ec.mem.unallocated_memory_in_pages
      → Returns
          (IsGranted req (min ec.mem.slice_size ec.mem.unallocated_memory_in_pages) p sc ec)
          (handle_mem_req world req res clifd ec)
  unfolding handle_mem_req
  handle_mem_req-IsGranted world req res clifd ec p sc s v h t k =
      let typed : (req.req_type == mem_type) ≡ true = ground arith in
      let pooled : slt64 0 ec.mem.unallocated_memory_in_pages ≡ true = ground arith in
      rw typed (
        rw pooled (
          rw (grant_memory_lem world req res ec p sc s v h) (
            granted-IsGranted req res (min ec.mem.slice_size ec.mem.unallocated_memory_in_pages) p
              sc ec (ground arith))))

  -- A pool that is not negative, with pages given back.
  pub refill_lem :
      (world : World) (clifd : ℕ) (ec ec' : ElasticContainer) (pages : ℕ)
      → handle_reclaim_memory world clifd ec ≡ ok (ec', pages)
      → ec'.mem ≡ ec.mem
      → IsValid ec.mem
      → 0 < pages
      → pages ≤ ec.mem.allocated_memory_in_pages
      → refill world clifd ec ≡ ok (returned pages ec', false)
  unfolding refill
  refill_lem world clifd ec ec' pages r m v h k =
      let some_pages : ltb 0 pages ≡ true = ground arith in
      let not_negative : is_neg ec.mem.unallocated_memory_in_pages ≡ false = ground arith in
      rw r (
        rw some_pages (
          rw not_negative (
            ap (λ mem. ok (record ec' { mem = mem }, false))
              (reclaim_lem_pages pages ec'.mem (subst IsValid (sym m) v)
                (subst (λ mem. pages ≤ mem.allocated_memory_in_pages) (sym m) k)))))

  grant_returned :
      (world : World) (req res : Msg) (ec ec' : ElasticContainer) (pages p : ℕ) (sc : SubContainer)
      → ec'.mem ≡ ec.mem
      → IsSender ec' req p sc
      → IsValid ec.mem
      → req.rsrc_amnt < 2 ^ 62
      → ec.mem.unallocated_memory_in_pages ≡ 0
      → pages ≤ ec.mem.allocated_memory_in_pages
      → Returns
          (IsGranted req (min ec.mem.slice_size pages) p sc ec)
          (grant_memory world req res (returned pages ec'))
  grant_returned world req res ec ec' pages p sc m s v h z k =
      let slice_eq : ec'.mem.slice_size ≡ ec.mem.slice_size = ap (λ g. g.slice_size) m in
      let pool_eq : ec'.mem.unallocated_memory_in_pages ≡ 0 =
        ap (λ g. g.unallocated_memory_in_pages) m ∙ z in
      let alloc_eq : ec'.mem.allocated_memory_in_pages ≡ ec.mem.allocated_memory_in_pages =
        ap (λ g. g.allocated_memory_in_pages) m in
      let limit_eq : ec'.mem.memory_limit_in_pages ≡ ec.mem.memory_limit_in_pages =
        ap (λ g. g.memory_limit_in_pages) m in
      let sender : IsSender (returned pages ec') req p sc = record {
        queue = s.queue;
        entry = s.entry;
        last = s.last;
        stored = s.stored;
      } in
      let valid : IsValid (returned pages ec').mem = record {
        slice_lt = ground arith;
        limit_lt = ground arith;
        unallocated_lt = ground arith;
        allocated_lt = ground arith;
      } in
      rw (grant_memory_lem world req res (returned pages ec') p sc sender valid h)
        (refl, refl, ground arith, ground arith, ground arith)

  -- A request for memory from a container on record while the pool is empty, with counters and an
  -- amount below `2 ^ 62`, where the other containers give back `pages`, not
  -- more than is allocated, and leave the counters and the sender as they are: with no page given
  -- back the request fails with an amount of 0, and else it is granted out of the pages given back.
  pub mem_request_reclaimed :
      (world : World) (req res : Msg) (clifd : ℕ) (ec ec' : ElasticContainer) (pages p : ℕ)
      (sc : SubContainer)
      → handle_reclaim_memory world clifd ec ≡ ok (ec', pages)
      → ec'.mem ≡ ec.mem
      → IsSender ec' req p sc
      → IsValid ec.mem
      → req.rsrc_amnt < 2 ^ 62
      → req.req_type ≡ mem_type
      → ec.mem.unallocated_memory_in_pages ≡ 0
      → pages ≤ ec.mem.allocated_memory_in_pages
      → (pages ≡ 0
          → handle_mem_req world req res clifd ec
            ≡ ok (ec', record res { rsrc_amnt = 0 }, alloc_mem_failed))
        × (0 < pages
            → Returns
                (IsGranted req (min ec.mem.slice_size pages) p sc ec)
                (handle_mem_req world req res clifd ec))
  unfolding handle_mem_req refill
  mem_request_reclaimed world req res clifd ec ec' pages p sc r m s v h t z k =
      let typed : (req.req_type == mem_type) ≡ true = ground arith in
      let empty : slt64 0 ec.mem.unallocated_memory_in_pages ≡ false = ground arith in
      (
        λ e. rw typed (rw empty (rw r (rw e refl))),
        λ e. rw typed (
            rw empty (
              rw (refill_lem world clifd ec ec' pages r m v e k)
                (grant_returned world req res ec ec' pages p sc m s v h z k))),
      )

  -- A new container whose limit is above the pool, and whose known agent sets it to the pool, with
  -- counters and a limit below `2 ^ 62`: the whole limit is counted as allocated all the same, and the
  -- pages held sum to more than before by what the limit is above the pool.
  pub cut_limit_makes_pages :
      (world : World) (sc : SubContainer) (pages : ℕ) (ec : ElasticContainer) (ac : AgentClient)
      → find sc.c_id ec.sc_ac_map ≡ some (some ac)
      → world.resize_status ac.handle sc.c_id.cgroup_id ec.mem.unallocated_memory_in_pages ≡ 0
      → IsValid ec.mem
      → pages < 2 ^ 62
      → ec.mem.unallocated_memory_in_pages < pages
      → Returns
          (λ new. pages_held new ≡ pages_held ec + (pages - ec.mem.unallocated_memory_in_pages))
          (cut_limit world sc pages ec)
  unfolding cut_limit ec_update_alloc_memory_in_pages incr_allocated_memory_in_pages
      decr_unallocated_memory_in_pages
  cut_limit_makes_pages world sc pages ec ac f e v h k =
      rw (sc_resize_lem world sc.c_id ec.mem.unallocated_memory_in_pages ec ac f)
        (rw e (ground arith))
