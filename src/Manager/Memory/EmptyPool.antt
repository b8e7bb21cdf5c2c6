-- ===== src/Manager/Memory/EmptyPool.antt =====
-- What `handle_mem_req` answers when the pool is empty and the other containers are asked.
use ec_gcm.Common.{ok, ℕ, ◌^◌, ◌≡◌, ◌∙◌, ◌≤◌, ◌<◌, arith, All, min, Returns, Returns-ok}
use mathlib.Core.Path.{ap}
use ec_gcm.Common.Map.{find}
use ec_gcm.Platform.{Net, World}
use ec_gcm.Stats.GlobalMem
use ec_gcm.SubContainer.{SubContainer, container_id}
use ec_gcm.SubContainer.Identity.{container_key}
use ec_gcm.ElasticContainer.{ElasticContainer}
use ec_gcm.ElasticContainer.Invariant.{IsValid}
use ec_gcm.Msg.{Msg, mem_type, alloc_mem_failed}
use ec_gcm.Manager.Memory.{handle_mem_req, handle_reclaim_memory}
use ec_gcm.Manager.Memory.Request.{IsSender, IsGranted, mem_request_reclaimed}
use ec_gcm.Manager.Memory.Shrink.{limits, IsWithin}
use ec_gcm.Manager.Memory.Total.{IsConserved, handle_reclaim_memory-IsConserved}

module _ ⦃net : Net⦄ where
  IsSender-after :
      (req : Msg) (clifd p : ℕ) (sc : SubContainer) (ec : ElasticContainer)
      (r : ElasticContainer × ℕ)
      → IsConserved clifd ec r
      → IsSender ec req p sc
      → sc.fd ≡ clifd
      → IsSender r.0 req p sc
  IsSender-after req clifd p sc ec r (heap, same, skipped, kept) s f = record {
    queue = s.queue;
    entry =
        ap (λ e. find (container_id req.cgroup_id req.client_ip) e.subcontainers) same ∙ s.entry;
    last = s.last;
    stored = ap (λ e. e.heap p) same ∙ skipped p sc s.stored (ground arith);
  }

module _ ⦃net : Net⦄ (world : World) where
  -- A request for memory from a container on record while the pool is empty, over the sender's
  -- connection, with counters and an amount below `2 ^ 62`, in a valid application where each entry's
  -- last container, with a limit below `2 ^ 50` pages, uses at most its limit and has a known
  -- agent, and where these limits sum to at most the pages counted as allocated. Whatever the agents
  -- and cAdvisor reply, the handler reclaims and returns. The reclaim changes the containers of other connections only, and
  -- the pages it gives back and the new limits sum to at most the old limits.
  -- If they give back nothing, the request is refused with an amount of 0, and the application is as
  -- the reclaim left it, with the account as before. If they give back pages, it is granted out of
  -- just these: a slice or all of them, whichever is less.
  pub mem_request_on_empty_pool :
      (req res : Msg) (clifd : ℕ) (ec : ElasticContainer) (p : ℕ) (sc : SubContainer)
      → IsValid ec
      → All (IsWithin world ec) ec.subcontainers
      → limits ec.heap ec.subcontainers ≤ ec.mem.allocated_memory_in_pages
      → GlobalMem.IsValid ec.mem
      → IsSender ec req p sc
      → sc.fd ≡ clifd
      → req.rsrc_amnt < 2 ^ 62
      → req.req_type ≡ mem_type
      → ec.mem.unallocated_memory_in_pages ≡ 0
      → (after : ElasticContainer) × (pages : ℕ) × (handle_reclaim_memory world clifd ec
          ≡ ok (after, pages))
        × IsConserved clifd ec (after, pages)
        × (pages ≡ 0
            → (handle_mem_req world req res clifd ec
                ≡ ok (after, record res { rsrc_amnt = 0 }, alloc_mem_failed))
              × (after.mem ≡ ec.mem))
        × (0 < pages
            → Returns
                (IsGranted req (min ec.mem.slice_size pages) p sc ec)
                (handle_mem_req world req res clifd ec))
  mem_request_on_empty_pool req res clifd ec p sc v ws h m s f a t z =
      let small : ec.mem.allocated_memory_in_pages < 2 ^ 62 = m.allocated_lt in
      let (r, ran, c) =
        Returns-ok (IsConserved clifd ec) (handle_reclaim_memory world clifd ec)
          (handle_reclaim_memory-IsConserved world clifd ec v ws (omega arith)) in
      let account : r.0.mem ≡ ec.mem = ap (λ e. e.mem) c.1 in
      let below : r.1 ≤ limits ec.heap ec.subcontainers = let kept = c.3 in omega arith in
      let (refused, served) =
        mem_request_reclaimed world req res clifd ec r.0 r.1 p sc ran account
          (IsSender-after req clifd p sc ec r c s f) m a t z (omega arith) in
      (r.0, r.1, ran, c, λ e. (refused e, account), served)
