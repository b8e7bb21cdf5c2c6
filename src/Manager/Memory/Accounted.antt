-- ===== src/Manager/Memory/Accounted.antt =====
-- The pages counted as allocated and the limits of the containers, over requests for memory and
-- rounds of `run`.
use ec_gcm.Common.{
  ℕ, ◌+◌, ◌-◌, ◌^◌, ◌≡◌, ◌∙◌, refl, ◌≤◌, ◌<◌, ◌==◌, arith, true, false, some, Option, [], ◌∷◌, All,
  back?, ltb, slt64, if_cases, ok, min, Returns, Returns-ok, Returns-map, >>=-Returns, Bool-cases,
  Option-cases, inl, inr,
}
use mathlib.Core.Path.{ap}
use ec_gcm.Platform.{Net, World}
use ec_gcm.Stats.GlobalMem
use ec_gcm.Stats.LocalMem
use ec_gcm.SubContainer.{SubContainer, set_mem_limit_in_pages}
use ec_gcm.ElasticContainer.{ElasticContainer, SubcontainerMap, write}
use ec_gcm.ElasticContainer.Heap.{count, uses}
use ec_gcm.ElasticContainer.Invariant.{IsValid}
use ec_gcm.Msg.{Msg, mem_type}
use ec_gcm.Manager.Memory.{
  handle_mem_req, handle_reclaim_memory, reclaim_all, periodic_reclaim, grant_memory, refill,
}
use ec_gcm.Manager.Memory.Request.{IsSender, grant_memory_lem, refill_lem}
use ec_gcm.Manager.Memory.Pages.{reclaim_lem_pages, returned, pages_held}
use ec_gcm.Manager.Memory.Shrink.{IsWithin-IsReached, Heap, limits, count-back, unheld, IsWithin}
use ec_gcm.Manager.Memory.Total.{
  IsConserved, Conserves, reclaim_all-Conserves, handle_reclaim_memory-IsConserved,
}

-- The limits of the containers are pages that are counted as allocated.
abbrev pub IsAccounted : ElasticContainer → Type 0
IsAccounted ec = limits ec.heap ec.subcontainers ≤ ec.mem.allocated_memory_in_pages

limits-unheld :
    (heap : Heap) (p : ℕ) (v : Option SubContainer) (m : SubcontainerMap)
    → uses p m ≡ 0
    → limits (write heap p v) m ≡ limits heap m
limits-unheld heap p v [] h = refl
limits-unheld heap p v ((id, q) ∷ m) h =
    let rest : limits (write heap p v) m ≡ limits heap m =
      limits-unheld heap p v m (omega (arith, h)) in
    elim (Option-cases (back? q)) [
      | inl e ↦ rw e (rw rest refl)
      | inr (r, e) ↦
          let other : (p == r) ≡ false = unheld p r q e (omega (arith, h)) in
          rw e (rw other (rw rest refl))
    ]

-- A container that is written in its place raises the limits by at most what its own is raised.
limits-write :
    (heap : Heap) (p : ℕ) (old new : SubContainer) (m : SubcontainerMap)
    → heap p ≡ some old
    → uses p m ≤ 1
    → limits (write heap p (some new)) m
      ≤ limits heap m + (new.mem.mem_limit_in_pages - old.mem.mem_limit_in_pages)
limits-write heap p old new [] e h = omega arith
limits-write heap p old new ((id, q) ∷ m) e h =
    let rest : limits (write heap p (some new)) m
        ≤ limits heap m + (new.mem.mem_limit_in_pages - old.mem.mem_limit_in_pages) =
      limits-write heap p old new m e (omega (arith, h)) in
    elim (Option-cases (back? q)) [
      | inl b ↦ rw b (omega (arith, rest))
      | inr (r, b) ↦ elim (Bool-cases (p == r)) [
        | inl same ↦
            let eq : r ≡ p = ground arith in
            let held : 1 ≤ count p q = count-back p q (b ∙ ap some eq) in
            let u : uses p m ≡ 0 = omega (arith, h) in
            let rest_eq : limits (write heap p (some new)) m ≡ limits heap m =
              limits-unheld heap p (some new) m u in
            let here : heap r ≡ some old = rw eq e in
            rw b (rw same (rw here (rw rest_eq (omega arith))))
        | inr other ↦ rw b (rw other (omega (arith, rest)))
      ]
    ]

-- The account balances: no page is made or lost, and the limits are pages counted as allocated.
abbrev pub IsBalanced : ElasticContainer → ElasticContainer → Type 0
IsBalanced before after = (pages_held after ≡ pages_held before) × IsAccounted after

module _ ⦃net : Net⦄ (world : World) where
  grant_memory-IsBalanced :
      (req res : Msg) (ec : ElasticContainer) (p : ℕ) (sc : SubContainer)
      → IsSender ec req p sc
      → GlobalMem.IsValid ec.mem
      → uses p ec.subcontainers ≤ 1
      → req.rsrc_amnt ≤ sc.mem.mem_limit_in_pages
      → req.rsrc_amnt < 2 ^ 62
      → IsAccounted ec
      → Returns (λ r. IsBalanced ec r.0) (grant_memory world req res ec)
  unfolding set_mem_limit_in_pages LocalMem.set_mem_limit_in_pages
  grant_memory-IsBalanced req res ec p sc s v once a b h =
      let pages = min ec.mem.slice_size ec.mem.unallocated_memory_in_pages in
      let new : SubContainer = set_mem_limit_in_pages (req.rsrc_amnt + pages) sc in
      let raised : limits (write ec.heap p (some new)) ec.subcontainers
          ≤ limits ec.heap ec.subcontainers + (req.rsrc_amnt + pages - sc.mem.mem_limit_in_pages) =
        limits-write ec.heap p sc new ec.subcontainers s.stored once in
      rw (grant_memory_lem world req res ec p sc s v b) (ground arith, ground arith)

  -- The pool is refilled with pages that other containers gave out of their limits.
  returned-IsBalanced :
      (ec : ElasticContainer) (heap : Heap) (pages : ℕ)
      → IsAccounted ec
      → limits heap ec.subcontainers + pages ≤ limits ec.heap ec.subcontainers
      → IsBalanced ec (returned pages (record ec { heap = heap }))
  returned-IsBalanced ec heap pages a k = (omega arith, omega arith)

  refilled-IsBalanced :
      (req res : Msg) (clifd : ℕ) (ec : ElasticContainer) (p : ℕ) (sc : SubContainer) (heap : Heap)
      (pages : ℕ)
      → handle_reclaim_memory world clifd ec ≡ ok (record ec { heap = heap }, pages)
      → limits heap ec.subcontainers + pages ≤ limits ec.heap ec.subcontainers
      → IsSender (record ec { heap = heap }) req p sc
      → GlobalMem.IsValid ec.mem
      → uses p ec.subcontainers ≤ 1
      → req.rsrc_amnt ≤ sc.mem.mem_limit_in_pages
      → req.rsrc_amnt < 2 ^ 62
      → IsAccounted ec
      → req.req_type ≡ mem_type
      → ec.mem.unallocated_memory_in_pages ≡ 0
      → Returns (λ r. IsBalanced ec r.0) (handle_mem_req world req res clifd ec)
  unfolding handle_mem_req refill
  refilled-IsBalanced req res clifd ec p sc heap pages ran k s v once a b h t z =
      let typed : (req.req_type == mem_type) ≡ true = ground arith in
      let empty : slt64 0 ec.mem.unallocated_memory_in_pages ≡ false = ground arith in
      let alloc_lt : ec.mem.allocated_memory_in_pages < 2 ^ 62 = v.allocated_lt in
      let ec' : ElasticContainer = returned pages (record ec { heap = heap }) in
      let (held, accounted) = returned-IsBalanced ec heap pages h k in
      let sender : IsSender ec' req p sc = record {
        queue = s.queue;
        entry = s.entry;
        last = s.last;
        stored = s.stored;
      } in
      let valid : GlobalMem.IsValid ec'.mem = record {
        slice_lt = v.slice_lt;
        limit_lt = v.limit_lt;
        unallocated_lt = omega arith;
        allocated_lt = omega arith;
      } in
      elim (Bool-cases (ltb 0 pages)) [
        | inl some_pages ↦ rw typed (
            rw empty (
              rw
                (refill_lem world clifd ec (record ec { heap = heap }) pages ran refl v
                  (ground arith) (omega arith))
                (Returns-map (λ r. IsBalanced ec' r.0) (λ r. IsBalanced ec r.0)
                  (grant_memory world req res ec') (λ r c. (c.0 ∙ held, c.1))
                  (grant_memory-IsBalanced req res ec' p sc sender valid once a b accounted))))
        | inr e ↦
            let none_left : pages ≡ 0 = ground arith in
            rw typed (rw empty (rw ran (rw e (refl, omega arith))))
      ]

  -- A request of any type over the sender's connection, from a container on record whose limit on
  -- record is at least the amount it names, with counters and an amount below `2 ^ 62`, in a valid
  -- application where each entry's last container, with a limit below `2 ^ 50` pages, uses at most
  -- its limit and has a known agent, and where these limits sum to at most
  -- the pages counted as allocated. Whatever the agents and cAdvisor reply, `handle_mem_req` returns,
  -- the pages in the pool and in containers sum to what they did, and the limits still sum to at most
  -- the pages counted as allocated.
  pub handle_mem_req-IsBalanced :
      (req res : Msg) (clifd : ℕ) (ec : ElasticContainer) (p : ℕ) (sc : SubContainer)
      → IsValid ec
      → All (IsWithin world ec) ec.subcontainers
      → IsAccounted ec
      → GlobalMem.IsValid ec.mem
      → IsSender ec req p sc
      → sc.fd ≡ clifd
      → req.rsrc_amnt ≤ sc.mem.mem_limit_in_pages
      → req.rsrc_amnt < 2 ^ 62
      → Returns (λ r. IsBalanced ec r.0) (handle_mem_req world req res clifd ec)
  unfolding handle_mem_req
  handle_mem_req-IsBalanced req res clifd ec p sc v ws h m s f a b =
      let alloc_lt : ec.mem.allocated_memory_in_pages < 2 ^ 62 = m.allocated_lt in
      let pool_lt : ec.mem.unallocated_memory_in_pages < 2 ^ 62 = m.unallocated_lt in
      let (r, ran, (heap, same, skipped, kept)) =
        Returns-ok (IsConserved clifd ec) (handle_reclaim_memory world clifd ec)
          (handle_reclaim_memory-IsConserved world clifd ec v ws (omega arith)) in
      let after : IsSender (record ec { heap = heap }) req p sc = record {
        queue = s.queue;
        entry = s.entry;
        last = s.last;
        stored = skipped p sc s.stored (ground arith);
      } in
      elim (Bool-cases (req.req_type == mem_type)) [
        | inr other ↦ rw other (refl, h)
        | inl typed ↦ elim (Bool-cases (ltb 0 ec.mem.unallocated_memory_in_pages)) [
          | inl pool ↦
              let pooled : slt64 0 ec.mem.unallocated_memory_in_pages ≡ true = ground arith in
              rw typed (rw pooled (grant_memory-IsBalanced req res ec p sc s m (v.once p) a b h))
          | inr none_left ↦
              refilled-IsBalanced req res clifd ec p sc heap r.1 (ran ∙ ap (λ e. ok (e, r.1)) same)
                kept after m (v.once p) a b h (ground arith) (ground arith)
        ]
      ]

  -- A round of `run` in a valid application where each entry's last container, with a limit below
  -- `2 ^ 50` pages, uses at most its limit and has a known agent, and
  -- where these limits sum to at most the pages counted as allocated, with counters below `2 ^ 62`.
  -- Whatever the agents and cAdvisor reply, the round returns, the pages in the pool and in
  -- containers sum to what they did, and the limits still sum to at most the pages counted as
  -- allocated.
  pub periodic_reclaim-IsBalanced :
      (ec : ElasticContainer)
      → IsValid ec
      → All (IsWithin world ec) ec.subcontainers
      → IsAccounted ec
      → GlobalMem.IsValid ec.mem
      → Returns (IsBalanced ec) (periodic_reclaim world ec)
  unfolding periodic_reclaim
  periodic_reclaim-IsBalanced ec v ws h m =
      let alloc_lt : ec.mem.allocated_memory_in_pages < 2 ^ 62 = m.allocated_lt in
      >>=-Returns (Conserves world (λ _. false) ec ec.subcontainers 0) (IsBalanced ec)
        (reclaim_all world (λ _. false) ec.subcontainers 0 ec) _
        (reclaim_all-Conserves world (λ _. false) ec.subcontainers 0 ec
          (IsWithin-IsReached world ec v ws) v.once (omega arith))
        (λ r c.
          let kept : limits c.heap ec.subcontainers + r.1 ≤ 0 + limits ec.heap ec.subcontainers =
            c.kept in
          rw (c.same) (
            if_cases (IsBalanced ec) (ltb 0 r.1)
              (λ e.
                rw (reclaim_lem_pages r.1 ec.mem m (omega arith))
                  (returned-IsBalanced ec c.heap r.1 h (omega arith)))
              (λ e. (refl, omega arith))))
