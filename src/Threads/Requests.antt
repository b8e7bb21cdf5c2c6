-- ===== src/Threads/Requests.antt =====
-- `Manager::handle_mem_req` in threads: what one thread does between two accesses to what the threads
-- share, with `memlock` and the mutex of each counter.
pub mod Rest
pub mod Serial
pub mod Refinement
pub mod Release
use ec_gcm.Common.{
  ℕ, ◌≡◌, Option, none, some, Bool, not, if◌then◌else◌, ltb, ◌==◌, add64, sub64, slt64, is_neg,
  Outcome, ok, or_fault, ◌>>=◌,
}
use ec_gcm.Platform.{Net, World}
use ec_gcm.Stats.GlobalMem.{
  incr_unallocated_memory_in_pages, decr_unallocated_memory_in_pages,
  incr_allocated_memory_in_pages, decr_allocated_memory_in_pages,
}
use ec_gcm.SubContainer.{container_id, set_mem_limit_in_pages}
use ec_gcm.ElasticContainer.{ElasticContainer, store, get_sc_for_update_back}
use ec_gcm.Msg.{Msg, mem_type, alloc_success, alloc_mem_failed}
use ec_gcm.Manager.Memory.{on_mem, handle_reclaim_memory}

-- The arguments of one call, with what agents and cAdvisor answer while it runs.
pub record MemCall : Type 0 where
  pub world : World
  pub req : Msg
  pub res : Msg
  pub clifd : ℕ

-- Where a thread stands between `memlock.lock()` and `memlock.unlock()`, with its local variables.
-- `avail` is `memory_available`, `pages` is `reclaimed_mem`.
pub data Held : Type 0 where
  locked : MemCall → Held
  empty : MemCall → (avail : ℕ) → Held
  indebted : MemCall → (avail pages : ℕ) → Held
  repaying : MemCall → (avail pages : ℕ) → Held
  crediting : MemCall → (pages : ℕ) → Held
  debiting : MemCall → (pages : ℕ) → Held
  rereading : MemCall → Held
  ready : MemCall → (avail : ℕ) → Held
  taking : MemCall → (ret : ℕ) → Held
  putting : MemCall → (ret : ℕ) → Held
  writing : MemCall → (ret : ℕ) → Held
  leaving : MemCall → (answer : Msg) → (code : ℕ) → Held

pub data Pc : Type 0 where
  idle : Pc
  waiting : MemCall → Pc
  held : Held → Pc
  done : MemCall → (answer : Msg) → (code : ℕ) → Pc

abbrev pub refusal : MemCall → Msg
refusal c = record (c.res) { rsrc_amnt = 0 }

-- Before the lock: the test of the type.
unfoldable pub enter : MemCall → Pc
enter c =
    if not (c.req.req_type == mem_type) then done c (refusal c) alloc_mem_failed else waiting c

-- `handle_reclaim_memory` has given back `pages`.
abbrev pub after_reclaim : MemCall → ℕ → ℕ → Held
after_reclaim c avail pages =
    if ltb 0 pages
    then if is_neg avail then indebted c avail pages else crediting c pages
    else leaving c (refusal c) alloc_mem_failed

module _ ⦃net : Net⦄ where
  -- The next access of the thread that holds `memlock`. Only the unlock follows `leaving`.
  unfoldable pub advance : Held → ElasticContainer → Outcome (ElasticContainer × Held)
  advance (locked c) ec =
      let avail = ec.mem.unallocated_memory_in_pages in
      ok (ec, if slt64 0 avail then ready c avail else empty c avail)
  advance (empty c avail) ec = do
    r ← handle_reclaim_memory c.world c.clifd ec
    ok (r.0, after_reclaim c avail r.1)
  advance (indebted c avail pages) ec =
      ok (on_mem (incr_unallocated_memory_in_pages (sub64 0 avail)) ec, repaying c avail pages)
  advance (repaying c avail pages) ec =
      ok (on_mem (decr_allocated_memory_in_pages (sub64 0 avail)) ec, crediting c pages)
  advance (crediting c pages) ec =
      ok (on_mem (incr_unallocated_memory_in_pages pages) ec, debiting c pages)
  advance (debiting c pages) ec = ok (on_mem (decr_allocated_memory_in_pages pages) ec, rereading c)
  advance (rereading c) ec = ok (ec, ready c ec.mem.unallocated_memory_in_pages)
  advance (ready c avail) ec =
      ok (ec, taking c (if ltb ec.mem.slice_size avail then ec.mem.slice_size else avail))
  advance (taking c ret) ec = ok (on_mem (decr_unallocated_memory_in_pages ret) ec, putting c ret)
  advance (putting c ret) ec = ok (on_mem (incr_allocated_memory_in_pages ret) ec, writing c ret)
  advance (writing c ret) ec =
      let limit = add64 c.req.rsrc_amnt ret in
      do
        p ← get_sc_for_update_back (container_id c.req.cgroup_id c.req.client_ip) ec
        sc ← or_fault (ec.heap p)
        ok (
          store p (set_mem_limit_in_pages limit sc) ec,
          leaving c (record (c.res) { rsrc_amnt = limit; request = 0 }) alloc_success,
        )
  advance (leaving c answer code) ec = ok (ec, leaving c answer code)

-- The application, the thread that holds `memlock`, and where each thread stands.
pub record Process : Type 0 where
  pub ec : ElasticContainer
  pub memlock : Option ℕ
  pub pc : ℕ → Pc

abbrev pub move : ℕ → Pc → (ℕ → Pc) → ℕ → Pc
move i p pc j = if i == j then p else pc j

module _ ⦃net : Net⦄ where
  -- One access of one thread. A message can arrive at an idle thread, and a thread that has answered
  -- waits for the next.
  pub data Step (s : Process) : Process → Type 0 where
    arrive :
        (i : ℕ) (c : MemCall) → s.pc i ≡ idle → Step s (record s { pc = move i (enter c) s.pc })
    lock :
        (i : ℕ) (c : MemCall)
        → s.pc i ≡ waiting c
        → s.memlock ≡ none
        → Step s (record s { memlock = some i; pc = move i (held (locked c)) s.pc })
    work :
        (i : ℕ) (h h' : Held) (ec : ElasticContainer)
        → s.pc i ≡ held h
        → advance h s.ec ≡ ok (ec, h')
        → Step s (record s { ec = ec; pc = move i (held h') s.pc })
    unlock :
        (i : ℕ) (c : MemCall) (answer : Msg) (code : ℕ)
        → s.pc i ≡ held (leaving c answer code)
        → Step s (record s { memlock = none; pc = move i (done c answer code) s.pc })
    reply :
        (i : ℕ) (c : MemCall) (answer : Msg) (code : ℕ)
        → s.pc i ≡ done c answer code
        → Step s (record s { pc = move i idle s.pc })

  pub data Reach (ec : ElasticContainer) : Process → Type 0 where
    start : Reach ec (record { ec = ec; memlock = none; pc = λ _. idle })
    later : {s t : Process} → Reach ec s → Step s t → Reach ec t
