-- ===== src/Threads/Requests/Rest.antt =====
-- What is left of a request at each place where its thread can stand, up to its answer.
use ec_gcm.Common.{
  ℕ, ◌≡◌, ◌∙◌, ap, Bool, refl, false, inl, if◌then◌else◌, ltb, ◌==◌, add64, sub64, slt64, is_neg,
  Outcome, ok, exited, hung, fault, or_fault, ◌>>=◌, true, Bool-cases, Option-cases, inr,
}
use ec_gcm.Platform.{Net}
use ec_gcm.Stats.GlobalMem.{
  incr_unallocated_memory_in_pages, decr_unallocated_memory_in_pages,
  incr_allocated_memory_in_pages, decr_allocated_memory_in_pages,
}
use ec_gcm.SubContainer.{SubContainer, container_id, set_mem_limit_in_pages}
use ec_gcm.ElasticContainer.{ElasticContainer, store, get_sc_for_update_back}
use ec_gcm.EcApi.{ec_update_alloc_memory_in_pages, ec_update_reclaim_memory_in_pages}
use ec_gcm.Msg.{Msg, mem_type, alloc_success, alloc_mem_failed}
use ec_gcm.Manager.Memory.{
  on_mem, handle_reclaim_memory, handle_mem_req, grant_memory, grant_pages, refill,
}
use ec_gcm.Threads.Requests.{
  MemCall, Held, locked, empty, indebted, repaying, crediting, debiting, rereading, ready, taking,
  putting, writing, leaving, refusal, after_reclaim, advance,
}

abbrev pub Answer : Type 0
Answer = Outcome (ElasticContainer × Msg × ℕ)

module _ ⦃net : Net⦄ where
  abbrev write_limit : MemCall → ℕ → ElasticContainer → Answer
  write_limit c ret ec =
      let limit = add64 c.req.rsrc_amnt ret in
      do
        p ← get_sc_for_update_back (container_id c.req.cgroup_id c.req.client_ip) ec
        sc ← or_fault (ec.heap p)
        ok (
          store p (set_mem_limit_in_pages limit sc) ec,
          record (c.res) { rsrc_amnt = limit; request = 0 },
          alloc_success,
        )

  abbrev put : MemCall → ℕ → ElasticContainer → Answer
  put c ret ec = write_limit c ret (on_mem (incr_allocated_memory_in_pages ret) ec)

  abbrev take : MemCall → ℕ → ElasticContainer → Answer
  take c ret ec = put c ret (on_mem (decr_unallocated_memory_in_pages ret) ec)

  abbrev grant : MemCall → ℕ → ElasticContainer → Answer
  grant c avail ec = take c (if ltb ec.mem.slice_size avail then ec.mem.slice_size else avail) ec

  abbrev reread : MemCall → ElasticContainer → Answer
  reread c ec = grant c ec.mem.unallocated_memory_in_pages ec

  abbrev debit : MemCall → ℕ → ElasticContainer → Answer
  debit c pages ec = reread c (on_mem (decr_allocated_memory_in_pages pages) ec)

  abbrev credit : MemCall → ℕ → ElasticContainer → Answer
  credit c pages ec = debit c pages (on_mem (incr_unallocated_memory_in_pages pages) ec)

  abbrev repay : MemCall → ℕ → ℕ → ElasticContainer → Answer
  repay c avail pages ec =
      credit c pages (on_mem (decr_allocated_memory_in_pages (sub64 0 avail)) ec)

  abbrev settle : MemCall → ℕ → ℕ → ElasticContainer → Answer
  settle c avail pages ec =
      repay c avail pages (on_mem (incr_unallocated_memory_in_pages (sub64 0 avail)) ec)

  abbrev reclaimed : MemCall → ℕ → ℕ → ElasticContainer → Answer
  reclaimed c avail pages ec =
      if ltb 0 pages
      then if is_neg avail then settle c avail pages ec else credit c pages ec
      else ok (ec, refusal c, alloc_mem_failed)

  abbrev collect : MemCall → ℕ → ElasticContainer → Answer
  collect c avail ec = handle_reclaim_memory c.world c.clifd ec >>= λ r. reclaimed c avail r.1 r.0

  unfoldable pub rest : Held → ElasticContainer → Answer
  rest (locked c) ec =
      let avail = ec.mem.unallocated_memory_in_pages in
      if slt64 0 avail then grant c avail ec else collect c avail ec
  rest (empty c avail) ec = collect c avail ec
  rest (indebted c avail pages) ec = settle c avail pages ec
  rest (repaying c avail pages) ec = repay c avail pages ec
  rest (crediting c pages) ec = credit c pages ec
  rest (debiting c pages) ec = debit c pages ec
  rest (rereading c) ec = reread c ec
  rest (ready c avail) ec = grant c avail ec
  rest (taking c ret) ec = take c ret ec
  rest (putting c ret) ec = put c ret ec
  rest (writing c ret) ec = write_limit c ret ec
  rest (leaving c answer code) ec = ok (ec, answer, code)

  reclaimed-rest :
      (c : MemCall) (avail pages : ℕ) (ec : ElasticContainer)
      → reclaimed c avail pages ec ≡ rest (after_reclaim c avail pages) ec
  unfolding rest
  reclaimed-rest c avail pages ec = elim (Bool-cases (ltb 0 pages)) [
    | inr e ↦ rw e refl
    | inl e ↦ elim (Bool-cases (is_neg avail)) [
      | inl n ↦ rw e (rw n refl)
      | inr n ↦ rw e (rw n refl)
    ]
  ]

  -- `refill` after its reclaim, and what follows it.
  refilled : ℕ → ElasticContainer × ℕ → Outcome (ElasticContainer × Bool)
  refilled avail r =
      let settled =
        if is_neg avail
        then on_mem (decr_allocated_memory_in_pages (sub64 0 avail))
            (on_mem (incr_unallocated_memory_in_pages (sub64 0 avail)) r.0)
        else r.0 in
      if ltb 0 r.1
      then ok (on_mem (ec_update_reclaim_memory_in_pages r.1) settled, false)
      else ok (r.0, true)

  grant_or_refuse : MemCall → ElasticContainer × Bool → Answer
  grant_or_refuse c r =
      if r.1 then ok (r.0, refusal c, alloc_mem_failed) else grant_memory c.world c.req c.res r.0

  collect-refilled :
      (c : MemCall) (avail : ℕ) (m : Outcome (ElasticContainer × ℕ))
      → (m >>= λ r. reclaimed c avail r.1 r.0) ≡ (m >>= refilled avail >>= grant_or_refuse c)
  unfolding refilled grant_or_refuse grant_memory grant_pages ec_update_alloc_memory_in_pages
      ec_update_reclaim_memory_in_pages
  collect-refilled c avail exited = refl
  collect-refilled c avail hung = refl
  collect-refilled c avail fault = refl
  collect-refilled c avail (ok r) = elim (Bool-cases (ltb 0 r.1)) [
    | inr e ↦ rw e refl
    | inl e ↦ elim (Bool-cases (is_neg avail)) [
      | inl n ↦ rw e (rw n refl)
      | inr n ↦ rw e (rw n refl)
    ]
  ]

  -- With the type tested, a request is what is left of it when `memlock` is taken.
  pub rest-locked :
      (c : MemCall) (ec : ElasticContainer)
      → (c.req.req_type == mem_type) ≡ true
      → rest (locked c) ec ≡ handle_mem_req c.world c.req c.res c.clifd ec
  unfolding rest handle_mem_req refill refilled grant_or_refuse
  rest-locked c ec t = elim (Bool-cases (slt64 0 ec.mem.unallocated_memory_in_pages)) [
    | inl pool ↦
        rw t (rw pool (unfold grant_memory grant_pages ec_update_alloc_memory_in_pages in refl))
    | inr none_left ↦ rw t (
        rw none_left (
          collect-refilled c ec.mem.unallocated_memory_in_pages
            (handle_reclaim_memory c.world c.clifd ec)))
  ]

  unfoldable pub rest_of : ElasticContainer × Held → Answer
  rest_of r = rest r.1 r.0

  marked : MemCall → ℕ → ElasticContainer × ℕ → Outcome (ElasticContainer × Held)
  marked c avail r = ok (r.0, after_reclaim c avail r.1)

  collect-marked :
      (c : MemCall) (avail : ℕ) (m : Outcome (ElasticContainer × ℕ))
      → (m >>= λ r. reclaimed c avail r.1 r.0) ≡ (m >>= marked c avail >>= rest_of)
  unfolding rest_of marked
  collect-marked c avail (ok r) = reclaimed-rest c avail r.1 r.0
  collect-marked c avail exited = refl
  collect-marked c avail hung = refl
  collect-marked c avail fault = refl

  -- The address found, if there is one, and then the container at it.
  written :
      (c : MemCall) (limit : ℕ) (ec : ElasticContainer) (m : Outcome ℕ)
      → let answer : Msg = record (c.res) { rsrc_amnt = limit; request = 0 } in
        let stored : ℕ → SubContainer → ElasticContainer =
          λ p sc. store p (set_mem_limit_in_pages limit sc) ec in
        (m >>= λ p. or_fault (ec.heap p) >>= λ sc. ok (stored p sc, answer, alloc_success)) ≡ (
          m
          >>= (λ p. or_fault (ec.heap p) >>= λ sc. ok (stored p sc, leaving c answer alloc_success))
          >>= rest_of)
  unfolding rest rest_of
  written c limit ec exited = refl
  written c limit ec hung = refl
  written c limit ec fault = refl
  written c limit ec (ok p) = elim (Option-cases (ec.heap p)) [
    | inl e ↦ rw e refl
    | inr (sc, e) ↦ rw e refl
  ]

  -- A request is its next access and what is left of it then.
  pub rest-advance : (h : Held) (ec : ElasticContainer) → rest h ec ≡ (advance h ec >>= rest_of)
  unfolding advance rest rest_of marked
  rest-advance (locked c) ec = elim (Bool-cases (slt64 0 ec.mem.unallocated_memory_in_pages)) [
    | inl e ↦ rw e refl
    | inr e ↦ rw e refl
  ]
  rest-advance (empty c avail) ec =
      collect-marked c avail (handle_reclaim_memory c.world c.clifd ec)
  rest-advance (indebted c avail pages) ec = refl
  rest-advance (repaying c avail pages) ec = refl
  rest-advance (crediting c pages) ec = refl
  rest-advance (debiting c pages) ec = refl
  rest-advance (rereading c) ec = refl
  rest-advance (ready c avail) ec = refl
  rest-advance (taking c ret) ec = refl
  rest-advance (putting c ret) ec = refl
  rest-advance (writing c ret) ec =
      written c (add64 c.req.rsrc_amnt ret) ec
        (get_sc_for_update_back (container_id c.req.cgroup_id c.req.client_ip) ec)
  rest-advance (leaving c answer code) ec = refl

  -- An access leaves the rest of the request as it is: what the handler will have done and answered.
  pub advance-rest :
      (h h' : Held) (ec ec' : ElasticContainer)
      → advance h ec ≡ ok (ec', h')
      → rest h ec ≡ rest h' ec'
  unfolding rest_of
  advance-rest h h' ec ec' e = rest-advance h ec ∙ ap (λ o. o >>= rest_of) e
