-- ===== src/Manager/Memory/Evolution.antt =====
-- The handlers of memory leave the queues, and every container under its key with its windows.
mod Reclaims
use ec_gcm.Common.{
  ℕ, ◌==◌, not, if_cases, [], ◌∷◌, ltb, leb, is_neg, slt64, sub64, add64, Whenever, Outcome,
  >>=-Whenever, or_fault-Whenever, Whenever-any, Whenever-map,
}
use text.Mathlib.Text.{◌==◌ as str_eq}
use ec_gcm.Platform.{Net, World}
use ec_gcm.SubContainer.{SubContainer, container_id, set_mem_limit_in_pages}
use ec_gcm.ElasticContainer.{
  ElasticContainer, store, get_sc_for_update_back, get_sc_memory_limit_in_bytes,
}
use ec_gcm.ElasticContainer.Evolution.{Evolves, Evolves-refl, Evolves-trans, store-Evolves}
use ec_gcm.EcApi.{
  sc_resize_memory_limit_in_pages, ec_update_alloc_memory_in_pages,
  ec_update_reclaim_memory_in_pages,
}
use ec_gcm.EcApi.Evolution.{
  sc_resize_memory_limit_in_pages-Evolves, set_mem_limit_in_pages-Replaces,
}
use ec_gcm.Msg.{Msg, mem_type}
use ec_gcm.Manager.Memory.{
  byte_to_page, on_mem, grant_pages, handle_reclaim_memory, refill, grant_memory, handle_mem_req,
  cut_limit, make_room, account_limit, settle_limit, determine_mem_limit_for_new_pod,
}
pub use ec_gcm.Manager.Memory.Evolution.Reclaims.{
  Leaves, Answers, read-Evolves, read_limit-Evolves, reclaim-Evolves, reclaim_all-Evolves,
  periodic_reclaim-Evolves,
}
use ec_gcm.Manager.Memory.Evolution.Reclaims.{accounted-Evolves, handle_reclaim_memory-Evolves}

module _ ⦃net : Net⦄ (world : World) where
  pub refill-Evolves : (fd : ℕ) (ec : ElasticContainer) → Whenever (Leaves ec) (refill world fd ec)
  unfolding refill
  refill-Evolves fd ec =
      let debt = sub64 0 ec.mem.unallocated_memory_in_pages in
      >>=-Whenever (Leaves ec) (Leaves ec) (handle_reclaim_memory world fd ec) _
        (handle_reclaim_memory-Evolves world fd ec)
        (λ r f.
          if_cases (Whenever (Leaves ec)) (ltb 0 r.1)
            (λ _. accounted-Evolves world ec _ _ (
              if_cases (Evolves ec) (is_neg ec.mem.unallocated_memory_in_pages)
                (λ _. accounted-Evolves world ec r.0 _ f) (λ _. f)))
            (λ _. f))

  grant_memory-Evolves :
      (req res : Msg) (ec : ElasticContainer)
      → Whenever (Answers ec) (grant_memory world req res ec)
  unfolding grant_memory
  grant_memory-Evolves req res ec =
      let pages = grant_pages ec.mem in
      let ec' = on_mem (ec_update_alloc_memory_in_pages pages) ec in
      let id = container_id req.cgroup_id req.client_ip in
      let limit = add64 req.rsrc_amnt pages in
      >>=-Whenever (λ (p : ℕ). Unit) (Answers ec) (get_sc_for_update_back id ec') _
        (Whenever-any (get_sc_for_update_back id ec'))
        (λ p _. or_fault-Whenever (Answers ec) (ec'.heap p) _ (λ sc e.
          Evolves-trans ec ec' (store p (set_mem_limit_in_pages limit sc) ec')
            (accounted-Evolves world ec ec _ (Evolves-refl ec))
            (store-Evolves p sc (set_mem_limit_in_pages limit sc) ec' e
              (set_mem_limit_in_pages-Replaces limit sc))))

  pub handle_mem_req-Evolves :
      (req res : Msg) (fd : ℕ) (ec : ElasticContainer)
      → Whenever (Answers ec) (handle_mem_req world req res fd ec)
  unfolding handle_mem_req
  handle_mem_req-Evolves req res fd ec =
      if_cases (Whenever (Answers ec)) (not (req.req_type == mem_type)) (λ _. Evolves-refl ec)
        (λ _.
          if_cases (Whenever (Answers ec)) (slt64 0 ec.mem.unallocated_memory_in_pages)
            (λ _. grant_memory-Evolves req res ec)
            (λ _.
              >>=-Whenever (Leaves ec) (Answers ec) (refill world fd ec) _ (refill-Evolves fd ec)
                (λ r f.
                  if_cases (Whenever (Answers ec)) r.1 (λ _. f)
                    (λ _.
                      Whenever-map (Answers r.0) (Answers ec) (grant_memory world req res r.0)
                        (λ t g. Evolves-trans ec r.0 t.0 f g) (grant_memory-Evolves req res r.0)))))

  cut_limit-Evolves :
      (sc : SubContainer) (pages : ℕ) (ec : ElasticContainer)
      → Whenever (Evolves ec) (cut_limit world sc pages ec)
  unfolding cut_limit
  cut_limit-Evolves sc pages ec =
      >>=-Whenever (Leaves ec) (Evolves ec)
        (sc_resize_memory_limit_in_pages world sc.c_id ec.mem.unallocated_memory_in_pages ec) _
        (sc_resize_memory_limit_in_pages-Evolves world sc.c_id ec.mem.unallocated_memory_in_pages
          ec)
        (λ t f. if_cases (Evolves ec) (t.1 == 0) (λ _. accounted-Evolves world ec t.0 _ f) (λ _. f))

  then-Evolves :
      (a b : ElasticContainer) (m : Outcome ElasticContainer)
      → Evolves a b
      → Whenever (Evolves b) m
      → Whenever (Evolves a) m
  then-Evolves a b m f = Whenever-map (Evolves b) (Evolves a) m (λ c g. Evolves-trans a b c f g)

  pub account_limit-Evolves :
      (sc : SubContainer) (fd pages : ℕ) (ec : ElasticContainer)
      → Whenever (Evolves ec) (account_limit world sc fd pages ec)
  unfolding account_limit make_room
  account_limit-Evolves sc fd pages ec =
      if_cases (Whenever (Evolves ec)) (leb pages ec.mem.unallocated_memory_in_pages)
        (λ _. accounted-Evolves world ec ec _ (Evolves-refl ec))
        (λ _.
          if_cases (Whenever (Evolves ec)) (ec.mem.unallocated_memory_in_pages == 0)
            (λ _. Evolves-refl ec)
            (λ _.
              >>=-Whenever (Leaves ec) (Evolves ec) (handle_reclaim_memory world fd ec) _
                (handle_reclaim_memory-Evolves world fd ec)
                (λ r f.
                  let ec' = on_mem (ec_update_reclaim_memory_in_pages r.1) r.0 in
                  let g =
                    accounted-Evolves world ec r.0 (ec_update_reclaim_memory_in_pages r.1 r.0.mem)
                      f in
                  if_cases (Whenever (Evolves ec)) (leb pages ec'.mem.unallocated_memory_in_pages)
                    (λ _. accounted-Evolves world ec ec' _ g)
                    (λ _.
                      then-Evolves ec ec' (cut_limit world sc pages ec') g
                        (cut_limit-Evolves sc pages ec')))))

  settle_limit-Evolves :
      (p : ℕ) (sc : SubContainer) (fd : ℕ) (ec : ElasticContainer)
      → Whenever (Evolves ec) (settle_limit world p sc fd ec)
  unfolding settle_limit
  settle_limit-Evolves p sc fd ec =
      let limit = get_sc_memory_limit_in_bytes world sc.c_id ec in
      let pages = byte_to_page limit.1 in
      >>=-Whenever (Evolves ec) (Evolves ec) (account_limit world sc fd pages limit.0) _
        (then-Evolves ec limit.0 (account_limit world sc fd pages limit.0)
          (read_limit-Evolves world sc.c_id ec) (account_limit-Evolves sc fd pages limit.0))
        (λ ec' f. or_fault-Whenever (Evolves ec) (ec'.heap p) _ (λ now e.
          Evolves-trans ec ec' (store p (set_mem_limit_in_pages pages now) ec') f (
            store-Evolves p now (set_mem_limit_in_pages pages now) ec' e
              (set_mem_limit_in_pages-Replaces pages now))))

  pub determine_mem_limit_for_new_pod-Evolves :
      (p fd : ℕ) (ec : ElasticContainer)
      → Whenever (Evolves ec) (determine_mem_limit_for_new_pod world p fd ec)
  unfolding determine_mem_limit_for_new_pod
  determine_mem_limit_for_new_pod-Evolves p fd ec =
      or_fault-Whenever (Evolves ec) (ec.heap p) _ (λ sc _.
        if_cases (Whenever (Evolves ec)) (str_eq sc.c_id.docker_id "") (λ _. tt)
          (λ _. settle_limit-Evolves p sc fd ec))
