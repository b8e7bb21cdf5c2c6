-- ===== src/Manager/Memory/Safety.antt =====
-- The handlers of memory, of a valid application, do not follow a null or dangling pointer.
mod Reclaims
use ec_gcm.Common.{
  ℕ, ◌==◌, refl, Bool, not, if_cases, [], ◌∷◌, ltb, leb, slt64, Safe, >>=-Safe, or_fault-Safe,
  Safe-join,
}
use text.Mathlib.Text.{◌==◌ as str_eq}
use ec_gcm.Platform.{Net, World}
use ec_gcm.SubContainer.{SubContainer, container_id}
use ec_gcm.ElasticContainer.{ElasticContainer, get_sc_for_update_back, get_sc_memory_limit_in_bytes}
use ec_gcm.ElasticContainer.Invariant.{IsValid}
use ec_gcm.ElasticContainer.Evolution.{Evolves, Evolves-congr, Evolves-trans, Evolves-IsValid}
use ec_gcm.ElasticContainer.Safety.{Live, get_sc_for_update_back-Safe}
use ec_gcm.EcApi.{
  sc_resize_memory_limit_in_pages, ec_update_alloc_memory_in_pages,
  ec_update_reclaim_memory_in_pages,
}
use ec_gcm.EcApi.Safety.{sc_resize_memory_limit_in_pages-Safe}
use ec_gcm.Msg.{Msg, mem_type}
use ec_gcm.Manager.Memory.{
  byte_to_page, on_mem, grant_pages, reclaim_all, handle_reclaim_memory, refill, grant_memory,
  handle_mem_req, cut_limit, make_room, account_limit, settle_limit,
  determine_mem_limit_for_new_pod,
}
use ec_gcm.Manager.Memory.Evolution.{
  Leaves, read_limit-Evolves, refill-Evolves, account_limit-Evolves,
}
pub use ec_gcm.Manager.Memory.Safety.Reclaims.{AnyPages, periodic_reclaim-Safe}
use ec_gcm.Manager.Memory.Safety.Reclaims.{Live-Evolves, reclaimed-Safe}

module _ ⦃net : Net⦄ (world : World) where
  refill_ends :
      (fd : ℕ) (ec : ElasticContainer)
      → IsValid ec
      → Safe (λ (r : ElasticContainer × Bool). Unit) (refill world fd ec)
  unfolding refill handle_reclaim_memory
  refill_ends fd ec v =
      >>=-Safe (Leaves ec) (λ (r : ElasticContainer × Bool). Unit)
        (reclaim_all world (λ sc. sc.fd == fd) ec.subcontainers 0 ec) _
        (reclaimed-Safe world (λ sc. sc.fd == fd) ec v)
        (λ r f.
          if_cases (Safe (λ (r : ElasticContainer × Bool). Unit)) (ltb 0 r.1) (λ _. tt) (λ _. tt))

  refill-Safe :
      (fd : ℕ) (ec : ElasticContainer) → IsValid ec → Safe (Leaves ec) (refill world fd ec)
  refill-Safe fd ec v =
      Safe-join (Leaves ec) (λ (r : ElasticContainer × Bool). Unit) (refill world fd ec)
        (refill-Evolves world fd ec) (refill_ends fd ec v)

  abbrev AnyAnswer : ElasticContainer × Msg × ℕ → Type 0
  AnyAnswer r = Unit

  grant_memory-Safe :
      (req res : Msg) (ec : ElasticContainer)
      → IsValid ec
      → Safe AnyAnswer (grant_memory world req res ec)
  unfolding grant_memory
  grant_memory-Safe req res ec v =
      let ec' = on_mem (ec_update_alloc_memory_in_pages (grant_pages ec.mem)) ec in
      let id = container_id req.cgroup_id req.client_ip in
      >>=-Safe (Live ec') AnyAnswer (get_sc_for_update_back id ec') _
        (get_sc_for_update_back-Safe id ec'
          (Evolves-IsValid ec ec' (Evolves-congr ec ec' refl refl refl) v))
        (λ p (sc, e). or_fault-Safe AnyAnswer (ec'.heap p) sc _ e tt)

  pub handle_mem_req-Safe :
      (req res : Msg) (fd : ℕ) (ec : ElasticContainer)
      → IsValid ec
      → Safe (λ (r : ElasticContainer × Msg × ℕ). Unit) (handle_mem_req world req res fd ec)
  unfolding handle_mem_req
  handle_mem_req-Safe req res fd ec v =
      if_cases (Safe AnyAnswer) (not (req.req_type == mem_type)) (λ _. tt)
        (λ _.
          if_cases (Safe AnyAnswer) (slt64 0 ec.mem.unallocated_memory_in_pages)
            (λ _. grant_memory-Safe req res ec v)
            (λ _.
              >>=-Safe (Leaves ec) AnyAnswer (refill world fd ec) _ (refill-Safe fd ec v) (λ r f.
                if_cases (Safe AnyAnswer) r.1 (λ _. tt)
                  (λ _. grant_memory-Safe req res r.0 (Evolves-IsValid ec r.0 f v)))))

  abbrev AnyEc : ElasticContainer → Type 0
  AnyEc r = Unit

  cut_limit-Safe :
      (sc : SubContainer) (pages : ℕ) (ec : ElasticContainer)
      → Safe AnyEc (cut_limit world sc pages ec)
  unfolding cut_limit
  cut_limit-Safe sc pages ec =
      >>=-Safe AnyPages AnyEc
        (sc_resize_memory_limit_in_pages world sc.c_id ec.mem.unallocated_memory_in_pages ec) _
        (sc_resize_memory_limit_in_pages-Safe world sc.c_id ec.mem.unallocated_memory_in_pages ec)
        (λ r u. tt)

  account_limit-Safe :
      (sc : SubContainer) (fd pages : ℕ) (ec : ElasticContainer)
      → IsValid ec
      → Safe AnyEc (account_limit world sc fd pages ec)
  unfolding account_limit make_room handle_reclaim_memory
  account_limit-Safe sc fd pages ec v =
      if_cases (Safe AnyEc) (leb pages ec.mem.unallocated_memory_in_pages) (λ _. tt)
        (λ _.
          if_cases (Safe AnyEc) (ec.mem.unallocated_memory_in_pages == 0) (λ _. tt)
            (λ _.
              >>=-Safe (Leaves ec) AnyEc
                (reclaim_all world (λ sc. sc.fd == fd) ec.subcontainers 0 ec) _
                (reclaimed-Safe world (λ sc. sc.fd == fd) ec v)
                (λ r f.
                  let ec' = on_mem (ec_update_reclaim_memory_in_pages r.1) r.0 in
                  if_cases (Safe AnyEc) (leb pages ec'.mem.unallocated_memory_in_pages) (λ _. tt)
                    (λ _. cut_limit-Safe sc pages ec'))))

  -- The thread of a new container whose object is live when it runs.
  pub determine_mem_limit_for_new_pod-Safe :
      (p fd : ℕ) (ec : ElasticContainer)
      → IsValid ec
      → Live ec p
      → Safe (λ (t : ElasticContainer). Unit) (determine_mem_limit_for_new_pod world p fd ec)
  unfolding determine_mem_limit_for_new_pod settle_limit
  determine_mem_limit_for_new_pod-Safe p fd ec v (sc, e) =
      let limit = get_sc_memory_limit_in_bytes world sc.c_id ec in
      let f = read_limit-Evolves world sc.c_id ec in
      let call = account_limit world sc fd (byte_to_page limit.1) limit.0 in
      or_fault-Safe AnyEc (ec.heap p) sc _ e (
        if_cases (Safe AnyEc) (str_eq sc.c_id.docker_id "") (λ _. tt)
          (λ _.
            >>=-Safe (Evolves limit.0) AnyEc call _
              (Safe-join (Evolves limit.0) AnyEc call
                (account_limit-Evolves world sc fd (byte_to_page limit.1) limit.0)
                (account_limit-Safe sc fd (byte_to_page limit.1) limit.0
                  (Evolves-IsValid ec limit.0 f v)))
              (λ ec' g.
                let (now, live) =
                  Live-Evolves ec ec' p (Evolves-trans ec limit.0 ec' f g) (sc, e) in
                or_fault-Safe AnyEc (ec'.heap p) now _ live tt)))
