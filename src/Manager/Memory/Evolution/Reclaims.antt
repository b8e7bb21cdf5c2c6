-- ===== src/Manager/Memory/Evolution/Reclaims.antt =====
-- What a reclaim leaves of the application.
use ec_gcm.Common.{
  ℕ, ◌==◌, refl, Bool, false, if_cases, ok, [], ◌∷◌, ltb, sub64, add64, Whenever, Outcome,
  >>=-Whenever, or_fault-Whenever, Whenever-map, back?, String, if◌then◌else◌,
}
use ec_gcm.Platform.{Net, World}
use ec_gcm.SubContainer.{ContainerId, SubContainer}
use ec_gcm.ElasticContainer.{
  ElasticContainer, SubcontainerMap, get_sc_memory_usage_in_bytes, get_sc_memory_limit_in_bytes,
}
use ec_gcm.ElasticContainer.Evolution.{Evolves, Evolves-refl, Evolves-congr, Evolves-trans}
use ec_gcm.EcApi.{sc_resize_memory_limit_in_pages, sc_set_memory_limit_in_pages}
use ec_gcm.EcApi.Evolution.{
  SameContainers-Evolves, get_corres_agent_client-SameContainers,
  sc_resize_memory_limit_in_pages-Evolves, sc_set_memory_limit_in_pages-Evolves,
}
use ec_gcm.Stats.GlobalMem.{GlobalMem}
use ec_gcm.Msg.{Msg}
use ec_gcm.Manager.Memory.{
  byte_to_page, page_to_byte, safe_margin_bytes, usage_failed, shrink_limit, reclaim, reclaim_all,
  handle_reclaim_memory, periodic_reclaim,
}

module _ ⦃net : Net⦄ where
  -- The state that a step leaves, with what it reports.
  abbrev pub Leaves {ℓ} : {A : Type ℓ} → ElasticContainer → ElasticContainer × A → Type 0
  Leaves ec r = Evolves ec r.0

  -- The same where a message and a code come with it.
  abbrev pub Answers : ElasticContainer → ElasticContainer × Msg × ℕ → Type 0
  Answers ec r = Evolves ec r.0

module _ ⦃net : Net⦄ (world : World) where
  -- The account of pages does not count.
  pub accounted-Evolves :
      (a b : ElasticContainer) (mem : GlobalMem) → Evolves a b → Evolves a (record b { mem = mem })
  accounted-Evolves a b mem g =
      Evolves-trans a b (record b { mem = mem }) g
        (Evolves-congr b (record b { mem = mem }) refl refl refl)

  pub read-Evolves :
      (id : ContainerId) (docker_id : String) (ec : ElasticContainer)
      → Evolves ec (get_sc_memory_usage_in_bytes world id docker_id ec).0
  unfolding get_sc_memory_usage_in_bytes
  read-Evolves id docker_id ec =
      SameContainers-Evolves ec _ (get_corres_agent_client-SameContainers id ec)

  pub read_limit-Evolves :
      (id : ContainerId) (ec : ElasticContainer)
      → Evolves ec (get_sc_memory_limit_in_bytes world id ec).0
  unfolding get_sc_memory_limit_in_bytes
  read_limit-Evolves id ec =
      SameContainers-Evolves ec _ (get_corres_agent_client-SameContainers id ec)

  -- One step after another.
  pub after {ℓ} :
      {A : Type ℓ} (a b : ElasticContainer) (m : Outcome (ElasticContainer × A))
      → Evolves a b
      → Whenever (Leaves b) m
      → Whenever (Leaves a) m
  after a b m f = Whenever-map (Leaves b) (Leaves a) m (λ r g. Evolves-trans a b r.0 f g)

  pub shrink_limit-Evolves :
      (id : ContainerId) (sc : SubContainer) (limit usage : ℕ) (ec : ElasticContainer)
      → Whenever (Leaves ec) (shrink_limit world id sc limit usage ec)
  unfolding shrink_limit
  shrink_limit-Evolves id sc limit usage ec =
      let pages = byte_to_page (add64 usage safe_margin_bytes) in
      >>=-Whenever (Leaves ec) (Leaves ec) (sc_resize_memory_limit_in_pages world id pages ec) _
        (sc_resize_memory_limit_in_pages-Evolves world id pages ec)
        (λ r f.
          if_cases (Whenever (Leaves ec)) (r.1 == 0)
            (λ _.
              >>=-Whenever (Evolves r.0) (Leaves ec)
                (sc_set_memory_limit_in_pages sc.c_id pages r.0) _
                (sc_set_memory_limit_in_pages-Evolves sc.c_id pages r.0)
                (λ ec' g. Evolves-trans ec r.0 ec' f g))
            (λ _. f))

  pub reclaim-Evolves :
      (id : ContainerId) (p : ℕ) (ec : ElasticContainer)
      → Whenever (Leaves ec) (reclaim world id p ec)
  unfolding reclaim
  reclaim-Evolves id p ec = or_fault-Whenever (Leaves ec) (ec.heap p) _ (λ sc _.
      let read = get_sc_memory_usage_in_bytes world id sc.c_id.docker_id ec in
      let f = read-Evolves id sc.c_id.docker_id ec in
      if_cases (Whenever (Leaves ec)) (read.1 == usage_failed) (λ _. f)
        (λ _.
          if_cases (Whenever (Leaves ec))
            (ltb safe_margin_bytes (sub64 (page_to_byte sc.mem.mem_limit_in_pages) read.1))
            (λ _.
              after ec read.0 _ f
                (shrink_limit-Evolves id sc (page_to_byte sc.mem.mem_limit_in_pages) read.1 read.0))
            (λ _. f)))

  pub reclaim_all-Evolves :
      (skip : SubContainer → Bool) (q : SubcontainerMap) (total : ℕ) (ec : ElasticContainer)
      → Whenever (Leaves ec) (reclaim_all world skip q total ec)
  unfolding reclaim_all
  reclaim_all-Evolves skip [] total ec = Evolves-refl ec
  reclaim_all-Evolves skip ((id, q) ∷ entries) total ec =
      or_fault-Whenever (Leaves ec) (back? q) _ (λ p _.
        or_fault-Whenever (Leaves ec) (ec.heap p) _ (λ sc _.
          >>=-Whenever (Leaves ec) (Leaves ec)
            (if skip sc then ok (ec, 0) else reclaim world id p ec) _
            (if_cases (Whenever (Leaves ec)) (skip sc) (λ _. Evolves-refl ec)
              (λ _. reclaim-Evolves id p ec))
            (λ r f.
              after ec r.0 (reclaim_all world skip entries (add64 total r.1) r.0) f
                (reclaim_all-Evolves skip entries (add64 total r.1) r.0))))

  pub handle_reclaim_memory-Evolves :
      (fd : ℕ) (ec : ElasticContainer) → Whenever (Leaves ec) (handle_reclaim_memory world fd ec)
  unfolding handle_reclaim_memory
  handle_reclaim_memory-Evolves fd ec =
      reclaim_all-Evolves (λ sc. sc.fd == fd) ec.subcontainers 0 ec

  pub periodic_reclaim-Evolves :
      (ec : ElasticContainer) → Whenever (Evolves ec) (periodic_reclaim world ec)
  unfolding periodic_reclaim
  periodic_reclaim-Evolves ec =
      >>=-Whenever (Leaves ec) (Evolves ec) (reclaim_all world (λ _. false) ec.subcontainers 0 ec) _
        (reclaim_all-Evolves (λ _. false) ec.subcontainers 0 ec)
        (λ r f. if_cases (Evolves ec) (ltb 0 r.1) (λ _. accounted-Evolves ec r.0 _ f) (λ _. f))
