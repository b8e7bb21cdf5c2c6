-- ===== src/Manager/Memory/Safety/Reclaims.antt =====
-- Reclaims follow no bad pointer.
use ec_gcm.Common.{
  ℕ, ◌≡◌, ◌==◌, refl, Bool, false, if_cases, if◌then◌else◌, ok, some, none, Option, [], ◌∷◌, All,
  ltb, sub64, add64, back?, Outcome, Safe, >>=-Safe, or_fault-Safe, Safe-join,
}
use ec_gcm.Platform.{Net, World}
use ec_gcm.SubContainer.{ContainerId, SubContainer}
use ec_gcm.ElasticContainer.{ElasticContainer, SubcontainerMap, get_sc_memory_usage_in_bytes}
use ec_gcm.ElasticContainer.Invariant.{IsValid, Entry}
use ec_gcm.ElasticContainer.Evolution.{Evolves, Evolves-refl, Evolves-IsValid, Entry-Evolves, Cell}
use ec_gcm.ElasticContainer.Safety.{Live, back-Live}
use ec_gcm.EcApi.{sc_resize_memory_limit_in_pages, sc_set_memory_limit_in_pages}
use ec_gcm.EcApi.Evolution.{sc_resize_memory_limit_in_pages-Evolves}
use ec_gcm.EcApi.Safety.{sc_resize_memory_limit_in_pages-Safe, sc_set_memory_limit_in_pages-Safe}
use ec_gcm.Manager.Memory.{
  byte_to_page, page_to_byte, safe_margin_bytes, usage_failed, shrink_limit, reclaim, reclaim_all,
  periodic_reclaim,
}
use ec_gcm.Manager.Memory.Evolution.{Leaves, reclaim-Evolves, reclaim_all-Evolves, read-Evolves}

module _ ⦃net : Net⦄ where
  abbrev pub AnyPages : ElasticContainer × ℕ → Type 0
  AnyPages r = Unit

  pub live_after :
      (x y : Option SubContainer) (sc : SubContainer)
      → Cell x y
      → x ≡ some sc
      → (new : SubContainer) × (y ≡ some new)
  live_after none y sc c e = absurd (cc)
  live_after (some a) none sc c e = elim c [ ]
  live_after (some a) (some b) sc c e = (b, refl)

  pub Live-Evolves : (a b : ElasticContainer) (p : ℕ) → Evolves a b → Live a p → Live b p
  Live-Evolves a b p f (sc, e) = live_after (a.heap p) (b.heap p) sc (f.cells p) e

module _ ⦃net : Net⦄ (world : World) where
  pub shrink_limit-Safe :
      (id : ContainerId) (sc : SubContainer) (limit usage : ℕ) (ec : ElasticContainer)
      → IsValid ec
      → Safe AnyPages (shrink_limit world id sc limit usage ec)
  unfolding shrink_limit
  shrink_limit-Safe id sc limit usage ec v =
      let pages = byte_to_page (add64 usage safe_margin_bytes) in
      let call = sc_resize_memory_limit_in_pages world id pages ec in
      >>=-Safe (Leaves ec) AnyPages call _
        (Safe-join (Leaves ec) AnyPages call
          (sc_resize_memory_limit_in_pages-Evolves world id pages ec)
          (sc_resize_memory_limit_in_pages-Safe world id pages ec))
        (λ r f.
          if_cases (Safe AnyPages) (r.1 == 0)
            (λ _.
              >>=-Safe (λ (t : ElasticContainer). Unit) AnyPages
                (sc_set_memory_limit_in_pages sc.c_id pages r.0) _
                (sc_set_memory_limit_in_pages-Safe sc.c_id pages r.0 (Evolves-IsValid ec r.0 f v))
                (λ t u. tt))
            (λ _. tt))

  pub reclaim-Safe :
      (id : ContainerId) (p : ℕ) (ec : ElasticContainer)
      → IsValid ec
      → Live ec p
      → Safe AnyPages (reclaim world id p ec)
  unfolding reclaim
  reclaim-Safe id p ec v (sc, e) =
      let read = get_sc_memory_usage_in_bytes world id sc.c_id.docker_id ec in
      let limit = page_to_byte sc.mem.mem_limit_in_pages in
      or_fault-Safe AnyPages (ec.heap p) sc _ e (
        if_cases (Safe AnyPages) (read.1 == usage_failed) (λ _. tt)
          (λ _.
            if_cases (Safe AnyPages) (ltb safe_margin_bytes (sub64 limit read.1))
              (λ _.
                shrink_limit-Safe id sc limit read.1 read.0
                  (Evolves-IsValid ec read.0 (read-Evolves world id sc.c_id.docker_id ec) v))
              (λ _. tt)))

  pub reclaim_all-Safe :
      (skip : SubContainer → Bool) (q : SubcontainerMap) (total : ℕ) (ec : ElasticContainer)
      → IsValid ec
      → All (Entry ec.heap) q
      → Safe AnyPages (reclaim_all world skip q total ec)
  unfolding reclaim_all
  reclaim_all-Safe skip [] total ec v h = tt
  reclaim_all-Safe skip ((id, q) ∷ entries) total ec v (h, hs) =
      let (p, back, (sc, e)) = back-Live ec id q h in
      let one : Outcome (ElasticContainer × ℕ) =
        if skip sc then ok (ec, 0) else reclaim world id p ec in
      or_fault-Safe AnyPages (back? q) p _ back (
        or_fault-Safe AnyPages (ec.heap p) sc _ e (
          >>=-Safe (Leaves ec) AnyPages one _
            (if_cases (Safe (Leaves ec)) (skip sc) (λ _. Evolves-refl ec)
              (λ _.
                Safe-join (Leaves ec) AnyPages (reclaim world id p ec)
                  (reclaim-Evolves world id p ec) (reclaim-Safe id p ec v (sc, e))))
            (λ r f.
              reclaim_all-Safe skip entries (add64 total r.1) r.0 (Evolves-IsValid ec r.0 f v)
                (Entry-Evolves ec r.0 entries f hs))))

  pub reclaimed-Safe :
      (skip : SubContainer → Bool) (ec : ElasticContainer)
      → IsValid ec
      → Safe (Leaves ec) (reclaim_all world skip ec.subcontainers 0 ec)
  reclaimed-Safe skip ec v =
      let all = reclaim_all world skip ec.subcontainers 0 ec in
      Safe-join (Leaves ec) AnyPages all (reclaim_all-Evolves world skip ec.subcontainers 0 ec)
        (reclaim_all-Safe skip ec.subcontainers 0 ec v v.entries)

  pub periodic_reclaim-Safe :
      (ec : ElasticContainer)
      → IsValid ec
      → Safe (λ (t : ElasticContainer). Unit) (periodic_reclaim world ec)
  unfolding periodic_reclaim
  periodic_reclaim-Safe ec v =
      >>=-Safe (Leaves ec) (λ (t : ElasticContainer). Unit)
        (reclaim_all world (λ _. false) ec.subcontainers 0 ec) _ (reclaimed-Safe (λ _. false) ec v)
        (λ r f. tt)
