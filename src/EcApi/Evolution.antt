-- ===== src/EcApi/Evolution.antt =====
-- What the calls of ECAPI.cpp leave of the containers.
use ec_gcm.Common.{
  ℕ, refl, ◌≡◌, List, Option-cases, inl, inr, Bool-cases, Whenever, or_fault-Whenever, >>=-Whenever,
  Whenever-any,
}
use ec_gcm.Common.Map.{find}
use ec_gcm.Platform.{Net, World}
use ec_gcm.SubContainer.{ContainerId, SubContainer, set_mem_limit_in_pages}
use ec_gcm.SubContainer.Identity.{container_key, same_container_refl}
use ec_gcm.ElasticContainer.{ElasticContainer, get_corres_agent_client, get_sc_for_update_back}
use ec_gcm.ElasticContainer.Evolution.{Evolves, Evolves-congr, store-Evolves, Replaces}
use ec_gcm.EcApi.{
  QuotaCall, set_sc_quota_syscall, sc_resize_memory_limit_in_pages, sc_set_memory_limit_in_pages,
}

-- Nothing that counts for the containers is changed.
pub record SameContainers (ec ec' : ElasticContainer) : Type 0 where
  pub subcontainers_eq : ec'.subcontainers ≡ ec.subcontainers
  pub next_sc_eq : ec'.next_sc ≡ ec.next_sc
  pub heap_eq : ec'.heap ≡ ec.heap

module _ ⦃net : Net⦄ where
  pub SameContainers-Evolves : (ec ec' : ElasticContainer) → SameContainers ec ec' → Evolves ec ec'
  SameContainers-Evolves ec ec' k = Evolves-congr ec ec' k.subcontainers_eq k.next_sc_eq k.heap_eq

  pub get_corres_agent_client-SameContainers :
      (id : ContainerId) (ec : ElasticContainer)
      → SameContainers ec (get_corres_agent_client id ec).0
  unfolding get_corres_agent_client
  get_corres_agent_client-SameContainers id ec = elim (Option-cases (find id ec.sc_ac_map)) [
    | inl e ↦
        rw (e, get_corres_agent_client)
          (record { subcontainers_eq = refl; next_sc_eq = refl; heap_eq = refl })
    | inr (c, e) ↦
        rw (e, get_corres_agent_client)
          (record { subcontainers_eq = refl; next_sc_eq = refl; heap_eq = refl })
  ]

  pub set_sc_quota_syscall-SameContainers :
      (world : World) (sc : SubContainer) (quota seq : ℕ) (ec : ElasticContainer)
      (sent : List QuotaCall)
      → Whenever
          (λ (r : ElasticContainer × List QuotaCall × ℕ). SameContainers ec r.0)
          (set_sc_quota_syscall world sc quota seq ec sent)
  unfolding set_sc_quota_syscall
  set_sc_quota_syscall-SameContainers world sc quota seq ec sent = elim (Bool-cases sc.inserted) [
    | inr e ↦ rw (e, set_sc_quota_syscall) tt
    | inl e ↦ elim (Option-cases (get_corres_agent_client sc.c_id ec).1) [
      | inl n ↦ rw (e, n, set_sc_quota_syscall) tt
      | inr (ac, n) ↦
          rw (e, n, set_sc_quota_syscall) (get_corres_agent_client-SameContainers sc.c_id ec)
    ]
  ]

  pub sc_resize_memory_limit_in_pages-Evolves :
      (world : World) (id : ContainerId) (pages : ℕ) (ec : ElasticContainer)
      → Whenever
          (λ (r : ElasticContainer × ℕ). Evolves ec r.0)
          (sc_resize_memory_limit_in_pages world id pages ec)
  unfolding sc_resize_memory_limit_in_pages
  sc_resize_memory_limit_in_pages-Evolves world id pages ec =
      elim (Option-cases (get_corres_agent_client id ec).1) [
        | inl n ↦ rw (n, sc_resize_memory_limit_in_pages) tt
        | inr (ac, n) ↦
            rw (n, sc_resize_memory_limit_in_pages)
              (SameContainers-Evolves ec (get_corres_agent_client id ec).0
                (get_corres_agent_client-SameContainers id ec))
      ]

  pub set_mem_limit_in_pages-Replaces :
      (pages : ℕ) (sc : SubContainer) → Replaces sc (set_mem_limit_in_pages pages sc)
  unfolding set_mem_limit_in_pages
  set_mem_limit_in_pages-Replaces pages sc =
      (same_container_refl sc.c_id, λ w. record { rt_valid = w.rt_valid; th_valid = w.th_valid })

  pub sc_set_memory_limit_in_pages-Evolves :
      (id : ContainerId) (pages : ℕ) (ec : ElasticContainer)
      → Whenever (Evolves ec) (sc_set_memory_limit_in_pages id pages ec)
  unfolding sc_set_memory_limit_in_pages
  sc_set_memory_limit_in_pages-Evolves id pages ec =
      >>=-Whenever (λ (p : ℕ). Unit) (Evolves ec) (get_sc_for_update_back id ec) _
        (Whenever-any (get_sc_for_update_back id ec))
        (λ p _. or_fault-Whenever (Evolves ec) (ec.heap p) _ (λ sc e.
          store-Evolves p sc (set_mem_limit_in_pages pages sc) ec e
            (set_mem_limit_in_pages-Replaces pages sc)))
