-- ===== src/EcApi/Safety.antt =====
-- The calls of ECAPI.cpp on a valid application do not follow a null or dangling pointer.
use ec_gcm.Common.{ℕ, List, Option-cases, inl, inr, Bool-cases, Safe, >>=-Safe, or_fault-Safe}
use ec_gcm.Platform.{Net, World}
use ec_gcm.SubContainer.{ContainerId, SubContainer}
use ec_gcm.ElasticContainer.{ElasticContainer, get_corres_agent_client, get_sc_for_update_back}
use ec_gcm.ElasticContainer.Invariant.{IsValid}
use ec_gcm.ElasticContainer.Safety.{Live, get_sc_for_update_back-Safe}
use ec_gcm.EcApi.{
  QuotaCall, set_sc_quota_syscall, sc_resize_memory_limit_in_pages, sc_set_memory_limit_in_pages,
}

module _ ⦃net : Net⦄ where
  pub set_sc_quota_syscall-Safe :
      (world : World) (sc : SubContainer) (quota seq : ℕ) (ec : ElasticContainer)
      (sent : List QuotaCall)
      → Safe
          (λ (r : ElasticContainer × List QuotaCall × ℕ). Unit)
          (set_sc_quota_syscall world sc quota seq ec sent)
  unfolding set_sc_quota_syscall
  set_sc_quota_syscall-Safe world sc quota seq ec sent = elim (Bool-cases sc.inserted) [
    | inr e ↦ rw (e, set_sc_quota_syscall) tt
    | inl e ↦ elim (Option-cases (get_corres_agent_client sc.c_id ec).1) [
      | inl n ↦ rw (e, n, set_sc_quota_syscall) tt
      | inr (ac, n) ↦ rw (e, n, set_sc_quota_syscall) tt
    ]
  ]

  pub sc_resize_memory_limit_in_pages-Safe :
      (world : World) (id : ContainerId) (pages : ℕ) (ec : ElasticContainer)
      → Safe
          (λ (r : ElasticContainer × ℕ). Unit)
          (sc_resize_memory_limit_in_pages world id pages ec)
  unfolding sc_resize_memory_limit_in_pages
  sc_resize_memory_limit_in_pages-Safe world id pages ec =
      elim (Option-cases (get_corres_agent_client id ec).1) [
        | inl n ↦ rw (n, sc_resize_memory_limit_in_pages) tt
        | inr (ac, n) ↦ rw (n, sc_resize_memory_limit_in_pages) tt
      ]

  pub sc_set_memory_limit_in_pages-Safe :
      (id : ContainerId) (pages : ℕ) (ec : ElasticContainer)
      → IsValid ec
      → Safe (λ (r : ElasticContainer). Unit) (sc_set_memory_limit_in_pages id pages ec)
  unfolding sc_set_memory_limit_in_pages
  sc_set_memory_limit_in_pages-Safe id pages ec v =
      >>=-Safe (Live ec) (λ (r : ElasticContainer). Unit) (get_sc_for_update_back id ec) _
        (get_sc_for_update_back-Safe id ec v)
        (λ p (sc, e). or_fault-Safe (λ (r : ElasticContainer). Unit) (ec.heap p) sc _ e tt)
