-- ===== src/Deployer/Evolution.antt =====
-- The calls of the deployer keep the application well-formed.
use ec_gcm.Common.{
  ℕ, ◌≡◌, ◌==◌, refl, some, Option, if_cases, List, [], ◌∷◌, arith, String, Bool-cases,
  Option-cases, inl, inr, Whenever, >>=-Whenever, or_fault-Whenever, Whenever-any,
}
use ec_gcm.Common.Map.{contains, erase}
use mathlib.Core.Path.{subst}
use ec_gcm.Platform.{Net}
use ec_gcm.SubContainer.{ContainerId, SubContainer, set_docker_id}
use ec_gcm.SubContainer.Identity.{container_key, same_container-set_docker_id, same_container_sym}
use ec_gcm.ElasticContainer.{
  ElasticContainer, get_subcontainer_front, get_sc_for_update_back, update_fair_cpu_share,
  ec_delete_from_subcontainers_map,
}
use ec_gcm.ElasticContainer.Evolution.{
  Replaces, Evolves, Evolves-congr, store-Evolves, IsWellFormed, Evolves-IsWellFormed,
}
use ec_gcm.ElasticContainer.Lookup.{queue_of}
use ec_gcm.ElasticContainer.Deletion.{freed, delete_dequeues}
use ec_gcm.Deployer.{
  Deployer, Reply, report_app_spec, get_sc_id_from_docker_id, return_resources, insert_pod_spec,
  match_docker_id, report_pod_spec, delete_entries, delete_known, delete_pod, docker_key,
}

module _ ⦃net : Net⦄ where
  pub report_app_spec-Evolves :
      (cpu_limit mem_limit : ℕ) (ec : ElasticContainer)
      → Evolves ec (report_app_spec cpu_limit mem_limit ec)
  unfolding report_app_spec
  report_app_spec-Evolves cpu_limit mem_limit ec =
      Evolves-congr ec (report_app_spec cpu_limit mem_limit ec) refl refl refl

  renamed-Replaces :
      (docker_id : String) (sc : SubContainer) → Replaces sc (set_docker_id docker_id sc)
  unfolding set_docker_id
  renamed-Replaces docker_id sc = (
    same_container_sym sc.c_id (set_docker_id docker_id sc).c_id
        (same_container-set_docker_id docker_id sc),
    λ w. record { rt_valid = w.rt_valid; th_valid = w.th_valid },
  )

  match_docker_id-Evolves :
      (id : ContainerId) (docker_id : String) (ec : ElasticContainer)
      → Whenever (Evolves ec) (match_docker_id id docker_id ec)
  unfolding match_docker_id
  match_docker_id-Evolves id docker_id ec =
      if_cases (Whenever (Evolves ec)) (contains id ec.sc_ac_map)
        (λ _.
          >>=-Whenever (λ (p : ℕ). Unit) (Evolves ec) (get_sc_for_update_back id ec) _
            (Whenever-any (get_sc_for_update_back id ec))
            (λ p _. or_fault-Whenever (Evolves ec) (ec.heap p) _ (λ sc e.
              store-Evolves p sc (set_docker_id docker_id sc) ec e
                (renamed-Replaces docker_id sc))))
        (λ _. tt)

  abbrev pub Replies : Deployer × Reply → Type 0
  Replies r = IsWellFormed r.0.ec

  pub report_pod_spec-IsWellFormed :
      (id : ContainerId) (docker_id : String) (d : Deployer)
      → IsWellFormed d.ec
      → Whenever Replies (report_pod_spec id docker_id d)
  unfolding report_pod_spec insert_pod_spec
  report_pod_spec-IsWellFormed id docker_id d f =
      if_cases (Whenever Replies) (contains docker_id d.docker_to_subcontainer) (λ _. f)
        (λ _.
          >>=-Whenever (Evolves d.ec) Replies (match_docker_id id docker_id d.ec) _
            (match_docker_id-Evolves id docker_id d.ec) (λ ec g. Evolves-IsWellFormed d.ec ec g f))

  -- What stays of the objects after a deletion was there before.
  freed-some :
      (q : List ℕ) (heap : ℕ → Option SubContainer) (p : ℕ) (sc : SubContainer)
      → freed q heap p ≡ some sc
      → heap p ≡ some sc
  freed-some [] heap p sc e = e
  freed-some (x ∷ []) heap p sc e = e
  freed-some (x ∷ y ∷ q) heap p sc e = elim (Bool-cases (x == p)) [
    | inl hit ↦ absurd (ground (arith, hit, e))
    | inr miss ↦ ground (arith, miss, e)
  ]

  deleted-IsWellFormed :
      (id : ContainerId) (ec : ElasticContainer)
      → IsWellFormed ec
      → IsWellFormed (ec_delete_from_subcontainers_map id ec).0
  deleted-IsWellFormed id ec f =
      let (v, _, h, _, _) = delete_dequeues id ec f.valid in
      record {
        valid = v;
        windows = λ p sc e. f.windows p sc (
            freed-some (queue_of id ec) ec.heap p sc
              (subst (λ (heap : ℕ → Option SubContainer). heap p ≡ some sc) h e));
      }

  pub delete_pod-IsWellFormed :
      (docker_id : String) (d : Deployer)
      → IsWellFormed d.ec
      → Whenever Replies (delete_pod docker_id d)
  unfolding delete_pod delete_known delete_entries return_resources update_fair_cpu_share
  delete_pod-IsWellFormed docker_id d f =
      elim (Option-cases (get_sc_id_from_docker_id docker_id d)) [
        | inl e ↦ rw (e, delete_pod) f
        | inr (id, e) ↦
            rw (e, delete_pod)
              (if_cases (Whenever Replies) (id.cgroup_id == 0) (λ _. f)
                (λ _.
                  >>=-Whenever (λ (p : ℕ). Unit) Replies (get_subcontainer_front id d.ec) _
                    (Whenever-any (get_subcontainer_front id d.ec))
                    (λ p _. or_fault-Whenever Replies (d.ec.heap p) _ (λ sc _.
                      let unlinked : ElasticContainer = record (d.ec) {
                        sc_ac_map = erase id d.ec.sc_ac_map;
                      } in
                      let gone = (ec_delete_from_subcontainers_map id unlinked).0 in
                      Evolves-IsWellFormed gone
                        (return_resources sc.cpu.quota sc.mem.mem_limit_in_pages gone)
                        (Evolves-congr gone
                          (return_resources sc.cpu.quota sc.mem.mem_limit_in_pages gone) refl refl
                          refl)
                        (deleted-IsWellFormed id unlinked (
                          Evolves-IsWellFormed d.ec unlinked
                            (Evolves-congr d.ec unlinked refl refl refl) f))))))
      ]
