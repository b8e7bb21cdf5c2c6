-- ===== src/Deployer/Laws.antt =====
-- What a deletion gives back, and what it takes from the containers that stay.
mod Accounts
use ec_gcm.Common.{
  some, back?, ok, false, back?-All, ℕ, ◌+◌, ◌≡◌, List, [], ◌≤◌, refl, true, none, String, ◌∷◌,
  arith, ◌∙◌, ap, sym, Option, Option-cases, inl, inr, exited, Returns, Returns-map,
}
use mathlib.Core.Path.{subst}
use text.Mathlib.TextPositions.{eq_refl}
use ec_gcm.Common.Map.{find, find-erase}
use ec_gcm.Platform.{Net, World}
use ec_gcm.Stats.GlobalCpu
use ec_gcm.Stats.GlobalCpu.{GlobalCpu}
use ec_gcm.Stats.GlobalMem
use ec_gcm.Stats.GlobalMem.{GlobalMem}
use ec_gcm.SubContainer.{ContainerId, SubContainer, same_container}
use ec_gcm.SubContainer.Identity.{container_key, same_container_refl, same_container_trans}
use ec_gcm.ElasticContainer.{
  ElasticContainer, update_fair_cpu_share, drop_oldest, ec_delete_from_subcontainers_map,
  get_sc_for_update_back,
}
use ec_gcm.EcApi.Traffic.{Traffic, AnyId, OtherThan, Clientless-exits, Clientless-Traffic}
use ec_gcm.Common.Map.Entries.{All-find}
use ec_gcm.ElasticContainer.Invariant.{Holds, Entry, IsValid, IsValid-congr}
use ec_gcm.ElasticContainer.Lookup.{queue_of}
use ec_gcm.ElasticContainer.Deletion.{
  behind_front, freed, delete_dequeues, queue_of-missing, queue_of-found,
}
use ec_gcm.EcApi.{QuotaCall, set_sc_quota_syscall}
use ec_gcm.Deployer.{
  Deployer, Reply, get_sc_id_from_docker_id, delete_entries, return_resources, delete_known,
  delete_pod, docker_key,
}
pub use ec_gcm.Deployer.Laws.Accounts.{
  app_spec_fits, Returned, return_resources_lem, IsPod, unlinked,
}
use ec_gcm.Deployer.Laws.Accounts.{if_true, same_key, delete_pod_lem}

module _ ⦃net : Net⦄ where
  -- What a deletion leaves.
  pub record IsDeleted (docker_id : String) (id : ContainerId) (sc : SubContainer) (d : Deployer)
      (out : Deployer × Reply) : Type 0 where
    pub valid : IsValid out.0.ec
    pub queue_eq : queue_of id out.0.ec ≡ behind_front (queue_of id d.ec)
    pub heap_eq : out.0.ec.heap ≡ freed (queue_of id d.ec) d.ec.heap
    pub unlinked_eq : find id out.0.ec.sc_ac_map ≡ none
    pub forgotten : get_sc_id_from_docker_id docker_id out.0 ≡ none
    pub accounts : Returned sc.cpu.quota sc.mem.mem_limit_in_pages d.ec out.0.ec

  drop_oldest_kept :
      (id : ContainerId) (q : List ℕ) (ec : ElasticContainer)
      → let new = drop_oldest id q ec in
        (new.cpu ≡ ec.cpu) × (new.mem ≡ ec.mem) × (new.sc_ac_map ≡ ec.sc_ac_map)
  drop_oldest_kept id (x ∷ y ∷ q) ec = (refl, refl, refl)
  drop_oldest_kept id (x ∷ []) ec = (refl, refl, refl)
  drop_oldest_kept id [] ec = (refl, refl, refl)

  delete_kept :
      (id : ContainerId) (ec : ElasticContainer)
      → let new = (ec_delete_from_subcontainers_map id ec).0 in
        (new.cpu ≡ ec.cpu) × (new.mem ≡ ec.mem) × (new.sc_ac_map ≡ ec.sc_ac_map)
  unfolding ec_delete_from_subcontainers_map
  delete_kept id ec = elim (Option-cases (find id ec.subcontainers)) [
    | inl e ↦ rw (e, ec_delete_from_subcontainers_map) (refl, refl, refl)
    | inr (q, e) ↦ rw (e, ec_delete_from_subcontainers_map) (drop_oldest_kept id q ec)
  ]

  -- The application without the container.
  abbrev pub without : ContainerId → Deployer → ElasticContainer
  without id d = (ec_delete_from_subcontainers_map id (unlinked id d)).0

  without_lem :
      (id : ContainerId) (d : Deployer)
      → IsValid d.ec
      → IsValid (without id d)
        × (queue_of id (without id d) ≡ behind_front (queue_of id d.ec))
        × (find id (without id d).sc_ac_map ≡ none)
        × ((without id d).heap ≡ freed (queue_of id d.ec) d.ec.heap)
  without_lem id d v =
      let before : IsValid (unlinked id d) = IsValid-congr d.ec (unlinked id d) refl refl refl v in
      let deleted = delete_dequeues id (unlinked id d) before in
      let same = same_container_refl id in
      let kept = (delete_kept id (unlinked id d)).2 in
      (
        deleted.0,
        deleted.1 id ∙ if_true _ same,
        ap (find id) kept ∙ find-erase id id d.ec.sc_ac_map ∙ if_true _ same,
        deleted.2,
      )

  accounts_lem :
      (sc : SubContainer) (id : ContainerId) (d : Deployer)
      → GlobalCpu.IsValid d.ec.cpu
      → GlobalMem.IsValid d.ec.mem
      → sc.cpu.quota ≤ d.ec.cpu.alloc_rt
      → sc.mem.mem_limit_in_pages ≤ d.ec.mem.allocated_memory_in_pages
      → Returned sc.cpu.quota sc.mem.mem_limit_in_pages d.ec
          (return_resources sc.cpu.quota sc.mem.mem_limit_in_pages (without id d))
  accounts_lem sc id d cv mv q m =
      let (cpu, mem, _) = delete_kept id (unlinked id d) in
      let back =
        return_resources_lem sc.cpu.quota sc.mem.mem_limit_in_pages (without id d) (rw cpu cv)
          (rw mem mv) (rw cpu q) (rw mem m) in
      (
        back.0 ∙ ap (λ c. c.alloc_rt) cpu,
        back.1 ∙ ap (λ c. c.unallocated_rt + sc.cpu.quota) cpu,
        back.2 ∙ ap (λ g. g.allocated_memory_in_pages) mem,
        back.3 ∙ ap (λ g. g.unallocated_memory_in_pages + sc.mem.mem_limit_in_pages) mem,
      )

  -- The deletion of a known pod of a valid application, with counters below `2 ^ 62` that cover what
  -- the oldest container of its id holds: the service answers, and that container's quota and pages
  -- go from what is allocated back to the pools. The container leaves the queue of the id, the link
  -- of the id to a client and the docker id are gone, and the application stays valid.
  pub delete_pod-IsDeleted :
      (docker_id : String) (id : ContainerId) (sc : SubContainer) (d : Deployer)
      → IsPod docker_id id sc d
      → IsValid d.ec
      → GlobalCpu.IsValid d.ec.cpu
      → GlobalMem.IsValid d.ec.mem
      → sc.cpu.quota ≤ d.ec.cpu.alloc_rt
      → sc.mem.mem_limit_in_pages ≤ d.ec.mem.allocated_memory_in_pages
      → Returns (IsDeleted docker_id id sc d) (delete_pod docker_id d)
  unfolding delete_known delete_entries return_resources update_fair_cpu_share
      get_sc_id_from_docker_id
  delete_pod-IsDeleted docker_id id sc d p v cv mv q m = rw (delete_pod_lem docker_id id sc d p) (
      rw (p.front) (
        rw (p.stored) (record {
          valid =
              IsValid-congr (without id d)
                (return_resources sc.cpu.quota sc.mem.mem_limit_in_pages (without id d)) refl refl
                refl (without_lem id d v).0;
          queue_eq = (without_lem id d v).1;
          unlinked_eq = (without_lem id d v).2;
          heap_eq = (without_lem id d v).3;
          forgotten =
              find-erase docker_id docker_id d.docker_to_subcontainer
              ∙ if_true _ (eq_refl docker_id);
          accounts = accounts_lem sc id d cv mv q m;
        })))

  -- The newest container of an id is the one that a look-up finds, and it is under its own id.
  newest_held :
      (id : ContainerId) (r : ℕ) (ec : ElasticContainer)
      → IsValid ec
      → back? (queue_of id ec) ≡ some r
      → (get_sc_for_update_back id ec ≡ ok r) × Holds ec.heap id r
  unfolding get_sc_for_update_back
  newest_held id r ec v e = elim (Option-cases (find id ec.subcontainers)) [
    | inl n ↦
        let no_back : back? {A = ℕ} [] ≡ some r = ap back? (sym (queue_of-missing id ec n)) ∙ e in
        absurd (cc)
    | inr (q, n) ↦
        let back : back? q ≡ some r = ap back? (sym (queue_of-found id q ec n)) ∙ e in
        let (j, s, (_, held)) = All-find (Entry ec.heap) id q ec.subcontainers v.entries n in
        let (sc, stored, same) = back?-All (Holds ec.heap j) q held back in
        (
          rw (n, get_sc_for_update_back) (rw back refl),
          (sc, stored, same_container_trans sc.c_id j id same s),
        )
  ]

  -- What is there after a deletion was there before.
  freed_lem :
      (q : List ℕ) (heap : ℕ → Option SubContainer) (r : ℕ) (sc : SubContainer)
      → freed q heap r ≡ some sc
      → heap r ≡ some sc
  freed_lem [] heap r sc e = e
  freed_lem (p ∷ []) heap r sc e = e
  freed_lem (p ∷ q ∷ qs) heap r sc e = ground (arith, e)

  -- What a deletion leaves of a container that stays.
  stays :
      (docker_id : String) (id : ContainerId) (sc rest : SubContainer) (r : ℕ) (d : Deployer)
      (out : Deployer × Reply)
      → back? (behind_front (queue_of id d.ec)) ≡ some r
      → d.ec.heap r ≡ some rest
      → IsDeleted docker_id id sc d out
      → (get_sc_for_update_back id out.0.ec ≡ ok r)
        × (out.0.ec.heap r ≡ some rest)
        × (same_container rest.c_id id ≡ true)
  stays docker_id id sc rest r d out b live x =
      let (found, (held, stored, same)) =
        newest_held id r out.0.ec x.valid (ap back? x.queue_eq ∙ b) in
      let before : d.ec.heap r ≡ some held =
        freed_lem (queue_of id d.ec) d.ec.heap r held (sym (ap (λ h. h r) x.heap_eq) ∙ stored) in
      let unchanged : held ≡ rest = cc in
      (
        found,
        stored ∙ ap some unchanged,
        subst (λ s. same_container s.c_id id ≡ true) unchanged same,
      )

  -- The deletion of a known pod of a valid application, with counters below `2 ^ 62` that cover what
  -- the oldest container of its id holds, where a newer container of the id, `rest`, stays in the
  -- queue: a look-up still finds it, and it is as it was, but the deletion has taken the link to the
  -- client, which all containers of an id share. Whatever look-ups and deletions follow, of this id
  -- or others, and whatever other ids are registered: until the id itself is registered anew, a
  -- quota call for that container, if it is inserted, leaves the program.
  pub delete_pod_strands :
      (docker_id : String) (id : ContainerId) (sc rest : SubContainer) (r : ℕ) (d : Deployer)
      (world : World) (quota seq : ℕ) (sent : List QuotaCall)
      → IsPod docker_id id sc d
      → IsValid d.ec
      → GlobalCpu.IsValid d.ec.cpu
      → GlobalMem.IsValid d.ec.mem
      → sc.cpu.quota ≤ d.ec.cpu.alloc_rt
      → sc.mem.mem_limit_in_pages ≤ d.ec.mem.allocated_memory_in_pages
      → back? (behind_front (queue_of id d.ec)) ≡ some r
      → d.ec.heap r ≡ some rest
      → rest.inserted ≡ true
      → Returns
          (λ out.
            (get_sc_for_update_back id out.0.ec ≡ ok r)
            × (out.0.ec.heap r ≡ some rest)
            × ((later : ElasticContainer)
                → Traffic (OtherThan id) AnyId out.0.ec later
                → set_sc_quota_syscall world rest quota seq later sent ≡ exited))
          (delete_pod docker_id d)
  delete_pod_strands docker_id id sc rest r d world quota seq sent p v cv mv q m b live i =
      Returns-map (IsDeleted docker_id id sc d) _ (delete_pod docker_id d)
        (λ out x.
          let (found, stored, same) = stays docker_id id sc rest r d out b live x in
          (
            found,
            stored,
            λ later t.
                Clientless-exits world rest id quota seq later sent i same
                  (Clientless-Traffic id (inl x.unlinked_eq) t),
          ))
        (delete_pod-IsDeleted docker_id id sc d p v cv mv q m)
