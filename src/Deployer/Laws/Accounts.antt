-- ===== src/Deployer/Laws/Accounts.antt =====
-- What the service does to the accounts, and the two phases of a deletion.
use ec_gcm.Common.{
  ℕ, ◌+◌, ◌*◌, ◌^◌, ◌≡◌, ◌≢◌, ◌≤◌, ◌<◌, refl, true, false, some, String, List, [], ◌∷◌, arith,
  if◌then◌else◌, ◌==◌, Bool, ok,
}
use ec_gcm.Common.Map.{find, erase, beq_congr, beq_comm}
use ec_gcm.Platform.{Net}
use ec_gcm.Stats.GlobalCpu
use ec_gcm.Stats.GlobalCpu.{
  GlobalCpu, incr_unallocated_rt, decr_alloc_rt, set_total_cpu, set_unallocated_rt,
}
use ec_gcm.Stats.GlobalMem
use ec_gcm.Stats.GlobalMem.{
  GlobalMem, incr_unallocated_memory_in_pages, decr_allocated_memory_in_pages,
  set_memory_limit_in_pages, set_unallocated_memory_in_pages, set_allocated_memory_in_pages,
}
use ec_gcm.SubContainer.{ContainerId, SubContainer, same_container}
use ec_gcm.SubContainer.Identity.{container_key}
use ec_gcm.ElasticContainer.{ElasticContainer, get_subcontainer_front, update_fair_cpu_share}
use ec_gcm.Deployer.{
  Deployer, report_app_spec, get_sc_id_from_docker_id, return_resources, delete_known, delete_pod,
  docker_key,
}

-- Limits below `2 ^ 40` are taken over without a wrap: the whole CPU time and all pages of the
-- application, 256 in a MiB, are in the pools.
pub app_spec_fits :
    (cpu_limit mem_limit : ℕ) (ec : ElasticContainer)
    → cpu_limit < 2 ^ 40
    → mem_limit < 2 ^ 40
    → let new = report_app_spec cpu_limit mem_limit ec in
      (new.cpu.total_cpu ≡ cpu_limit * 100_000)
      × (new.cpu.unallocated_rt ≡ new.cpu.total_cpu)
      × (new.mem.memory_limit_in_pages ≡ mem_limit * 256)
      × (new.mem.unallocated_memory_in_pages + new.mem.allocated_memory_in_pages
          ≡ new.mem.memory_limit_in_pages)
unfolding report_app_spec set_total_cpu set_unallocated_rt set_memory_limit_in_pages
    set_unallocated_memory_in_pages set_allocated_memory_in_pages
app_spec_fits cpu_limit mem_limit ec h k = ground arith

-- Time and pages go from what is allocated to the pools.
abbrev pub Returned : ℕ → ℕ → ElasticContainer → ElasticContainer → Type 0
Returned quota pages old new =
    (new.cpu.alloc_rt + quota ≡ old.cpu.alloc_rt)
    × (new.cpu.unallocated_rt ≡ old.cpu.unallocated_rt + quota)
    × (new.mem.allocated_memory_in_pages + pages ≡ old.mem.allocated_memory_in_pages)
    × (new.mem.unallocated_memory_in_pages ≡ old.mem.unallocated_memory_in_pages + pages)

pub if_true : {A : Type 0} {b : Bool} {x : A} (y : A) → b ≡ true → (if b then x else y) ≡ x
if_true y h = rw h refl

-- The accounts after a container with this quota and these pages is given back.
pub return_resources_lem :
    (quota pages : ℕ) (ec : ElasticContainer)
    → GlobalCpu.IsValid ec.cpu
    → GlobalMem.IsValid ec.mem
    → quota ≤ ec.cpu.alloc_rt
    → pages ≤ ec.mem.allocated_memory_in_pages
    → Returned quota pages ec (return_resources quota pages ec)
unfolding return_resources update_fair_cpu_share incr_unallocated_rt decr_alloc_rt
    incr_unallocated_memory_in_pages decr_allocated_memory_in_pages
return_resources_lem quota pages ec v w h k = ground arith

module _ ⦃net : Net⦄ where
  -- The docker id stands for a container, the oldest of its id.
  pub record IsPod (docker_id : String) (id : ContainerId) (sc : SubContainer) (d : Deployer)
      : Type 0 where
    pub matched : get_sc_id_from_docker_id docker_id d ≡ some id
    pub numbered : id.cgroup_id ≢ 0
    pub address : ℕ
    pub front : get_subcontainer_front id d.ec ≡ ok address
    pub stored : d.ec.heap address ≡ some sc

  pub same_key :
      {V : Type 0} (a b : ContainerId) (m : List (ContainerId × V))
      → same_container a b ≡ true
      → find a m ≡ find b m
  unfolding find
  same_key a b [] h = refl
  same_key a b ((k, v) ∷ m) h =
      ground (arith, same_key a b m h, beq_congr a b k, beq_comm k a, beq_comm k b)

  -- The application before the accounts are moved.
  abbrev pub unlinked : ContainerId → Deployer → ElasticContainer
  unlinked id d = record (d.ec) { sc_ac_map = erase id d.ec.sc_ac_map }

  pub delete_pod_lem :
      (docker_id : String) (id : ContainerId) (sc : SubContainer) (d : Deployer)
      → IsPod docker_id id sc d
      → delete_pod docker_id d ≡ delete_known id docker_id d
  unfolding delete_pod
  delete_pod_lem docker_id id sc d p =
      let numbered : (id.cgroup_id == 0) ≡ false = ground (arith, p.numbered) in
      rw (p.matched, delete_pod) (rw numbered refl)
