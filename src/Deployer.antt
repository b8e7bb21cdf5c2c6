-- ===== src/Deployer.antt =====
-- DeployServerGRPC/DeployerExportServiceImpl.h and .cpp: the service through which the deployer
-- announces an application and its pods, and takes pods away. A docker id is a string; the checks of
-- null messages do not occur, a message is a value. The thread that matches ids waits until the
-- container is in the map to clients: the model waits without end if it is not there yet.
pub mod Laws
pub mod Evolution
use text.Mathlib.Text.{◌==◌ as str_eq}
use text.Mathlib.TextEquality.{eq_iff}
use text.Mathlib.TextPositions.{eq_refl}
use ec_gcm.Common.{
  ℕ, sym, ◌∙◌, ◌/◌, Bool, true, false, Option, none, some, String, List, [], ◌∷◌, ◌++◌, ◌||◌,
  if◌then◌else◌, ◌==◌, mul64, Outcome, ok, hung, or_fault, ◌>>=◌,
}
use ec_gcm.Common.Map.{Key, find, contains, insert, erase, update}
use ec_gcm.Platform.{Net}
use ec_gcm.Stats.GlobalCpu.{set_total_cpu, set_unallocated_rt, incr_unallocated_rt, decr_alloc_rt}
use ec_gcm.Stats.GlobalMem.{
  set_memory_limit_in_pages, set_unallocated_memory_in_pages, set_allocated_memory_in_pages,
  incr_unallocated_memory_in_pages, decr_allocated_memory_in_pages,
}
use ec_gcm.SubContainer.{ContainerId, SubContainer, set_docker_id}
use ec_gcm.SubContainer.Identity.{container_key}
use ec_gcm.ElasticContainer.{
  ElasticContainer, store, get_subcontainer_front, get_sc_for_update_back, update_fair_cpu_share,
  ec_delete_from_subcontainers_map,
}

pub record Deployer : Type 0 where
  pub ec : ElasticContainer
  pub deployed_pods : List (ContainerId × List String)
  pub docker_to_subcontainer : List (String × ContainerId)

-- `cpu_limit` is in thousandths of a core and `mem_limit` in MiB.
unfoldable pub report_app_spec : ℕ → ℕ → ElasticContainer → ElasticContainer
report_app_spec cpu_limit mem_limit ec =
    let total = mul64 cpu_limit 100_000 in
    let pages = mul64 (mul64 mem_limit 1024) 1024 / 4096 in
    record ec {
      cpu = set_unallocated_rt total (set_total_cpu total ec.cpu);
      mem =
          set_allocated_memory_in_pages 0
            (set_unallocated_memory_in_pages pages (set_memory_limit_in_pages pages ec.mem));
    }

-- How a call of the service ends, and the word in the reply.
pub data Reply : Type 0 where
  thanks failed cancelled : Reply

-- Docker ids as keys.
instance abbrev pub docker_key : Key String
docker_key = record {
  beq = str_eq;
  beq_refl = eq_refl;
  beq_sym = λ a b h. (eq_iff b a).1 (sym ((eq_iff a b).0 h));
  beq_trans = λ a b c h k. (eq_iff a c).1 ((eq_iff a b).0 h ∙ (eq_iff b c).0 k);
}

unfoldable pub get_sc_id_from_docker_id : String → Deployer → Option ContainerId
get_sc_id_from_docker_id docker_id d = find docker_id d.docker_to_subcontainer

-- What the container held goes back to the two pools.
unfoldable pub return_resources : ℕ → ℕ → ElasticContainer → ElasticContainer
return_resources quota pages ec =
    let shared = update_fair_cpu_share ec in
    record shared {
      cpu = incr_unallocated_rt quota (decr_alloc_rt quota shared.cpu);
      mem =
          decr_allocated_memory_in_pages pages (incr_unallocated_memory_in_pages pages shared.mem);
    }

module _ ⦃net : Net⦄ where
  -- The queue of a known id is one object, which the entry points at.
  abbrev pub push_pod :
      ContainerId → String → List (ContainerId × List String) → List (ContainerId × List String)
  push_pod id docker_id pods = elim (find id pods) [
    | none ↦ insert id (docker_id ∷ []) pods
    | some q ↦ update id (q ++ docker_id ∷ []) pods
  ]

  -- The flag is true where the source returns -3: the docker id was there before.
  unfoldable pub insert_pod_spec : ContainerId → String → Deployer → Deployer × Bool
  insert_pod_spec id docker_id d = (
    record d {
      deployed_pods = push_pod id docker_id d.deployed_pods;
      docker_to_subcontainer = insert docker_id id d.docker_to_subcontainer;
    },
    contains docker_id d.docker_to_subcontainer,
  )

  -- `scIdToDockerIdMatcherThread`.
  unfoldable pub match_docker_id :
      ContainerId → String → ElasticContainer → Outcome ElasticContainer
  match_docker_id id docker_id ec =
      if contains id ec.sc_ac_map
      then (do
        p ← get_sc_for_update_back id ec
        sc ← or_fault (ec.heap p)
        ok (store p (set_docker_id docker_id sc) ec))
      else hung

  unfoldable pub report_pod_spec : ContainerId → String → Deployer → Outcome (Deployer × Reply)
  report_pod_spec id docker_id d = do
    let inserted = insert_pod_spec id docker_id d
    if inserted.1 then ok (inserted.0, failed) else (do
      ec ← match_docker_id id docker_id d.ec
      ok (record (inserted.0) { ec = ec }, thanks))

  -- The four deletions: the flag is true where one of them fails.
  unfoldable pub delete_entries : ContainerId → String → Deployer → Deployer × Bool
  delete_entries id docker_id d =
      let linked = contains id d.ec.sc_ac_map in
      let unlinked = record (d.ec) { sc_ac_map = erase id d.ec.sc_ac_map } in
      let (ec, unknown) = ec_delete_from_subcontainers_map id unlinked in
      (
        record {
          ec = ec;
          deployed_pods = erase id d.deployed_pods;
          docker_to_subcontainer = erase docker_id d.docker_to_subcontainer;
        },
        if linked
            then (if unknown
                then true
                else if contains id d.deployed_pods
                then (if contains docker_id d.docker_to_subcontainer then false else true)
                else true)
            else true,
      )

  -- The part of `DeletePod` for a docker id that is known.
  unfoldable pub delete_known : ContainerId → String → Deployer → Outcome (Deployer × Reply)
  delete_known id docker_id d = do
    p ← get_subcontainer_front id d.ec
    sc ← or_fault (d.ec.heap p)
    let deleted = delete_entries id docker_id d
    ok (
      record (deleted.0) {
        ec = return_resources sc.cpu.quota sc.mem.mem_limit_in_pages deleted.0.ec;
      },
      if deleted.1 then failed else thanks,
    )

  -- A docker id that is not known gives an id with the group 0.
  unfoldable pub delete_pod : String → Deployer → Outcome (Deployer × Reply)
  delete_pod docker_id d = elim (get_sc_id_from_docker_id docker_id d) [
    | none ↦ ok (d, cancelled)
    | some id ↦ if id.cgroup_id == 0 then ok (d, cancelled) else delete_known id docker_id d
  ]
