-- ===== src/Examples/Deployment.antt =====
-- The theorems on the deployer's service, at concrete values.
use ec_gcm.Common.{◌≡◌, refl, arith, some, ok, back?, [], ◌∷◌, exited, Returns}
use ec_gcm.Common.Map.{find, contains}
use ec_gcm.SubContainer.{SubContainer, same_container}
use ec_gcm.SubContainer.Identity.{container_key}
use ec_gcm.ElasticContainer.{
  ElasticContainer, write, get_subcontainer_front, get_sc_for_update_back,
}
use ec_gcm.ElasticContainer.Invariant.{IsValid}
use ec_gcm.ElasticContainer.Lookup.{queue_of}
use ec_gcm.ElasticContainer.Deletion.{behind_front}
use ec_gcm.EcApi.Traffic.{Traffic, AnyId, OtherThan}
use ec_gcm.EcApi.{set_sc_quota_syscall}
use ec_gcm.Deployer.{Deployer, get_sc_id_from_docker_id, delete_pod}
use ec_gcm.Deployer.Laws.{IsPod, IsDeleted, delete_pod-IsDeleted, delete_pod_strands}
use ec_gcm.Examples.{plain_net, willing, seven, eight, container, application, application-IsValid}
use ec_gcm.Examples.Stats.{application_cpu-IsValid}
use ec_gcm.Examples.Memory.{application_mem-IsValid}

abbrev deployer : Deployer
deployer = record {
  ec = application;
  deployed_pods = (seven.c_id, "d7" ∷ []) ∷ [];
  docker_to_subcontainer = ("d7", seven.c_id) ∷ [];
}

seven-IsPod : IsPod "d7" seven.c_id seven deployer
unfolding get_sc_id_from_docker_id get_subcontainer_front find same_container
seven-IsPod = record {
  matched = refl;
  numbered = ground arith;
  address = 0;
  front = refl;
  stored = refl;
}

delete_pod-IsDeleted_example :
    Returns (IsDeleted "d7" seven.c_id seven deployer) (delete_pod "d7" deployer)
delete_pod-IsDeleted_example =
    delete_pod-IsDeleted "d7" seven.c_id seven deployer seven-IsPod application-IsValid
      application_cpu-IsValid application_mem-IsValid (omega arith) (omega arith)

-- A second, newer container with the id of the container 7, in the same queue.
abbrev younger : SubContainer
younger = container 7 "d7" 10_000_000 5000

abbrev crowded : ElasticContainer
crowded = record application {
  subcontainers = (seven.c_id, 0 ∷ 2 ∷ []) ∷ (eight.c_id, 1 ∷ []) ∷ [];
  heap = write application.heap 2 (some younger);
  next_sc = 3;
}

crowded-IsValid : IsValid crowded
unfolding contains same_container
crowded-IsValid = record {
  distinct = (refl, (refl, tt));
  entries = (
    (ground arith, ((seven, refl, refl), ((younger, refl, refl), tt))),
    ((ground arith, ((eight, refl, refl), tt)), tt),
  );
  once = λ p. ground arith;
  unborn = λ p h. ground arith;
  bounded = λ p h. ground arith;
}

abbrev crowded_deployer : Deployer
crowded_deployer = record deployer { ec = crowded }

crowded-IsPod : IsPod "d7" seven.c_id seven crowded_deployer
unfolding get_sc_id_from_docker_id get_subcontainer_front find same_container
crowded-IsPod = record {
  matched = refl;
  numbered = ground arith;
  address = 0;
  front = refl;
  stored = refl;
}

younger_stays : back? (behind_front (queue_of seven.c_id crowded)) ≡ some 2
unfolding find same_container
younger_stays = refl

delete_pod_strands_example :
    Returns
      (λ out.
        (get_sc_for_update_back seven.c_id out.0.ec ≡ ok 2)
        × (out.0.ec.heap 2 ≡ some younger)
        × ((later : ElasticContainer)
            → Traffic (OtherThan seven.c_id) AnyId out.0.ec later
            → set_sc_quota_syscall willing younger 20_000_000 4 later [] ≡ exited))
      (delete_pod "d7" crowded_deployer)
delete_pod_strands_example =
    delete_pod_strands "d7" seven.c_id seven younger 2 crowded_deployer willing 20_000_000 4 []
      crowded-IsPod crowded-IsValid application_cpu-IsValid application_mem-IsValid (omega arith)
      (omega arith) younger_stays refl refl
