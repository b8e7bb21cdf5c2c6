-- ===== src/Examples/Containers.antt =====
-- The theorems on the containers of an application, at concrete values.
use ec_gcm.Common.{
  ℕ, ◌≡◌, refl, true, false, not, none, some, [], ◌∷◌, ◌++◌, if◌then◌else◌, ◌==◌, ok, exited,
}
use ec_gcm.Common.Map.{contains, find, erase}
use ec_gcm.SubContainer.{ContainerId, SubContainer, same_container, container_id}
use ec_gcm.SubContainer.Identity.{container_key}
use ec_gcm.ElasticContainer.{
  ElasticContainer, create_new_sc, insert_sc, get_sc_for_update_back,
  ec_delete_from_subcontainers_map, get_corres_agent_client, add_to_sc_ac_map,
}
use ec_gcm.ElasticContainer.Invariant.{IsValid}
use ec_gcm.ElasticContainer.Lookup.{queue_of, insert_sc_appends}
use ec_gcm.ElasticContainer.Deletion.{behind_front, freed, delete_dequeues}
use ec_gcm.EcApi.{set_sc_quota_syscall}
use ec_gcm.EcApi.Traffic.{lookup_before_registration}
use ec_gcm.EcApi.Traffic.Traffic.{quiet, looked_up, registered, forgotten}
use ec_gcm.Examples.{plain_net, willing, client, seven, container, application, application-IsValid}

insert_sc_appends_example :
    (new : ElasticContainer) × ((let (p, ec1) = create_new_sc seven application in insert_sc p ec1)
      ≡ ok new)
    × IsValid new
    × ((j : ContainerId)
        → queue_of j new ≡ (
            if same_container seven.c_id j
            then queue_of j application ++ application.next_sc ∷ []
            else queue_of j application))
    × ((p : ℕ) → new.heap p ≡ (if application.next_sc == p then some seven else application.heap p))
    × (get_sc_for_update_back seven.c_id new ≡ ok application.next_sc)
insert_sc_appends_example = insert_sc_appends seven application application-IsValid

delete_dequeues_example :
    let id = container_id 7 1 in
    let (new, failed) = ec_delete_from_subcontainers_map id application in
    IsValid new
    × ((j : ContainerId)
        → queue_of j new ≡ (
            if same_container id j
            then behind_front (queue_of j application)
            else queue_of j application))
    × (new.heap ≡ freed (queue_of id application) application.heap)
    × (failed ≡ not (contains id application.subcontainers))
    × (failed ≡ true → new ≡ application)
delete_dequeues_example = delete_dequeues (container_id 7 1) application application-IsValid

-- A container that no client is on record for.
abbrev nine : SubContainer
nine = container 9 "d9" 10_000_000 0

nine_unknown : find nine.c_id application.sc_ac_map ≡ none
unfolding find same_container
nine_unknown = refl

seven_apart : same_container seven.c_id nine.c_id ≡ false
unfolding same_container
seven_apart = refl

-- The container is looked up too early and registered; then another is forgotten, and this one is
-- registered and looked up again.
abbrev registered_late : ElasticContainer
registered_late =
    add_to_sc_ac_map nine.c_id (some client) (get_corres_agent_client nine.c_id application).0

abbrev seven_forgotten : ElasticContainer
seven_forgotten = record registered_late { sc_ac_map = erase seven.c_id registered_late.sc_ac_map }

lookup_before_registration_example :
    let again = add_to_sc_ac_map nine.c_id (some client) seven_forgotten in
    let later = (get_corres_agent_client nine.c_id again).0 in
    set_sc_quota_syscall willing nine 20_000_000 3 later [] ≡ exited
lookup_before_registration_example =
    lookup_before_registration willing nine 20_000_000 3 application _ [] client refl nine_unknown (
      looked_up nine.c_id (registered nine.c_id client tt (forgotten seven.c_id seven_apart quiet)))
