-- ===== src/Examples/Races.antt =====
-- The theorems on a reclaim with a request in the middle and on calls that wait, at the containers 7, 8
-- and 9.
use ec_gcm.Common.{ℕ, ◌+◌, ◌≡◌, refl, ◌≤◌, some, Option, [], ◌∷◌, ok, arith, true, false, hung}
use ec_gcm.Common.Map.{find, contains}
use ec_gcm.Platform.{World}
use ec_gcm.ElasticContainer.{store}
use ec_gcm.SubContainer.{
  SubContainer, same_container, set_mem_limit_in_pages, container_id, set_docker_id,
  set_sc_inserted,
}
use ec_gcm.SubContainer.Identity.{container_key}
use ec_gcm.ElasticContainer.{ElasticContainer, get_sc_for_update_back}
use ec_gcm.Msg.{Msg, alloc_success}
use ec_gcm.Manager.Memory.{determine_mem_limit_for_new_pod, on_mem, handle_mem_req}
use ec_gcm.Threads.Reclaims.{Plan, plan_reclaim, carry_out}
use ec_gcm.Threads.Reclaims.Grants.{reclaim_overwrites_grant}
use ec_gcm.Manager.Memory.Request.{IsSender}
use ec_gcm.Threads.Matching.{Service, asleep, matched, nobody, Steps, Calm}
use ec_gcm.Threads.Matching.Wakeups.{notification_lost}
use ec_gcm.EcApi.{ec_update_reclaim_memory_in_pages}
use ec_gcm.Examples.{container, thousandths, plain_net, willing, client, seven, application}
use ec_gcm.Examples.Memory.{request, seven-IsServed, application_mem-IsValid}

-- The container 7 asks for more while the thread of `run` reclaims from it.
abbrev request_of_seven : Msg
request_of_seven = record request { cgroup_id = 7; rsrc_amnt = 40_000 }

seven-IsSender : IsSender application request_of_seven 0 seven
unfolding find same_container
seven-IsSender = record { queue = 0 ∷ []; entry = refl; last = refl; stored = refl }

reclaim_overwrites_grant_example :
    (plan : Option Plan) × (between after : ElasticContainer) × (answer : Msg) × (pages : ℕ)
    × (plan_reclaim willing seven.c_id 0 application ≡ ok (application, plan))
    × (handle_mem_req willing request_of_seven request_of_seven 8 application
        ≡ ok (between, answer, alloc_success))
    × (carry_out willing seven.c_id plan between ≡ ok (after, pages))
    × (answer.rsrc_amnt ≡ 42_000)
    × (after.heap 0 ≡ some (set_mem_limit_in_pages 13_800 seven))
    × (13_800 + pages ≤ 40_000)
    × (40_000 ≤ 13_800 + pages + 1)
    × ((on_mem (ec_update_reclaim_memory_in_pages pages) after).mem.allocated_memory_in_pages
          + pages
        ≡ 52_000)
reclaim_overwrites_grant_example =
    reclaim_overwrites_grant willing willing 0 application seven client seven-IsServed
      request_of_seven request_of_seven 8 seven-IsSender application_mem-IsValid (omega arith) refl
      (omega arith) (omega arith) (omega arith) (omega arith) refl

-- The container 8 is not yet registered, and a call waits for it; another waits for the container 9.
abbrev nameless : SubContainer
nameless = container 8 "" 20_000_000 0

abbrev unregistered : ElasticContainer
unregistered = record (store 1 nameless application) { sc_ac_map = (seven.c_id, some client) ∷ [] }

nameless_found : get_sc_for_update_back nameless.c_id unregistered ≡ ok 1
unfolding get_sc_for_update_back find same_container
nameless_found = refl

nameless_missing : contains nameless.c_id unregistered.sc_ac_map ≡ false
unfolding contains same_container
nameless_missing = refl

nine_missing : contains (container_id 9 1) unregistered.sc_ac_map ≡ false
unfolding contains same_container
nine_missing = refl

nine_apart : same_container nameless.c_id (container_id 9 1) ≡ false
unfolding same_container
nine_apart = refl

notification_lost_example :
    let before : Service = record { ec = unregistered; waiter = nobody } in
    (good stuck : Service) × Steps before good
    × Steps before stuck
    × (good.waiter 1 ≡ matched)
    × (good.ec.heap 1 ≡ some (set_docker_id "d8" (set_sc_inserted true nameless)))
    × (contains nameless.c_id stuck.ec.sc_ac_map ≡ true)
    × ((world : World) (fd : ℕ) → determine_mem_limit_for_new_pod world 1 fd stuck.ec ≡ hung)
    × ((later : Service) → Calm stuck later → later.waiter 1 ≡ asleep nameless.c_id "d8")
notification_lost_example =
    notification_lost unregistered 1 nameless client (container_id 9 1) "d8" "d9" nameless_found
      nameless_missing nine_missing nine_apart refl
