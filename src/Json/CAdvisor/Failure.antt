-- ===== src/Json/CAdvisor/Failure.antt =====
-- What a failed report of cAdvisor makes of a container.
use ec_gcm.Common.{ℕ, ◌-◌, ◌≡◌, ◌<◌, ◌^◌, refl, ◌⊎◌, inl, inr, String, some, arith, ok}
use ec_gcm.Platform.{Net, World}
use ec_gcm.Agents.{AgentClient}
use ec_gcm.SubContainer.{SubContainer, set_mem_limit_in_pages}
use ec_gcm.ElasticContainer.{ElasticContainer, store}
use ec_gcm.Manager.Memory.{reclaim}
use ec_gcm.Manager.Memory.Reclaim.{IsServed, reclaim_at}
use ec_gcm.Json.{JsonLibrary}
use ec_gcm.Json.CAdvisor.{Answer, container_url, get_json_request, get_cont_mem_usage}

module _ ⦃json : JsonLibrary⦄ ⦃net : Net⦄ where
  unseen_usage :
      (http : String → Answer json.Value) (agent_ip docker_id : String)
      → (http (container_url agent_ip docker_id) ≡ Answer.http_exception)
        ⊎ (http (container_url agent_ip docker_id) ≡ Answer.status_not_ok)
      → get_cont_mem_usage http agent_ip docker_id ≡ some 0
  unfolding get_cont_mem_usage get_json_request
  unseen_usage http agent_ip docker_id (inl e) = rw e refl
  unseen_usage http agent_ip docker_id (inr e) = rw e refl

  -- The container of a node whose cAdvisor does not answer, or answers with another status than OK:
  -- with a limit between 12800 and `2 ^ 50` pages on record and an agent that agrees, `reclaim` cuts
  -- the limit to 12800 pages, whatever the container uses, and reports the rest as reclaimed. Here
  -- the world gives as usage what `getContMemUsage` returns for the container.
  pub reclaim_unseen :
      (http : String → Answer json.Value) (ip_text : ℕ → String) (world : World) (p : ℕ)
      (ec : ElasticContainer) (sc : SubContainer) (ac : AgentClient)
      → IsServed ec p sc ac
      → (http (container_url (ip_text ac.ip) sc.c_id.docker_id) ≡ Answer.http_exception)
        ⊎ (http (container_url (ip_text ac.ip) sc.c_id.docker_id) ≡ Answer.status_not_ok)
      → get_cont_mem_usage http (ip_text ac.ip) sc.c_id.docker_id
        ≡ some (world.usage_bytes ac.ip sc.c_id.docker_id)
      → 12_800 < sc.mem.mem_limit_in_pages
      → sc.mem.mem_limit_in_pages < 2 ^ 50
      → world.resize_status ac.handle sc.c_id.cgroup_id 12_800 ≡ 0
      → reclaim world sc.c_id p ec
        ≡ ok (store p (set_mem_limit_in_pages 12_800 sc) ec, sc.mem.mem_limit_in_pages - 12_800)
  reclaim_unseen http ip_text world p ec sc ac s f u l b e =
      reclaim_at world p ec sc ac 12_800 (sc.mem.mem_limit_in_pages - 12_800) s
        (rw unseen (ground arith)) (rw unseen (ground arith)) (rw unseen (ground arith))
        (rw unseen (ground arith)) e
    where
      unseen : world.usage_bytes ac.ip sc.c_id.docker_id ≡ 0
      unseen = let z = unseen_usage http (ip_text ac.ip) sc.c_id.docker_id f in cc
