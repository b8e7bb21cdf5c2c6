-- ===== src/Manager/Admission/Base.antt =====
-- `ECAPI::handle_add_cgroup_to_ec` (ECAPI.cpp), which `Manager::handle_add_cgroup_to_ec` replaces, next
-- to that one.
use ec_gcm.Common.{
  ℕ, ◌≡◌, refl, Bool, true, false, Option, none, some, if◌then◌else◌, arith, Outcome, ok, hung,
  ◌>>=◌, add32,
}
use ec_gcm.Platform.{Double, Net, World}
use ec_gcm.Agents.{AgentClient}
use ec_gcm.AgentClientDb.{get_agent_client_by_ip}
use ec_gcm.SubContainer.{SubContainer, init, set_sc_inserted}
use ec_gcm.SubContainer.Identity.{container_key}
use ec_gcm.ElasticContainer.{
  ElasticContainer, create_new_sc, insert_sc, update_fair_cpu_share, add_to_sc_ac_map, store,
}
use ec_gcm.ElasticContainer.Lookup.{insert_sc-create_new_sc}
use ec_gcm.EcApi.{determine_quota_for_new_pod, set_sc_quota_syscall}
use ec_gcm.Msg.{Msg, alloc_init}
use ec_gcm.Manager.{Manager}
use ec_gcm.Manager.Admission.{link, tell_agent, handle_add_cgroup_to_ec}
use ec_gcm.Manager.Admission.Laws.{new_quota, newcomer, admitted, handle_add_cgroup_lem}

module _ ⦃net : Net⦄ where
  -- The link to the client, which leaves the container itself as it is.
  unfoldable pub link_client :
      SubContainer → Option AgentClient → ElasticContainer → ElasticContainer
  link_client sc none ec = ec
  link_client sc (some ac) ec = add_to_sc_ac_map sc.c_id (some ac) ec

module _ ⦃d : Double⦄ ⦃net : Net⦄ where
  -- The result of `insert_sc` is the code of a new container.
  unfoldable pub ec_handle_add_cgroup_to_ec :
      World → ℕ → Msg → Msg → ℕ → ℕ → Manager → Outcome (Manager × Msg × ℕ)
  ec_handle_add_cgroup_to_ec world now req res ip fd m =
      let (cpu, quota, update) = determine_quota_for_new_pod req.rsrc_amnt m.ec.cpu in
      let sc = init now req.cgroup_id ip fd quota req.request in
      let (p, created) = create_new_sc sc (record (m.ec) { cpu = cpu }) in
      let agent = get_agent_client_by_ip sc.c_id.server_ip m.agents in
      do
        inserted ← insert_sc p created
        let linked = link_client sc agent (update_fair_cpu_share inserted)
        r ← tell_agent world update sc quota linked m.sent
        ok (record m { ec = r.0; sent = r.1 }, record res { request = 0 }, alloc_init)

  ec_handle_add_cgroup_lem :
      (world : World) (now : ℕ) (req res : Msg) (ip fd : ℕ) (m : Manager)
      → ec_handle_add_cgroup_to_ec world now req res ip fd m ≡ (
          tell_agent world
            (determine_quota_for_new_pod req.rsrc_amnt m.ec.cpu).2
            (newcomer now req ip fd m)
            (new_quota req m)
            (link_client
              (newcomer now req ip fd m)
              (get_agent_client_by_ip (net.from_net ip) m.agents)
              (admitted now req ip fd m))
            m.sent
          >>= λ r. ok (record m { ec = r.0; sent = r.1 }, record res { request = 0 }, alloc_init))
  unfolding ec_handle_add_cgroup_to_ec init create_new_sc
  ec_handle_add_cgroup_lem world now req res ip fd m =
      rw
        (insert_sc-create_new_sc (newcomer now req ip fd m)
          (record (m.ec) { cpu = (determine_quota_for_new_pod req.rsrc_amnt m.ec.cpu).0 }))
        refl

  -- How the handler of ECAPI ends next to the one of Manager, by whether the agent must be told.
  abbrev pub IsReplaced :
      Bool
      → Manager
      → Msg
      → SubContainer
      → ElasticContainer
      → Outcome (Manager × Msg × ℕ)
      → Outcome (Manager × Msg × ℕ)
      → Type 0
  IsReplaced true m res sc new base own = base ≡ hung
  IsReplaced false m res sc new base own =
      (base ≡ ok (record m { ec = new }, record res { request = 0 }, alloc_init))
      × (own
          ≡ ok (
            record m { ec = store m.ec.next_sc (set_sc_inserted true sc) new },
            record res { request = add32 res.request 1 },
            alloc_init,
          ))

  replaced :
      (flag : Bool) (m : Manager) (res : Msg) (sc : SubContainer) (new : ElasticContainer)
      (base own : Outcome (Manager × Msg × ℕ))
      → base ≡ (
          if flag then hung else ok (record m { ec = new }, record res { request = 0 }, alloc_init))
      → (flag ≡ false
          → own
            ≡ ok (
              record m { ec = store m.ec.next_sc (set_sc_inserted true sc) new },
              record res { request = add32 res.request 1 },
              alloc_init,
            ))
      → IsReplaced flag m res sc new base own
  replaced true m res sc new base own b o = b
  replaced false m res sc new base own b o = (b, o refl)

  base_ends :
      (world : World) (now : ℕ) (req res : Msg) (ip fd : ℕ) (m : Manager) (ac : AgentClient)
      → get_agent_client_by_ip (net.from_net ip) m.agents ≡ some ac
      → ec_handle_add_cgroup_to_ec world now req res ip fd m ≡ (
          if (determine_quota_for_new_pod req.rsrc_amnt m.ec.cpu).2
          then hung
          else ok (
            record m {
              ec =
                  add_to_sc_ac_map
                    (newcomer now req ip fd m).c_id
                    (some ac)
                    (admitted now req ip fd m);
            },
            record res { request = 0 },
            alloc_init,
          ))
  unfolding link_client tell_agent set_sc_quota_syscall init
  base_ends world now req res ip fd m ac a =
      rw (ec_handle_add_cgroup_lem world now req res ip fd m) (rw a (ground arith))

  own_ends :
      (world : World) (now : ℕ) (req res : Msg) (ip fd : ℕ) (m : Manager) (ac : AgentClient)
      → get_agent_client_by_ip (net.from_net ip) m.agents ≡ some ac
      → (determine_quota_for_new_pod req.rsrc_amnt m.ec.cpu).2 ≡ false
      → handle_add_cgroup_to_ec world now req res ip fd m
        ≡ ok (
          record m {
            ec = store m.ec.next_sc (set_sc_inserted true (newcomer now req ip fd m)) (
                add_to_sc_ac_map
                  (newcomer now req ip fd m).c_id
                  (some ac)
                  (admitted now req ip fd m));
          },
          record res { request = add32 res.request 1 },
          alloc_init,
        )
  unfolding link tell_agent
  own_ends world now req res ip fd m ac a e =
      rw (handle_add_cgroup_lem world now req res ip fd m) (rw a (rw e refl))

  -- The handler of ECAPI and the one of Manager, for a new container on a node with a client: where
  -- the pool covers the quota, both leave the same application, which links the container to the
  -- client, but for the mark of the container as inserted, which only the second sets, and the two
  -- answers differ in `request` alone; where it does not, the one of ECAPI waits for that mark
  -- without end.
  pub base_handler-IsReplaced :
      (world : World) (now : ℕ) (req res : Msg) (ip fd : ℕ) (m : Manager) (ac : AgentClient)
      → get_agent_client_by_ip (net.from_net ip) m.agents ≡ some ac
      → let sc = newcomer now req ip fd m in
        IsReplaced
          (determine_quota_for_new_pod req.rsrc_amnt m.ec.cpu).2
          m
          res
          sc
          (add_to_sc_ac_map sc.c_id (some ac) (admitted now req ip fd m))
          (ec_handle_add_cgroup_to_ec world now req res ip fd m)
          (handle_add_cgroup_to_ec world now req res ip fd m)
  base_handler-IsReplaced world now req res ip fd m ac a =
      replaced (determine_quota_for_new_pod req.rsrc_amnt m.ec.cpu).2 m res
        (newcomer now req ip fd m)
        (add_to_sc_ac_map (newcomer now req ip fd m).c_id (some ac) (admitted now req ip fd m))
        (ec_handle_add_cgroup_to_ec world now req res ip fd m)
        (handle_add_cgroup_to_ec world now req res ip fd m)
        (base_ends world now req res ip fd m ac a) (own_ends world now req res ip fd m ac a)
