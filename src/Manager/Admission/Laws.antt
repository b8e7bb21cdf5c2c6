-- ===== src/Manager/Admission/Laws.antt =====
-- A new container, from its first message to its first quota call.
use ec_gcm.Common.{
  ℕ, ◌≡◌, ◌<◌, refl, Bool, true, false, none, some, List, ◌∷◌, arith, if◌then◌else◌, add32, ◌>>=◌,
  ok, hung, Returns, back?-append,
}
use ec_gcm.Common.Map.{find, find-insert, contains-find}
use ec_gcm.Platform.{Double, Net, World}
use ec_gcm.Agents.{AgentClient}
use ec_gcm.AgentClientDb.{get_agent_client_by_ip}
use ec_gcm.Stats.GlobalCpu.{GlobalCpu}
use ec_gcm.Stats.LocalCpu
use ec_gcm.SubContainer.{SubContainer, init, set_sc_inserted, container_id}
use ec_gcm.SubContainer.Identity.{container_key, same_container_refl}
use ec_gcm.ElasticContainer.{
  ElasticContainer, create_new_sc, update_fair_cpu_share, add_to_sc_ac_map, store,
  get_sc_for_update_back,
}
use ec_gcm.ElasticContainer.Invariant.{IsValid, IsValid-congr, store-IsValid}
use ec_gcm.ElasticContainer.Lookup.{
  find-enqueue, queue_of, added, added-IsValid, insert_sc-create_new_sc,
}
use ec_gcm.EcApi.{QuotaCall, determine_quota_for_new_pod, set_sc_quota_syscall}
use ec_gcm.EcApi.Calls.{quota_call, set_sc_quota_syscall_lem}
use ec_gcm.Msg.{Msg, alloc_init}
use ec_gcm.Manager.{Manager}
use ec_gcm.Manager.Admission.{new_pod_seq, link, tell_agent, handle_add_cgroup_to_ec}

-- The agent is told where the container asks for more than the pool holds.
told :
    (req_quota : ℕ) (c : GlobalCpu)
    → c.unallocated_rt < req_quota
    → (determine_quota_for_new_pod req_quota c).2 ≡ true
unfolding determine_quota_for_new_pod
told req_quota c h = ground arith

module _ ⦃d : Double⦄ ⦃net : Net⦄ where
  -- The quota of the new container, the container, and the application that holds it.
  abbrev pub new_quota : Msg → Manager → ℕ
  new_quota req m = (determine_quota_for_new_pod req.rsrc_amnt m.ec.cpu).1

  abbrev pub newcomer : ℕ → Msg → ℕ → ℕ → Manager → SubContainer
  newcomer now req ip fd m = init now req.cgroup_id ip fd (new_quota req m) req.request

  abbrev pub admitted : ℕ → Msg → ℕ → ℕ → Manager → ElasticContainer
  admitted now req ip fd m = update_fair_cpu_share (
      added (newcomer now req ip fd m)
        (record (m.ec) { cpu = (determine_quota_for_new_pod req.rsrc_amnt m.ec.cpu).0 }))

  -- The handler up to the quota call.
  pub handle_add_cgroup_lem :
      (world : World) (now : ℕ) (req res : Msg) (ip fd : ℕ) (m : Manager)
      → handle_add_cgroup_to_ec world now req res ip fd m ≡ (
          let linked =
            link m.ec.next_sc
              (newcomer now req ip fd m)
              (get_agent_client_by_ip (net.from_net ip) m.agents)
              (admitted now req ip fd m) in
          tell_agent world
            (determine_quota_for_new_pod req.rsrc_amnt m.ec.cpu).2
            linked.1
            (new_quota req m)
            linked.0
            m.sent
          >>= λ r. ok (
            record m { ec = r.0; sent = r.1 },
            record res { request = add32 res.request 1 },
            alloc_init,
          ))
  unfolding handle_add_cgroup_to_ec init create_new_sc
  handle_add_cgroup_lem world now req res ip fd m =
      rw
        (insert_sc-create_new_sc (newcomer now req ip fd m)
          (record (m.ec) { cpu = (determine_quota_for_new_pod req.rsrc_amnt m.ec.cpu).0 }))
        refl

  -- A container for whose node no client is known, and which asks for more than the pool holds: the
  -- handler never ends. It waits for the container to be linked to a client, which it alone does.
  pub admission_without_agent_hangs :
      (world : World) (now : ℕ) (req res : Msg) (ip fd : ℕ) (m : Manager)
      → get_agent_client_by_ip (net.from_net ip) m.agents ≡ none
      → m.ec.cpu.unallocated_rt < req.rsrc_amnt
      → handle_add_cgroup_to_ec world now req res ip fd m ≡ hung
  unfolding link tell_agent set_sc_quota_syscall init
  admission_without_agent_hangs world now req res ip fd m a h =
      rw (handle_add_cgroup_lem world now req res ip fd m)
        (rw a (rw (told req.rsrc_amnt m.ec.cpu h) refl))

  -- What is left of an admission: the container is in the application, with the quota that it was
  -- given, linked to the client `ac`, and a look-up for update finds it; the application is valid,
  -- and the calls on record are the old ones or one more, with the new quota, if the container asked
  -- for more than it got.
  pub record IsAdmitted (ac : AgentClient) (req : Msg) (m : Manager) (sc : SubContainer)
      (out : Manager × Msg × ℕ) : Type 0 where
    pub code_eq : out.2 ≡ alloc_init
    pub valid : IsValid out.0.ec
    pub found : get_sc_for_update_back sc.c_id out.0.ec ≡ ok m.ec.next_sc
    pub stored : out.0.ec.heap m.ec.next_sc ≡ some (set_sc_inserted true sc)
    pub quota_eq : sc.cpu.quota ≡ new_quota req m
    pub linked : find sc.c_id out.0.ec.sc_ac_map ≡ some (some ac)
    pub calls : out.0.sent ≡ (
        if (determine_quota_for_new_pod req.rsrc_amnt m.ec.cpu).2
        then quota_call ac sc (new_quota req m) new_pod_seq ∷ m.sent
        else m.sent)

  -- The application after the link.
  abbrev pub with_link : AgentClient → ℕ → Msg → ℕ → ℕ → Manager → ElasticContainer
  with_link ac now req ip fd m =
      store m.ec.next_sc (set_sc_inserted true (newcomer now req ip fd m))
        (add_to_sc_ac_map (newcomer now req ip fd m).c_id (some ac) (admitted now req ip fd m))

  with_link-IsValid :
      (ac : AgentClient) (now : ℕ) (req : Msg) (ip fd : ℕ) (m : Manager)
      → IsValid m.ec
      → IsValid (with_link ac now req ip fd m)
  unfolding add_to_sc_ac_map update_fair_cpu_share set_sc_inserted
  with_link-IsValid ac now req ip fd m v =
      let sc = newcomer now req ip fd m in
      let cpu = (determine_quota_for_new_pod req.rsrc_amnt m.ec.cpu).0 in
      let before : IsValid (record (m.ec) { cpu = cpu }) =
        IsValid-congr m.ec (record (m.ec) { cpu = cpu }) refl refl refl v in
      store-IsValid m.ec.next_sc sc (set_sc_inserted true sc)
        (add_to_sc_ac_map sc.c_id (some ac) (admitted now req ip fd m)) (ground arith)
        (same_container_refl sc.c_id)
        (IsValid-congr (added sc (record (m.ec) { cpu = cpu }))
          (add_to_sc_ac_map sc.c_id (some ac) (admitted now req ip fd m)) refl refl refl
          (added-IsValid sc (record (m.ec) { cpu = cpu }) before))

  with_link-known :
      (ac : AgentClient) (now : ℕ) (req : Msg) (ip fd : ℕ) (m : Manager)
      → find (container_id req.cgroup_id (net.from_net ip)) m.ec.sc_ac_map ≡ none
      → find (newcomer now req ip fd m).c_id (with_link ac now req ip fd m).sc_ac_map
        ≡ some (some ac)
  unfolding init add_to_sc_ac_map update_fair_cpu_share
  with_link-known ac now req ip fd m n =
      let id = container_id req.cgroup_id (net.from_net ip) in
      ground (
        arith,
        find-insert id id (some ac) m.ec.sc_ac_map,
        contains-find id m.ec.sc_ac_map n,
        same_container_refl id,
      )

  with_link-found :
      (ac : AgentClient) (now : ℕ) (req : Msg) (ip fd : ℕ) (m : Manager)
      → IsValid m.ec
      → get_sc_for_update_back (newcomer now req ip fd m).c_id (with_link ac now req ip fd m)
        ≡ ok m.ec.next_sc
  unfolding add_to_sc_ac_map update_fair_cpu_share get_sc_for_update_back
  with_link-found ac now req ip fd m v =
      let id = (newcomer now req ip fd m).c_id in
      ground (
        arith,
        find-enqueue m.ec.next_sc id id m.ec.subcontainers,
        same_container_refl id,
        back?-append (queue_of id m.ec) m.ec.next_sc,
      )

  tell_agent_lem :
      (world : World) (update : Bool) (sc : SubContainer) (quota : ℕ) (ec : ElasticContainer)
      (sent : List QuotaCall) (ac : AgentClient)
      → find sc.c_id ec.sc_ac_map ≡ some (some ac)
      → tell_agent world update (set_sc_inserted true sc) quota ec sent
        ≡ ok (ec, if update then quota_call ac sc quota new_pod_seq ∷ sent else sent)
  unfolding tell_agent set_sc_inserted
  tell_agent_lem world false sc quota ec sent ac e = refl
  tell_agent_lem world true sc quota ec sent ac e =
      rw
        (set_sc_quota_syscall_lem world (set_sc_inserted true sc) quota new_pod_seq ec sent ac refl
          e)
        refl

  -- A new container on a node with the client `ac`, in a valid application without a client for the
  -- container: the handler returns the code of a new container; the container holds the quota that
  -- `determine_quota_for_new_pod` gives, is linked to `ac`, and is the one that a look-up finds; the
  -- application stays valid; one call, with the new quota, is made if the container asked for more
  -- than the pool holds, and none if not.
  pub admission-IsAdmitted :
      (world : World) (now : ℕ) (req res : Msg) (ip fd : ℕ) (m : Manager) (ac : AgentClient)
      → IsValid m.ec
      → get_agent_client_by_ip (net.from_net ip) m.agents ≡ some ac
      → find (container_id req.cgroup_id (net.from_net ip)) m.ec.sc_ac_map ≡ none
      → Returns
          (IsAdmitted ac req m (newcomer now req ip fd m))
          (handle_add_cgroup_to_ec world now req res ip fd m)
  unfolding link init LocalCpu.init set_sc_inserted
  admission-IsAdmitted world now req res ip fd m ac v a n =
      let sc = newcomer now req ip fd m in
      let new = with_link ac now req ip fd m in
      let update = (determine_quota_for_new_pod req.rsrc_amnt m.ec.cpu).2 in
      let known = with_link-known ac now req ip fd m n in
      rw (handle_add_cgroup_lem world now req res ip fd m) (
        rw a (
          rw (tell_agent_lem world update sc (new_quota req m) new m.sent ac known) (record {
            code_eq = refl;
            valid = with_link-IsValid ac now req ip fd m v;
            found = with_link-found ac now req ip fd m v;
            stored = ground arith;
            quota_eq = refl;
            linked = known;
            calls = refl;
          })))
