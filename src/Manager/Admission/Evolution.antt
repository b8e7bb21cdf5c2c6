-- ===== src/Manager/Admission/Evolution.antt =====
-- A new container, and every other request of a container, keeps the application well-formed.
use ec_gcm.Common.{
  ℕ, ◌≡◌, ◌==◌, refl, Bool, true, none, some, Option, if_cases, arith, List, Bool-cases, inl, inr,
  Whenever, >>=-Whenever, Whenever-map,
}
use mathlib.Core.Path.{subst}
use ec_gcm.Platform.{Double, Net, World}
use ec_gcm.Agents.{AgentClient}
use ec_gcm.AgentClientDb.{get_agent_client_by_ip}
use ec_gcm.Stats.LocalCpu
use ec_gcm.Stats.Window.Laws.{init-IsValid}
use ec_gcm.SubContainer.{SubContainer, init, set_sc_inserted}
use ec_gcm.SubContainer.Identity.{same_container_refl}
use ec_gcm.ElasticContainer.{ElasticContainer, add_to_sc_ac_map, update_fair_cpu_share, store}
use ec_gcm.ElasticContainer.Lookup.{added, added-IsValid}
use ec_gcm.ElasticContainer.Evolution.{
  HasWindows, Replaces, Evolves, Evolves-refl, Evolves-congr, Evolves-trans, store-Evolves,
  IsWellFormed, Evolves-IsWellFormed,
}
use ec_gcm.EcApi.{QuotaCall, determine_quota_for_new_pod, set_sc_quota_syscall}
use ec_gcm.EcApi.Evolution.{
  SameContainers, SameContainers-Evolves, set_sc_quota_syscall-SameContainers,
}
use ec_gcm.Msg.{Msg, cpu_type, mem_type, init_type}
use ec_gcm.Manager.{Manager}
use ec_gcm.Manager.Memory.{handle_mem_req}
use ec_gcm.Manager.Memory.Evolution.{Answers, handle_mem_req-Evolves}
use ec_gcm.Manager.Report.{handle_cpu_usage_report}
use ec_gcm.Manager.Report.Evolution.{handle_cpu_usage_report-Evolves}
use ec_gcm.Manager.Admission.{new_pod_seq, link, tell_agent, handle_add_cgroup_to_ec, handle_req}
use ec_gcm.Manager.Admission.Laws.{new_quota, newcomer, admitted, handle_add_cgroup_lem}

module _ ⦃net : Net⦄ where
  added-IsWellFormed :
      (sc : SubContainer) (ec : ElasticContainer)
      → HasWindows sc
      → IsWellFormed ec
      → IsWellFormed (added sc ec)
  added-IsWellFormed sc ec w f = record {
    valid = added-IsValid sc ec f.valid;
    windows = λ p old e. elim (Bool-cases (ec.next_sc == p)) [
      | inl hit ↦ let same : sc ≡ old = ground (arith, hit, e) in subst HasWindows same w
      | inr miss ↦ f.windows p old (ground (arith, miss, e))
    ];
  }

  tell_agent-Evolves :
      (world : World) (update : Bool) (sc : SubContainer) (quota : ℕ) (ec : ElasticContainer)
      (sent : List QuotaCall)
      → Whenever
          (λ (r : ElasticContainer × List QuotaCall). Evolves ec r.0)
          (tell_agent world update sc quota ec sent)
  unfolding tell_agent
  tell_agent-Evolves world update sc quota ec sent =
      if_cases (Whenever (λ (r : ElasticContainer × List QuotaCall). Evolves ec r.0)) update
        (λ _.
          >>=-Whenever (λ (r : ElasticContainer × List QuotaCall × ℕ). SameContainers ec r.0)
            (λ (r : ElasticContainer × List QuotaCall). Evolves ec r.0)
            (set_sc_quota_syscall world sc quota new_pod_seq ec sent) _
            (set_sc_quota_syscall-SameContainers world sc quota new_pod_seq ec sent)
            (λ r f. SameContainers-Evolves ec r.0 f))
        (λ _. Evolves-refl ec)

  inserted-Replaces : (sc : SubContainer) → Replaces sc (set_sc_inserted true sc)
  unfolding set_sc_inserted
  inserted-Replaces sc =
      (same_container_refl sc.c_id, λ w. record { rt_valid = w.rt_valid; th_valid = w.th_valid })

  link-Evolves :
      (p : ℕ) (sc : SubContainer) (client : Option AgentClient) (ec : ElasticContainer)
      → ec.heap p ≡ some sc
      → Evolves ec (link p sc client ec).0
  unfolding link add_to_sc_ac_map
  link-Evolves p sc none ec e = Evolves-refl ec
  link-Evolves p sc (some ac) ec e =
      let linked = add_to_sc_ac_map sc.c_id (some ac) ec in
      Evolves-trans ec linked (store p (set_sc_inserted true sc) linked)
        (Evolves-congr ec linked refl refl refl)
        (store-Evolves p sc (set_sc_inserted true sc) linked e (inserted-Replaces sc))

module _ ⦃d : Double⦄ ⦃net : Net⦄ where
  newcomer-HasWindows :
      (now : ℕ) (req : Msg) (ip fd : ℕ) (m : Manager) → HasWindows (newcomer now req ip fd m)
  unfolding init LocalCpu.init
  newcomer-HasWindows now req ip fd m = record {
    rt_valid = init-IsValid LocalCpu.window_stat_size (omega arith);
    th_valid = init-IsValid LocalCpu.window_stat_size (omega arith);
  }

  admitted-IsWellFormed :
      (now : ℕ) (req : Msg) (ip fd : ℕ) (m : Manager)
      → IsWellFormed m.ec
      → IsWellFormed (admitted now req ip fd m)
  unfolding update_fair_cpu_share
  admitted-IsWellFormed now req ip fd m f =
      let sc = newcomer now req ip fd m in
      let paid : ElasticContainer = record (m.ec) {
        cpu = (determine_quota_for_new_pod req.rsrc_amnt m.ec.cpu).0;
      } in
      Evolves-IsWellFormed (added sc paid) (admitted now req ip fd m)
        (Evolves-congr (added sc paid) (admitted now req ip fd m) refl refl refl)
        (added-IsWellFormed sc paid (newcomer-HasWindows now req ip fd m)
          (Evolves-IsWellFormed m.ec paid (Evolves-congr m.ec paid refl refl refl) f))

  newcomer-stored :
      (now : ℕ) (req : Msg) (ip fd : ℕ) (m : Manager)
      → (admitted now req ip fd m).heap m.ec.next_sc ≡ some (newcomer now req ip fd m)
  unfolding update_fair_cpu_share
  newcomer-stored now req ip fd m = ground arith

  abbrev pub LeavesWellFormed : Manager × Msg × ℕ → Type 0
  LeavesWellFormed r = IsWellFormed r.0.ec

  handle_add_cgroup_to_ec-IsWellFormed :
      (world : World) (now : ℕ) (req res : Msg) (ip fd : ℕ) (m : Manager)
      → IsWellFormed m.ec
      → Whenever LeavesWellFormed (handle_add_cgroup_to_ec world now req res ip fd m)
  handle_add_cgroup_to_ec-IsWellFormed world now req res ip fd m f =
      let before = admitted now req ip fd m in
      let client = get_agent_client_by_ip (net.from_net ip) m.agents in
      let linked = link m.ec.next_sc (newcomer now req ip fd m) client before in
      let update = (determine_quota_for_new_pod req.rsrc_amnt m.ec.cpu).2 in
      rw (handle_add_cgroup_lem world now req res ip fd m) (
        >>=-Whenever (λ (r : ElasticContainer × List QuotaCall). Evolves linked.0 r.0)
          LeavesWellFormed (tell_agent world update linked.1 (new_quota req m) linked.0 m.sent) _
          (tell_agent-Evolves world update linked.1 (new_quota req m) linked.0 m.sent)
          (λ r g.
            Evolves-IsWellFormed before r.0
              (Evolves-trans before linked.0 r.0
                (link-Evolves m.ec.next_sc (newcomer now req ip fd m) client before
                  (newcomer-stored now req ip fd m))
                g)
              (admitted-IsWellFormed now req ip fd m f)))

  pub handle_req-IsWellFormed :
      (world : World) (now : ℕ) (req res : Msg) (ip fd : ℕ) (m : Manager)
      → IsWellFormed m.ec
      → Whenever LeavesWellFormed (handle_req world now req res ip fd m)
  unfolding handle_req
  handle_req-IsWellFormed world now req res ip fd m f =
      if_cases (Whenever LeavesWellFormed) (req.req_type == mem_type)
        (λ _.
          >>=-Whenever (Answers m.ec) LeavesWellFormed (handle_mem_req world req res fd m.ec) _
            (handle_mem_req-Evolves world req res fd m.ec)
            (λ r g. Evolves-IsWellFormed m.ec r.0 g f))
        (λ _.
          if_cases (Whenever LeavesWellFormed) (req.req_type == cpu_type)
            (λ _.
              Whenever-map (λ (r : Manager × Msg × ℕ). Evolves m.ec r.0.ec) LeavesWellFormed
                (handle_cpu_usage_report world now req res m)
                (λ r g. Evolves-IsWellFormed m.ec r.0.ec g f)
                (handle_cpu_usage_report-Evolves world now req res m))
            (λ _.
              if_cases (Whenever LeavesWellFormed) (req.req_type == init_type)
                (λ _. handle_add_cgroup_to_ec-IsWellFormed world now req res ip fd m f) (λ _. f)))
