-- ===== src/Server/Laws.antt =====
-- Which messages of a client are answered, from the socket down to the accounts.
use ec_gcm.Common.{
  ℕ, ◌+◌, ◌^◌, ◌≡◌, ◌<◌, refl, true, false, Option, none, some, arith, ◌==◌, min, Outcome, ◌>>=◌,
  ok, Returns, >>=-Returns,
}
use ec_gcm.Common.Map.{find}
use ec_gcm.Platform.{Double, Net, World}
use ec_gcm.Stats.GlobalMem
use ec_gcm.Agents.{AgentClient}
use ec_gcm.SubContainer.{SubContainer, container_id}
use ec_gcm.SubContainer.Identity.{container_key}
use ec_gcm.ElasticContainer.{ElasticContainer, get_sc_for_update_back}
use ec_gcm.ElasticContainer.Invariant.{IsValid}
use ec_gcm.Msg.{Msg, copy, cpu_type, mem_type}
use ec_gcm.Manager.{Manager}
use ec_gcm.Manager.Admission.{handle_req}
use ec_gcm.Manager.Memory.{handle_mem_req}
use ec_gcm.Manager.Memory.Request.{IsSender, IsGranted, handle_mem_req-IsGranted}
use ec_gcm.Manager.Memory.Pages.{pages_held}
use ec_gcm.Manager.Report.{handle_cpu_usage_report}
use ec_gcm.Manager.Report.Totality.{IsServed, handle_cpu_usage_report-IsServed}
use ec_gcm.Server.{answer, stamp, handle_client_req_tcp}

-- An answer with this amount is written, and no page is made or lost.
abbrev pub IsAnswered : ℕ → Manager → Manager × Option Msg → Type 0
IsAnswered amount m (after, written) =
    (res : Msg) × (written ≡ some res)
    × (res.rsrc_amnt ≡ amount)
    × (pages_held after.ec ≡ pages_held m.ec)

module _ ⦃d : Double⦄ ⦃net : Net⦄ where
  -- A CPU report over a socket, from a known container that is inserted and whose client is known, in
  -- a valid application: it is handled to the end, nothing is written back, and the application is
  -- valid after it.
  pub tcp_cpu_report_unanswered :
      (world : World) (now garbage : ℕ) (received : Msg) (client_ip client_fd : ℕ) (m : Manager)
      (p : ℕ) (sc : SubContainer) (ac : AgentClient)
      → received.req_type ≡ cpu_type
      → IsValid m.ec
      → get_sc_for_update_back (container_id received.cgroup_id (net.from_net client_ip)) m.ec
        ≡ ok p
      → m.ec.heap p ≡ some sc
      → sc.inserted ≡ true
      → find sc.c_id m.ec.sc_ac_map ≡ some (some ac)
      → Returns
          (λ out. (out.1 ≡ none) × IsValid out.0.ec)
          (handle_client_req_tcp world now garbage received client_ip client_fd m)
  unfolding handle_client_req_tcp handle_req stamp answer
  tcp_cpu_report_unanswered world now garbage received client_ip client_fd m p sc ac t v b l i k =
      let req = stamp client_ip received in
      let res = copy garbage req in
      let not_mem : (received.req_type == mem_type) ≡ false = ground arith in
      let is_cpu : (received.req_type == cpu_type) ≡ true = ground arith in
      rw not_mem (
        rw is_cpu (
          >>=-Returns (IsServed p sc res m) (λ out. (out.1 ≡ none) × IsValid out.0.ec)
            (handle_cpu_usage_report world now req res m) (λ r. ok (r.0, answer r.1 r.2))
            (handle_cpu_usage_report-IsServed world now req res m p sc ac t v b l i k)
            (λ r served. (rw (served.code_eq) (rw (served.answer_eq) refl), served.valid))))

  -- A memory request over a socket while the pool holds some, from a container on record, with
  -- counters and an amount below `2 ^ 62`: an answer is written back, with the amount asked and a
  -- slice of pages or the whole pool, whichever is less, and the pages in the pool and in containers
  -- sum to what they did.
  pub handle_client_req_tcp-IsAnswered :
      (world : World) (now garbage : ℕ) (received : Msg) (client_ip client_fd : ℕ) (m : Manager)
      (p : ℕ) (sc : SubContainer)
      → received.req_type ≡ mem_type
      → IsSender m.ec (stamp client_ip received) p sc
      → GlobalMem.IsValid m.ec.mem
      → received.rsrc_amnt < 2 ^ 62
      → 0 < m.ec.mem.unallocated_memory_in_pages
      → let pages = min m.ec.mem.slice_size m.ec.mem.unallocated_memory_in_pages in
        Returns
          (IsAnswered (received.rsrc_amnt + pages) m)
          (handle_client_req_tcp world now garbage received client_ip client_fd m)
  unfolding handle_client_req_tcp handle_req stamp answer copy
  handle_client_req_tcp-IsAnswered world now garbage received client_ip client_fd m p sc t s v h k =
      let req = stamp client_ip received in
      let res = copy garbage req in
      let pages = min m.ec.mem.slice_size m.ec.mem.unallocated_memory_in_pages in
      let is_mem : (received.req_type == mem_type) ≡ true = ground arith in
      let handled : Outcome (ElasticContainer × Msg × ℕ) =
        handle_mem_req world req res client_fd m.ec in
      let step : ElasticContainer × Msg × ℕ → Outcome (Manager × Msg × ℕ) =
        λ r. ok (record m { ec = r.0 }, r.1, r.2) in
      let granted = handle_mem_req-IsGranted world req res client_fd m.ec p sc s v h t k in
      rw is_mem (
        >>=-Returns (λ r. IsGranted req pages p sc m.ec (r.0.ec, r.1, r.2))
          (IsAnswered (received.rsrc_amnt + pages) m) (handled >>= step)
          (λ r. ok (r.0, answer r.1 r.2))
          (>>=-Returns (IsGranted req pages p sc m.ec)
            (λ r. IsGranted req pages p sc m.ec (r.0.ec, r.1, r.2)) handled step granted (λ r g. g))
          (λ r g. (r.1, ground (arith, g.0, g.1), g.2, g.4)))
