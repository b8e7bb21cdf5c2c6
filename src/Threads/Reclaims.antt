-- ===== src/Threads/Reclaims.antt =====
-- `Manager::reclaim` in threads: `handle_reclaim_memory` starts it under `memlock`, `run` and
-- `determine_mem_limit_for_new_pod` without, so that two of them can work on one container at once.
-- Each reads the limit and the use first, and then calls the agent and sets the limit.
pub mod Grants
use ec_gcm.Common.{
  ℕ, ◌+◌, ◌-◌, ◌*◌, ◌/◌, ◌^◌, ◌≡◌, ◌∙◌, refl, ◌≤◌, ◌<◌, ◌==◌, arith, Option, none, some, true,
  false, ltb, add64, sub64, if◌then◌else◌, Outcome, ok, or_fault, ◌>>=◌, Option-cases, Bool-cases,
  inl, inr,
}
use ec_gcm.Platform.{Net, World}
use ec_gcm.Agents.{AgentClient}
use ec_gcm.Stats.LocalMem
use ec_gcm.SubContainer.{ContainerId, SubContainer, set_mem_limit_in_pages}
use ec_gcm.ElasticContainer.{ElasticContainer, store, get_sc_memory_usage_in_bytes}
use ec_gcm.Manager.Memory.{
  page_to_byte, byte_to_page, usage_failed, safe_margin_bytes, shrink_limit, reclaim,
}
use ec_gcm.Manager.Memory.Reclaim.{IsServed, usage_lem, shrink_limit_lem}

-- The container, with its limit and use in bytes as they were read.
pub record Plan : Type 0 where
  pub container : SubContainer
  pub limit : ℕ
  pub usage : ℕ

module _ ⦃net : Net⦄ (world : World) where
  -- The reads and the tests, up to the call of the agent: nothing where there is nothing to take.
  unfoldable pub plan_reclaim :
      ContainerId → ℕ → ElasticContainer → Outcome (ElasticContainer × Option Plan)
  plan_reclaim id p ec = do
    sc ← or_fault (ec.heap p)
    let limit = page_to_byte sc.mem.mem_limit_in_pages
    let read = get_sc_memory_usage_in_bytes world id sc.c_id.docker_id ec
    let plan : Plan = record { container = sc; limit = limit; usage = read.1 }
    if read.1 == usage_failed
        then ok (read.0, none)
        else if ltb safe_margin_bytes (sub64 limit read.1)
        then ok (read.0, some plan)
        else ok (read.0, none)

  -- The call, and the new limit.
  unfoldable pub carry_out :
      ContainerId → Option Plan → ElasticContainer → Outcome (ElasticContainer × ℕ)
  carry_out id none ec = ok (ec, 0)
  carry_out id (some plan) ec = shrink_limit world id plan.container plan.limit plan.usage ec

  carried : ContainerId → ElasticContainer × Option Plan → Outcome (ElasticContainer × ℕ)
  carried id r = carry_out id r.1 r.0

  reclaim-plan_reclaim :
      (id : ContainerId) (p : ℕ) (ec : ElasticContainer)
      → reclaim world id p ec ≡ (plan_reclaim id p ec >>= carried id)
  unfolding reclaim plan_reclaim carry_out carried
  reclaim-plan_reclaim id p ec = elim (Option-cases (ec.heap p)) [
    | inl e ↦ rw e refl
    | inr (sc, e) ↦
        let read = get_sc_memory_usage_in_bytes world id sc.c_id.docker_id ec in
        let limit = page_to_byte sc.mem.mem_limit_in_pages in
        elim (Bool-cases (read.1 == usage_failed)) [
          | inl failed ↦ rw e (rw failed refl)
          | inr known ↦ elim (Bool-cases (ltb safe_margin_bytes (sub64 limit read.1))) [
            | inl more ↦ rw e (rw known (rw more refl))
            | inr less ↦ rw e (rw known (rw less refl))
          ]
        ]
  ]

  module _ (p : ℕ) (ec : ElasticContainer) (sc : SubContainer) (ac : AgentClient)
      (s : IsServed ec p sc ac) where
    abbrev pub usage : ℕ
    usage = world.usage_bytes ac.ip sc.c_id.docker_id

    abbrev pub target : ℕ
    target = (usage + 52_428_800) / 4096

    abbrev pub shrunk : ElasticContainer
    shrunk = store p (set_mem_limit_in_pages target sc) ec

    abbrev pub pages_taken : ℕ
    pages_taken = (sc.mem.mem_limit_in_pages * 4096 - (usage + 52_428_800)) / 4096

    pub plan_made :
        sc.mem.mem_limit_in_pages < 2 ^ 50
        → usage + 52_428_800 < sc.mem.mem_limit_in_pages * 4096
        → plan_reclaim sc.c_id p ec
          ≡ ok (
            ec,
            some (record {
              container = sc;
              limit = page_to_byte sc.mem.mem_limit_in_pages;
              usage = usage;
            }),
          )
    unfolding plan_reclaim
    plan_made b m =
        let known : (usage == usage_failed) ≡ false = ground arith in
        let more : ltb safe_margin_bytes (sub64 (page_to_byte sc.mem.mem_limit_in_pages) usage)
            ≡ true =
          ground arith in
        rw (s.stored) (rw (usage_lem world p ec sc ac s) (rw known (rw more refl)))

    shrunk-IsServed : IsServed shrunk p (set_mem_limit_in_pages target sc) ac
    unfolding set_mem_limit_in_pages
    shrunk-IsServed = record {
      queue = s.queue;
      entry = s.entry;
      last = s.last;
      stored = ground arith;
      named = s.named;
      known = s.known;
    }

    -- Right after the limit is set, nothing more is taken.
    reclaim_again : usage < 2 ^ 62 → reclaim world sc.c_id p shrunk ≡ ok (shrunk, 0)
    unfolding reclaim set_mem_limit_in_pages LocalMem.set_mem_limit_in_pages
    reclaim_again b =
        let served = shrunk-IsServed in
        let known : (usage == usage_failed) ≡ false = ground arith in
        let less : ltb safe_margin_bytes (sub64 (page_to_byte target) usage) ≡ false =
          ground arith in
        rw (served.stored) (
          rw (usage_lem world p shrunk (set_mem_limit_in_pages target sc) ac served)
            (rw known (rw less refl)))

    -- What a thread with the first limit and use does to the container as it now stands.
    pub carried_out :
        (ec' : ElasticContainer) (sc' : SubContainer)
        → IsServed ec' p sc' ac
        → sc.mem.mem_limit_in_pages < 2 ^ 50
        → usage + 52_428_800 < sc.mem.mem_limit_in_pages * 4096
        → world.resize_status ac.handle sc'.c_id.cgroup_id target ≡ 0
        → shrink_limit world sc'.c_id sc' (page_to_byte sc.mem.mem_limit_in_pages) usage ec'
          ≡ ok (store p (set_mem_limit_in_pages target sc') ec', pages_taken)
    carried_out ec' sc' served b m e =
        let limit = page_to_byte sc.mem.mem_limit_in_pages in
        let new_eq : byte_to_page (add64 usage safe_margin_bytes) ≡ target = ground arith in
        let pages_eq : byte_to_page (sub64 limit (add64 usage safe_margin_bytes)) ≡ pages_taken =
          ground arith in
        shrink_limit_lem world p limit usage ec' sc' ac served (rw new_eq e)
        ∙ rw new_eq (rw pages_eq refl)

    -- A container with a docker id, the last of its entry and with a known client, whose memory
    -- limit is below `2 ^ 50` pages, whose use and the margin of 50 MiB are less than the limit, and
    -- whose agent agrees to the new limit. Two threads read its limit and use before either sets the
    -- limit: the second counts the same pages again, and leaves the container as the first did. A
    -- thread that starts after the first is done takes nothing. The pages counted are all that
    -- the limit falls by, up to one page.
    pub reclaim_counted_twice :
        sc.mem.mem_limit_in_pages < 2 ^ 50
        → usage + 52_428_800 < sc.mem.mem_limit_in_pages * 4096
        → world.resize_status ac.handle sc.c_id.cgroup_id target ≡ 0
        → (plan : Option Plan) × (pages : ℕ) × (again : ElasticContainer) × (plan_reclaim sc.c_id p
              ec
            ≡ ok (ec, plan))
          × (carry_out sc.c_id plan ec ≡ ok (shrunk, pages))
          × (carry_out sc.c_id plan shrunk ≡ ok (again, pages))
          × (again.heap p ≡ shrunk.heap p)
          × (reclaim world sc.c_id p shrunk ≡ ok (shrunk, 0))
          × (target + pages ≤ sc.mem.mem_limit_in_pages)
          × (sc.mem.mem_limit_in_pages ≤ target + pages + 1)
    unfolding carry_out set_mem_limit_in_pages LocalMem.set_mem_limit_in_pages shrink_limit
    reclaim_counted_twice b m e =
        let new : SubContainer = set_mem_limit_in_pages target sc in
        (
          some (record {
            container = sc;
            limit = page_to_byte sc.mem.mem_limit_in_pages;
            usage = usage;
          }),
          pages_taken,
          store p (set_mem_limit_in_pages target new) shrunk,
          plan_made b m,
          carried_out ec sc s b m e,
          carried_out shrunk new shrunk-IsServed b m e,
          ground arith,
          reclaim_again (omega arith),
          omega arith,
          omega arith,
        )
