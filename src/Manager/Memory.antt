-- ===== src/Manager/Memory.antt =====
-- `Manager::reclaim`, `handle_reclaim_memory`, `handle_mem_req`, `determine_mem_limit_for_new_pod`
-- and one round of `run`. The reclaims that the source starts at once run here one after another,
-- in the order of the containers.
pub mod Reclaim
pub mod Pages
pub mod Request
pub mod Evolution
pub mod Safety
pub mod Shrink
pub mod Total
pub mod EmptyPool
pub mod Accounted
use ec_gcm.Common.{
  ℕ, ◌+◌, ◌-◌, ◌/◌, ◌^◌, Bool, true, false, not, String, List, [], ◌∷◌, if◌then◌else◌, ◌==◌, ltb,
  leb, back?, add64, sub64, mul64, slt64, is_neg, Outcome, ok, hung, or_fault, ◌>>=◌,
}
use text.Mathlib.Text.{◌==◌ as str_eq}
use ec_gcm.Platform.{Net, World}
use ec_gcm.Stats.GlobalMem.{
  GlobalMem, incr_unallocated_memory_in_pages, decr_allocated_memory_in_pages,
}
use ec_gcm.SubContainer.{ContainerId, SubContainer, container_id, set_mem_limit_in_pages}
use ec_gcm.ElasticContainer.{
  ElasticContainer, SubcontainerMap, store, get_sc_for_update_back, get_sc_memory_usage_in_bytes,
  get_sc_memory_limit_in_bytes,
}
use ec_gcm.EcApi.{
  ec_update_alloc_memory_in_pages, ec_update_reclaim_memory_in_pages,
  sc_resize_memory_limit_in_pages, sc_set_memory_limit_in_pages,
}
use ec_gcm.Msg.{Msg, alloc_success, alloc_mem_failed, mem_type}

abbrev pub page_size : ℕ
page_size = 4096

abbrev pub safe_margin_bytes : ℕ
safe_margin_bytes = 52_428_800

-- `ceil((x)/4096)`: the quotient of the integers is rounded down before `ceil` sees it.
abbrev pub byte_to_page : ℕ → ℕ
byte_to_page x = x / page_size

abbrev pub page_to_byte : ℕ → ℕ
page_to_byte x = mul64 x page_size

-- `(unsigned long)-1 * __PAGE_SIZE__`.
abbrev pub usage_failed : ℕ
usage_failed = mul64 (2 ^ 64 - 1) page_size

abbrev pub on_mem : (GlobalMem → GlobalMem) → ElasticContainer → ElasticContainer
on_mem f ec = record ec { mem = f ec.mem }

-- The pages handed out: at most a slice. The two sides are compared as unsigned numbers.
unfoldable pub grant_pages : GlobalMem → ℕ
grant_pages mem =
    if ltb mem.slice_size mem.unallocated_memory_in_pages
    then mem.slice_size
    else mem.unallocated_memory_in_pages

module _ ⦃net : Net⦄ (world : World) where
  -- The part after the usage is read: the agent is asked for the usage and the margin.
  unfoldable pub shrink_limit :
      ContainerId → SubContainer → ℕ → ℕ → ElasticContainer → Outcome (ElasticContainer × ℕ)
  shrink_limit id sc limit usage ec =
      let target = add64 usage safe_margin_bytes in
      do
        r ← sc_resize_memory_limit_in_pages world id (byte_to_page target) ec
        if r.1 == 0
            then (do
              ec' ← sc_set_memory_limit_in_pages sc.c_id (byte_to_page target) r.0
              ok (ec', byte_to_page (sub64 limit target)))
            else ok (r.0, 0)

  -- The pages reclaimed from the container at an address, under the key of its entry.
  unfoldable pub reclaim : ContainerId → ℕ → ElasticContainer → Outcome (ElasticContainer × ℕ)
  reclaim id p ec = do
    sc ← or_fault (ec.heap p)
    let limit = page_to_byte sc.mem.mem_limit_in_pages
    let read = get_sc_memory_usage_in_bytes world id sc.c_id.docker_id ec
    if read.1 == usage_failed
        then ok (read.0, 0)
        else if ltb safe_margin_bytes (sub64 limit read.1)
        then shrink_limit id sc limit read.1 read.0
        else ok (read.0, 0)

  -- The loop of `handle_reclaim_memory`, `skip` being the test for the client's own connection.
  unfoldable pub reclaim_all :
      (SubContainer → Bool)
      → SubcontainerMap
      → ℕ
      → ElasticContainer
      → Outcome (ElasticContainer × ℕ)
  reclaim_all skip [] total ec = ok (ec, total)
  reclaim_all skip ((id, q) ∷ entries) total ec = do
    p ← or_fault (back? q)
    sc ← or_fault (ec.heap p)
    r ← if skip sc then ok (ec, 0) else reclaim id p ec
    reclaim_all skip entries (add64 total r.1) r.0

  unfoldable pub handle_reclaim_memory : ℕ → ElasticContainer → Outcome (ElasticContainer × ℕ)
  handle_reclaim_memory client_fd ec = reclaim_all (λ sc. sc.fd == client_fd) ec.subcontainers 0 ec

  -- One round of `run`.
  unfoldable pub periodic_reclaim : ElasticContainer → Outcome ElasticContainer
  periodic_reclaim ec = do
    r ← reclaim_all (λ _. false) ec.subcontainers 0 ec
    ok (if ltb 0 r.1 then on_mem (ec_update_reclaim_memory_in_pages r.1) r.0 else r.0)

  -- A negative pool is put at 0 first. The flag is true where nothing was reclaimed.
  unfoldable pub refill : ℕ → ElasticContainer → Outcome (ElasticContainer × Bool)
  refill clifd ec = do
    r ← handle_reclaim_memory clifd ec
    let available = ec.mem.unallocated_memory_in_pages
    if ltb 0 r.1
        then (let debt = sub64 0 available in
            let settled =
              if is_neg available
              then on_mem (decr_allocated_memory_in_pages debt)
                  (on_mem (incr_unallocated_memory_in_pages debt) r.0)
              else r.0 in
            ok (on_mem (ec_update_reclaim_memory_in_pages r.1) settled, false))
        else ok (r.0, true)

  -- The part of `handle_mem_req` once there is memory.
  unfoldable pub grant_memory : Msg → Msg → ElasticContainer → Outcome (ElasticContainer × Msg × ℕ)
  grant_memory req res ec =
      let pages = grant_pages ec.mem in
      let ec' = on_mem (ec_update_alloc_memory_in_pages pages) ec in
      let limit = add64 req.rsrc_amnt pages in
      do
        p ← get_sc_for_update_back (container_id req.cgroup_id req.client_ip) ec'
        sc ← or_fault (ec'.heap p)
        ok (
          store p (set_mem_limit_in_pages limit sc) ec',
          record res { rsrc_amnt = limit; request = 0 },
          alloc_success,
        )

  unfoldable pub handle_mem_req :
      Msg → Msg → ℕ → ElasticContainer → Outcome (ElasticContainer × Msg × ℕ)
  handle_mem_req req res clifd ec =
      if not (req.req_type == mem_type)
      then ok (ec, record res { rsrc_amnt = 0 }, alloc_mem_failed)
      else if slt64 0 ec.mem.unallocated_memory_in_pages
      then grant_memory req res ec
      else (do
        r ← refill clifd ec
        if r.1
            then ok (r.0, record res { rsrc_amnt = 0 }, alloc_mem_failed)
            else grant_memory req res r.0)

  -- The limit is above the pool even now: the container is set to the pool.
  unfoldable pub cut_limit : SubContainer → ℕ → ElasticContainer → Outcome ElasticContainer
  cut_limit sc pages ec = do
    t ← sc_resize_memory_limit_in_pages world sc.c_id ec.mem.unallocated_memory_in_pages ec
    ok (if t.1 == 0 then on_mem (ec_update_alloc_memory_in_pages pages) t.0 else t.0)

  -- The case of a limit above the pool: memory is taken back from the others first.
  unfoldable pub make_room : SubContainer → ℕ → ℕ → ElasticContainer → Outcome ElasticContainer
  make_room sc clifd pages ec = do
    r ← handle_reclaim_memory clifd ec
    let ec' = on_mem (ec_update_reclaim_memory_in_pages r.1) r.0
    if leb pages ec'.mem.unallocated_memory_in_pages
        then ok (on_mem (ec_update_alloc_memory_in_pages pages) ec')
        else cut_limit sc pages ec'

  -- The three cases of `determine_mem_limit_for_new_pod` for a limit in pages.
  unfoldable pub account_limit : SubContainer → ℕ → ℕ → ElasticContainer → Outcome ElasticContainer
  account_limit sc clifd pages ec =
      if leb pages ec.mem.unallocated_memory_in_pages
      then ok (on_mem (ec_update_alloc_memory_in_pages pages) ec)
      else if ec.mem.unallocated_memory_in_pages == 0
      then ok ec
      else make_room sc clifd pages ec

  unfoldable pub settle_limit : ℕ → SubContainer → ℕ → ElasticContainer → Outcome ElasticContainer
  settle_limit p sc clifd ec = do
    let limit = get_sc_memory_limit_in_bytes world sc.c_id ec
    let pages = byte_to_page limit.1
    ec' ← account_limit sc clifd pages limit.0
    now ← or_fault (ec'.heap p)
    ok (store p (set_mem_limit_in_pages pages now) ec')

  -- The thread of a new container. It waits until another thread has set the docker id: a container
  -- without one is waited for without end here.
  unfoldable pub determine_mem_limit_for_new_pod :
      ℕ → ℕ → ElasticContainer → Outcome ElasticContainer
  determine_mem_limit_for_new_pod p clifd ec = do
    sc ← or_fault (ec.heap p)
    if str_eq sc.c_id.docker_id "" then hung else settle_limit p sc clifd ec
