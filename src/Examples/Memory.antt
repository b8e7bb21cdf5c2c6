-- ===== src/Examples/Memory.antt =====
-- The theorems on the memory of one application, at concrete values.
use ec_gcm.Common.{ℕ, ◌≡◌, ◌≤◌, ◌<◌, ◌+◌, ◌-◌, ◌^◌, refl, arith, some, [], ◌∷◌, Returns, ok, min}
use ec_gcm.Common.Map.{find}
use ec_gcm.Stats.GlobalMem
use ec_gcm.Stats.LocalMem
use ec_gcm.SubContainer.{SubContainer, same_container, set_mem_limit_in_pages}
use ec_gcm.SubContainer.Identity.{container_key}
use ec_gcm.ElasticContainer.{ElasticContainer, store, write}
use ec_gcm.EcApi.Evolution.{set_mem_limit_in_pages-Replaces}
use ec_gcm.Msg.{Msg, alloc_mem_failed}
use ec_gcm.Manager.Memory.{
  periodic_reclaim, handle_mem_req, handle_reclaim_memory, reclaim, cut_limit,
}
use ec_gcm.Manager.Memory.Reclaim.{IsServed, reclaim_keeps_margin, reclaim_wraps}
use ec_gcm.Manager.Memory.Request.{
  IsSender, IsGranted, handle_mem_req-IsGranted, cut_limit_makes_pages,
}
use ec_gcm.Manager.Memory.Pages.{pages_held}
use ec_gcm.ElasticContainer.Invariant.{IsValid}
use ec_gcm.ElasticContainer.Evolution.{store-Evolves, Evolves-IsValid, Evolves-congr, Evolves-trans}
use ec_gcm.Manager.Memory.Shrink.{limits, IsWithin}
use ec_gcm.Manager.Memory.Total.{IsConserved, handle_reclaim_memory-IsConserved}
use ec_gcm.Manager.Memory.EmptyPool.{mem_request_on_empty_pool}
use ec_gcm.Manager.Memory.Accounted.{
  IsBalanced, handle_mem_req-IsBalanced, periodic_reclaim-IsBalanced,
}
use ec_gcm.Examples.{application-IsValid, plain_net, willing, client, seven, eight, application}

pub application_mem-IsValid : GlobalMem.IsValid application.mem
application_mem-IsValid = record {
  slice_lt = omega arith;
  limit_lt = omega arith;
  unallocated_lt = omega arith;
  allocated_lt = omega arith;
}

-- The container 8 asks for more.
abbrev pub request : Msg
request = record {
  client_ip = 1;
  cgroup_id = 8;
  req_type = 1;
  rsrc_amnt = 10_000;
  request = 1;
  runtime_remaining = 0;
  cpustat_seq_num = 0;
  sock_addr = 0;
}

eight-IsSender : IsSender application request 1 eight
unfolding find same_container
eight-IsSender = record { queue = 1 ∷ []; entry = refl; last = refl; stored = refl }

handle_mem_req-IsGranted_example :
    Returns
      (IsGranted request (min 5000 2000) 1 eight application)
      (handle_mem_req willing request request 8 application)
handle_mem_req-IsGranted_example =
    handle_mem_req-IsGranted willing request request 8 application 1 eight eight-IsSender
      application_mem-IsValid (omega arith) refl (omega arith)

-- The application with an empty pool, and a limit for the container 8.
abbrev limited : SubContainer
limited = set_mem_limit_in_pages 10_000 eight

abbrev tight : ElasticContainer
tight = record application {
  mem = record {
    memory_limit_in_pages = 90_000;
    slice_size = 5000;
    unallocated_memory_in_pages = 0;
    allocated_memory_in_pages = 50_000;
  };
  heap = write application.heap 1 (some limited);
}

tight_mem-IsValid : GlobalMem.IsValid tight.mem
tight_mem-IsValid = record {
  slice_lt = omega arith;
  limit_lt = omega arith;
  unallocated_lt = omega arith;
  allocated_lt = omega arith;
}

tight-IsValid : IsValid tight
tight-IsValid =
    let raised = store 1 limited application in
    Evolves-IsValid application tight
      (Evolves-trans application raised tight
        (store-Evolves 1 eight limited application refl
          (set_mem_limit_in_pages-Replaces 10_000 eight))
        (Evolves-congr raised tight refl refl refl))
      application-IsValid

tight-IsSender : IsSender tight request 1 limited
unfolding find same_container
tight-IsSender = record { queue = 1 ∷ []; entry = refl; last = refl; stored = refl }

seven-IsWithin : IsWithin willing tight (seven.c_id, 0 ∷ [])
unfolding find same_container
seven-IsWithin = record {
  address = 0;
  container = seven;
  client = client;
  last = refl;
  stored = refl;
  known = refl;
  limit_lt = omega arith;
  usage_le = omega arith;
}

limited-IsWithin : IsWithin willing tight (eight.c_id, 1 ∷ [])
unfolding find same_container set_mem_limit_in_pages LocalMem.set_mem_limit_in_pages
limited-IsWithin = record {
  address = 1;
  container = limited;
  client = client;
  last = refl;
  stored = refl;
  known = refl;
  limit_lt = omega arith;
  usage_le = omega arith;
}

tight_limits : limits tight.heap tight.subcontainers ≡ 50_000
unfolding set_mem_limit_in_pages LocalMem.set_mem_limit_in_pages
tight_limits = refl

handle_reclaim_memory-IsConserved_example :
    Returns (IsConserved 8 tight) (handle_reclaim_memory willing 8 tight)
handle_reclaim_memory-IsConserved_example =
    handle_reclaim_memory-IsConserved willing 8 tight tight-IsValid
      (seven-IsWithin, (limited-IsWithin, tt)) (omega (arith, tight_limits))

mem_request_on_empty_pool_example :
    (after : ElasticContainer) × (pages : ℕ) × (handle_reclaim_memory willing 8 tight
      ≡ ok (after, pages))
    × IsConserved 8 tight (after, pages)
    × (pages ≡ 0
        → (handle_mem_req willing request request 8 tight
            ≡ ok (after, record request { rsrc_amnt = 0 }, alloc_mem_failed))
          × (after.mem ≡ tight.mem))
    × (0 < pages
        → Returns
            (IsGranted request (min 5000 pages) 1 limited tight)
            (handle_mem_req willing request request 8 tight))
unfolding set_mem_limit_in_pages
mem_request_on_empty_pool_example =
    mem_request_on_empty_pool willing request request 8 tight 1 limited tight-IsValid
      (seven-IsWithin, (limited-IsWithin, tt)) (omega (arith, tight_limits)) tight_mem-IsValid
      tight-IsSender refl (omega arith) refl refl

handle_mem_req-IsBalanced_example :
    Returns (λ r. IsBalanced tight r.0) (handle_mem_req willing request request 8 tight)
unfolding set_mem_limit_in_pages LocalMem.set_mem_limit_in_pages
handle_mem_req-IsBalanced_example =
    handle_mem_req-IsBalanced willing request request 8 tight 1 limited tight-IsValid
      (seven-IsWithin, (limited-IsWithin, tt)) (omega (arith, tight_limits)) tight_mem-IsValid
      tight-IsSender refl (omega arith) (omega arith)

periodic_reclaim-IsBalanced_example : Returns (IsBalanced tight) (periodic_reclaim willing tight)
periodic_reclaim-IsBalanced_example =
    periodic_reclaim-IsBalanced willing tight tight-IsValid (seven-IsWithin, (limited-IsWithin, tt))
      (omega (arith, tight_limits)) tight_mem-IsValid

seven_known : find seven.c_id application.sc_ac_map ≡ some (some client)
unfolding find same_container
seven_known = refl

pub seven-IsServed : IsServed application 0 seven client
unfolding find same_container
seven-IsServed = record {
  queue = 0 ∷ [];
  entry = refl;
  last = refl;
  stored = refl;
  named = refl;
  known = refl;
}

eight-IsServed : IsServed application 1 eight client
unfolding find same_container
eight-IsServed = record {
  queue = 1 ∷ [];
  entry = refl;
  last = refl;
  stored = refl;
  named = refl;
  known = refl;
}

reclaim_keeps_margin_example :
    (pages : ℕ) × (reclaim willing seven.c_id 0 application
      ≡ ok (store 0 (set_mem_limit_in_pages 13_800 seven) application, pages))
    × (13_800 + pages ≤ 40_000)
    × (40_000 ≤ 13_800 + pages + 1)
reclaim_keeps_margin_example =
    reclaim_keeps_margin willing 0 application seven client seven-IsServed (omega arith)
      (omega arith) refl

reclaim_wraps_example :
    (pages : ℕ) × (reclaim willing eight.c_id 1 application
      ≡ ok (store 1 (set_mem_limit_in_pages 13_800 eight) application, pages))
    × (2 ^ 50 < pages)
reclaim_wraps_example =
    reclaim_wraps willing 1 application eight client eight-IsServed (omega arith) (omega arith) refl

cut_limit_makes_pages_example :
    Returns
      (λ new. pages_held new ≡ pages_held application + (5000 - 2000))
      (cut_limit willing seven 5000 application)
cut_limit_makes_pages_example =
    cut_limit_makes_pages willing seven 5000 application client seven_known refl
      application_mem-IsValid (omega arith) (omega arith)
