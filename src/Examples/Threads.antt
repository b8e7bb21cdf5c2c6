-- ===== src/Examples/Threads.antt =====
-- The theorems on threads, at a request of the container 8 in the thread 0, at two threads that
-- reclaim from the container 7, and at interleavings of the effects of reports.
use ec_gcm.Common.{ℕ, ◌+◌, ◌≡◌, refl, ◌≤◌, ◌<◌, none, Option, List, [], ◌∷◌, ok, arith}
use ec_gcm.Common.Map.{find}
use ec_gcm.Stats.GlobalMem.{decr_unallocated_memory_in_pages, incr_allocated_memory_in_pages}
use ec_gcm.SubContainer.{same_container, set_mem_limit_in_pages}
use ec_gcm.SubContainer.Identity.{container_key}
use ec_gcm.ElasticContainer.{ElasticContainer, store, get_sc_for_update_back}
use ec_gcm.Msg.{Msg, alloc_success}
use ec_gcm.Manager.Memory.{on_mem, reclaim, handle_mem_req, grant_memory, grant_pages}
use ec_gcm.Manager.Cpu.Amounts.{Usage, throttle_relief}
use ec_gcm.Manager.Cpu.Branches.{Balanced}
use ec_gcm.Threads.Requests.{
  MemCall, locked, ready, taking, putting, writing, leaving, idle, waiting, done, enter, advance,
  Process, move, arrive, lock, work, unlock, Reach, start, later,
}
use ec_gcm.Threads.Requests.Serial.{Served, Has, Serial, run_alone}
use ec_gcm.Threads.Requests.Refinement.{Reach-IsSerial}
use ec_gcm.Threads.Requests.Release.{Runs, Answered, waiting_thread_finishes}
use ec_gcm.Threads.Reclaims.{Plan, plan_reclaim, carry_out, reclaim_counted_twice}
use ec_gcm.Threads.Reports.{
  Access, to_pool, from_pool, to_alloc, from_alloc, run_accesses, Effect, giving, taking_back,
  accesses, first, other, Schedule, finished, turn,
}
use ec_gcm.Threads.Reports.Schedules.{
  serially, threads, IsCovered, interleaved_as_serial, reliefs, stale_pool_makes_time,
}
use ec_gcm.EcApi.{ec_update_alloc_memory_in_pages}
use ec_gcm.Examples.{thousandths, plain_net, willing, client, seven, eight, application}
use ec_gcm.Examples.Memory.{request, seven-IsServed}

abbrev call : MemCall
call = record { world = willing; req = request; res = request; clifd = 8 }

-- The application after each access: 2000 pages are taken from the pool, counted as allocated, and
-- added to the limit.
abbrev drained : ElasticContainer
drained = on_mem (λ m. record m { unallocated_memory_in_pages = 0 }) application

abbrev counted : ElasticContainer
counted = on_mem (λ m. record m { allocated_memory_in_pages = 52_000 }) drained

abbrev raised : ElasticContainer
raised = store 1 (set_mem_limit_in_pages 12_000 eight) counted

abbrev answer : Msg
answer = record request { rsrc_amnt = 12_000; request = 0 }

enter-call : enter call ≡ waiting call
unfolding enter
enter-call = refl

look : advance (locked call) application ≡ ok (application, ready call 2000)
unfolding advance
look = refl

decide : advance (ready call 2000) application ≡ ok (application, taking call 2000)
unfolding advance
decide = refl

take : advance (taking call 2000) application ≡ ok (drained, putting call 2000)
unfolding advance decr_unallocated_memory_in_pages
take = refl

put : advance (putting call 2000) drained ≡ ok (counted, writing call 2000)
unfolding advance incr_allocated_memory_in_pages
put = refl

write_limit : advance (writing call 2000) counted ≡ ok (raised, leaving call answer alloc_success)
unfolding advance get_sc_for_update_back find same_container
write_limit = refl

-- The thread 0 serves the request from start to end.
abbrev served : (s : Process) × Reach application s
served = (
  _,
  later
      (later
        (later
          (later
            (later
              (later (later (later start (arrive 0 call refl)) (lock 0 call enter-call refl))
                (work 0 (locked call) (ready call 2000) application refl look))
              (work 0 (ready call 2000) (taking call 2000) application refl decide))
            (work 0 (taking call 2000) (putting call 2000) drained refl take))
          (work 0 (putting call 2000) (writing call 2000) counted refl put))
        (work 0 (writing call 2000) (leaving call answer alloc_success) raised refl write_limit))
      (unlock 0 call answer alloc_success refl),
)

Reach-IsSerial_example :
    (log : List Served) × Serial application served.0.ec log
    × ((i : ℕ) (c : MemCall) (answer : Msg) (code : ℕ)
        → served.0.pc i ≡ done c answer code
        → Has (c, answer, code) log)
Reach-IsSerial_example = Reach-IsSerial application served.0 served.1 refl

abbrev arrived : Process
arrived = record { ec = application; memlock = none; pc = move 0 (enter call) (λ _. idle) }

alone : run_alone call application ≡ ok (raised, answer, alloc_success)
unfolding handle_mem_req grant_memory grant_pages ec_update_alloc_memory_in_pages
    decr_unallocated_memory_in_pages incr_allocated_memory_in_pages get_sc_for_update_back find
    same_container
alone = refl

waiting_thread_finishes_example :
    (t : Process) × Runs arrived t × Answered 0 call (raised, answer, alloc_success) t
waiting_thread_finishes_example =
    waiting_thread_finishes application arrived 0 call raised answer alloc_success
      (later start (arrive 0 call refl)) enter-call refl alone

abbrev cut : ElasticContainer
cut = store 0 (set_mem_limit_in_pages 13_800 seven) application

reclaim_counted_twice_example :
    (plan : Option Plan) × (pages : ℕ) × (again : ElasticContainer) × (plan_reclaim willing
        seven.c_id 0 application
      ≡ ok (application, plan))
    × (carry_out willing seven.c_id plan application ≡ ok (cut, pages))
    × (carry_out willing seven.c_id plan cut ≡ ok (again, pages))
    × (again.heap 0 ≡ cut.heap 0)
    × (reclaim willing seven.c_id 0 cut ≡ ok (cut, 0))
    × (13_800 + pages ≤ 40_000)
    × (40_000 ≤ 13_800 + pages + 1)
reclaim_counted_twice_example =
    reclaim_counted_twice willing 0 application seven client seven-IsServed (omega arith)
      (omega arith) refl

-- A quota is raised, and another cut, at once.
abbrev effects : List Effect
effects = giving 3_000_000 ∷ taking_back 5_000_000 ∷ []

abbrev mixed : List Access
mixed = to_pool 5_000_000 ∷ from_pool 3_000_000 ∷ from_alloc 5_000_000 ∷ to_alloc 3_000_000 ∷ []

mixed-Schedule : Schedule (threads effects) mixed
unfolding accesses
mixed-Schedule = turn (other _ (first _ _ _)) (
    turn (first _ _ _)
      (turn (other _ (first _ _ _)) (turn (first _ _ _) (finished _ (refl, (refl, tt))))))

effects-IsCovered : IsCovered effects application.cpu
unfolding accesses
effects-IsCovered = record {
  pool_lt = omega arith;
  pool_le = omega arith;
  alloc_lt = omega arith;
  alloc_le = omega arith;
  overrun_lt = omega arith;
  overrun_le = omega arith;
}

interleaved_as_serial_example :
    (run_accesses mixed application.cpu ≡ serially effects application.cpu)
    × Balanced application.cpu (run_accesses mixed application.cpu)
interleaved_as_serial_example =
    interleaved_as_serial effects mixed application.cpu effects-IsCovered mixed-Schedule

-- Two throttled containers, and a pool of 4 ms.
abbrev throttled : Usage
throttled = record {
  rx_quota = 70_000_000;
  rt_remaining = 0;
  rt_mean = 0;
  thr_mean = 900;
  slice = 30_000_000;
  unallocated = 4_000_000;
  overrun = 0;
  fair = 60_000_000;
}

abbrev crossed : List Access
crossed = from_pool 4_000_000 ∷ from_pool 4_000_000 ∷ to_alloc 4_000_000 ∷ to_alloc 4_000_000 ∷ []

relief : throttle_relief throttled ≡ 4_000_000
unfolding throttle_relief
relief = refl

crossed-Schedule : Schedule (threads (reliefs throttled throttled)) crossed
unfolding accesses throttle_relief
crossed-Schedule = turn (first _ _ _) (
    turn (other _ (first _ _ _))
      (turn (first _ _ _) (turn (other _ (first _ _ _)) (finished _ (refl, (refl, tt))))))

stale_pool_makes_time_example :
    let c = application.cpu in
    ((run_accesses crossed c).unallocated_rt ≡ 0)
    × ((run_accesses crossed c).overrun ≡ 0)
    × ((run_accesses crossed c).alloc_rt
        ≡ 70_000_000 + throttle_relief throttled + throttle_relief throttled)
    × (74_000_000 < (run_accesses crossed c).alloc_rt + (run_accesses crossed c).unallocated_rt)
stale_pool_makes_time_example =
    stale_pool_makes_time throttled throttled crossed application.cpu refl refl (omega arith)
      (omega arith) (omega arith) (omega (arith, relief)) crossed-Schedule
