-- ===== src/Threads/Reports.antt =====
-- Reports of CPU use in threads. `cpulock` is commented out in `handle_cpu_usage_report`, so a handler
-- is cut at every access to the shared account, each of which holds the mutex of its counter. What a
-- handler does to the account once the agent has agreed is a list of such accesses; the amounts in it
-- were worked out from what the handler read before.
pub mod Counters
pub mod Schedules
use ec_gcm.Common.{ℕ, List, [], ◌∷◌, All, ◌≡◌, refl}
use ec_gcm.Platform.{Double, Net}
use ec_gcm.Stats.GlobalCpu.{
  GlobalCpu, incr_unallocated_rt, decr_unallocated_rt, incr_alloc_rt, decr_alloc_rt, incr_overrun,
  decr_overrun,
}
use ec_gcm.Manager.Cpu.{Session, give, take_back, repay, lend}

-- One access to the account.
pub data Access : Type 0 where
  to_pool : ℕ → Access
  from_pool : ℕ → Access
  to_alloc : ℕ → Access
  from_alloc : ℕ → Access
  to_overrun : ℕ → Access
  from_overrun : ℕ → Access

unfoldable pub apply : Access → GlobalCpu → GlobalCpu
apply (to_pool n) c = incr_unallocated_rt n c
apply (from_pool n) c = decr_unallocated_rt n c
apply (to_alloc n) c = incr_alloc_rt n c
apply (from_alloc n) c = decr_alloc_rt n c
apply (to_overrun n) c = incr_overrun n c
apply (from_overrun n) c = decr_overrun n c

abbrev pub run_accesses : List Access → GlobalCpu → GlobalCpu
run_accesses [] c = c
run_accesses (x ∷ xs) c = run_accesses xs (apply x c)

-- What the branches do after the call of the agent, with the amount.
pub data Effect : Type 0 where
  giving : ℕ → Effect
  taking_back : ℕ → Effect
  repaying : ℕ → Effect
  lending : ℕ → Effect

-- In the order of the source.
unfoldable pub accesses : Effect → List Access
accesses (giving n) = from_pool n ∷ to_alloc n ∷ []
accesses (taking_back n) = to_pool n ∷ from_alloc n ∷ []
accesses (repaying n) = from_overrun n ∷ from_alloc n ∷ []
accesses (lending n) = to_overrun n ∷ to_alloc n ∷ []

-- The branches run the accesses of their effect on the account, and nothing else.
module _ ⦃d : Double⦄ ⦃net : Net⦄ (n quota : ℕ) (s : Session) where
  give-accesses : (give n quota s).ec.cpu ≡ run_accesses (accesses (giving n)) s.ec.cpu
  unfolding give accesses apply
  give-accesses = refl

  take_back-accesses :
      (take_back n quota s).ec.cpu ≡ run_accesses (accesses (taking_back n)) s.ec.cpu
  unfolding take_back accesses apply
  take_back-accesses = refl

  repay-accesses : (repay n quota s).ec.cpu ≡ run_accesses (accesses (repaying n)) s.ec.cpu
  unfolding repay accesses apply
  repay-accesses = refl

  lend-accesses : (lend n quota s).ec.cpu ≡ run_accesses (accesses (lending n)) s.ec.cpu
  unfolding lend accesses apply
  lend-accesses = refl

-- The next access of one of the threads, with what is left of all of them.
pub data Turn : List (List Access) → Access → List (List Access) → Type 0 where
  first :
      (x : Access) (xs : List Access) (ts : List (List Access)) → Turn ((x ∷ xs) ∷ ts) x (xs ∷ ts)
  other :
      (t : List Access) {x : Access} {ts ts' : List (List Access)}
      → Turn ts x ts'
      → Turn (t ∷ ts) x (t ∷ ts')

-- All the accesses of the threads, interleaved in some order.
pub data Schedule : List (List Access) → List Access → Type 0 where
  finished : (ts : List (List Access)) → All (λ t. t ≡ []) ts → Schedule ts []
  turn :
      {x : Access} {ts ts' : List (List Access)} {zs : List Access}
      → Turn ts x ts'
      → Schedule ts' zs
      → Schedule ts (x ∷ zs)
