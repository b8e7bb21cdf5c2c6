-- ===== src/Threads/Reports/Schedules.antt =====
-- The effects of reports on the account, interleaved access by access, against the same effects one
-- after another.
use ec_gcm.Common.{ℕ, ◌+◌, ◌-◌, ◌^◌, ◌≡◌, ◌∙◌, sym, refl, ◌≤◌, ◌<◌, arith, List, [], ◌∷◌, ◌++◌, map}
use ec_gcm.Platform.{Double}
use ec_gcm.Stats.GlobalCpu.{
  GlobalCpu, incr_unallocated_rt, decr_unallocated_rt, incr_alloc_rt, decr_alloc_rt, incr_overrun,
  decr_overrun,
}
use ec_gcm.Manager.Cpu.Amounts.{Usage, throttle_relief}
use ec_gcm.Manager.Cpu.Bounds.{throttle_relief-le}
use ec_gcm.Manager.Cpu.Branches.{Balanced}
use ec_gcm.Threads.Reports.{
  Access, to_pool, from_pool, to_alloc, from_alloc, to_overrun, from_overrun, apply, run_accesses,
  Effect, giving, taking_back, repaying, lending, accesses, Schedule,
}
use ec_gcm.Threads.Reports.Counters.{
  sum, sums, pooled, unpooled, allocated, released, lent, repaid, pool-Moves, alloc-Moves,
  overrun-Moves, counter-run_accesses, counter-falls, sum-Schedule,
}

-- Effects one after another.
unfoldable pub serially : List Effect → GlobalCpu → GlobalCpu
serially [] c = c
serially (e ∷ es) c = serially es (run_accesses (accesses e) c)

abbrev pub threads : List Effect → List (List Access)
threads es = map accesses es

-- The account covers the effects from the start: each counter holds all that is taken from it.
pub record IsCovered (es : List Effect) (c : GlobalCpu) : Type 0 where
  pub pool_lt : c.unallocated_rt + sums pooled (threads es) < 2 ^ 62
  pub pool_le : sums unpooled (threads es) ≤ c.unallocated_rt
  pub alloc_lt : c.alloc_rt + sums allocated (threads es) < 2 ^ 62
  pub alloc_le : sums released (threads es) ≤ c.alloc_rt
  pub overrun_lt : c.overrun + sums lent (threads es) < 2 ^ 62
  pub overrun_le : sums repaid (threads es) ≤ c.overrun

-- The accesses of the effects one after another.
abbrev in_order : List Effect → List Access
in_order [] = []
in_order (e ∷ es) = accesses e ++ in_order es

run_accesses-append :
    (xs ys : List Access) (c : GlobalCpu)
    → run_accesses (xs ++ ys) c ≡ run_accesses ys (run_accesses xs c)
run_accesses-append [] ys c = refl
run_accesses-append (x ∷ xs) ys c = run_accesses-append xs ys (apply x c)

serially-run_accesses :
    (es : List Effect) (c : GlobalCpu) → serially es c ≡ run_accesses (in_order es) c
unfolding serially
serially-run_accesses [] c = refl
serially-run_accesses (e ∷ es) c =
    serially-run_accesses es (run_accesses (accesses e) c)
    ∙ sym (run_accesses-append (accesses e) (in_order es) c)

sum-append : (f : Access → ℕ) (xs ys : List Access) → sum f (xs ++ ys) ≡ sum f xs + sum f ys
sum-append f [] ys = omega arith
sum-append f (x ∷ xs) ys = omega (arith, sum-append f xs ys)

sum-in_order : (f : Access → ℕ) (es : List Effect) → sum f (in_order es) ≡ sums f (threads es)
sum-in_order f [] = refl
sum-in_order f (e ∷ es) = omega (arith, sum-append f (accesses e) (in_order es), sum-in_order f es)

-- No access is to the slice or to the total.
apply-fixed :
    (x : Access) (c : GlobalCpu)
    → ((apply x c).slice_size ≡ c.slice_size) × ((apply x c).total_cpu ≡ c.total_cpu)
unfolding apply incr_unallocated_rt decr_unallocated_rt incr_alloc_rt decr_alloc_rt incr_overrun
    decr_overrun
apply-fixed (to_pool n) c = (refl, refl)
apply-fixed (from_pool n) c = (refl, refl)
apply-fixed (to_alloc n) c = (refl, refl)
apply-fixed (from_alloc n) c = (refl, refl)
apply-fixed (to_overrun n) c = (refl, refl)
apply-fixed (from_overrun n) c = (refl, refl)

run_accesses-fixed :
    (zs : List Access) (c : GlobalCpu)
    → ((run_accesses zs c).slice_size ≡ c.slice_size)
      × ((run_accesses zs c).total_cpu ≡ c.total_cpu)
run_accesses-fixed [] c = (refl, refl)
run_accesses-fixed (x ∷ zs) c =
    let (slice, total) = run_accesses-fixed zs (apply x c) in
    let (slice', total') = apply-fixed x c in (slice ∙ slice', total ∙ total')

-- What an account becomes when the order does not count.
abbrev moved : List Effect → GlobalCpu → GlobalCpu
moved es c = record c {
  unallocated_rt = c.unallocated_rt + sums pooled (threads es) - sums unpooled (threads es);
  alloc_rt = c.alloc_rt + sums allocated (threads es) - sums released (threads es);
  overrun = c.overrun + sums lent (threads es) - sums repaid (threads es);
}

run_accesses-moved :
    (es : List Effect) (zs : List Access) (c : GlobalCpu)
    → ((f : Access → ℕ) → sum f zs ≡ sums f (threads es))
    → IsCovered es c
    → run_accesses zs c ≡ moved es c
run_accesses-moved es zs c all v =
    let up = all pooled in
    let down = all unpooled in
    let up' = all allocated in
    let down' = all released in
    let up'' = all lent in
    let down'' = all repaid in
    let pool =
      counter-run_accesses (λ c. c.unallocated_rt) pooled unpooled pool-Moves zs c
        (omega (arith, v.pool_lt)) (omega (arith, v.pool_le)) in
    let alloc =
      counter-run_accesses (λ c. c.alloc_rt) allocated released alloc-Moves zs c
        (omega (arith, v.alloc_lt)) (omega (arith, v.alloc_le)) in
    let over =
      counter-run_accesses (λ c. c.overrun) lent repaid overrun-Moves zs c
        (omega (arith, v.overrun_lt)) (omega (arith, v.overrun_le)) in
    let (slice, total) = run_accesses-fixed zs c in ground arith

-- Each effect moves one amount from one counter to another.
sums-paired :
    (es : List Effect)
    → (sums allocated (threads es) ≡ sums unpooled (threads es) + sums lent (threads es))
      × (sums released (threads es) ≡ sums pooled (threads es) + sums repaid (threads es))
unfolding accesses
sums-paired [] = (refl, refl)
sums-paired (giving n ∷ es) = let (a, b) = sums-paired es in (omega arith, omega arith)
sums-paired (taking_back n ∷ es) = let (a, b) = sums-paired es in (omega arith, omega arith)
sums-paired (repaying n ∷ es) = let (a, b) = sums-paired es in (omega arith, omega arith)
sums-paired (lending n ∷ es) = let (a, b) = sums-paired es in (omega arith, omega arith)

-- Any number of effects of reports, interleaved access by access in any order, on an account that
-- covers them from the start: the account is what the effects leave one after another, and the time
-- handed out plus the pool, less the overrun, is what it was.
pub interleaved_as_serial :
    (es : List Effect) (zs : List Access) (c : GlobalCpu)
    → IsCovered es c
    → Schedule (threads es) zs
    → (run_accesses zs c ≡ serially es c) × Balanced c (run_accesses zs c)
interleaved_as_serial es zs c v s =
    let mixed : run_accesses zs c ≡ moved es c =
      run_accesses-moved es zs c (λ f. sum-Schedule f s) v in
    let ordered : serially es c ≡ moved es c =
      serially-run_accesses es c
      ∙ run_accesses-moved es (in_order es) c (λ f. sum-in_order f es) v in
    let (handed, given_back) = sums-paired es in
    (
      mixed ∙ sym ordered,
      rw mixed
          (omega (arith, v.pool_lt, v.pool_le, v.alloc_lt, v.alloc_le, v.overrun_lt, v.overrun_le)),
    )

module _ ⦃d : Double⦄ where
  abbrev pub reliefs : Usage → Usage → List Effect
  reliefs u v = giving (throttle_relief u) ∷ giving (throttle_relief v) ∷ []

  -- Two reports of throttled containers whose handlers both read the same pool, with a pool below
  -- `2 ^ 60` and other counters below `2 ^ 61`, where the time that both give to their containers is
  -- more than the pool: in whatever order their accesses come, the pool is empty at the end, no
  -- overrun is recorded, and the time handed out has grown by both amounts, by more than the pool
  -- held.
  pub stale_pool_makes_time :
      (u v : Usage) (zs : List Access) (c : GlobalCpu)
      → u.unallocated ≡ c.unallocated_rt
      → v.unallocated ≡ c.unallocated_rt
      → c.unallocated_rt < 2 ^ 60
      → c.alloc_rt < 2 ^ 61
      → c.overrun < 2 ^ 61
      → c.unallocated_rt < throttle_relief u + throttle_relief v
      → Schedule (threads (reliefs u v)) zs
      → ((run_accesses zs c).unallocated_rt ≡ 0)
        × ((run_accesses zs c).overrun ≡ c.overrun)
        × ((run_accesses zs c).alloc_rt ≡ c.alloc_rt + throttle_relief u + throttle_relief v)
        × (c.alloc_rt + c.unallocated_rt
            < (run_accesses zs c).alloc_rt + (run_accesses zs c).unallocated_rt)
  unfolding accesses
  stale_pool_makes_time u v zs c e f b b' b'' short s =
      let most = throttle_relief-le u in
      let most' = throttle_relief-le v in
      let up : sum pooled zs ≡ 0 = omega (arith, sum-Schedule pooled s) in
      let down : sum unpooled zs ≡ throttle_relief u + throttle_relief v =
        omega (arith, sum-Schedule unpooled s) in
      let given : sum allocated zs ≡ throttle_relief u + throttle_relief v =
        omega (arith, sum-Schedule allocated s) in
      let kept : sum released zs ≡ 0 = omega (arith, sum-Schedule released s) in
      let no_loan : sum lent zs ≡ 0 = omega (arith, sum-Schedule lent s) in
      let no_payment : sum repaid zs ≡ 0 = omega (arith, sum-Schedule repaid s) in
      let pool =
        counter-falls (λ c. c.unallocated_rt) pooled unpooled pool-Moves zs c (omega arith) up
          (omega arith) in
      let alloc =
        counter-run_accesses (λ c. c.alloc_rt) allocated released alloc-Moves zs c (omega arith)
          (omega arith) in
      let over =
        counter-run_accesses (λ c. c.overrun) lent repaid overrun-Moves zs c (omega arith)
          (omega arith) in
      (omega arith, omega arith, omega arith, omega arith)
