-- ===== src/Threads/Reports/Counters.antt =====
-- One counter of the account over a list of accesses.
use ec_gcm.Common.{ℕ, ◌+◌, ◌-◌, ◌^◌, ◌≡◌, ◌∙◌, refl, ◌≤◌, ◌<◌, arith, List, [], ◌∷◌, All}
use ec_gcm.Stats.GlobalCpu.{
  GlobalCpu, incr_unallocated_rt, decr_unallocated_rt, incr_alloc_rt, decr_alloc_rt, incr_overrun,
  decr_overrun,
}
use ec_gcm.Threads.Reports.{
  Access, to_pool, from_pool, to_alloc, from_alloc, to_overrun, from_overrun, apply, run_accesses,
  Turn, first, other, Schedule, finished, turn,
}

abbrev pub sum : (Access → ℕ) → List Access → ℕ
sum f [] = 0
sum f (x ∷ xs) = f x + sum f xs

abbrev pub sums : (Access → ℕ) → List (List Access) → ℕ
sums f [] = 0
sums f (t ∷ ts) = sum f t + sums f ts

abbrev pub pooled : Access → ℕ
pooled (to_pool n) = n
pooled _ = 0

abbrev pub unpooled : Access → ℕ
unpooled (from_pool n) = n
unpooled _ = 0

abbrev pub allocated : Access → ℕ
allocated (to_alloc n) = n
allocated _ = 0

abbrev pub released : Access → ℕ
released (from_alloc n) = n
released _ = 0

abbrev pub lent : Access → ℕ
lent (to_overrun n) = n
lent _ = 0

abbrev pub repaid : Access → ℕ
repaid (from_overrun n) = n
repaid _ = 0

-- How one access moves one counter.
abbrev pub Moves : (GlobalCpu → ℕ) → (Access → ℕ) → (Access → ℕ) → Type 0
Moves counter up down =
    (x : Access) (c : GlobalCpu)
    → counter c + up x < 2 ^ 62
    → down x < 2 ^ 62
    → counter (apply x c) ≡ counter c + up x - down x

pub pool-Moves : Moves (λ c. c.unallocated_rt) pooled unpooled
unfolding apply incr_unallocated_rt decr_unallocated_rt incr_alloc_rt decr_alloc_rt incr_overrun
    decr_overrun
pool-Moves (to_pool n) c h k = ground arith
pool-Moves (from_pool n) c h k = ground arith
pool-Moves (to_alloc n) c h k = omega arith
pool-Moves (from_alloc n) c h k = omega arith
pool-Moves (to_overrun n) c h k = omega arith
pool-Moves (from_overrun n) c h k = omega arith

pub alloc-Moves : Moves (λ c. c.alloc_rt) allocated released
unfolding apply incr_unallocated_rt decr_unallocated_rt incr_alloc_rt decr_alloc_rt incr_overrun
    decr_overrun
alloc-Moves (to_alloc n) c h k = ground arith
alloc-Moves (from_alloc n) c h k = ground arith
alloc-Moves (to_pool n) c h k = omega arith
alloc-Moves (from_pool n) c h k = omega arith
alloc-Moves (to_overrun n) c h k = omega arith
alloc-Moves (from_overrun n) c h k = omega arith

pub overrun-Moves : Moves (λ c. c.overrun) lent repaid
unfolding apply incr_unallocated_rt decr_unallocated_rt incr_alloc_rt decr_alloc_rt incr_overrun
    decr_overrun
overrun-Moves (to_overrun n) c h k = ground arith
overrun-Moves (from_overrun n) c h k = ground arith
overrun-Moves (to_pool n) c h k = omega arith
overrun-Moves (from_pool n) c h k = omega arith
overrun-Moves (to_alloc n) c h k = omega arith
overrun-Moves (from_alloc n) c h k = omega arith

module _ (counter : GlobalCpu → ℕ) (up down : Access → ℕ) (moves : Moves counter up down) where
  -- What is taken is there from the start: the order does not count.
  pub counter-run_accesses :
      (zs : List Access) (c : GlobalCpu)
      → counter c + sum up zs < 2 ^ 62
      → sum down zs ≤ counter c
      → counter (run_accesses zs c) ≡ counter c + sum up zs - sum down zs
  counter-run_accesses [] c h k = omega arith
  counter-run_accesses (x ∷ zs) c h k =
      let one : counter (apply x c) ≡ counter c + up x - down x =
        moves x c (omega arith) (omega arith) in
      counter-run_accesses zs (apply x c) (omega arith) (omega arith) ∙ omega arith

  -- Nothing is added: the counter falls by what is taken, and stops at 0.
  pub counter-falls :
      (zs : List Access) (c : GlobalCpu)
      → counter c < 2 ^ 62
      → sum up zs ≡ 0
      → sum down zs < 2 ^ 62
      → counter (run_accesses zs c) ≡ counter c - sum down zs
  counter-falls [] c b h k = omega arith
  counter-falls (x ∷ zs) c b h k =
      let one : counter (apply x c) ≡ counter c + up x - down x =
        moves x c (omega arith) (omega arith) in
      counter-falls zs (apply x c) (omega arith) (omega arith) (omega arith) ∙ omega arith

-- An interleaving holds every access of the threads.
sums-Turn :
    (f : Access → ℕ) {x : Access} {ts ts' : List (List Access)}
    → Turn ts x ts'
    → sums f ts ≡ f x + sums f ts'
sums-Turn f (first x xs ts) = omega arith
sums-Turn f (other t mv) = omega (arith, sums-Turn f mv)

sums-empty : (f : Access → ℕ) (ts : List (List Access)) → All (λ t. t ≡ []) ts → sums f ts ≡ 0
sums-empty f [] h = refl
sums-empty f (t ∷ ts) (e, h) = rw e (omega (arith, sums-empty f ts h))

pub sum-Schedule :
    (f : Access → ℕ) {ts : List (List Access)} {zs : List Access}
    → Schedule ts zs
    → sum f zs ≡ sums f ts
sum-Schedule f (finished ts h) = omega (arith, sums-empty f ts h)
sum-Schedule f (turn mv s) = omega (arith, sums-Turn f mv, sum-Schedule f s)
