-- ===== src/Stats/GlobalMem/Laws.antt =====
-- The counters of mem_g.cpp against plain arithmetic.
use ec_gcm.Common.{ℕ, ◌-◌, ◌<◌, ◌^◌, ◌≡◌, arith}
use ec_gcm.Stats.GlobalMem.{GlobalMem, decr_memory_limit_in_pages, decr_pages}

-- Below half the range of the type a decrement stops at 0.
pub decr_pages-eq_sub :
    (pages decr : ℕ) → pages < 2 ^ 63 → decr < 2 ^ 63 → decr_pages pages decr ≡ pages - decr
decr_pages-eq_sub pages decr h k = ground arith

-- The limit never wraps: it stops at 0 for every amount.
pub decr_memory_limit-eq_sub :
    (m : GlobalMem) (decr : ℕ)
    → m.memory_limit_in_pages < 2 ^ 64
    → (decr_memory_limit_in_pages decr m).memory_limit_in_pages ≡ m.memory_limit_in_pages - decr
unfolding decr_memory_limit_in_pages
decr_memory_limit-eq_sub m decr h = ground arith
