-- ===== src/Manager/Memory/Pages.antt =====
-- The pages in the pool and in containers, and how a grant and a reclaim move them.
use ec_gcm.Common.{ℕ, ◌+◌, ◌-◌, ◌≡◌, ◌≤◌, arith, min}
use ec_gcm.Stats.GlobalMem.{
  GlobalMem, IsValid, incr_allocated_memory_in_pages, decr_allocated_memory_in_pages,
  incr_unallocated_memory_in_pages, decr_unallocated_memory_in_pages,
}
use ec_gcm.SubContainer.Identity.{container_key}
use ec_gcm.ElasticContainer.{ElasticContainer}
use ec_gcm.EcApi.{ec_update_alloc_memory_in_pages, ec_update_reclaim_memory_in_pages}
use ec_gcm.Manager.Memory.{on_mem, grant_pages}

-- Pages that move from the pool to the containers.
pub alloc_lem :
    (pages : ℕ) (m : GlobalMem)
    → IsValid m
    → pages ≤ m.unallocated_memory_in_pages
    → ec_update_alloc_memory_in_pages pages m ≡ record m {
      unallocated_memory_in_pages = m.unallocated_memory_in_pages - pages;
      allocated_memory_in_pages = m.allocated_memory_in_pages + pages;
    }
unfolding ec_update_alloc_memory_in_pages incr_allocated_memory_in_pages
    decr_unallocated_memory_in_pages
alloc_lem pages m v h = ground arith

-- Pages that move back.
pub reclaim_lem_pages :
    (pages : ℕ) (m : GlobalMem)
    → IsValid m
    → pages ≤ m.allocated_memory_in_pages
    → ec_update_reclaim_memory_in_pages pages m ≡ record m {
      unallocated_memory_in_pages = m.unallocated_memory_in_pages + pages;
      allocated_memory_in_pages = m.allocated_memory_in_pages - pages;
    }
unfolding ec_update_reclaim_memory_in_pages decr_allocated_memory_in_pages
    incr_unallocated_memory_in_pages
reclaim_lem_pages pages m v h = ground arith

pub pages-eq_min : (m : GlobalMem) → grant_pages m ≡ min m.slice_size m.unallocated_memory_in_pages
unfolding grant_pages
pages-eq_min m = ground arith

-- The pages that the two counters hold together.
abbrev pub pages_held : ElasticContainer → ℕ
pages_held ec = ec.mem.unallocated_memory_in_pages + ec.mem.allocated_memory_in_pages

-- The application after pages are given back to the pool.
abbrev pub returned : ℕ → ElasticContainer → ElasticContainer
returned pages ec =
    on_mem
      (λ m. record m {
        unallocated_memory_in_pages = m.unallocated_memory_in_pages + pages;
        allocated_memory_in_pages = m.allocated_memory_in_pages - pages;
      })
      ec
