-- ===== src/Stats/GlobalMem.antt =====
-- stats/global/mem_g.h and mem_g.cpp: the memory of the application, in pages. The limit is a
-- `uint64_t`; the two counters are `int64_t`, bit patterns here. The proofs stand in `Laws`.
pub mod Laws
use ec_gcm.Common.{ℕ, ◌<◌, ◌^◌, if◌then◌else◌, add64, sub64, is_neg, ltb}

pub record GlobalMem : Type 0 where
  pub memory_limit_in_pages : ℕ
  pub slice_size : ℕ
  pub unallocated_memory_in_pages : ℕ
  pub allocated_memory_in_pages : ℕ

abbrev pub default_slice : ℕ
default_slice = 5000

-- `mem()`.
unfoldable pub init : GlobalMem
init = record {
  memory_limit_in_pages = 0;
  slice_size = default_slice;
  unallocated_memory_in_pages = 0;
  allocated_memory_in_pages = 0;
}

-- `mem(uint64_t, int64_t, uint64_t)`. The pool starts at the whole limit, whatever is allocated.
unfoldable pub of_limit : ℕ → ℕ → ℕ → GlobalMem
of_limit limit alloc slice = record {
  memory_limit_in_pages = limit;
  slice_size = slice;
  unallocated_memory_in_pages = limit;
  allocated_memory_in_pages = alloc;
}

unfoldable pub set_slice_size : ℕ → GlobalMem → GlobalMem
set_slice_size slice m = record m { slice_size = slice }

unfoldable pub set_memory_limit_in_pages : ℕ → GlobalMem → GlobalMem
set_memory_limit_in_pages limit m = record m { memory_limit_in_pages = limit }

unfoldable pub incr_memory_limit_in_pages : ℕ → GlobalMem → GlobalMem
incr_memory_limit_in_pages incr m = record m {
  memory_limit_in_pages = add64 m.memory_limit_in_pages incr;
}

unfoldable pub decr_memory_limit_in_pages : ℕ → GlobalMem → GlobalMem
decr_memory_limit_in_pages decr m = record m {
  memory_limit_in_pages =
      if ltb m.memory_limit_in_pages decr then 0 else sub64 m.memory_limit_in_pages decr;
}

unfoldable pub set_unallocated_memory_in_pages : ℕ → GlobalMem → GlobalMem
set_unallocated_memory_in_pages pages m = record m { unallocated_memory_in_pages = pages }

unfoldable pub incr_unallocated_memory_in_pages : ℕ → GlobalMem → GlobalMem
incr_unallocated_memory_in_pages incr m = record m {
  unallocated_memory_in_pages = add64 m.unallocated_memory_in_pages incr;
}

-- `result < 0 ? 0 : result`, the difference read as an `int64_t`.
abbrev pub decr_pages : ℕ → ℕ → ℕ
decr_pages pages decr = let result = sub64 pages decr in if is_neg result then 0 else result

unfoldable pub decr_unallocated_memory_in_pages : ℕ → GlobalMem → GlobalMem
decr_unallocated_memory_in_pages decr m = record m {
  unallocated_memory_in_pages = decr_pages m.unallocated_memory_in_pages decr;
}

unfoldable pub set_allocated_memory_in_pages : ℕ → GlobalMem → GlobalMem
set_allocated_memory_in_pages pages m = record m { allocated_memory_in_pages = pages }

unfoldable pub incr_allocated_memory_in_pages : ℕ → GlobalMem → GlobalMem
incr_allocated_memory_in_pages incr m = record m {
  allocated_memory_in_pages = add64 m.allocated_memory_in_pages incr;
}

unfoldable pub decr_allocated_memory_in_pages : ℕ → GlobalMem → GlobalMem
decr_allocated_memory_in_pages decr m = record m {
  allocated_memory_in_pages = decr_pages m.allocated_memory_in_pages decr;
}

-- The counters are not negative, and far below the width of their types.
pub record IsValid (m : GlobalMem) : Type 0 where
  pub slice_lt : m.slice_size < 2 ^ 62
  pub limit_lt : m.memory_limit_in_pages < 2 ^ 62
  pub unallocated_lt : m.unallocated_memory_in_pages < 2 ^ 62
  pub allocated_lt : m.allocated_memory_in_pages < 2 ^ 62
