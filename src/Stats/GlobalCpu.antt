-- ===== src/Stats/GlobalCpu.antt =====
-- stats/global/cpu_g.h and cpu_g.cpp: the CPU time of the application, in nanoseconds per period.
-- Each method holds one mutex and is one step here. The proofs stand in `Laws`.
pub mod Laws
use ec_gcm.Common.{ℕ, ◌<◌, ◌^◌, if◌then◌else◌, add64, sub64, is_neg, u64}

pub record GlobalCpu : Type 0 where
  pub slice_size : ℕ
  pub unallocated_rt : ℕ
  pub total_cpu : ℕ
  pub overrun : ℕ
  pub alloc_rt : ℕ

-- `cpu(uint64_t)`; `cpu()` has a slice of 30000000.
unfoldable pub init : ℕ → GlobalCpu
init slice = record {
  slice_size = slice;
  unallocated_rt = 0;
  total_cpu = 0;
  overrun = 0;
  alloc_rt = 0;
}

abbrev pub default_slice : ℕ
default_slice = 30_000_000

-- The body of the four decrements: 0 where the difference, read as an `int64_t`, is negative.
abbrev pub decr_clamped : ℕ → ℕ → ℕ
decr_clamped value decr = if is_neg (sub64 value decr) then 0 else sub64 value decr

unfoldable pub set_slice_size : ℕ → GlobalCpu → GlobalCpu
set_slice_size slice c = record c { slice_size = slice }

unfoldable pub incr_unallocated_rt : ℕ → GlobalCpu → GlobalCpu
incr_unallocated_rt incr c = record c { unallocated_rt = add64 c.unallocated_rt incr }

unfoldable pub decr_unallocated_rt : ℕ → GlobalCpu → GlobalCpu
decr_unallocated_rt decr c = record c { unallocated_rt = decr_clamped c.unallocated_rt decr }

unfoldable pub set_unallocated_rt : ℕ → GlobalCpu → GlobalCpu
set_unallocated_rt value c = record c { unallocated_rt = value }

unfoldable pub set_total_cpu : ℕ → GlobalCpu → GlobalCpu
set_total_cpu value c = record c { total_cpu = value }

unfoldable pub incr_total_cpu : ℕ → GlobalCpu → GlobalCpu
incr_total_cpu incr c = record c { total_cpu = add64 c.total_cpu incr }

unfoldable pub decr_total_cpu : ℕ → GlobalCpu → GlobalCpu
decr_total_cpu decr c = record c { total_cpu = decr_clamped c.total_cpu decr }

unfoldable pub incr_overrun : ℕ → GlobalCpu → GlobalCpu
incr_overrun incr c = record c { overrun = add64 c.overrun incr }

unfoldable pub decr_overrun : ℕ → GlobalCpu → GlobalCpu
decr_overrun decr c = record c { overrun = decr_clamped c.overrun decr }

unfoldable pub set_overrun : ℕ → GlobalCpu → GlobalCpu
set_overrun value c = record c { overrun = value }

unfoldable pub incr_alloc_rt : ℕ → GlobalCpu → GlobalCpu
incr_alloc_rt incr c = record c { alloc_rt = add64 c.alloc_rt incr }

unfoldable pub decr_alloc_rt : ℕ → GlobalCpu → GlobalCpu
decr_alloc_rt decr c = record c { alloc_rt = decr_clamped c.alloc_rt decr }

-- Every counter is far below the width of its type.
pub record IsValid (c : GlobalCpu) : Type 0 where
  pub slice_lt : c.slice_size < 2 ^ 62
  pub unallocated_lt : c.unallocated_rt < 2 ^ 62
  pub total_lt : c.total_cpu < 2 ^ 62
  pub overrun_lt : c.overrun < 2 ^ 62
  pub alloc_lt : c.alloc_rt < 2 ^ 62
