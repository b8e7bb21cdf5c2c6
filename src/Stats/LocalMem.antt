-- ===== src/Stats/LocalMem.antt =====
-- stats/local/mem_l.h and mem_l.cpp: one container's memory limit, in pages.
use ec_gcm.Common.{ℕ, if◌then◌else◌, ltb, add64, sub64}

pub record LocalMem : Type 0 where
  pub mem_limit_in_pages : ℕ
  pub current_usage : ℕ

unfoldable pub init : LocalMem
init = record { mem_limit_in_pages = 0; current_usage = 0 }

unfoldable pub set_mem_limit_in_pages : ℕ → LocalMem → LocalMem
set_mem_limit_in_pages limit m = record m { mem_limit_in_pages = limit }

unfoldable pub incr_mem_limit : ℕ → LocalMem → LocalMem
incr_mem_limit incr m = record m { mem_limit_in_pages = add64 m.mem_limit_in_pages incr }

unfoldable pub decr_mem_limit : ℕ → LocalMem → LocalMem
decr_mem_limit decr m = record m {
  mem_limit_in_pages = if ltb m.mem_limit_in_pages decr then 0 else sub64 m.mem_limit_in_pages decr;
}
