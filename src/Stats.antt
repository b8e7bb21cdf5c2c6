-- ===== src/Stats.antt =====
-- stats/: the counters of the whole application (global), those of one container (local), and the
-- sliding windows behind a container's means.
pub mod GlobalCpu
pub mod GlobalMem
pub mod Window
pub mod LocalCpu
pub mod LocalMem
