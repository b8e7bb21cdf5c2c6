-- ===== src/Stats/Window.antt =====
-- stats/window/Window.h and Window_impl.h: a sliding window over doubles with a running mean, the
-- two instances `Window<int64_t, double>` and `Window<uint32_t, double>` alike.
-- `update_trend`, which is called nowhere, stands in `Trend`, the proofs in `Laws`.
pub mod Laws
pub mod Trend
use ec_gcm.Common.{
  ℕ, ◌+◌, ◌%◌, ◌<◌, ◌≡◌, List, add32, sub32, leb, if◌then◌else◌, length, get_or, set, replicate,
}
use ec_gcm.Platform.{Double}

pub record Window : Type 0 where
  pub winsize : ℕ
  pub mean : ℕ
  pub periods_elapsed : ℕ
  pub trend : ℕ
  pub offset : ℕ
  pub popped : ℕ
  pub winstat : List ℕ

-- The slot that a period writes. `Laws` shows that it lies in the vector; the value that the
-- model reads outside it is never used.
abbrev pub slot : Window → ℕ
slot w = w.periods_elapsed % w.winsize

module _ ⦃d : Double⦄ where
  open d use {of_u64, decimal, sum, diff, prod, quot, lt}

  -- `Window(uint32_t)`.
  unfoldable pub init : ℕ → Window
  init winsize = record {
    winsize = winsize;
    mean = of_u64 0;
    periods_elapsed = 1;
    trend = 0;
    offset = 0;
    popped = of_u64 0;
    winstat = replicate winsize (of_u64 0);
  }

  -- The next mean: exact over the first `winsize` periods, incremental after them.
  abbrev next_mean : Window → ℕ → ℕ
  next_mean w element =
      if leb w.periods_elapsed w.winsize
      then quot (sum (prod (of_u64 (sub32 w.periods_elapsed 1)) w.mean) element)
          (of_u64 w.periods_elapsed)
      else sum w.mean (quot (diff element w.popped) (of_u64 w.winsize))

  unfoldable pub update_stats : ℕ → Window → Window
  update_stats element w =
      let mean = next_mean w element in
      record w {
        mean = if lt mean (decimal 1 3) then of_u64 0 else mean;
        periods_elapsed = add32 w.periods_elapsed 1;
      }

  -- The mean that `insert` returns is the new window's.
  unfoldable pub insert : ℕ → Window → Window
  unfolding update_stats
  insert element w = update_stats element (record w {
    popped = get_or w.winstat (slot w) (of_u64 0);
    winstat = set w.winstat (slot w) element;
  })

  -- `periods_elapsed` goes on.
  unfoldable pub flush : Window → Window
  flush w = record w {
    winstat = replicate (length w.winstat) (of_u64 0);
    mean = of_u64 0;
    trend = 0;
    offset = 0;
    popped = of_u64 0;
  }

-- The vector has `winsize` places, at least one.
pub record IsValid (w : Window) : Type 0 where
  pub length_eq : length w.winstat ≡ w.winsize
  pub positive : 0 < w.winsize
