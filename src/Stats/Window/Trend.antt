-- ===== src/Stats/Window/Trend.antt =====
-- `update_trend` of stats/window/Window_impl.h, which is private and called nowhere. The loop reads
-- the vector at every index below `winsize`: all of it, for a valid window.
use ec_gcm.Common.{
  ℕ, ◌+◌, ◌*◌, ◌/◌, ◌%◌, ◌^◌, ◌<◌, ◌≡◌, ◌==◌, refl, arith, List, [], ◌∷◌, All, add64, sub64, mul64,
  if◌then◌else◌, if_cases, length,
}
use native.Mathlib.Nat.{mul_comm, div_self, zero-div}
use ec_gcm.Platform.{Double}
use ec_gcm.Stats.Window.{Window, IsValid}

-- The four sums, of type `uint64_t`.
pub record Sums : Type 0 where
  pub sum_x : ℕ
  pub sum_ind : ℕ
  pub sum_x_ind : ℕ
  pub sum_x2 : ℕ

module _ ⦃d : Double⦄ where
  open d use {of_u64, to_u64, sum, prod}

  -- `total += value`, in doubles and back.
  abbrev increased : ℕ → ℕ → ℕ
  increased total value = to_u64 (sum (of_u64 total) value)

  unfoldable pub add_samples : List ℕ → Sums → Sums
  add_samples [] s = s
  add_samples (x ∷ xs) s = add_samples xs (record {
    sum_x = increased s.sum_x x;
    sum_ind = add64 s.sum_ind 1;
    sum_x_ind = increased s.sum_x_ind (prod x (of_u64 1));
    sum_x2 = increased s.sum_x2 (prod x x);
  })

  -- `stored` is the conversion to `T`: none for `int64_t`, the low 32 bits for `uint32_t`.
  unfoldable pub update_trend : (ℕ → ℕ) → Window → Window
  update_trend stored w =
      let s =
        add_samples w.winstat (record { sum_x = 0; sum_ind = 0; sum_x_ind = 0; sum_x2 = 0 }) in
      let div = sub64 (mul64 w.winsize s.sum_x2) (mul64 s.sum_x s.sum_x) in
      let trend = stored (sub64 (mul64 w.winsize s.sum_x_ind) (mul64 s.sum_x s.sum_ind) / div) in
      if div == 0 then record w { trend = 0; offset = 1 } else record w {
        trend = trend;
        offset = stored (sub64 s.sum_ind (mul64 trend s.sum_x) / w.winsize);
      }

  add_samples-sum_ind :
      (xs : List ℕ) (s : Sums)
      → s.sum_ind + length xs < 2 ^ 64
      → (add_samples xs s).sum_ind ≡ s.sum_ind + length xs
  unfolding add_samples
  add_samples-sum_ind [] s h = omega arith
  add_samples-sum_ind (x ∷ xs) s h =
      let one : add64 s.sum_ind 1 ≡ s.sum_ind + 1 = ground arith in
      let next : Sums = record {
        sum_x = increased s.sum_x x;
        sum_ind = add64 s.sum_ind 1;
        sum_x_ind = increased s.sum_x_ind (prod x (of_u64 1));
        sum_x2 = increased s.sum_x2 (prod x x);
      } in
      let rest : (add_samples xs next).sum_ind ≡ add64 s.sum_ind 1 + length xs =
        add_samples-sum_ind xs next (omega arith) in
      omega arith

  -- The time of every sample is 1, so the two sums are one.
  add_samples-sum_x :
      (xs : List ℕ) (s : Sums)
      → All (λ x. prod x (of_u64 1) ≡ x) xs
      → s.sum_x_ind ≡ s.sum_x
      → (add_samples xs s).sum_x_ind ≡ (add_samples xs s).sum_x
  unfolding add_samples
  add_samples-sum_x [] s h e = e
  add_samples-sum_x (x ∷ xs) s (h, hs) e = add_samples-sum_x xs _ hs (rw h (rw e refl))

  no_rise : (n x : ℕ) → sub64 (mul64 n x) (mul64 x n) ≡ 0
  no_rise n x = rw (mul_comm n x) (let small : x * n % 2 ^ 64 < 2 ^ 64 = omega arith in omega arith)

  -- A valid window of less than `2 ^ 32` places, over samples that a product with 1 does not change,
  -- for a conversion that keeps 0 and 1: whatever the samples, `update_trend` sets the trend to 0 and
  -- the offset to 1, and changes nothing else.
  pub update_trend_flat :
      (stored : ℕ → ℕ) (w : Window)
      → stored 0 ≡ 0
      → stored 1 ≡ 1
      → IsValid w
      → w.winsize < 2 ^ 32
      → All (λ x. prod x (of_u64 1) ≡ x) w.winstat
      → update_trend stored w ≡ record w { trend = 0; offset = 1 }
  unfolding update_trend
  update_trend_flat stored w z o v b h =
      let start : Sums = record { sum_x = 0; sum_ind = 0; sum_x_ind = 0; sum_x2 = 0 } in
      let s = add_samples w.winstat start in
      let full = v.length_eq in
      let some_places = v.positive in
      let count : s.sum_ind ≡ w.winsize =
        let c : s.sum_ind ≡ 0 + length w.winstat =
          add_samples-sum_ind w.winstat start (omega arith) in
        omega arith in
      let alike : s.sum_x_ind ≡ s.sum_x = add_samples-sum_x w.winstat start h refl in
      let div = sub64 (mul64 w.winsize s.sum_x2) (mul64 s.sum_x s.sum_x) in
      let whole : sub64 w.winsize (mul64 0 s.sum_x) ≡ w.winsize = omega arith in
      if_cases (λ (r : Window). r ≡ record w { trend = 0; offset = 1 }) (div == 0) (λ _. refl)
        (λ _. rw alike (
          rw count (
            rw (no_rise w.winsize s.sum_x)
              (rw (zero-div div) (rw z (rw whole (rw (div_self some_places) (rw o refl))))))))
