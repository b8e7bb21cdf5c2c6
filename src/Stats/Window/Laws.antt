-- ===== src/Stats/Window/Laws.antt =====
-- The ring of Window_impl.h: no access leaves the vector, and what a flush does to the mean.
use ec_gcm.Common.{
  ℕ, ◌<◌, ◌≡◌, ◌≢◌, refl, ap, ◌∙◌, arith, zero, suc, List, [], ◌∷◌, length, get_or, set, length-set,
  length-replicate, replicate, if◌then◌else◌,
}
use ec_gcm.Platform.{Double}
use ec_gcm.Stats.Window.{Window, IsValid, init, insert, flush, slot}

pub slot-lt : (w : Window) → IsValid w → slot w < length w.winstat
slot-lt w v = omega (arith, v.length_eq, v.positive)

module _ {ℓ} {A : Type ℓ} where
  get_or-set_self : (xs : List A) (i : ℕ) (v e : A) → i < length xs → get_or (set xs i v) i e ≡ v
  get_or-set_self [] i v e h = elim h [ ]
  get_or-set_self (x ∷ xs) zero v e h = refl
  get_or-set_self (x ∷ xs) (suc i) v e h = get_or-set_self xs i v e (omega arith)

  get_or-set_ne :
      (xs : List A) (i j : ℕ) (v e : A) → i ≢ j → get_or (set xs i v) j e ≡ get_or xs j e
  get_or-set_ne [] i j v e h = refl
  get_or-set_ne (x ∷ xs) zero zero v e h = absurd (h refl)
  get_or-set_ne (x ∷ xs) zero (suc j) v e h = refl
  get_or-set_ne (x ∷ xs) (suc i) zero v e h = refl
  get_or-set_ne (x ∷ xs) (suc i) (suc j) v e h = get_or-set_ne xs i j v e (λ p. h (ap suc p))

module _ ⦃d : Double⦄ where
  open d use {of_u64, quot, diff, sum, lt, decimal}

  pub init-IsValid : (n : ℕ) → 0 < n → IsValid (init n)
  unfolding init
  init-IsValid n h = record { length_eq = length-replicate n _; positive = h }

  pub insert-IsValid : (element : ℕ) (w : Window) → IsValid w → IsValid (insert element w)
  unfolding insert
  insert-IsValid element w v = record {
    length_eq = length-set w.winstat (slot w) element ∙ v.length_eq;
    positive = v.positive;
  }

  pub flush-IsValid : (w : Window) → IsValid w → IsValid (flush w)
  unfolding flush
  flush-IsValid w v = record {
    length_eq = length-replicate _ _ ∙ v.length_eq;
    positive = v.positive;
  }

  -- A period writes its own slot of a valid window, which lies inside the vector, and no other;
  -- the value that the slot held before is the one popped.
  pub insert_ring :
      (element : ℕ) (w : Window) (i e : ℕ)
      → IsValid w
      → let next = insert element w in
        (slot w < length w.winstat)
        × (get_or next.winstat (slot w) e ≡ element)
        × (next.popped ≡ get_or w.winstat (slot w) (of_u64 0))
        × (slot w ≢ i → get_or next.winstat i e ≡ get_or w.winstat i e)
  unfolding insert
  insert_ring element w i e v = (
    slot-lt w v,
    get_or-set_self w.winstat (slot w) element e (slot-lt w v),
    refl,
    get_or-set_ne w.winstat (slot w) i element e,
  )

  get_or-replicate : (n i x : ℕ) → get_or (replicate n x) i x ≡ x
  get_or-replicate zero i x = refl
  get_or-replicate (suc n) zero x = refl
  get_or-replicate (suc n) (suc i) x = get_or-replicate n i x

  -- After a flush that comes later than the first `winsize` periods, the next mean is the element
  -- less nothing, over `winsize`, added to nothing: the divisor does not start again at 1.
  pub insert-flush_mean :
      (element : ℕ) (w : Window)
      → w.winsize < w.periods_elapsed
      → let share = sum (of_u64 0) (quot (diff element (of_u64 0)) (of_u64 w.winsize)) in
        (insert element (flush w)).mean ≡ (if lt share (decimal 1 3) then of_u64 0 else share)
  unfolding insert flush
  insert-flush_mean element w h =
      ground (arith, get_or-replicate (length w.winstat) (slot w) (of_u64 0))
