-- ===== src/ElasticContainer/Heap.antt =====
-- How often an address stands in the queues, and what each map operation does to that number.
use ec_gcm.Common.{
  ℕ, ◌+◌, ◌≡◌, ◌≤◌, sym, ◌∙◌, false, some, List, [], ◌∷◌, ◌++◌, arith, if◌then◌else◌, ◌==◌,
  Bool-cases, inl, inr,
}
use ec_gcm.Common.Map.{
  Key, find, contains, insert, erase, update, Distinct, contains_congr, update-absent, erase-absent,
}

abbrev pub count : ℕ → List ℕ → ℕ
count p [] = 0
count p (q ∷ qs) = (if q == p then 1 else 0) + count p qs

pub count-append : (p : ℕ) (xs ys : List ℕ) → count p (xs ++ ys) ≡ count p xs + count p ys
count-append p [] ys = omega arith
count-append p (x ∷ xs) ys = omega (arith, count-append p xs ys)

-- The number of places at which the queues hold the address.
abbrev pub uses {ℓ} : {K : Type ℓ} → ℕ → List (K × List ℕ) → ℕ
uses p [] = 0
uses p ((id, q) ∷ m) = count p q + uses p m

module _ {ℓ} {K : Type ℓ} ⦃key : Key K⦄ where
  -- Writing another queue over an entry moves the number by the difference of the two.
  pub uses-update :
      (p : ℕ) (k : K) (old new : List ℕ) (m : List (K × List ℕ))
      → Distinct m
      → find k m ≡ some old
      → uses p (update k new m) + count p old ≡ uses p m + count p new
  unfolding update find
  uses-update p k old new [] d h = absurd (cc)
  uses-update p k old new ((j, q) ∷ m) d h = elim (Bool-cases (key.beq j k)) [
    | inl e ↦
        let absent : contains k m ≡ false = sym (contains_congr j k m e) ∙ d.0 in
        ground (arith, update-absent k new m absent)
    | inr e ↦ ground (arith, uses-update p k old new m d.1)
  ]

  pub uses-erase :
      (p : ℕ) (k : K) (old : List ℕ) (m : List (K × List ℕ))
      → Distinct m
      → find k m ≡ some old
      → uses p (erase k m) + count p old ≡ uses p m
  unfolding erase find
  uses-erase p k old [] d h = absurd (cc)
  uses-erase p k old ((j, q) ∷ m) d h = elim (Bool-cases (key.beq j k)) [
    | inl e ↦
        let absent : contains k m ≡ false = sym (contains_congr j k m e) ∙ d.0 in
        ground (arith, erase-absent k m absent)
    | inr e ↦ ground (arith, uses-erase p k old m d.1)
  ]

  pub uses-insert :
      (p : ℕ) (k : K) (q : List ℕ) (m : List (K × List ℕ))
      → contains k m ≡ false
      → uses p (insert k q m) ≡ count p q + uses p m
  unfolding insert
  uses-insert p k q m h = ground arith

  -- `find` reads one of the queues that are counted.
  pub count-le-uses :
      (p : ℕ) (k : K) (q : List ℕ) (m : List (K × List ℕ))
      → find k m ≡ some q
      → count p q ≤ uses p m
  unfolding find
  count-le-uses p k q [] h = absurd (cc)
  count-le-uses p k q ((j, r) ∷ m) h = ground (arith, count-le-uses p k q m)
