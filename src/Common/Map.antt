-- ===== src/Common/Map.antt =====
-- `std::unordered_map` as an association list, over keys compared by an equivalence: the key type's
-- own `operator==`. The order of the list stands for the order of iteration.
pub mod Entries
use mathlib.Core.Path.{◌≡◌, refl, sym, ◌∙◌}
use mathlib.Core.Logic.{inl, inr}
use mathlib.Core.Bool.{Bool, true, false}
use mathlib.Core.Option.{Option, none, some}
use mathlib.Core.List.{List, [], ◌∷◌}
use native.Mathlib.Omega.{arith}
use Prim.Native.Nat.{◌≤◌}
use ec_gcm.Common.Tests.{if◌then◌else◌, Bool-cases}
use ec_gcm.Common.Lists.{length}

pub record Key {ℓ} (K : Type ℓ) : Type ℓ where
  pub beq : K → K → Bool
  pub beq_refl : (a : K) → beq a a ≡ true
  pub beq_sym : (a b : K) → beq a b ≡ true → beq b a ≡ true
  pub beq_trans : (a b c : K) → beq a b ≡ true → beq b c ≡ true → beq a c ≡ true

module _ {ℓ} {K : Type ℓ} ⦃key : Key K⦄ where
  open key use {beq}

  pub beq_congr : (a b c : K) → beq a b ≡ true → beq a c ≡ beq b c
  beq_congr a b c h =
      let ba : beq b a ≡ true = key.beq_sym a b h in
      elim (Bool-cases (beq a c)) [
        | inl e ↦ e ∙ sym (key.beq_trans b a c ba e)
        | inr e ↦ elim (Bool-cases (beq b c)) [
          | inl e' ↦ key.beq_trans a b c h e' ∙ sym e'
          | inr e' ↦ e ∙ sym e'
        ]
      ]

  pub beq_comm : (a b : K) → beq a b ≡ beq b a
  beq_comm a b = elim (Bool-cases (beq a b)) [
    | inl e ↦ e ∙ sym (key.beq_sym a b e)
    | inr e ↦ elim (Bool-cases (beq b a)) [
      | inl e' ↦ key.beq_sym b a e' ∙ sym e'
      | inr e' ↦ e ∙ sym e'
    ]
  ]

module _ {ℓ κ} {K : Type ℓ} {V : Type κ} ⦃key : Key K⦄ where
  open key use {beq}

  unfoldable pub find : K → List (K × V) → Option V
  find k [] = none
  find k ((j, v) ∷ m) = if beq j k then some v else find k m

  unfoldable pub contains : K → List (K × V) → Bool
  contains k [] = false
  contains k ((j, v) ∷ m) = if beq j k then true else contains k m

  -- `insert` and `emplace` leave an entry that is there as it is.
  unfoldable pub insert : K → V → List (K × V) → List (K × V)
  insert k v m = if contains k m then m else (k, v) ∷ m

  unfoldable pub erase : K → List (K × V) → List (K × V)
  erase k [] = []
  erase k ((j, v) ∷ m) = if beq j k then erase k m else (j, v) ∷ erase k m

  -- A write through the value of an entry that is there.
  unfoldable pub update : K → V → List (K × V) → List (K × V)
  update k v [] = []
  update k v ((j, w) ∷ m) = if beq j k then (j, v) ∷ update k v m else (j, w) ∷ update k v m

  pub contains-find : (k : K) (m : List (K × V)) → find k m ≡ none → contains k m ≡ false
  unfolding find contains
  contains-find k [] h = refl
  contains-find k ((j, v) ∷ m) h = ground (arith, contains-find k m)

  pub contains-find-some :
      (k : K) (v : V) (m : List (K × V)) → find k m ≡ some v → contains k m ≡ true
  unfolding find contains
  contains-find-some k v [] h = absurd (cc)
  contains-find-some k v ((j, w) ∷ m) h = ground (arith, contains-find-some k v m)

  pub find-insert :
      (k j : K) (v : V) (m : List (K × V))
      → find j (insert k v m)
        ≡ (if contains k m then find j m else if beq k j then some v else find j m)
  unfolding insert find
  find-insert k j v m = ground arith

  pub find-erase :
      (k j : K) (m : List (K × V)) → find j (erase k m) ≡ (if beq k j then none else find j m)
  unfolding find erase
  find-erase k j [] = ground arith
  find-erase k j ((i, v) ∷ m) =
      ground (arith, find-erase k j m, beq_congr i k j, beq_congr k j i, beq_comm i j, beq_comm i k)

  pub length-erase-le : (k : K) (m : List (K × V)) → length (erase k m) ≤ length m
  unfolding erase
  length-erase-le k [] = omega arith
  length-erase-le k ((j, v) ∷ m) = ground (arith, length-erase-le k m)

  pub contains_congr : (a b : K) (m : List (K × V)) → beq a b ≡ true → contains a m ≡ contains b m
  unfolding contains
  contains_congr a b [] h = refl
  contains_congr a b ((j, v) ∷ m) h =
      ground (arith, contains_congr a b m, beq_congr a b j, beq_comm j a, beq_comm j b)

  pub find_congr : (a b : K) (m : List (K × V)) → beq a b ≡ true → find a m ≡ find b m
  unfolding find
  find_congr a b [] h = refl
  find_congr a b ((j, v) ∷ m) h =
      ground (arith, find_congr a b m, beq_congr a b j, beq_comm j a, beq_comm j b)

  pub contains-insert :
      (k j : K) (v : V) (m : List (K × V))
      → contains j (insert k v m) ≡ (if beq k j then true else contains j m)
  unfolding insert contains
  contains-insert k j v m = ground (arith, contains_congr k j m)

  pub contains-update :
      (k j : K) (v : V) (m : List (K × V)) → contains j (update k v m) ≡ contains j m
  unfolding update contains
  contains-update k j v [] = refl
  contains-update k j v ((i, w) ∷ m) = ground (arith, contains-update k j v m)

  pub contains-erase :
      (k j : K) (m : List (K × V))
      → contains j (erase k m) ≡ (if beq k j then false else contains j m)
  unfolding erase contains
  contains-erase k j [] = ground arith
  contains-erase k j ((i, v) ∷ m) =
      ground
        (arith, contains-erase k j m, beq_congr i k j, beq_congr k j i, beq_comm i j, beq_comm i k)

  pub find-update :
      (k j : K) (v : V) (m : List (K × V))
      → find j (update k v m)
        ≡ (if beq k j then (if contains k m then some v else none) else find j m)
  unfolding update find contains
  find-update k j v [] = ground arith
  find-update k j v ((i, w) ∷ m) =
      ground
        (arith, find-update k j v m, beq_congr i k j, beq_congr k j i, beq_comm i j, beq_comm i k)

  -- No two entries have the same key.
  abbrev pub Distinct : List (K × V) → Type 0
  Distinct [] = Unit
  Distinct ((k, v) ∷ m) = (contains k m ≡ false) × Distinct m

  pub update-absent : (k : K) (v : V) (m : List (K × V)) → contains k m ≡ false → update k v m ≡ m
  unfolding update contains
  update-absent k v [] h = refl
  update-absent k v ((j, w) ∷ m) h = ground (arith, update-absent k v m)

  pub erase-absent : (k : K) (m : List (K × V)) → contains k m ≡ false → erase k m ≡ m
  unfolding erase contains
  erase-absent k [] h = refl
  erase-absent k ((j, w) ∷ m) h = ground (arith, erase-absent k m)

  pub insert-Distinct : (k : K) (v : V) (m : List (K × V)) → Distinct m → Distinct (insert k v m)
  unfolding insert
  insert-Distinct k v m h = ground arith

  pub update-Distinct : (k : K) (v : V) (m : List (K × V)) → Distinct m → Distinct (update k v m)
  unfolding update
  update-Distinct k v [] h = tt
  update-Distinct k v ((j, w) ∷ m) h =
      ground (arith, contains-update k j v m, update-Distinct k v m h.1)

  pub erase-Distinct : (k : K) (m : List (K × V)) → Distinct m → Distinct (erase k m)
  unfolding erase
  erase-Distinct k [] h = tt
  erase-Distinct k ((j, w) ∷ m) h = ground (arith, contains-erase k j m, erase-Distinct k m h.1)
