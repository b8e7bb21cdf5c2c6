-- ===== src/Common/Map/Entries.antt =====
-- Predicates on every entry of a map.
use ec_gcm.Common.Tests.{Bool-cases}
use ec_gcm.Common.Lists.{All, All-map}
use mathlib.Core.Path.{◌≡◌, ◌∙◌, refl, subst}
use mathlib.Core.Bool.{true}
use mathlib.Core.Logic.{inl, inr}
use mathlib.Core.Option.{some}
use mathlib.Core.List.{List, [], ◌∷◌}
use native.Mathlib.Omega.{arith}
use ec_gcm.Common.Map.{
  Key, find, contains, insert, erase, update, Distinct, contains_congr, contains-find-some,
}

module _ {ℓ κ μ} {K : Type ℓ} {V : Type κ} ⦃key : Key K⦄ (P : K × V → Type μ) where
  pub All-insert : (k : K) (v : V) (m : List (K × V)) → P (k, v) → All P m → All P (insert k v m)
  unfolding insert
  All-insert k v m p h = elim (Bool-cases (contains k m)) [ inl e ↦ rw e h | inr e ↦ rw e (p, h) ]

  pub All-erase : (k : K) (m : List (K × V)) → All P m → All P (erase k m)
  unfolding erase
  All-erase k [] h = tt
  All-erase k ((j, v) ∷ m) h = elim (Bool-cases (key.beq j k)) [
    | inl e ↦ rw e (All-erase k m h.1)
    | inr e ↦ rw e (h.0, All-erase k m h.1)
  ]

  pub All-update :
      (k : K) (v : V) (m : List (K × V))
      → ((j : K) → key.beq j k ≡ true → P (j, v))
      → All P m
      → All P (update k v m)
  unfolding update
  All-update k v [] p h = tt
  All-update k v ((j, w) ∷ m) p h = elim (Bool-cases (key.beq j k)) [
    | inl e ↦ rw e (p j e, All-update k v m p h.1)
    | inr e ↦ rw e (h.0, All-update k v m p h.1)
  ]

  pub All-find :
      (k : K) (v : V) (m : List (K × V))
      → All P m
      → find k m ≡ some v
      → (j : K) × (key.beq j k ≡ true) × P (j, v)
  unfolding find
  All-find k v [] h e = absurd (cc)
  All-find k v ((j, w) ∷ m) h e = elim (Bool-cases (key.beq j k)) [
    | inl t ↦ let same : w ≡ v = ground arith in (j, t, subst (λ x. P (j, x)) same h.0)
    | inr f ↦ All-find k v m h.1 (ground arith)
  ]

module _ {ℓ κ} {K : Type ℓ} {V : Type κ} ⦃key : Key K⦄ where
  -- Each entry of a map without double keys is found under its key.
  pub Distinct-find : (m : List (K × V)) → Distinct m → All (λ (e : K × V). find e.0 m ≡ some e.1) m
  unfolding find
  Distinct-find [] d = tt
  Distinct-find ((j, v) ∷ m) (absent, d) = (
    rw (key.beq_refl j) refl,
    All-map m
        (λ (k, w) e. elim (Bool-cases (key.beq j k)) [
          | inl same ↦
              let held : contains j m ≡ true =
                contains_congr j k m same ∙ contains-find-some k w m e in
              absurd (cc)
          | inr other ↦ rw other e
        ])
        (Distinct-find m d),
  )
