-- ===== src/ElasticContainer/Safety.antt =====
-- The look-ups of a valid application do not follow a null or dangling pointer.
use ec_gcm.Common.{
  ℕ, ◌≡◌, refl, some, List, [], ◌∷◌, front?, back?, arith, Option-cases, inl, inr, Safe,
}
use ec_gcm.Common.Map.{find}
use ec_gcm.Common.Map.Entries.{All-find}
use ec_gcm.Platform.{Net}
use ec_gcm.SubContainer.{ContainerId, SubContainer}
use ec_gcm.SubContainer.Identity.{container_key}
use ec_gcm.ElasticContainer.{ElasticContainer, get_subcontainer_front, get_sc_for_update_back}
use ec_gcm.ElasticContainer.Invariant.{Entry, IsValid}

module _ ⦃net : Net⦄ where
  -- The address holds an object.
  abbrev pub Live : ElasticContainer → ℕ → Type 0
  Live ec p = (sc : SubContainer) × (ec.heap p ≡ some sc)

  pub back-Live :
      (ec : ElasticContainer) (id : ContainerId) (q : List ℕ)
      → Entry ec.heap (id, q)
      → (p : ℕ) × (back? q ≡ some p) × Live ec p
  back-Live ec id [] (n, h) = absurd (n refl)
  back-Live ec id (p ∷ []) (n, ((sc, e, s), h)) = (p, refl, (sc, e))
  back-Live ec id (p ∷ r ∷ q) (n, (k, h)) =
      let (x, e, l) = back-Live ec id (r ∷ q) ((λ w. cc), h) in (x, ground (arith, e), l)

  front-Live :
      (ec : ElasticContainer) (id : ContainerId) (q : List ℕ)
      → Entry ec.heap (id, q)
      → (p : ℕ) × (front? q ≡ some p) × Live ec p
  front-Live ec id [] (n, h) = absurd (n refl)
  front-Live ec id (p ∷ q) (n, ((sc, e, s), h)) = (p, refl, (sc, e))

  pub get_sc_for_update_back-Safe :
      (id : ContainerId) (ec : ElasticContainer)
      → IsValid ec
      → Safe (Live ec) (get_sc_for_update_back id ec)
  unfolding get_sc_for_update_back
  get_sc_for_update_back-Safe id ec v = elim (Option-cases (find id ec.subcontainers)) [
    | inl e ↦ rw (e, get_sc_for_update_back) tt
    | inr (q, e) ↦
        let (j, s, held) = All-find (Entry ec.heap) id q ec.subcontainers v.entries e in
        let (p, back, live) = back-Live ec j q held in rw (e, get_sc_for_update_back) (rw back live)
  ]

  pub get_subcontainer_front-Safe :
      (id : ContainerId) (ec : ElasticContainer)
      → IsValid ec
      → Safe (Live ec) (get_subcontainer_front id ec)
  unfolding get_subcontainer_front
  get_subcontainer_front-Safe id ec v = elim (Option-cases (find id ec.subcontainers)) [
    | inl e ↦ rw (e, get_subcontainer_front) tt
    | inr (q, e) ↦
        let (j, s, held) = All-find (Entry ec.heap) id q ec.subcontainers v.entries e in
        let (p, front, live) = front-Live ec j q held in
        rw (e, get_subcontainer_front) (rw front live)
  ]
