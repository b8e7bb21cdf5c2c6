-- ===== src/ElasticContainer/Deletion.antt =====
-- `ec_delete_from_subcontainers_map` on a valid application: it keeps it valid, and takes the front
-- of the queue of one id.
use ec_gcm.Common.{
  ℕ, ◌≡◌, refl, sym, ap, ◌∙◌, true, not, none, some, List, [], ◌∷◌, arith, if◌then◌else◌,
  Option-cases, inl, inr, Option,
}
use ec_gcm.Common.Map.{
  find, contains, update, update-Distinct, erase-Distinct, contains-find, contains-find-some,
  find-update, find-erase,
}
use ec_gcm.Common.Map.Entries.{All-erase, All-update, All-find}
use ec_gcm.Platform.{Net}
use ec_gcm.SubContainer.{ContainerId, SubContainer, same_container}
use ec_gcm.SubContainer.Identity.{container_key, same_container_sym, same_container_trans}
use ec_gcm.ElasticContainer.{ElasticContainer, write, drop_oldest, ec_delete_from_subcontainers_map}
use ec_gcm.ElasticContainer.Heap.{uses, uses-update, uses-erase}
use ec_gcm.ElasticContainer.Invariant.{Entry, IsValid, Entry-write, Holds-congr}
use ec_gcm.ElasticContainer.Lookup.{queue_of, find_congr}

module _ ⦃net : Net⦄ where
  pub queue_of-missing :
      (id : ContainerId) (ec : ElasticContainer)
      → find id ec.subcontainers ≡ none
      → queue_of id ec ≡ []
  queue_of-missing id ec e = ground arith

  pub queue_of-found :
      (id : ContainerId) (q : List ℕ) (ec : ElasticContainer)
      → find id ec.subcontainers ≡ some q
      → queue_of id ec ≡ q
  queue_of-found id q ec e = ground arith

  abbrev pub behind_front : List ℕ → List ℕ
  behind_front [] = []
  behind_front (p ∷ q) = q

  -- The objects after a deletion from the queue: its front is freed unless it is the last.
  abbrev pub freed : List ℕ → (ℕ → Option SubContainer) → ℕ → Option SubContainer
  freed (p ∷ q ∷ qs) heap = write heap p none
  freed _ heap = heap

  drop_oldest-IsValid :
      (id : ContainerId) (q : List ℕ) (ec : ElasticContainer)
      → find id ec.subcontainers ≡ some q
      → IsValid ec
      → IsValid (drop_oldest id q ec)
  drop_oldest-IsValid id (p ∷ p' ∷ q) ec e v =
      let m = ec.subcontainers in
      let (j, s, (_, held)) = All-find (Entry ec.heap) id (p ∷ p' ∷ q) m v.entries e in
      let left : uses p (update id (p' ∷ q) m) ≡ 0 =
        ground (arith, uses-update p id (p ∷ p' ∷ q) (p' ∷ q) m v.distinct e, v.once p) in
      record {
        distinct = update-Distinct id (p' ∷ q) m v.distinct;
        entries = Entry-write ec.heap p none (update id (p' ∷ q) m) left (
            All-update (Entry ec.heap) id (p' ∷ q) m
              (λ k t. (
                (λ n. cc),
                Holds-congr ec.heap j k (p' ∷ q)
                    (same_container_trans j id k s (same_container_sym k id t)) held.1,
              ))
              v.entries);
        once = λ r. ground (arith, uses-update r id (p ∷ p' ∷ q) (p' ∷ q) m v.distinct e, v.once r);
        unborn = λ r h. ground (arith, v.unborn r h);
        bounded = λ r h.
            ground (arith, uses-update r id (p ∷ p' ∷ q) (p' ∷ q) m v.distinct e, v.bounded r h);
      }
  drop_oldest-IsValid id q ec e v =
      let m = ec.subcontainers in
      record {
        distinct = erase-Distinct id m v.distinct;
        entries = All-erase (Entry ec.heap) id m v.entries;
        once = λ r. omega (arith, uses-erase r id q m v.distinct e, v.once r);
        unborn = v.unborn;
        bounded = λ r h. omega (arith, uses-erase r id q m v.distinct e, v.bounded r h);
      }

  queue_of-drop_oldest :
      (id j : ContainerId) (q : List ℕ) (ec : ElasticContainer)
      → find id ec.subcontainers ≡ some q
      → queue_of j (drop_oldest id q ec)
        ≡ (if same_container id j then behind_front q else queue_of j ec)
  queue_of-drop_oldest id j (p ∷ p' ∷ q) ec e = ground (
    arith,
    find-update id j (p' ∷ q) ec.subcontainers,
    contains-find-some id (p ∷ p' ∷ q) ec.subcontainers e,
  )
  queue_of-drop_oldest id j (p ∷ []) ec e = ground (arith, find-erase id j ec.subcontainers)
  queue_of-drop_oldest id j [] ec e = ground (arith, find-erase id j ec.subcontainers)

  heap-drop_oldest :
      (id : ContainerId) (q : List ℕ) (ec : ElasticContainer)
      → (drop_oldest id q ec).heap ≡ freed q ec.heap
  heap-drop_oldest id (p ∷ p' ∷ q) ec = refl
  heap-drop_oldest id _ ec = refl

  -- A deletion for a known id takes the front of its queue, and forgets the id with the last; all
  -- other queues stay, and the application stays valid. The front is freed unless it is the last
  -- of its queue: then the object stays allocated. A deletion for an unknown id changes nothing
  -- and reports a failure.
  pub delete_dequeues :
      (id : ContainerId) (ec : ElasticContainer)
      → IsValid ec
      → let (new, failed) = ec_delete_from_subcontainers_map id ec in
        IsValid new
        × ((j : ContainerId)
            → queue_of j new
              ≡ (if same_container id j then behind_front (queue_of j ec) else queue_of j ec))
        × (new.heap ≡ freed (queue_of id ec) ec.heap)
        × (failed ≡ not (contains id ec.subcontainers))
        × (failed ≡ true → new ≡ ec)
  unfolding ec_delete_from_subcontainers_map
  delete_dequeues id ec v = elim (Option-cases (find id ec.subcontainers)) [
    | inl e ↦
        rw (e, ec_delete_from_subcontainers_map)
          (
            v,
            (λ j. ground (arith, find_congr id j ec.subcontainers)),
            ap (λ q. freed q ec.heap) (sym (queue_of-missing id ec e)),
            ground (arith, contains-find id ec.subcontainers e),
            (λ _. refl),
          )
    | inr (q, e) ↦
        rw (e, ec_delete_from_subcontainers_map)
          (
            drop_oldest-IsValid id q ec e v,
            (λ j.
                ground (arith, queue_of-drop_oldest id j q ec e, find_congr id j ec.subcontainers)),
            heap-drop_oldest id q ec ∙ ap (λ r. freed r ec.heap) (sym (queue_of-found id q ec e)),
            ground (arith, contains-find-some id q ec.subcontainers e),
            (λ n. cc),
          )
  ]
