-- ===== src/ElasticContainer/Lookup.antt =====
-- `create_new_sc` and `insert_sc` on a valid application: they keep it valid, and append to the
-- queue of one id.
use ec_gcm.Common.{
  ℕ, suc, ◌≡◌, refl, true, none, some, List, [], ◌∷◌, ◌++◌, arith, if◌then◌else◌, ◌==◌,
  Option-cases, inl, inr, ok, back?-append,
}
use ec_gcm.Common.Map.{
  find, contains-find, contains-find-some, find-insert, find-update, beq_congr, beq_comm,
}
use ec_gcm.Platform.{Net}
use ec_gcm.SubContainer.{ContainerId, SubContainer, same_container}
use ec_gcm.SubContainer.Identity.{container_key, same_container_refl}
use ec_gcm.ElasticContainer.{
  ElasticContainer, SubcontainerMap, write, create_new_sc, enqueue, insert_sc,
  get_sc_for_update_back,
}
use ec_gcm.ElasticContainer.Invariant.{
  IsValid, Entry-write, enqueue-found, enqueue-missing, uses-enqueue, enqueue-Distinct,
  enqueue-Entry,
}

module _ ⦃net : Net⦄ where
  -- The queue of an id, empty where the container is not known.
  abbrev pub queue_of : ContainerId → ElasticContainer → List ℕ
  queue_of id ec = elim (find id ec.subcontainers) [ none ↦ [] | some q ↦ q ]

  -- The state after `create_new_sc` and `insert_sc`.
  abbrev pub added : SubContainer → ElasticContainer → ElasticContainer
  added sc ec = record ec {
    subcontainers = enqueue sc.c_id ec.next_sc ec.subcontainers;
    heap = write ec.heap ec.next_sc (some sc);
    next_sc = suc ec.next_sc;
  }

  pub insert_sc-create_new_sc :
      (sc : SubContainer) (ec : ElasticContainer)
      → (let (p, ec1) = create_new_sc sc ec in insert_sc p ec1) ≡ ok (added sc ec)
  unfolding create_new_sc insert_sc
  insert_sc-create_new_sc sc ec = ground arith

  pub added-IsValid :
      (sc : SubContainer) (ec : ElasticContainer) → IsValid ec → IsValid (added sc ec)
  added-IsValid sc ec v = record {
    distinct = enqueue-Distinct ec.next_sc sc.c_id ec.subcontainers v.distinct;
    entries =
        enqueue-Entry (write ec.heap ec.next_sc (some sc)) ec.next_sc sc ec.subcontainers
          (ground arith)
          (Entry-write ec.heap ec.next_sc (some sc) ec.subcontainers
            (v.bounded ec.next_sc (omega arith)) v.entries);
    once = λ p. ground (
      arith,
      uses-enqueue p ec.next_sc sc.c_id ec.subcontainers v.distinct,
      v.once p,
      v.bounded ec.next_sc,
    );
    unborn = λ p h. ground (arith, v.unborn p);
    bounded = λ p h.
        ground (arith, uses-enqueue p ec.next_sc sc.c_id ec.subcontainers v.distinct, v.bounded p);
  }

  pub find-enqueue :
      (p : ℕ) (id j : ContainerId) (m : SubcontainerMap)
      → find j (enqueue id p m) ≡ (
          if same_container id j
          then some ((elim (find id m) [ none ↦ [] | some q ↦ q ]) ++ p ∷ [])
          else find j m)
  find-enqueue p id j m = elim (Option-cases (find id m)) [
    | inl e ↦
        rw (enqueue-missing id p m e)
          (ground (arith, find-insert id j (p ∷ []) m, contains-find id m e))
    | inr (q, e) ↦
        rw (enqueue-found id p q m e)
          (ground (arith, find-update id j (q ++ p ∷ []) m, contains-find-some id q m e))
  ]

  pub find_congr :
      (a b : ContainerId) (m : SubcontainerMap) → same_container a b ≡ true → find a m ≡ find b m
  unfolding find
  find_congr a b [] h = refl
  find_congr a b ((k, q) ∷ m) h =
      ground (arith, find_congr a b m h, beq_congr a b k, beq_comm k a, beq_comm k b)

  -- A new container of a valid application is appended to the queue of its id: all other queues and
  -- objects stay as they are, the application stays valid, and the new object is the one that a
  -- look-up for update finds.
  pub insert_sc_appends :
      (sc : SubContainer) (ec : ElasticContainer)
      → IsValid ec
      → (new : ElasticContainer) × ((let (p, ec1) = create_new_sc sc ec in insert_sc p ec1)
          ≡ ok new)
        × IsValid new
        × ((j : ContainerId)
            → queue_of j new ≡ (
                if same_container sc.c_id j
                then queue_of j ec ++ ec.next_sc ∷ []
                else queue_of j ec))
        × ((p : ℕ) → new.heap p ≡ (if ec.next_sc == p then some sc else ec.heap p))
        × (get_sc_for_update_back sc.c_id new ≡ ok ec.next_sc)
  unfolding get_sc_for_update_back
  insert_sc_appends sc ec v = (
    added sc ec,
    insert_sc-create_new_sc sc ec,
    added-IsValid sc ec v,
    (λ j. ground (
      arith,
      find-enqueue ec.next_sc sc.c_id j ec.subcontainers,
      find_congr sc.c_id j ec.subcontainers,
    )),
    (λ p. refl),
    ground (
      arith,
      find-enqueue ec.next_sc sc.c_id sc.c_id ec.subcontainers,
      same_container_refl sc.c_id,
      back?-append (queue_of sc.c_id ec) ec.next_sc,
    ),
  )
