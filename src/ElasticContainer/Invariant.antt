-- ===== src/ElasticContainer/Invariant.antt =====
-- The queues of a valid container hold live objects, each once and under its own id, and the
-- operations that change the queues keep it so.
use ec_gcm.Common.{
  ℕ, ◌+◌, ◌≡◌, ◌≢◌, ◌≤◌, refl, true, none, some, List, [], ◌∷◌, ◌++◌, arith, ◌==◌, All, All-append,
  All-map, Option-cases, Bool-cases, inl, inr, Option,
}
use ec_gcm.Common.Map.{
  find, insert, update, Distinct, insert-Distinct, update-Distinct, contains-find,
  contains-find-some, contains-update,
}
use ec_gcm.Common.Map.Entries.{All-insert, All-update, All-find}
use ec_gcm.Platform.{Net}
use ec_gcm.SubContainer.{ContainerId, SubContainer, same_container}
use ec_gcm.SubContainer.Identity.{
  container_key, same_container_trans, same_container_refl, same_container_sym,
}
use ec_gcm.ElasticContainer.{ElasticContainer, SubcontainerMap, init, write, store, enqueue}
use ec_gcm.ElasticContainer.Heap.{count, uses, count-append, uses-update, uses-insert}

module _ ⦃net : Net⦄ where
  -- The address holds a container with this id.
  abbrev pub Holds : (ℕ → Option SubContainer) → ContainerId → ℕ → Type 0
  Holds heap id p = (sc : SubContainer) × (heap p ≡ some sc) × (same_container sc.c_id id ≡ true)

  abbrev pub Entry : (ℕ → Option SubContainer) → ContainerId × List ℕ → Type 0
  Entry heap (id, q) = (q ≢ []) × All (Holds heap id) q

  pub record IsValid (ec : ElasticContainer) : Type 0 where
    pub distinct : Distinct ec.subcontainers
    pub entries : All (Entry ec.heap) ec.subcontainers
    pub once : (p : ℕ) → uses p ec.subcontainers ≤ 1
    pub unborn : (p : ℕ) → ec.next_sc ≤ p → ec.heap p ≡ none
    pub bounded : (p : ℕ) → ec.next_sc ≤ p → uses p ec.subcontainers ≡ 0

  pub init-IsValid : (ec_id : ℕ) → IsValid (init ec_id)
  unfolding init
  init-IsValid ec_id = record {
    distinct = tt;
    entries = tt;
    once = λ p. omega arith;
    unborn = λ p h. refl;
    bounded = λ p h. refl;
  }

  -- A write to an address that a queue does not hold is not seen through it.
  pub Holds-write :
      (heap : ℕ → Option SubContainer) (p : ℕ) (v : Option SubContainer) (id : ContainerId)
      (q : List ℕ)
      → count p q ≡ 0
      → All (Holds heap id) q
      → All (Holds (write heap p v) id) q
  Holds-write heap p v id [] h all = tt
  Holds-write heap p v id (x ∷ q) h ((sc, e, s), all) =
      ((sc, ground arith, s), Holds-write heap p v id q (ground arith) all)

  pub Entry-write :
      (heap : ℕ → Option SubContainer) (p : ℕ) (v : Option SubContainer) (m : SubcontainerMap)
      → uses p m ≡ 0
      → All (Entry heap) m
      → All (Entry (write heap p v)) m
  Entry-write heap p v [] h all = tt
  Entry-write heap p v ((id, q) ∷ m) h ((some_held, held), all) = (
    (some_held, Holds-write heap p v id q (omega arith) held),
    Entry-write heap p v m (omega arith) all,
  )

  pub enqueue-found :
      (id : ContainerId) (p : ℕ) (q : List ℕ) (m : SubcontainerMap)
      → find id m ≡ some q
      → enqueue id p m ≡ update id (q ++ p ∷ []) m
  unfolding insert
  enqueue-found id p q m e =
      ground (arith, contains-find-some id q m e, contains-update id id (q ++ p ∷ []) m)

  pub enqueue-missing :
      (id : ContainerId) (p : ℕ) (m : SubcontainerMap)
      → find id m ≡ none
      → enqueue id p m ≡ insert id (p ∷ []) m
  enqueue-missing id p m e = ground arith

  pub uses-enqueue :
      (r p : ℕ) (id : ContainerId) (m : SubcontainerMap)
      → Distinct m
      → uses r (enqueue id p m) ≡ uses r m + count r (p ∷ [])
  uses-enqueue r p id m d = elim (Option-cases (find id m)) [
    | inl e ↦
        rw (enqueue-missing id p m e)
          (omega (arith, uses-insert r id (p ∷ []) m (contains-find id m e)))
    | inr (q, e) ↦
        rw (enqueue-found id p q m e)
          (omega (arith, uses-update r id q (q ++ p ∷ []) m d e, count-append r q (p ∷ [])))
  ]

  pub enqueue-Distinct :
      (p : ℕ) (id : ContainerId) (m : SubcontainerMap) → Distinct m → Distinct (enqueue id p m)
  enqueue-Distinct p id m d = elim (Option-cases (find id m)) [
    | inl e ↦ rw (enqueue-missing id p m e) (insert-Distinct id (p ∷ []) m d)
    | inr (q, e) ↦ rw (enqueue-found id p q m e) (update-Distinct id (q ++ p ∷ []) m d)
  ]

  append-ne-nil : (q : List ℕ) (p : ℕ) → q ++ p ∷ [] ≢ []
  append-ne-nil [] p e = cc
  append-ne-nil (x ∷ q) p e = cc

  -- A queue's addresses hold containers of every id that is the same as its key.
  pub Holds-congr :
      (heap : ℕ → Option SubContainer) (a b : ContainerId) (q : List ℕ)
      → same_container a b ≡ true
      → All (Holds heap a) q
      → All (Holds heap b) q
  Holds-congr heap a b q h = All-map q λ p (sc, e, s). (sc, e, same_container_trans sc.c_id a b s h)

  pub enqueue-Entry :
      (heap : ℕ → Option SubContainer) (p : ℕ) (sc : SubContainer) (m : SubcontainerMap)
      → heap p ≡ some sc
      → All (Entry heap) m
      → All (Entry heap) (enqueue sc.c_id p m)
  enqueue-Entry heap p sc m live all = elim (Option-cases (find sc.c_id m)) [
    | inl e ↦ rw (enqueue-missing sc.c_id p m e) (
        All-insert (Entry heap) sc.c_id (p ∷ []) m
          ((λ n. cc), ((sc, live, same_container_refl sc.c_id), tt)) all)
    | inr (q, e) ↦
        let (j, s, (_, held)) = All-find (Entry heap) sc.c_id q m all e in
        rw (enqueue-found sc.c_id p q m e) (
          All-update (Entry heap) sc.c_id (q ++ p ∷ []) m
            (λ k t. (
              append-ne-nil q p,
              All-append (Holds heap k) q (p ∷ [])
                  (Holds-congr heap j k q
                    (same_container_trans j sc.c_id k s (same_container_sym k sc.c_id t)) held)
                  ((sc, live, same_container_sym k sc.c_id t), tt),
            ))
            all)
  ]

  -- Only the queues, the objects and the next address count.
  pub IsValid-congr :
      (ec ec' : ElasticContainer)
      → ec'.subcontainers ≡ ec.subcontainers
      → ec'.heap ≡ ec.heap
      → ec'.next_sc ≡ ec.next_sc
      → IsValid ec
      → IsValid ec'
  IsValid-congr ec ec' q h n v = record {
    distinct = rw q v.distinct;
    entries = rw (q, h) v.entries;
    once = rw q v.once;
    unborn = rw (n, h) v.unborn;
    bounded = rw (n, q) v.bounded;
  }

  -- A write through an address that is held, of a container with the same id, keeps the
  -- application valid.
  pub store-IsValid :
      (p : ℕ) (old new : SubContainer) (ec : ElasticContainer)
      → ec.heap p ≡ some old
      → same_container new.c_id old.c_id ≡ true
      → IsValid ec
      → IsValid (store p new ec)
  store-IsValid p old new ec e same v = record {
    distinct = v.distinct;
    entries = entries_kept ec.subcontainers v.entries;
    once = v.once;
    unborn = λ r h. ground (arith, v.unborn r h);
    bounded = v.bounded;
  }
    where
      held_kept :
          (id : ContainerId) (q : List ℕ)
          → All (Holds ec.heap id) q
          → All (Holds (write ec.heap p (some new)) id) q
      held_kept id [] h = tt
      held_kept id (x ∷ q) ((sc, live, s), h) = (
        elim (Bool-cases (p == x)) [
          | inl hit ↦
              let here : old ≡ sc = ground arith in
              (new, rw hit, same_container_trans new.c_id old.c_id id same (rw here s))
          | inr miss ↦ (sc, rw miss live, s)
        ],
        held_kept id q h,
      )

      entries_kept :
          (m : SubcontainerMap) → All (Entry ec.heap) m → All (Entry (write ec.heap p (some new))) m
      entries_kept [] h = tt
      entries_kept ((id, q) ∷ m) ((n, held), h) = ((n, held_kept id q held), entries_kept m h)
