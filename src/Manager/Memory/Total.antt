-- ===== src/Manager/Memory/Total.antt =====
-- What `handle_reclaim_memory` takes from all the containers.
use ec_gcm.Common.{
  ℕ, ◌+◌, ◌^◌, ◌≡◌, ◌∙◌, sym, refl, ◌≤◌, ◌<◌, ◌==◌, arith, Bool, true, false, some, List, [], ◌∷◌,
  All, add64, if_cases, if◌then◌else◌, Outcome, ok, Returns, >>=-Returns, Returns-map, Bool-cases,
  inl, inr,
}
use mathlib.Core.Path.{subst}
use ec_gcm.Platform.{Net, World}
use ec_gcm.SubContainer.{ContainerId, SubContainer}
use ec_gcm.SubContainer.Identity.{container_key}
use ec_gcm.ElasticContainer.{ElasticContainer, SubcontainerMap}
use ec_gcm.ElasticContainer.Heap.{uses}
use ec_gcm.ElasticContainer.Invariant.{IsValid}
use ec_gcm.Manager.Memory.{reclaim, reclaim_all, handle_reclaim_memory}
use ec_gcm.Manager.Memory.Shrink.{
  IsWithin, IsWithin-IsReached, Heap, pages_of, limit_at, limits, count-back, unheld,
  held_elsewhere, IsReached, Shrinks, unchanged, reclaim-Shrinks,
}

-- What the whole loop leaves, for the client on a connection.
abbrev pub IsConserved : ℕ → ElasticContainer → ElasticContainer × ℕ → Type 0
IsConserved fd ec (after, pages) =
    (heap : Heap) × (after ≡ record ec { heap = heap })
    × ((p : ℕ) (sc : SubContainer) → ec.heap p ≡ some sc → (sc.fd == fd) ≡ true → heap p ≡ some sc)
    × (limits heap ec.subcontainers + pages ≤ limits ec.heap ec.subcontainers)

module _ ⦃net : Net⦄ (world : World) where
  -- The container of one entry, where an address that the entry does not hold is written.
  moved :
      (ec : ElasticContainer) (heap : Heap) (entry : ContainerId × List ℕ)
      → (w : IsReached world ec entry) → heap w.address ≡ ec.heap w.address
      → IsReached world (record ec { heap = heap }) entry
  moved ec heap entry w h = record {
    address = w.address;
    container = w.container;
    client = w.client;
    last = w.last;
    stored = h ∙ w.stored;
    found = w.found;
    known = w.known;
    limit_lt = w.limit_lt;
    usage_le = w.usage_le;
  }

  -- Entries that do not hold the address of a step do not see it.
  others-IsReached :
      (ec : ElasticContainer) (heap : Heap) (p : ℕ) (m : SubcontainerMap)
      → ((q : ℕ) → (p == q) ≡ false → heap q ≡ ec.heap q)
      → uses p m ≡ 0
      → All (IsReached world ec) m
      → All (IsReached world (record ec { heap = heap })) m
  others-IsReached ec heap p [] f h ws = tt
  others-IsReached ec heap p ((id, q) ∷ m) f h (w, ws) = (
    moved ec heap (id, q) w (f w.address (unheld p w.address q w.last (omega (arith, h)))),
    others-IsReached ec heap p m f (omega (arith, h)) ws,
  )

  limits-others :
      (ec : ElasticContainer) (heap : Heap) (p : ℕ) (m : SubcontainerMap)
      → ((q : ℕ) → (p == q) ≡ false → heap q ≡ ec.heap q)
      → uses p m ≡ 0
      → All (IsReached world ec) m
      → limits heap m ≡ limits ec.heap m
  limits-others ec heap p [] f h ws = refl
  limits-others ec heap p ((id, q) ∷ m) f h (w, ws) =
      let here : heap w.address ≡ ec.heap w.address =
        f w.address (unheld p w.address q w.last (omega (arith, h))) in
      let there : limits heap m ≡ limits ec.heap m =
        limits-others ec heap p m f (omega (arith, h)) ws in
      rw (w.last) (rw here (rw there refl))

  -- The limits of the entries with the pages reported are at most what they were, and only
  -- containers of the entries that are not skipped change.
  pub record Conserves (skip : SubContainer → Bool) (ec : ElasticContainer) (m : SubcontainerMap)
      (total : ℕ) (r : ElasticContainer × ℕ) : Type 0 where
    pub heap : Heap
    pub same : r.0 ≡ record ec { heap = heap }
    pub elsewhere : (p : ℕ) → uses p m ≡ 0 → heap p ≡ ec.heap p
    pub skipped :
        (p : ℕ) (sc : SubContainer) → ec.heap p ≡ some sc → skip sc ≡ true → heap p ≡ some sc
    pub kept : limits heap m + r.1 ≤ total + limits ec.heap m

  -- The rest of the loop, after the container of the first entry has given `pages`.
  conserve_more :
      (skip : SubContainer → Bool) (ec : ElasticContainer) (id : ContainerId) (q : List ℕ)
      (m : SubcontainerMap) (total : ℕ) (w : IsReached world ec (id, q))
      (one : ElasticContainer × ℕ) (s : Shrinks world ec w.address one)
      → ((p : ℕ) (sc : SubContainer) → ec.heap p ≡ some sc → skip sc ≡ true → s.heap p ≡ some sc)
      → All (IsReached world ec) m
      → uses w.address m ≡ 0
      → (r : ElasticContainer × ℕ)
      → Conserves skip (record ec { heap = s.heap }) m (total + one.1) r
      → Conserves skip ec ((id, q) ∷ m) total r
  conserve_more skip ec id q m total w one s k ws u r c =
      let before : limits s.heap m ≡ limits ec.heap m =
        limits-others ec s.heap w.address m s.elsewhere u ws in
      let after : c.heap w.address ≡ s.heap w.address = c.elsewhere w.address u in
      let gave : pages_of (s.heap w.address) + one.1 ≤ pages_of (ec.heap w.address) = s.kept in
      let rest : limits c.heap m + r.1 ≤ total + one.1 + limits s.heap m = c.kept in
      let sum : pages_of (c.heap w.address) + limits c.heap m + r.1
          ≤ total + (pages_of (ec.heap w.address) + limits ec.heap m) =
        rw after (omega arith) in
      record {
        heap = c.heap;
        same = c.same;
        elsewhere = λ p h.
            c.elsewhere p (omega (arith, h))
            ∙ s.elsewhere p (held_elsewhere p w.address q w.last (omega (arith, h)));
        skipped = λ p sc e t. c.skipped p sc (k p sc e t) t;
        kept = rw (w.last) sum;
      }

  -- The first container, which may be skipped.
  record Steps (skip : SubContainer → Bool) (ec : ElasticContainer) (p : ℕ)
      (r : ElasticContainer × ℕ) : Type 0 where
    pub shrinks : Shrinks world ec p r
    pub skipped :
        (q : ℕ) (sc : SubContainer)
        → ec.heap q ≡ some sc
        → skip sc ≡ true
        → shrinks.heap q ≡ some sc

  step-Steps :
      (skip : SubContainer → Bool) (ec : ElasticContainer) (id : ContainerId) (q : List ℕ)
      (w : IsReached world ec (id, q))
      → Returns
          (Steps skip ec w.address)
          (if skip w.container then ok (ec, 0) else reclaim world id w.address ec)
  unfolding unchanged
  step-Steps skip ec id q w =
      if_cases (Returns (Steps skip ec w.address)) (skip w.container)
        (λ _. record { shrinks = unchanged world ec w.address; skipped = λ x sc e t. e })
        (λ f.
          Returns-map (Shrinks world ec w.address) (Steps skip ec w.address)
            (reclaim world id w.address ec)
            (λ r s. record {
              shrinks = s;
              skipped = λ x sc e t. elim (Bool-cases (w.address == x)) [
                | inl same ↦
                    let eq : w.address ≡ x = ground arith in
                    let here : ec.heap x ≡ some w.container = rw (sym eq) (w.stored) in
                    let sc_eq : sc ≡ w.container = cc in
                    absurd (let both : skip w.container ≡ true = rw (sym sc_eq) t in cc)
                | inr other ↦ s.elsewhere x other ∙ e
              ];
            })
            (reclaim-Shrinks world ec id q w))

  pub reclaim_all-Conserves :
      (skip : SubContainer → Bool) (m : SubcontainerMap) (total : ℕ) (ec : ElasticContainer)
      → All (IsReached world ec) m
      → ((p : ℕ) → uses p m ≤ 1)
      → total + limits ec.heap m < 2 ^ 64
      → Returns (Conserves skip ec m total) (reclaim_all world skip m total ec)
  unfolding reclaim_all
  reclaim_all-Conserves skip [] total ec ws once b = record {
    heap = ec.heap;
    same = refl;
    elsewhere = λ p h. refl;
    skipped = λ p sc e t. e;
    kept = omega arith;
  }
  reclaim_all-Conserves skip ((id, q) ∷ m) total ec (w, ws) once b =
      let u : uses w.address m ≡ 0 = omega (arith, once w.address, count-back w.address q w.last) in
      let one : Outcome (ElasticContainer × ℕ) =
        if skip w.container then ok (ec, 0) else reclaim world id w.address ec in
      let bound : total + (pages_of (ec.heap w.address) + limits ec.heap m) < 2 ^ 64 =
        subst (λ l. total + (limit_at ec.heap l + limits ec.heap m) < 2 ^ 64) w.last b in
      rw (w.last) (
        rw (w.stored) (
          >>=-Returns (Steps skip ec w.address) (Conserves skip ec ((id, q) ∷ m) total) one _
            (step-Steps skip ec id q w)
            (λ r t.
              let s = t.shrinks in
              let ec' : ElasticContainer = record ec { heap = s.heap } in
              let gave : pages_of (s.heap w.address) + r.1 ≤ pages_of (ec.heap w.address) =
                s.kept in
              let sum : add64 total r.1 ≡ total + r.1 = ground arith in
              let before : limits s.heap m ≡ limits ec.heap m =
                limits-others ec s.heap w.address m s.elsewhere u ws in
              let fits : total + r.1 + limits s.heap m < 2 ^ 64 = omega arith in
              rw (s.same) (
                rw sum (
                  Returns-map (Conserves skip ec' m (total + r.1))
                    (Conserves skip ec ((id, q) ∷ m) total)
                    (reclaim_all world skip m (total + r.1) ec')
                    (conserve_more skip ec id q m total w r s t.skipped ws u)
                    (reclaim_all-Conserves skip m (total + r.1) ec'
                      (others-IsReached ec s.heap w.address m s.elsewhere u ws)
                      (λ p. omega (arith, once p)) fits))))))

  -- An application whose object heap is valid, where each entry's last container, with a limit below
  -- `2 ^ 50` pages, uses at most its limit and has a known agent, and where these limits
  -- sum to less than `2 ^ 64`: whatever the agents and cAdvisor reply, `handle_reclaim_memory`
  -- returns. It changes the containers only, leaves those of the client that asks as they are, and
  -- the pages it reports and the new limits sum to at most the old limits.
  pub handle_reclaim_memory-IsConserved :
      (fd : ℕ) (ec : ElasticContainer)
      → IsValid ec
      → All (IsWithin world ec) ec.subcontainers
      → limits ec.heap ec.subcontainers < 2 ^ 64
      → Returns (IsConserved fd ec) (handle_reclaim_memory world fd ec)
  unfolding handle_reclaim_memory
  handle_reclaim_memory-IsConserved fd ec v ws b =
      Returns-map (Conserves (λ sc. sc.fd == fd) ec ec.subcontainers 0) (IsConserved fd ec)
        (reclaim_all world (λ sc. sc.fd == fd) ec.subcontainers 0 ec)
        (λ r c. let kept = c.kept in (c.heap, c.same, c.skipped, omega arith))
        (reclaim_all-Conserves (λ sc. sc.fd == fd) ec.subcontainers 0 ec
          (IsWithin-IsReached world ec v ws) v.once (omega arith))
