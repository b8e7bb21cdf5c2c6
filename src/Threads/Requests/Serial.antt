-- ===== src/Threads/Requests/Serial.antt =====
-- Requests for memory one after another, and what holds of threads that serve them at once.
use ec_gcm.Common.{
  ℕ, ◌≡◌, refl, true, false, Option, none, some, List, [], ◌∷◌, if_cases, ltb, ◌==◌, slt64, is_neg,
  Outcome, ok, Whenever, Whenever-any, >>=-Whenever, or_fault-Whenever, arith, Bool-cases, inl, inr,
  ◌⊎◌,
}
use ec_gcm.Platform.{Net}
use ec_gcm.SubContainer.{container_id}
use ec_gcm.ElasticContainer.{ElasticContainer, get_sc_for_update_back}
use ec_gcm.Msg.{Msg, mem_type}
use ec_gcm.Manager.Memory.{handle_mem_req, handle_reclaim_memory}
use ec_gcm.Threads.Requests.{
  MemCall, Held, locked, empty, indebted, repaying, crediting, debiting, rereading, ready, taking,
  putting, writing, leaving, Pc, idle, waiting, held, done, advance, Process, move,
}
use ec_gcm.Threads.Requests.Rest.{rest}

-- One request, with the answer and the code.
abbrev pub Served : Type 0
Served = MemCall × Msg × ℕ

abbrev pub Has : Served → List Served → Type 0
Has x [] = ⊥
Has x (y ∷ log) = (y ≡ x) ⊎ Has x log

abbrev pub call_of : Held → MemCall
call_of (locked c) = c
call_of (empty c avail) = c
call_of (indebted c avail pages) = c
call_of (repaying c avail pages) = c
call_of (crediting c pages) = c
call_of (debiting c pages) = c
call_of (rereading c) = c
call_of (ready c avail) = c
call_of (taking c ret) = c
call_of (putting c ret) = c
call_of (writing c ret) = c
call_of (leaving c answer code) = c

pub move_same : (i : ℕ) (p : Pc) (pc : ℕ → Pc) → move i p pc i ≡ p
move_same i p pc = ground arith

pub move_cases :
    (i j : ℕ) (p q : Pc) (pc : ℕ → Pc)
    → move i p pc j ≡ q
    → ((i ≡ j) × (p ≡ q)) ⊎ (((i == j) ≡ false) × (pc j ≡ q))
move_cases i j p q pc e = elim (Bool-cases (i == j)) [
  | inl same ↦ inl (ground arith, ground arith)
  | inr other ↦ inr (other, ground arith)
]

module _ ⦃net : Net⦄ where
  abbrev pub run_alone : MemCall → ElasticContainer → Outcome (ElasticContainer × Msg × ℕ)
  run_alone c = handle_mem_req c.world c.req c.res c.clifd

  -- Requests that run one after another, from start to end, with what each answers.
  pub data Serial (ec : ElasticContainer) : ElasticContainer → List Served → Type 0 where
    nothing : Serial ec ec []
    next :
        {b b' : ElasticContainer} {log : List Served} (c : MemCall) (answer : Msg) (code : ℕ)
        → Serial ec b log
        → run_alone c b ≡ ok (b', answer, code)
        → Serial ec b' ((c, answer, code) ∷ log)

  pub advance-call :
      (h : Held) (ec : ElasticContainer)
      → Whenever (λ (r : ElasticContainer × Held). call_of r.1 ≡ call_of h) (advance h ec)
  unfolding advance
  advance-call (locked c) ec =
      if_cases (λ (h : Held). call_of h ≡ c) (slt64 0 ec.mem.unallocated_memory_in_pages)
        (λ _. refl) (λ _. refl)
  advance-call (empty c avail) ec =
      >>=-Whenever (λ (r : ElasticContainer × ℕ). Unit) (λ r. call_of r.1 ≡ c)
        (handle_reclaim_memory c.world c.clifd ec) _
        (Whenever-any (handle_reclaim_memory c.world c.clifd ec))
        (λ r u.
          if_cases (λ (h : Held). call_of h ≡ c) (ltb 0 r.1)
            (λ _. if_cases (λ (h : Held). call_of h ≡ c) (is_neg avail) (λ _. refl) (λ _. refl))
            (λ _. refl))
  advance-call (indebted c avail pages) ec = refl
  advance-call (repaying c avail pages) ec = refl
  advance-call (crediting c pages) ec = refl
  advance-call (debiting c pages) ec = refl
  advance-call (rereading c) ec = refl
  advance-call (ready c avail) ec = refl
  advance-call (taking c ret) ec = refl
  advance-call (putting c ret) ec = refl
  advance-call (writing c ret) ec =
      let found = get_sc_for_update_back (container_id c.req.cgroup_id c.req.client_ip) ec in
      >>=-Whenever (λ (p : ℕ). Unit) (λ r. call_of r.1 ≡ c) found _ (Whenever-any found)
        (λ p u. or_fault-Whenever (λ r. call_of r.1 ≡ c) (ec.heap p) _ (λ sc e. refl))
  advance-call (leaving c answer code) ec = refl

  -- With the lock free the application is as the requests served so far leave it and no thread is
  -- inside. With the lock taken its holder alone is inside, and will do to the application what its
  -- request alone does to what the requests before it left.
  abbrev pub Holder : ElasticContainer → Option ℕ → (ℕ → Pc) → ElasticContainer → Type 0
  Holder base none pc ec = (ec ≡ base) × ((j : ℕ) (h : Held) → pc j ≡ held h → ⊥)
  Holder base (some i) pc ec =
      (h : Held) × (pc i ≡ held h)
      × (rest h ec ≡ run_alone (call_of h) base)
      × ((j : ℕ) (h' : Held) → pc j ≡ held h' → j ≡ i)

  pub record IsSound (ec : ElasticContainer) (s : Process) : Type 0 where
    pub base : ElasticContainer
    pub log : List Served
    pub serial : Serial ec base log
    pub served :
        (i : ℕ) (c : MemCall) (answer : Msg) (code : ℕ)
        → s.pc i ≡ done c answer code
        → Has (c, answer, code) log
    pub typed : (i : ℕ) (c : MemCall) → s.pc i ≡ waiting c → (c.req.req_type == mem_type) ≡ true
    pub holder : Holder base s.memlock s.pc s.ec

  pub start-IsSound :
      (ec : ElasticContainer) → IsSound ec (record { ec = ec; memlock = none; pc = λ _. idle })
  start-IsSound ec = record {
    base = ec;
    log = [];
    serial = nothing;
    served = λ i c answer code e. absurd (cc);
    typed = λ i c e. absurd (cc);
    holder = (refl, λ j h e. cc);
  }

  -- A thread that is outside before and after its move does not count for the lock.
  pub outside :
      (base ec : ElasticContainer) (memlock : Option ℕ) (pc : ℕ → Pc) (i : ℕ) (p : Pc)
      → ((h : Held) → pc i ≡ held h → ⊥)
      → ((h : Held) → p ≡ held h → ⊥)
      → Holder base memlock pc ec
      → Holder base memlock (move i p pc) ec
  outside base ec none pc i p before after (e, free) = (
    e,
    λ j h inside. elim (move_cases i j p (held h) pc inside) [
      | inl (same, q) ↦ after h q
      | inr (other, q) ↦ free j h q
    ],
  )
  outside base ec (some k) pc i p before after (h, at, r, alone) = (
    h,
    elim (Bool-cases (i == k)) [
      | inl same ↦ absurd (before h (let eq : i ≡ k = ground arith in rw eq at))
      | inr other ↦ rw other at
    ],
    r,
    λ j h' inside. elim (move_cases i j p (held h') pc inside) [
      | inl (same, q) ↦ absurd (after h' q)
      | inr (other, q) ↦ alone j h' q
    ],
  )
