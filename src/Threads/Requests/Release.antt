-- ===== src/Threads/Requests/Release.antt =====
-- A thread that takes `memlock` gives it back with an answer, if its request alone returns one.
use ec_gcm.Common.{
  ℕ, zero, suc, ◌≡◌, ◌∙◌, ap, >>=-eq-ok, sym, refl, none, some, if_cases, ltb, slt64, is_neg,
  Outcome, ok, Whenever, Whenever-ok, Whenever-any, >>=-Whenever, or_fault-Whenever, arith, inl,
  inr, ◌⊎◌, ◌≤◌, ◌<◌,
}
use mathlib.Core.Path.{subst}
use ec_gcm.Platform.{Net}
use ec_gcm.SubContainer.{container_id}
use ec_gcm.ElasticContainer.{ElasticContainer, get_sc_for_update_back}
use ec_gcm.Msg.{Msg}
use ec_gcm.Manager.Memory.{handle_reclaim_memory}
use ec_gcm.Threads.Requests.{
  MemCall, Held, locked, empty, indebted, repaying, crediting, debiting, rereading, ready, taking,
  putting, writing, leaving, waiting, held, done, advance, Process, move, Step, lock, work, unlock,
  Reach,
}
use ec_gcm.Threads.Requests.Rest.{rest, rest_of, rest-advance, rest-locked}
use ec_gcm.Threads.Requests.Serial.{call_of, move_same, run_alone, advance-call}
use ec_gcm.Threads.Requests.Refinement.{Reach-IsSound}

-- The accesses that a thread has before it at most.
abbrev left : Held → ℕ
left (locked c) = 11
left (empty c avail) = 10
left (indebted c avail pages) = 9
left (repaying c avail pages) = 8
left (crediting c pages) = 7
left (debiting c pages) = 6
left (rereading c) = 5
left (ready c avail) = 4
left (taking c ret) = 3
left (putting c ret) = 2
left (writing c ret) = 1
left (leaving c answer code) = 0

ok_inj {ℓ} : {A : Type ℓ} (a b : A) → ok a ≡ ok b → a ≡ b
ok_inj {A} a b e = ap value e
  where
    value : Outcome A → A
    value (ok x) = x
    value _ = a

module _ ⦃net : Net⦄ where
  -- Accesses one after another, of any threads.
  pub data Runs : Process → Process → Type 0 where
    here : (s : Process) → Runs s s
    further : {s t u : Process} → Step s t → Runs t u → Runs s u

  abbrev Fewer : Held → ElasticContainer × Held → Type 0
  Fewer h r = left r.1 < left h

  -- A thread has left the lock only to open, or its next access brings it nearer to that.
  advance-left :
      (h : Held) (ec : ElasticContainer)
      → ((c : MemCall) × (answer : Msg) × (code : ℕ) × (h ≡ leaving c answer code))
        ⊎ Whenever (Fewer h) (advance h ec)
  unfolding advance
  advance-left (locked c) ec = inr (
      if_cases (λ (h : Held). left h < 11) (slt64 0 ec.mem.unallocated_memory_in_pages)
        (λ _. omega arith) (λ _. omega arith))
  advance-left (empty c avail) ec = inr (
      >>=-Whenever (λ (r : ElasticContainer × ℕ). Unit) (Fewer (empty c avail))
        (handle_reclaim_memory c.world c.clifd ec) _
        (Whenever-any (handle_reclaim_memory c.world c.clifd ec))
        (λ r u.
          if_cases (λ (h : Held). left h < 10) (ltb 0 r.1)
            (λ _.
              if_cases (λ (h : Held). left h < 10) (is_neg avail) (λ _. omega arith)
                (λ _. omega arith))
            (λ _. omega arith)))
  advance-left (indebted c avail pages) ec = inr (omega arith)
  advance-left (repaying c avail pages) ec = inr (omega arith)
  advance-left (crediting c pages) ec = inr (omega arith)
  advance-left (debiting c pages) ec = inr (omega arith)
  advance-left (rereading c) ec = inr (omega arith)
  advance-left (ready c avail) ec = inr (omega arith)
  advance-left (taking c ret) ec = inr (omega arith)
  advance-left (putting c ret) ec = inr (omega arith)
  advance-left (writing c ret) ec =
      let found = get_sc_for_update_back (container_id c.req.cgroup_id c.req.client_ip) ec in
      inr (
        >>=-Whenever (λ (p : ℕ). Unit) (Fewer (writing c ret)) found _ (Whenever-any found)
          (λ p u. or_fault-Whenever (Fewer (writing c ret)) (ec.heap p) _ (λ sc e. omega arith)))
  advance-left (leaving c answer code) ec = inl (c, answer, code, refl)

  -- The lock is open and the thread has this answer.
  abbrev pub Answered : ℕ → MemCall → ElasticContainer × Msg × ℕ → Process → Type 0
  Answered i c (after, answer, code) t =
      (t.ec ≡ after) × (t.memlock ≡ none) × (t.pc i ≡ done c answer code)

  open_up :
      (s : Process) (i : ℕ) (c : MemCall) (answer : Msg) (code : ℕ) (r : ElasticContainer × Msg × ℕ)
      → s.pc i ≡ held (leaving c answer code)
      → rest (leaving c answer code) s.ec ≡ ok r
      → (t : Process) × Runs s t × Answered i c r t
  unfolding rest
  open_up s i c answer code r e result =
      let t : Process = record s { memlock = none; pc = move i (done c answer code) s.pc } in
      let same : ◌≡◌ {A = ElasticContainer × Msg × ℕ} (s.ec, answer, code) r = ok_inj _ _ result in
      (
        t,
        further (unlock i c answer code e) (here t),
        subst (λ r. Answered i c r t) same (refl, refl, move_same i (done c answer code) s.pc),
      )

  run_on :
      (n : ℕ) (s : Process) (i : ℕ) (h : Held) (r : ElasticContainer × Msg × ℕ)
      → s.pc i ≡ held h
      → left h ≤ n
      → rest h s.ec ≡ ok r
      → (t : Process) × Runs s t × Answered i (call_of h) r t
  unfolding rest_of
  run_on zero s i h r e below result = elim (advance-left h s.ec) [
    | inl (c, answer, code, q) ↦
        subst (λ g. (t : Process) × Runs s t × Answered i (call_of g) r t) (sym q)
          (open_up s i c answer code r (subst (λ g. s.pc i ≡ held g) q e)
            (subst (λ g. rest g s.ec ≡ ok r) q result))
    | inr fewer ↦
        let (a, adv, q) = >>=-eq-ok (advance h s.ec) rest_of (sym (rest-advance h s.ec) ∙ result) in
        absurd (let nearer : left a.1 < left h = Whenever-ok (Fewer h) _ fewer adv in omega arith)
  ]
  run_on (suc n) s i h r e below result = elim (advance-left h s.ec) [
    | inl (c, answer, code, q) ↦
        subst (λ g. (t : Process) × Runs s t × Answered i (call_of g) r t) (sym q)
          (open_up s i c answer code r (subst (λ g. s.pc i ≡ held g) q e)
            (subst (λ g. rest g s.ec ≡ ok r) q result))
    | inr fewer ↦
        let (a, adv, q) = >>=-eq-ok (advance h s.ec) rest_of (sym (rest-advance h s.ec) ∙ result) in
        let nearer : left a.1 < left h = Whenever-ok (Fewer h) _ fewer adv in
        let s' : Process = record s { ec = a.0; pc = move i (held a.1) s.pc } in
        let (t, run, answered) =
          run_on n s' i a.1 r (move_same i (held a.1) s.pc) (omega arith) q in
        let call_eq : call_of a.1 ≡ call_of h =
          Whenever-ok (λ (x : ElasticContainer × Held). call_of x.1 ≡ call_of h) (advance h s.ec)
            (advance-call h s.ec) adv in
        (t, further (work i h a.1 a.0 e adv) run, subst (λ c. Answered i c r t) call_eq answered)
  ]

  -- A thread that waits for `memlock` in a reachable state, while no thread holds it, with a request
  -- that run alone on that state returns: there are accesses after which the application is as the
  -- request alone leaves it, the thread has its answer and its code, and no thread holds `memlock`.
  pub waiting_thread_finishes :
      (ec : ElasticContainer) (s : Process) (i : ℕ) (c : MemCall) (after : ElasticContainer)
      (answer : Msg) (code : ℕ)
      → Reach ec s
      → s.pc i ≡ waiting c
      → s.memlock ≡ none
      → run_alone c s.ec ≡ ok (after, answer, code)
      → (t : Process) × Runs s t × Answered i c (after, answer, code) t
  waiting_thread_finishes ec s i c after answer code reached e free alone =
      let typed = (Reach-IsSound reached).typed i c e in
      let s' : Process = record s { memlock = some i; pc = move i (held (locked c)) s.pc } in
      let (t, run, answered) =
        run_on 11 s' i (locked c) (after, answer, code) (move_same i (held (locked c)) s.pc)
          (omega arith) (rest-locked c s.ec typed ∙ alone) in
      (t, further (lock i c e free) run, answered)
