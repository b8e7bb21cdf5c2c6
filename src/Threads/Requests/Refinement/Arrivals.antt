-- ===== src/Threads/Requests/Refinement/Arrivals.antt =====
-- What a step of one thread leaves of the others, and the arrival of a message.
use ec_gcm.Common.{
  ℕ, ◌≡◌, ◌∙◌, ap, sym, refl, true, false, Option, none, some, List, ◌∷◌, ◌==◌, ok, Bool-cases, inl,
  inr,
}
use mathlib.Core.Path.{subst}
use ec_gcm.Platform.{Net}
use ec_gcm.ElasticContainer.{ElasticContainer}
use ec_gcm.Msg.{Msg, mem_type, alloc_mem_failed}
use ec_gcm.Manager.Memory.{handle_mem_req}
use ec_gcm.Threads.Requests.{
  MemCall, Held, Pc, idle, waiting, held, done, refusal, enter, Process, move,
}
use ec_gcm.Threads.Requests.Rest.{rest}
use ec_gcm.Threads.Requests.Serial.{
  Served, Has, call_of, move_cases, run_alone, next, Holder, IsSound, outside,
}

pub done_inj :
    (c c' : MemCall) (a a' : Msg) (k k' : ℕ)
    → done c a k ≡ done c' a' k'
    → ◌≡◌ {A = Served} (c, a, k) (c', a', k')
done_inj c c' a a' k k' e = ap answered e
  where
    answered : Pc → Served
    answered (done c a k) = (c, a, k)
    answered _ = (c, a, k)

module _ ⦃net : Net⦄ where
  -- The threads that have answered, after one has moved.
  pub served_after :
      (pc : ℕ → Pc) (i : ℕ) (p : Pc) (log : List Served)
      → ((c : MemCall) (answer : Msg) (code : ℕ)
          → p ≡ done c answer code
          → Has (c, answer, code) log)
      → ((j : ℕ) (c : MemCall) (answer : Msg) (code : ℕ)
          → pc j ≡ done c answer code
          → Has (c, answer, code) log)
      → (j : ℕ) (c : MemCall) (answer : Msg) (code : ℕ) → move i p pc j ≡ done c answer code
      → Has (c, answer, code) log
  served_after pc i p log mine others j c answer code e =
      elim (move_cases i j p (done c answer code) pc e) [
        | inl (same, q) ↦ mine c answer code q
        | inr (other, q) ↦ others j c answer code q
      ]

  pub typed_after :
      (pc : ℕ → Pc) (i : ℕ) (p : Pc)
      → ((c : MemCall) → p ≡ waiting c → (c.req.req_type == mem_type) ≡ true)
      → ((j : ℕ) (c : MemCall) → pc j ≡ waiting c → (c.req.req_type == mem_type) ≡ true)
      → (j : ℕ) (c : MemCall) → move i p pc j ≡ waiting c
      → (c.req.req_type == mem_type) ≡ true
  typed_after pc i p mine others j c e = elim (move_cases i j p (waiting c) pc e) [
    | inl (same, q) ↦ mine c q
    | inr (other, q) ↦ others j c q
  ]

  -- A thread that is inside holds the lock.
  pub holds :
      (base ec : ElasticContainer) (memlock : Option ℕ) (pc : ℕ → Pc) (i : ℕ) (h : Held)
      → pc i ≡ held h
      → Holder base memlock pc ec
      → (memlock ≡ some i)
        × (rest h ec ≡ run_alone (call_of h) base)
        × ((j : ℕ) (h' : Held) → pc j ≡ held h' → j ≡ i)
  holds base ec none pc i h e (same, free) = absurd (free i h e)
  holds base ec (some k) pc i h e (h', at, r, alone) =
      let here : i ≡ k = alone i h e in
      let eq : held h' ≡ held h = sym at ∙ ap pc (sym here) ∙ e in
      let eq' : h' ≡ h = cc in
      (
        ap some (sym here),
        subst (λ g. rest g ec ≡ run_alone (call_of g) base) eq' r,
        λ j g inside. alone j g inside ∙ sym here,
      )

  -- A request of another type is refused whatever the state.
  pub refused :
      (c : MemCall) (ec : ElasticContainer)
      → (c.req.req_type == mem_type) ≡ false
      → run_alone c ec ≡ ok (ec, refusal c, alloc_mem_failed)
  unfolding handle_mem_req
  refused c ec e = rw e refl

  pub arrive-IsSound :
      (ec : ElasticContainer) (s : Process) (i : ℕ) (c : MemCall)
      → s.pc i ≡ idle
      → IsSound ec s
      → IsSound ec (record s { pc = move i (enter c) s.pc })
  unfolding enter
  arrive-IsSound ec s i c e v =
      let before : (h : Held) → s.pc i ≡ held h → ⊥ = λ h q. cc in
      elim (Bool-cases (c.req.req_type == mem_type)) [
        | inl typed ↦ rw typed (record {
          base = v.base;
          log = v.log;
          serial = v.serial;
          served = served_after s.pc i (waiting c) v.log (λ c' answer code q. absurd (cc)) v.served;
          typed =
              typed_after s.pc i (waiting c)
                (λ c' q.
                  let eq : c ≡ c' = cc in
                  subst (λ (x : MemCall). (x.req.req_type == mem_type) ≡ true) eq typed)
                v.typed;
          holder = outside v.base s.ec s.memlock s.pc i (waiting c) before (λ h q. cc) v.holder;
        })
        | inr other ↦
            let log : List Served = (c, refusal c, alloc_mem_failed) ∷ v.log in
            rw other (record {
              base = v.base;
              log = log;
              serial = next c (refusal c) alloc_mem_failed v.serial (refused c v.base other);
              served =
                  served_after s.pc i (done c (refusal c) alloc_mem_failed) log
                    (λ c' answer code q. inl (done_inj _ _ _ _ _ _ q))
                    (λ j c' answer code q. inr (v.served j c' answer code q));
              typed =
                  typed_after s.pc i (done c (refusal c) alloc_mem_failed) (λ c' q. absurd (cc))
                    v.typed;
              holder =
                  outside v.base s.ec s.memlock s.pc i (done c (refusal c) alloc_mem_failed) before
                    (λ h q. cc) v.holder;
            })
      ]
