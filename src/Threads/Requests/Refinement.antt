-- ===== src/Threads/Requests/Refinement.antt =====
-- Requests for memory in threads against the same requests one after another.
mod Arrivals
use ec_gcm.Common.{
  ℕ, ◌≡◌, ◌∙◌, ap, sym, refl, true, none, some, List, ◌∷◌, ◌==◌, ok, Whenever-ok, arith, inl, inr,
}
use ec_gcm.Platform.{Net}
use mathlib.Core.Path.{subst}
use ec_gcm.ElasticContainer.{ElasticContainer}
use ec_gcm.Msg.{Msg}
use ec_gcm.Threads.Requests.{
  MemCall, Held, locked, leaving, Pc, idle, waiting, held, done, advance, Process, move, Step,
  arrive, lock, work, unlock, reply, Reach, start, later,
}
use ec_gcm.Threads.Requests.Rest.{rest, rest-locked, advance-rest}
use ec_gcm.Threads.Requests.Serial.{
  Served, Has, call_of, move_same, move_cases, run_alone, Serial, next, advance-call, Holder,
  IsSound, start-IsSound, outside,
}
use ec_gcm.Threads.Requests.Refinement.Arrivals.{
  done_inj, served_after, typed_after, holds, arrive-IsSound,
}

module _ ⦃net : Net⦄ where
  lock-IsSound :
      (ec : ElasticContainer) (s : Process) (i : ℕ) (c : MemCall)
      → s.pc i ≡ waiting c
      → s.memlock ≡ none
      → IsSound ec s
      → IsSound ec (record s { memlock = some i; pc = move i (held (locked c)) s.pc })
  lock-IsSound ec s i c e free v =
      let (same, outside_all) = subst (λ l. Holder v.base l s.pc s.ec) free v.holder in
      let place : Pc = held (locked c) in
      record {
        base = v.base;
        log = v.log;
        serial = v.serial;
        served = served_after s.pc i place v.log (λ c' answer code q. absurd (cc)) v.served;
        typed = typed_after s.pc i place (λ c' q. absurd (cc)) v.typed;
        holder = (
          locked c,
          move_same i place s.pc,
          rest-locked c s.ec (v.typed i c e) ∙ ap (run_alone c) same,
          λ j h inside. elim (move_cases i j place (held h) s.pc inside) [
            | inl (here, q) ↦ sym here
            | inr (other, q) ↦ absurd (outside_all j h q)
          ],
        );
      }

  work-IsSound :
      (ec : ElasticContainer) (s : Process) (i : ℕ) (h h' : Held) (after : ElasticContainer)
      → s.pc i ≡ held h
      → advance h s.ec ≡ ok (after, h')
      → IsSound ec s
      → IsSound ec (record s { ec = after; pc = move i (held h') s.pc })
  work-IsSound ec s i h h' after e adv v =
      let (taken, r, alone) = holds v.base s.ec s.memlock s.pc i h e v.holder in
      let same_call : call_of h' ≡ call_of h =
        Whenever-ok _ (advance h s.ec) (advance-call h s.ec) adv in
      let inside : Holder v.base (some i) (move i (held h') s.pc) after = (
        h',
        move_same i (held h') s.pc,
        sym (advance-rest h h' s.ec after adv) ∙ r ∙ ap (λ c. run_alone c v.base) (sym same_call),
        λ j g q. elim (move_cases i j (held h') (held g) s.pc q) [
          | inl (here, _) ↦ sym here
          | inr (other, q') ↦ alone j g q'
        ],
      ) in
      record {
        base = v.base;
        log = v.log;
        serial = v.serial;
        served = served_after s.pc i (held h') v.log (λ c answer code q. absurd (cc)) v.served;
        typed = typed_after s.pc i (held h') (λ c q. absurd (cc)) v.typed;
        holder = subst (λ l. Holder v.base l (move i (held h') s.pc) after) (sym taken) inside;
      }

  unlock-IsSound :
      (ec : ElasticContainer) (s : Process) (i : ℕ) (c : MemCall) (answer : Msg) (code : ℕ)
      → s.pc i ≡ held (leaving c answer code)
      → IsSound ec s
      → IsSound ec (record s { memlock = none; pc = move i (done c answer code) s.pc })
  unfolding rest
  unlock-IsSound ec s i c answer code e v =
      let (taken, r, alone) =
        holds v.base s.ec s.memlock s.pc i (leaving c answer code) e v.holder in
      let place : Pc = done c answer code in
      let log : List Served = (c, answer, code) ∷ v.log in
      record {
        base = s.ec;
        log = log;
        serial = next c answer code v.serial (sym r);
        served =
            served_after s.pc i place log (λ c' a k q. inl (done_inj _ _ _ _ _ _ q))
              (λ j c' a k q. inr (v.served j c' a k q));
        typed = typed_after s.pc i place (λ c' q. absurd (cc)) v.typed;
        holder = (
          refl,
          λ j h q. elim (move_cases i j place (held h) s.pc q) [
            | inl (here, q') ↦ absurd (cc)
            | inr (other, q') ↦
                let here : j ≡ i = alone j h q' in
                absurd (let no : (i == j) ≡ true = ground arith in cc)
          ],
        );
      }

  reply-IsSound :
      (ec : ElasticContainer) (s : Process) (i : ℕ) (c : MemCall) (answer : Msg) (code : ℕ)
      → s.pc i ≡ done c answer code
      → IsSound ec s
      → IsSound ec (record s { pc = move i idle s.pc })
  reply-IsSound ec s i c answer code e v = record {
    base = v.base;
    log = v.log;
    serial = v.serial;
    served = served_after s.pc i idle v.log (λ c' a k q. absurd (cc)) v.served;
    typed = typed_after s.pc i idle (λ c' q. absurd (cc)) v.typed;
    holder = outside v.base s.ec s.memlock s.pc i idle (λ h q. cc) (λ h q. cc) v.holder;
  }

  Step-IsSound : {ec : ElasticContainer} {s t : Process} → Step s t → IsSound ec s → IsSound ec t
  Step-IsSound {ec} {s} (arrive i c e) v = arrive-IsSound ec s i c e v
  Step-IsSound {ec} {s} (lock i c e free) v = lock-IsSound ec s i c e free v
  Step-IsSound {ec} {s} (work i h h' after e adv) v = work-IsSound ec s i h h' after e adv v
  Step-IsSound {ec} {s} (unlock i c answer code e) v = unlock-IsSound ec s i c answer code e v
  Step-IsSound {ec} {s} (reply i c answer code e) v = reply-IsSound ec s i c answer code e v

  pub Reach-IsSound : {ec : ElasticContainer} {s : Process} → Reach ec s → IsSound ec s
  Reach-IsSound {ec} start = start-IsSound ec
  Reach-IsSound (later r st) = Step-IsSound st (Reach-IsSound r)

  -- However the threads interleave: while no thread holds `memlock`, the account and the containers
  -- are what some of the requests leave when they run one after another, each from start to end, and
  -- every thread that has answered gave the answer and the code of one of them.
  pub Reach-IsSerial :
      (ec : ElasticContainer) (s : Process)
      → Reach ec s
      → s.memlock ≡ none
      → (log : List Served) × Serial ec s.ec log
        × ((i : ℕ) (c : MemCall) (answer : Msg) (code : ℕ)
            → s.pc i ≡ done c answer code
            → Has (c, answer, code) log)
  Reach-IsSerial ec s r free =
      let v = Reach-IsSound r in
      let (same, _) = subst (λ l. Holder v.base l s.pc s.ec) free v.holder in
      (v.log, subst (λ b. Serial ec b v.log) (sym same) v.serial, v.served)

  -- However the threads interleave, two threads are never both between the lock and the unlock.
  pub Reach-IsExclusive :
      (ec : ElasticContainer) (s : Process) (i j : ℕ) (h h' : Held)
      → Reach ec s
      → s.pc i ≡ held h
      → s.pc j ≡ held h'
      → i ≡ j
  Reach-IsExclusive ec s i j h h' r e e' =
      let v = Reach-IsSound r in sym ((holds v.base s.ec s.memlock s.pc i h e v.holder).2 j h' e')
