-- ===== src/Threads/Matching/Wakeups.antt =====
-- Which call of `ReportPodSpec` a registration wakes.
use ec_gcm.Common.{
  ℕ, ◌≡◌, ◌≢◌, hung, ◌∙◌, refl, sym, true, false, String, some, ◌==◌, if◌then◌else◌, arith, ok, ◌⊎◌,
  ◌>>=◌, >>=-eq-ok, Bool-cases, inl, inr,
}
use text.Mathlib.Text.{◌==◌ as str_eq}
use ec_gcm.Common.Map.{contains, contains-insert}
use ec_gcm.Platform.{Net, World}
use ec_gcm.Agents.{AgentClient}
use ec_gcm.SubContainer.{ContainerId, SubContainer, same_container, set_docker_id, set_sc_inserted}
use ec_gcm.SubContainer.Identity.{container_key, same_container_refl}
use ec_gcm.ElasticContainer.{ElasticContainer, store, add_to_sc_ac_map, get_sc_for_update_back}
use ec_gcm.Manager.Admission.{link}
use ec_gcm.Manager.Memory.{determine_mem_limit_for_new_pod}
use ec_gcm.Deployer.{match_docker_id}
use ec_gcm.Threads.Matching.{
  Waiter, absent, asleep, woken, matched, Service, turn_to, nobody, check, one, Step, announce,
  resume, register, spurious, Steps, IsCalm, Calm,
}

turn_cases :
    (i j : ℕ) (w v : Waiter) (f : ℕ → Waiter)
    → turn_to i w f j ≡ v
    → ((i ≡ j) × (w ≡ v)) ⊎ (((i == j) ≡ false) × (f j ≡ v))
turn_cases i j w v f e = elim (Bool-cases (i == j)) [
  | inl same ↦ inl (ground arith, ground arith)
  | inr other ↦ inr (other, ground arith)
]

module _ ⦃net : Net⦄ where
  check-registered :
      (id : ContainerId) (docker_id : String) (ec : ElasticContainer)
      → contains id ec.sc_ac_map ≡ true
      → check id docker_id ec ≡ (match_docker_id id docker_id ec >>= λ ec'. ok (ec', matched))
  unfolding check
  check-registered id docker_id ec e = rw e refl

  check-unregistered :
      (id : ContainerId) (docker_id : String) (ec : ElasticContainer)
      → contains id ec.sc_ac_map ≡ false
      → check id docker_id ec ≡ ok (ec, asleep id docker_id)
  unfolding check
  check-unregistered id docker_id ec e = rw e refl

  -- A call that has checked is not on its way to check again.
  check_settles :
      (id id' : ContainerId) (docker_id docker_id' : String) (ec ec' : ElasticContainer)
      (w : Waiter)
      → check id docker_id ec ≡ ok (ec', w)
      → w ≢ woken id' docker_id'
  check_settles id id' docker_id docker_id' ec ec' w e f =
      elim (Bool-cases (contains id ec.sc_ac_map)) [
        | inl present ↦
            let (a, b, c) =
              >>=-eq-ok (match_docker_id id docker_id ec) (λ ec'. ok (ec', matched))
                (sym (check-registered id docker_id ec present) ∙ e) in
            absurd (cc)
        | inr missing ↦ let g = sym (check-unregistered id docker_id ec missing) ∙ e in absurd (cc)
      ]

  -- One call sleeps, and none is on its way.
  abbrev Sleeps : ℕ → ContainerId → String → Service → Type 0
  Sleeps j id docker_id s =
      (s.waiter j ≡ asleep id docker_id)
      × ((i : ℕ) (id' : ContainerId) (docker_id' : String) → s.waiter i ≢ woken id' docker_id')

  settled :
      (i j : ℕ) (id : ContainerId) (docker_id : String) (w : Waiter) (f : ℕ → Waiter)
      → ((id' : ContainerId) (docker_id' : String) → w ≢ woken id' docker_id')
      → f i ≡ absent
      → (f j ≡ asleep id docker_id)
      → ((k : ℕ) (id' : ContainerId) (docker_id' : String) → f k ≢ woken id' docker_id')
      → (turn_to i w f j ≡ asleep id docker_id)
        × ((k : ℕ) (id' : ContainerId) (docker_id' : String)
            → turn_to i w f k ≢ woken id' docker_id')
  settled i j id docker_id w f no_w e a n = (
    elim (Bool-cases (i == j)) [
      | inl same ↦ absurd (let h : i ≡ j = ground arith in cc)
      | inr other ↦ rw other a
    ],
    λ k id' docker_id' g. elim (turn_cases i k w (woken id' docker_id') f g) [
      | inl (_, h) ↦ no_w id' docker_id' h
      | inr (_, h) ↦ n k id' docker_id' h
    ],
  )

  Step-Sleeps :
      (j : ℕ) (id : ContainerId) (docker_id : String) {s t : Service} (x : Step s t)
      → IsCalm x
      → Sleeps j id docker_id s
      → Sleeps j id docker_id t
  Step-Sleeps j id docker_id {s} {t} (announce i id' docker_id' ec w e c) calm (a, n) =
      settled i j id docker_id w s.waiter
        (λ id'' docker_id''. check_settles id' id'' docker_id' docker_id'' s.ec ec w c) e a n
  Step-Sleeps j id docker_id (resume i id' docker_id' ec w e c) calm (a, n) =
      absurd (n i id' docker_id' e)
  Step-Sleeps j id docker_id (register p sc ac f n) calm h = absurd calm
  Step-Sleeps j id docker_id (spurious i id' docker_id' e) calm h = absurd calm

  Calm-Sleeps :
      (j : ℕ) (id : ContainerId) (docker_id : String) {s t : Service}
      → Sleeps j id docker_id s
      → Calm s t
      → Sleeps j id docker_id t
  Calm-Sleeps j id docker_id h Calm.rest = h
  Calm-Sleeps j id docker_id h (Calm.onward c x q) =
      Step-Sleeps j id docker_id x q (Calm-Sleeps j id docker_id h c)

  -- A registration links the container and leaves the others as they are.
  link-contains :
      (p : ℕ) (sc : SubContainer) (ac : AgentClient) (ec : ElasticContainer) (id : ContainerId)
      → contains id (link p sc (some ac) ec).0.sc_ac_map
        ≡ (if same_container sc.c_id id then true else contains id ec.sc_ac_map)
  unfolding link add_to_sc_ac_map
  link-contains p sc ac ec id = contains-insert sc.c_id id (some ac) ec.sc_ac_map

  link_matched :
      (p : ℕ) (sc : SubContainer) (ac : AgentClient) (ec : ElasticContainer) (docker_id : String)
      → get_sc_for_update_back sc.c_id ec ≡ ok p
      → let linked = (link p sc (some ac) ec).0 in
        check sc.c_id docker_id linked
        ≡ ok (store p (set_docker_id docker_id (set_sc_inserted true sc)) linked, matched)
  unfolding link match_docker_id get_sc_for_update_back add_to_sc_ac_map
  link_matched p sc ac ec docker_id e =
      let linked = (link p sc (some ac) ec).0 in
      let present : contains sc.c_id linked.sc_ac_map ≡ true =
        link-contains p sc ac ec sc.c_id ∙ rw (same_container_refl sc.c_id) refl in
      let found : get_sc_for_update_back sc.c_id linked ≡ ok p = e in
      let stored : linked.heap p ≡ some (set_sc_inserted true sc) = ground arith in
      check-registered sc.c_id docker_id linked present ∙ rw present (rw found (rw stored refl))

  -- The thread that sets the memory limit of a container waits for the docker id.
  unnamed_waits :
      (world : World) (p fd : ℕ) (ec : ElasticContainer) (sc : SubContainer)
      → ec.heap p ≡ some sc
      → str_eq sc.c_id.docker_id "" ≡ true
      → determine_mem_limit_for_new_pod world p fd ec ≡ hung
  unfolding determine_mem_limit_for_new_pod
  unnamed_waits world p fd ec sc e h = rw e (rw h refl)

  -- The calls after both have checked, and after the notification of the first has come to nothing.
  abbrev both_asleep : ContainerId → ContainerId → String → String → ℕ → Waiter
  both_asleep id other docker_id docker_id' =
      turn_to 1 (asleep id docker_id) (turn_to 0 (asleep other docker_id') nobody)

  abbrev wasted : ContainerId → ContainerId → String → String → ℕ → Waiter
  wasted id other docker_id docker_id' =
      turn_to 0 (asleep other docker_id')
        (turn_to 0 (woken other docker_id') (both_asleep id other docker_id docker_id'))

  wasted-Sleeps :
      (id other : ContainerId) (docker_id docker_id' : String) (ec : ElasticContainer)
      → Sleeps 1 id docker_id (record { ec = ec; waiter = wasted id other docker_id docker_id' })
  wasted-Sleeps id other docker_id docker_id' ec =
      let one_asleep = turn_to 0 (asleep other docker_id') nobody in
      let both = both_asleep id other docker_id docker_id' in
      (
        refl,
        λ i id' d g.
            elim (turn_cases 0 i (asleep other docker_id') (woken id' d)
              (turn_to 0 (woken other docker_id') both) g) [
                | inl (_, h) ↦ absurd (cc)
                | inr (apart, h) ↦
                    elim (turn_cases 0 i (woken other docker_id') (woken id' d) both h) [
                      | inl (same, _) ↦ absurd (ground arith)
                      | inr (_, h') ↦
                          elim (turn_cases 1 i (asleep id docker_id) (woken id' d) one_asleep h') [
                            | inl (_, k) ↦ absurd (cc)
                            | inr (_, k) ↦
                                elim (turn_cases 0 i (asleep other docker_id') (woken id' d) nobody
                                  k) [ inl (_, l) ↦ absurd (cc) | inr (_, l) ↦ absurd (cc) ]
                          ]
                    ]
              ],
      )

  both_announced :
      (ec : ElasticContainer) (id other : ContainerId) (docker_id docker_id' : String)
      → contains id ec.sc_ac_map ≡ false
      → contains other ec.sc_ac_map ≡ false
      → Steps
          (record { ec = ec; waiter = nobody })
          (record { ec = ec; waiter = both_asleep id other docker_id docker_id' })
  both_announced ec id other docker_id docker_id' new new' =
      Steps.onward
        (Steps.onward Steps.here (
          announce 0 other docker_id' ec (asleep other docker_id') refl
            (check-unregistered other docker_id' ec new')))
        (announce 1 id docker_id ec (asleep id docker_id) refl
          (check-unregistered id docker_id ec new))

  -- Two calls of `ReportPodSpec` wait, for two containers that are not yet registered, and the container
  -- of the second, which has no docker id yet, is registered. If the notification goes to the second
  -- call, it gives the container its docker id and ends. If it goes to the first, that one sleeps
  -- again, though the container of the second is registered, and the thread that is to set the memory
  -- limit of that container would wait without end. The second call sleeps on as long as no other
  -- container is registered and no call wakes for nothing.
  pub notification_lost :
      (ec : ElasticContainer) (p : ℕ) (sc : SubContainer) (ac : AgentClient) (other : ContainerId)
      (docker_id docker_id' : String)
      → get_sc_for_update_back sc.c_id ec ≡ ok p
      → contains sc.c_id ec.sc_ac_map ≡ false
      → contains other ec.sc_ac_map ≡ false
      → same_container sc.c_id other ≡ false
      → str_eq sc.c_id.docker_id "" ≡ true
      → let before : Service = record { ec = ec; waiter = nobody } in
        (good stuck : Service) × Steps before good
        × Steps before stuck
        × (good.waiter 1 ≡ matched)
        × (good.ec.heap p ≡ some (set_docker_id docker_id (set_sc_inserted true sc)))
        × (contains sc.c_id stuck.ec.sc_ac_map ≡ true)
        × ((world : World) (fd : ℕ) → determine_mem_limit_for_new_pod world p fd stuck.ec ≡ hung)
        × ((later : Service) → Calm stuck later → later.waiter 1 ≡ asleep sc.c_id docker_id)
  unfolding link add_to_sc_ac_map set_sc_inserted
  notification_lost ec p sc ac other docker_id docker_id' e new new' apart unnamed =
      let linked = (link p sc (some ac) ec).0 in
      let asked = both_announced ec sc.c_id other docker_id docker_id' new new' in
      let absent_still : contains other linked.sc_ac_map ≡ false =
        link-contains p sc ac ec other ∙ rw apart new' in
      (
        record {
          ec = store p (set_docker_id docker_id (set_sc_inserted true sc)) linked;
          waiter = turn_to 1 matched (
              turn_to 1 (woken sc.c_id docker_id) (both_asleep sc.c_id other docker_id docker_id'));
        },
        record { ec = linked; waiter = wasted sc.c_id other docker_id docker_id' },
        Steps.onward (Steps.onward asked (register p sc ac _ (one 1 sc.c_id docker_id refl)))
            (resume 1 sc.c_id docker_id _ matched refl (link_matched p sc ac ec docker_id e)),
        Steps.onward (Steps.onward asked (register p sc ac _ (one 0 other docker_id' refl))) (
            resume 0 other docker_id' linked (asleep other docker_id') refl
              (check-unregistered other docker_id' linked absent_still)),
        refl,
        ground arith,
        link-contains p sc ac ec sc.c_id ∙ rw (same_container_refl sc.c_id) refl,
        λ world fd.
            unnamed_waits world p fd linked (set_sc_inserted true sc) (ground arith) unnamed,
        λ later c.
            (Calm-Sleeps 1 sc.c_id docker_id
              (wasted-Sleeps sc.c_id other docker_id docker_id' linked) c).0,
      )
