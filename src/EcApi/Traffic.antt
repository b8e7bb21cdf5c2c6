-- ===== src/EcApi/Traffic.antt =====
-- What becomes of the entry of an id in `sc_ac_map`, in whatever order the clients of containers are
-- looked up, registered and forgotten.
use ec_gcm.Common.{
  ℕ, ◌≡◌, ◌∙◌, true, false, some, none, List, arith, exited, refl, ap, ◌⊎◌, inl, inr, Bool-cases,
  Option-cases, Option,
}
use ec_gcm.Common.Map.{
  find, erase, insert, find-insert, find-erase, find_congr, contains-find, contains-find-some,
}
use ec_gcm.Platform.{Net, World}
use ec_gcm.Agents.{AgentClient}
use ec_gcm.SubContainer.{ContainerId, SubContainer, same_container}
use ec_gcm.SubContainer.Identity.{container_key, same_container_refl}
use ec_gcm.ElasticContainer.{ElasticContainer, get_corres_agent_client, add_to_sc_ac_map}
use ec_gcm.EcApi.{QuotaCall, set_sc_quota_syscall}

module _ ⦃net : Net⦄ where
  -- All that happens to the table: look-ups, registrations of ids in `Registered`, deletions of ids in
  -- `Forgotten`, and whatever leaves it as it is.
  pub data Traffic (Registered Forgotten : ContainerId → Type 0) (ec : ElasticContainer)
      : ElasticContainer → Type 0 where
    quiet : Traffic Registered Forgotten ec ec
    looked_up :
        {now : ElasticContainer} (id : ContainerId)
        → Traffic Registered Forgotten ec now
        → Traffic Registered Forgotten ec (get_corres_agent_client id now).0
    registered :
        {now : ElasticContainer} (id : ContainerId) (ac : AgentClient)
        → Registered id
        → Traffic Registered Forgotten ec now
        → Traffic Registered Forgotten ec (add_to_sc_ac_map id (some ac) now)
    forgotten :
        {now : ElasticContainer} (id : ContainerId)
        → Forgotten id
        → Traffic Registered Forgotten ec now
        → Traffic Registered Forgotten ec (record now { sc_ac_map = erase id now.sc_ac_map })
    elsewhere :
        {now : ElasticContainer} (next : ElasticContainer)
        → next.sc_ac_map ≡ now.sc_ac_map
        → Traffic Registered Forgotten ec now
        → Traffic Registered Forgotten ec next

  abbrev pub AnyId : ContainerId → Type 0
  AnyId j = Unit

  abbrev pub OtherThan : ContainerId → ContainerId → Type 0
  OtherThan id j = same_container j id ≡ false

  -- The entry holds no client.
  abbrev pub Clientless : ContainerId → ElasticContainer → Type 0
  Clientless id ec = (find id ec.sc_ac_map ≡ none) ⊎ (find id ec.sc_ac_map ≡ some none)

  -- An entry that is there stays what it is when another or the same id is inserted.
  insert_keeps :
      (id j : ContainerId) (v w : Option AgentClient) (m : List (ContainerId × Option AgentClient))
      → find id m ≡ some v
      → find id (insert j w m) ≡ some v
  insert_keeps id j v w m e =
      ground (arith, find-insert j id w m, find_congr j id m, contains-find-some j v m)

  insert_elsewhere :
      (id j : ContainerId) (w : Option AgentClient) (m : List (ContainerId × Option AgentClient))
      → same_container j id ≡ false
      → find id (insert j w m) ≡ find id m
  insert_elsewhere id j w m apart = ground (arith, find-insert j id w m)

  -- A look-up inserts an entry without a client where there is none.
  table-get_corres_agent_client :
      (j : ContainerId) (ec : ElasticContainer)
      → ((get_corres_agent_client j ec).0.sc_ac_map ≡ ec.sc_ac_map)
        ⊎ ((get_corres_agent_client j ec).0.sc_ac_map ≡ insert j none ec.sc_ac_map)
  unfolding get_corres_agent_client
  table-get_corres_agent_client j ec = elim (Option-cases (find j ec.sc_ac_map)) [
    | inl e ↦ inr (rw (e, get_corres_agent_client) refl)
    | inr (client, e) ↦ inl (rw (e, get_corres_agent_client) refl)
  ]

  insert_clientless :
      (id j : ContainerId) (m : List (ContainerId × Option AgentClient))
      → (find id m ≡ none) ⊎ (find id m ≡ some none)
      → (find id (insert j none m) ≡ none) ⊎ (find id (insert j none m) ≡ some none)
  insert_clientless id j m (inr e) = inr (insert_keeps id j none none m e)
  insert_clientless id j m (inl e) = elim (Bool-cases (same_container j id)) [
    | inl same ↦
        inr (ground (arith, e, find-insert j id none m, find_congr j id m, contains-find j m))
    | inr apart ↦ inl (insert_elsewhere id j none m apart ∙ e)
  ]

  pub null-Traffic :
      (id : ContainerId) {ec now : ElasticContainer}
      → find id ec.sc_ac_map ≡ some none
      → Traffic AnyId (OtherThan id) ec now
      → find id now.sc_ac_map ≡ some none
  unfolding add_to_sc_ac_map
  null-Traffic id e quiet = e
  null-Traffic id e (looked_up {now = now} j t) = elim (table-get_corres_agent_client j now) [
    | inl same ↦ ap (find id) same ∙ null-Traffic id e t
    | inr new ↦ ap (find id) new ∙ insert_keeps id j none none now.sc_ac_map (null-Traffic id e t)
  ]
  null-Traffic id e (registered {now = now} j ac p t) =
      insert_keeps id j none (some ac) now.sc_ac_map (null-Traffic id e t)
  null-Traffic id e (forgotten {now = now} j apart t) =
      find-erase j id now.sc_ac_map ∙ rw apart (null-Traffic id e t)
  null-Traffic id e (elsewhere next same t) = ap (find id) same ∙ null-Traffic id e t

  pub Clientless-Traffic :
      (id : ContainerId) {ec now : ElasticContainer}
      → Clientless id ec
      → Traffic (OtherThan id) AnyId ec now
      → Clientless id now
  unfolding add_to_sc_ac_map
  Clientless-Traffic id e quiet = e
  Clientless-Traffic id e (looked_up {now = now} j t) = elim (table-get_corres_agent_client j now) [
    | inl same ↦ rw same (Clientless-Traffic id e t)
    | inr new ↦ rw new (insert_clientless id j now.sc_ac_map (Clientless-Traffic id e t))
  ]
  Clientless-Traffic id e (registered {now = now} j ac apart t) =
      rw (insert_elsewhere id j (some ac) now.sc_ac_map apart) (Clientless-Traffic id e t)
  Clientless-Traffic id e (forgotten {now = now} j p t) = elim (Bool-cases (same_container j id)) [
    | inl same ↦ inl (find-erase j id now.sc_ac_map ∙ rw same refl)
    | inr apart ↦
        let kept : find id (erase j now.sc_ac_map) ≡ find id now.sc_ac_map =
          find-erase j id now.sc_ac_map ∙ rw apart refl in
        rw kept (Clientless-Traffic id e t)
  ]
  Clientless-Traffic id e (elsewhere next same t) = rw same (Clientless-Traffic id e t)

  -- Without a client the quota call leaves the program.
  pub Clientless-exits :
      (world : World) (sc : SubContainer) (id : ContainerId) (quota seq : ℕ) (ec : ElasticContainer)
      (sent : List QuotaCall)
      → sc.inserted ≡ true
      → same_container sc.c_id id ≡ true
      → Clientless id ec
      → set_sc_quota_syscall world sc quota seq ec sent ≡ exited
  unfolding set_sc_quota_syscall get_corres_agent_client
  Clientless-exits world sc id quota seq ec sent i s (inl n) =
      ground (arith, find_congr sc.c_id id ec.sc_ac_map s)
  Clientless-exits world sc id quota seq ec sent i s (inr n) =
      ground (arith, find_congr sc.c_id id ec.sc_ac_map s)

  -- For an inserted container, a look-up of its client before the client is registered leaves a null
  -- entry, which the registration does not replace. Whatever look-ups and registrations follow, of
  -- this id or others, and whatever other ids are deleted: as long as the id itself is not deleted,
  -- a quota call for the container leaves the program.
  pub lookup_before_registration :
      (world : World) (sc : SubContainer) (quota seq : ℕ) (ec later : ElasticContainer)
      (sent : List QuotaCall) (ac : AgentClient)
      → sc.inserted ≡ true
      → find sc.c_id ec.sc_ac_map ≡ none
      → Traffic AnyId
          (OtherThan sc.c_id)
          (add_to_sc_ac_map sc.c_id (some ac) (get_corres_agent_client sc.c_id ec).0)
          later
      → set_sc_quota_syscall world sc quota seq later sent ≡ exited
  unfolding get_corres_agent_client add_to_sc_ac_map
  lookup_before_registration world sc quota seq ec later sent ac h e t =
      let early = (get_corres_agent_client sc.c_id ec).0 in
      let null : find sc.c_id early.sc_ac_map ≡ some none = ground (
        arith,
        find-insert sc.c_id sc.c_id none ec.sc_ac_map,
        contains-find sc.c_id ec.sc_ac_map e,
        same_container_refl sc.c_id,
      ) in
      Clientless-exits world sc sc.c_id quota seq later sent h (same_container_refl sc.c_id) (
        inr (
          null-Traffic sc.c_id (insert_keeps sc.c_id sc.c_id none (some ac) early.sc_ac_map null)
            t))
