-- ===== src/Examples/Socket.antt =====
-- The theorems on messages over a socket, at concrete values.
use ec_gcm.Common.{
  ◌+◌, ◌≤◌, ◌<◌, true, some, exited, hung, ltb, leb, not, ◌&&◌, ◌^◌, ◌-◌, ℕ, ◌≡◌, refl, arith, none,
  [], ◌∷◌, min, Returns,
}
use ec_gcm.Common.Map.{find}
use ec_gcm.SubContainer.{same_container}
use ec_gcm.Manager.Memory.Request.{IsSender}
use ec_gcm.AgentClientDb.{get_agent_client_by_ip}
use ec_gcm.SubContainer.{container_id}
use ec_gcm.SubContainer.Identity.{container_key}
use ec_gcm.Manager.{Manager}
use ec_gcm.Manager.Admission.Laws.{admitted}
use ec_gcm.Server.{Turn, stamp, stamp_host, handle_client_req_tcp, handle_client_reqs_tcp}
use ec_gcm.Server.Startup.{Listener, Round, accepts, starts}
use ec_gcm.Server.Connections.{
  Sockets, Steps, Prompt, listening, accept_round, begin_handler, prompt_handlers_named,
  crossed_handlers_exit,
}
use ec_gcm.Server.Datagrams.{Datagram, serve_udp, serve_datagrams, udp_announcement_unlinked}
use ec_gcm.Examples.Systems.{hello}
use ec_gcm.Server.Laws.{IsAnswered, handle_client_req_tcp-IsAnswered}
use ec_gcm.Examples.{plain_net, thousandths, willing, eight, application, manager}
use ec_gcm.Examples.Cpu.{report}
use ec_gcm.Examples.Memory.{request, application_mem-IsValid}

eight-IsSender : IsSender application (stamp 1 request) 1 eight
unfolding stamp find same_container
eight-IsSender = record { queue = 1 ∷ []; entry = refl; last = refl; stored = refl }

handle_client_req_tcp-IsAnswered_example :
    Returns
      (IsAnswered (10_000 + min 5000 2000) manager)
      (handle_client_req_tcp willing 3_000_000_000 77 request 1 8 manager)
handle_client_req_tcp-IsAnswered_example =
    handle_client_req_tcp-IsAnswered willing 3_000_000_000 77 request 1 8 manager 1 eight refl
      eight-IsSender application_mem-IsValid (omega arith) (omega arith)

-- The client 1 is accepted and served, a call of `accept` fails, and the client 2 is accepted and
-- served.
abbrev connection : ℕ → Round
connection fd = record { ready = true; accepted = fd }

abbrev failure : Round
failure = record { ready = true; accepted = 2 ^ 32 - 1 }

abbrev one_served : Sockets
one_served = begin_handler [] 9 [] (accept_round (connection 9) 1 listening)

abbrev two_served : Sockets
two_served =
    begin_handler [] 11 [] (accept_round (connection 11) 2 (accept_round failure 3 one_served))

two_served-Prompt : Prompt ((11, 2) ∷ (9, 1) ∷ []) two_served
unfolding accept_round begin_handler accepts starts
two_served-Prompt = Prompt.begun [] 11 [] refl (
    Prompt.accepted (connection 11) 2 refl (
      Prompt.refused failure 3 refl
        (Prompt.begun [] 9 [] refl (Prompt.accepted (connection 9) 1 refl Prompt.fresh))))

none_waits : two_served.launched ≡ []
unfolding begin_handler
none_waits = refl

prompt_handlers_named_example : two_served.serving ≡ (11, 2) ∷ (9, 1) ∷ []
prompt_handlers_named_example =
    prompt_handlers_named ((11, 2) ∷ (9, 1) ∷ []) two_served two_served-Prompt none_waits

-- The container 7 runs on the node 1, whose client is accepted just before that of the node 2.
abbrev first_turn : Turn
first_turn = record {
  world = willing;
  now = 3_000_000_000;
  garbage = 77;
  received = report;
  write_ok = true;
}

connection-starts :
    (fd : ℕ) → (ltb 0 fd && not (leb (2 ^ 31) fd)) ≡ true → starts (connection fd) ≡ true
unfolding starts
connection-starts fd e = e

seven_elsewhere : find (container_id 7 2) application.subcontainers ≡ none
unfolding find same_container
seven_elsewhere = refl

crossed_handlers_exit_example :
    (t : Sockets) × Steps listening t
    × (t.launched ≡ [])
    × (t.serving ≡ (11, 2) ∷ (9, 2) ∷ [])
    × (handle_client_reqs_tcp (first_turn ∷ []) 2 9 manager ≡ exited)
crossed_handlers_exit_example =
    crossed_handlers_exit listening (connection 9) (connection 11) 1 2 first_turn [] manager
      (connection-starts 9 refl) (connection-starts 11 refl) refl seven_elsewhere

-- The container 9 announces itself over UDP, and asks for more than the pool holds.
abbrev announcement : Datagram
announcement = record {
  ready = true;
  world = willing;
  now = 1000;
  garbage = 77;
  received = some hello;
}

abbrev sockets : Listener
sockets = record { server_initialized = 2; num_of_cli = 0; tcp_fd = 5; udp_fd = 6 }

no_agent : get_agent_client_by_ip 0 manager.agents ≡ none
unfolding get_agent_client_by_ip find
no_agent = refl

udp_announcement_unlinked_example :
    (4_000_000 < 20_000_000 → serve_udp (announcement ∷ []) sockets manager ≡ hung)
    × (20_000_000 ≤ 4_000_000
        → (after : Manager) × (after.ec ≡ admitted 1000 (stamp_host hello) 0 6 manager)
          × (after.ec.sc_ac_map ≡ manager.ec.sc_ac_map)
          × (serve_udp (announcement ∷ []) sockets manager ≡ serve_datagrams [] 6 after))
udp_announcement_unlinked_example =
    udp_announcement_unlinked announcement [] hello sockets manager refl refl refl refl no_agent
