-- ===== src/Server/Connections.antt =====
-- The loop of `serve_tcp` next to the handlers that it starts: `accept` writes the address of the client
-- into the one field `server_sock_tcp.addr`, and each handler reads it from there when it begins, in a
-- thread of its own.
use ec_gcm.Common.{
  ℕ, ◌≡◌, ◌≢◌, ◌∙◌, refl, sym, true, false, none, List, [], ◌∷◌, ◌++◌, if◌then◌else◌, ◌⊎◌, inl, inr,
  add32, arith, ◌==◌, exited, Bool-cases,
}
use mathlib.Core.Path.{ap}
use ec_gcm.Common.Map.{find}
use ec_gcm.Platform.{Double, Net}
use ec_gcm.SubContainer.{container_id}
use ec_gcm.SubContainer.Identity.{container_key}
use ec_gcm.ElasticContainer.{get_sc_for_update_back}
use ec_gcm.Msg.{cpu_type, mem_type}
use ec_gcm.Manager.{Manager}
use ec_gcm.Manager.Admission.{handle_req}
use ec_gcm.Manager.Report.{handle_cpu_usage_report}
use ec_gcm.Server.{Turn, stamp, handle_client_req_tcp, handle_client_reqs_tcp}
use ec_gcm.Server.Startup.{Round, accepts, starts}

-- The address in the socket, the counter of clients, the connections whose handler has not begun, and
-- those whose handler has, with the address that it read.
pub record Sockets : Type 0 where
  pub addr : ℕ
  pub num_of_cli : ℕ
  pub launched : List ℕ
  pub serving : List (ℕ × ℕ)

-- `INADDR_ANY`, to which both sockets are bound.
abbrev pub inaddr_any : ℕ
inaddr_any = 0

abbrev pub listening : Sockets
listening = record { addr = inaddr_any; num_of_cli = 0; launched = []; serving = [] }

-- A round of the loop. `peer` is the address of the client.
unfoldable pub accept_round : Round → ℕ → Sockets → Sockets
accept_round r peer s =
    let noted = if accepts r then record s { addr = peer } else s in
    if starts r then record noted { launched = r.accepted ∷ noted.launched } else noted

-- The start of `handle_client_reqs_tcp` for the connection between the two lists.
unfoldable pub begin_handler : List ℕ → ℕ → List ℕ → Sockets → Sockets
begin_handler before fd after s = record s {
  num_of_cli = add32 s.num_of_cli 1;
  launched = before ++ after;
  serving = (fd, s.addr) ∷ s.serving;
}

pub data Step (s : Sockets) : Sockets → Type 0 where
  round : (r : Round) (peer : ℕ) → Step s (accept_round r peer s)
  begin :
      (before : List ℕ) (fd : ℕ) (after : List ℕ)
      → s.launched ≡ before ++ fd ∷ after
      → Step s (begin_handler before fd after s)

pub data Steps (s : Sockets) : Sockets → Type 0 where
  here : Steps s s
  onward : {t u : Sockets} → Steps s t → Step t u → Steps s u

-- Runs in which no client is accepted while a handler has not begun, with the connections accepted
-- and the address of each client, the last one first.
pub data Prompt : List (ℕ × ℕ) → Sockets → Type 0 where
  fresh : Prompt [] listening
  accepted :
      {log : List (ℕ × ℕ)} {s : Sockets} (r : Round) (peer : ℕ)
      → s.launched ≡ []
      → Prompt log s
      → Prompt (if starts r then (r.accepted, peer) ∷ log else log) (accept_round r peer s)
  refused :
      {log : List (ℕ × ℕ)} {s : Sockets} (r : Round) (peer : ℕ)
      → accepts r ≡ false
      → Prompt log s
      → Prompt log (accept_round r peer s)
  begun :
      {log : List (ℕ × ℕ)} {s : Sockets} (before : List ℕ) (fd : ℕ) (after : List ℕ)
      → s.launched ≡ before ++ fd ∷ after
      → Prompt log s
      → Prompt log (begin_handler before fd after s)

-- At most one handler has not begun, and it will read the address of its own client.
abbrev IsNamed : List (ℕ × ℕ) → Sockets → Type 0
IsNamed log s =
    ((s.launched ≡ []) × (s.serving ≡ log))
    ⊎ ((fd : ℕ) × (s.launched ≡ fd ∷ []) × ((fd, s.addr) ∷ s.serving ≡ log))

starts-accepts : (r : Round) → starts r ≡ true → accepts r ≡ true
unfolding starts accepts
starts-accepts r e = ground (arith, e)

accept_round-started :
    (r : Round) (peer : ℕ) (s : Sockets)
    → starts r ≡ true
    → accept_round r peer s ≡ record s { addr = peer; launched = r.accepted ∷ s.launched }
unfolding accept_round
accept_round-started r peer s e = rw e (rw (starts-accepts r e) refl)

accept_round-refused :
    (r : Round) (peer : ℕ) (s : Sockets) → accepts r ≡ false → accept_round r peer s ≡ s
unfolding accept_round
accept_round-refused r peer s e = elim (Bool-cases (starts r)) [
  | inl some_fd ↦ absurd (let f = starts-accepts r some_fd in cc)
  | inr no_fd ↦ rw no_fd (rw e refl)
]

accept_round-IsNamed :
    (log : List (ℕ × ℕ)) (s : Sockets) (r : Round) (peer : ℕ)
    → s.launched ≡ []
    → s.serving ≡ log
    → IsNamed (if starts r then (r.accepted, peer) ∷ log else log) (accept_round r peer s)
unfolding accept_round
accept_round-IsNamed log s r peer e f = elim (Bool-cases (starts r)) [
  | inl some_fd ↦
      rw some_fd (rw (starts-accepts r some_fd) (inr (r.accepted, rw e refl, rw f refl)))
  | inr no_fd ↦ elim (Bool-cases (accepts r)) [
    | inl zero_fd ↦ rw no_fd (rw zero_fd (inl (e, f)))
    | inr neither ↦ rw no_fd (rw neither (inl (e, f)))
  ]
]

-- A list of one, around an element of it.
alone :
    (before : List ℕ) (fd : ℕ) (after : List ℕ) (x : ℕ)
    → before ++ fd ∷ after ≡ x ∷ []
    → (before ++ after ≡ []) × (fd ≡ x)
alone [] fd after x e = (cc, cc)
alone (y ∷ []) fd after x e = absurd (cc)
alone (y ∷ z ∷ ys) fd after x e = absurd (cc)

none_launched : (before : List ℕ) (fd : ℕ) (after : List ℕ) → before ++ fd ∷ after ≢ []
none_launched [] fd after e = absurd (cc)
none_launched (y ∷ ys) fd after e = absurd (cc)

Prompt-IsNamed : {log : List (ℕ × ℕ)} {s : Sockets} → Prompt log s → IsNamed log s
unfolding begin_handler
Prompt-IsNamed fresh = inl (refl, refl)
Prompt-IsNamed (accepted {log = log} {s = s} r peer e p) = elim (Prompt-IsNamed p) [
  | inl (_, f) ↦ accept_round-IsNamed log s r peer e f
  | inr (fd, g, _) ↦ absurd (cc)
]
Prompt-IsNamed (refused {log = log} {s = s} r peer e p) =
    rw (accept_round-refused r peer s e) (Prompt-IsNamed p)
Prompt-IsNamed (begun {log = log} {s = s} before fd after e p) = elim (Prompt-IsNamed p) [
  | inl (f, _) ↦ absurd (none_launched before fd after (sym e ∙ f))
  | inr (x, f, g) ↦ let (h, k) = alone before fd after x (sym e ∙ f) in inl (h, rw k g)
]

-- However a run goes in which no client is accepted while a handler has not begun: once all handlers
-- have begun, each connection is served under the address of its own client, in the order in which
-- they were accepted.
pub prompt_handlers_named :
    (log : List (ℕ × ℕ)) (s : Sockets) → Prompt log s → s.launched ≡ [] → s.serving ≡ log
prompt_handlers_named log s p e = elim (Prompt-IsNamed p) [
  | inl (_, f) ↦ f
  | inr (fd, g, _) ↦ absurd (cc)
]

module _ ⦃d : Double⦄ ⦃net : Net⦄ where
  unknown_exits :
      (turn : Turn) (turns : List Turn) (ip fd : ℕ) (m : Manager)
      → turn.received.req_type ≡ cpu_type
      → find (container_id turn.received.cgroup_id (net.from_net ip)) m.ec.subcontainers ≡ none
      → handle_client_reqs_tcp (turn ∷ turns) ip fd m ≡ exited
  unfolding handle_client_reqs_tcp handle_client_req_tcp handle_req handle_cpu_usage_report stamp
      get_sc_for_update_back
  unknown_exits turn turns ip fd m c n =
      let not_mem : (turn.received.req_type == mem_type) ≡ false = ground arith in
      let is_cpu : (turn.received.req_type == cpu_type) ≡ true = ground arith in
      rw not_mem (rw is_cpu (rw n refl))

  -- Two clients that are accepted before a handler begins: both handlers can come to work under the
  -- address of the second. If the first client then reports its use of CPU time, as a group that
  -- has no container under the address of the second, the program is left.
  pub crossed_handlers_exit :
      (s : Sockets) (a b : Round) (peer_a peer_b : ℕ) (turn : Turn) (turns : List Turn)
      (m : Manager)
      → starts a ≡ true
      → starts b ≡ true
      → turn.received.req_type ≡ cpu_type
      → find (container_id turn.received.cgroup_id (net.from_net peer_b)) m.ec.subcontainers ≡ none
      → (t : Sockets) × Steps s t
        × (t.launched ≡ s.launched)
        × (t.serving ≡ (b.accepted, peer_b) ∷ (a.accepted, peer_b) ∷ s.serving)
        × (handle_client_reqs_tcp (turn ∷ turns) peer_b a.accepted m ≡ exited)
  unfolding begin_handler
  crossed_handlers_exit s a b peer_a peer_b turn turns m ea eb c n =
      let two = accept_round b peer_b (accept_round a peer_a s) in
      let two_eq : two
          ≡ record s { addr = peer_b; launched = b.accepted ∷ a.accepted ∷ s.launched } =
        rw (accept_round-started a peer_a s ea) (rw (accept_round-started b peer_b _ eb) refl) in
      let waiting : two.launched ≡ b.accepted ∷ a.accepted ∷ s.launched =
        ap (λ t. t.launched) two_eq in
      let first = begin_handler (b.accepted ∷ []) a.accepted s.launched two in
      (
        begin_handler [] b.accepted s.launched first,
        onward
            (onward (onward (onward here (round a peer_a)) (round b peer_b))
              (begin (b.accepted ∷ []) a.accepted s.launched waiting))
            (begin [] b.accepted s.launched refl),
        refl,
        rw two_eq refl,
        unknown_exits turn turns peer_b a.accepted m c n,
      )
