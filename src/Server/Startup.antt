-- ===== src/Server/Startup.antt =====
-- `initialize_tcp`, `initialize_udp` and the loops of `serve_tcp` and `serve_udp` of Server.cpp, with
-- the constructor of Manager that calls the first two. What the socket calls return is a parameter.
use ec_gcm.Common.{
  ℕ, ◌≡◌, ◌^◌, Bool, not, ◌&&◌, List, [], ◌∷◌, if◌then◌else◌, ◌==◌, leb, ltb, add32, arith, Outcome,
  ok, exited, ◌>>=◌,
}

-- What the four calls return, as `int` patterns.
pub record SocketCalls : Type 0 where
  pub socket : ℕ
  pub setsockopt : ℕ
  pub bind : ℕ
  pub listen : ℕ

-- The fields of a server that start-up writes.
pub record Listener : Type 0 where
  pub server_initialized : ℕ
  pub num_of_cli : ℕ
  pub tcp_fd : ℕ
  pub udp_fd : ℕ

-- `x < 0` for an `int`.
abbrev is_neg32 : ℕ → Bool
is_neg32 x = leb (2 ^ 31) x

unfoldable pub initialize_tcp : SocketCalls → Listener → Outcome Listener
initialize_tcp calls s =
    if calls.socket == 0
    then exited
    else if not (calls.setsockopt == 0)
    then exited
    else if is_neg32 calls.bind
    then exited
    else if is_neg32 calls.listen
    then exited
    else ok (record s {
      num_of_cli = 0;
      tcp_fd = calls.socket;
      server_initialized = add32 s.server_initialized 1;
    })

unfoldable pub initialize_udp : SocketCalls → Listener → Outcome Listener
initialize_udp calls s =
    if calls.socket == 0
    then exited
    else if not (calls.setsockopt == 0)
    then exited
    else if is_neg32 calls.bind
    then exited
    else ok (record s { udp_fd = calls.socket; server_initialized = add32 s.server_initialized 1 })

-- The `Server` part of the constructor of Manager. The sockets are not set before it.
unfoldable pub construct : ℕ → ℕ → SocketCalls → SocketCalls → Outcome Listener
construct tcp_before udp_before tcp udp = do
  first ←
      initialize_tcp tcp (record {
        server_initialized = 0;
        num_of_cli = 0;
        tcp_fd = tcp_before;
        udp_fd = udp_before;
      })
  initialize_udp udp first

-- The guard of both loops.
unfoldable pub serve_guard : Listener → Outcome Listener
serve_guard s = if s.server_initialized == 2 then ok s else exited

-- One round of `select`: whether the socket is ready, and what `accept` returns if it is.
pub record Round : Type 0 where
  pub ready : Bool
  pub accepted : ℕ

-- `accept` returned a descriptor, and one that the loop takes for a connection.
unfoldable pub accepts : Round → Bool
accepts r = r.ready && not (is_neg32 r.accepted)

unfoldable pub starts : Round → Bool
starts r = r.ready && (ltb 0 r.accepted && not (is_neg32 r.accepted))

-- The connections for which `serve_tcp` starts a handler, over rounds of its loop.
unfoldable pub start_handlers : List Round → List ℕ
start_handlers [] = []
start_handlers (r ∷ rounds) =
    let rest = start_handlers rounds in if starts r then r.accepted ∷ rest else rest

unfoldable pub serve_tcp : List Round → Listener → Outcome (List ℕ)
serve_tcp rounds s = do _ ← serve_guard s; ok (start_handlers rounds)

-- No call that start-up makes failed, as the code sees it.
abbrev pub all_open : SocketCalls → SocketCalls → Bool
all_open tcp udp =
    (not (tcp.socket == 0)
      && (tcp.setsockopt == 0)
      && ltb tcp.bind (2 ^ 31)
      && ltb tcp.listen (2 ^ 31))
    && (not (udp.socket == 0) && (udp.setsockopt == 0) && ltb udp.bind (2 ^ 31))

-- A manager whose sockets are set up serves exactly when each of the seven calls of its start-up
-- succeeded, where a socket of 0 counts as a failure and one of -1 is left to `setsockopt` to
-- refuse: it then starts a handler for each connection that is accepted. If one call failed, the
-- program is left before it serves. What the sockets were before does not matter.
pub construct-serve_tcp :
    (tcp_before udp_before : ℕ) (tcp udp : SocketCalls) (rounds : List Round)
    → (construct tcp_before udp_before tcp udp >>= serve_tcp rounds)
      ≡ (if all_open tcp udp then ok (start_handlers rounds) else exited)
unfolding construct initialize_tcp initialize_udp serve_tcp serve_guard
construct-serve_tcp tcp_before udp_before tcp udp rounds = ground arith
