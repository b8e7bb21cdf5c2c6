-- ===== src/Server.antt =====
-- Server.cpp: one message of a client, from the bytes that are read to the bytes that are written.
-- The sockets are not modelled: a message is what was read, and an answer is what is written, if
-- anything.
pub mod Laws
pub mod Connections
pub mod Datagrams
pub mod Startup
pub mod Udp
use ec_gcm.Common.{
  ℕ, Bool, Option, none, some, List, [], ◌∷◌, if◌then◌else◌, ◌==◌, ◌&&◌, Outcome, ok, ◌>>=◌,
}
use ec_gcm.Platform.{Double, Net, World}
use ec_gcm.Msg.{Msg, copy, zeroed, alloc_init, alloc_success, alloc_mem_failed}
use ec_gcm.Manager.{Manager}
use ec_gcm.Manager.Admission.{handle_req}

-- Which results of `handle_req` are written back.
unfoldable pub answer : Msg → ℕ → Option Msg
answer res code =
    if code == alloc_init
    then some res
    else if (code == alloc_success) && (res.request == 0)
    then some res
    else if code == alloc_mem_failed
    then some res
    else none

-- The one result that is sent back over UDP.
unfoldable pub udp_answer : Msg → ℕ → Option Msg
udp_answer res code = if (res.request == 0) && (code == alloc_success) then some res else none

-- One turn of the loop over a connection: what was read, with what the world answers meanwhile, and
-- whether a write succeeds.
pub record Turn : Type 0 where
  pub world : World
  pub now : ℕ
  pub garbage : ℕ
  pub received : Msg
  pub write_ok : Bool

module _ ⦃net : Net⦄ where
  -- `set_ip_from_net`.
  unfoldable pub stamp : ℕ → Msg → Msg
  stamp client_ip m = record m { client_ip = net.from_net client_ip }

  -- `set_ip_from_host`, of the address that the message holds.
  unfoldable pub stamp_host : Msg → Msg
  stamp_host m = record m { client_ip = net.from_host (net.to_uint32 m.client_ip) }

module _ ⦃d : Double⦄ ⦃net : Net⦄ where
  -- The body of the loop of `handle_client_reqs_tcp`; `garbage` is what the copy leaves unset.
  unfoldable pub handle_client_req_tcp :
      World → ℕ → ℕ → Msg → ℕ → ℕ → Manager → Outcome (Manager × Option Msg)
  handle_client_req_tcp world now garbage received client_ip client_fd m =
      let req = stamp client_ip received in
      do
        r ←
            handle_req world now req (copy garbage req) (net.to_uint32 (net.from_net client_ip))
              client_fd m
        ok (r.0, answer r.1 r.2)

  -- A write that fails ends the connection. The calls read until the client closes it.
  unfoldable pub handle_client_reqs_tcp : List Turn → ℕ → ℕ → Manager → Outcome (Manager × List Msg)
  handle_client_reqs_tcp [] client_ip client_fd m = ok (m, [])
  handle_client_reqs_tcp (t ∷ turns) client_ip client_fd m = do
    r ← handle_client_req_tcp t.world t.now t.garbage t.received client_ip client_fd m
    elim r.1 [
      | none ↦ handle_client_reqs_tcp turns client_ip client_fd r.0
      | some res ↦
          if t.write_ok
          then (do s ← handle_client_reqs_tcp turns client_ip client_fd r.0; ok (s.0, res ∷ s.1))
          else ok (r.0, [])
    ]

  -- `handle_client_reqs_udp`: a read that fails leaves the zeroes of the buffer.
  unfoldable pub handle_client_reqs_udp :
      World → ℕ → ℕ → Option Msg → ℕ → ℕ → Manager → Outcome (Manager × Option Msg)
  handle_client_reqs_udp world now garbage received client_ip client_fd m =
      let req = stamp_host (elim received [ none ↦ zeroed | some msg ↦ msg ]) in
      do
        r ←
            handle_req world now req (copy garbage req) (net.to_uint32 (net.from_net client_ip))
              client_fd m
        ok (r.0, udp_answer r.1 r.2)
