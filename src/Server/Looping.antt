-- ===== src/Server/Looping.antt =====
-- QuicServer::OnEvent of net/tools/quic/quic_server.cc as a callback of the event loop.
use quic_toy.EventLoop.{epollout, epollin}
use quic_toy.EventLoop.Callbacks.{Call, OnEvent}
use quic_toy.Socket.{Received}
use quic_toy.Server.Schedule.{Host}
use quic_toy.Server.{on_event}
use Prim.Native.Nat.{bit_and}
use quic_toy.Dispatcher.{Framer}
use quic_toy.Writer.{Platform}
use quic_toy.TimeWait.{Flags}
use quic_toy.Session.{Connections}
use quic_toy.Base.{if◌then◌else◌, List, nat_beq, not, Bool, ℕ, nat_eq, none, some, []}

-- `events & bits`
abbrev pub has_bits : ℕ → ℕ → Bool
has_bits bits events = not (nat_beq (bit_and events bits) 0)

module _ (conns : Connections) (flags : Flags) (platform : Platform) (framer : Framer)
    (port server_cb : ℕ) where
  open conns use {Conn}

  -- OnEvent of the server, of what the socket holds, and of the other callbacks, which ask for nothing.
  -- A call in which exit ends the program asks for nothing either, and nobody reads its answer.
  unfoldable pub server_on_event : Host Conn → List Received → OnEvent
  unfolding on_event
  server_on_event h datagrams log cb fd in_events =
      let result =
        on_event conns flags platform framer (has_bits epollin in_events)
          (has_bits epollout in_events) datagrams port h.now h.dropped h.dispatcher in
      let answer : List Call × ℕ = elim result [
        | none ↦ ([], 0)
        | some (d, dropped, again) ↦ ([], if again then epollout else 0)
      ] in
      if nat_beq cb server_cb then answer else ([], 0)
