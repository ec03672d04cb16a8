-- ===== src/Server.antt =====
-- net/tools/quic/quic_server.cc and .h: the server, which owns the UDP socket, reads datagrams from
-- it and hands them to the dispatcher.
--
-- The system calls and the addresses' families are parameters. `none` is, as in the dispatcher, a
-- call that does not return normally.
pub mod Events
pub mod Starting
pub mod Schedule
pub mod Alarms
pub mod Life
pub mod Looping
pub mod Awake
use quic_toy.Socket.{
  so_rxq_ovfl, sol_socket, set_send_buffer_size, Received, set_receive_buffer_size, SetSockOpt,
  read_packet, set_get_address_info,
}
use quic_toy.Base.Int.{pos, ltb_ℤ, negsuc, ℤ}
use quic_toy.Base.{
  ◌&&◌, take, ◌>>=◌, true, not, some, none, [], false, nat_beq, ◌∷◌, Option, if◌then◌else◌, ◌++◌,
  List, Bool, ◌*◌, ℕ,
}
use quic_toy.Dispatcher.{Dispatcher, has_pending_writes, shutdown, on_can_write, Framer}
use quic_toy.Writer.{Platform}
use quic_toy.TimeWait.{Flags}
use quic_toy.Session.{Connections}
use quic_toy.Net.{IpEndPoint, IpAddress}
use quic_toy.Dispatcher.Packets
use quic_toy.Dispatcher

-- The default flow control windows of a QuicConfig.
pub record Windows : Type 0 where
  pub stream : ℕ
  pub session : ℕ

-- The constructor's choice; `minimum` is kMinimumFlowControlSendWindow, which a new config has.
unfoldable pub server_windows : ℕ → Windows → Windows
server_windows minimum w = record {
  stream = 30 * 1024;
  session = if nat_beq w.session minimum then 1 * 1024 * 1024 else w.session;
}

-- The calls of the kernel: the family of an address, socket, setsockopt, bind and getsockname.
pub record System : Type 0 where
  pub address_family : IpAddress → ℕ
  pub socket : ℕ → ℤ
  pub setsockopt : SetSockOpt
  pub bind : ℕ → IpEndPoint → ℤ
  pub getsockname : ℕ → Option IpEndPoint

pub record Server (Conn : Type 0) : Type 0 where
  pub port : ℕ
  pub fd : ℤ
  pub packets_dropped : ℕ
  pub overflow_supported : Bool
  pub windows : Windows
  pub supported_versions : List ℕ
  pub registered : List ℕ
  pub dispatcher : Option (Dispatcher Conn)

module _ (conns : Connections) (flags : Flags) (platform : Platform) (framer : Framer) where
  open conns use {Conn}

  unfoldable pub new_server : ℕ → Windows → List ℕ → Server Conn
  unfolding server_windows
  new_server minimum config versions = record {
    port = 0;
    fd = negsuc 0;
    packets_dropped = 0;
    overflow_supported = false;
    windows = server_windows minimum config;
    supported_versions = versions;
    registered = [];
    dispatcher = none;
  }

  module _ (system : System) (default_socket_receive_buffer initial_version now later : ℕ) where
    -- The end of Listen: the socket is registered and the dispatcher made.
    unfoldable pub start : ℕ → Server Conn → Server Conn
    unfolding Packets.new_dispatcher
    start fd s = record s {
      registered = s.registered ++ fd ∷ [];
      dispatcher = some (
          Packets.new_dispatcher conns flags platform framer fd s.supported_versions initial_version
            now later (record { address = []; port = 0 }));
    }

    unfoldable pub listen_at : ℕ → IpEndPoint → Server Conn → Server Conn × Bool
    unfolding start
    listen_at fd address s =
        if ltb_ℤ (system.bind fd address) (pos 0)
        then (s, false)
        else if not (nat_beq s.port 0)
        then (start fd s, true)
        else elim (system.getsockname fd) [
          | none ↦ (s, false)
          | some bound ↦ (start fd (record s { port = bound.port }), true)
        ]

    -- Listen from the point where the socket is open.
    unfoldable pub listen_on : ℕ → IpEndPoint → Server Conn → Server Conn × Bool
    unfolding listen_at set_get_address_info set_receive_buffer_size set_send_buffer_size
    listen_on fd address s =
        let family = system.address_family address.address in
        let s' = record s {
          overflow_supported =
              if ltb_ℤ (system.setsockopt fd sol_socket so_rxq_ovfl 1) (pos 0)
              then s.overflow_supported
              else true;
        } in
        if ltb_ℤ (set_get_address_info system.setsockopt fd family) (pos 0)
        then (s, false)
        else if not (set_receive_buffer_size system.setsockopt fd default_socket_receive_buffer)
        then (s', false)
        else if not (set_send_buffer_size system.setsockopt fd default_socket_receive_buffer)
        then (s', false)
        else listen_at fd address s'

    unfoldable pub listen : IpEndPoint → Server Conn → Server Conn × Bool
    unfolding listen_on
    listen address s = elim (system.socket (system.address_family address.address)) [
      | negsuc e ↦ (record s { port = address.port; fd = negsuc e }, false)
      | pos fd ↦ listen_on fd address (record s { port = address.port; fd = pos fd })
    ]

  -- ReadAndDispatchSinglePacket, of what recvmsg gives. The counter is none where overflow is not
  -- supported.
  unfoldable pub read_and_dispatch_single_packet :
      Received → ℕ → Option ℕ → ℕ → Dispatcher Conn → Option (Dispatcher Conn × Option ℕ × Bool)
  unfolding read_packet Packets.process_packet
  read_and_dispatch_single_packet r port dropped now d =
      let result = read_packet r dropped [] (record { address = []; port = 0 }) in
      elim result.bytes_read [
        | negsuc _ ↦ some (d, result.dropped_packets, false)
        | pos n ↦ do
          d' ←
              Packets.process_packet conns flags platform framer
                (record { address = result.self_address; port = port }) result.peer_address
                (take n r.header.msg_iov) now d
          some (d', result.dropped_packets, true)
      ]

  -- The loop of OnEvent over what the socket holds; a recvmsg after the last fails.
  unfoldable pub read_loop :
      List Received → ℕ → Option ℕ → ℕ → Dispatcher Conn → Option (Dispatcher Conn × Option ℕ)
  unfolding read_and_dispatch_single_packet
  read_loop [] port dropped now d = some (d, dropped)
  read_loop (r ∷ rs) port dropped now d = do
    (d', dropped', read) ← read_and_dispatch_single_packet r port dropped now d
    let rest = read_loop rs port dropped' now d'
    if read && not d'.exited then rest else some (d', dropped')

  -- EPOLLIN and EPOLLOUT of in_events. The last result is EPOLLOUT of out_ready_mask, which
  -- nobody reads if the program has ended.
  unfoldable pub on_event :
      Bool
      → Bool
      → List Received
      → ℕ
      → ℕ
      → Option ℕ
      → Dispatcher Conn
      → Option (Dispatcher Conn × Option ℕ × Bool)
  unfolding read_loop on_can_write has_pending_writes
  on_event readable writable rs port now dropped d = do
    (d', dropped') ← (if readable then read_loop rs port dropped now d else some (d, dropped))
    if not writable
        then some (d', dropped', false)
        else if d'.exited
        then some (d', dropped', false)
        else (on_can_write conns flags platform now d' >>= λ d''.
            some (d'', dropped', not d''.exited && has_pending_writes conns flags d''))

  -- Shutdown without a dispatcher dereferences a null pointer. The socket is closed at last.
  unfoldable pub shutdown_server : ℕ → Server Conn → Option (Server Conn)
  unfolding shutdown
  shutdown_server now s = do
    d ← s.dispatcher
    d' ← shutdown conns flags platform now d
    some (record s { dispatcher = some d'; fd = if d'.exited then s.fd else negsuc 0 })
