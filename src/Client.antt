-- ===== src/Client.antt =====
-- net/tools/quic/quic_client.cc and .h: the client, with its socket, its one session and its writer.
--
-- The session and its connection are the library's, as are the system calls; an event is what the
-- event loop reports of the client's socket.
pub mod Laws
pub mod Opening
use quic_toy.Base.Int.{negsuc, pos, ltb_ℤ, ℤ}
use quic_toy.Writer.{Link, set_writable}
use quic_toy.Socket.{
  so_rxq_ovfl, sol_socket, set_send_buffer_size, set_receive_buffer_size, set_get_address_info,
  Received, read_packet,
}
use quic_toy.Server.{Windows, System}
use quic_toy.Net.{EncryptedPacket, IpAddress, IpEndPoint}
use quic_toy.Base.{
  take, true, none, false, length, ◌*◌, Option, ◌&&◌, some, not, nat_beq, [], if◌then◌else◌, List,
  ◌++◌, ◌∷◌, ℕ, Bool, ◌>>=◌,
}

-- What the client uses of a session and its connection, which share the writer.
pub record ClientSession : Type 1 where
  pub Conn : Type 0
  pub connected : Conn → Bool
  pub is_encryption_established : Conn → Bool
  pub process_udp_packet : IpEndPoint → IpEndPoint → EncryptedPacket → Conn → Link → Conn × Link
  pub on_can_write : Conn → Link → Conn × Link
  pub send_connection_close : Conn → Link → Conn × Link
  -- The constructor, InitializeSession and CryptoConnect, for a server's address.
  pub start : IpEndPoint → Link → Conn × Link

pub record Event : Type 0 where
  pub readable : Bool
  pub writable : Bool
  pub datagrams : List Received

pub record Client (Conn : Type 0) : Type 0 where
  pub server_address : IpEndPoint
  pub client_address : IpEndPoint
  pub bind_to_address : IpAddress
  pub local_port : ℕ
  pub fd : ℤ
  pub initialized : Bool
  pub packets_dropped : ℕ
  pub overflow_supported : Bool
  pub windows : Windows
  pub registered : List ℕ
  pub writer : Link
  pub session : Option Conn

-- The choice of Initialize, by kMinimumFlowControlSendWindow.
unfoldable pub client_windows : ℕ → Windows → Windows
client_windows minimum w = record {
  stream = if nat_beq w.stream minimum then 10 * 1024 * 1024 else w.stream;
  session = if nat_beq w.session minimum then 10 * 1024 * 1024 else w.session;
}

abbrev any4 : IpAddress
any4 = 0 ∷ 0 ∷ 0 ∷ 0 ∷ []

abbrev any6 : IpAddress
any6 = any4 ++ any4 ++ any4 ++ any4

abbrev pub remove_fd : ℕ → List ℕ → List ℕ
remove_fd fd [] = []
remove_fd fd (x ∷ xs) = if nat_beq x fd then remove_fd fd xs else x ∷ remove_fd fd xs

module _ (sessions : ClientSession) where
  open sessions use {Conn}

  unfoldable pub connected : Client Conn → Bool
  connected c = elim c.session [ none ↦ false | some s ↦ sessions.connected s ]

  module _ (system : System) (af_inet default_socket_receive_buffer minimum_window : ℕ) where
    abbrev pub bind_address : Client Conn → IpAddress
    bind_address c =
        if not (nat_beq (length c.bind_to_address) 0)
        then c.bind_to_address
        else if nat_beq (system.address_family c.server_address.address) af_inet
        then any4
        else any6

    -- CreateUDPSocket from its bind on. A failing getsockname is only logged.
    unfoldable pub bind_socket : ℕ → Client Conn → Client Conn × Bool
    bind_socket fd c =
        let local : IpEndPoint = record { address = bind_address c; port = c.local_port } in
        if ltb_ℤ (system.bind fd local) (pos 0)
        then (record c { client_address = local }, false)
        else elim (system.getsockname fd) [
          | none ↦ (record c { client_address = local }, true)
          | some bound ↦ (record c { client_address = bound }, true)
        ]

    unfoldable pub create_udp_socket : Client Conn → Client Conn × Bool
    unfolding bind_socket set_get_address_info set_receive_buffer_size set_send_buffer_size
    create_udp_socket c =
        let family = system.address_family c.server_address.address in
        elim (system.socket family) [
          | negsuc e ↦ (record c { fd = negsuc e }, false)
          | pos fd ↦
              let c' = record c {
                fd = pos fd;
                overflow_supported =
                    if ltb_ℤ (system.setsockopt fd sol_socket so_rxq_ovfl 1) (pos 0)
                    then c.overflow_supported
                    else true;
              } in
              if not (set_receive_buffer_size system.setsockopt fd default_socket_receive_buffer)
              then (c', false)
              else if not (set_send_buffer_size system.setsockopt fd default_socket_receive_buffer)
              then (c', false)
              else if ltb_ℤ (set_get_address_info system.setsockopt fd family) (pos 0)
              then (c', false)
              else bind_socket fd c'
        ]

    -- The socket is registered once it is there.
    abbrev pub register : Client Conn × Bool → Client Conn × Bool
    register (c, created) = elim c.fd [
      | negsuc _ ↦ (c, false)
      | pos fd ↦
          if created
          then (record c { registered = fd ∷ c.registered; initialized = true }, true)
          else (c, false)
    ]

    unfoldable pub initialize : Client Conn → Client Conn × Bool
    unfolding create_udp_socket client_windows
    initialize c =
        register
          (create_udp_socket (record c { windows = client_windows minimum_window c.windows }))

  -- ReadAndProcessPacket, of what recvmsg gives, with a session.
  unfoldable pub read_and_process_packet : Received → Conn → Client Conn → Client Conn × Bool
  unfolding read_packet
  read_and_process_packet r s c =
      let counter = if c.overflow_supported then some c.packets_dropped else none in
      let result = read_packet r counter [] (record { address = []; port = 0 }) in
      let dropped : ℕ = elim result.dropped_packets [ none ↦ c.packets_dropped | some n ↦ n ] in
      elim result.bytes_read [
        | negsuc _ ↦ (record c { packets_dropped = dropped }, false)
        | pos n ↦
            let (s', writer) =
              sessions.process_udp_packet
                (record { address = result.self_address; port = c.client_address.port })
                result.peer_address (take n r.header.msg_iov) s c.writer in
            (record c { packets_dropped = dropped; session = some s'; writer = writer }, true)
      ]

  -- The loop of OnEvent over what the socket holds; a recvmsg after the last fails.
  unfoldable pub read_loop : List Received → Client Conn → Client Conn
  unfolding connected read_and_process_packet
  read_loop [] c = c
  read_loop (r ∷ rs) c = elim c.session [
    | none ↦ c
    | some s ↦
        let (c', read) = read_and_process_packet r s c in
        let rest = read_loop rs c' in
        if not (sessions.connected s) then c else if read then rest else c'
  ]

  can_write : Client Conn → Client Conn
  unfolding set_writable
  can_write c = elim c.session [
    | none ↦ c
    | some s ↦
        let (s', writer) = sessions.on_can_write s (set_writable c.writer) in
        record c { session = some s'; writer = writer }
  ]

  unfoldable pub on_event : Event → Client Conn → Client Conn
  unfolding read_loop can_write connected
  on_event e c =
      let c' = if e.readable then read_loop e.datagrams c else c in
      if connected c' && e.writable then can_write c' else c'

  abbrev is_waiting : Conn → Bool
  is_waiting s = not (sessions.is_encryption_established s) && sessions.connected s

  -- The loop of Connect over the events that come, and its result; `none` if it would wait for more,
  -- or if the session is gone.
  unfoldable pub connect_loop : List Event → Client Conn → Option (Client Conn × Bool)
  unfolding on_event
  connect_loop [] c = do
    s ← c.session
    if is_waiting s then none else some (c, sessions.connected s)
  connect_loop (e ∷ es) c = do
    s ← c.session
    let rest = connect_loop es (on_event e c)
    if is_waiting s then rest else some (c, sessions.connected s)

  -- Connect of a client that has a socket; the fields of an earlier session are overwritten.
  unfoldable pub connect : List Event → Client Conn → Option (Client Conn × Bool)
  unfolding connect_loop
  connect events c = elim c.fd [
    | negsuc _ ↦ none
    | pos fd ↦
        let writer : Link = record {
          fd = fd;
          write_blocked = false;
          attempts = [];
          write_blocked_list = [];
        } in
        let (s, writer') = sessions.start c.server_address writer in
        connect_loop events (record c { writer = writer'; session = some s })
  ]

  unfoldable pub disconnect : Client Conn → Client Conn
  unfolding connected
  disconnect c =
      let closed : Client Conn = elim c.session [
        | none ↦ c
        | some s ↦
            let (s', writer) = sessions.send_connection_close s c.writer in
            if sessions.connected s then record c { session = some s'; writer = writer } else c
      ] in
      elim closed.fd [
        | negsuc e ↦ record closed { initialized = false }
        | pos fd ↦ record closed {
          fd = negsuc 0;
          registered = remove_fd fd closed.registered;
          initialized = false;
        }
      ]
