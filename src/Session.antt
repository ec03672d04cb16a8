-- ===== src/Session.antt =====
-- net/tools/quic/quic_server_session.cc and .h: a server's session, between a connection of the
-- QUIC library and the dispatcher that the session reports to. The connection itself is the
-- library's; `Connections` is what the program uses of it.
use quic_toy.Base.{◌⊎◌, [], ◌∷◌, ◌≡◌, true, ℕ, List, Bool, false, Option, none, some}
use quic_toy.Net.{IpAddress, IpEndPoint, EncryptedPacket}
use quic_toy.Writer.{Attempt}

-- What a connection does while it handles an event, in order: a packet for the shared writer, a
-- call of its session's OnConnectionClosed or OnWriteBlocked, a new stream, or a call of a stream's
-- OnClose. A close comes with the ids of the streams that are open then, which the base class
-- QuicSession of the library keeps.
pub data Action : Type 0 where
  writes : EncryptedPacket → IpAddress → IpEndPoint → Action
  closes : ℕ → Bool → List ℕ → Action
  blocks : Action
  creates_stream : ℕ → Action
  closes_stream : ℕ → Action

-- QuicConnection. An event's actions may depend on what came of all earlier writes.
pub record Connections : Type 1 where
  pub Conn : Type 0
  -- QUIC_PEER_GOING_AWAY
  pub quic_peer_going_away : ℕ
  -- CreateQuicSession: connection id, server and client address.
  pub create : ℕ → IpEndPoint → IpEndPoint → Option Conn
  pub connection_id : Conn → ℕ
  pub version : Conn → ℕ
  pub release_connection_close_packet : Conn → Option EncryptedPacket
  pub process_udp_packet :
      IpEndPoint → IpEndPoint → EncryptedPacket → List Attempt → Conn → Conn × List Action
  pub on_can_write : List Attempt → Conn → Conn × List Action
  pub send_connection_close : ℕ → List Attempt → Conn → Conn × List Action
  -- The call of one of its alarms, by a number: timeout, retransmission, and others.
  pub on_alarm : ℕ → List Attempt → Conn → Conn × List Action

-- `handle` is the address of the connection. The crypto stream counts by whether it has callbacks
-- outstanding, and is missing until InitializeSession.
pub record Session (Conn : Type 0) : Type 0 where
  pub handle : ℕ
  pub connection : Conn
  pub crypto_stream : Option Bool

-- What a session tells its visitor, the dispatcher.
pub data Visit : Type 0 where
  connection_closed : ℕ → ℕ → Visit
  write_blocked : ℕ → Visit

-- The session after a call and what it has told its visitor, or the exit code of the program.
pub data Reported (Conn : Type 0) : Type 0 where
  program_exits : ℕ → Reported Conn
  reports : Session Conn → Visit → Reported Conn

-- QuicServerStream::OnClose calls exit(0).
abbrev pub on_close_code : ℕ
on_close_code = 0

module _ {Conn : Type 0} (connection_id : Conn → ℕ) where
  -- The constructor, and InitializeSession.
  unfoldable pub new_session : ℕ → Conn → Session Conn
  new_session handle c = record { handle = handle; connection = c; crypto_stream = none }

  unfoldable pub initialize_session : Session Conn → Session Conn
  initialize_session s = record s { crypto_stream = some false }

  -- CancelOutstandingCallbacks
  abbrev cancel_outstanding_callbacks : Option Bool → Option Bool
  cancel_outstanding_callbacks none = none
  cancel_outstanding_callbacks (some _) = some false

  -- QuicSession::OnConnectionClosed comes first, and calls OnClose of the streams that are open.
  unfoldable pub on_connection_closed : ℕ → Bool → List ℕ → Session Conn → Reported Conn
  on_connection_closed error from_peer (stream ∷ _) s = program_exits on_close_code
  on_connection_closed error from_peer [] s =
      reports (record s { crypto_stream = cancel_outstanding_callbacks s.crypto_stream })
        (connection_closed (connection_id s.connection) error)

  unfoldable pub on_write_blocked : Session Conn → Visit
  on_write_blocked s = write_blocked s.handle

-- A connection that has reported its close does not report anything more; it may still write.
abbrev pub JustWrites : List Action → Type 0
JustWrites [] = Unit
JustWrites (writes b s p ∷ rest) = JustWrites rest
JustWrites (closes e p open_streams ∷ rest) = ⊥
JustWrites (blocks ∷ rest) = ⊥
JustWrites (creates_stream i ∷ rest) = JustWrites rest
JustWrites (closes_stream i ∷ rest) = ⊥

abbrev pub Orderly : List Action → Type 0
Orderly [] = Unit
Orderly (writes b s p ∷ rest) = Orderly rest
Orderly (closes e p open_streams ∷ rest) = JustWrites rest
Orderly (blocks ∷ rest) = Orderly rest
Orderly (creates_stream i ∷ rest) = Orderly rest
Orderly (closes_stream i ∷ rest) = Orderly rest

-- The connection reports a close, and the program goes on.
abbrev pub has_close : List Action → Bool
has_close [] = false
has_close (writes b s p ∷ rest) = has_close rest
has_close (closes e p [] ∷ rest) = true
has_close (closes e p (i ∷ _) ∷ rest) = false
has_close (blocks ∷ rest) = has_close rest
has_close (creates_stream i ∷ rest) = has_close rest
has_close (closes_stream i ∷ rest) = false

-- A stream is closed, by itself or with its session.
abbrev pub has_exit : List Action → Bool
has_exit [] = false
has_exit (writes b s p ∷ rest) = has_exit rest
has_exit (closes e p [] ∷ rest) = false
has_exit (closes e p (i ∷ _) ∷ rest) = true
has_exit (blocks ∷ rest) = has_exit rest
has_exit (creates_stream i ∷ rest) = has_exit rest
has_exit (closes_stream i ∷ rest) = true

-- What the program relies on: a connection keeps its id; it reports a close at most once and nothing
-- after it; and it reports one when it is told to close, unless a stream is closed on the way.
pub record IsLawful (conns : Connections) : Type 0 where
  pub create_id :
      (id : ℕ) (server client : IpEndPoint) (c : conns.Conn)
      → conns.create id server client ≡ some c
      → conns.connection_id c ≡ id
  pub packet_id :
      (server client : IpEndPoint) (packet : EncryptedPacket) (log : List Attempt) (c : conns.Conn)
      → conns.connection_id (conns.process_udp_packet server client packet log c).0
        ≡ conns.connection_id c
  pub packet_orderly :
      (server client : IpEndPoint) (packet : EncryptedPacket) (log : List Attempt) (c : conns.Conn)
      → Orderly (conns.process_udp_packet server client packet log c).1
  pub write_id :
      (log : List Attempt) (c : conns.Conn)
      → conns.connection_id (conns.on_can_write log c).0 ≡ conns.connection_id c
  pub write_orderly : (log : List Attempt) (c : conns.Conn) → Orderly (conns.on_can_write log c).1
  pub close_id :
      (error : ℕ) (log : List Attempt) (c : conns.Conn)
      → conns.connection_id (conns.send_connection_close error log c).0 ≡ conns.connection_id c
  pub close_orderly :
      (error : ℕ) (log : List Attempt) (c : conns.Conn)
      → Orderly (conns.send_connection_close error log c).1
  pub close_reported :
      (error : ℕ) (log : List Attempt) (c : conns.Conn)
      → (has_close (conns.send_connection_close error log c).1 ≡ true)
        ⊎ (has_exit (conns.send_connection_close error log c).1 ≡ true)
  pub alarm_id :
      (which : ℕ) (log : List Attempt) (c : conns.Conn)
      → conns.connection_id (conns.on_alarm which log c).0 ≡ conns.connection_id c
  pub alarm_orderly :
      (which : ℕ) (log : List Attempt) (c : conns.Conn) → Orderly (conns.on_alarm which log c).1

-- No event closes a stream.
abbrev pub ClosesNoStream : Connections → Type 0
ClosesNoStream conns =
    ((server client : IpEndPoint) (packet : EncryptedPacket) (log : List Attempt) (c : conns.Conn)
      → has_exit (conns.process_udp_packet server client packet log c).1 ≡ false)
    × ((log : List Attempt) (c : conns.Conn) → has_exit (conns.on_can_write log c).1 ≡ false)
    × ((error : ℕ) (log : List Attempt) (c : conns.Conn)
        → has_exit (conns.send_connection_close error log c).1 ≡ false)
    × ((which : ℕ) (log : List Attempt) (c : conns.Conn)
        → has_exit (conns.on_alarm which log c).1 ≡ false)
