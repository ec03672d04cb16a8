-- ===== src/Dispatcher.antt =====
-- net/tools/quic/quic_dispatcher.cc and .h: the server's dispatcher, which hands each packet to its
-- session, to the time-wait list, or to a new session.
--
-- The clock's reading `now` is fixed during a callback of the event loop. `none` is a call that does
-- not return normally: an endless loop, a dangling pointer, or front() of an empty vector. A call in
-- which exit(0) ends the program leaves the state of that moment, with `exited` set.
pub mod Packets
pub mod Invariant
pub mod Handles
pub mod Closing
pub mod Actions
pub mod Events
pub mod Writing
pub mod Shutdown
pub mod Routing
pub mod Routes
pub mod Choice
pub mod Processing
pub mod Initial
use quic_toy.Base.{
  ℕ, zero, suc, List, [], ◌∷◌, ◌++◌, Bool, true, false, not, Option, none, some, length, nat_beq,
  nat_eq, if◌then◌else◌, ◌>>=◌,
}
use quic_toy.Base.LinkedMap.{find, erase, assign}
use quic_toy.Net.{IpEndPoint, EncryptedPacket}
use quic_toy.Writer.{
  Platform, Link, BlockedWriter, time_wait_manager, connection, writer_eq, write_packet,
  set_writable,
}
use quic_toy.Writer
use quic_toy.TimeWait.{Flags, TimeWaitList, PublicResetPacket}
use quic_toy.TimeWait
use quic_toy.Session.{
  Action, writes, closes, blocks, creates_stream, closes_stream, program_exits, reports,
  Connections, Session, Visit, connection_closed, write_blocked,
}
use quic_toy.Session

-- QuicPacketPublicHeader
pub record PublicHeader : Type 0 where
  pub connection_id : ℕ
  pub reset_flag : Bool
  pub version_flag : Bool
  pub versions : List ℕ

-- QuicFramer: the public header of a packet, whether a header's version differs from the one the
-- framer is set to, the packet's sequence number at that version, and the other calls.
pub record Framer : Type 0 where
  pub public_header : EncryptedPacket → Option PublicHeader
  pub is_version_mismatch : ℕ → PublicHeader → Bool
  pub sequence_number : ℕ → EncryptedPacket → Option ℕ
  pub is_supported_version : ℕ → Bool
  pub build_public_reset_packet : PublicResetPacket → EncryptedPacket

-- A closed session is known by its connection's address. `next_handle` is where the next connection
-- will be allocated. `exited` is set once exit(0) has been called; nothing is done after that.
pub record Dispatcher (Conn : Type 0) : Type 0 where
  pub link : Link
  pub session_map : List (ℕ × Session Conn)
  pub time_wait_list : TimeWaitList
  pub closed_session_list : List ℕ
  pub delete_sessions_alarm : Option ℕ
  pub supported_versions : List ℕ
  pub current_server_address : IpEndPoint
  pub current_client_address : IpEndPoint
  pub current_packet : EncryptedPacket
  pub framer_version : ℕ
  pub next_handle : ℕ
  pub exited : Bool

abbrev is_empty {ℓ} : {A : Type ℓ} → List A → Bool
is_empty [] = true
is_empty (_ ∷ _) = false

module _ {Conn : Type 0} where
  -- A blocked writer is found by its address.
  unfoldable pub find_handle : ℕ → List (ℕ × Session Conn) → Option (ℕ × Session Conn)
  find_handle h [] = none
  find_handle h ((id, s) ∷ m) = if nat_beq s.handle h then some (id, s) else find_handle h m

module _ (conns : Connections) (flags : Flags) where
  open conns use {Conn}

  unfoldable pub clean_up_session :
      ℕ → Session Conn → ℕ → Dispatcher Conn → Option (Dispatcher Conn)
  unfolding erase
  clean_up_session id s now d = do
    list ←
        TimeWait.add_connection_id_to_time_wait flags id (conns.version s.connection)
          (conns.release_connection_close_packet s.connection) now d.time_wait_list
    some (record d {
      link = record (d.link) {
        write_blocked_list = erase (connection s.handle) d.link.write_blocked_list;
      };
      time_wait_list = list;
      session_map = erase id d.session_map;
    })

  -- `error` is only logged.
  unfoldable pub on_connection_closed : ℕ → ℕ → ℕ → Dispatcher Conn → Option (Dispatcher Conn)
  unfolding clean_up_session find
  on_connection_closed id error now d = elim (find id d.session_map) [
    | none ↦ some d
    | some s ↦ clean_up_session id s now (record d {
      delete_sessions_alarm =
          if is_empty d.closed_session_list then some now else d.delete_sessions_alarm;
      closed_session_list = d.closed_session_list ++ s.handle ∷ [];
    })
  ]

  -- A session's call of its visitor.
  visit : Visit → ℕ → Dispatcher Conn → Option (Dispatcher Conn)
  unfolding on_connection_closed Writer.on_write_blocked
  visit (connection_closed id error) now d = on_connection_closed id error now d
  visit (write_blocked h) now d =
      some (record d { link = Writer.on_write_blocked (connection h) d.link })

  unfoldable pub delete_sessions : Dispatcher Conn → Dispatcher Conn
  delete_sessions d = record d { closed_session_list = [] }

  unfoldable pub has_pending_writes : Dispatcher Conn → Bool
  has_pending_writes d = not (is_empty d.link.write_blocked_list)

  module _ (platform : Platform) where
    -- One action of the connection of session `s`.
    unfoldable pub act : Session Conn → Action → ℕ → Dispatcher Conn → Option (Dispatcher Conn)
    unfolding visit write_packet Session.on_connection_closed Session.on_write_blocked
    act s (writes buffer self peer) now d =
        some (record d { link = (write_packet platform buffer self peer d.link).0 })
    act s (closes error from_peer streams) now d =
        elim (Session.on_connection_closed conns.connection_id error from_peer streams s) [
          | program_exits _ ↦ some (record d { exited = true })
          | reports _ v ↦ visit v now d
        ]
    act s blocks now d = visit (Session.on_write_blocked conns.connection_id s) now d
    act s (creates_stream id) now d = some d
    act s (closes_stream id) now d = some (record d { exited = true })

    -- The action calls exit: a stream's OnClose.
    abbrev pub ends_program : Action → Bool
    ends_program (writes _ _ _) = false
    ends_program (closes _ _ []) = false
    ends_program (closes _ _ (_ ∷ _)) = true
    ends_program blocks = false
    ends_program (creates_stream _) = false
    ends_program (closes_stream _) = true

    unfoldable pub act_all :
        Session Conn → List Action → ℕ → Dispatcher Conn → Option (Dispatcher Conn)
    unfolding act
    act_all s [] now d = some d
    act_all s (a ∷ rest) now d =
        let going_on = act s a now d >>= λ d'. act_all s rest now d' in
        if ends_program a then act s a now d else going_on

    -- An event at the connection of the session for `id`: the connection is updated, and then does
    -- what it does.
    unfoldable pub run_event :
        ℕ → Session Conn → Conn × List Action → ℕ → Dispatcher Conn → Option (Dispatcher Conn)
    unfolding act_all assign
    run_event id s (c, actions) now d =
        let s' = record s { connection = c } in
        act_all s' actions now (record d { session_map = assign id s' d.session_map })

    -- blocked_writer->OnCanWrite()
    unfoldable pub resume : BlockedWriter → ℕ → Dispatcher Conn → Option (Dispatcher Conn)
    unfolding run_event find_handle TimeWait.on_can_write
    resume time_wait_manager now d =
        let (list, link) = TimeWait.on_can_write platform d.time_wait_list d.link in
        some (record d { time_wait_list = list; link = link })
    resume (connection h) now d = do
      (id, s) ← find_handle h d.session_map
      run_event id s (conns.on_can_write d.link.attempts s.connection) now d

    -- The loop of OnCanWrite, on fuel.
    unfoldable pub write_loop : ℕ → ℕ → Dispatcher Conn → Option (Dispatcher Conn)
    unfolding resume
    write_loop zero now d = none
    write_loop (suc fuel) now d = elim d.link.write_blocked_list [
      | [] ↦ some d
      | (w, _) ∷ waiting ↦
          let next =
            resume w now (record d { link = record (d.link) { write_blocked_list = waiting } })
            >>= λ d'. write_loop fuel now d' in
          if d.exited then some d else if d.link.write_blocked then some d else next
    ]

    -- A writer is queued again only once the socket is blocked, so one round more than there are
    -- writers is enough.
    unfoldable pub on_can_write : ℕ → Dispatcher Conn → Option (Dispatcher Conn)
    unfolding write_loop set_writable
    on_can_write now d =
        write_loop (suc (length d.link.write_blocked_list)) now
          (record d { link = set_writable d.link })

    -- The loop of Shutdown, on fuel. The map's first entry is the first that was put in.
    unfoldable pub shutdown_loop : ℕ → ℕ → Dispatcher Conn → Option (Dispatcher Conn)
    unfolding run_event
    shutdown_loop zero now d = none
    shutdown_loop (suc fuel) now d = elim d.session_map [
      | [] ↦ some d
      | (id, s) ∷ _ ↦
          let next =
            run_event id s
              (conns.send_connection_close conns.quic_peer_going_away d.link.attempts s.connection)
              now d
            >>= λ d'. shutdown_loop fuel now d' in
          if d.exited then some d else next
    ]

    unfoldable pub shutdown : ℕ → Dispatcher Conn → Option (Dispatcher Conn)
    unfolding shutdown_loop delete_sessions
    shutdown now d = do
      d' ← shutdown_loop (suc (length d.session_map)) now d
      some (if d'.exited then d' else delete_sessions d')
