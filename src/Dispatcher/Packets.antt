-- ===== src/Dispatcher/Packets.antt =====
-- ProcessPacket of net/tools/quic/quic_dispatcher.cc, and the calls that the framer makes of its
-- visitor on the way: the public header first, then, if that asks to go on, the version check and
-- the header with the sequence number.
use mathlib.Core.List.{head?}
use quic_toy.Base.{
  ℕ, suc, List, [], Bool, true, false, not, Option, none, some, nat_beq, nat_eq, if◌then◌else◌,
  ◌>>=◌,
}
use quic_toy.Base.LinkedMap.{find, insert}
use quic_toy.Net.{IpEndPoint, EncryptedPacket}
use quic_toy.Writer.{Platform}
use quic_toy.TimeWait.{Flags}
use quic_toy.TimeWait
use quic_toy.Session.{Connections, Session}
use quic_toy.Session
use quic_toy.Dispatcher.{Dispatcher, PublicHeader, Framer, run_event}

module _ (conns : Connections) (flags : Flags) (platform : Platform) (framer : Framer) where
  open conns use {Conn}

  -- GetQuicVersionFromConnectionId dereferences the end of the map for an id that is not listed.
  unfoldable pub handle_packet_for_time_wait :
      PublicHeader → Dispatcher Conn → Option (Dispatcher Conn × Bool)
  handle_packet_for_time_wait header d =
      if header.reset_flag
      then some (d, false)
      else (TimeWait.get_quic_version_from_connection_id header.connection_id d.time_wait_list
          >>= λ version. some (record d { framer_version = version }, true))

  -- AddConnectionIdToTimeWait without a close packet, and HandlePacketForTimeWait.
  unfoldable pub reject : ℕ → PublicHeader → ℕ → Dispatcher Conn → Option (Dispatcher Conn × Bool)
  unfolding handle_packet_for_time_wait
  reject version header now d = do
    list ←
        TimeWait.add_connection_id_to_time_wait flags header.connection_id version none now
          d.time_wait_list
    handle_packet_for_time_wait header (record d { time_wait_list = list })

  unfoldable pub additional_validity_checks_then_create_session :
      PublicHeader → ℕ → Dispatcher Conn → Option (Dispatcher Conn × Option (Session Conn))
  unfolding reject Session.new_session Session.initialize_session insert
  additional_validity_checks_then_create_session header now d =
      elim (conns.create header.connection_id d.current_server_address d.current_client_address) [
        | none ↦ do
          version ← head? header.versions
          if not (framer.is_supported_version version)
              then some (d, none)
              else (reject version header now d >>= λ (d', _). some (d', none))
        | some c ↦
            let s =
              Session.initialize_session conns.connection_id
                (Session.new_session conns.connection_id d.next_handle c) in
            some (
              record d {
                session_map = insert header.connection_id s d.session_map;
                next_handle = suc d.next_handle;
              },
              some s,
            )
      ]

  -- The packet goes to a session's connection.
  unfoldable pub deliver : ℕ → Session Conn → ℕ → Dispatcher Conn → Option (Dispatcher Conn × Bool)
  unfolding run_event
  deliver id s now d = do
    d' ←
        run_event conns flags platform id s
          (conns.process_udp_packet d.current_server_address d.current_client_address
            d.current_packet d.link.attempts s.connection)
          now d
    some (d', false)

  unfoldable pub on_unauthenticated_public_header :
      PublicHeader → ℕ → Dispatcher Conn → Option (Dispatcher Conn × Bool)
  unfolding deliver reject additional_validity_checks_then_create_session find
  on_unauthenticated_public_header header now d =
      if nat_beq d.current_client_address.port 0
      then some (d, false)
      else elim (find header.connection_id d.session_map) [
        | some s ↦ deliver header.connection_id s now d
        | none ↦
            if TimeWait.is_connection_id_in_time_wait header.connection_id d.time_wait_list
            then handle_packet_for_time_wait header d
            else if header.reset_flag
            then some (d, false)
            else if not header.version_flag
            then (head? d.supported_versions >>= λ version. reject version header now d)
            else (additional_validity_checks_then_create_session header now d >>= λ (d', created).
                elim created [
                  | none ↦ some (d', false)
                  | some s ↦ deliver header.connection_id s now d'
                ])
      ]

  -- OnUnauthenticatedHeader hands the packet to the time-wait list.
  unfoldable pub on_unauthenticated_header :
      PublicHeader → ℕ → Dispatcher Conn → Option (Dispatcher Conn)
  unfolding TimeWait.process_packet
  on_unauthenticated_header header sequence_number d = do
    (list, link) ←
        TimeWait.process_packet platform framer.build_public_reset_packet d.current_server_address
          d.current_client_address header.connection_id sequence_number d.time_wait_list d.link
    some (record d { time_wait_list = list; link = link })

  -- QuicFramerVisitor::OnProtocolVersionMismatch
  unfoldable pub on_protocol_version_mismatch : PublicHeader → Dispatcher Conn → Bool
  on_protocol_version_mismatch header d =
      TimeWait.is_connection_id_in_time_wait header.connection_id d.time_wait_list

  -- What the framer does once its visitor has asked it to go on.
  unfoldable pub parse_on :
      EncryptedPacket → PublicHeader → Dispatcher Conn → Option (Dispatcher Conn)
  unfolding on_unauthenticated_header on_protocol_version_mismatch
  parse_on packet header d =
      let proceed =
        if framer.is_version_mismatch d.framer_version header
        then on_protocol_version_mismatch header d
        else true in
      if not proceed then some d else elim (framer.sequence_number d.framer_version packet) [
        | none ↦ some d
        | some n ↦ on_unauthenticated_header header n d
      ]

  unfoldable pub process_packet :
      IpEndPoint → IpEndPoint → EncryptedPacket → ℕ → Dispatcher Conn → Option (Dispatcher Conn)
  unfolding on_unauthenticated_public_header parse_on
  process_packet server client packet now d =
      let d' = record d {
        current_server_address = server;
        current_client_address = client;
        current_packet = packet;
      } in
      elim (framer.public_header packet) [
        | none ↦ some d'
        | some header ↦ on_unauthenticated_public_header header now d' >>= λ (d'', proceed).
            if proceed then parse_on packet header d'' else some d''
      ]

  -- InitializeWithWriter after the constructor.
  unfoldable pub new_dispatcher : ℕ → List ℕ → ℕ → ℕ → ℕ → IpEndPoint → Dispatcher Conn
  unfolding TimeWait.new_time_wait_list
  new_dispatcher fd versions version now later nowhere = record {
    link = record { fd = fd; write_blocked = false; attempts = []; write_blocked_list = [] };
    session_map = [];
    time_wait_list = TimeWait.new_time_wait_list flags now later;
    closed_session_list = [];
    delete_sessions_alarm = none;
    supported_versions = versions;
    current_server_address = nowhere;
    current_client_address = nowhere;
    current_packet = [];
    framer_version = version;
    next_handle = 0;
    exited = false;
  }
