-- ===== src/Tests.antt =====
-- Concrete programs: connections, a framer and a platform that meet the hypotheses of the theorems,
-- which the children apply to them.
mod Runs
mod Dispatching
mod Lists
mod Calls
mod Loops
mod Turns
mod Awake
mod Starts
mod Streams
mod Listening
mod Firings
mod Replay
mod Transfers
use quic_toy.Client.Laws.{outcome}
use quic_toy.Client.{connect, Event, Client, ClientSession}
use quic_toy.TimeWait.Late.{LatePacket}
use quic_toy.Dispatcher.Invariant.{IsConsistent}
use quic_toy.Dispatcher.Handles.{has_handle}
use quic_toy.TimeWait.Invariant.{IsWellFormed}
use quic_toy.Dispatcher.Routes.{IsVersioned}
use quic_toy.Base.LinkedMap.{find, contains}
use quic_toy.Socket.{inet, Received, SendResult, Msghdr}
use quic_toy.Base.Int.{negsuc, pos}
use quic_toy.TimeWait.{QueuedPacket, TimeWaitList, ConnectionIdData, Flags}
use quic_toy.Dispatcher.{Dispatcher, PublicHeader, Framer}
use quic_toy.Writer.{connection, Link, Attempt, Platform}
use quic_toy.Base.{
  suc, nat_eq, ◌≡◌, inl, ltb, arith, if◌then◌else◌, true, none, length, some, [], false, Option,
  nat_beq, ℕ, ◌∷◌, refl, List,
}
use quic_toy.Session.{Session, closes, blocks, writes, IsLawful, Connections}
use quic_toy.Net.{IpAddress, EncryptedPacket, IpEndPoint}

abbrev peer : IpEndPoint
peer = record { address = 10 ∷ 0 ∷ 0 ∷ 1 ∷ []; port = 4433 }

-- A connection is its id. It answers a packet, tries to write when it can, and says goodbye.
abbrev echo : Connections
echo = record {
  Conn = ℕ;
  quic_peer_going_away = 16;
  create = λ id server client. some id;
  connection_id = λ c. c;
  version = λ c. 24;
  release_connection_close_packet = λ c. some (9 ∷ []);
  process_udp_packet =
      λ server client packet log c. (c, writes packet server.address client ∷ blocks ∷ []);
  on_can_write = λ log c. (c, writes (7 ∷ []) [] peer ∷ blocks ∷ []);
  on_alarm = λ which log c. (c, closes which false [] ∷ []);
  send_connection_close = λ error log c. (c, closes error false [] ∷ writes (9 ∷ []) [] peer ∷ []);
}

echo-IsLawful : IsLawful echo
echo-IsLawful = record {
  create_id = λ id server client c e. cc;
  packet_id = λ server client packet log c. refl;
  packet_orderly = λ server client packet log c. tt;
  write_id = λ log c. refl;
  write_orderly = λ log c. tt;
  close_id = λ error log c. refl;
  close_orderly = λ error log c. tt;
  close_reported = λ error log c. inl refl;
  alarm_id = λ which log c. refl;
  alarm_orderly = λ which log c. tt;
}

abbrev flags : Flags
flags = record {
  time_wait_list_seconds = 5;
  time_wait_list_max_connections = pos 600;
  infinite = 1_000_000_000;
}

-- A socket that takes two packets and then is full.
abbrev two_then_full : List Attempt → ℕ → Msghdr → SendResult
two_then_full log fd message =
    if ltb (length log) 2
    then record { rc = pos (length message.msg_iov); errno = 0 }
    else record { rc = negsuc 0; errno = 11 }

abbrev platform : Platform
platform = record { is_ipv4 = λ a. nat_beq (length a) 4; sendmsg = two_then_full }

-- The first byte of a packet is its connection id, the second says what kind it is.
abbrev header_of : EncryptedPacket → Option PublicHeader
header_of [] = none
header_of (id ∷ []) =
    some (record { connection_id = id; reset_flag = false; version_flag = false; versions = [] })
header_of (id ∷ kind ∷ _) =
    some
      (record { connection_id = id; reset_flag = false; version_flag = true; versions = 24 ∷ [] })

abbrev framer : Framer
framer = record {
  public_header = header_of;
  is_version_mismatch = λ version header. false;
  sequence_number = λ version packet. some 1;
  is_supported_version = λ version. nat_beq version 24;
  build_public_reset_packet = λ p. p.connection_id ∷ [];
}

-- A dispatcher with one session, whose connection waits for the socket, and one id in time wait.
abbrev ended : ConnectionIdData
ended = record { num_packets = 3; version = 24; time_added = 900; close_packet = none }

abbrev ended_list : TimeWaitList
ended_list = record {
  connection_id_map = (8, ended) ∷ [];
  pending_packets_queue = [];
  time_wait_period = 500;
  clean_up_alarm = some 1_400;
  notices = [];
}

abbrev five : Session ℕ
five = record { handle = 0; connection = 5; crypto_stream = some false }

abbrev free_link : Link
free_link = record { fd = 3; write_blocked = false; attempts = []; write_blocked_list = [] }

abbrev busy : Dispatcher ℕ
busy = record {
  link = record {
    fd = 3;
    write_blocked = true;
    attempts = [];
    write_blocked_list = (connection 0, true) ∷ [];
  };
  session_map = (5, five) ∷ [];
  time_wait_list = ended_list;
  closed_session_list = [];
  delete_sessions_alarm = none;
  supported_versions = 24 ∷ [];
  current_server_address = peer;
  current_client_address = peer;
  current_packet = [];
  framer_version = 24;
  next_handle = 1;
  exited = false;
}

ended_list-IsWellFormed : IsWellFormed flags 1_000 ended_list
unfolding contains
ended_list-IsWellFormed = record {
  distinct = (refl, tt);
  in_order = (omega arith, omega arith);
  dated = omega arith;
  within = omega arith;
  armed = (1_400, refl, omega arith, (omega arith, tt));
}

busy-IsConsistent : IsConsistent echo flags 1_000 busy
unfolding contains find has_handle
busy-IsConsistent = record {
  sessions = (refl, tt);
  waiting = (refl, tt);
  list = ended_list-IsWellFormed;
  apart = λ id e. ground arith;
  filed = λ id s e. ground arith;
  live = λ h e. e;
  queued = inl refl;
  alarmed = inl refl;
  supports = (24, [], refl);
}

versioned : IsVersioned echo flags platform framer echo-IsLawful (omega arith)
versioned [] header read flagged = cc
versioned (id ∷ []) header read flagged = cc
versioned (id ∷ kind ∷ rest) header read flagged = (24, [], cc)

abbrev datagram : Received
datagram = record {
  bytes_read = pos 2;
  errno = 0;
  raw_address = inet peer;
  header = record { msg_name = peer; msg_iov = 6 ∷ 1 ∷ []; msg_control = []; msg_controllen = 0 };
}

abbrev late : LatePacket
late = record { server_address = peer; client_address = peer; sequence_number = 1 }

abbrev answer_to_peer : QueuedPacket
answer_to_peer = record { server_address = peer; client_address = peer; packet = 9 ∷ [] }

abbrev waiting_list : TimeWaitList
waiting_list = record ended_list { pending_packets_queue = answer_to_peer ∷ [] }

-- A client's session is the number of packets that it has had; the first ends its handshake.
abbrev counting : ClientSession
counting = record {
  Conn = ℕ;
  connected = λ c. true;
  is_encryption_established = λ c. ltb 0 c;
  process_udp_packet = λ client server packet c l. (suc c, l);
  on_can_write = λ c l. (c, l);
  send_connection_close = λ c l. (c, l);
  start = λ server l. (0, l);
}

abbrev new_client : Client ℕ
new_client = record {
  server_address = peer;
  client_address = peer;
  bind_to_address = [];
  local_port = 0;
  fd = pos 3;
  initialized = true;
  packets_dropped = 0;
  overflow_supported = false;
  windows = record { stream = 16_384; session = 16_384 };
  registered = 3 ∷ [];
  writer = free_link;
  session = none;
}

abbrev arrival : Event
arrival = record { readable = true; writable = false; datagrams = datagram ∷ [] }

abbrev connected_client : Client ℕ
connected_client = record new_client { session = some 1 }

connected_at_once :
    connect counting (arrival ∷ []) new_client ≡ outcome counting connected_client true
unfolding connect
connected_at_once = refl

abbrev loopback6 : IpAddress
loopback6 = 0 ∷ 0 ∷ 0 ∷ 0 ∷ 0 ∷ 0 ∷ 0 ∷ 0 ∷ 0 ∷ 0 ∷ 0 ∷ 0 ∷ 0 ∷ 0 ∷ 0 ∷ 1 ∷ []
