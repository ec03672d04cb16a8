-- ===== src/Writer.antt =====
-- The shared way out of the server: net/tools/quic/quic_default_packet_writer.cc with its
-- write_blocked_ flag, and the dispatcher's list of writers that wait for the socket
-- (QuicDispatcher::OnWriteBlocked in net/tools/quic/quic_dispatcher.cc).
pub mod Laws
use quic_toy.Base.{
  ℕ, ◌≡◌, ◌↔◌, List, [], ◌∷◌, ◌++◌, Bool, true, false, not, arith, Eq, nat_beq, nat_beq_iff,
  if◌then◌else◌,
}
use quic_toy.Base.LinkedMap.{insert}
use quic_toy.Net.{
  IpAddress, IpEndPoint, EncryptedPacket, WriteStatus, WriteResult, status_ok, status_blocked,
  status_error,
}
use quic_toy.Socket.{Msghdr, SendResult}
use quic_toy.Socket

-- A QuicBlockedWriterInterface*: the time-wait list manager, or a session's connection, which its
-- address tells apart.
pub data BlockedWriter : Type 0 where
  time_wait_manager : BlockedWriter
  connection : ℕ → BlockedWriter

abbrev pub same_writer : BlockedWriter → BlockedWriter → Bool
same_writer time_wait_manager time_wait_manager = true
same_writer time_wait_manager (connection h) = false
same_writer (connection h) time_wait_manager = false
same_writer (connection h) (connection k) = nat_beq h k

pub same_writer_iff : (a b : BlockedWriter) → (same_writer a b ≡ true) ↔ (a ≡ b)
same_writer_iff time_wait_manager time_wait_manager = ground arith
same_writer_iff time_wait_manager (connection h) = ground arith
same_writer_iff (connection h) time_wait_manager = ground arith
same_writer_iff (connection h) (connection k) = ground (arith, nat_beq_iff h k)

instance abbrev pub writer_eq : Eq BlockedWriter
writer_eq = record { beq = same_writer; beq_iff = same_writer_iff }

-- linked_hash_map<QuicBlockedWriterInterface*, bool>; the flag is not used.
abbrev pub WriteBlockedList : Type 0
WriteBlockedList = List (BlockedWriter × Bool)

-- One call of sendmsg, with what came of it.
pub record Attempt : Type 0 where
  pub message : Msghdr
  pub result : SendResult

-- The writer, the calls it has made of the socket, oldest first, and who waits for it.
pub record Link : Type 0 where
  pub fd : ℕ
  pub write_blocked : Bool
  pub attempts : List Attempt
  pub write_blocked_list : WriteBlockedList

-- What the operating system and the QUIC library decide: the result of a sendmsg after those
-- before it, and whether an address is one of IPv4.
pub record Platform : Type 0 where
  pub is_ipv4 : IpAddress → Bool
  pub sendmsg : List Attempt → ℕ → Msghdr → SendResult

-- QuicDefaultPacketWriter::IsWriteBlockedDataBuffered
abbrev pub is_write_blocked_data_buffered : Bool
is_write_blocked_data_buffered = false

unfoldable pub set_writable : Link → Link
set_writable l = record l { write_blocked = false }

abbrev is_blocked : WriteStatus → Bool
is_blocked status_blocked = true
is_blocked _ = false

-- QuicDispatcher::OnWriteBlocked
unfoldable pub on_write_blocked : BlockedWriter → Link → Link
unfolding insert
on_write_blocked w l =
    if not l.write_blocked
    then l
    else record l { write_blocked_list = insert w true l.write_blocked_list }

module _ (platform : Platform) where
  -- QuicDefaultPacketWriter::WritePacket
  unfoldable pub write_packet : EncryptedPacket → IpAddress → IpEndPoint → Link → Link × WriteResult
  unfolding Socket.write_packet
  write_packet buffer self peer l =
      let message = Socket.make_msghdr platform.is_ipv4 buffer self peer in
      let sent = platform.sendmsg l.attempts l.fd message in
      let result =
        Socket.write_packet platform.is_ipv4 (platform.sendmsg l.attempts) l.fd buffer self peer in
      (
        record l {
          write_blocked = if is_blocked result.status then true else l.write_blocked;
          attempts = l.attempts ++ record { message = message; result = sent } ∷ [];
        },
        result,
      )
