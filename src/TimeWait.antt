-- ===== src/TimeWait.antt =====
-- net/tools/quic/quic_time_wait_list_manager.cc and .h: connection ids that were closed lately,
-- with the answer that a late packet for them gets.
--
-- Times are microseconds, as the event loop's clock gives them; a reading of the clock is an
-- argument. `none` is a call that does not return, by an endless loop or a failed DCHECK.
pub mod Trim
pub mod Invariant
pub mod Add
pub mod Fresh
pub mod Deadline
pub mod Expiry
pub mod Throttle
pub mod Late
pub mod Handled
pub mod Sending
pub mod Abstract
pub mod Performed
pub mod Refines
use Prim.Native.Nat.{bit_and}
use quic_toy.Base.{
  nat_eq, ℕ, zero, suc, ◌+◌, ◌-◌, ◌*◌, List, [], ◌∷◌, ◌++◌, Bool, true, false, not, Option, none,
  some, length, leb, nat_beq, if◌then◌else◌, ◌>>=◌,
}
use quic_toy.Base.Int.{ℤ, pos, negsuc, sub_ℕ, ltb_ℤ}
use quic_toy.Base.LinkedMap.{find, contains, erase, insert, assign}
use quic_toy.Net.{IpEndPoint, EncryptedPacket, status_ok, status_blocked, status_error}
use quic_toy.Writer.{
  Platform, Link, time_wait_manager, on_write_blocked, write_packet, is_write_blocked_data_buffered,
}

-- The flags and the constant of the QUIC library that the manager reads. `infinite` is
-- QuicTime::Infinite().
pub record Flags : Type 0 where
  pub time_wait_list_seconds : ℕ
  pub time_wait_list_max_connections : ℤ
  pub infinite : ℕ

-- `num_packets` is an int; it is counted without a bound here.
pub record ConnectionIdData : Type 0 where
  pub num_packets : ℕ
  pub version : ℕ
  pub time_added : ℕ
  pub close_packet : Option EncryptedPacket

pub record QueuedPacket : Type 0 where
  pub server_address : IpEndPoint
  pub client_address : IpEndPoint
  pub packet : EncryptedPacket

-- A call of the visitor's OnConnectionAddedToTimeWaitList or OnConnectionRemovedFromTimeWaitList.
pub data Notice : Type 0 where
  added removed : ℕ → Notice

abbrev pub ConnectionIdMap : Type 0
ConnectionIdMap = List (ℕ × ConnectionIdData)

-- The alarm is its deadline while it is set. `notices` is what the visitor was told, oldest first.
pub record TimeWaitList : Type 0 where
  pub connection_id_map : ConnectionIdMap
  pub pending_packets_queue : List QueuedPacket
  pub time_wait_period : ℕ
  pub clean_up_alarm : Option ℕ
  pub notices : List Notice

unfoldable pub is_connection_id_in_time_wait : ℕ → TimeWaitList → Bool
unfolding contains
is_connection_id_in_time_wait id t = contains id t.connection_id_map

unfoldable pub get_quic_version_from_connection_id : ℕ → TimeWaitList → Option ℕ
unfolding find
get_quic_version_from_connection_id id t = do d ← find id t.connection_id_map; some d.version

unfoldable pub num_connections : TimeWaitList → ℕ
num_connections t = length t.connection_id_map

expire_front : ℤ → TimeWaitList → ConnectionIdMap → TimeWaitList × Bool
expire_front expiration_time t [] = (t, false)
expire_front expiration_time t ((id, d) ∷ rest) =
    if ltb_ℤ expiration_time (pos d.time_added)
    then (t, false)
    else (record t { connection_id_map = rest; notices = t.notices ++ removed id ∷ [] }, true)

unfoldable pub maybe_expire_oldest_connection : ℤ → TimeWaitList → TimeWaitList × Bool
unfolding expire_front
maybe_expire_oldest_connection expiration_time t =
    expire_front expiration_time t t.connection_id_map

-- The loop of TrimTimeWaitListIfNeeded, on fuel.
unfoldable pub trim_loop : ℕ → Flags → ℕ → TimeWaitList → Option TimeWaitList
unfolding maybe_expire_oldest_connection num_connections
trim_loop zero flags max t = none
trim_loop (suc fuel) flags max t =
    let rest = trim_loop fuel flags max (maybe_expire_oldest_connection (pos flags.infinite) t).0 in
    if leb max (num_connections t) then rest else some t

-- Each round drops an entry, so one round more than there are entries is enough.
unfoldable pub trim_time_wait_list_if_needed : Flags → TimeWaitList → Option TimeWaitList
unfolding trim_loop
trim_time_wait_list_if_needed flags t = elim flags.time_wait_list_max_connections [
  | pos max ↦ trim_loop (suc (num_connections t)) flags max t
  | negsuc _ ↦ some t
]

abbrev packets_of : Option ConnectionIdData → ℕ
packets_of none = 0
packets_of (some d) = d.num_packets

-- The entry's place in the list is last, also where it replaces an older one.
unfoldable pub add_connection_id_to_time_wait :
    Flags → ℕ → ℕ → Option EncryptedPacket → ℕ → TimeWaitList → Option TimeWaitList
unfolding trim_time_wait_list_if_needed find contains erase insert
add_connection_id_to_time_wait flags id version close_packet now t =
    let is_new = not (contains id t.connection_id_map) in
    let entry : ConnectionIdData = record {
      num_packets = packets_of (find id t.connection_id_map);
      version = version;
      time_added = now;
      close_packet = close_packet;
    } in
    do
      trimmed ←
          trim_time_wait_list_if_needed flags
            (record t { connection_id_map = erase id t.connection_id_map })
      some (record trimmed {
        connection_id_map = insert id entry trimmed.connection_id_map;
        notices = if is_new then trimmed.notices ++ added id ∷ [] else trimmed.notices;
      })

-- The condition of a response; the count is at least 1 where it is asked.
unfoldable pub should_send_response : ℕ → Bool
should_send_response received_packet_count =
    nat_beq (bit_and received_packet_count (received_packet_count - 1)) 0

-- SetConnectionIdCleanUpAlarm reads the clock twice, as `now` and `later`.
clean_up_deadline : ℕ → ℕ → ℕ → ConnectionIdMap → ℕ
clean_up_deadline period now later [] = later + period
clean_up_deadline period now later ((id, d) ∷ rest) =
    if ltb_ℤ (sub_ℕ now d.time_added) (pos period)
    then later + (d.time_added + period - now)
    else later

unfoldable pub set_connection_id_clean_up_alarm : ℕ → ℕ → TimeWaitList → TimeWaitList
unfolding clean_up_deadline
set_connection_id_clean_up_alarm now later t = record t {
  clean_up_alarm = some (clean_up_deadline t.time_wait_period now later t.connection_id_map);
}

-- The loop of CleanUpOldConnectionIds, by the entries left.
unfoldable pub expire_loop : ℕ → ℤ → TimeWaitList → Option TimeWaitList
unfolding maybe_expire_oldest_connection
expire_loop zero expiration t = none
expire_loop (suc fuel) expiration t =
    let (t', expired) = maybe_expire_oldest_connection expiration t in
    let rest = expire_loop fuel expiration t' in if expired then rest else some t'

unfoldable pub clean_up_old_connection_ids : ℕ → ℕ → ℕ → TimeWaitList → Option TimeWaitList
unfolding expire_loop set_connection_id_clean_up_alarm num_connections
clean_up_old_connection_ids start now later t = do
  t' ← expire_loop (suc (num_connections t)) (sub_ℕ start t.time_wait_period) t
  some (set_connection_id_clean_up_alarm now later t')

-- The constructor.
unfoldable pub new_time_wait_list : Flags → ℕ → ℕ → TimeWaitList
unfolding set_connection_id_clean_up_alarm
new_time_wait_list flags now later = set_connection_id_clean_up_alarm now later (record {
  connection_id_map = [];
  pending_packets_queue = [];
  time_wait_period = flags.time_wait_list_seconds * 1_000_000;
  clean_up_alarm = none;
  notices = [];
})

-- QuicPublicResetPacket, and what QuicFramer::BuildPublicResetPacket makes of it.
pub record PublicResetPacket : Type 0 where
  pub connection_id : ℕ
  pub reset_flag : Bool
  pub version_flag : Bool
  pub rejected_sequence_number : ℕ
  pub nonce_proof : ℕ
  pub client_address : IpEndPoint

module _ (build_public_reset_packet : PublicResetPacket → EncryptedPacket) where
  -- SendPublicReset
  unfoldable pub public_reset : IpEndPoint → IpEndPoint → ℕ → ℕ → QueuedPacket
  public_reset server client id rejected = record {
    server_address = server;
    client_address = client;
    packet = build_public_reset_packet (record {
      connection_id = id;
      reset_flag = true;
      version_flag = false;
      rejected_sequence_number = rejected;
      nonce_proof = 1_010_101;
      client_address = client;
    });
  }

  -- The packet that answers one for an id in time wait.
  unfoldable pub response : ConnectionIdData → IpEndPoint → IpEndPoint → ℕ → ℕ → QueuedPacket
  unfolding public_reset
  response d server client id sequence_number = elim d.close_packet [
    | some packet ↦ record { server_address = server; client_address = client; packet = packet }
    | none ↦ public_reset server client id sequence_number
  ]

module _ (platform : Platform) where
  -- WriteToWire. `false` means that the packet is still to be sent.
  unfoldable pub write_to_wire : QueuedPacket → Link → Link × Bool
  unfolding on_write_blocked write_packet
  write_to_wire q l =
      let (l', result) =
        write_packet platform q.packet q.server_address.address q.client_address l in
      if l.write_blocked
      then (on_write_blocked time_wait_manager l, false)
      else elim result.status [
        | status_blocked ↦ (on_write_blocked time_wait_manager l', is_write_blocked_data_buffered)
        | status_error ↦ (l', true)
        | status_ok ↦ (l', true)
      ]

  unfoldable pub send_or_queue_packet : QueuedPacket → TimeWaitList → Link → TimeWaitList × Link
  unfolding write_to_wire
  send_or_queue_packet q t l =
      let (l', consumed) = write_to_wire q l in
      (
        if consumed
            then t
            else record t { pending_packets_queue = t.pending_packets_queue ++ q ∷ [] },
        l',
      )

  -- The loop of OnCanWrite, by the packets that are queued.
  unfoldable pub send_pending : List QueuedPacket → Link → List QueuedPacket × Link
  unfolding write_to_wire
  send_pending [] l = ([], l)
  send_pending (q ∷ qs) l =
      let (l', consumed) = write_to_wire q l in
      let rest = send_pending qs l' in if consumed then rest else (q ∷ qs, l')

  unfoldable pub on_can_write : TimeWaitList → Link → TimeWaitList × Link
  unfolding send_pending
  on_can_write t l =
      let (left, l') = send_pending t.pending_packets_queue l in
      (record t { pending_packets_queue = left }, l')

  module _ (build_public_reset_packet : PublicResetPacket → EncryptedPacket) where
    unfoldable pub process_packet :
        IpEndPoint → IpEndPoint → ℕ → ℕ → TimeWaitList → Link → Option (TimeWaitList × Link)
    unfolding find assign should_send_response response send_or_queue_packet
    process_packet server client id sequence_number t l = do
      d ← find id t.connection_id_map
      let counted = record d { num_packets = d.num_packets + 1 }
      let t' = record t { connection_id_map = assign id counted t.connection_id_map }
      some (
          if should_send_response counted.num_packets
          then send_or_queue_packet
              (response build_public_reset_packet counted server client id sequence_number) t' l
          else (t', l))
