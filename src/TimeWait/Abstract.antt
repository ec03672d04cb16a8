-- ===== src/TimeWait/Abstract.antt =====
-- What a time-wait list without a limit is for: from each id, the data that it has, if it is listed.
use quic_toy.Base.{ℕ, List, [], ◌∷◌, Option, none, some, if◌then◌else◌, nat_beq, ◌+◌, ◌>>=◌}
use quic_toy.Net.{IpEndPoint, EncryptedPacket}
use quic_toy.Writer.{Platform, Link}
use quic_toy.TimeWait.{
  Flags, ConnectionIdData, TimeWaitList, PublicResetPacket, packets_of,
  is_connection_id_in_time_wait, add_connection_id_to_time_wait, clean_up_old_connection_ids,
  process_packet,
}
use quic_toy.TimeWait.Fresh.{is_stale}
use quic_toy.TimeWait.Handled.{with_count}

-- A connection is closed; the clean-up alarm calls; a packet comes, which is for the list only if it
-- has the id; time passes.
pub data Op : Type 0 where
  adds : ℕ → ℕ → Option EncryptedPacket → Op
  cleans_up : Op
  receives : IpEndPoint → IpEndPoint → ℕ → ℕ → Op
  passes : ℕ → Op

abbrev pub duration : List Op → ℕ
duration [] = 0
duration (adds _ _ _ ∷ ops) = duration ops
duration (cleans_up ∷ ops) = duration ops
duration (receives _ _ _ _ ∷ ops) = duration ops
duration (passes time ∷ ops) = time + duration ops

pub record Manager : Type 0 where
  pub now : ℕ
  pub list : TimeWaitList
  pub link : Link

module _ (platform : Platform) (build : PublicResetPacket → EncryptedPacket) (flags : Flags) where
  unfoldable pub perform : Op → Manager → Option Manager
  perform (adds id version close_packet) m = do
    list ← add_connection_id_to_time_wait flags id version close_packet m.now m.list
    some (record m { list = list })
  perform cleans_up m = do
    list ← clean_up_old_connection_ids m.now m.now m.now m.list
    some (record m { list = list })
  perform (receives server client id sequence_number) m =
      if is_connection_id_in_time_wait id m.list
      then (process_packet platform build server client id sequence_number m.list m.link
          >>= λ (list, link). some (record m { list = list; link = link }))
      else some m
  perform (passes time) m = some (record m { now = m.now + time })

  unfoldable pub perform_all : List Op → Manager → Option Manager
  unfolding perform
  perform_all [] m = some m
  perform_all (o ∷ os) m = do m' ← perform o m; perform_all os m'

abbrev pub Table : Type 0
Table = ℕ → Option ConnectionIdData

abbrev pub counted : Option ConnectionIdData → Option ConnectionIdData
counted none = none
counted (some d) = some (with_count d)

abbrev pub unless_stale : ℕ → ℕ → Option ConnectionIdData → Option ConnectionIdData
unless_stale now period none = none
unless_stale now period (some d) = if is_stale now period d then none else some d

-- The same, of a table, at a time and with the period of the list: an id is listed from its close
-- until a clean-up after its period, with the count of the packets that came for it.
abbrev pub replay_one : ℕ → ℕ → Op → Table → Table
replay_one period now (adds id version close_packet) f j =
    if nat_beq id j
    then some (record {
      num_packets = packets_of (f id);
      version = version;
      time_added = now;
      close_packet = close_packet;
    })
    else f j
replay_one period now cleans_up f j = unless_stale now period (f j)
replay_one period now (receives server client id sequence_number) f j =
    if nat_beq id j then counted (f id) else f j
replay_one period now (passes time) f j = f j

abbrev pub replay : ℕ → ℕ → List Op → Table → Table
replay period now [] f = f
replay period now (o ∷ os) f =
    replay period (now + duration (o ∷ [])) os (replay_one period now o f)
