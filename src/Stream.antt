-- ===== src/Stream.antt =====
-- net/tools/quic/quic_server_stream.cc and .h: a stream of the server, which counts the bytes that come
-- and prints the count once a second.
--
-- Times are microseconds; `now` is the clock's ApproximateNow.
pub mod Reports
use quic_toy.Base.{ℕ, List, [], ◌∷◌, ◌++◌, Option, none, some, ◌+◌, ◌%◌}

-- The alarm is its deadline while it is set. `printed` is what was printed, oldest first.
pub record ServerStream : Type 0 where
  pub bytes_received : ℕ
  pub alarm : Option ℕ
  pub printed : List ℕ

abbrev pub uint64 : ℕ
uint64 = 18_446_744_073_709_551_616

-- The data is counted and thrown away; all of it is consumed.
unfoldable pub process_raw_data : ℕ → ServerStream → ServerStream × ℕ
process_raw_data data_len s =
    (record s { bytes_received = (s.bytes_received + data_len) % uint64 }, data_len)

unfoldable pub setup_performance_alarm : ℕ → ServerStream → ServerStream
setup_performance_alarm now s = record s { alarm = some (now + 1_000_000) }

-- OnAlarm, with the alarm set anew for the time that it returns.
unfoldable pub on_alarm : ℕ → ServerStream → ServerStream
on_alarm now s = record s {
  printed = s.printed ++ s.bytes_received ∷ [];
  alarm = some (now + 1_000_000);
}

-- QuicServerSession::CreateIncomingDynamicStream.
unfoldable pub create_incoming_dynamic_stream : ℕ → ServerStream
unfolding setup_performance_alarm
create_incoming_dynamic_stream now =
    setup_performance_alarm now (record { bytes_received = 0; alarm = none; printed = [] })

-- Data of a length comes; the alarm is called at a time.
pub data StreamEvent : Type 0 where
  arrives : ℕ → StreamEvent
  fires : ℕ → StreamEvent

unfoldable pub handle_all : List StreamEvent → ServerStream → ServerStream
unfolding process_raw_data on_alarm
handle_all [] s = s
handle_all (arrives data_len ∷ es) s = handle_all es (process_raw_data data_len s).0
handle_all (fires now ∷ es) s = handle_all es (on_alarm now s)
