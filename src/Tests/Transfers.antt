-- ===== src/Tests/Transfers.antt =====
-- Concrete runs of the performance programs.
use quic_toy.Perf.Counting.{tcp_server_main-eq}
use quic_toy.Perf.TcpServer.{rings, reads, tcp_server_main}
use quic_toy.Base.{ℕ, ◌≡◌, ◌≤◌, ◌<◌, ◌+◌, ◌⊎◌, refl, arith, true, false, some, none, [], ◌∷◌}
use quic_toy.Base.Int.{pos}
use quic_toy.Perf.{Options, CommandLine, transfer_loop}
use quic_toy.Perf.QuicClient.{Calls, send_chunk}
use quic_toy.Perf.TcpClient.{Network, tcp_transfer_loop}
use quic_toy.Perf.Transfer.{
  write_chunk, bytes, repeat, copies, transfer_loop-eq, tcp_transfer_loop-IsTcpOutcome,
  IsTcpOutcome,
}

-- A client whose state is the number of bytes that it has been given.
abbrev counter : Calls ℕ
counter = record {
  initialize = λ s. (s, true);
  connect = λ s. (s, true);
  create_client_stream = λ s. s;
  write_string_piece = λ n s. s + n;
  has_buffered_data = λ s. false;
  wait_for_events = λ s. some s;
  close_connection = λ s. s;
  disconnect = λ s. s;
}

abbrev few : Options
few = record { total_transfer = 25; chunk_size = 10; duration = 0 }

abbrev no_chunk : Options
no_chunk = record { total_transfer = 25; chunk_size = 0; duration = 0 }

transfer_loop-eq_example :
    (k : ℕ) × (25 ≤ bytes k 10)
    × ((k ≡ 0) ⊎ (bytes k 10 < 35))
    × (transfer_loop (send_chunk counter 10) 26 0 few 0 ≡ repeat (write_chunk counter 10) few k 0)
transfer_loop-eq_example = transfer_loop-eq counter few 0 (omega arith) (omega arith) (omega arith)

abbrev network : Network ℕ
network = record {
  socket = pos 3;
  inet_aton = λ address. true;
  connect = λ address. pos 0;
  write = λ written n. pos n;
}

tcp_transfer_loop-IsTcpOutcome_example :
    (n : ℕ) × (code : ℕ) × (tcp_transfer_loop network 26 0 few [] ≡ some (copies n 10, code))
    × IsTcpOutcome network few n code
tcp_transfer_loop-IsTcpOutcome_example =
    tcp_transfer_loop-IsTcpOutcome network few (omega arith) (omega arith)

abbrev command_line : CommandLine ℕ
command_line = record { args = 1 ∷ []; t = some 25; c = some 10; d = none }

abbrev success : ℕ
success = 0

tcp_server_main-eq_example :
    tcp_server_main
      (record { socket = pos 3; bind = pos 0; accept = pos 4 })
      (reads (pos 700) ∷ rings ∷ reads (pos 300) ∷ rings ∷ reads (pos 0) ∷ [])
    ≡ some (record { code = 0; received = 1_000; printed = 700 ∷ 1_000 ∷ [] })
tcp_server_main-eq_example =
    tcp_server_main-eq (record { socket = pos 3; bind = pos 0; accept = pos 4 })
      (reads (pos 700) ∷ rings ∷ reads (pos 300) ∷ rings ∷ []) [] (reads (pos 0)) 0
      (omega arith, (tt, (omega arith, (tt, tt)))) (refl, refl)
