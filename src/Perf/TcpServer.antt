-- ===== src/Perf/TcpServer.antt =====
-- tcp_perf_server.cc: it accepts one connection, counts the bytes that it reads, and prints the count once
-- a second.
--
-- The system calls' results are given. A signal is handled between two calls of read.
use quic_toy.Base.{ℕ, List, [], ◌∷◌, nat_beq, if◌then◌else◌, Option, none, some, ◌++◌}
use quic_toy.Base.Int.{ltb_ℤ, ℤ, pos, negsuc}
use quic_toy.Perf.{advance}

-- The results of socket, bind and accept.
pub record Sockets : Type 0 where
  pub socket : ℤ
  pub bind : ℤ
  pub accept : ℤ

-- What read returns, and SIGALRM.
pub data Happening : Type 0 where
  reads : ℤ → Happening
  rings : Happening

-- The exit code, BYTES_RECEIVED, and what alarm_handler has printed, oldest first.
pub record Report : Type 0 where
  pub code : ℕ
  pub received : ℕ
  pub printed : List ℕ

-- The loop of main with alarm_handler, which sets the next alarm; none while more is to be read.
unfoldable pub receive_loop : List Happening → ℕ → List ℕ → Option Report
receive_loop [] received printed = none
receive_loop (rings ∷ rest) received printed = receive_loop rest received (printed ++ received ∷ [])
receive_loop (reads (negsuc e) ∷ rest) received printed =
    some (record { code = 1; received = received; printed = printed })
receive_loop (reads (pos n) ∷ rest) received printed =
    let more = receive_loop rest (advance received n) printed in
    if nat_beq n 0 then some (record { code = 0; received = received; printed = printed }) else more

-- main. A socket that cannot be opened, bound or accepted ends it.
unfoldable pub tcp_server_main : Sockets → List Happening → Option Report
unfolding receive_loop
tcp_server_main sockets happenings =
    let failed = some (record { code = 1; received = 0; printed = [] }) in
    let served = receive_loop happenings 0 [] in
    if ltb_ℤ sockets.socket (pos 0)
    then failed
    else if ltb_ℤ sockets.bind (pos 0)
    then failed
    else if ltb_ℤ sockets.accept (pos 0)
    then failed
    else served
