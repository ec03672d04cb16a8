-- ===== src/Tests/Dispatching.antt =====
-- The dispatcher, applied.
use quic_toy.Dispatcher.Closing.{on_connection_closed-IsTakenOut, IsTakenOut}
use quic_toy.Dispatcher.Shutdown.{shutdown-IsConsistent}
use quic_toy.Dispatcher.Writing.{on_can_write-IsConsistent}
use quic_toy.Dispatcher.Processing.{process_packet-late, process_packet-IsConsistent}
use quic_toy.Server.Events.{on_event-IsReady, AsksAgain, reading}
use quic_toy.Dispatcher.Invariant.{IsQuiescent, IsSettled, IsConsistent}
use quic_toy.Base.LinkedMap.{find, contains}
use quic_toy.Dispatcher.{shutdown, Dispatcher, PublicHeader, Framer}
use quic_toy.Base.{
  ◌>>=◌, none, ◌⊎◌, ◌≢◌, ◌<◌, length, nat_eq, inr, ◌≡◌, Bool, arith, true, some, [], false, Option,
  ℕ, ◌∷◌, refl,
}
use quic_toy.Session.{ClosesNoStream, Connections, closes}
use quic_toy.Dispatcher
use quic_toy.Server.{on_event}
use quic_toy.Dispatcher.{on_can_write}
use quic_toy.Dispatcher.Packets.{process_packet}
use quic_toy.Tests.{
  peer, echo, echo-IsLawful, flags, platform, framer, busy, busy-IsConsistent, versioned, datagram,
}

on_event-IsReady_example :
    (d' : Dispatcher ℕ) × (dropped' : Option ℕ) × (out : Bool) × (on_event echo flags platform
        framer true true
        (datagram ∷ [])
        4433
        1_000
        (some 0)
        busy
      ≡ some (d', dropped', out))
    × IsConsistent echo flags 1_000 d'
    × IsSettled echo flags d'
    × AsksAgain echo flags platform framer echo-IsLawful
        (omega arith)
        versioned
        true
        out
        (reading echo flags platform framer echo-IsLawful
          (omega arith)
          versioned
          true
          (datagram ∷ [])
          4433
          (some 0)
          1_000
          busy)
        d'
    × (ClosesNoStream echo → d'.exited ≡ busy.exited)
on_event-IsReady_example =
    on_event-IsReady echo flags platform framer echo-IsLawful (omega arith) versioned true true
      (datagram ∷ []) 4433 1_000 (some 0) busy busy-IsConsistent (inr refl)

process_packet-IsConsistent_example :
    (d' : Dispatcher ℕ) × (process_packet echo flags platform framer peer peer
        (6 ∷ 1 ∷ [])
        1_000
        busy
      ≡ some d')
    × IsConsistent echo flags 1_000 d'
    × IsQuiescent echo flags d'
    × (ClosesNoStream echo → d'.exited ≡ busy.exited)
process_packet-IsConsistent_example =
    process_packet-IsConsistent echo flags platform framer echo-IsLawful (omega arith) peer peer
      (6 ∷ 1 ∷ []) 1_000 busy busy-IsConsistent versioned (inr refl)

process_packet-late_example :
    (d' : Dispatcher ℕ) × (process_packet echo flags platform framer peer peer (8 ∷ []) 1_000 busy
      ≡ some d')
    × (d'.session_map ≡ busy.session_map)
    × IsConsistent echo flags 1_000 d'
process_packet-late_example =
    process_packet-late echo flags platform framer echo-IsLawful (omega arith) peer peer (8 ∷ [])
      1_000 busy busy-IsConsistent
      (record { connection_id = 8; reset_flag = false; version_flag = false; versions = [] }) refl
      (unfold contains in refl)

on_can_write-IsConsistent_example :
    (d' : Dispatcher ℕ) × (on_can_write echo flags platform 1_000 busy ≡ some d')
    × IsConsistent echo flags 1_000 d'
    × IsSettled echo flags d'
    × (d'.link.write_blocked ≡ true → length busy.link.attempts < length d'.link.attempts)
    × (ClosesNoStream echo → d'.exited ≡ busy.exited)
on_can_write-IsConsistent_example =
    on_can_write-IsConsistent echo flags platform echo-IsLawful (omega arith) 1_000 busy
      busy-IsConsistent

shutdown-IsConsistent_example :
    (d' : Dispatcher ℕ) × (shutdown echo flags platform 1_000 busy ≡ some d')
    × IsConsistent echo flags 1_000 d'
    × ((d'.exited ≡ true) ⊎ ((d'.session_map ≡ []) × (d'.closed_session_list ≡ [])))
    × (ClosesNoStream echo → d'.exited ≡ busy.exited)
shutdown-IsConsistent_example =
    shutdown-IsConsistent echo flags platform echo-IsLawful (omega arith) 1_000 busy
      busy-IsConsistent

on_connection_closed-IsTakenOut_example :
    (d' : Dispatcher ℕ) × (Dispatcher.on_connection_closed echo flags 5 16 1_000 busy ≡ some d')
    × IsConsistent echo flags 1_000 d'
    × (find 5 d'.session_map ≡ none)
    × ((j : ℕ) → 5 ≢ j → find j d'.session_map ≡ find j busy.session_map)
    × IsTakenOut echo flags 5 1_000 busy d'
on_connection_closed-IsTakenOut_example =
    on_connection_closed-IsTakenOut echo flags 5 1_000 busy 16 (omega arith) busy-IsConsistent

-- A connection with an open stream: the program ends when it is told to close.
abbrev streaming : Connections
streaming = record echo {
  send_connection_close = λ error log c. (c, closes error false (4 ∷ []) ∷ []);
}

shutdown_exits : (shutdown streaming flags platform 1_000 busy >>= λ d. some d.exited) ≡ some true
unfolding shutdown
shutdown_exits = refl
