-- ===== src/Tests/Runs.antt =====
-- Runs of a concrete server.
use quic_toy.Base.Int.{pos, negsuc}
use quic_toy.Session.{ClosesNoStream}
use quic_toy.Server.{Server}
use quic_toy.Base.{
  ◌⊎◌, nat_eq, ℕ, ◌+◌, ◌≡◌, refl, arith, true, false, some, none, [], ◌∷◌, List, inr,
}
use quic_toy.Base.LinkedMap.{find}
use quic_toy.Dispatcher.{Dispatcher}
use quic_toy.Dispatcher.Invariant.{IsConsistent, IsQuiescent}
use quic_toy.Server.Schedule.{
  Host, Event, step, run, serve, socket_event, sessions_alarm, list_alarm, connection_alarm, passes,
}
use quic_toy.Server.Life.{run-IsConsistent, serve-IsConsistent, run_evicts, elapsed}
use quic_toy.Tests.{
  echo, echo-IsLawful, flags, platform, framer, busy, busy-IsConsistent, versioned, datagram, ended,
}

abbrev host : Host ℕ
host = record { now = 1_000; dropped = some 0; dispatcher = busy }

abbrev day : List Event
day =
    socket_event true false (datagram ∷ datagram ∷ [])
    ∷ passes 400
    ∷ socket_event false true []
    ∷ list_alarm
    ∷ connection_alarm 5 1
    ∷ sessions_alarm
    ∷ []

run-IsConsistent_example :
    (h' : Host ℕ) × (run echo flags platform framer 4433 day host ≡ some h')
    × IsConsistent echo flags h'.now h'.dispatcher
    × ((h'.dispatcher.exited ≡ true)
        ⊎ ((h'.now ≡ 1_000 + elapsed day) × IsQuiescent echo flags h'.dispatcher))
    × (ClosesNoStream echo → h'.dispatcher.exited ≡ busy.exited)
run-IsConsistent_example =
    run-IsConsistent echo flags platform framer echo-IsLawful (omega arith) versioned 4433 day host
      busy-IsConsistent (inr (inr refl)) (omega arith)

abbrev server : Server ℕ
server = record {
  port = 4433;
  fd = pos 3;
  packets_dropped = 0;
  overflow_supported = true;
  windows = record { stream = 30_720; session = 1_048_576 };
  supported_versions = 24 ∷ [];
  registered = 3 ∷ [];
  dispatcher = some busy;
}

serve-IsConsistent_example :
    (s' : Server ℕ) × (d : Dispatcher ℕ) × (serve echo flags platform framer 4433 day server host
      ≡ some s')
    × (s'.dispatcher ≡ some d)
    × ((d.exited ≡ true)
        ⊎ ((d.session_map ≡ []) × (d.closed_session_list ≡ []) × (s'.fd ≡ negsuc 0)))
    × (ClosesNoStream echo → d.exited ≡ busy.exited)
serve-IsConsistent_example =
    serve-IsConsistent echo flags platform framer echo-IsLawful (omega arith) versioned 4433 day
      server host busy-IsConsistent (inr (inr refl)) (omega arith)

abbrev later_host : Host ℕ
later_host = record host { now = 1_500 }

run_evicts_example :
    (h'' : Host ℕ) × (step echo flags platform framer 4433 list_alarm later_host ≡ some h'')
    × (find 8 h''.dispatcher.time_wait_list.connection_id_map ≡ none)
run_evicts_example =
    run_evicts echo flags platform framer echo-IsLawful (omega arith) versioned 4433
      (passes 500 ∷ []) host later_host 8 ended busy-IsConsistent (inr (inr refl)) (omega arith)
      (unfold run step in refl) (unfold find in refl) (omega arith)
