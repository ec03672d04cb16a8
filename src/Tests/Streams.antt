-- ===== src/Tests/Streams.antt =====
-- A concrete stream of the server.
use quic_toy.Base.{◌≡◌, some, [], ◌∷◌, List}
use quic_toy.Stream.{StreamEvent, arrives, fires, handle_all, create_incoming_dynamic_stream}
use quic_toy.Stream.Reports.{handle_all-totals}

abbrev run : List StreamEvent
run = arrives 3 ∷ fires 2_000_000 ∷ arrives 4 ∷ fires 3_000_000 ∷ []

handle_all-totals_example :
    handle_all run (create_incoming_dynamic_stream 1_000_000)
    ≡ record { bytes_received = 7; alarm = some 4_000_000; printed = 3 ∷ 7 ∷ [] }
handle_all-totals_example = handle_all-totals run 1_000_000
