-- ===== src/Tests/Awake.antt =====
-- A concrete server whose socket stays full.
use quic_toy.Dispatcher.{Dispatcher}
use quic_toy.Server.Awake.{
  server_on_event-IsQuiet, server_on_event-IsCalledToWrite, IsCalledToWrite,
}
use quic_toy.EventLoop.Executing.{has_ready}
use quic_toy.Writer.{Platform}
use quic_toy.Base.Int.{pos, negsuc, ℤ}
use quic_toy.Server.Looping.{server_on_event}
use quic_toy.EventLoop.Served.{new_event_loop-IsTidy}
use quic_toy.EventLoop.Wait.{handle_events, timeout_in_ms, wait_for_events_and_call_handle_events}
use quic_toy.EventLoop.Registering.{register_fd-IsTidy}
use quic_toy.EventLoop.Tidy.{IsTidy}
use quic_toy.EventLoop.{handle_event, new_event_loop, register_fd, Entry, EventLoop}
use quic_toy.Server.Schedule.{Host}
use quic_toy.Server.{on_event}
use quic_toy.Base.{Option, refl, ◌≡◌, ℕ, nat_eq, ◌∷◌, none, some, [], true, false}
use quic_toy.Tests.{echo, flags, platform, framer, busy}

abbrev full : Platform
full = record {
  is_ipv4 = platform.is_ipv4;
  sendmsg = λ log fd message. record { rc = negsuc 0; errno = 11 };
}

abbrev host : Host ℕ
host = record { now = 1_000; dropped = none; dispatcher = busy }

-- The server's socket is descriptor 5, its callback 7.
abbrev serving : EventLoop
serving = register_fd 5 7 5 (new_event_loop 3 1)

serving-IsTidy : IsTidy none serving
serving-IsTidy = register_fd-IsTidy none 5 _ (new_event_loop-IsTidy 3 1) 7 5

abbrev its_entry : Entry
its_entry = record {
  cb = some 7;
  event_mask = 5;
  events_asserted = 4;
  events_to_fake = 0;
  in_use = false;
}

-- What is left of the event.
left_over : Dispatcher ℕ × Option ℕ
unfolding on_event
left_over = elim (on_event echo flags full framer false true [] 4_433 1_000 none busy) [
  | none ↦ (busy, none)
  | some (d, dropped, again) ↦ (d, dropped)
]

still_waits :
    on_event echo flags full framer false true [] 4_433 1_000 none busy
    ≡ some (left_over.0, left_over.1, true)
unfolding on_event left_over
still_waits = refl

server_on_event-IsCalledToWrite_example :
    (l' : EventLoop) × (wait_for_events_and_call_handle_events
        (server_on_event echo flags full framer 4433 7 host [])
        ((5, 4) ∷ [])
        serving
      ≡ some l')
    × ((timeout : ℤ) → timeout_in_ms timeout (has_ready l') ≡ pos 0)
    × IsCalledToWrite (server_on_event echo flags full framer 4433 7 host []) [] 5 l'
server_on_event-IsCalledToWrite_example =
    server_on_event-IsCalledToWrite echo flags full framer 4433 7 host []
      (server_on_event echo flags full framer 4433 7 host []) ((5, 4) ∷ []) [] 5 its_entry serving
      serving-IsTidy (unfold register_fd new_event_loop in refl)
      (server_on_event-IsQuiet echo flags full framer 4433 7 host [])
      (unfold handle_events handle_event register_fd new_event_loop in refl)
      (unfold handle_events handle_event register_fd new_event_loop in refl) refl left_over.0
      left_over.1 still_waits
