-- ===== src/Tests/Turns.antt =====
-- Concrete turns of the event loop.
use quic_toy.EventLoop.{new_event_loop}
use quic_toy.EventLoop.Executing.{EpollServer, Poll, Handlers}
use quic_toy.Base.Int.{pos}
use quic_toy.EventLoop.Rearming.{alarms}
use quic_toy.Base.{false, ◌∷◌, [], ℕ}

-- Nothing runs; the clock is at 1_000 and an alarm of time 3_700 is set.
abbrev calm : Handlers
calm = record {
  on_event = λ log cb fd events. ([], events);
  on_alarm = λ log cb. ([], 9_000);
  sets_alarms = λ before after. [];
  changes_descriptors = λ before after. [];
}

-- epoll_wait that reports nothing, between two times.
abbrev sleeping : ℕ → ℕ → Poll
sleeping now woken_at = record { now = now; epoll_wait = λ timeout interest. ([], woken_at) }

-- epoll_wait that reports descriptor 3.
abbrev reporting : Poll
reporting = record { now = 5_000; epoll_wait = λ timeout interest. ((3, 1) ∷ [], 6_000) }

abbrev idle_server : EpollServer
idle_server = record {
  loop = new_event_loop 3 1;
  alarms = alarms [] ((3_700, 7) ∷ (4_000, 8) ∷ []) (8 ∷ 7 ∷ []) [] [];
  timeout_in_us = pos 50_000;
  recorded_now_in_us = 0;
  in_wait_for_events_and_execute_callbacks = false;
}
