-- ===== src/EventLoop/Turns.antt =====
-- A turn of the event loop of net/tools/epoll_server/epoll_server.cc returns, and leaves the loop as
-- the next turn needs it.
use quic_toy.EventLoop.Idle.{IsIdle, turn_timeout}
use quic_toy.EventLoop.Alarms.{AlarmMap}
use quic_toy.EventLoop.Due.{Alarms}
use quic_toy.EventLoop.{EventLoop}
use quic_toy.EventLoop.Executing.{
  wait_for_events_and_execute_callbacks, call_alarms, wait_and_handle, Handlers, Poll, EpollServer,
}
use quic_toy.Base.{if◌then◌else◌, ◌∷◌, ◌≡◌, ℕ}

pub turn_with_alarms :
    (handlers : Handlers) (poll : Poll) (e : EpollServer) (fuel time cb : ℕ) (rest : AlarmMap)
    → IsIdle e
    → e.alarms.coming ≡ (time, cb) ∷ rest
    → wait_for_events_and_execute_callbacks handlers fuel poll e
      ≡ wait_and_handle handlers poll
          (turn_timeout poll e)
          e
          (λ l a now. call_alarms handlers fuel e l a now)
unfolding wait_for_events_and_execute_callbacks
turn_with_alarms handlers poll e fuel time cb rest i some_set =
    simp (wait_for_events_and_execute_callbacks, turn_timeout, if◌then◌else◌, i.outside, some_set)
