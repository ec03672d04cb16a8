-- ===== src/EventLoop/Punctual.antt =====
-- The alarms of the event loop of net/tools/epoll_server/epoll_server.cc are called in time, though it
-- waits for whole milliseconds.
use quic_toy.EventLoop.{EventLoop}
use quic_toy.EventLoop.Due.{Alarms}
use quic_toy.EventLoop.Idle.{IsIdle, turn_timeout, woken}
use quic_toy.EventLoop.Wait.{timeout_in_ms}
use quic_toy.EventLoop.Executing.{returned, killed, Turn, has_ready, EpollServer, Poll, Handlers}
use quic_toy.Base.Int.{pos}
use quic_toy.Base.{◌++◌, ◌∷◌, nat_eq, ◌+◌, [], ◌⊎◌, ◌≡◌, ◌*◌, ◌≤◌, List, ℕ}

-- epoll_wait reports nothing, so its timeout has passed. Where no callback is called, no alarm is set
-- and no descriptor is changed.
pub record IsSilent (handlers : Handlers) (poll : Poll) (e : EpollServer) : Type 0 where
  pub nothing : (woken poll e).0 ≡ []
  pub slept :
      (ms : ℕ)
      → timeout_in_ms (turn_timeout poll e) (has_ready e.loop) ≡ pos ms
      → poll.now + 1_000 * ms ≤ (woken poll e).1
  pub sets_none : (log : List (ℕ × ℕ)) → handlers.sets_alarms log log ≡ []
  pub changes_none : (log : List ℕ) → handlers.changes_descriptors log log ≡ []

-- The program is ended, or the turn returns to an idle loop and the callback has been called in it.
abbrev pub IsCalled : EpollServer → ℕ → Turn → Type 0
IsCalled e cb t =
    (t ≡ killed)
    ⊎ ((e' : EpollServer) × (new : List ℕ) × (t ≡ returned e')
        × IsIdle e'
        × (e'.alarms.called ≡ e.alarms.called ++ cb ∷ new))
