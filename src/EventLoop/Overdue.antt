-- ===== src/EventLoop/Overdue.antt =====
-- No alarm that is due is passed over by CallAndReregisterAlarmEvents of
-- net/tools/epoll_server/epoll_server.cc.
use quic_toy.EventLoop.Rearming.{IsLater}
use quic_toy.EventLoop.LeftOver.{IsLeft}
use quic_toy.EventLoop.{is_member}
use quic_toy.EventLoop.Due.{Alarms, OnAlarm}
use quic_toy.Base.{All, ◌≡◌, List, ℕ, ◌++◌, true}

-- Whoever is skipped has been called.
abbrev AreCalled : List ℕ → List ℕ → Type 0
AreCalled skipped new = (c : ℕ) → is_member c skipped ≡ true → is_member c new ≡ true

module _ (on_alarm : OnAlarm) (now : ℕ)
    (later : (log : List ℕ) (cb : ℕ) → All (IsLater now) (on_alarm log cb).0) (before : List ℕ)
    (a' : Alarms) where
  -- The calls since a time, and that every alarm that is left is one of them or is not due.
  abbrev IsCleared : Type 0
  IsCleared =
      (new : List ℕ) × (a'.called ≡ before ++ new) × All (IsLeft now new) (a'.passed ++ a'.coming)
