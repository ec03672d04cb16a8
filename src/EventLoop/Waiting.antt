-- ===== src/EventLoop/Waiting.antt =====
-- How long the event loop waits.
use quic_toy.Base.{arith, ◌-◌, ◌≡◌, ℕ}
use quic_toy.Base.Int.{negsuc, pos, ℤ}
use quic_toy.EventLoop.Wait.{wait_time}
use Prim.Native.Nat.{min}

abbrev pub whole : ℤ → ℕ → ℕ
whole (pos timeout) left = min left timeout
whole (negsuc t) left = left

-- Where an alarm is set, the loop waits for the time that is left until it, which is 0 for an alarm
-- that is due, or for the loop's timeout if that is shorter; a negative timeout is none.
pub wait_time-eq :
    (next_alarm_time now : ℕ) (timeout : ℤ)
    → wait_time next_alarm_time now timeout ≡ pos (whole timeout (next_alarm_time - now))
wait_time-eq next_alarm_time now (pos timeout) = unfold wait_time in ground arith
wait_time-eq next_alarm_time now (negsuc t) = unfold wait_time in ground arith
