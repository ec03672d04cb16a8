-- ===== src/EventLoop/Sleeping.antt =====
-- How long the event loop of net/tools/epoll_server/epoll_server.cc sleeps for its first alarm.
use quic_toy.EventLoop.Due.{finished, OnAlarm, Alarms, alarm_loop}
use quic_toy.EventLoop.Waiting.{wait_time-eq}
use quic_toy.EventLoop.Load.{load}
use quic_toy.EventLoop.Alarms.{AlarmMap}
use quic_toy.EventLoop.Wait.{wait_time, timeout_in_ms}
use quic_toy.Base.Int.{negsuc, pos, ℤ}
use quic_toy.Base.{
  lt→ltb, ◌%◌, zero, true, suc, ◌∷◌, Bool-cases, inl, inr, nat_eq, ◌+◌, ◌<◌, ◌∙◌, ◌/◌, arith, [],
  ◌⊎◌, ltb, length, ◌≡◌, false, nat_beq, ◌*◌, ◌≤◌, ◌-◌, if◌then◌else◌, List, ℕ,
}

-- The loop's timeout is none, or not shorter than the time that is left.
abbrev pub Permits : ℤ → ℕ → Type 0
Permits (pos timeout) left = (left < 2_147_483_648_000) × (left ≤ timeout)
Permits (negsuc t) left = left < 2_147_483_648_000

pub load_le : (now : ℕ) (skipped : List ℕ) (m : AlarmMap) → load now skipped m ≤ 2 * length m
load_le now skipped [] = omega arith
load_le now skipped ((time, cb) ∷ m) = ground (arith, load_le now skipped m)

-- The milliseconds that the loop sleeps for an alarm.
pub sleeps_ms : ℕ → ℕ
sleeps_ms left = if nat_beq left 0 then 0 else if ltb left 1_000 then 1 else left / 1_000

pub timeout_in_ms-sleeps :
    (left : ℕ) → left < 2_147_483_648_000 → timeout_in_ms (pos left) false ≡ pos (sleeps_ms left)
unfolding timeout_in_ms sleeps_ms
timeout_in_ms-sleeps left fits =
    let whole : left / 1_000 % 4_294_967_296 ≡ left / 1_000 = omega (arith, fits) in
    let below : ltb (left / 1_000) 2_147_483_648 ≡ true = lt→ltb _ _ (omega (arith, fits)) in
    rw whole (rw below (ground arith))

pub Permits-fits : (timeout : ℤ) (left : ℕ) → Permits timeout left → left < 2_147_483_648_000
Permits-fits (pos timeout) left ok = ok.0
Permits-fits (negsuc t) left ok = ok

pub permitted :
    (timeout : ℤ) (time now : ℕ)
    → Permits timeout (time - now)
    → wait_time time now timeout ≡ pos (time - now)
permitted (pos timeout) time now ok = wait_time-eq time now (pos timeout) ∙ ground (arith, ok.1)
permitted (negsuc t) time now ok = wait_time-eq time now (negsuc t)

-- After the sleep, the alarm is due, or less than a millisecond is left.
pub slept_enough :
    (left : ℕ)
    → (left ≤ 1_000 * sleeps_ms left) ⊎ ((1_000 ≤ left) × (left < 1_000 * sleeps_ms left + 1_000))
unfolding sleeps_ms
slept_enough left = elim (Bool-cases (ltb left 1_000)) [
  | inl short ↦ inl (ground (arith, short))
  | inr long ↦
      let some_left : nat_beq left 0 ≡ false = ground (arith, long) in
      inr (ground (arith, long), rw (some_left, long) (omega arith))
]

pub stops_early :
    (on_alarm : OnAlarm) (now time cb : ℕ) (rest : AlarmMap) (a : Alarms)
    → a.coming ≡ (time, cb) ∷ rest
    → now < time
    → (fuel : ℕ) → 0 < fuel
    → alarm_loop on_alarm now fuel a ≡ finished a
unfolding alarm_loop
stops_early on_alarm now time cb rest a first early zero enough = absurd (omega (arith, enough))
stops_early on_alarm now time cb rest a first early (suc fuel) enough =
    let is_early : ltb now time ≡ true = ground (arith, early) in
    simp (alarm_loop, first, is_early, if◌then◌else◌)

pub Permits-less :
    (timeout : ℤ) (left less : ℕ) → less ≤ left → Permits timeout left → Permits timeout less
Permits-less (pos timeout) left less le ok = (omega (arith, le, ok.0), omega (arith, le, ok.1))
Permits-less (negsuc t) left less le ok = omega (arith, le, ok)
