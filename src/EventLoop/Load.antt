-- ===== src/EventLoop/Load.antt =====
-- How much is left to do for the loop over the alarms.
use quic_toy.Base.{
  nat_eq, ℕ, List, [], ◌∷◌, ◌≡◌, refl, inl, inr, ◌≤◌, ◌+◌, arith, if◌then◌else◌, nat_beq, ltb,
  Bool-cases,
}
use quic_toy.EventLoop.{is_member}
use quic_toy.EventLoop.Alarms.{AlarmMap, insert_alarm, unregister_alarm}
use quic_toy.EventLoop.Due.{behind}

-- How often an alarm can still be looked at: once more where it is to be skipped.
abbrev pub weight : ℕ → List ℕ → ℕ × ℕ → ℕ
weight now skipped (time, cb) = if ltb now time then 0 else if is_member cb skipped then 1 else 2

abbrev pub load : ℕ → List ℕ → AlarmMap → ℕ
load now skipped [] = 0
load now skipped (alarm ∷ m) = weight now skipped alarm + load now skipped m

pub load-insert :
    (now : ℕ) (skipped : List ℕ) (time cb : ℕ) (m : AlarmMap)
    → load now skipped (insert_alarm time cb m) ≡ weight now skipped (time, cb) + load now skipped m
unfolding insert_alarm
load-insert now skipped time cb [] = refl
load-insert now skipped time cb ((t, c) ∷ m) = elim (Bool-cases (ltb time t)) [
  | inl before ↦ rw before refl
  | inr behind ↦ rw behind (omega (arith, load-insert now skipped time cb m))
]

pub load-unregister_le :
    (now : ℕ) (skipped : List ℕ) (cb : ℕ) (m : AlarmMap)
    → load now skipped (unregister_alarm cb m) ≤ load now skipped m
unfolding unregister_alarm
load-unregister_le now skipped cb [] = omega arith
load-unregister_le now skipped cb ((t, c) ∷ m) = elim (Bool-cases (nat_beq c cb)) [
  | inl same ↦ rw same (omega arith)
  | inr other ↦ rw other (omega (arith, load-unregister_le now skipped cb m))
]

pub weight-skip_le :
    (now : ℕ) (skipped : List ℕ) (cb : ℕ) (alarm : ℕ × ℕ)
    → weight now (cb ∷ skipped) alarm ≤ weight now skipped alarm
weight-skip_le now skipped cb (t, c) = ground arith

pub load-skip_le :
    (now : ℕ) (skipped : List ℕ) (cb : ℕ) (m : AlarmMap)
    → load now (cb ∷ skipped) m ≤ load now skipped m
load-skip_le now skipped cb [] = omega arith
load-skip_le now skipped cb (alarm ∷ m) =
    omega (arith, weight-skip_le now skipped cb alarm, load-skip_le now skipped cb m)
