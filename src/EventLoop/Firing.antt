-- ===== src/EventLoop/Firing.antt =====
-- The alarms that are due are called, and their calls come to an end.
use quic_toy.EventLoop.Rearming.{after_called, calls_made, alarms, IsLater}
use quic_toy.Base.LinkedMap.Laws.{beq_self}
use quic_toy.Base.{
  zero, ◌++◌, nat_eq, suc, ℕ, List, [], ◌∷◌, false, ◌≡◌, refl, ◌∙◌, ◌⊎◌, inl, inr, ◌<◌, ◌≤◌, arith,
  if◌then◌else◌, ltb, Bool-cases, All,
}
use quic_toy.EventLoop.{is_member, without}
use quic_toy.EventLoop.Alarms.{AlarmMap, insert_alarm}
use quic_toy.EventLoop.Load.{load}
use mathlib.Core.List.{append-nil, append_assoc}
use quic_toy.EventLoop.Due.{
  endless, alarm_loop, finished, OnAlarm, after_alarm, Alarms, sets, Ended, aborted,
  make_alarm_calls,
}

-- Nothing that is coming is due.
abbrev pub IsOver : ℕ → AlarmMap → Type 0
IsOver now [] = Unit
IsOver now ((time, cb) ∷ rest) = now < time

-- The first alarm that is coming, if it is due and is not to be skipped.
abbrev pub first_due : ℕ → List ℕ → AlarmMap → List ℕ
first_due now skipped [] = []
first_due now skipped ((time, cb) ∷ rest) =
    if ltb now time then [] else if is_member cb skipped then [] else cb ∷ []

-- The end of the program, by an alarm that is set twice, or the end of the loop, with the calls that
-- were made.
abbrev pub IsOutcome : ℕ → List ℕ → List ℕ → Ended → Type 0
IsOutcome now called first e =
    (e ≡ aborted)
    ⊎ ((a' : Alarms) × (new : List ℕ) × (e ≡ finished a')
        × IsOver now a'.coming
        × (a'.called ≡ (called ++ first) ++ new))

IsOutcome-after :
    (now : ℕ) (called first : List ℕ) (e : Ended)
    → IsOutcome now called first e
    → IsOutcome now called [] e
IsOutcome-after now called first e (inl stop) = inl stop
IsOutcome-after now called first e (inr (a', new, eq, over, log)) =
    inr (a', first ++ new, eq, over, log ∙ rw (append-nil, append_assoc) refl)

IsOutcome-called :
    (now : ℕ) (called : List ℕ) (cb : ℕ) (called' first : List ℕ) (e : Ended)
    → called' ≡ called ++ cb ∷ []
    → IsOutcome now called' first e
    → IsOutcome now called (cb ∷ []) e
IsOutcome-called now called cb called' first e log (inl stop) = inl stop
IsOutcome-called now called cb called' first e log (inr (a', new, eq, over, later)) =
    inr (a', first ++ new, eq, over, later ∙ rw (log, append_assoc) refl)

module _ (on_alarm : OnAlarm) (now : ℕ)
    (later : (log : List ℕ) (cb : ℕ) → All (IsLater now) (on_alarm log cb).0) where
  pub fired :
      (fuel : ℕ) (passed coming : AlarmMap) (all_alarms skipped called : List ℕ)
      → load now skipped coming < fuel
      → IsOutcome now called
          (first_due now skipped coming)
          (alarm_loop on_alarm now fuel (alarms passed coming all_alarms skipped called))
  unfolding alarm_loop
  fired zero passed coming all_alarms skipped called enough = absurd (omega arith)
  fired (suc fuel) passed [] all_alarms skipped called enough =
      inr (_, [], refl, tt, rw (append-nil, append-nil) refl)
  fired (suc fuel) passed ((time, cb) ∷ rest) all_alarms skipped called enough =
      elim (Bool-cases (ltb now time)) [
        | inl future ↦ rw future (
            inr (
              alarms passed ((time, cb) ∷ rest) all_alarms skipped called,
              [],
              refl,
              ground (arith, future),
              rw (append-nil, append-nil) refl,
            ))
        | inr due ↦ elim (Bool-cases (is_member cb skipped)) [
          | inl skip ↦
              rw (due, skip)
                (IsOutcome-after now called _ _ (
                  fired fuel (passed ++ (time, cb) ∷ []) rest all_alarms skipped called
                    (ground (arith, enough, due, skip))))
          | inr call ↦
              let (calls, new_timeout) = on_alarm called cb in
              let enough' : suc (load now skipped rest) < fuel =
                ground (arith, enough, due, call) in
              rw (due, call)
                (elim (calls_made now skipped (called ++ cb ∷ []) (time, cb) due calls
                  (λ a'.
                    after_alarm now cb new_timeout a' (λ a''. alarm_loop on_alarm now fuel a''))
                  passed rest (without cb all_alarms) (later called cb)) [
                    | inl stop ↦ inl stop
                    | inr (p, r, al, eq, less) ↦
                        rw eq
                          (elim (after_called now cb new_timeout
                            (λ a''. alarm_loop on_alarm now fuel a'') (time, cb) p r al skipped
                            (called ++ cb ∷ [])) [
                              | inl stop ↦ inl stop
                              | inr (a'', eq', less', log) ↦ rw eq' (
                                  IsOutcome-called now called cb a''.called _ _ log (
                                    fired fuel a''.passed a''.coming a''.all_alarms a''.skipped
                                      a''.called (omega (arith, less, less', enough'))))
                            ])
                  ])
        ]
      ]

  -- The loop of CallAndReregisterAlarmEvents comes to an end, on the fuel it is given, if the alarms
  -- that callbacks set while it runs are set for later than now, whatever times they return to be
  -- called again at. It stops before an alarm that is not due, or where no alarm is left, or the
  -- program is ended since an alarm is set that is set already. The calls come after those made
  -- before, and the first of them is that of the first alarm, if it is due and not to be skipped.
  pub alarm_loop-IsOutcome :
      (a : Alarms)
      → IsOutcome now a.called
          (first_due now a.skipped a.coming)
          (alarm_loop on_alarm now (suc (load now a.skipped a.coming)) a)
  alarm_loop-IsOutcome a =
      fired (suc (load now a.skipped a.coming)) a.passed a.coming a.all_alarms a.skipped a.called
        (omega arith)

-- An alarm whose OnAlarm sets itself anew for the time at which the loop started, as the clean-up of
-- the time-wait list does with a period of 0, is called for ever, since it is not skipped.
pub alarm_loop_diverges :
    (on_alarm : OnAlarm) (now time cb fuel : ℕ) (passed : AlarmMap) (called : List ℕ)
    → ((log : List ℕ) → on_alarm log cb ≡ (sets now cb ∷ [], 0))
    → time ≤ now
    → alarm_loop on_alarm now fuel (alarms passed ((time, cb) ∷ []) (cb ∷ []) [] called) ≡ endless
unfolding alarm_loop make_alarm_calls after_alarm insert_alarm
alarm_loop_diverges on_alarm now time cb zero passed called again due = refl
alarm_loop_diverges on_alarm now time cb (suc fuel) passed called again due =
    let is_due : ltb now time ≡ false = ground (arith, due) in
    rw (is_due, beq_self cb, again called)
      (rw is_due (
        alarm_loop_diverges on_alarm now now cb fuel passed (called ++ cb ∷ []) again
          (omega arith)))
