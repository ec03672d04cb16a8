-- ===== src/EventLoop/Rearming.antt =====
-- What a callback of an alarm, and what follows it, leave of the alarms that are coming: the loop over
-- the alarms has less left to do.
use quic_toy.EventLoop.{without, is_member}
use quic_toy.Base.LinkedMap.Laws.{beq_self}
use quic_toy.EventLoop.Load.{load-skip_le, load-unregister_le, load-insert, load, weight}
use quic_toy.EventLoop.Due.{
  make_alarm_calls, aborted, cancels, Ended, place, Alarms, sets, after_alarm, AlarmCall,
}
use quic_toy.EventLoop.Alarms.{unregister_alarm, insert_alarm, AlarmMap}
use quic_toy.Base.{
  ◌∙◌, ap, refl, if◌then◌else◌, [], Bool, nat_beq, inr, suc, inl, All, ◌⊎◌, Bool-cases, nat_eq, ◌+◌,
  arith, false, ◌≤◌, ◌≡◌, leb, ◌∷◌, ltb, ◌<◌, List, ℕ,
}

abbrev pub alarms : AlarmMap → AlarmMap → List ℕ → List ℕ → List ℕ → Alarms
alarms passed coming all_alarms skipped called = record {
  passed = passed;
  coming = coming;
  all_alarms = all_alarms;
  skipped = skipped;
  called = called;
}

-- An alarm is set for later than now.
abbrev pub IsLater : ℕ → AlarmCall → Type 0
IsLater now (sets time cb) = now < time
IsLater now (cancels cb) = Unit

module _ (now : ℕ) (skipped called : List ℕ) (head : ℕ × ℕ) (due : ltb now head.0 ≡ false) where
  -- The calls leave the alarm at its place, and bring no alarm that is due.
  pub calls_made :
      (calls : List AlarmCall) (next : Alarms → Ended) (passed rest : AlarmMap)
      (all_alarms : List ℕ)
      → All (IsLater now) calls
      → let a = alarms passed (head ∷ rest) all_alarms skipped called in
        (make_alarm_calls calls a next ≡ aborted)
        ⊎ ((passed' : AlarmMap) × (rest' : AlarmMap) × (all_alarms' : List ℕ) × (make_alarm_calls
                calls a next
              ≡ next (alarms passed' (head ∷ rest') all_alarms' skipped called))
            × (load now skipped rest' ≤ load now skipped rest))
  unfolding make_alarm_calls insert_alarm
  calls_made [] next passed rest all_alarms later =
      inr (passed, rest, all_alarms, refl, omega arith)
  calls_made (cancels cb ∷ calls) next passed rest all_alarms later =
      elim (Bool-cases (is_member cb all_alarms)) [
        | inr unknown ↦ rw unknown (calls_made calls next passed rest all_alarms later.1)
        | inl known ↦
            rw known
              (elim (calls_made calls next (unregister_alarm cb passed) (unregister_alarm cb rest)
                (without cb all_alarms) later.1) [
                  | inl stop ↦ inl stop
                  | inr (p, r, al, eq, less) ↦
                      inr
                        (p, r, al, eq, omega (arith, less, load-unregister_le now skipped cb rest))
                ])
      ]
  calls_made (sets time cb ∷ calls) next passed rest all_alarms later =
      let behind_head : ltb time head.0 ≡ false = ground (arith, due, later.0) in
      let weightless : load now skipped (insert_alarm time cb rest) ≡ load now skipped rest =
        load-insert now skipped time cb rest ∙ ground (arith, later.0) in
      elim (Bool-cases (is_member cb all_alarms)) [
        | inl twice ↦ inl (rw twice refl)
        | inr fresh ↦
            rw (fresh, behind_head)
              (elim (calls_made calls next passed (insert_alarm time cb rest) (cb ∷ all_alarms)
                later.1) [
                  | inl stop ↦ inl stop
                  | inr (p, r, al, eq, less) ↦ inr (p, r, al, eq, omega (arith, less, weightless))
                ])
      ]

weight-skipped : (now time cb : ℕ) (skipped : List ℕ) → weight now (cb ∷ skipped) (time, cb) ≤ 1
weight-skipped now time cb skipped = ground (arith, beq_self cb)

weight-later :
    (now time cb : ℕ) (skipped : List ℕ) → leb time now ≡ false → weight now skipped (time, cb) ≡ 0
weight-later now time cb skipped later = ground (arith, later)

placed :
    (now time cb : ℕ) (passed rest : AlarmMap) (all_alarms skipped called : List ℕ)
    → let a = place time cb (alarms passed rest all_alarms skipped called) in
      (load now skipped a.coming ≤ weight now skipped (time, cb) + load now skipped rest)
      × (a.skipped ≡ skipped)
      × (a.called ≡ called)
unfolding insert_alarm
placed now time cb passed [] all_alarms skipped called = (omega arith, refl, refl)
placed now time cb passed ((t, c) ∷ rest) all_alarms skipped called =
    elim (Bool-cases (ltb time t)) [
      | inl before ↦ rw before (omega arith, refl, refl)
      | inr behind ↦ rw behind (omega (arith, load-insert now skipped time cb rest), refl, refl)
    ]

-- An alarm that is registered again is either later than now, or is skipped from then on.
pub after_called :
    (now cb new_timeout : ℕ) (next : Alarms → Ended) (head : ℕ × ℕ) (passed rest : AlarmMap)
    (all_alarms skipped called : List ℕ)
    → let a = alarms passed (head ∷ rest) all_alarms skipped called in
      (after_alarm now cb new_timeout a next ≡ aborted)
      ⊎ ((a' : Alarms) × (after_alarm now cb new_timeout a next ≡ next a')
          × (load now a'.skipped a'.coming ≤ suc (load now skipped rest))
          × (a'.called ≡ called))
unfolding after_alarm
after_called now cb new_timeout next head passed rest all_alarms skipped called =
    elim (Bool-cases (nat_beq new_timeout 0)) [
      | inl never ↦
          inr (alarms passed rest all_alarms skipped called, rw never refl, omega arith, refl)
      | inr again ↦ elim (Bool-cases (is_member cb all_alarms)) [
        | inl twice ↦ inl (rw (again, twice) refl)
        | inr fresh ↦
            let placed_if : Bool → Alarms = λ b.
              place new_timeout cb
                (alarms passed rest all_alarms (if b then cb ∷ skipped else skipped) called) in
            elim (Bool-cases (leb new_timeout now)) [
              | inl soon ↦
                  let (less, same, log) =
                    placed now new_timeout cb passed rest all_alarms (cb ∷ skipped) called in
                  inr (
                    place new_timeout cb (alarms passed rest all_alarms (cb ∷ skipped) called),
                    rw (again, fresh) (ap (λ b. next (placed_if b)) soon),
                    rw same (
                        omega (
                          arith,
                          less,
                          weight-skipped now new_timeout cb skipped,
                          load-skip_le now skipped cb rest,
                        )),
                    log,
                  )
              | inr later ↦
                  let (less, same, log) =
                    placed now new_timeout cb passed rest all_alarms skipped called in
                  inr (
                    place new_timeout cb (alarms passed rest all_alarms skipped called),
                    rw (again, fresh) (ap (λ b. next (placed_if b)) later),
                    rw same (omega (arith, less, weight-later now new_timeout cb skipped later)),
                    log,
                  )
            ]
      ]
    ]
