-- ===== src/EventLoop/Agreed.antt =====
-- A QuicEpollAlarm of net/tools/quic/quic_epoll_connection_helper.cc, its EpollAlarm and the event loop's
-- map of alarms, which has other alarms too.
use quic_toy.Base.LinkedMap.Laws.{beq_self}
use quic_toy.EventLoop.Alarms.{
  unregister-insert, register_alarm, insert_alarm, AlarmMap, unregister_if_registered,
  unregister_alarm, has_alarm, EpollAlarm, set_impl,
}
use quic_toy.Base.{
  inr, inl, Bool-cases, ◌∙◌, sym, refl, arith, if◌then◌else◌, ◌≢◌, ◌≡◌, Option, ℕ, nat_eq, [], ◌∷◌,
  true, false, none, some, ◌>>=◌,
}

-- EpollAlarmImpl::OnAlarm, of an alarm that the loop calls and takes out of its map: the time that Fire
-- sets it to, if it does.
unfoldable pub on_alarm_impl : Option ℕ → EpollAlarm → AlarmMap → Option (EpollAlarm × AlarmMap)
unfolding set_impl unregister_alarm
on_alarm_impl again a m =
    let a' = record a { registered = false } in
    let m' = unregister_alarm a.cb m in
    elim again [ none ↦ some (a', m') | some deadline ↦ set_impl deadline a' m' ]

-- What happens to an alarm: SetImpl, CancelImpl, its call by the loop, and another alarm that is set or
-- cancelled.
pub data AlarmStep : Type 0 where
  sets_it : ℕ → AlarmStep
  cancels_it : AlarmStep
  calls_it : Option ℕ → AlarmStep
  sets_other : ℕ → ℕ → AlarmStep
  cancels_other : ℕ → AlarmStep

unfoldable pub alarm_step : AlarmStep → EpollAlarm → AlarmMap → Option (EpollAlarm × AlarmMap)
unfolding set_impl unregister_if_registered on_alarm_impl register_alarm unregister_alarm has_alarm
alarm_step (sets_it deadline) a m = set_impl deadline a m
alarm_step cancels_it a m = some (unregister_if_registered a m)
alarm_step (calls_it again) a m = if has_alarm a.cb m then on_alarm_impl again a m else some (a, m)
alarm_step (sets_other time cb) a m = register_alarm time cb m >>= λ m'. some (a, m')
alarm_step (cancels_other cb) a m = some (a, unregister_alarm cb m)

-- registered_ tells whether the alarm is in the map, in which it is once at most.
abbrev pub IsAgreed : EpollAlarm → AlarmMap → Type 0
IsAgreed a m =
    (a.registered ≡ has_alarm a.cb m) × (has_alarm a.cb (unregister_alarm a.cb m) ≡ false)

-- A QuicAlarm is set only while it is not; another alarm is another, and is set only while it is not.
abbrev pub IsAllowed : AlarmStep → EpollAlarm → AlarmMap → Type 0
IsAllowed (sets_it deadline) a m = a.registered ≡ false
IsAllowed cancels_it a m = Unit
IsAllowed (calls_it again) a m = Unit
IsAllowed (sets_other time cb) a m = (cb ≢ a.cb) × (has_alarm cb m ≡ false)
IsAllowed (cancels_other cb) a m = cb ≢ a.cb

has_alarm-insert_self : (time cb : ℕ) (m : AlarmMap) → has_alarm cb (insert_alarm time cb m) ≡ true
unfolding has_alarm insert_alarm
has_alarm-insert_self time cb [] = ground (arith, beq_self cb)
has_alarm-insert_self time cb ((t, c) ∷ m) =
    ground (arith, beq_self cb, has_alarm-insert_self time cb m)

has_alarm-insert_other :
    (time c cb : ℕ) (m : AlarmMap) → c ≢ cb → has_alarm cb (insert_alarm time c m) ≡ has_alarm cb m
unfolding has_alarm insert_alarm
has_alarm-insert_other time c cb [] other = ground (arith, other)
has_alarm-insert_other time c cb ((t, d) ∷ m) other =
    ground (arith, other, has_alarm-insert_other time c cb m other)

has_alarm-unregister_other :
    (c cb : ℕ) (m : AlarmMap) → c ≢ cb → has_alarm cb (unregister_alarm c m) ≡ has_alarm cb m
unfolding has_alarm unregister_alarm
has_alarm-unregister_other c cb [] other = refl
has_alarm-unregister_other c cb ((t, d) ∷ m) other =
    ground (arith, other, has_alarm-unregister_other c cb m other)

unregister_absent : (cb : ℕ) (m : AlarmMap) → has_alarm cb m ≡ false → unregister_alarm cb m ≡ m
unfolding has_alarm unregister_alarm
unregister_absent cb [] h = refl
unregister_absent cb ((t, d) ∷ m) h = ground (arith, h, unregister_absent cb m)

once-insert_other :
    (time c cb : ℕ) (m : AlarmMap)
    → c ≢ cb
    → has_alarm cb (unregister_alarm cb (insert_alarm time c m))
      ≡ has_alarm cb (unregister_alarm cb m)
unfolding has_alarm unregister_alarm insert_alarm
once-insert_other time c cb [] other = ground (arith, other)
once-insert_other time c cb ((t, d) ∷ m) other =
    ground
      (arith, other, once-insert_other time c cb m other, has_alarm-insert_other time c cb m other)

once-unregister_other :
    (c cb : ℕ) (m : AlarmMap)
    → c ≢ cb
    → has_alarm cb (unregister_alarm cb (unregister_alarm c m))
      ≡ has_alarm cb (unregister_alarm cb m)
unfolding has_alarm unregister_alarm
once-unregister_other c cb [] other = refl
once-unregister_other c cb ((t, d) ∷ m) other =
    ground
      (arith, other, once-unregister_other c cb m other, has_alarm-unregister_other c cb m other)

-- A step is done, and the alarm still knows whether it is in the map.
abbrev pub IsDone : AlarmStep → EpollAlarm → AlarmMap → Type 0
IsDone s a m =
    (a' : EpollAlarm) × (m' : AlarmMap) × (alarm_step s a m ≡ some (a', m')) × IsAgreed a' m'

set_when_absent :
    (deadline : ℕ) (a : EpollAlarm) (m : AlarmMap)
    → has_alarm a.cb m ≡ false
    → (set_impl deadline a m ≡ some (record a { registered = true }, insert_alarm deadline a.cb m))
      × IsAgreed (record a { registered = true }) (insert_alarm deadline a.cb m)
unfolding set_impl register_alarm
set_when_absent deadline a m absent = (
  rw absent refl,
  (
    sym (has_alarm-insert_self deadline a.cb m),
    rw (unregister-insert deadline a.cb m absent) absent,
  ),
)

-- An alarm of the library, the flag of its EpollAlarm and the event loop's map agree, whatever happens: the
-- alarm is in the map, once, where its flag says that it is registered, and not otherwise. It can be
-- set, cancelled, and called by the loop, when it may be set again, and other alarms can be set and
-- cancelled; none of this ends the program. An alarm is set only while it is not set.
pub alarm_step-IsAgreed :
    (s : AlarmStep) (a : EpollAlarm) (m : AlarmMap) → IsAgreed a m → IsAllowed s a m → IsDone s a m
unfolding alarm_step unregister_if_registered on_alarm_impl register_alarm
alarm_step-IsAgreed (sets_it deadline) a m (flag, once) unset =
    let (eq, agreed) = set_when_absent deadline a m (sym flag ∙ unset) in (_, _, eq, agreed)
alarm_step-IsAgreed cancels_it a m (flag, once) allowed = elim (Bool-cases a.registered) [
  | inl set ↦ (
    record a { registered = false },
    unregister_alarm a.cb m,
    simp (alarm_step, unregister_if_registered, set),
    (sym once, rw (unregister_absent a.cb (unregister_alarm a.cb m) once) once),
  )
  | inr unset ↦ (a, m, simp (alarm_step, unregister_if_registered, unset), (flag, once))
]
alarm_step-IsAgreed (calls_it none) a m (flag, once) allowed =
    elim (Bool-cases (has_alarm a.cb m)) [
      | inl there ↦ (
        record a { registered = false },
        unregister_alarm a.cb m,
        rw there refl,
        (sym once, rw (unregister_absent a.cb (unregister_alarm a.cb m) once) once),
      )
      | inr absent ↦ (a, m, rw absent refl, (flag, once))
    ]
alarm_step-IsAgreed (calls_it (some deadline)) a m (flag, once) allowed =
    elim (Bool-cases (has_alarm a.cb m)) [
      | inl there ↦
          let (eq, agreed) =
            set_when_absent deadline (record a { registered = false }) (unregister_alarm a.cb m)
              once in
          (
            record a { registered = true },
            insert_alarm deadline a.cb (unregister_alarm a.cb m),
            rw there eq,
            agreed,
          )
      | inr absent ↦ (a, m, rw absent refl, (flag, once))
    ]
alarm_step-IsAgreed (sets_other time cb) a m (flag, once) (other, absent) = (
  a,
  insert_alarm time cb m,
  rw absent refl,
  (
    flag ∙ sym (has_alarm-insert_other time cb a.cb m other),
    once-insert_other time cb a.cb m other ∙ once,
  ),
)
alarm_step-IsAgreed (cancels_other cb) a m (flag, once) other = (
  a,
  unregister_alarm cb m,
  refl,
  (
    flag ∙ sym (has_alarm-unregister_other cb a.cb m other),
    once-unregister_other cb a.cb m other ∙ once,
  ),
)
