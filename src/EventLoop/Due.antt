-- ===== src/EventLoop/Due.antt =====
-- CallAndReregisterAlarmEvents of net/tools/epoll_server/epoll_server.cc: the call of the alarms whose
-- time has come.
--
-- While it runs, the alarm map is the alarms before its iterator, `passed`, and those from it on,
-- `coming`. What OnAlarm does to the loop is a list of calls.
use quic_toy.Base.{ℕ, zero, suc, List, [], ◌∷◌, ◌++◌, if◌then◌else◌, nat_beq, ltb, leb}
use quic_toy.EventLoop.{is_member, without}
use quic_toy.EventLoop.Alarms.{AlarmMap, insert_alarm, unregister_alarm}

pub record Alarms : Type 0 where
  pub passed : AlarmMap
  pub coming : AlarmMap
  pub all_alarms : List ℕ
  pub skipped : List ℕ
  pub called : List ℕ

-- RegisterAlarm and UnregisterAlarm.
pub data AlarmCall : Type 0 where
  sets : ℕ → ℕ → AlarmCall
  cancels : ℕ → AlarmCall

-- The end of the program by LOG(FATAL), a loop that does not end, or what is left.
pub data Ended : Type 0 where
  aborted : Ended
  endless : Ended
  finished : Alarms → Ended

-- OnAlarm of an alarm: its calls, and the time for which it is to be registered again, 0 for none. It
-- depends on all earlier calls of OnAlarm.
abbrev pub OnAlarm : Type 0
OnAlarm = List ℕ → ℕ → List AlarmCall × ℕ

-- multimap::insert: behind all alarms that are not later.
abbrev pub place : ℕ → ℕ → Alarms → Alarms
place time cb a = elim a.coming [
  | [] ↦ record a { passed = insert_alarm time cb a.passed; all_alarms = cb ∷ a.all_alarms }
  | (t, c) ∷ rest ↦
      if ltb time t
      then record a { passed = insert_alarm time cb a.passed; all_alarms = cb ∷ a.all_alarms }
      else record a { coming = insert_alarm time cb a.coming; all_alarms = cb ∷ a.all_alarms }
]

-- The alarm that is being called is not registered, so it is not the one that is taken out.
abbrev pub take_out : ℕ → Alarms → Alarms
take_out cb a = elim a.coming [
  | [] ↦ record a { passed = unregister_alarm cb a.passed; all_alarms = without cb a.all_alarms }
  | head ∷ rest ↦ record a {
    passed = unregister_alarm cb a.passed;
    coming = head ∷ unregister_alarm cb rest;
    all_alarms = without cb a.all_alarms;
  }
]

-- The calls that OnAlarm makes, and then `next`.
unfoldable pub make_alarm_calls : List AlarmCall → Alarms → (Alarms → Ended) → Ended
unfolding insert_alarm unregister_alarm
make_alarm_calls [] a next = next a
make_alarm_calls (sets time cb ∷ calls) a next =
    if is_member cb a.all_alarms then aborted else make_alarm_calls calls (place time cb a) next
make_alarm_calls (cancels cb ∷ calls) a next =
    make_alarm_calls calls (if is_member cb a.all_alarms then take_out cb a else a) next

abbrev pub behind : AlarmMap → AlarmMap
behind [] = []
behind (_ ∷ rest) = rest

-- Erases the alarm that was called, and registers it again where it asks for that.
unfoldable pub after_alarm : ℕ → ℕ → ℕ → Alarms → (Alarms → Ended) → Ended
unfolding insert_alarm
after_alarm now cb new_timeout a next =
    let a' = record a { coming = behind a.coming } in
    let skipped = if leb new_timeout now then cb ∷ a'.skipped else a'.skipped in
    if nat_beq new_timeout 0
    then next a'
    else if is_member cb a'.all_alarms
    then aborted
    else next (place new_timeout cb (record a' { skipped = skipped }))

module _ (on_alarm : OnAlarm) (now : ℕ) where
  -- The loop, on fuel.
  unfoldable pub alarm_loop : ℕ → Alarms → Ended
  unfolding make_alarm_calls after_alarm
  alarm_loop zero a = endless
  alarm_loop (suc fuel) a = elim a.coming [
    | [] ↦ finished a
    | (time, cb) ∷ rest ↦
        let (calls, new_timeout) = on_alarm a.called cb in
        let skip =
          alarm_loop fuel (record a { passed = a.passed ++ (time, cb) ∷ []; coming = rest }) in
        let call =
          make_alarm_calls calls
            (record a { all_alarms = without cb a.all_alarms; called = a.called ++ cb ∷ [] })
            (λ a'. after_alarm now cb new_timeout a' (λ a''. alarm_loop fuel a'')) in
        if ltb now time then finished a else if is_member cb a.skipped then skip else call
  ]

  -- The whole of it: the iterator starts at the first alarm, and no alarm is skipped any more at the end.
  unfoldable pub call_and_reregister_alarm_events : ℕ → Alarms → Ended
  unfolding alarm_loop
  call_and_reregister_alarm_events fuel a = elim (alarm_loop fuel a) [
    | aborted ↦ aborted
    | endless ↦ endless
    | finished a' ↦
        finished (record a' { passed = []; coming = a'.passed ++ a'.coming; skipped = [] })
  ]
