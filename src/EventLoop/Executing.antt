-- ===== src/EventLoop/Executing.antt =====
-- WaitForEventsAndExecuteCallbacks of net/tools/epoll_server/epoll_server.cc: one turn of the event
-- loop, with its descriptors and its alarms.
--
-- The clock and epoll_wait are parameters. The table of descriptors and the map of alarms do not
-- depend on each other, so what the callbacks of one do to the other is done after they have run.
use quic_toy.EventLoop.Due.{
  aborted, endless, finished, cancels, sets, AlarmCall, Alarms, OnAlarm,
  call_and_reregister_alarm_events,
}
use quic_toy.EventLoop.Wait.{wait_for_events_and_call_handle_events, wait_time, timeout_in_ms}
use quic_toy.EventLoop.Alarms.{unregister_alarm, insert_alarm}
use quic_toy.EventLoop.{without, is_member, EventLoop}
use quic_toy.EventLoop.Callbacks.{Call, make_calls, OnEvent}
use quic_toy.Base.Int.{ℤ}
use quic_toy.Base.{true, false, [], none, if◌then◌else◌, ◌∷◌, some, Option, Bool, List, ℕ}

-- What a turn of the loop finds: NowInUsec before the wait, and epoll_wait, of its timeout in ms and
-- the interest set, with the events that it fills in and NowInUsec after it.
pub record Poll : Type 0 where
  pub now : ℕ
  pub epoll_wait : ℤ → List (ℕ × ℕ) → List (ℕ × ℕ) × ℕ

-- The callbacks of a turn. `sets_alarms` is what the callbacks of descriptors do to the alarms, of the
-- calls of OnEvent before the turn and after it, and `changes_descriptors` what those of alarms do to
-- the descriptors, of the calls of OnAlarm.
pub record Handlers : Type 0 where
  pub on_event : OnEvent
  pub on_alarm : OnAlarm
  pub sets_alarms : List (ℕ × ℕ) → List (ℕ × ℕ) → List AlarmCall
  pub changes_descriptors : List ℕ → List ℕ → List Call

pub record EpollServer : Type 0 where
  pub loop : EventLoop
  pub alarms : Alarms
  pub timeout_in_us : ℤ
  pub recorded_now_in_us : ℕ
  pub in_wait_for_events_and_execute_callbacks : Bool

-- A null callback is called, the program is ended by LOG(FATAL), the loop over the alarms does not end,
-- or the turn returns.
pub data Turn : Type 0 where
  crashed : Turn
  killed : Turn
  stuck : Turn
  returned : EpollServer → Turn

-- The calls of RegisterAlarm and UnregisterAlarm while no alarm is being called; none ends the program.
unfoldable pub change_alarms : List AlarmCall → Alarms → Option Alarms
unfolding insert_alarm unregister_alarm
change_alarms [] a = some a
change_alarms (sets time cb ∷ calls) a =
    let rest =
      change_alarms calls
        (record a { coming = insert_alarm time cb a.coming; all_alarms = cb ∷ a.all_alarms }) in
    if is_member cb a.all_alarms then none else rest
change_alarms (cancels cb ∷ calls) a = change_alarms calls (
    if is_member cb a.all_alarms
    then record a { coming = unregister_alarm cb a.coming; all_alarms = without cb a.all_alarms }
    else a)

-- `ready_list_.lh_first != NULL`
abbrev pub has_ready : EventLoop → Bool
has_ready l = elim l.ready_list [ [] ↦ false | _ ∷ _ ↦ true ]

module _ (handlers : Handlers) where
  -- WaitForEventsAndCallHandleEvents, and then `next`, of NowInUsec after the wait.
  unfoldable pub wait_and_handle : Poll → ℤ → EpollServer → (EventLoop → Alarms → ℕ → Turn) → Turn
  unfolding timeout_in_ms wait_for_events_and_call_handle_events change_alarms
  wait_and_handle poll timeout e next =
      let (events, now) =
        poll.epoll_wait (timeout_in_ms timeout (has_ready e.loop)) e.loop.interest in
      elim (wait_for_events_and_call_handle_events handlers.on_event events e.loop) [
        | none ↦ crashed
        | some l ↦ elim (change_alarms (handlers.sets_alarms e.loop.called l.called) e.alarms) [
          | none ↦ killed
          | some a ↦ next l a now
        ]
      ]

  -- CallAndReregisterAlarmEvents, on fuel.
  unfoldable pub call_alarms : ℕ → EpollServer → EventLoop → Alarms → ℕ → Turn
  unfolding call_and_reregister_alarm_events make_calls
  call_alarms fuel e l a now =
      elim (call_and_reregister_alarm_events handlers.on_alarm now fuel a) [
        | aborted ↦ killed
        | endless ↦ stuck
        | finished a' ↦ returned (record e {
          loop = make_calls (handlers.changes_descriptors a.called a'.called) l;
          alarms = a';
          recorded_now_in_us = 0;
        })
      ]

  -- Without an alarm, none is called, not even one that was set meanwhile.
  unfoldable pub wait_for_events_and_execute_callbacks : ℕ → Poll → EpollServer → Turn
  unfolding wait_and_handle call_alarms wait_time
  wait_for_events_and_execute_callbacks fuel poll e =
      let business =
        wait_and_handle poll e.timeout_in_us e
          (λ l a now. returned (record e { loop = l; alarms = a; recorded_now_in_us = 0 })) in
      let turn : Turn = elim e.alarms.coming [
        | [] ↦ business
        | (time, cb) ∷ rest ↦
            wait_and_handle poll (wait_time time poll.now e.timeout_in_us) e
              (λ l a now. call_alarms fuel e l a now)
      ] in
      if e.in_wait_for_events_and_execute_callbacks then returned e else turn
