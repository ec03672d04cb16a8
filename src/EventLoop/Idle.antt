-- ===== src/EventLoop/Idle.antt =====
-- The event loop of net/tools/epoll_server/epoll_server.cc between two turns, and the two halves of a
-- turn: the wait with the callbacks of descriptors, and the call of the alarms.
use quic_toy.EventLoop.Loop.{call_ready_list_callbacks-IsTidy}
use quic_toy.EventLoop.Ready.{make_calls-IsNoLonger}
use quic_toy.EventLoop.Round.{make_calls-IsTidy}
use quic_toy.EventLoop.Firing.{fired, first_due}
use quic_toy.EventLoop.Load.{load}
use quic_toy.EventLoop.Rearming.{IsLater}
use quic_toy.EventLoop.Served.{called_ready, handle_events-IsTidy, handle_events-keeps}
use quic_toy.EventLoop.Due.{call_and_reregister_alarm_events, cancels, sets, Alarms, AlarmCall}
use quic_toy.EventLoop.{is_member, EventLoop}
use quic_toy.EventLoop.Callbacks.{make_calls, OnEvent}
use quic_toy.Base.Int.{ℤ}
use quic_toy.EventLoop.Tidy.{IsTidy}
use quic_toy.EventLoop.Wait.{
  wait_time, handle_events, timeout_in_ms, wait_for_events_and_call_handle_events,
}
use quic_toy.EventLoop.Executing.{
  call_alarms, returned, has_ready, killed, wait_and_handle, Handlers, change_alarms, Turn, Poll,
  EpollServer,
}
use quic_toy.Base.{
  ◌++◌, ap, ◌<◌, List-cases, All, ◌≤◌, length, refl, ◌∙◌, Bool-cases, inr, inl, ◌∷◌, Option-cases,
  arith, some, ◌⊎◌, false, [], ◌≡◌, List, none, ℕ,
}

-- The loop between two turns.
pub record IsIdle (e : EpollServer) : Type 0 where
  pub tidy : IsTidy none e.loop
  pub worked_off : e.loop.tmp_list ≡ []
  pub in_front : e.alarms.passed ≡ []
  pub none_skipped : e.alarms.skipped ≡ []
  pub unrecorded : e.recorded_now_in_us ≡ 0
  pub outside : e.in_wait_for_events_and_execute_callbacks ≡ false

abbrev pub turn_timeout : Poll → EpollServer → ℤ
turn_timeout poll e = elim e.alarms.coming [
  | [] ↦ e.timeout_in_us
  | (time, cb) ∷ rest ↦ wait_time time poll.now e.timeout_in_us
]

-- What epoll_wait gives, and the time after it.
abbrev pub woken : Poll → EpollServer → List (ℕ × ℕ) × ℕ
woken poll e =
    poll.epoll_wait (timeout_in_ms (turn_timeout poll e) (has_ready e.loop)) e.loop.interest

-- The end of the program, or a return to an idle loop.
abbrev pub IsTurn : Turn → Type 0
IsTurn t = (t ≡ killed) ⊎ ((e' : EpollServer) × (t ≡ returned e') × IsIdle e')

handled :
    (on_event : OnEvent) (events : List (ℕ × ℕ)) (l : EventLoop)
    → IsTidy none l
    → l.tmp_list ≡ []
    → (l' : EventLoop) × (wait_for_events_and_call_handle_events on_event events l ≡ some l')
      × IsTidy none l'
      × (l'.tmp_list ≡ [])
unfolding wait_for_events_and_call_handle_events
handled on_event events l v idle =
    let w = handle_events events l in
    let (tmp, log) = handle_events-keeps events l in
    let v1 = handle_events-IsTidy events l v in
    let (l', eq, v', done) = call_ready_list_callbacks-IsTidy on_event w v1 (tmp ∙ idle) in
    elim (List-cases w.ready_list) [
      | inl nothing ↦ (w, rw (wait_for_events_and_call_handle_events, nothing) refl, v1, tmp ∙ idle)
      | inr (first, rest, some_ready) ↦
          (l', called_ready on_event events l l' first rest some_ready eq, v', done)
    ]

change_alarms-keeps :
    (calls : List AlarmCall) (a a' : Alarms)
    → change_alarms calls a ≡ some a'
    → (a'.passed ≡ a.passed) × (a'.skipped ≡ a.skipped) × (a'.called ≡ a.called)
unfolding change_alarms
change_alarms-keeps [] a a' eq = ground (arith, eq)
change_alarms-keeps (sets time cb ∷ calls) a a' eq = elim (Bool-cases (is_member cb a.all_alarms)) [
  | inl twice ↦ cc (rw twice at eq)
  | inr fresh ↦ change_alarms-keeps calls _ a' (rw fresh at eq)
]
change_alarms-keeps (cancels cb ∷ calls) a a' eq = elim (Bool-cases (is_member cb a.all_alarms)) [
  | inl known ↦ change_alarms-keeps calls _ a' (rw known at eq)
  | inr unknown ↦ change_alarms-keeps calls a a' (rw unknown at eq)
]

module _ (handlers : Handlers) (poll : Poll) (e : EpollServer) (i : IsIdle e) where
  pub waited :
      (timeout : ℤ)
      → let (events, now) =
          poll.epoll_wait (timeout_in_ms timeout (has_ready e.loop)) e.loop.interest in
        ((next : EventLoop → Alarms → ℕ → Turn)
          → wait_and_handle handlers poll timeout e next ≡ killed)
        ⊎ ((l : EventLoop) × (a : Alarms) × ((next : EventLoop → Alarms → ℕ → Turn)
              → wait_and_handle handlers poll timeout e next ≡ next l a now)
            × IsTidy none l
            × (l.tmp_list ≡ [])
            × (a.passed ≡ [])
            × (a.skipped ≡ []))
  unfolding wait_and_handle
  waited timeout =
      let (events, now) =
        poll.epoll_wait (timeout_in_ms timeout (has_ready e.loop)) e.loop.interest in
      let (l, eq, v, done) = handled handlers.on_event events e.loop i.tidy i.worked_off in
      elim (Option-cases (change_alarms (handlers.sets_alarms e.loop.called l.called) e.alarms)) [
        | inl stop ↦ inl (λ next. rw (wait_and_handle, eq, stop) refl)
        | inr (a, changed) ↦
            let (passed, skipped, log) =
              change_alarms-keeps (handlers.sets_alarms e.loop.called l.called) e.alarms a
                changed in
            inr (
              l,
              a,
              λ next. rw (wait_and_handle, eq, changed) refl,
              v,
              done,
              passed ∙ i.in_front,
              skipped ∙ i.none_skipped,
            )
      ]

no_longer_none :
    (l l' : EventLoop) → l.tmp_list ≡ [] → length l'.tmp_list ≤ length l.tmp_list → l'.tmp_list ≡ []
no_longer_none l l' none_left less = elim (List-cases l'.tmp_list) [
  | inl nothing ↦ nothing
  | inr (x, xs, more) ↦ absurd (omega (arith, less, ap length none_left, ap length more))
]

-- The loop over the alarms ends where the turn is in the state that it was called in.
pub alarms_called :
    (handlers : Handlers) (now : ℕ)
    → ((log : List ℕ) (cb : ℕ) → All (IsLater now) (handlers.on_alarm log cb).0)
    → (fuel : ℕ) (e : EpollServer) (l : EventLoop) (a : Alarms) → IsIdle e
    → IsTidy none l
    → l.tmp_list ≡ []
    → load now a.skipped a.coming < fuel
    → (call_alarms handlers fuel e l a now ≡ killed)
      ⊎ ((e' : EpollServer) × (new : List ℕ) × (call_alarms handlers fuel e l a now ≡ returned e')
          × IsIdle e'
          × (e'.alarms.called ≡ (a.called ++ first_due now a.skipped a.coming) ++ new))
unfolding call_alarms call_and_reregister_alarm_events
alarms_called handlers now later fuel e l a i v done enough =
    elim (fired handlers.on_alarm now later fuel a.passed a.coming a.all_alarms a.skipped a.called
      enough) [
        | inl stop ↦ inl (rw (call_alarms, call_and_reregister_alarm_events, stop) refl)
        | inr (a', new, eq, over, log) ↦
            let calls = handlers.changes_descriptors a.called a'.called in
            let e' = record e {
              loop = make_calls calls l;
              alarms = record a' { passed = []; coming = a'.passed ++ a'.coming; skipped = [] };
              recorded_now_in_us = 0;
            } in
            inr (
              e',
              new,
              rw (call_alarms, call_and_reregister_alarm_events, eq) refl,
              record {
                tidy = make_calls-IsTidy none calls l v;
                worked_off =
                    no_longer_none l (make_calls calls l) done (make_calls-IsNoLonger calls l);
                in_front = refl;
                none_skipped = refl;
                unrecorded = refl;
                outside = i.outside;
              },
              log,
            )
      ]
