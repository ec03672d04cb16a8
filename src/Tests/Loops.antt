-- ===== src/Tests/Loops.antt =====
-- Concrete event loops.
use quic_toy.Base.{ℕ, ◌≡◌, ◌++◌, refl, false, some, none, [], ◌∷◌, List, nat_eq}
use quic_toy.Base.LinkedMap.{find, contains}
use quic_toy.EventLoop.{EventLoop, new_event_loop, register_fd, handle_event}
use quic_toy.EventLoop.Callbacks.{
  OnEvent, registers, unregisters, sets_ready, call_ready_list_callbacks,
}
use quic_toy.EventLoop.Wait.{wait_for_events_and_call_handle_events}
use quic_toy.EventLoop.Tidy.{IsTidy}
use quic_toy.EventLoop.Tables.{handle_event-IsTidy}
use quic_toy.EventLoop.Registering.{register_fd-IsTidy}
use quic_toy.EventLoop.Loop.{call_ready_list_callbacks-reports, reports, IsQuiet}
use quic_toy.EventLoop.Served.{new_event_loop-IsTidy, wait_for_events_and_call_handle_events-calls}

-- A callback that asks for another round, and one that takes itself off and registers others.
abbrev polite : OnEvent
polite log cb fd events = ([], events)

abbrev restless : OnEvent
restless log cb fd events =
    (unregisters fd ∷ registers 9 cb 1 ∷ sets_ready 9 1 ∷ registers fd cb 4 ∷ unregisters 5 ∷ [], 1)

-- The pipe's end is 3; descriptors 5 and 6 have callbacks.
abbrev two_fds : EventLoop
two_fds = register_fd 6 8 5 (register_fd 5 7 1 (new_event_loop 3 1))

abbrev two_ready : EventLoop
two_ready = handle_event 5 1 (handle_event 6 4 two_fds)

two_fds-IsTidy : IsTidy none two_fds
two_fds-IsTidy =
    register_fd-IsTidy none 6 _ (register_fd-IsTidy none 5 _ (new_event_loop-IsTidy 3 1) 7 1) 8 5

two_ready-IsTidy : IsTidy none two_ready
two_ready-IsTidy =
    handle_event-IsTidy none 5 _ (handle_event-IsTidy none 6 two_fds two_fds-IsTidy 4) 1

two_ready_idle : two_ready.tmp_list ≡ []
unfolding new_event_loop register_fd handle_event
two_ready_idle = refl

new_event_loop-IsTidy_example : IsTidy none (new_event_loop 3 1)
new_event_loop-IsTidy_example = new_event_loop-IsTidy 3 1

polite-IsQuiet : IsQuiet polite
polite-IsQuiet log cb fd events = refl

call_ready_list_callbacks-reports_example :
    (l' : EventLoop) × (call_ready_list_callbacks polite two_ready ≡ some l')
    × IsTidy none l'
    × (l'.tmp_list ≡ [])
    × (l'.called ≡ two_ready.called ++ reports polite two_ready.cb_map two_ready.ready_list)
call_ready_list_callbacks-reports_example =
    call_ready_list_callbacks-reports polite two_ready two_ready-IsTidy two_ready_idle
      polite-IsQuiet

wait_for_events_and_call_handle_events-calls_example :
    (l' : EventLoop) × (new : List (ℕ × ℕ)) × (wait_for_events_and_call_handle_events polite
        ((6, 4) ∷ (5, 1) ∷ [])
        two_fds
      ≡ some l')
    × IsTidy none l'
    × (l'.called ≡ two_fds.called ++ new)
    × (find 5 new ≡ some 1)
wait_for_events_and_call_handle_events-calls_example =
    wait_for_events_and_call_handle_events-calls polite ((6, 4) ∷ (5, 1) ∷ []) 5 7
      (record {
        cb = some 7;
        event_mask = 1;
        events_asserted = 0;
        events_to_fake = 0;
        in_use = false;
      })
      two_fds two_fds-IsTidy (unfold register_fd new_event_loop in refl) polite-IsQuiet
      (unfold contains in refl) (unfold register_fd new_event_loop find in refl) refl
