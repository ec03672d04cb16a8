-- ===== src/EventLoop/Wait.antt =====
-- The wait of net/tools/epoll_server/epoll_server.cc for events, and what is done with them.
use quic_toy.EventLoop.{EventLoop, handle_event}
use quic_toy.EventLoop.Callbacks.{OnEvent, call_ready_list_callbacks}
use quic_toy.Base.{
  ◌-◌, ◌%◌, not, some, [], ◌∷◌, List, Option, ◌/◌, Bool, ℕ, ltb, ◌||◌, nat_beq, if◌then◌else◌,
}
use quic_toy.Base.Int.{negsuc, ltb_ℤ, pos, sub_ℕ, ℤ}

-- The wait of WaitForEventsAndExecuteCallbacks, in microseconds, where an alarm is set.
unfoldable pub wait_time : ℕ → ℕ → ℤ → ℤ
wait_time next_alarm_time now timeout =
    let until_alarm = sub_ℕ next_alarm_time now in
    if ltb_ℤ until_alarm timeout || ltb_ℤ timeout (pos 0)
    then (if ltb_ℤ until_alarm (pos 0) then pos 0 else until_alarm)
    else timeout

-- An int64 that is not negative, stored in an int of 32 bits.
abbrev pub as_int : ℕ → ℤ
as_int n =
    let low = n % 4_294_967_296 in
    if ltb low 2_147_483_648 then pos low else negsuc (4_294_967_295 - low)

-- timeout_in_ms of WaitForEventsAndCallHandleEvents; -1 waits for ever.
unfoldable pub timeout_in_ms : ℤ → Bool → ℤ
timeout_in_ms (pos timeout) ready =
    if nat_beq timeout 0 || ready
    then pos 0
    else if ltb timeout 1_000
    then pos 1
    else as_int (timeout / 1_000)
timeout_in_ms (negsuc t) ready = if ready then pos 0 else negsuc 0

-- The loop over what epoll_wait has filled in.
unfoldable pub handle_events : List (ℕ × ℕ) → EventLoop → EventLoop
unfolding handle_event
handle_events [] l = l
handle_events ((fd, event_mask) ∷ rest) l = handle_events rest (handle_event fd event_mask l)

-- WaitForEventsAndCallHandleEvents after epoll_wait, which gives events, none if it is interrupted.
unfoldable pub wait_for_events_and_call_handle_events :
    OnEvent → List (ℕ × ℕ) → EventLoop → Option EventLoop
unfolding handle_events call_ready_list_callbacks
wait_for_events_and_call_handle_events on_event events l =
    let l' = handle_events events l in
    let rest = call_ready_list_callbacks on_event l' in
    elim l'.ready_list [ [] ↦ some l' | _ ∷ _ ↦ rest ]

-- The time of the loop: the one recorded after epoll_wait, which is 0 outside of a wait, or the clock's.
unfoldable pub approximate_now_in_usec : ℕ → ℕ → ℕ
approximate_now_in_usec recorded_now_in_us now =
    if not (nat_beq recorded_now_in_us 0) then recorded_now_in_us else now
