-- ===== src/EventLoop/Served.antt =====
-- WaitForEventsAndCallHandleEvents of net/tools/epoll_server/epoll_server.cc: what is reported is
-- handled.
use quic_toy.Base.{
  ℕ, List, [], ◌∷◌, ◌++◌, Option, none, some, Bool, true, false, ◌≡◌, refl, ◌∙◌, ap, arith,
  if◌then◌else◌, Option-cases, Bool-cases, List-cases, inl, inr, nat_beq, nat_eq,
}
use quic_toy.Base.LinkedMap.{find, contains, assign}
use quic_toy.Base.LinkedMap.Laws.{find-assign, contains_of_find}
use quic_toy.EventLoop.{
  EventLoop, Entry, is_member, is_linked, handle_event, add_to_ready_list, new_event_loop, epollin,
}
use quic_toy.EventLoop.Callbacks.{OnEvent, call_ready_list_callbacks}
use quic_toy.EventLoop.Wait.{handle_events, wait_for_events_and_call_handle_events}
use quic_toy.EventLoop.Tidy.{IsTidy}
use quic_toy.EventLoop.Tables.{add_to_ready_list-keeps, handle_event-IsTidy}
use quic_toy.EventLoop.Registering.{register_fd-IsTidy}
use Prim.Native.Nat.{bit_or}
use quic_toy.EventLoop.Round.{in_events}
use quic_toy.EventLoop.Loop.{reports, IsQuiet, call_ready_list_callbacks-reports}

-- A descriptor is registered with a callback.
abbrev has_cb : Option Entry → Bool
has_cb none = false
has_cb (some e) = elim e.cb [ none ↦ false | some cb ↦ true ]

abbrev pub has_callback : ℕ → EventLoop → Bool
has_callback fd l = has_cb (find fd l.cb_map)

-- A new event loop's tables are tidy.
pub new_event_loop-IsTidy : (read_fd wake_cb : ℕ) → IsTidy none (new_event_loop read_fd wake_cb)
unfolding new_event_loop find
new_event_loop-IsTidy read_fd wake_cb =
    register_fd-IsTidy none read_fd
      (record { cb_map = []; ready_list = []; tmp_list = []; interest = []; called = [] })
      (record {
        descriptors = tt;
        interests = tt;
        once = (tt, tt, λ j h. refl);
        settled = λ fd. (refl, refl, refl);
      })
      wake_cb epollin

module _ (fd event_mask : ℕ) (l : EventLoop) where
  handle_event-keeps :
      ((handle_event fd event_mask l).tmp_list ≡ l.tmp_list)
      × ((handle_event fd event_mask l).called ≡ l.called)
  unfolding handle_event add_to_ready_list
  handle_event-keeps = ground arith

  handle_event-marks : has_callback fd l ≡ true → is_linked fd (handle_event fd event_mask l) ≡ true
  unfolding handle_event add_to_ready_list
  handle_event-marks h = ground (arith, h)

  pub handle_event-linked :
      (j : ℕ) → is_linked j l ≡ true → is_linked j (handle_event fd event_mask l) ≡ true
  unfolding handle_event add_to_ready_list
  handle_event-linked j h = ground (arith, h)

  handle_event-callback :
      (j : ℕ) → has_callback j l ≡ true → has_callback j (handle_event fd event_mask l) ≡ true
  unfolding handle_event add_to_ready_list
  handle_event-callback j h = elim (Option-cases (find fd l.cb_map)) [
    | inl missing ↦ rw (missing, handle_event) h
    | inr (e, found) ↦ elim (Option-cases e.cb) [
      | inl gone ↦ rw (found, handle_event) (simp gone h)
      | inr (cb, has) ↦
          let e' = record e { cb = some cb; events_asserted = event_mask } in
          let l' = record l { cb_map = assign fd e' l.cb_map } in
          rw (found, handle_event)
            (simp has (
              rw
                (
                  (add_to_ready_list-keeps fd l').0,
                  find-assign j fd e' l.cb_map (contains_of_find fd l.cb_map e found),
                )
                (ground (arith, h))))
    ]
  ]

still_linked :
    (fd : ℕ) (events : List (ℕ × ℕ)) (l : EventLoop)
    → is_linked fd l ≡ true
    → is_linked fd (handle_events events l) ≡ true
unfolding handle_events
still_linked fd [] l h = h
still_linked fd ((j, mask) ∷ rest) l h =
    still_linked fd rest (handle_event j mask l) (handle_event-linked j mask l fd h)

reported :
    (fd : ℕ) (events : List (ℕ × ℕ)) (l : EventLoop)
    → contains fd events ≡ true
    → has_callback fd l ≡ true
    → is_linked fd (handle_events events l) ≡ true
unfolding handle_events contains
reported fd [] l there has = cc
reported fd ((j, mask) ∷ rest) l there has = elim (Bool-cases (nat_beq j fd)) [
  | inl same ↦
      let p : j ≡ fd = (nat_eq.beq_iff j fd).0 same in
      still_linked fd rest (handle_event j mask l) (rw p (handle_event-marks fd mask l has))
  | inr other ↦
      reported fd rest (handle_event j mask l) (rw other at there)
        (handle_event-callback j mask l fd has)
]

pub handle_events-IsTidy :
    (events : List (ℕ × ℕ)) (l : EventLoop) → IsTidy none l → IsTidy none (handle_events events l)
unfolding handle_events
handle_events-IsTidy [] l v = v
handle_events-IsTidy ((fd, mask) ∷ rest) l v =
    handle_events-IsTidy rest (handle_event fd mask l) (handle_event-IsTidy none fd l v mask)

pub handle_events-keeps :
    (events : List (ℕ × ℕ)) (l : EventLoop)
    → ((handle_events events l).tmp_list ≡ l.tmp_list)
      × ((handle_events events l).called ≡ l.called)
unfolding handle_events
handle_events-keeps [] l = (refl, refl)
handle_events-keeps ((fd, mask) ∷ rest) l =
    let later = handle_events-keeps rest (handle_event fd mask l) in
    let first = handle_event-keeps fd mask l in (later.0 ∙ first.0, later.1 ∙ first.1)

pub find-reports :
    (on_event : OnEvent) (fd : ℕ) (m : List (ℕ × Entry)) (fds : List ℕ)
    → is_member fd fds ≡ true
    → find fd (reports on_event m fds) ≡ some (in_events on_event (find fd m))
unfolding find
find-reports on_event fd m [] h = cc h
find-reports on_event fd m (x ∷ fds) h = elim (Bool-cases (nat_beq x fd)) [
  | inl same ↦
      let p : x ≡ fd = (nat_eq.beq_iff x fd).0 same in
      rw same (ap (λ k. some (in_events on_event (find k m))) p)
  | inr other ↦ rw other (find-reports on_event fd m fds (rw other at h))
]

pub called_ready :
    (on_event : OnEvent) (events : List (ℕ × ℕ)) (l l' : EventLoop) (first : ℕ) (rest : List ℕ)
    → (handle_events events l).ready_list ≡ first ∷ rest
    → call_ready_list_callbacks on_event (handle_events events l) ≡ some l'
    → wait_for_events_and_call_handle_events on_event events l ≡ some l'
unfolding wait_for_events_and_call_handle_events
called_ready on_event events l l' first rest some_ready eq =
    ap
      (λ m. elim m [
        | [] ↦ some (handle_events events l)
        | _ ∷ _ ↦ call_ready_list_callbacks on_event (handle_events events l)
      ])
      some_ready
    ∙ eq

-- The mask that epoll_wait has reported for a descriptor last, or what was kept for it.
abbrev pub last_mask : ℕ → ℕ → List (ℕ × ℕ) → ℕ
last_mask fd kept [] = kept
last_mask fd kept ((j, mask) ∷ rest) = last_mask fd (if nat_beq j fd then mask else kept) rest

-- The entry of a descriptor that has a callback.
abbrev with_mask : ℕ → Entry → ℕ → Entry
with_mask cb e mask = record e { cb = some cb; events_asserted = mask }

kept_mask : (cb : ℕ) (e : Entry) → e.cb ≡ some cb → some e ≡ some (with_mask cb e e.events_asserted)
kept_mask cb e has = ap (λ o. some (record e { cb = o })) has

handle_event-mask :
    (fd j mask cb : ℕ) (e : Entry) (l : EventLoop)
    → find fd l.cb_map ≡ some e
    → e.cb ≡ some cb
    → find fd (handle_event j mask l).cb_map
      ≡ some (with_mask cb e (if nat_beq j fd then mask else e.events_asserted))
unfolding handle_event
handle_event-mask fd j mask cb e l found has = elim (Bool-cases (nat_beq j fd)) [
  | inl same ↦
      let p : j ≡ fd = (nat_eq.beq_iff j fd).0 same in
      let at_j : find j l.cb_map ≡ some e = rw p found in
      let l' = record l { cb_map = assign j (with_mask cb e mask) l.cb_map } in
      rw same (
        rw (at_j, handle_event)
          (simp has (
            ap (λ m. find fd m) (add_to_ready_list-keeps j l').0
            ∙ find-assign fd j (with_mask cb e mask) l.cb_map (contains_of_find j l.cb_map e at_j)
            ∙ rw same refl)))
  | inr other ↦ rw other (elim (Option-cases (find j l.cb_map)) [
    | inl missing ↦ rw (missing, handle_event) (found ∙ kept_mask cb e has)
    | inr (e1, at_j) ↦ elim (Option-cases e1.cb) [
      | inl gone ↦ rw (at_j, handle_event) (simp gone (found ∙ kept_mask cb e has))
      | inr (cb1, has1) ↦
          let l' = record l { cb_map = assign j (with_mask cb1 e1 mask) l.cb_map } in
          rw (at_j, handle_event)
            (simp has1 (
              ap (λ m. find fd m) (add_to_ready_list-keeps j l').0
              ∙ find-assign fd j (with_mask cb1 e1 mask) l.cb_map
                  (contains_of_find j l.cb_map e1 at_j)
              ∙ rw other (found ∙ kept_mask cb e has)))
    ]
  ])
]

handle_events-mask :
    (fd cb : ℕ) (e : Entry) (events : List (ℕ × ℕ)) (l : EventLoop)
    → find fd l.cb_map ≡ some e
    → e.cb ≡ some cb
    → find fd (handle_events events l).cb_map
      ≡ some (with_mask cb e (last_mask fd e.events_asserted events))
unfolding handle_events
handle_events-mask fd cb e [] l found has = found ∙ kept_mask cb e has
handle_events-mask fd cb e ((j, mask) ∷ rest) l found has =
    handle_events-mask fd cb (with_mask cb e (if nat_beq j fd then mask else e.events_asserted))
      rest (handle_event j mask l) (handle_event-mask fd j mask cb e l found has) refl

-- An event that epoll_wait reports is handled in the same wait: WaitForEventsAndCallHandleEvents
-- returns, and OnEvent has been called for the descriptor, if it is registered with a callback, with
-- exactly the events that were reported for it last and those that are faked for it. The tables are
-- tidy and no other callback is running; callbacks make no calls on the loop, as that of the server.
pub wait_for_events_and_call_handle_events-calls :
    (on_event : OnEvent) (events : List (ℕ × ℕ)) (fd cb : ℕ) (e : Entry) (l : EventLoop)
    → IsTidy none l
    → l.tmp_list ≡ []
    → IsQuiet on_event
    → contains fd events ≡ true
    → find fd l.cb_map ≡ some e
    → e.cb ≡ some cb
    → (l' : EventLoop) × (new : List (ℕ × ℕ)) × (wait_for_events_and_call_handle_events on_event
          events l
        ≡ some l')
      × IsTidy none l'
      × (l'.called ≡ l.called ++ new)
      × (find fd new ≡ some (bit_or (last_mask fd e.events_asserted events) e.events_to_fake))
unfolding wait_for_events_and_call_handle_events
wait_for_events_and_call_handle_events-calls on_event events fd cb e l v idle quiet there found
      has =
    let w = handle_events events l in
    let (tmp, log) = handle_events-keeps events l in
    let (l', eq, v', done, called) =
      call_ready_list_callbacks-reports on_event w (handle_events-IsTidy events l v) (tmp ∙ idle)
        quiet in
    let registered : has_callback fd l ≡ true = rw found (rw has refl) in
    let ready : is_member fd w.ready_list ≡ true =
      ground (arith, reported fd events l there registered, tmp ∙ idle) in
    elim (List-cases w.ready_list) [
      | inl nothing ↦ cc (rw nothing at ready)
      | inr (first, rest, some_ready) ↦ (
        l',
        reports on_event w.cb_map w.ready_list,
        called_ready on_event events l l' first rest some_ready eq,
        v',
        called ∙ rw log refl,
        find-reports on_event fd w.cb_map w.ready_list ready
            ∙ ap (λ o. some (in_events on_event o)) (handle_events-mask fd cb e events l found has),
      )
    ]
