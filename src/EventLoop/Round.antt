-- ===== src/EventLoop/Round.antt =====
-- A round of CallReadyListCallbacks of net/tools/epoll_server/epoll_server.cc on tidy tables.
use quic_toy.Base.{
  ap, ℕ, List, [], ◌∷◌, ◌++◌, Option, none, some, Bool, true, false, ◌≡◌, ◌≢◌, refl, sym, arith,
  ◌≤◌, length, Option-cases, Bool-cases, inl, inr, nat_beq, nat_eq,
}
use quic_toy.Base.LinkedMap.{find, assign}
use quic_toy.Base.LinkedMap.Laws.{beq_self}
use quic_toy.Base.LinkedMap.Local.{
  IsLocal-refl, assign-IsLocal, erase-IsLocal, find-assign_self, find-erase_self,
}
use quic_toy.EventLoop.{
  bit_or, EventLoop, Entry, is_linked, remove_from_ready_list, add_to_ready_list, watched, without,
}
use quic_toy.EventLoop.Callbacks.{
  OnEvent, Call, registers, unregisters, modifies, sets_ready, sets_not_ready, make_call,
  make_calls, after_event, call_first,
}
use quic_toy.EventLoop.Tidy.{IsRelinked, IsTidy, Settled, is_busy, removed, added, IsTidy-at}
use quic_toy.EventLoop.Tables.{
  add_to_ready_list-keeps, modify_fd-IsTidy, set_fd_ready-IsTidy, set_fd_not_ready-IsTidy,
}
use quic_toy.EventLoop.Registering.{register_fd-IsTidy, unregister_fd-IsTidy}
use quic_toy.EventLoop.Ready.{make_calls-IsNoLonger}

make_call-IsTidy :
    (busy : Option ℕ) (c : Call) (l : EventLoop) → IsTidy busy l → IsTidy busy (make_call c l)
unfolding make_call
make_call-IsTidy busy (registers fd cb mask) l v = register_fd-IsTidy busy fd l v cb mask
make_call-IsTidy busy (unregisters fd) l v = unregister_fd-IsTidy busy fd l v
make_call-IsTidy busy (modifies fd remove add) l v = modify_fd-IsTidy busy fd l v remove add
make_call-IsTidy busy (sets_ready fd events) l v = set_fd_ready-IsTidy busy fd l v events
make_call-IsTidy busy (sets_not_ready fd) l v = set_fd_not_ready-IsTidy busy fd l v

-- Any sequence of calls keeps tidy tables tidy: RegisterFD, UnregisterFD, ModifyFD, SetFDReady and
-- SetFDNotReady, of any descriptors, while a callback handles an event or while none does. So a
-- descriptor with a callback is in the kernel's interest set with its mask, errors and hang-ups
-- included, one without is not; and no descriptor is linked twice, or linked without a callback.
pub make_calls-IsTidy :
    (busy : Option ℕ) (cs : List Call) (l : EventLoop)
    → IsTidy busy l
    → IsTidy busy (make_calls cs l)
unfolding make_calls
make_calls-IsTidy busy [] l v = v
make_calls-IsTidy busy (c ∷ cs) l v =
    make_calls-IsTidy busy cs (make_call c l) (make_call-IsTidy busy c l v)

-- A descriptor that is linked has an entry with a callback.
callback_of :
    (o : Option Entry) (linked busy : Bool) (interest : Option ℕ)
    → linked ≡ true
    → Settled o linked interest busy
    → (e : Entry) × (cb : ℕ) × (o ≡ some e)
      × (e.cb ≡ some cb)
      × (e.in_use ≡ busy)
      × (interest ≡ some (watched e.event_mask))
callback_of none linked busy interest h s = cc (h, s.0)
callback_of (some e) linked busy interest h (used, watch) = elim (Option-cases e.cb) [
  | inl gone ↦ cc (h, (rw gone at watch).0)
  | inr (cb, has) ↦ (e, cb, refl, has, used, (rw has at watch))
]

-- Nothing else is busy.
only : (fd j : ℕ) → fd ≢ j → is_busy j (some fd) ≡ false
only fd j other = ground (arith, other)

module _ (fd : ℕ) (l : EventLoop) (v : IsTidy (some fd) l) where
  -- The entry of the callback that has handled its event is no longer in use.
  rested :
      {cb : ℕ} (e' e : Entry) (l' : EventLoop)
      → find fd l.cb_map ≡ some e
      → e'.cb ≡ some cb
      → e'.in_use ≡ false
      → find fd l.interest ≡ some (watched e'.event_mask)
      → (l'.cb_map ≡ assign fd e' l.cb_map) × (l'.interest ≡ l.interest)
      → IsRelinked fd l l'
      → IsTidy none l'
  rested e' e l' found has idle watch (table, same_interest) links =
      IsTidy-at fd (some fd) none l l' v
        (rw table (assign-IsLocal fd e' e l.cb_map v.descriptors found))
        (rw same_interest (IsLocal-refl fd l.interest v.interests)) links
        (λ j other. sym (only fd j other))
        (rw (table, same_interest, find-assign_self fd e' e l.cb_map found, has) (idle, watch))

module _ (on_event : OnEvent) where
  after_event-IsTidy :
      (fd out : ℕ) (l : EventLoop)
      → IsTidy (some fd) l
      → IsTidy none (after_event on_event fd out l)
  unfolding after_event
  after_event-IsTidy fd out l v = elim (Option-cases (find fd l.cb_map)) [
    | inl missing ↦ cc ((rw missing at (v.settled fd)).2, beq_self fd)
    | inr (e, found) ↦
        let (used, watch) = rw found at (v.settled fd) in
        elim (Option-cases e.cb) [
          | inl gone ↦
              let (unlinked, unwatched, _) = rw gone at watch in
              rw (found, after_event)
                (simp gone (
                  IsTidy-at fd (some fd) none l _ v (erase-IsLocal fd l.cb_map v.descriptors)
                    (IsLocal-refl fd l.interest v.interests) (v.once, λ j other. refl)
                    (λ j other. sym (only fd j other))
                    (rw (find-erase_self fd l.cb_map v.descriptors) (unlinked, unwatched, refl))))
          | inr (cb, has) ↦
              let watch' = rw has at watch in
              elim (Bool-cases (nat_beq out 0)) [
                | inl done ↦
                    rw (found, after_event)
                      (simp (has, done)
                        (rested fd l v (record e { cb = some cb; in_use = false }) e _ found refl
                          refl watch' (refl, refl) (v.once, λ j other. refl)))
                | inr again ↦
                    let e' = record e { cb = some cb; in_use = false; events_to_fake = out } in
                    let l' = record l { cb_map = assign fd e' l.cb_map } in
                    rw (found, after_event)
                      (simp (has, again)
                        (rested fd l v e' e _ found refl refl watch' (add_to_ready_list-keeps fd l')
                          (added fd l' v.once).0))
              ]
        ]
  ]

  pub after_event-keeps :
      (fd out : ℕ) (l : EventLoop)
      → ((after_event on_event fd out l).tmp_list ≡ l.tmp_list)
        × ((after_event on_event fd out l).called ≡ l.called)
  unfolding after_event add_to_ready_list
  after_event-keeps fd out l = ground arith

  -- in_events of a descriptor's entry.
  abbrev pub in_events : Option Entry → ℕ
  in_events none = 0
  in_events (some e) = bit_or e.events_asserted e.events_to_fake

  abbrev busy_entry : Entry → Entry
  busy_entry e = record e { events_asserted = 0; events_to_fake = 0; in_use = true }

  -- The tables while the callback of `fd` handles its event.
  abbrev pub at_work : ℕ → Entry → EventLoop → EventLoop
  at_work fd e l = record (remove_from_ready_list fd l) {
    cb_map = assign fd (busy_entry e) l.cb_map;
    called = l.called ++ (fd, bit_or e.events_asserted e.events_to_fake) ∷ [];
  }

  at_work-IsTidy :
      (fd cb : ℕ) (e : Entry) (l : EventLoop)
      → IsTidy none l
      → find fd l.cb_map ≡ some e
      → e.cb ≡ some cb
      → find fd l.interest ≡ some (watched e.event_mask)
      → IsTidy (some fd) (at_work fd e l)
  unfolding remove_from_ready_list
  at_work-IsTidy fd cb e l v found has watch =
      IsTidy-at fd none (some fd) l (at_work fd e l) v
        (assign-IsLocal fd (busy_entry e) e l.cb_map v.descriptors found)
        (IsLocal-refl fd l.interest v.interests) (removed fd l v.once).0
        (λ j other. only fd j other)
        (rw (find-assign_self fd (busy_entry e) e l.cb_map found, has) (sym (beq_self fd), watch))

  head_linked :
      (fd : ℕ) (rest : List ℕ) (l : EventLoop) → l.tmp_list ≡ fd ∷ rest → is_linked fd l ≡ true
  head_linked fd rest l head = rw head (ground arith)

  pub without_head :
      (fd : ℕ) (rest : List ℕ) (l : EventLoop)
      → l.tmp_list ≡ fd ∷ rest
      → without fd l.tmp_list ≡ rest
  without_head fd rest l head = rw head (ground arith)

  -- A round calls the first descriptor of the list, and takes it off.
  pub first_called :
      (fd : ℕ) (rest : List ℕ) (l : EventLoop)
      → IsTidy none l
      → l.tmp_list ≡ fd ∷ rest
      → (e : Entry) × (cb : ℕ) × (find fd l.cb_map ≡ some e)
        × (e.cb ≡ some cb)
        × (let (calls, out) = on_event l.called cb fd (in_events (some e)) in
            let l' = after_event on_event fd out (make_calls calls (at_work fd e l)) in
            (call_first on_event fd l ≡ some l')
            × IsTidy none l'
            × (length l'.tmp_list ≤ length rest))
  unfolding call_first remove_from_ready_list
  first_called fd rest l v head =
      let (e, cb, found, has, _, watch) =
        callback_of (find fd l.cb_map) (is_linked fd l) false (find fd l.interest)
          (head_linked fd rest l head) (v.settled fd) in
      let (calls, out) = on_event l.called cb fd (in_events (some e)) in
      let w = make_calls calls (at_work fd e l) in
      (
        e,
        cb,
        found,
        has,
        (
          rw (found, has) refl,
          after_event-IsTidy fd out w (
              make_calls-IsTidy (some fd) calls (at_work fd e l)
                (at_work-IsTidy fd cb e l v found has watch)),
          omega (
            arith,
            ap length (after_event-keeps fd out w).0,
            ap length (without_head fd rest l head),
            make_calls-IsNoLonger calls (at_work fd e l),
          ),
        ),
      )
