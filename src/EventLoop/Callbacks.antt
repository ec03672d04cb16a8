-- ===== src/EventLoop/Callbacks.antt =====
-- CallReadyListCallbacks of net/tools/epoll_server/epoll_server.cc, and what a callback may do to the
-- event loop while it handles an event.
use quic_toy.Base.{
  nat_eq, [], true, false, ◌∷◌, ◌>>=◌, ◌++◌, ℕ, List, Option, none, some, zero, suc, if◌then◌else◌,
  nat_beq, length,
}
use quic_toy.Base.LinkedMap.{find, assign, erase}
use quic_toy.EventLoop.{
  EventLoop, register_fd, unregister_fd, modify_fd, set_fd_ready, set_fd_not_ready,
  add_to_ready_list, remove_from_ready_list,
}
use Prim.Native.Nat.{bit_or}

-- What a callback may call on the loop while it handles an event.
pub data Call : Type 0 where
  registers : ℕ → ℕ → ℕ → Call
  unregisters : ℕ → Call
  modifies : ℕ → ℕ → ℕ → Call
  sets_ready : ℕ → ℕ → Call
  sets_not_ready : ℕ → Call

unfoldable pub make_call : Call → EventLoop → EventLoop
unfolding register_fd unregister_fd modify_fd set_fd_ready set_fd_not_ready
make_call (registers fd cb mask) l = register_fd fd cb mask l
make_call (unregisters fd) l = unregister_fd fd l
make_call (modifies fd remove add) l = modify_fd fd remove add l
make_call (sets_ready fd events) l = set_fd_ready fd events l
make_call (sets_not_ready fd) l = set_fd_not_ready fd l

unfoldable pub make_calls : List Call → EventLoop → EventLoop
unfolding make_call
make_calls [] l = l
make_calls (c ∷ cs) l = make_calls cs (make_call c l)

-- OnEvent of a callback, of a descriptor and in_events: the calls that it makes, and out_ready_mask.
-- It depends on all earlier calls of OnEvent.
abbrev pub OnEvent : Type 0
OnEvent = List (ℕ × ℕ) → ℕ → ℕ → ℕ → List Call × ℕ

module _ (on_event : OnEvent) where
  -- After OnEvent: an entry that was unregistered goes, and one that asks for it is ready again.
  unfoldable pub after_event : ℕ → ℕ → EventLoop → EventLoop
  unfolding find erase assign add_to_ready_list
  after_event fd out_ready_mask l = elim (find fd l.cb_map) [
    | none ↦ l
    | some e ↦ elim e.cb [
      | none ↦ record l { cb_map = erase fd l.cb_map }
      | some cb ↦
          let rested = record e { in_use = false } in
          if nat_beq out_ready_mask 0
          then record l { cb_map = assign fd rested l.cb_map }
          else add_to_ready_list fd (record l {
            cb_map = assign fd (record rested { events_to_fake = out_ready_mask }) l.cb_map;
          })
    ]
  ]

  -- One round of CallReadyListCallbacks, for the first descriptor of the list. A callback that is
  -- missing would be a null pointer.
  unfoldable pub call_first : ℕ → EventLoop → Option EventLoop
  unfolding find assign remove_from_ready_list make_calls after_event
  call_first fd l = do
    e ← find fd l.cb_map
    cb ← e.cb
    let in_events = bit_or e.events_asserted e.events_to_fake
    let (calls, out) = on_event l.called cb fd in_events
    let busy = record e { events_asserted = 0; events_to_fake = 0; in_use = true }
    let l' = record (remove_from_ready_list fd l) {
      cb_map = assign fd busy l.cb_map;
      called = l.called ++ (fd, in_events) ∷ [];
    }
    some (after_event fd out (make_calls calls l'))

  -- The loop, on fuel: no call adds to the list that is being worked off.
  unfoldable pub call_loop : ℕ → EventLoop → Option EventLoop
  unfolding call_first
  call_loop zero l = none
  call_loop (suc fuel) l = elim l.tmp_list [
    | [] ↦ some l
    | fd ∷ _ ↦ do l' ← call_first fd l; call_loop fuel l'
  ]

  unfoldable pub call_ready_list_callbacks : EventLoop → Option EventLoop
  unfolding call_loop
  call_ready_list_callbacks l =
      call_loop (suc (length l.ready_list)) (record l { ready_list = []; tmp_list = l.ready_list })
