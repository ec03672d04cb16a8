-- ===== src/EventLoop/Ready.antt =====
-- The list that CallReadyListCallbacks of net/tools/epoll_server/epoll_server.cc works off, under the
-- calls that a callback makes.
use quic_toy.Base.{[], ◌∷◌, arith, ◌≤◌, List, length, ℕ}
use quic_toy.EventLoop.Callbacks.{
  Call, modifies, registers, unregisters, sets_ready, sets_not_ready, make_call, make_calls,
}
use quic_toy.EventLoop.{
  modify_fd, add_to_ready_list, remove_from_ready_list, set_fd_not_ready, set_fd_ready,
  unregister_fd, without, register_fd, EventLoop,
}

length-without_le : (fd : ℕ) (xs : List ℕ) → length (without fd xs) ≤ length xs
length-without_le fd [] = omega arith
length-without_le fd (x ∷ xs) = ground (arith, length-without_le fd xs)

-- No call adds to the list that is worked off.
abbrev pub IsNoLonger : EventLoop → EventLoop → Type 0
IsNoLonger l l' = length l'.tmp_list ≤ length l.tmp_list

make_call-IsNoLonger : (c : Call) (l : EventLoop) → IsNoLonger l (make_call c l)
unfolding make_call modify_fd register_fd unregister_fd set_fd_ready set_fd_not_ready
    remove_from_ready_list add_to_ready_list
make_call-IsNoLonger (registers fd cb mask) l = ground (arith, length-without_le fd l.tmp_list)
make_call-IsNoLonger (unregisters fd) l = ground (arith, length-without_le fd l.tmp_list)
make_call-IsNoLonger (modifies fd remove add) l = ground arith
make_call-IsNoLonger (sets_ready fd events) l = ground (arith, length-without_le fd l.tmp_list)
make_call-IsNoLonger (sets_not_ready fd) l = ground (arith, length-without_le fd l.tmp_list)

pub make_calls-IsNoLonger : (cs : List Call) (l : EventLoop) → IsNoLonger l (make_calls cs l)
unfolding make_calls
make_calls-IsNoLonger [] l = omega arith
make_calls-IsNoLonger (c ∷ cs) l =
    omega (arith, make_call-IsNoLonger c l, make_calls-IsNoLonger cs (make_call c l))
