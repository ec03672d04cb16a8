-- ===== src/EventLoop.antt =====
-- net/tools/epoll_server/epoll_server.cc and .h: the event loop's table of descriptors, its list of
-- descriptors that are ready, and the time that it waits.
--
-- A callback is known by a number. The kernel's interest set is a map from descriptors to event masks;
-- a change of it that the kernel refuses ends the program, and is left out.
pub mod Interest
pub mod Callbacks
pub mod Wait
pub mod Ready
pub mod Tidy
pub mod Tables
pub mod Round
pub mod Loop
pub mod Registering
pub mod Served
pub mod Alarms
pub mod Agreed
pub mod Due
pub mod Load
pub mod Rearming
pub mod Firing
pub mod LeftOver
pub mod Overdue
pub mod Waiting
pub mod Executing
pub mod Idle
pub mod Turns
pub mod Sleeping
pub mod Punctual
pub mod Asked
pub mod Answers
use quic_toy.Base.Int.{negsuc, ltb_ℤ, pos, sub_ℕ, ℤ}
use quic_toy.Base.{
  zero, ◌>>=◌, ◌/◌, ◌-◌, true, not, nat_beq, nat_eq, length, none, some, ◌||◌, if◌then◌else◌, false,
  [], Bool, suc, ◌∷◌, ℕ, List, Option,
}
use quic_toy.Base.LinkedMap.{find, assign, insert, erase, contains}
use Prim.Native.Nat.{bit_or, bit_and, bit_xor}

-- CBAndEventMask. `none` is a callback that was unregistered while its event was handled.
pub record Entry : Type 0 where
  pub cb : Option ℕ
  pub event_mask : ℕ
  pub events_asserted : ℕ
  pub events_to_fake : ℕ
  pub in_use : Bool

-- An entry is linked into at most one of the two lists. `called` is the calls of OnEvent, each with
-- its descriptor and in_events, oldest first.
pub record EventLoop : Type 0 where
  pub cb_map : List (ℕ × Entry)
  pub ready_list : List ℕ
  pub tmp_list : List ℕ
  pub interest : List (ℕ × ℕ)
  pub called : List (ℕ × ℕ)

abbrev pub is_member : ℕ → List ℕ → Bool
is_member fd [] = false
is_member fd (x ∷ xs) = if nat_beq x fd then true else is_member fd xs

abbrev pub without : ℕ → List ℕ → List ℕ
without fd [] = []
without fd (x ∷ xs) = if nat_beq x fd then xs else x ∷ without fd xs

-- EPOLLIN, EPOLLOUT, and ee.events of AddFD and ModFD, with EPOLLERR and EPOLLHUP.
abbrev pub epollin : ℕ
epollin = 1

abbrev pub epollout : ℕ
epollout = 4

unfoldable pub watched : ℕ → ℕ
watched event_mask = bit_or (bit_or event_mask 8) 16

-- `entry.le_prev != NULL`
abbrev pub is_linked : ℕ → EventLoop → Bool
is_linked fd l = is_member fd l.ready_list || is_member fd l.tmp_list

unfoldable pub add_to_ready_list : ℕ → EventLoop → EventLoop
add_to_ready_list fd l = if is_linked fd l then l else record l { ready_list = fd ∷ l.ready_list }

unfoldable pub remove_from_ready_list : ℕ → EventLoop → EventLoop
remove_from_ready_list fd l = record l {
  ready_list = without fd l.ready_list;
  tmp_list = without fd l.tmp_list;
}

-- The node of a descriptor that is registered again is kept.
recycled : ℕ → ℕ → Entry → Entry
recycled cb event_mask e = record e { cb = some cb; event_mask = event_mask; events_to_fake = 0 }

unfoldable pub register_fd : ℕ → ℕ → ℕ → EventLoop → EventLoop
unfolding find assign insert remove_from_ready_list recycled watched
register_fd fd cb event_mask l = elim (find fd l.cb_map) [
  | none ↦ record l {
    cb_map =
        insert fd
          (record {
            cb = some cb;
            event_mask = event_mask;
            events_asserted = 0;
            events_to_fake = 0;
            in_use = false;
          })
          l.cb_map;
    interest = insert fd (watched event_mask) l.interest;
  }
  | some e ↦ elim e.cb [
    | none ↦ record l {
      cb_map = assign fd (recycled cb event_mask e) l.cb_map;
      interest = insert fd (watched event_mask) l.interest;
    }
    | some other ↦ record (remove_from_ready_list fd l) {
      cb_map = assign fd (recycled cb event_mask e) l.cb_map;
      interest = assign fd (watched event_mask) l.interest;
    }
  ]
]

unfoldable pub unregister_fd : ℕ → EventLoop → EventLoop
unfolding find assign erase remove_from_ready_list
unregister_fd fd l = elim (find fd l.cb_map) [
  | none ↦ l
  | some e ↦ elim e.cb [
    | none ↦ l
    | some cb ↦ record (remove_from_ready_list fd l) {
      interest = erase fd l.interest;
      cb_map =
          if not e.in_use
          then erase fd l.cb_map
          else assign fd (record e { cb = none; event_mask = 0; events_to_fake = 0 }) l.cb_map;
    }
  ]
]

-- `mask & ~remove | add`, of the bits that the mask has.
abbrev pub modified : ℕ → ℕ → ℕ → ℕ
modified remove add mask = bit_or (bit_xor mask (bit_and mask remove)) add

unfoldable pub modify_fd : ℕ → ℕ → ℕ → EventLoop → EventLoop
unfolding find assign watched
modify_fd fd remove_event add_event l = elim (find fd l.cb_map) [
  | none ↦ l
  | some e ↦ elim e.cb [
    | none ↦ l
    | some cb ↦
        let mask = modified remove_event add_event e.event_mask in
        record l {
          cb_map = assign fd (record e { event_mask = mask }) l.cb_map;
          interest = assign fd (watched mask) l.interest;
        }
  ]
]

-- The constructor, with the reading end of the pipe and the callback that wakes the loop.
unfoldable pub new_event_loop : ℕ → ℕ → EventLoop
unfolding register_fd
new_event_loop read_fd wake_cb =
    register_fd read_fd wake_cb epollin
      (record { cb_map = []; ready_list = []; tmp_list = []; interest = []; called = [] })

unfoldable pub handle_event : ℕ → ℕ → EventLoop → EventLoop
unfolding find assign add_to_ready_list
handle_event fd event_mask l = elim (find fd l.cb_map) [
  | none ↦ l
  | some e ↦ elim e.cb [
    | none ↦ l
    | some cb ↦
        add_to_ready_list fd
          (record l { cb_map = assign fd (record e { events_asserted = event_mask }) l.cb_map })
  ]
]

unfoldable pub set_fd_ready : ℕ → ℕ → EventLoop → EventLoop
unfolding find assign add_to_ready_list
set_fd_ready fd events_to_fake l = elim (find fd l.cb_map) [
  | none ↦ l
  | some e ↦ elim e.cb [
    | none ↦ l
    | some cb ↦
        add_to_ready_list fd
          (record l { cb_map = assign fd (record e { events_to_fake = events_to_fake }) l.cb_map })
  ]
]

unfoldable pub set_fd_not_ready : ℕ → EventLoop → EventLoop
unfolding contains remove_from_ready_list
set_fd_not_ready fd l = if contains fd l.cb_map then remove_from_ready_list fd l else l

unfoldable pub is_fd_ready : ℕ → EventLoop → Bool
unfolding find
is_fd_ready fd l = elim (find fd l.cb_map) [
  | none ↦ false
  | some e ↦ elim e.cb [ none ↦ false | some cb ↦ is_linked fd l ]
]
