-- ===== src/EventLoop/Tables.antt =====
-- The other operations of net/tools/epoll_server/epoll_server.cc on one descriptor keep the event loop's
-- tables tidy.
use quic_toy.Base.{
  Bool, nat_eq, ℕ, Option, none, some, ◌≡◌, refl, false, Option-cases, Bool-cases, inl, inr,
}
use quic_toy.Base.LinkedMap.{contains, find, assign}
use quic_toy.Base.LinkedMap.Local.{IsLocal-refl, assign-IsLocal, find-assign_self}
use quic_toy.EventLoop.Tidy.{IsWatched}
use quic_toy.EventLoop.{
  modified, EventLoop, Entry, modify_fd, set_fd_ready, set_fd_not_ready, handle_event, watched,
  is_linked, remove_from_ready_list, add_to_ready_list,
}
use quic_toy.EventLoop.Tidy.{IsTidy, IsRelinked, Settled, is_busy, removed, added, IsTidy-at}

pub add_to_ready_list-keeps :
    (fd : ℕ) (l : EventLoop)
    → ((add_to_ready_list fd l).cb_map ≡ l.cb_map)
      × ((add_to_ready_list fd l).interest ≡ l.interest)
unfolding add_to_ready_list
add_to_ready_list-keeps fd l = elim (Bool-cases (is_linked fd l)) [
  | inl already ↦ rw already (refl, refl)
  | inr free ↦ rw free (refl, refl)
]

unlinks-IsWatched :
    (cb : Option ℕ) (mask : ℕ) (linked : Bool) (interest : Option ℕ) (busy : Bool)
    → IsWatched cb mask linked interest busy
    → IsWatched cb mask false interest busy
unlinks-IsWatched none mask linked interest busy (unlinked, w, b) = (refl, w, b)
unlinks-IsWatched (some cb) mask linked interest busy w = w

module _ (busy : Option ℕ) (fd : ℕ) (l : EventLoop) (v : IsTidy busy l) where
  pub linked_still : IsRelinked fd l l
  linked_still = (v.once, λ j other. refl)

  -- An entry that is there is written, and the lists are changed.
  rewritten :
      (e e' : Entry) (cb : ℕ) (l' : EventLoop)
      → find fd l.cb_map ≡ some e
      → e.cb ≡ some cb
      → e'.cb ≡ some cb
      → e'.in_use ≡ e.in_use
      → e'.event_mask ≡ e.event_mask
      → l'.cb_map ≡ assign fd e' l.cb_map
      → l'.interest ≡ l.interest
      → IsRelinked fd l l'
      → IsTidy busy l'
  rewritten e e' cb l' found has has' same_use same_mask table same_interest links =
      let here : Settled (some e) (is_linked fd l) (find fd l.interest) (is_busy fd busy) =
        rw found at (v.settled fd) in
      IsTidy-at fd busy busy l l' v (rw table (assign-IsLocal fd e' e l.cb_map v.descriptors found))
        (rw same_interest (IsLocal-refl fd l.interest v.interests)) links (λ j other. refl)
        (rw
          (table, same_interest, find-assign_self fd e' e l.cb_map found, has', same_use, same_mask)
          (rw has at here))

  pub modify_fd-IsTidy :
      (remove_event add_event : ℕ) → IsTidy busy (modify_fd fd remove_event add_event l)
  unfolding modify_fd
  modify_fd-IsTidy remove_event add_event = elim (Option-cases (find fd l.cb_map)) [
    | inl missing ↦ rw (missing, modify_fd) v
    | inr (e, found) ↦
        let here = rw found at (v.settled fd) in
        elim (Option-cases e.cb) [
          | inl gone ↦ rw (found, modify_fd) (simp gone v)
          | inr (cb, has) ↦
              let mask = modified remove_event add_event e.event_mask in
              let e' = record e { cb = some cb; event_mask = mask } in
              let interested = (rw has at here).1 in
              let interest = assign-IsLocal fd (watched mask) _ l.interest v.interests interested in
              rw (found, modify_fd)
                (simp has (
                  IsTidy-at fd busy busy l _ v (assign-IsLocal fd e' e l.cb_map v.descriptors found)
                    interest linked_still (λ j other. refl)
                    (rw
                      (
                        find-assign_self fd e' e l.cb_map found,
                        find-assign_self fd (watched mask) _ l.interest interested,
                      )
                      (here.0, refl))))
        ]
  ]

  pub handle_event-IsTidy : (event_mask : ℕ) → IsTidy busy (handle_event fd event_mask l)
  unfolding handle_event
  handle_event-IsTidy event_mask = elim (Option-cases (find fd l.cb_map)) [
    | inl missing ↦ rw (missing, handle_event) v
    | inr (e, found) ↦ elim (Option-cases e.cb) [
      | inl gone ↦ rw (found, handle_event) (simp gone v)
      | inr (cb, has) ↦
          let e' = record e { cb = some cb; events_asserted = event_mask } in
          let links = (added fd (record l { cb_map = assign fd e' l.cb_map }) v.once).0 in
          rw (found, handle_event)
            (simp has (
              rewritten e e' cb _ found has refl refl refl (add_to_ready_list-keeps fd _).0
                (add_to_ready_list-keeps fd _).1 links))
    ]
  ]

  pub set_fd_ready-IsTidy : (events : ℕ) → IsTidy busy (set_fd_ready fd events l)
  unfolding set_fd_ready
  set_fd_ready-IsTidy events = elim (Option-cases (find fd l.cb_map)) [
    | inl missing ↦ rw (missing, set_fd_ready) v
    | inr (e, found) ↦ elim (Option-cases e.cb) [
      | inl gone ↦ rw (found, set_fd_ready) (simp gone v)
      | inr (cb, has) ↦
          let e' = record e { cb = some cb; events_to_fake = events } in
          let links = (added fd (record l { cb_map = assign fd e' l.cb_map }) v.once).0 in
          rw (found, set_fd_ready)
            (simp has (
              rewritten e e' cb _ found has refl refl refl (add_to_ready_list-keeps fd _).0
                (add_to_ready_list-keeps fd _).1 links))
    ]
  ]

  unlinks :
      (o : Option Entry) (linked busy_here : Bool) (interest : Option ℕ)
      → Settled o linked interest busy_here
      → Settled o false interest busy_here
  unlinks none linked busy_here interest (unlinked, w, b) = (refl, w, b)
  unlinks (some e) linked busy_here interest (used, watch) =
      (used, unlinks-IsWatched e.cb e.event_mask linked interest busy_here watch)

  pub removed-IsTidy : IsTidy busy (remove_from_ready_list fd l)
  unfolding remove_from_ready_list
  removed-IsTidy =
      let (links, unlinked) = removed fd l v.once in
      IsTidy-at fd busy busy l (remove_from_ready_list fd l) v
        (IsLocal-refl fd l.cb_map v.descriptors) (IsLocal-refl fd l.interest v.interests) links
        (λ j other. refl) (rw unlinked (unlinks (find fd l.cb_map) _ _ _ (v.settled fd)))

  pub set_fd_not_ready-IsTidy : IsTidy busy (set_fd_not_ready fd l)
  unfolding set_fd_not_ready
  set_fd_not_ready-IsTidy = elim (Bool-cases (contains fd l.cb_map)) [
    | inl there ↦ rw (there, set_fd_not_ready) removed-IsTidy
    | inr gone ↦ rw (gone, set_fd_not_ready) v
  ]
