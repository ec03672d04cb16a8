-- ===== src/EventLoop/Registering.antt =====
-- RegisterFD and UnregisterFD of net/tools/epoll_server/epoll_server.cc keep the tables tidy.
use quic_toy.Base.{
  sym, nat_eq, ℕ, Option, none, some, ◌≡◌, refl, true, false, Option-cases, Bool-cases, inl, inr,
}
use quic_toy.Base.LinkedMap.{find}
use quic_toy.Base.LinkedMap.Local.{
  assign-IsLocal, erase-IsLocal, insert-IsLocal, find-assign_self, find-erase_self,
  find-insert_self,
}
use quic_toy.EventLoop.{EventLoop, Entry, register_fd, unregister_fd, recycled, watched}
use quic_toy.EventLoop.Tidy.{IsTidy, is_busy, removed, IsTidy-at}
use quic_toy.EventLoop.Tables.{linked_still}

abbrev fresh : ℕ → ℕ → Entry
fresh cb mask = record {
  cb = some cb;
  event_mask = mask;
  events_asserted = 0;
  events_to_fake = 0;
  in_use = false;
}

module _ (busy : Option ℕ) (fd : ℕ) (l : EventLoop) (v : IsTidy busy l) where
  pub register_fd-IsTidy : (cb mask : ℕ) → IsTidy busy (register_fd fd cb mask l)
  unfolding register_fd recycled
  register_fd-IsTidy cb mask = elim (Option-cases (find fd l.cb_map)) [
    | inl missing ↦
        let (unlinked, unwatched, idle) = rw missing at (v.settled fd) in
        let table = insert-IsLocal fd (fresh cb mask) l.cb_map v.descriptors missing in
        let interest = insert-IsLocal fd (watched mask) l.interest v.interests unwatched in
        rw (missing, register_fd)
          (IsTidy-at fd busy busy l _ v table interest (linked_still busy fd l v) (λ j other. refl)
            (rw
              (
                find-insert_self fd (fresh cb mask) l.cb_map missing,
                find-insert_self fd (watched mask) l.interest unwatched,
                idle,
              )
              (refl, refl)))
    | inr (e, found) ↦
        let here = rw found at (v.settled fd) in
        let table = assign-IsLocal fd (recycled cb mask e) e l.cb_map v.descriptors found in
        let written = find-assign_self fd (recycled cb mask e) e l.cb_map found in
        elim (Option-cases e.cb) [
          | inl gone ↦
              let (_, (unlinked, unwatched, in_use)) = rw gone at here in
              let interest = insert-IsLocal fd (watched mask) l.interest v.interests unwatched in
              rw (found, register_fd)
                (simp gone (
                  IsTidy-at fd busy busy l _ v table interest (linked_still busy fd l v)
                    (λ j other. refl)
                    (rw (written, find-insert_self fd (watched mask) l.interest unwatched)
                      (here.0, refl))))
          | inr (other, has) ↦
              let interested = (rw has at here).1 in
              let interest = assign-IsLocal fd (watched mask) _ l.interest v.interests interested in
              rw (found, register_fd)
                (simp has (
                  IsTidy-at fd busy busy l _ v table interest (removed fd l v.once).0
                    (λ j other. refl)
                    (rw (written, find-assign_self fd (watched mask) _ l.interest interested)
                      (here.0, refl))))
        ]
  ]

  pub unregister_fd-IsTidy : IsTidy busy (unregister_fd fd l)
  unfolding unregister_fd
  unregister_fd-IsTidy = elim (Option-cases (find fd l.cb_map)) [
    | inl missing ↦ rw (missing, unregister_fd) v
    | inr (e, found) ↦
        let here = rw found at (v.settled fd) in
        elim (Option-cases e.cb) [
          | inl gone ↦ rw (found, unregister_fd) (simp gone v)
          | inr (cb, has) ↦
              let (links, unlinked) = removed fd l v.once in
              let interest = erase-IsLocal fd l.interest v.interests in
              let unwatched = find-erase_self fd l.interest v.interests in
              elim (Bool-cases e.in_use) [
                | inl in_use ↦
                    let busy_here : is_busy fd busy ≡ true = cc (here.0, in_use) in
                    let e' = record e {
                      cb = none;
                      event_mask = 0;
                      events_to_fake = 0;
                      in_use = true;
                    } in
                    rw (found, unregister_fd)
                      (simp (has, in_use)
                        (IsTidy-at fd busy busy l _ v
                          (assign-IsLocal fd e' e l.cb_map v.descriptors found) interest links
                          (λ j other. refl)
                          (rw (find-assign_self fd e' e l.cb_map found, unwatched)
                            (sym busy_here, (unlinked, refl, busy_here)))))
                | inr idle ↦
                    let idle_here : is_busy fd busy ≡ false = cc (here.0, idle) in
                    rw (found, unregister_fd)
                      (simp (has, idle)
                        (IsTidy-at fd busy busy l _ v (erase-IsLocal fd l.cb_map v.descriptors)
                          interest links (λ j other. refl)
                          (rw (find-erase_self fd l.cb_map v.descriptors, unwatched)
                            (unlinked, refl, idle_here))))
              ]
        ]
  ]
