-- ===== src/EventLoop/Asked.antt =====
-- A callback of net/tools/epoll_server/epoll_server.cc that asks in out_ready_mask for another call.
use quic_toy.EventLoop.Wait.{handle_events}
use quic_toy.Base.LinkedMap.Local.{find-assign_other, find-assign_self}
use quic_toy.EventLoop.Tables.{add_to_ready_list-keeps}
use quic_toy.Base.LinkedMap.Laws.{beq_self}
use quic_toy.Base.LinkedMap.{assign, find}
use quic_toy.EventLoop.{handle_event, is_linked, Entry, add_to_ready_list, EventLoop}
use quic_toy.Base.{
  Option-cases, [], Bool-cases, sym, ◌∙◌, ap, nat_beq, arith, ◌≡◌, List, ℕ, nat_eq, ◌∷◌, inl, inr,
  some, true,
}

-- The descriptor is to be called again, for the events that it has asked for.
abbrev pub IsAsked : ℕ → ℕ → ℕ → EventLoop → Type 0
IsAsked fd cb out l =
    (e : Entry) × (find fd l.cb_map ≡ some e)
    × (e.cb ≡ some cb)
    × (e.events_to_fake ≡ out)
    × (is_linked fd l ≡ true)

pub add_to_ready_list-links :
    (fd : ℕ) (l : EventLoop) → is_linked fd (add_to_ready_list fd l) ≡ true
unfolding add_to_ready_list
add_to_ready_list-links fd l = ground (arith, beq_self fd)

pub add_to_ready_list-linked :
    (fd j : ℕ) (l : EventLoop) → is_linked j l ≡ true → is_linked j (add_to_ready_list fd l) ≡ true
unfolding add_to_ready_list
add_to_ready_list-linked fd j l h = ground (arith, h)

-- An event that is reported for any descriptor leaves it so.
handle_event-IsAsked :
    (fd cb out j mask : ℕ) (l : EventLoop)
    → IsAsked fd cb out l
    → IsAsked fd cb out (handle_event j mask l)
unfolding handle_event
handle_event-IsAsked fd cb out j mask l (e, found, has, fake, linked) =
    elim (Option-cases (find j l.cb_map)) [
      | inl missing ↦ rw (missing, handle_event) (e, found, has, fake, linked)
      | inr (e1, there) ↦ elim (Option-cases e1.cb) [
        | inl gone ↦ rw (there, handle_event) (simp gone (e, found, has, fake, linked))
        | inr (cb1, has1) ↦
            let e' = record e1 { cb = some cb1; events_asserted = mask } in
            let l' = record l { cb_map = assign j e' l.cb_map } in
            let (e2, found2, has2, fake2) : (e2 : Entry) × (find fd l'.cb_map ≡ some e2)
                × (e2.cb ≡ some cb)
                × (e2.events_to_fake ≡ out) =
              elim (Bool-cases (nat_beq j fd)) [
                | inl same ↦
                    let p : j ≡ fd = (nat_eq.beq_iff j fd).0 same in
                    (
                      e',
                      ap (λ k. find k (assign j e' l.cb_map)) (sym p)
                          ∙ find-assign_self j e' e1 l.cb_map there,
                      cc (p, found, there, has, has1),
                      cc (p, found, there, fake),
                    )
                | inr apart ↦ (
                  e,
                  find-assign_other j fd e' l.cb_map (λ p. ground (arith, apart, p)) ∙ found,
                  has,
                  fake,
                )
              ] in
            rw (there, handle_event)
              (simp has1 (
                e2,
                ap (find fd) (add_to_ready_list-keeps j l').0 ∙ found2,
                has2,
                fake2,
                add_to_ready_list-linked j fd l' linked,
              ))
      ]
    ]

pub handle_events-IsAsked :
    (fd cb out : ℕ) (events : List (ℕ × ℕ)) (l : EventLoop)
    → IsAsked fd cb out l
    → IsAsked fd cb out (handle_events events l)
unfolding handle_events
handle_events-IsAsked fd cb out [] l asked = asked
handle_events-IsAsked fd cb out ((j, mask) ∷ rest) l asked =
    handle_events-IsAsked fd cb out rest (handle_event j mask l)
      (handle_event-IsAsked fd cb out j mask l asked)
