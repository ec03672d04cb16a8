-- ===== src/TimeWait/Sending.antt =====
-- WriteToWire, SendOrQueuePacket and OnCanWrite of net/tools/quic/quic_time_wait_list_manager.cc: the
-- answers that wait for the socket, and their order.
use mathlib.Core.List.{append-nil, append_assoc, append-nil, map-append}
use quic_toy.Base.{
  inl, inr, refl, sym, ap, ◌∙◌, Bool-cases, map, Bool-cases, sym, inl, ap, ◌≡◌, ◌⊎◌, List, [], ◌∷◌,
  ◌++◌, map, arith, true, false,
}
use quic_toy.Base.LinkedMap.{insert, contains}
use quic_toy.Base.LinkedMap.Laws.{contains-insert}
use quic_toy.Socket.{Msghdr, make_msghdr}
use quic_toy.Writer.{
  Platform, Link, Attempt, time_wait_manager, writer_eq, write_packet, on_write_blocked,
}
use quic_toy.Writer.Laws.{
  Tried, Tried-refl, Tried-trans, on_write_blocked-Tried, write_packet-Tried,
}
use quic_toy.TimeWait.{
  on_can_write, send_or_queue_packet, TimeWaitList, send_pending, QueuedPacket, write_to_wire,
}

abbrev pub messages : List Attempt → List Msghdr
messages = map (λ a. a.message)

-- The socket is blocked and the manager waits for it.
abbrev pub IsWaiting : Link → Type 0
IsWaiting l = (l.write_blocked ≡ true) × (contains time_wait_manager l.write_blocked_list ≡ true)

messages-append :
    (log : List Attempt) (a : Attempt) → messages (log ++ a ∷ []) ≡ messages log ++ a.message ∷ []
messages-append log a = map-append _ log (a ∷ [])

module _ (platform : Platform) where
  abbrev pub message_of : QueuedPacket → Msghdr
  message_of q = make_msghdr platform.is_ipv4 q.packet q.server_address.address q.client_address

  pub write_to_wire-kept :
      (q : QueuedPacket) (l : Link)
      → (write_to_wire platform q l).1 ≡ false
      → IsWaiting (write_to_wire platform q l).0
        × ((messages (write_to_wire platform q l).0.attempts ≡ messages l.attempts)
            ⊎ (messages (write_to_wire platform q l).0.attempts
                ≡ messages l.attempts ++ message_of q ∷ []))
  unfolding write_to_wire
  write_to_wire-kept q l h = ground (
    arith,
    contains-insert time_wait_manager time_wait_manager true l.write_blocked_list,
    messages-append l.attempts (record {
      message = message_of q;
      result = platform.sendmsg l.attempts l.fd (message_of q);
    }),
  )

  pub write_to_wire-sent :
      (q : QueuedPacket) (l : Link)
      → (write_to_wire platform q l).1 ≡ true
      → ((write_to_wire platform q l).0.write_blocked ≡ false)
        × (l.write_blocked ≡ false)
        × ((write_to_wire platform q l).0.write_blocked_list ≡ l.write_blocked_list)
        × (messages (write_to_wire platform q l).0.attempts
            ≡ messages l.attempts ++ message_of q ∷ [])
  unfolding write_to_wire
  write_to_wire-sent q l h = ground (
    arith,
    messages-append l.attempts (record {
      message = message_of q;
      result = platform.sendmsg l.attempts l.fd (message_of q);
    }),
  )

  pub write_to_wire_stop :
      (q : QueuedPacket) (l : Link)
      → (write_to_wire platform q l).1 ≡ false
      → ((write_to_wire platform q l).0.write_blocked ≡ true)
        × ((write_to_wire platform q l).0.write_blocked_list
            ≡ insert time_wait_manager true l.write_blocked_list)
  unfolding write_to_wire
  write_to_wire_stop q l h = ground arith

  -- What a loop over the queue has done: it sent `sent`, kept `left`, and made one more call of the
  -- socket for the first that it kept, or none.
  pub record IsDelivery (qs left : List QueuedPacket) (l l' : Link) : Type 0 where
    pub sent : List QueuedPacket
    pub in_turn : qs ≡ sent ++ left
    pub on_the_wire :
        (messages l'.attempts ≡ messages l.attempts ++ map message_of sent)
        ⊎ ((q : QueuedPacket) × (rest : List QueuedPacket) × (left ≡ q ∷ rest)
            × (messages l'.attempts
                ≡ (messages l.attempts ++ map message_of sent) ++ message_of q ∷ []))
    pub waits : (left ≡ []) ⊎ IsWaiting l'

  sent_first :
      (q : QueuedPacket) (qs left : List QueuedPacket) (l m l' : Link)
      → messages m.attempts ≡ messages l.attempts ++ message_of q ∷ []
      → IsDelivery qs left m l'
      → IsDelivery (q ∷ qs) left l l'
  sent_first q qs left l m l' e d = record {
    sent = q ∷ d.sent;
    in_turn = ap (◌∷◌ q) d.in_turn;
    on_the_wire = elim d.on_the_wire [
      | inl w ↦ inl (w ∙ rw (e, append_assoc))
      | inr (p, rest, f, w) ↦ inr (p, rest, f, w ∙ simp (e, append_assoc))
    ];
    waits = d.waits;
  }

  kept_first :
      (q : QueuedPacket) (qs : List QueuedPacket) (l : Link)
      → (write_to_wire platform q l).1 ≡ false
      → IsDelivery (q ∷ qs) (q ∷ qs) l (write_to_wire platform q l).0
  kept_first q qs l kept =
      let (waits, log) = write_to_wire-kept q l kept in
      record {
        sent = [];
        in_turn = refl;
        on_the_wire = elim log [
          | inl e ↦ inl (e ∙ sym (append-nil _))
          | inr e ↦ inr (q, qs, refl, e ∙ rw append-nil)
        ];
        waits = inr waits;
      }

  send_pending_next :
      (q : QueuedPacket) (qs : List QueuedPacket) (l : Link)
      → (write_to_wire platform q l).1 ≡ true
      → send_pending platform (q ∷ qs) l ≡ send_pending platform qs (write_to_wire platform q l).0
  send_pending_next q qs l e = unfold send_pending in rw e

  send_pending_stop :
      (q : QueuedPacket) (qs : List QueuedPacket) (l : Link)
      → (write_to_wire platform q l).1 ≡ false
      → send_pending platform (q ∷ qs) l ≡ (q ∷ qs, (write_to_wire platform q l).0)
  send_pending_stop q qs l e = unfold send_pending in rw e

  -- The loop of OnCanWrite sends a front part of the queue in turn, each packet once, and keeps the
  -- rest in its order; if it keeps any, the socket is blocked and the manager waits for it.
  pub send_pending-IsDelivery :
      (qs : List QueuedPacket) (l : Link)
      → IsDelivery qs (send_pending platform qs l).0 l (send_pending platform qs l).1
  send_pending-IsDelivery [] l =
      unfold send_pending in
      record { sent = []; in_turn = refl; on_the_wire = inl (sym (append-nil _)); waits = inl refl }
  send_pending-IsDelivery (q ∷ qs) l = elim (Bool-cases (write_to_wire platform q l).1) [
    | inl consumed ↦
        let first = write_to_wire-sent q l consumed in
        rw (send_pending_next q qs l consumed) (
          sent_first q qs _ l (write_to_wire platform q l).0 _ first.3
            (send_pending-IsDelivery qs (write_to_wire platform q l).0))
    | inr kept ↦ rw (send_pending_stop q qs l kept) (kept_first q qs l kept)
  ]

  -- While answers are queued, the socket is blocked and the manager waits for it.
  abbrev pub IsAwaited : TimeWaitList → Link → Type 0
  IsAwaited t l = (t.pending_packets_queue ≡ []) ⊎ IsWaiting l

  -- SendOrQueuePacket keeps it so: if no answer is queued, or the socket is blocked and the manager
  -- waits for it, then that holds after the call.
  pub send_or_queue-IsAwaited :
      (q : QueuedPacket) (t : TimeWaitList) (l : Link)
      → IsAwaited t l
      → IsAwaited (send_or_queue_packet platform q t l).0 (send_or_queue_packet platform q t l).1
  unfolding send_or_queue_packet
  send_or_queue-IsAwaited q t l a = elim (Bool-cases (write_to_wire platform q l).1) [
    | inl consumed ↦ rw consumed (
        inl (elim a [
          | inl done ↦ done
          | inr waits ↦ cc (waits.0, (write_to_wire-sent q l consumed).1)
        ]))
    | inr kept ↦ inr (write_to_wire-kept q l kept).0
  ]

  -- OnCanWrite sends a front part of the queue in turn, each packet once, and keeps the rest in its
  -- order; what it hands to the socket is that part, and at most the first packet that it keeps. If
  -- it keeps any, the socket is blocked and the manager waits for it.
  pub on_can_write-IsDelivery :
      (t : TimeWaitList) (l : Link)
      → IsDelivery t.pending_packets_queue
          (on_can_write platform t l).0.pending_packets_queue
          l
          (on_can_write platform t l).1
  unfolding on_can_write
  on_can_write-IsDelivery t l = send_pending-IsDelivery t.pending_packets_queue l

  -- The loop leaves the list of waiting writers alone, or finds the socket blocked and puts the
  -- manager on it.
  pub send_pending-list :
      (qs : List QueuedPacket) (l : Link)
      → ((send_pending platform qs l).1.write_blocked_list ≡ l.write_blocked_list)
        ⊎ (((send_pending platform qs l).1.write_blocked ≡ true)
            × ((send_pending platform qs l).1.write_blocked_list
                ≡ insert time_wait_manager true l.write_blocked_list))
  send_pending-list [] l = unfold send_pending in inl refl
  send_pending-list (q ∷ qs) l = elim (Bool-cases (write_to_wire platform q l).1) [
    | inl consumed ↦ rw (send_pending_next q qs l consumed) (
        rw (write_to_wire-sent q l consumed).2 at
          (send_pending-list qs (write_to_wire platform q l).0))
    | inr kept ↦ rw (send_pending_stop q qs l kept) (inr (write_to_wire_stop q l kept))
  ]

  -- The socket is not found blocked without a call of sendmsg.
  write_to_wire-Tried : (q : QueuedPacket) (l : Link) → Tried l (write_to_wire platform q l).0
  unfolding write_to_wire
  write_to_wire-Tried q l =
      let tried =
        write_packet-Tried platform q.packet q.server_address.address q.client_address l in
      let l' = (write_packet platform q.packet q.server_address.address q.client_address l).0 in
      ground (
        arith,
        tried,
        on_write_blocked-Tried time_wait_manager l,
        Tried-trans l l' (on_write_blocked time_wait_manager l') tried
            (on_write_blocked-Tried time_wait_manager l'),
      )

  pub send_pending-Tried :
      (qs : List QueuedPacket) (l : Link) → Tried l (send_pending platform qs l).1
  send_pending-Tried [] l = unfold send_pending in Tried-refl l
  send_pending-Tried (q ∷ qs) l = elim (Bool-cases (write_to_wire platform q l).1) [
    | inl consumed ↦ rw (send_pending_next q qs l consumed) (
        Tried-trans l (write_to_wire platform q l).0
          (send_pending platform qs (write_to_wire platform q l).0).1 (write_to_wire-Tried q l)
          (send_pending-Tried qs (write_to_wire platform q l).0))
    | inr kept ↦ rw (send_pending_stop q qs l kept) (write_to_wire-Tried q l)
  ]
