-- ===== src/TimeWait/Handled.antt =====
-- One late packet: what ProcessPacket of the manager leaves alone, and what it may change.
use quic_toy.TimeWait.Deadline.{NotBefore-assign}
use quic_toy.TimeWait.Sending.{write_to_wire-kept, write_to_wire_stop, write_to_wire-sent}
use quic_toy.Base.LinkedMap.Laws.{contains-assign, length-assign, assign-Distinct}
use quic_toy.Net.{IpEndPoint, EncryptedPacket}
use quic_toy.TimeWait.Invariant.{Within, IsWellFormed}
use quic_toy.Base.LinkedMap.{insert, contains, find, assign}
use quic_toy.Writer.{writer_eq, time_wait_manager, Platform, Link}
use quic_toy.Base.Int.{negsuc, pos, ℤ}
use quic_toy.Base.{
  ◌∙◌, sym, ap, refl, nat_eq, inr, inl, Bool-cases, arith, [], true, ◌⊎◌, some, false, length, ◌≡◌,
  ◌+◌, ℕ,
}
use quic_toy.TimeWait.{
  response, should_send_response, write_to_wire, process_packet, QueuedPacket, PublicResetPacket,
  send_or_queue_packet, ConnectionIdMap, TimeWaitList, Flags, ConnectionIdData,
}
use quic_toy.TimeWait.Invariant

abbrev pub with_count : ConnectionIdData → ConnectionIdData
with_count d = record d { num_packets = d.num_packets + 1 }

abbrev recorded : ℕ → ConnectionIdData → TimeWaitList → TimeWaitList
recorded id d t = record t { connection_id_map = assign id (with_count d) t.connection_id_map }

Within-length :
    (limit : ℤ) (m n : ConnectionIdMap) → length n ≡ length m → Within limit m → Within limit n
Within-length (pos max) m n e w = omega arith
Within-length (negsuc k) m n e w = tt

recorded-IsWellFormed :
    (flags : Flags) (now id : ℕ) (d : ConnectionIdData) (t : TimeWaitList)
    → find id t.connection_id_map ≡ some d
    → IsWellFormed flags now t
    → IsWellFormed flags now (recorded id d t)
recorded-IsWellFormed flags now id d t found v = record {
  distinct = assign-Distinct id (with_count d) t.connection_id_map v.distinct;
  in_order =
      Invariant.Between-assign id 0 now t.connection_id_map d (with_count d) found refl v.in_order;
  dated = v.dated;
  within =
      Within-length flags.time_wait_list_max_connections t.connection_id_map _
        (length-assign id (with_count d) t.connection_id_map) v.within;
  armed =
      let (deadline, set, soon, due) = v.armed in
      (
        deadline,
        set,
        soon,
        NotBefore-assign deadline t.time_wait_period id t.connection_id_map d (with_count d) found
            refl due,
      );
}

-- Nobody else is put on the list of waiting writers, and nobody at all unless the socket is blocked.
abbrev pub IsManagersTurn : Link → Link → Type 0
IsManagersTurn l l' =
    ((l.write_blocked ≡ false) × (l'.write_blocked_list ≡ l.write_blocked_list))
    ⊎ ((l'.write_blocked ≡ true)
        × (l'.write_blocked_list ≡ insert time_wait_manager true l.write_blocked_list))
    ⊎ (l' ≡ l)

pub record IsHandled (flags : Flags) (now : ℕ) (t : TimeWaitList) (l : Link) (t' : TimeWaitList)
    (l' : Link) : Type 0 where
  pub well_formed : IsWellFormed flags now t'
  pub same_ids : (j : ℕ) → contains j t'.connection_id_map ≡ contains j t.connection_id_map
  pub writers : IsManagersTurn l l'
  pub queued :
      (t'.pending_packets_queue ≡ []) ⊎ (contains time_wait_manager l'.write_blocked_list ≡ true)

module _ (platform : Platform) where
  sent :
      (flags : Flags) (now id : ℕ) (d : ConnectionIdData) (q : QueuedPacket) (t : TimeWaitList)
      (l : Link)
      → find id t.connection_id_map ≡ some d
      → IsWellFormed flags now t
      → (t.pending_packets_queue ≡ []) ⊎ (contains time_wait_manager l.write_blocked_list ≡ true)
      → let s = send_or_queue_packet platform q (recorded id d t) l in
        IsHandled flags now t l s.0 s.1
  unfolding send_or_queue_packet
  sent flags now id d q t l found v waits =
      let v' = recorded-IsWellFormed flags now id d t found v in
      elim (Bool-cases (write_to_wire platform q l).1) [
        | inl consumed ↦
            let facts = write_to_wire-sent platform q l consumed in
            rw consumed (record {
              well_formed = v';
              same_ids = λ j. contains-assign j id (with_count d) t.connection_id_map;
              writers = inl (facts.1, facts.2);
              queued = rw (facts.2) waits;
            })
        | inr kept ↦
            let facts = write_to_wire_stop platform q l kept in
            rw kept (record {
              well_formed = record {
                distinct = v'.distinct;
                in_order = v'.in_order;
                dated = v'.dated;
                within = v'.within;
                armed = v'.armed;
              };
              same_ids = λ j. contains-assign j id (with_count d) t.connection_id_map;
              writers = inr (inl facts);
              queued = inr (write_to_wire-kept platform q l kept).0.1;
            })
      ]

  module _ (build_public_reset_packet : PublicResetPacket → EncryptedPacket) where
    -- A packet for a listed id is processed.
    pub process_packet-IsHandled :
        (flags : Flags) (now : ℕ) (server client : IpEndPoint) (id sequence_number : ℕ)
        (d : ConnectionIdData) (t : TimeWaitList) (l : Link)
        → find id t.connection_id_map ≡ some d
        → IsWellFormed flags now t
        → (t.pending_packets_queue ≡ []) ⊎ (contains time_wait_manager l.write_blocked_list ≡ true)
        → (s : TimeWaitList × Link) × (process_packet platform build_public_reset_packet server
              client id sequence_number t l
            ≡ some s)
          × IsHandled flags now t l s.0 s.1
    unfolding process_packet
    process_packet-IsHandled flags now server client id n d t l found v waits =
        elim (Bool-cases (should_send_response (d.num_packets + 1))) [
          | inl answered ↦ (
            send_or_queue_packet platform
                (response build_public_reset_packet (with_count d) server client id n)
                (recorded id d t) l,
            rw found (rw answered refl),
            sent flags now id d
                (response build_public_reset_packet (with_count d) server client id n) t l found v
                waits,
          )
          | inr silent ↦ (
            (recorded id d t, l),
            rw found (rw silent refl),
            record {
              well_formed = recorded-IsWellFormed flags now id d t found v;
              same_ids = λ j. contains-assign j id (with_count d) t.connection_id_map;
              writers = inr (inr refl);
              queued = waits;
            },
          )
        ]

  sent_counts :
      (q : QueuedPacket) (t : TimeWaitList) (l : Link)
      → ((send_or_queue_packet platform q t l).0.connection_id_map ≡ t.connection_id_map)
        × ((send_or_queue_packet platform q t l).0.time_wait_period ≡ t.time_wait_period)
  unfolding send_or_queue_packet
  sent_counts q t l = ground arith

  -- The packet is counted, and nothing else in the map changes.
  pub process_packet_counts :
      (build_public_reset_packet : PublicResetPacket → EncryptedPacket) (server client : IpEndPoint)
      (id sequence_number : ℕ) (d : ConnectionIdData) (t : TimeWaitList) (l : Link)
      (s : TimeWaitList × Link)
      → find id t.connection_id_map ≡ some d
      → process_packet platform build_public_reset_packet server client id sequence_number t l
        ≡ some s
      → (s.0.connection_id_map ≡ assign id (with_count d) t.connection_id_map)
        × (s.0.time_wait_period ≡ t.time_wait_period)
  unfolding process_packet
  process_packet_counts build server client id n d t l s found eq =
      elim (Bool-cases (should_send_response (d.num_packets + 1))) [
        | inl answered ↦
            let q = response build (with_count d) server client id n in
            let e : some (send_or_queue_packet platform q (recorded id d t) l) ≡ some s =
              rw (found, answered) at eq in
            let same : send_or_queue_packet platform q (recorded id d t) l ≡ s = cc e in
            let (ids, period) = sent_counts q (recorded id d t) l in
            (
              ap (λ x. x.0.connection_id_map) (sym same) ∙ ids,
              ap (λ x. x.0.time_wait_period) (sym same) ∙ period,
            )
        | inr silent ↦
            let e : some (recorded id d t, l) ≡ some s = rw (found, silent) at eq in
            let same : (recorded id d t, l) ≡ s = cc e in
            (ap (λ x. x.0.connection_id_map) (sym same), ap (λ x. x.0.time_wait_period) (sym same))
      ]
