-- ===== src/TimeWait/Late.antt =====
-- ProcessPacket over a run of late packets for one id.
use quic_toy.Base.{
  length-snoc, ℕ, suc, ◌+◌, ◌≤◌, ◌≡◌, refl, ◌∙◌, List, [], ◌∷◌, Option, some, arith, true, false,
  Bool-cases, inl, inr, ◌>>=◌, length, nat_eq,
}
use quic_toy.Base.LinkedMap.{find, assign}
use quic_toy.Base.LinkedMap.Laws.{find-assign, contains_of_find, beq_self}
use quic_toy.Net.{IpEndPoint, EncryptedPacket}
use quic_toy.Writer.{Platform, Link}
use quic_toy.TimeWait.{
  ConnectionIdData, QueuedPacket, TimeWaitList, PublicResetPacket, should_send_response,
  send_or_queue_packet, response, process_packet,
}
use quic_toy.TimeWait.Sending.{message_of}
use quic_toy.TimeWait.Throttle.{answer, answers, powers, answers-eq-powers}

-- A packet that came for an id in time wait.
pub record LatePacket : Type 0 where
  pub server_address : IpEndPoint
  pub client_address : IpEndPoint
  pub sequence_number : ℕ

-- What has been handed to the socket or is waiting for it.
abbrev pub attempts_made : TimeWaitList × Link → ℕ
attempts_made (t, l) = length l.attempts

abbrev pub answers_queued : TimeWaitList × Link → ℕ
answers_queued (t, l) = length t.pending_packets_queue

module _ (platform : Platform)
    (build_public_reset_packet : PublicResetPacket → EncryptedPacket) where
  pub process_packets : ℕ → List LatePacket → TimeWaitList → Link → Option (TimeWaitList × Link)
  process_packets id [] t l = some (t, l)
  process_packets id (p ∷ ps) t l = do
    (t', l') ←
        process_packet platform build_public_reset_packet p.server_address p.client_address id
          p.sequence_number t l
    process_packets id ps t' l'

  one_answer :
      (q : QueuedPacket) (t : TimeWaitList) (l : Link)
      → let s = send_or_queue_packet platform q t l in
        (attempts_made s ≤ suc (attempts_made (t, l)))
        × (answers_queued s ≤ suc (answers_queued (t, l)))
        × (suc (attempts_made (t, l) + answers_queued (t, l)) ≤ attempts_made s + answers_queued s)
        × (s.0.connection_id_map ≡ t.connection_id_map)
  unfolding send_or_queue_packet
  one_answer q t l = ground (
    arith,
    length-snoc t.pending_packets_queue q,
    length-snoc l.attempts (record {
      message = message_of platform q;
      result = platform.sendmsg l.attempts l.fd (message_of platform q);
    }),
  )

  -- What n late packets for a listed id come to, from the count that the id has, with so many sent.
  pub record IsThrottled (id n sent : ℕ) (d : ConnectionIdData) (s s' : TimeWaitList × Link)
      : Type 0 where
    pub counted :
        find id s'.0.connection_id_map ≡ some (record d { num_packets = d.num_packets + n })
    pub attempts_bound : attempts_made s' ≤ attempts_made s + sent
    pub queue_bound : answers_queued s' ≤ answers_queued s + sent
    pub answered : attempts_made s + answers_queued s + sent ≤ attempts_made s' + answers_queued s'

  count_up : ConnectionIdData → ConnectionIdData
  count_up d = record d { num_packets = d.num_packets + 1 }

  counted_list : ℕ → ConnectionIdData → TimeWaitList → TimeWaitList
  counted_list id d t = record t { connection_id_map = assign id (count_up d) t.connection_id_map }

  find-counted_list :
      (id : ℕ) (d : ConnectionIdData) (t : TimeWaitList)
      → find id t.connection_id_map ≡ some d
      → find id (counted_list id d t).connection_id_map ≡ some (count_up d)
  unfolding counted_list
  find-counted_list id d t e =
      find-assign id id (count_up d) t.connection_id_map
        (contains_of_find id t.connection_id_map d e)
      ∙ rw (beq_self id)

  answers-one : (count : ℕ) → answers count 1 ≡ answer (count + 1)
  unfolding answers
  answers-one count = let up : suc count ≡ count + 1 = omega arith in rw up (omega arith)

  answers_step : (count n : ℕ) → answers count (suc n) ≡ answer (count + 1) + answers (count + 1) n
  unfolding answers
  answers_step count n = let up : suc count ≡ count + 1 = omega arith in rw up

  process_answered :
      (p : LatePacket) (id : ℕ) (t : TimeWaitList) (l : Link) (d : ConnectionIdData)
      → find id t.connection_id_map ≡ some d
      → should_send_response (d.num_packets + 1) ≡ true
      → process_packet platform build_public_reset_packet p.server_address p.client_address id
          p.sequence_number t l
        ≡ some (
            send_or_queue_packet platform
              (response build_public_reset_packet
                (count_up d)
                p.server_address
                p.client_address
                id
                p.sequence_number)
              (counted_list id d t)
              l)
  unfolding process_packet counted_list count_up
  process_answered p id t l d e sent = rw e (rw sent)

  process_silent :
      (p : LatePacket) (id : ℕ) (t : TimeWaitList) (l : Link) (d : ConnectionIdData)
      → find id t.connection_id_map ≡ some d
      → should_send_response (d.num_packets + 1) ≡ false
      → process_packet platform build_public_reset_packet p.server_address p.client_address id
          p.sequence_number t l
        ≡ some (counted_list id d t, l)
  unfolding process_packet counted_list count_up
  process_silent p id t l d e silent = rw e (rw silent)

  step :
      (p : LatePacket) (id : ℕ) (t : TimeWaitList) (l : Link) (d : ConnectionIdData)
      → find id t.connection_id_map ≡ some d
      → (s : TimeWaitList × Link) × (process_packet platform build_public_reset_packet
            p.server_address p.client_address id p.sequence_number t l
          ≡ some s)
        × IsThrottled id 1 (answers d.num_packets 1) d (t, l) s
  step p id t l d e = elim (Bool-cases (should_send_response (d.num_packets + 1))) [
    | inl sent ↦
        let q =
          response build_public_reset_packet (count_up d) p.server_address p.client_address id
            p.sequence_number in
        let (made, queued, total, kept) = one_answer q (counted_list id d t) l in
        let one : answers d.num_packets 1 ≡ 1 =
          answers-one d.num_packets ∙ (unfold answer in rw sent) in
        (
          _,
          process_answered p id t l d e sent,
          unfold counted_list count_up in
              record {
                counted = rw kept (find-counted_list id d t e);
                attempts_bound = rw one (omega arith);
                queue_bound = rw one (omega arith);
                answered = rw one (omega arith);
              },
        )
    | inr silent ↦
        let nothing : answers d.num_packets 1 ≡ 0 =
          answers-one d.num_packets ∙ (unfold answer in rw silent) in
        (
          _,
          process_silent p id t l d e silent,
          unfold counted_list count_up in
              record {
                counted = find-counted_list id d t e;
                attempts_bound = rw nothing (omega arith);
                queue_bound = rw nothing (omega arith);
                answered = rw nothing (omega arith);
              },
        )
  ]

  process_packets-answered :
      (id : ℕ) (ps : List LatePacket) (t : TimeWaitList) (l : Link) (d : ConnectionIdData)
      → find id t.connection_id_map ≡ some d
      → (s : TimeWaitList × Link) × (process_packets id ps t l ≡ some s)
        × IsThrottled id (length ps) (answers d.num_packets (length ps)) d (t, l) s
  unfolding process_packets
  process_packets-answered id [] t l d e =
      let same : d.num_packets + 0 ≡ d.num_packets = omega arith in
      (
        _,
        refl,
        record {
          counted = rw same e;
          attempts_bound = omega arith;
          queue_bound = omega arith;
          answered = unfold answers in omega arith;
        },
      )
  process_packets-answered id (p ∷ ps) t l d e =
      let ((t', l'), first, one) = step p id t l d e in
      let (s, rest, many) =
        process_packets-answered id ps t' l' (record d { num_packets = d.num_packets + 1 })
          one.counted in
      let up : d.num_packets + suc (length ps) ≡ d.num_packets + 1 + length ps = omega arith in
      let split = answers_step d.num_packets (length ps) in
      let single = answers-one d.num_packets in
      (
        s,
        rw first rest,
        record {
          counted = rw up many.counted;
          attempts_bound = omega (arith, one.attempts_bound, many.attempts_bound, split, single);
          queue_bound = omega (arith, one.queue_bound, many.queue_bound, split, single);
          answered = omega (arith, one.answered, many.answered, split, single);
        },
      )

  -- Any run of n late packets for a listed id is processed. The id's count grows by n; and as many
  -- answers as there are powers of two among the new counts are handed to the socket or queued,
  -- and no more than those are handed to it, or queued.
  pub process_packets-IsThrottled :
      (id : ℕ) (ps : List LatePacket) (t : TimeWaitList) (l : Link) (d : ConnectionIdData)
      → find id t.connection_id_map ≡ some d
      → (s : TimeWaitList × Link) × (process_packets id ps t l ≡ some s)
        × IsThrottled id (length ps) (powers d.num_packets (length ps)) d (t, l) s
  process_packets-IsThrottled id ps t l d e =
      rw (← answers-eq-powers d.num_packets (length ps)) (process_packets-answered id ps t l d e)
