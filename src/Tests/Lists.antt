-- ===== src/Tests/Lists.antt =====
-- The time-wait list, applied.
use quic_toy.TimeWait.Expiry.{clean_up-IsWellFormed, clean_up-eq}
use quic_toy.TimeWait.Fresh.{is_stale, stale_ones, fresh_ones}
use quic_toy.TimeWait.Trim.{trim-eq, gone_by, removals, kept_by, with_map}
use quic_toy.TimeWait.Add.{add-IsWellFormed, entry_for}
use quic_toy.TimeWait.Throttle.{
  should_send_response_iff, IsPowerOfTwo, answers-log, answers, powers,
}
use quic_toy.TimeWait.Sending.{
  send_or_queue-IsAwaited, on_can_write-IsDelivery, IsAwaited, IsDelivery,
}
use quic_toy.TimeWait.Late.{process_packets-IsThrottled, IsThrottled, process_packets}
use quic_toy.TimeWait.Invariant.{IsWellFormed, NotBefore}
use quic_toy.Base.LinkedMap.{find}
use quic_toy.Base.Int.{pos}
use quic_toy.TimeWait.{QueuedPacket, TimeWaitList, ConnectionIdData, Flags}
use quic_toy.Writer.{Link}
use quic_toy.Base.{
  ◌+◌, nat_eq, ◌≤◌, ◌↔◌, ◌<◌, ◌++◌, ◌≢◌, ◌≡◌, inl, arith, if◌then◌else◌, true, none, some, [], ℕ,
  ◌∷◌, refl,
}
use quic_toy.TimeWait
use quic_toy.TimeWait.{should_send_response}
use quic_toy.Tests.{
  flags, platform, framer, ended, ended_list, free_link, ended_list-IsWellFormed, late,
  answer_to_peer, waiting_list,
}

add-IsWellFormed_example :
    (t' : TimeWaitList) × (TimeWait.add_connection_id_to_time_wait flags 5 24 none 1_000 ended_list
      ≡ some t')
    × IsWellFormed flags 1_000 t'
    × (find 5 t'.connection_id_map ≡ some (entry_for 5 24 none 1_000 ended_list))
    × ((j : ℕ) (e : ConnectionIdData)
        → 5 ≢ j
        → find j t'.connection_id_map ≡ some e
        → find j ended_list.connection_id_map ≡ some e)
add-IsWellFormed_example =
    add-IsWellFormed flags 5 24 none 1_000 1_000 ended_list (omega arith) ended_list-IsWellFormed
      (omega arith) (omega arith)

trim-eq_example :
    TimeWait.trim_time_wait_list_if_needed flags ended_list
    ≡ some (
        with_map ended_list
          (kept_by (pos 600) ended_list.connection_id_map)
          ([] ++ removals (gone_by (pos 600) ended_list.connection_id_map)))
trim-eq_example = trim-eq flags ended_list (omega arith) (omega arith, tt)

clean_up-eq_example :
    TimeWait.clean_up_old_connection_ids 1_400 1_401 1_402 ended_list
    ≡ some (
        TimeWait.set_connection_id_clean_up_alarm 1_401 1_402 (
          with_map ended_list
            (fresh_ones 1_400 500 ended_list.connection_id_map)
            ([] ++ removals (stale_ones 1_400 500 ended_list.connection_id_map))))
clean_up-eq_example = clean_up-eq flags 1_000 1_400 1_401 1_402 ended_list ended_list-IsWellFormed

clean_up-IsWellFormed_example :
    (t' : TimeWaitList) × (deadline : ℕ) × (TimeWait.clean_up_old_connection_ids 1_400 1_400 1_400
        ended_list
      ≡ some t')
    × IsWellFormed flags 1_400 t'
    × (t'.clean_up_alarm ≡ some deadline)
    × (1_400 < deadline)
    × (deadline ≤ 1_400 + 500)
    × NotBefore deadline 500 t'.connection_id_map
    × ((id : ℕ)
        → find id t'.connection_id_map ≡ elim (find id ended_list.connection_id_map) [
          | none ↦ none
          | some d ↦ if is_stale 1_400 500 d then none else some d
        ])
clean_up-IsWellFormed_example =
    clean_up-IsWellFormed flags 1_000 1_400 ended_list ended_list-IsWellFormed (omega arith)
      (omega arith) (omega arith)

on_can_write-IsDelivery_example :
    IsDelivery platform waiting_list.pending_packets_queue
      (TimeWait.on_can_write platform waiting_list free_link).0.pending_packets_queue
      free_link
      (TimeWait.on_can_write platform waiting_list free_link).1
on_can_write-IsDelivery_example = on_can_write-IsDelivery platform waiting_list free_link

send_or_queue-IsAwaited_example :
    IsAwaited platform
      (TimeWait.send_or_queue_packet platform answer_to_peer ended_list free_link).0
      (TimeWait.send_or_queue_packet platform answer_to_peer ended_list free_link).1
send_or_queue-IsAwaited_example =
    send_or_queue-IsAwaited platform answer_to_peer ended_list free_link (inl refl)

should_send_response_iff_example : (should_send_response 8 ≡ true) ↔ IsPowerOfTwo 8
should_send_response_iff_example = should_send_response_iff 8 (omega arith)

answers-log_example : answers 0 5 ≡ 3
answers-log_example = answers-log 5 2 (omega arith) (omega arith)

process_packets-IsThrottled_example :
    (s : TimeWaitList × Link) × (process_packets platform framer.build_public_reset_packet 8
        (late ∷ late ∷ [])
        ended_list
        free_link
      ≡ some s)
    × IsThrottled platform framer.build_public_reset_packet 8 2
        (powers 3 2)
        ended
        (ended_list, free_link)
        s
process_packets-IsThrottled_example =
    process_packets-IsThrottled platform framer.build_public_reset_packet 8 (late ∷ late ∷ [])
      ended_list free_link ended (unfold find in refl)
