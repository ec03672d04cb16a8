-- ===== src/TimeWait/Performed.antt =====
-- One operation of net/tools/quic/quic_time_wait_list_manager.cc on the list, and on a table of ids.
use quic_toy.Base.{
  ℕ, [], ◌∷◌, Option, none, some, true, false, ◌≡◌, refl, ap, ◌∙◌, ◌⊎◌, ◌+◌, ◌≤◌, inl, inr, arith,
  Bool-cases, nat_beq, nat_eq, if◌then◌else◌,
}
use quic_toy.Base.Int.{negsuc}
use quic_toy.Base.LinkedMap.{find, contains, erase}
use quic_toy.Base.LinkedMap.Laws.{
  find-append, find-erase, contains-erase, find-assign, find-none, find-some, beq_self,
}
use quic_toy.Net.{IpEndPoint, EncryptedPacket}
use quic_toy.Writer.{writer_eq, Platform, time_wait_manager}
use quic_toy.TimeWait.{
  ConnectionIdMap, Flags, TimeWaitList, PublicResetPacket, is_connection_id_in_time_wait,
  ConnectionIdData, set_connection_id_clean_up_alarm,
}
use quic_toy.TimeWait.Trim.{Admits}
use quic_toy.TimeWait.Invariant.{IsWellFormed, Between-later}
use quic_toy.TimeWait.Add.{add-eq, add_result, survivors, entry_for, result-IsWellFormed}
use quic_toy.TimeWait.Fresh.{is_stale, find-fresh_ones}
use quic_toy.TimeWait.Expiry.{clean_up-eq, clean_up_result}
use quic_toy.TimeWait.Expiry
use quic_toy.TimeWait.Handled.{with_count, process_packet-IsHandled, process_packet_counts}
use quic_toy.TimeWait.Abstract.{
  Op, adds, cleans_up, receives, passes, duration, Manager, perform, Table, replay_one, counted,
  unless_stale,
}

abbrev pub table : Manager → Table
table m j = find j m.list.connection_id_map

unless_stale-eq :
    (now period : ℕ) (o : Option ConnectionIdData)
    → elim o [ none ↦ none | some d ↦ if is_stale now period d then none else some d ]
      ≡ unless_stale now period o
unless_stale-eq now period none = refl
unless_stale-eq now period (some d) = refl

unlisted_counts :
    (id j : ℕ) (m : ConnectionIdMap)
    → contains id m ≡ false
    → find j m ≡ (if nat_beq id j then counted (find id m) else find j m)
unlisted_counts id j m unlisted = elim (Bool-cases (nat_beq id j)) [
  | inr other ↦ rw other refl
  | inl same ↦
      let e : id ≡ j = (nat_eq.beq_iff id j).0 same in
      let missing = find-none id m unlisted in rw (same, missing) (rw e at missing)
]

module _ (flags : Flags) (n : ℕ) (unlimited : flags.time_wait_list_max_connections ≡ negsuc n) where
  admits : Admits flags.time_wait_list_max_connections
  admits = rw unlimited tt

  -- With no limit a new entry takes the place of the old one, and no other entry changes.
  find-add_result :
      (id version : ℕ) (close_packet : Option EncryptedPacket) (now j : ℕ) (t : TimeWaitList)
      → IsWellFormed flags now t
      → find j (add_result flags id version close_packet now t).connection_id_map ≡ (
          if nat_beq id j
          then some (entry_for id version close_packet now t)
          else find j t.connection_id_map)
  find-add_result id version close_packet now j t v =
      let kept : survivors flags id t ≡ erase id t.connection_id_map = rw unlimited refl in
      let gone : contains id (erase id t.connection_id_map) ≡ false =
        contains-erase id id t.connection_id_map v.distinct ∙ rw (beq_self id) in
      rw kept (
        find-append j id (entry_for id version close_packet now t) (erase id t.connection_id_map)
          gone
        ∙ rw (find-erase j id t.connection_id_map v.distinct) (ground arith))

  module _ (platform : Platform) (build : PublicResetPacket → EncryptedPacket) (period : ℕ) where
    pub record IsSound (m : Manager) : Type 0 where
      pub list : IsWellFormed flags m.now m.list
      pub queued :
          (m.list.pending_packets_queue ≡ [])
          ⊎ (contains time_wait_manager m.link.write_blocked_list ≡ true)
      pub same_period : m.list.time_wait_period ≡ period

    -- What an operation comes to.
    pub record Refines (o : Op) (m m' : Manager) : Type 0 where
      pub performed : perform platform build flags o m ≡ some m'
      pub sound : IsSound m'
      pub timed : m'.now ≡ m.now + duration (o ∷ [])
      pub reads : (j : ℕ) → table m' j ≡ replay_one period m.now o (table m) j

    pub adds-Refines :
        (id version : ℕ) (close_packet : Option EncryptedPacket) (m : Manager)
        → IsSound m
        → (m' : Manager) × Refines (adds id version close_packet) m m'
    unfolding perform
    adds-Refines id version close_packet m v =
        let t = add_result flags id version close_packet m.now m.list in
        (
          record m { list = t },
          record {
            performed =
                rw (add-eq flags id version close_packet m.now m.now m.list admits v.list) refl;
            sound = record {
              list =
                  result-IsWellFormed flags id version close_packet m.now m.now m.list admits v.list
                    (omega arith) v.list.dated;
              queued = v.queued;
              same_period = v.same_period;
            };
            timed = omega arith;
            reads = λ j. find-add_result id version close_packet m.now j m.list v.list;
          },
        )

    pub cleans_up-Refines : (m : Manager) → IsSound m → (m' : Manager) × Refines cleans_up m m'
    unfolding perform set_connection_id_clean_up_alarm
    cleans_up-Refines m v = (
      record m { list = clean_up_result m.now m.list },
      record {
        performed = rw (clean_up-eq flags m.now m.now m.now m.now m.list v.list) refl;
        sound = record {
          list =
              Expiry.result-IsWellFormed flags m.now m.now m.list v.list (omega arith) v.list.dated;
          queued = v.queued;
          same_period = v.same_period;
        };
        timed = omega arith;
        reads = λ j.
            find-fresh_ones m.now m.list.time_wait_period j m.list.connection_id_map v.list.distinct
            ∙ unless_stale-eq m.now m.list.time_wait_period (table m j)
            ∙ ap (λ p. unless_stale m.now p (table m j)) v.same_period;
      },
    )

    pub receives-Refines :
        (server client : IpEndPoint) (id sequence_number : ℕ) (m : Manager)
        → IsSound m
        → (m' : Manager) × Refines (receives server client id sequence_number) m m'
    unfolding perform is_connection_id_in_time_wait
    receives-Refines server client id sequence_number m v =
        elim (Bool-cases (contains id m.list.connection_id_map)) [
          | inr unlisted ↦ (
            m,
            record {
              performed = rw unlisted refl;
              sound = v;
              timed = omega arith;
              reads = λ j. unlisted_counts id j m.list.connection_id_map unlisted;
            },
          )
          | inl listed ↦
              let (d, found) = find-some id m.list.connection_id_map listed in
              let ((t, l), eq, handled) =
                process_packet-IsHandled platform build flags m.now server client id sequence_number
                  d m.list m.link found v.list v.queued in
              let (same_map, kept) =
                process_packet_counts platform build server client id sequence_number d m.list
                  m.link (t, l) found eq in
              (
                record m { list = t; link = l },
                record {
                  performed = rw (listed, eq) refl;
                  sound = record {
                    list = handled.well_formed;
                    queued = handled.queued;
                    same_period = kept ∙ v.same_period;
                  };
                  timed = omega arith;
                  reads = λ j.
                      ap (find j) same_map
                      ∙ find-assign j id (with_count d) m.list.connection_id_map listed
                      ∙ rw found refl;
                },
              )
        ]

    pub passes-Refines :
        (time : ℕ) (m : Manager)
        → IsSound m
        → m.now + time ≤ flags.infinite
        → (m' : Manager) × Refines (passes time) m m'
    unfolding perform
    passes-Refines time m v k =
        let (deadline, set, soon, due) = v.list.armed in
        (
          record m { now = m.now + time },
          record {
            performed = refl;
            sound = record {
              list = record {
                distinct = v.list.distinct;
                in_order =
                    Between-later 0 m.now (m.now + time) m.list.connection_id_map (omega arith)
                      v.list.in_order;
                dated = k;
                within = v.list.within;
                armed = (deadline, set, omega (arith, soon), due);
              };
              queued = v.queued;
              same_period = v.same_period;
            };
            timed = omega arith;
            reads = λ j. refl;
          },
        )
