-- ===== src/TimeWait/Add.antt =====
-- AddConnectionIdToTimeWait of net/tools/quic/quic_time_wait_list_manager.cc: the list that the call
-- leaves.
use mathlib.Core.List.{append-nil}
use quic_toy.Base.{
  ℕ, nat_eq, ◌≤◌, ◌≡◌, ◌≢◌, ◌∙◌, sym, List, [], ◌∷◌, ◌++◌, Option, some, arith, Bool, true, false,
  Bool-cases, inl, inr,
}
use quic_toy.Base.LinkedMap.{find, contains, erase, Distinct}
use quic_toy.Base.LinkedMap.Laws.{
  find-some, contains_of_find, contains-erase, find-erase, erase-Distinct, append-Distinct,
  find-append, beq_self,
}
use quic_toy.Net.{EncryptedPacket}
use quic_toy.TimeWait.{
  Flags, ConnectionIdData, ConnectionIdMap, Notice, added, TimeWaitList, packets_of,
  add_connection_id_to_time_wait, trim_time_wait_list_if_needed,
}
use quic_toy.TimeWait.Trim.{Admits, kept_by, gone_by, removals, trim-eq, with_map}
use quic_toy.TimeWait.Invariant
use quic_toy.TimeWait.Invariant.{IsWellFormed}
use quic_toy.TimeWait.Deadline.{NotBefore-append, NotBefore-kept_by, NotBefore-erase}

-- The entry for `id`: it carries on the count of an entry that it replaces.
abbrev pub entry_for : ℕ → ℕ → Option EncryptedPacket → ℕ → TimeWaitList → ConnectionIdData
entry_for id version close_packet now t = record {
  num_packets = packets_of (find id t.connection_id_map);
  version = version;
  time_added = now;
  close_packet = close_packet;
}

-- The other entries that stay.
abbrev pub survivors : Flags → ℕ → TimeWaitList → ConnectionIdMap
survivors flags id t = kept_by flags.time_wait_list_max_connections (erase id t.connection_id_map)

abbrev pub evicted : Flags → ℕ → TimeWaitList → ConnectionIdMap
evicted flags id t = gone_by flags.time_wait_list_max_connections (erase id t.connection_id_map)

abbrev pub announced : Bool → ℕ → List Notice
announced true id = []
announced false id = added id ∷ []

abbrev pub add_result : Flags → ℕ → ℕ → Option EncryptedPacket → ℕ → TimeWaitList → TimeWaitList
add_result flags id version close_packet now t =
    with_map t (survivors flags id t ++ (id, entry_for id version close_packet now t) ∷ []) (
      (t.notices ++ removals (evicted flags id t))
      ++ announced (contains id t.connection_id_map) id)

module _ (flags : Flags) (id version : ℕ) (close_packet : Option EncryptedPacket) (before now : ℕ)
    (t : TimeWaitList) (admits : Admits flags.time_wait_list_max_connections)
    (v : IsWellFormed flags before t) where
  survivors-absent : contains id (survivors flags id t) ≡ false
  survivors-absent =
      Invariant.contains-kept_by flags.time_wait_list_max_connections id
        (erase id t.connection_id_map)
        (contains-erase id id t.connection_id_map v.distinct ∙ rw (beq_self id))

  trimmed :
      trim_time_wait_list_if_needed flags
        (record t { connection_id_map = erase id t.connection_id_map })
      ≡ some (with_map t (survivors flags id t) (t.notices ++ removals (evicted flags id t)))
  trimmed =
      trim-eq flags (record t { connection_id_map = erase id t.connection_id_map }) admits
        (Invariant.Between-Dated 0 before flags.infinite _ v.dated
          (Invariant.Between-erase id 0 before t.connection_id_map v.in_order))

  -- Unless the limit is 0 the call returns: the id is listed last and dated now, with the count of
  -- packets of an entry that it replaces; of the others the oldest make room for it; and the
  -- visitor is told of each that goes, and of the id if it is new.
  pub add-eq :
      add_connection_id_to_time_wait flags id version close_packet now t
      ≡ some (add_result flags id version close_packet now t)
  unfolding add_connection_id_to_time_wait
  add-eq = elim (Bool-cases (contains id t.connection_id_map)) [
    | inl old ↦ rw trimmed (rw survivors-absent (rw (old, append-nil)))
    | inr new ↦ rw trimmed (rw survivors-absent (rw new))
  ]

  survivors-Distinct : Distinct (survivors flags id t)
  survivors-Distinct =
      Invariant.kept_by-Distinct flags.time_wait_list_max_connections _
        (erase-Distinct id t.connection_id_map v.distinct)

  pub find-result :
      find id (add_result flags id version close_packet now t).connection_id_map
      ≡ some (entry_for id version close_packet now t)
  find-result = find-append id id _ (survivors flags id t) survivors-absent ∙ rw (beq_self id)

  pub others :
      (j : ℕ) (d : ConnectionIdData)
      → id ≢ j
      → find j (add_result flags id version close_packet now t).connection_id_map ≡ some d
      → find j t.connection_id_map ≡ some d
  others j d other found = elim (Bool-cases (nat_eq.beq id j)) [
    | inl same ↦ absurd (other ((nat_eq.beq_iff id j).0 same))
    | inr apart ↦
        let survives : find j (survivors flags id t) ≡ some d =
          sym (find-append j id _ (survivors flags id t) survivors-absent ∙ rw apart) ∙ found in
        sym (find-erase j id t.connection_id_map v.distinct ∙ rw apart)
        ∙ Invariant.find-kept_by flags.time_wait_list_max_connections j _ d
            (erase-Distinct id t.connection_id_map v.distinct) survives
  ]

  -- An id that was not listed is not listed, unless it is the new one.
  pub result_absent :
      (j : ℕ)
      → id ≢ j
      → contains j t.connection_id_map ≡ false
      → contains j (add_result flags id version close_packet now t).connection_id_map ≡ false
  result_absent j other absent =
      elim (Bool-cases
        (contains j (add_result flags id version close_packet now t).connection_id_map)) [
          | inl listed ↦
              let (d, found) = find-some j _ listed in
              cc (contains_of_find j t.connection_id_map d (others j d other found), absent)
          | inr gone ↦ gone
        ]

  pub result-IsWellFormed :
      before ≤ now
      → now ≤ flags.infinite
      → IsWellFormed flags now (add_result flags id version close_packet now t)
  result-IsWellFormed h k = record {
    distinct = append-Distinct id _ (survivors flags id t) survivors-absent survivors-Distinct;
    in_order =
        Invariant.Between-append 0 before now (survivors flags id t) id _
          (Invariant.kept_by-Between flags.time_wait_list_max_connections 0 before _
            (Invariant.Between-erase id 0 before t.connection_id_map v.in_order))
          h (omega arith);
    dated = k;
    within =
        Invariant.kept_by-room flags.time_wait_list_max_connections (erase id t.connection_id_map) _
          admits;
    armed =
        let (deadline, set, soon, due) = v.armed in
        let period = t.time_wait_period in
        (
          deadline,
          set,
          omega (arith, h, soon),
          NotBefore-append deadline period (survivors flags id t) id _
              (NotBefore-kept_by deadline period flags.time_wait_list_max_connections _
                (NotBefore-erase deadline period id t.connection_id_map due))
              (omega (arith, h, soon)),
        );
  }

  -- The call keeps a well-formed list well formed, where the clock has not gone back and the
  -- limit is not 0: no id twice, times in order, and no more entries than the limit. The id is
  -- then listed with its new entry, and every other id that is listed has the entry that it had.
  pub add-IsWellFormed :
      before ≤ now
      → now ≤ flags.infinite
      → (t' : TimeWaitList) × (add_connection_id_to_time_wait flags id version close_packet now t
          ≡ some t')
        × IsWellFormed flags now t'
        × (find id t'.connection_id_map ≡ some (entry_for id version close_packet now t))
        × ((j : ℕ) (d : ConnectionIdData)
            → id ≢ j
            → find j t'.connection_id_map ≡ some d
            → find j t.connection_id_map ≡ some d)
  add-IsWellFormed h k = (
    add_result flags id version close_packet now t,
    add-eq,
    result-IsWellFormed h k,
    find-result,
    others,
  )
