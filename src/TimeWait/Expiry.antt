-- ===== src/TimeWait/Expiry.antt =====
-- CleanUpOldConnectionIds: which entries go, and when the alarm is set to fire next.
use mathlib.Core.List.{append-nil, append_assoc}
use quic_toy.Base.{
  ℕ, zero, suc, nat_eq, ◌+◌, ◌≤◌, ◌<◌, ◌≡◌, refl, ◌∙◌, List, [], ◌∷◌, ◌++◌, none, some, arith, true,
  false, Bool-cases, inl, inr, if◌then◌else◌, length,
}
use quic_toy.Base.Int.{sub_ℕ}
use quic_toy.Base.LinkedMap.{find}
use quic_toy.TimeWait.{
  clean_up_deadline, Flags, ConnectionIdData, ConnectionIdMap, Notice, removed, TimeWaitList,
  expire_loop, clean_up_old_connection_ids, set_connection_id_clean_up_alarm, num_connections,
}
use quic_toy.TimeWait.Trim.{removals, with_map}
use quic_toy.TimeWait.Fresh.{
  is_stale, fresh_ones, stale_ones, fresh_ones-all, find-fresh_ones, fresh-IsWellFormed,
}
use quic_toy.TimeWait.Invariant.{NotBefore, IsWellFormed, Between, Between-le, Between-later}

expire_fresh :
    (fuel start period : ℕ) (t : TimeWaitList) (id : ℕ) (d : ConnectionIdData) (m : ConnectionIdMap)
    (ns : List Notice)
    → is_stale start period d ≡ false
    → expire_loop (suc fuel) (sub_ℕ start period) (with_map t ((id, d) ∷ m) ns)
      ≡ some (with_map t ((id, d) ∷ m) ns)
unfolding expire_loop
expire_fresh fuel start period t id d m ns h = ground arith

expire_stale :
    (fuel start period : ℕ) (t : TimeWaitList) (id : ℕ) (d : ConnectionIdData) (m : ConnectionIdMap)
    (ns : List Notice)
    → is_stale start period d ≡ true
    → expire_loop (suc fuel) (sub_ℕ start period) (with_map t ((id, d) ∷ m) ns)
      ≡ expire_loop fuel (sub_ℕ start period) (with_map t m (ns ++ removed id ∷ []))
unfolding expire_loop
expire_stale fuel start period t id d m ns h = ground arith

pub expire_loop-eq :
    (fuel start period low now : ℕ) (t : TimeWaitList) (m : ConnectionIdMap) (ns : List Notice)
    → Between low now m
    → length m ≤ fuel
    → expire_loop (suc fuel) (sub_ℕ start period) (with_map t m ns)
      ≡ some (with_map t (fresh_ones start period m) (ns ++ removals (stale_ones start period m)))
expire_loop-eq fuel start period low now t [] ns b h = unfold expire_loop in rw append-nil
expire_loop-eq zero start period low now t ((id, d) ∷ m) ns b h = absurd (omega arith)
expire_loop-eq (suc fuel) start period low now t ((id, d) ∷ m) ns b h =
    elim (Bool-cases (is_stale start period d)) [
      | inl old ↦
          expire_stale (suc fuel) start period t id d m ns old
          ∙ expire_loop-eq fuel start period d.time_added now t m (ns ++ removed id ∷ []) b.1
              (omega arith)
          ∙ rw (old, append_assoc)
      | inr new ↦
          let rest = fresh_ones-all start period d.time_added now m (ground arith) b.1 in
          expire_fresh (suc fuel) start period t id d m ns new
          ∙ rw (new, rest.0, rest.1, append-nil)
    ]

-- The call returns for a list that is well formed. Exactly the entries whose period is over at
-- `start` are gone, wherever they stood, the visitor is told of each in order, and the alarm is
-- set anew.
pub clean_up-eq :
    (flags : Flags) (before start now later : ℕ) (t : TimeWaitList)
    → IsWellFormed flags before t
    → clean_up_old_connection_ids start now later t
      ≡ some (
          set_connection_id_clean_up_alarm now later (
            with_map t
              (fresh_ones start t.time_wait_period t.connection_id_map)
              (t.notices ++ removals (stale_ones start t.time_wait_period t.connection_id_map))))
unfolding clean_up_old_connection_ids num_connections
clean_up-eq flags before start now later t v = rw (
    expire_loop-eq (length t.connection_id_map) start t.time_wait_period 0 before t
      t.connection_id_map t.notices v.in_order (omega arith))

Between-NotBefore :
    (deadline period low now : ℕ) (m : ConnectionIdMap)
    → deadline ≤ low + period
    → Between low now m
    → NotBefore deadline period m
Between-NotBefore deadline period low now [] h b = tt
Between-NotBefore deadline period low now ((j, d) ∷ m) h b =
    (omega arith, Between-NotBefore deadline period d.time_added now m (omega arith) b.1)

-- The alarm's time, for a map from which the stale entries are gone.
deadline_bounds :
    (period low now : ℕ) (m : ConnectionIdMap)
    → Between low now m
    → let deadline = clean_up_deadline period now now (fresh_ones now period m) in
      (0 < period → now < deadline)
      × (deadline ≤ now + period)
      × NotBefore deadline period (fresh_ones now period m)
unfolding clean_up_deadline
deadline_bounds period low now [] b = (λ h. omega (arith, h), omega arith, tt)
deadline_bounds period low now ((id, d) ∷ m) b = elim (Bool-cases (is_stale now period d)) [
  | inl old ↦ rw old (deadline_bounds period d.time_added now m b.1)
  | inr new ↦
      let at_expiry : clean_up_deadline period now now ((id, d) ∷ m) ≡ d.time_added + period =
        ground (arith, Between-le d.time_added now m b.1) in
      rw (new, (fresh_ones-all now period d.time_added now m (ground arith) b.1).0)
        (rw at_expiry (
          λ h. ground arith,
          omega (arith, Between-le d.time_added now m b.1),
          (omega arith, Between-NotBefore _ period d.time_added now m (omega arith) b.1),
        ))
]

-- The list that a clean-up leaves, before and after the alarm is set anew.
abbrev swept : ℕ → TimeWaitList → TimeWaitList
swept now t =
    with_map t (fresh_ones now t.time_wait_period t.connection_id_map)
      (t.notices ++ removals (stale_ones now t.time_wait_period t.connection_id_map))

abbrev pub clean_up_result : ℕ → TimeWaitList → TimeWaitList
clean_up_result now t = set_connection_id_clean_up_alarm now now (swept now t)

pub result-IsWellFormed :
    (flags : Flags) (before now : ℕ) (t : TimeWaitList)
    → IsWellFormed flags before t
    → before ≤ now
    → now ≤ flags.infinite
    → IsWellFormed flags now (clean_up_result now t)
unfolding set_connection_id_clean_up_alarm
result-IsWellFormed flags before now t v h k =
    let left = fresh-IsWellFormed flags before now t (swept now t).notices v h k in
    let ordered = Between-later 0 before now t.connection_id_map h v.in_order in
    let (after, soon, due) = deadline_bounds t.time_wait_period 0 now t.connection_id_map ordered in
    record {
      distinct = left.distinct;
      in_order = left.in_order;
      dated = left.dated;
      within = left.within;
      armed = (_, refl, soon, due);
    }

-- After a clean-up of a well-formed list, with a clock that has not gone back and a period that
-- is not 0, the list is well formed, and the alarm is set for a time that is after now, at most
-- one period away, and no later than the expiry of any entry that is left; an id is listed
-- exactly if it was and its period is not over.
pub clean_up-IsWellFormed :
    (flags : Flags) (before now : ℕ) (t : TimeWaitList)
    → IsWellFormed flags before t
    → before ≤ now
    → now ≤ flags.infinite
    → 0 < t.time_wait_period
    → (t' : TimeWaitList) × (deadline : ℕ) × (clean_up_old_connection_ids now now now t ≡ some t')
      × IsWellFormed flags now t'
      × (t'.clean_up_alarm ≡ some deadline)
      × (now < deadline)
      × (deadline ≤ now + t.time_wait_period)
      × NotBefore deadline t.time_wait_period t'.connection_id_map
      × ((id : ℕ)
          → find id t'.connection_id_map ≡ elim (find id t.connection_id_map) [
            | none ↦ none
            | some d ↦ if is_stale now t.time_wait_period d then none else some d
          ])
unfolding set_connection_id_clean_up_alarm
clean_up-IsWellFormed flags before now t v h k p =
    let ordered = Between-later 0 before now t.connection_id_map h v.in_order in
    let (after, soon, due) = deadline_bounds t.time_wait_period 0 now t.connection_id_map ordered in
    (
      clean_up_result now t,
      _,
      clean_up-eq flags before now now now t v,
      result-IsWellFormed flags before now t v h k,
      refl,
      after p,
      soon,
      due,
      λ id. find-fresh_ones now t.time_wait_period id t.connection_id_map v.distinct,
    )
