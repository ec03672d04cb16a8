-- ===== src/TimeWait/Trim.antt =====
-- TrimTimeWaitListIfNeeded: the loop's result in closed form, and when it does not end.
use mathlib.Core.List.{append-nil, append_assoc}
use native.Mathlib.Decide.{dec_le}
use quic_toy.Base.{
  ℕ, zero, suc, ◌-◌, ◌≤◌, ◌<◌, ◌≡◌, refl, ap, ◌∙◌, List, [], ◌∷◌, ◌++◌, none, some, arith, length,
  take, drop, All,
}
use quic_toy.Base.Int.{ℤ, pos, negsuc}
use quic_toy.TimeWait.{
  Flags, ConnectionIdData, ConnectionIdMap, Notice, removed, TimeWaitList, trim_loop,
  trim_time_wait_list_if_needed, maybe_expire_oldest_connection, num_connections,
}

-- The manager with another map and other notices.
abbrev pub with_map : TimeWaitList → ConnectionIdMap → List Notice → TimeWaitList
with_map t m notices = record t { connection_id_map = m; notices = notices }

abbrev pub removals : ConnectionIdMap → List Notice
removals [] = []
removals ((id, d) ∷ m) = removed id ∷ removals m

-- No entry is dated after the end of time.
abbrev pub Dated : ℕ → ConnectionIdMap → Type 0
Dated infinite = All (λ entry. entry.1.time_added ≤ infinite)

-- How many entries must go until fewer than `max` are left.
abbrev pub excess : ℕ → ConnectionIdMap → ℕ
excess max m = suc (length m) - max

expire_front-eq :
    (flags : Flags) (t : TimeWaitList) (id : ℕ) (d : ConnectionIdData) (m : ConnectionIdMap)
    (ns : List Notice)
    → d.time_added ≤ flags.infinite
    → (maybe_expire_oldest_connection (pos flags.infinite) (with_map t ((id, d) ∷ m) ns)).0
      ≡ with_map t m (ns ++ removed id ∷ [])
unfolding maybe_expire_oldest_connection
expire_front-eq flags t id d m ns h = ground arith

trim_loop_stop :
    (fuel : ℕ) (flags : Flags) (max : ℕ) (t : TimeWaitList)
    → length t.connection_id_map < max
    → trim_loop (suc fuel) flags max t ≡ some t
unfolding trim_loop
trim_loop_stop fuel flags max t h = ground arith

trim_loop_next :
    (fuel : ℕ) (flags : Flags) (max : ℕ) (t : TimeWaitList)
    → max ≤ length t.connection_id_map
    → trim_loop (suc fuel) flags max t
      ≡ trim_loop fuel flags max (maybe_expire_oldest_connection (pos flags.infinite) t).0
unfolding trim_loop
trim_loop_next fuel flags max t h = ground arith

drop-excess :
    (max : ℕ) (e : ℕ × ConnectionIdData) (m : ConnectionIdMap)
    → max ≤ suc (length m)
    → (drop (excess max (e ∷ m)) (e ∷ m) ≡ drop (excess max m) m)
      × (take (excess max (e ∷ m)) (e ∷ m) ≡ e ∷ take (excess max m) m)
drop-excess max e m h =
    let more : excess max (e ∷ m) ≡ suc (excess max m) = omega arith in (rw more, rw more)

pub trim_loop-eq :
    (fuel : ℕ) (flags : Flags) (max : ℕ) (t : TimeWaitList) (m : ConnectionIdMap) (ns : List Notice)
    → 0 < max
    → Dated flags.infinite m
    → length m ≤ fuel
    → trim_loop (suc fuel) flags max (with_map t m ns)
      ≡ some (with_map t (drop (excess max m) m) (ns ++ removals (take (excess max m) m)))
trim_loop-eq fuel flags max t [] ns pos_max dated h =
    let none_over : 1 - max ≡ 0 = omega arith in
    trim_loop_stop fuel flags max (with_map t [] ns) pos_max ∙ rw (none_over, append-nil)
trim_loop-eq zero flags max t ((id, d) ∷ m) ns pos_max dated h = absurd (omega arith)
trim_loop-eq (suc fuel) flags max t ((id, d) ∷ m) ns pos_max dated h =
    elim (dec_le max (suc (length m))) [
      | yes more ↦
          trim_loop_next (suc fuel) flags max (with_map t ((id, d) ∷ m) ns) more
          ∙ ap (trim_loop (suc fuel) flags max) (expire_front-eq flags t id d m ns dated.0)
          ∙ trim_loop-eq fuel flags max t m (ns ++ removed id ∷ []) pos_max dated.1 (omega arith)
          ∙ rw
              ((drop-excess max (id, d) m more).0, (drop-excess max (id, d) m more).1, append_assoc)
      | no done ↦
          let kept : suc (suc (length m)) - max ≡ 0 = omega arith in
          trim_loop_stop (suc fuel) flags max (with_map t ((id, d) ∷ m) ns) (omega arith)
          ∙ rw (kept, append-nil)
    ]

-- What is kept and what goes under a limit; a negative limit is none.
abbrev pub kept_by : ℤ → ConnectionIdMap → ConnectionIdMap
kept_by (pos max) m = drop (excess max m) m
kept_by (negsuc _) m = m

abbrev pub gone_by : ℤ → ConnectionIdMap → ConnectionIdMap
gone_by (pos max) m = take (excess max m) m
gone_by (negsuc _) m = []

-- The limit is not 0.
abbrev pub Admits : ℤ → Type 0
Admits (pos max) = 0 < max
Admits (negsuc _) = Unit

trim_at-eq :
    (flags : Flags) (limit : ℤ) (t : TimeWaitList)
    → flags.time_wait_list_max_connections ≡ limit
    → Admits limit
    → Dated flags.infinite t.connection_id_map
    → trim_time_wait_list_if_needed flags t
      ≡ some (
          with_map t
            (kept_by limit t.connection_id_map)
            (t.notices ++ removals (gone_by limit t.connection_id_map)))
unfolding trim_time_wait_list_if_needed num_connections
trim_at-eq flags (pos max) t e admits dated =
    rw (e, trim_time_wait_list_if_needed)
      (trim_loop-eq (length t.connection_id_map) flags max t t.connection_id_map t.notices admits
        dated (omega arith))
trim_at-eq flags (negsuc n) t e admits dated = rw (e, trim_time_wait_list_if_needed, append-nil)

-- Unless the limit is 0 the call returns, where no entry is dated after the infinite time. It
-- drops the oldest entries, no more than are needed to have fewer than the limit, and tells the
-- visitor of each in order.
pub trim-eq :
    (flags : Flags) (t : TimeWaitList)
    → Admits flags.time_wait_list_max_connections
    → Dated flags.infinite t.connection_id_map
    → trim_time_wait_list_if_needed flags t
      ≡ some (
          with_map t (kept_by flags.time_wait_list_max_connections t.connection_id_map) (
            t.notices
            ++ removals (gone_by flags.time_wait_list_max_connections t.connection_id_map)))
trim-eq flags t = trim_at-eq flags flags.time_wait_list_max_connections t refl

-- With the limit 0 the loop of TrimTimeWaitListIfNeeded does not end, on any fuel.
pub trim_loop_diverges :
    (fuel : ℕ) (flags : Flags) (t : TimeWaitList) → trim_loop fuel flags 0 t ≡ none
trim_loop_diverges zero flags t = unfold trim_loop in refl
trim_loop_diverges (suc fuel) flags t =
    trim_loop_next fuel flags 0 t (omega arith) ∙ trim_loop_diverges fuel flags _
