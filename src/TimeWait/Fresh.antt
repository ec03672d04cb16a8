-- ===== src/TimeWait/Fresh.antt =====
-- The entries of a time-wait list whose period is not over.
use quic_toy.Base.{
  ℕ, nat_eq, ◌+◌, ◌≤◌, ◌<◌, ◌≡◌, refl, List, [], ◌∷◌, none, some, arith, Bool, false, if◌then◌else◌,
  leb, length,
}
use quic_toy.Base.Int.{ℤ, pos, negsuc}
use quic_toy.Base.LinkedMap.{find, contains, Distinct}
use quic_toy.Base.LinkedMap.Laws.{find-none}
use quic_toy.TimeWait.{Flags, ConnectionIdData, ConnectionIdMap, TimeWaitList, Notice}
use quic_toy.TimeWait.Trim.{with_map}
use quic_toy.TimeWait.Invariant.{
  NotBefore, IsWellFormed, Within, Between, Between-lower, Between-later,
}

-- An entry has outlived the period.
abbrev pub is_stale : ℕ → ℕ → ConnectionIdData → Bool
is_stale start period d = leb (d.time_added + period) start

abbrev pub fresh_ones : ℕ → ℕ → ConnectionIdMap → ConnectionIdMap
fresh_ones start period [] = []
fresh_ones start period ((id, d) ∷ m) =
    if is_stale start period d
    then fresh_ones start period m
    else (id, d) ∷ fresh_ones start period m

abbrev pub stale_ones : ℕ → ℕ → ConnectionIdMap → ConnectionIdMap
stale_ones start period [] = []
stale_ones start period ((id, d) ∷ m) =
    if is_stale start period d
    then (id, d) ∷ stale_ones start period m
    else stale_ones start period m

-- Behind a fresh entry all are fresh.
pub fresh_ones-all :
    (start period low now : ℕ) (m : ConnectionIdMap)
    → start < low + period
    → Between low now m
    → (fresh_ones start period m ≡ m) × (stale_ones start period m ≡ [])
fresh_ones-all start period low now [] h b = (refl, refl)
fresh_ones-all start period low now ((id, d) ∷ m) h b =
    ground (arith, fresh_ones-all start period d.time_added now m (omega arith) b.1)

pub contains-fresh_ones :
    (start period id : ℕ) (m : ConnectionIdMap)
    → contains id m ≡ false
    → contains id (fresh_ones start period m) ≡ false
unfolding contains
contains-fresh_ones start period id [] h = refl
contains-fresh_ones start period id ((j, d) ∷ m) h =
    ground (arith, contains-fresh_ones start period id m)

pub find-fresh_ones :
    (start period id : ℕ) (m : ConnectionIdMap)
    → Distinct m
    → find id (fresh_ones start period m)
      ≡ elim (find id m) [ none ↦ none | some d ↦ if is_stale start period d then none else some d ]
unfolding find
find-fresh_ones start period id [] u = refl
find-fresh_ones start period id ((j, d) ∷ m) u = ground (
  arith,
  find-fresh_ones start period id m u.1,
  nat_eq.beq_iff j id,
  contains-fresh_ones start period j m u.0,
  find-none j (fresh_ones start period m),
)

pub fresh_ones-Distinct :
    (start period : ℕ) (m : ConnectionIdMap) → Distinct m → Distinct (fresh_ones start period m)
fresh_ones-Distinct start period [] u = tt
fresh_ones-Distinct start period ((j, d) ∷ m) u =
    ground (arith, contains-fresh_ones start period j m u.0, fresh_ones-Distinct start period m u.1)

pub fresh_ones-Between :
    (start period low now : ℕ) (m : ConnectionIdMap)
    → Between low now m
    → Between low now (fresh_ones start period m)
fresh_ones-Between start period low now [] b = b
fresh_ones-Between start period low now ((j, d) ∷ m) b = ground (
  arith,
  fresh_ones-Between start period d.time_added now m b.1,
  Between-lower d.time_added low now (fresh_ones start period m) b.0,
)

pub length-fresh_ones-le :
    (start period : ℕ) (m : ConnectionIdMap) → length (fresh_ones start period m) ≤ length m
length-fresh_ones-le start period [] = omega arith
length-fresh_ones-le start period ((j, d) ∷ m) = ground (arith, length-fresh_ones-le start period m)

pub Within-fresh_ones :
    (limit : ℤ) (start period : ℕ) (m : ConnectionIdMap)
    → Within limit m
    → Within limit (fresh_ones start period m)
Within-fresh_ones (pos max) start period m h = omega (arith, length-fresh_ones-le start period m)
Within-fresh_ones (negsuc n) start period m h = tt

NotBefore-fresh_ones :
    (deadline period start : ℕ) (m : ConnectionIdMap)
    → NotBefore deadline period m
    → NotBefore deadline period (fresh_ones start period m)
NotBefore-fresh_ones deadline period start [] h = tt
NotBefore-fresh_ones deadline period start ((j, d) ∷ m) h =
    ground (arith, NotBefore-fresh_ones deadline period start m h.1)

-- What is left of a well-formed list is well formed.
pub fresh-IsWellFormed :
    (flags : Flags) (before now : ℕ) (t : TimeWaitList) (ns : List Notice)
    → IsWellFormed flags before t
    → before ≤ now
    → now ≤ flags.infinite
    → IsWellFormed flags now (with_map t (fresh_ones now t.time_wait_period t.connection_id_map) ns)
fresh-IsWellFormed flags before now t ns v h k = record {
  distinct = fresh_ones-Distinct now t.time_wait_period t.connection_id_map v.distinct;
  in_order =
      fresh_ones-Between now t.time_wait_period 0 now t.connection_id_map
        (Between-later 0 before now t.connection_id_map h v.in_order);
  dated = k;
  within =
      Within-fresh_ones flags.time_wait_list_max_connections now t.time_wait_period
        t.connection_id_map v.within;
  armed =
      let (deadline, set, soon, due) = v.armed in
      (
        deadline,
        set,
        omega (arith, h, soon),
        NotBefore-fresh_ones deadline t.time_wait_period now t.connection_id_map due,
      );
}
