-- ===== src/TimeWait/Invariant.antt =====
-- What holds of a time-wait list between two calls, and the facts about its map that keep it so.
use quic_toy.Base.{
  All, ◌+◌, ℕ, zero, suc, nat_eq, ◌≤◌, ◌≡◌, [], ◌∷◌, ◌++◌, some, arith, length, drop, length-drop,
  length-append, false,
}
use quic_toy.Base.Int.{ℤ, pos, negsuc}
use quic_toy.Base.LinkedMap.{find, contains, erase, assign, Distinct}
use quic_toy.Base.LinkedMap.Laws.{contains_of_find}
use quic_toy.TimeWait.{Flags, ConnectionIdData, ConnectionIdMap, TimeWaitList}
use quic_toy.TimeWait.Trim.{Dated, kept_by, excess, Admits}

-- The entries' times rise along the list from `low`, and end at `now` at the latest.
abbrev pub Between : ℕ → ℕ → ConnectionIdMap → Type 0
Between low now [] = low ≤ now
Between low now ((id, d) ∷ m) = (low ≤ d.time_added) × Between d.time_added now m

abbrev pub Within : ℤ → ConnectionIdMap → Type 0
Within (pos max) m = length m ≤ max
Within (negsuc _) m = Unit

-- What is due no earlier than `deadline`.
abbrev pub NotBefore : ℕ → ℕ → ConnectionIdMap → Type 0
NotBefore deadline period = All (λ entry. deadline ≤ entry.1.time_added + period)

-- The clean-up alarm is set, for at most one period from now and for no later than the expiry of
-- any entry.
abbrev pub IsArmed : ℕ → TimeWaitList → Type 0
IsArmed now t =
    (deadline : ℕ) × (t.clean_up_alarm ≡ some deadline)
    × (deadline ≤ now + t.time_wait_period)
    × NotBefore deadline t.time_wait_period t.connection_id_map

pub record IsWellFormed (flags : Flags) (now : ℕ) (t : TimeWaitList) : Type 0 where
  pub distinct : Distinct t.connection_id_map
  pub in_order : Between 0 now t.connection_id_map
  pub dated : now ≤ flags.infinite
  pub within : Within flags.time_wait_list_max_connections t.connection_id_map
  pub armed : IsArmed now t

pub Between-le : (low now : ℕ) (m : ConnectionIdMap) → Between low now m → low ≤ now
Between-le low now [] b = b
Between-le low now ((id, d) ∷ m) b = omega (arith, Between-le d.time_added now m b.1)

pub Between-lower :
    (low lower now : ℕ) (m : ConnectionIdMap)
    → lower ≤ low
    → Between low now m
    → Between lower now m
Between-lower low lower now [] h b = omega arith
Between-lower low lower now ((id, d) ∷ m) h b = (omega arith, b.1)

pub Between-later :
    (low now later : ℕ) (m : ConnectionIdMap)
    → now ≤ later
    → Between low now m
    → Between low later m
Between-later low now later [] h b = omega arith
Between-later low now later ((id, d) ∷ m) h b = (b.0, Between-later d.time_added now later m h b.1)

pub Between-Dated :
    (low now infinite : ℕ) (m : ConnectionIdMap)
    → now ≤ infinite
    → Between low now m
    → Dated infinite m
Between-Dated low now infinite [] h b = tt
Between-Dated low now infinite ((id, d) ∷ m) h b = (
  omega (arith, Between-le d.time_added now m b.1),
  Between-Dated d.time_added now infinite m h b.1,
)

pub Between-erase :
    (id low now : ℕ) (m : ConnectionIdMap) → Between low now m → Between low now (erase id m)
unfolding erase
Between-erase id low now [] b = b
Between-erase id low now ((j, d) ∷ m) b =
    ground
      (arith, Between-erase id d.time_added now m b.1, Between-lower d.time_added low now m b.0 b.1)

pub Between-drop :
    (n low now : ℕ) (m : ConnectionIdMap) → Between low now m → Between low now (drop n m)
Between-drop zero low now m b = b
Between-drop (suc n) low now [] b = b
Between-drop (suc n) low now ((j, d) ∷ m) b =
    Between-drop n low now m (Between-lower d.time_added low now m b.0 b.1)

pub Between-append :
    (low now later : ℕ) (m : ConnectionIdMap) (id : ℕ) (d : ConnectionIdData)
    → Between low now m
    → now ≤ d.time_added
    → d.time_added ≤ later
    → Between low later (m ++ (id, d) ∷ [])
Between-append low now later [] id d b h k = (omega arith, omega arith)
Between-append low now later ((j, e) ∷ m) id d b h k =
    (b.0, Between-append e.time_added now later m id d b.1 h k)

-- A write of an entry with the same time.
pub Between-assign :
    (id low now : ℕ) (m : ConnectionIdMap) (d e : ConnectionIdData)
    → find id m ≡ some d
    → e.time_added ≡ d.time_added
    → Between low now m
    → Between low now (assign id e m)
unfolding assign find
Between-assign id low now [] d e f h b = b
Between-assign id low now ((j, c) ∷ m) d e f h b =
    ground (arith, Between-assign id c.time_added now m d e, b)

-- Dropping entries takes ids away and changes no entry.
pub contains-drop :
    (id n : ℕ) (m : ConnectionIdMap) → contains id m ≡ false → contains id (drop n m) ≡ false
unfolding contains
contains-drop id zero m h = h
contains-drop id (suc n) [] h = h
contains-drop id (suc n) ((j, d) ∷ m) h = ground (arith, contains-drop id n m)

pub drop-Distinct : (n : ℕ) (m : ConnectionIdMap) → Distinct m → Distinct (drop n m)
drop-Distinct zero m d = d
drop-Distinct (suc n) [] d = d
drop-Distinct (suc n) ((j, e) ∷ m) d = drop-Distinct n m d.1

pub find-drop :
    (id n : ℕ) (m : ConnectionIdMap) (d : ConnectionIdData)
    → Distinct m
    → find id (drop n m) ≡ some d
    → find id m ≡ some d
unfolding find
find-drop id zero m d u h = h
find-drop id (suc n) [] d u h = h
find-drop id (suc n) ((j, e) ∷ m) d u h = ground (
  arith,
  find-drop id n m d u.1 h,
  nat_eq.beq_iff j id,
  contains_of_find id (drop n m) d h,
  contains-drop j n m u.0,
)

pub kept_by-Distinct : (limit : ℤ) (m : ConnectionIdMap) → Distinct m → Distinct (kept_by limit m)
kept_by-Distinct (pos max) m u = drop-Distinct (excess max m) m u
kept_by-Distinct (negsuc n) m u = u

pub kept_by-Between :
    (limit : ℤ) (low now : ℕ) (m : ConnectionIdMap)
    → Between low now m
    → Between low now (kept_by limit m)
kept_by-Between (pos max) low now m b = Between-drop (excess max m) low now m b
kept_by-Between (negsuc n) low now m b = b

pub contains-kept_by :
    (limit : ℤ) (id : ℕ) (m : ConnectionIdMap)
    → contains id m ≡ false
    → contains id (kept_by limit m) ≡ false
contains-kept_by (pos max) id m h = contains-drop id (excess max m) m h
contains-kept_by (negsuc n) id m h = h

pub find-kept_by :
    (limit : ℤ) (id : ℕ) (m : ConnectionIdMap) (d : ConnectionIdData)
    → Distinct m
    → find id (kept_by limit m) ≡ some d
    → find id m ≡ some d
find-kept_by (pos max) id m d u h = find-drop id (excess max m) m d u h
find-kept_by (negsuc n) id m d u h = h

-- After a trim there is room for one more.
pub kept_by-room :
    (limit : ℤ) (m : ConnectionIdMap) (e : ℕ × ConnectionIdData)
    → Admits limit
    → Within limit (kept_by limit m ++ e ∷ [])
kept_by-room (pos max) m e h =
    omega (arith, length-append (kept_by (pos max) m) (e ∷ []), length-drop (excess max m) m)
kept_by-room (negsuc n) m e h = tt
