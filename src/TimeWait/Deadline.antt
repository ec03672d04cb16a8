-- ===== src/TimeWait/Deadline.antt =====
-- The deadline of the clean-up alarm, which no entry of the list is due before.
use quic_toy.Base.{ℕ, zero, suc, nat_eq, ◌+◌, ◌≤◌, ◌≡◌, [], ◌∷◌, ◌++◌, some, arith, drop}
use quic_toy.Base.Int.{ℤ, pos, negsuc}
use quic_toy.Base.LinkedMap.{find, erase, assign}
use quic_toy.TimeWait.{ConnectionIdData, ConnectionIdMap}
use quic_toy.TimeWait.Trim.{kept_by, excess}
use quic_toy.TimeWait.Invariant.{NotBefore}

module _ (deadline period : ℕ) where
  pub NotBefore-erase :
      (id : ℕ) (m : ConnectionIdMap)
      → NotBefore deadline period m
      → NotBefore deadline period (erase id m)
  unfolding erase
  NotBefore-erase id [] h = tt
  NotBefore-erase id ((j, d) ∷ m) h = ground (arith, NotBefore-erase id m h.1)

  NotBefore-drop :
      (n : ℕ) (m : ConnectionIdMap)
      → NotBefore deadline period m
      → NotBefore deadline period (drop n m)
  NotBefore-drop zero m h = h
  NotBefore-drop (suc n) [] h = h
  NotBefore-drop (suc n) ((j, d) ∷ m) h = NotBefore-drop n m h.1

  pub NotBefore-kept_by :
      (limit : ℤ) (m : ConnectionIdMap)
      → NotBefore deadline period m
      → NotBefore deadline period (kept_by limit m)
  NotBefore-kept_by (pos max) m h = NotBefore-drop (excess max m) m h
  NotBefore-kept_by (negsuc n) m h = h

  pub NotBefore-append :
      (m : ConnectionIdMap) (id : ℕ) (d : ConnectionIdData)
      → NotBefore deadline period m
      → deadline ≤ d.time_added + period
      → NotBefore deadline period (m ++ (id, d) ∷ [])
  NotBefore-append [] id d h k = (k, tt)
  NotBefore-append ((j, e) ∷ m) id d h k = (h.0, NotBefore-append m id d h.1 k)

  pub NotBefore-assign :
      (id : ℕ) (m : ConnectionIdMap) (d e : ConnectionIdData)
      → find id m ≡ some d
      → e.time_added ≡ d.time_added
      → NotBefore deadline period m
      → NotBefore deadline period (assign id e m)
  unfolding assign find
  NotBefore-assign id [] d e f k h = tt
  NotBefore-assign id ((j, c) ∷ m) d e f k h = ground (arith, NotBefore-assign id m d e, h)

  pub find-NotBefore :
      (id : ℕ) (m : ConnectionIdMap) (d : ConnectionIdData)
      → find id m ≡ some d
      → NotBefore deadline period m
      → deadline ≤ d.time_added + period
  unfolding find
  find-NotBefore id [] d f h = cc
  find-NotBefore id ((j, c) ∷ m) d f h = ground (arith, find-NotBefore id m d, h)
