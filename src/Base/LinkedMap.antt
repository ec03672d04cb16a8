-- ===== src/Base/LinkedMap.antt =====
-- linked_hash_map (and the hash maps) as the source uses them: entries in the order of insertion,
-- lookup and removal by key, and an `insert` that keeps an entry already there.
pub mod Laws
pub mod Local
use mathlib.Core.Path.{◌≡◌}
use mathlib.Core.Bool.{Bool, true, false}
use mathlib.Core.Option.{Option, none, some}
use mathlib.Core.List.{List, [], ◌∷◌, ◌++◌}
use quic_toy.Base.Tests.{Eq, ◌==◌, if◌then◌else◌}

module _ {ℓ κ} {K : Type ℓ} {V : Type κ} ⦃e : Eq K⦄ where
  unfoldable pub find : K → List (K × V) → Option V
  find k [] = none
  find k ((j, v) ∷ m) = if j == k then some v else find k m

  unfoldable pub contains : K → List (K × V) → Bool
  contains k [] = false
  contains k ((j, v) ∷ m) = if j == k then true else contains k m

  unfoldable pub erase : K → List (K × V) → List (K × V)
  erase k [] = []
  erase k ((j, v) ∷ m) = if j == k then m else (j, v) ∷ erase k m

  unfoldable pub insert : K → V → List (K × V) → List (K × V)
  unfolding contains
  insert k v m = if contains k m then m else m ++ (k, v) ∷ []

  -- The entry's value through an iterator, `it->second = v`.
  unfoldable pub assign : K → V → List (K × V) → List (K × V)
  assign k v [] = []
  assign k v ((j, w) ∷ m) = if j == k then (j, v) ∷ m else (j, w) ∷ assign k v m

  -- No key twice.
  abbrev pub Distinct : List (K × V) → Type 0
  Distinct [] = Unit
  Distinct ((k, v) ∷ m) = (contains k m ≡ false) × Distinct m
