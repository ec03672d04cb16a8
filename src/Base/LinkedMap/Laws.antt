-- ===== src/Base/LinkedMap/Laws.antt =====
-- Laws of the insertion-ordered map, in `if` form where a key is compared.
use Prim.Native.Nat.{suc, ◌≤◌}
use mathlib.Core.Path.{◌≡◌, refl}
use mathlib.Core.Logic.{inl, inr}
use mathlib.Core.Bool.{true, false}
use mathlib.Core.Option.{none, some}
use mathlib.Core.List.{List, [], ◌∷◌, ◌++◌}
use native.Mathlib.Omega.{arith}
use quic_toy.Base.Tests.{Eq, ◌==◌, if◌then◌else◌, Bool-cases}
use quic_toy.Base.Lists.{length}
use quic_toy.Base.LinkedMap.{find, contains, erase, insert, assign, Distinct}

pub beq_self {ℓ} : {K : Type ℓ} ⦃e : Eq K⦄ (k : K) → (k == k) ≡ true
beq_self ⦃e⦄ k = (e.beq_iff k k).1 refl

module _ {ℓ κ} {K : Type ℓ} {V : Type κ} ⦃e : Eq K⦄ where
  pub find-none : (k : K) (m : List (K × V)) → contains k m ≡ false → find k m ≡ none
  unfolding find contains
  find-none k [] h = refl
  find-none k ((j, v) ∷ m) h = ground (arith, find-none k m)

  pub find-some : (k : K) (m : List (K × V)) → contains k m ≡ true → (v : V) × (find k m ≡ some v)
  unfolding find contains
  find-some k [] h = cc
  find-some k ((j, v) ∷ m) h = elim (Bool-cases (j == k)) [
    | inl same ↦ (v, rw same)
    | inr other ↦ rw other (find-some k m (rw other at h))
  ]

  pub contains_of_find :
      (k : K) (m : List (K × V)) (v : V) → find k m ≡ some v → contains k m ≡ true
  unfolding find contains
  contains_of_find k [] v h = cc
  contains_of_find k ((j, w) ∷ m) v h = ground (arith, contains_of_find k m v)

  pub contains-append :
      (j k : K) (v : V) (m : List (K × V))
      → contains j (m ++ (k, v) ∷ []) ≡ (if k == j then true else contains j m)
  unfolding contains
  contains-append j k v [] = refl
  contains-append j k v ((i, w) ∷ m) = ground (arith, contains-append j k v m)

  pub contains-insert :
      (j k : K) (v : V) (m : List (K × V))
      → contains j (insert k v m) ≡ (if k == j then true else contains j m)
  unfolding insert
  contains-insert j k v m = elim (Bool-cases (contains k m)) [
    | inl old ↦ elim (Bool-cases (k == j)) [
      | inl same ↦ let p : k ≡ j = (e.beq_iff k j).0 same in rw (old, same) (rw p at old)
      | inr other ↦ rw (old, other)
    ]
    | inr new ↦ rw new (contains-append j k v m)
  ]

  pub find-append :
      (j k : K) (v : V) (m : List (K × V))
      → contains k m ≡ false
      → find j (m ++ (k, v) ∷ []) ≡ (if k == j then some v else find j m)
  unfolding find contains
  find-append j k v [] h = refl
  find-append j k v ((i, w) ∷ m) h =
      ground (arith, find-append j k v m, e.beq_iff i j, e.beq_iff k j, e.beq_iff i k)

  pub find-insert :
      (j k : K) (v : V) (m : List (K × V))
      → contains k m ≡ false
      → find j (insert k v m) ≡ (if k == j then some v else find j m)
  unfolding insert
  find-insert j k v m h = rw h (find-append j k v m h)

  pub contains-erase :
      (j k : K) (m : List (K × V))
      → Distinct m
      → contains j (erase k m) ≡ (if k == j then false else contains j m)
  unfolding erase contains
  contains-erase j k [] d = ground arith
  contains-erase j k ((i, w) ∷ m) d =
      ground (arith, contains-erase j k m d.1, e.beq_iff i j, e.beq_iff k j, e.beq_iff i k)

  pub find-erase :
      (j k : K) (m : List (K × V))
      → Distinct m
      → find j (erase k m) ≡ (if k == j then none else find j m)
  unfolding erase find
  find-erase j k [] d = ground arith
  find-erase j k ((i, w) ∷ m) d =
      ground
        (arith, find-erase j k m d.1, find-none j m, e.beq_iff i j, e.beq_iff k j, e.beq_iff i k)

  pub erase_absent : (k : K) (m : List (K × V)) → contains k m ≡ false → erase k m ≡ m
  unfolding erase contains
  erase_absent k [] h = refl
  erase_absent k ((i, w) ∷ m) h = ground (arith, erase_absent k m)

  pub length-erase :
      (k : K) (m : List (K × V)) → contains k m ≡ true → suc (length (erase k m)) ≡ length m
  unfolding erase contains
  length-erase k [] h = cc
  length-erase k ((i, w) ∷ m) h = ground (arith, length-erase k m)

  pub length-erase-le : (k : K) (m : List (K × V)) → length (erase k m) ≤ length m
  unfolding erase
  length-erase-le k [] = omega arith
  length-erase-le k ((i, w) ∷ m) = ground (arith, length-erase-le k m)

  pub erase-Distinct : (k : K) (m : List (K × V)) → Distinct m → Distinct (erase k m)
  unfolding erase
  erase-Distinct k [] d = tt
  erase-Distinct k ((i, w) ∷ m) d = ground (arith, contains-erase i k m d.1, erase-Distinct k m d.1)

  pub append-Distinct :
      (k : K) (v : V) (m : List (K × V))
      → contains k m ≡ false
      → Distinct m
      → Distinct (m ++ (k, v) ∷ [])
  unfolding contains
  append-Distinct k v [] h d = ground arith
  append-Distinct k v ((i, w) ∷ m) h d =
      ground (arith, contains-append i k v m, append-Distinct k v m, e.beq_iff i k, e.beq_iff k i)

  pub insert-Distinct : (k : K) (v : V) (m : List (K × V)) → Distinct m → Distinct (insert k v m)
  unfolding insert
  insert-Distinct k v m d = ground (arith, append-Distinct k v m)

  pub contains-assign :
      (j k : K) (v : V) (m : List (K × V)) → contains j (assign k v m) ≡ contains j m
  unfolding assign contains
  contains-assign j k v [] = refl
  contains-assign j k v ((i, w) ∷ m) = ground (arith, contains-assign j k v m)

  pub find-assign :
      (j k : K) (v : V) (m : List (K × V))
      → contains k m ≡ true
      → find j (assign k v m) ≡ (if k == j then some v else find j m)
  unfolding assign find contains
  find-assign j k v [] h = cc
  find-assign j k v ((i, w) ∷ m) h =
      ground (arith, find-assign j k v m, e.beq_iff i j, e.beq_iff k j, e.beq_iff i k)

  pub assign-Distinct : (k : K) (v : V) (m : List (K × V)) → Distinct m → Distinct (assign k v m)
  unfolding assign
  assign-Distinct k v [] d = tt
  assign-Distinct k v ((i, w) ∷ m) d =
      ground (arith, contains-assign i k v m, assign-Distinct k v m d.1)

  pub length-assign : (k : K) (v : V) (m : List (K × V)) → length (assign k v m) ≡ length m
  unfolding assign
  length-assign k v [] = refl
  length-assign k v ((i, w) ∷ m) = ground (arith, length-assign k v m)
