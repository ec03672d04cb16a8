-- ===== src/Base/LinkedMap/Local.antt =====
-- Updates of a map at one key.
use quic_toy.Base.LinkedMap.{find, contains, erase, insert, assign, Distinct}
use quic_toy.Base.LinkedMap.Laws.{
  find-assign, find-erase, find-insert, assign-Distinct, erase-Distinct, insert-Distinct,
  contains_of_find, find-some, beq_self,
}
use mathlib.Core.Path.{◌≡◌, refl, ◌∙◌}
use mathlib.Core.Logic.{inl, inr, ◌≢◌}
use mathlib.Core.Bool.{false}
use mathlib.Core.Option.{none, some}
use mathlib.Core.List.{List, [], ◌∷◌}
use native.Mathlib.Omega.{arith}
use quic_toy.Base.Tests.{Eq, ◌==◌, Bool-cases}

pub beq_apart {ℓ} : {K : Type ℓ} ⦃e : Eq K⦄ (k j : K) → k ≢ j → (k == j) ≡ false
beq_apart ⦃e⦄ k j other = elim (Bool-cases (k == j)) [
  | inl same ↦ absurd (other ((e.beq_iff k j).0 same))
  | inr differs ↦ differs
]

module _ {ℓ κ} {K : Type ℓ} {V : Type κ} ⦃e : Eq K⦄ where
  -- `n` has no key twice, and agrees with `m` at every key but `k`.
  abbrev pub IsLocal : K → List (K × V) → List (K × V) → Type (ℓ ⊔ κ)
  IsLocal k m n = Distinct n × ((j : K) → k ≢ j → find j n ≡ find j m)

  pub IsLocal-refl : (k : K) (m : List (K × V)) → Distinct m → IsLocal k m m
  IsLocal-refl k m d = (d, λ j other. refl)

  pub absent : (k : K) (m : List (K × V)) → find k m ≡ none → contains k m ≡ false
  absent k m missing = elim (Bool-cases (contains k m)) [
    | inl there ↦ cc (missing, (find-some k m there).1)
    | inr gone ↦ gone
  ]

  pub assign-IsLocal :
      (k : K) (v w : V) (m : List (K × V))
      → Distinct m
      → find k m ≡ some w
      → IsLocal k m (assign k v m)
  assign-IsLocal k v w m d found = (
    assign-Distinct k v m d,
    λ j other. find-assign j k v m (contains_of_find k m w found) ∙ rw (beq_apart k j other),
  )

  pub erase-IsLocal : (k : K) (m : List (K × V)) → Distinct m → IsLocal k m (erase k m)
  erase-IsLocal k m d =
      (erase-Distinct k m d, λ j other. find-erase j k m d ∙ rw (beq_apart k j other))

  pub insert-IsLocal :
      (k : K) (v : V) (m : List (K × V)) → Distinct m → find k m ≡ none → IsLocal k m (insert k v m)
  insert-IsLocal k v m d missing = (
    insert-Distinct k v m d,
    λ j other. find-insert j k v m (absent k m missing) ∙ rw (beq_apart k j other),
  )

  pub find-assign_self :
      (k : K) (v w : V) (m : List (K × V)) → find k m ≡ some w → find k (assign k v m) ≡ some v
  find-assign_self k v w m found =
      find-assign k k v m (contains_of_find k m w found) ∙ rw (beq_self k)

  pub find-erase_self : (k : K) (m : List (K × V)) → Distinct m → find k (erase k m) ≡ none
  find-erase_self k m d = find-erase k k m d ∙ rw (beq_self k)

  pub find-insert_self :
      (k : K) (v : V) (m : List (K × V)) → find k m ≡ none → find k (insert k v m) ≡ some v
  find-insert_self k v m missing = find-insert k k v m (absent k m missing) ∙ rw (beq_self k)

  pub find-erase_other : (k j : K) (m : List (K × V)) → k ≢ j → find j (erase k m) ≡ find j m
  unfolding erase find
  find-erase_other k j [] other = refl
  find-erase_other k j ((i, w) ∷ m) other =
      ground (arith, find-erase_other k j m other, other, e.beq_iff i j, e.beq_iff i k)

  pub find-assign_other :
      (k j : K) (v : V) (m : List (K × V)) → k ≢ j → find j (assign k v m) ≡ find j m
  unfolding assign find
  find-assign_other k j v [] other = refl
  find-assign_other k j v ((i, w) ∷ m) other =
      ground (arith, find-assign_other k j v m other, other, e.beq_iff i j, e.beq_iff i k)
