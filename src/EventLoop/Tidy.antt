-- ===== src/EventLoop/Tidy.antt =====
-- What holds of the event loop's tables between two operations, and what an operation at one
-- descriptor needs to keep it so.
use quic_toy.Base.LinkedMap.Local.{IsLocal}
use quic_toy.Base.{
  inr, inl, Bool-cases, ◌||◌, ℕ, List, [], ◌∷◌, Bool, true, false, Option, none, some, nat_beq,
  nat_eq, ◌≡◌, ◌≢◌, refl, arith,
}
use quic_toy.Base.LinkedMap.{find, Distinct}
use quic_toy.EventLoop.{
  add_to_ready_list, remove_from_ready_list, EventLoop, Entry, is_linked, is_member, without,
  watched,
}

abbrev pub Once : List ℕ → Type 0
Once [] = Unit
Once (x ∷ xs) = (is_member x xs ≡ false) × Once xs

-- No descriptor is linked twice.
abbrev pub IsOnce : List ℕ → List ℕ → Type 0
IsOnce ready tmp =
    Once ready × Once tmp × ((j : ℕ) → is_member j ready ≡ true → is_member j tmp ≡ false)

-- The descriptor whose callback is handling an event.
abbrev pub is_busy : ℕ → Option ℕ → Bool
is_busy fd none = false
is_busy fd (some current) = nat_beq current fd

-- A descriptor with a callback is watched for its mask. One without is not linked and not watched,
-- and its entry is there only while its event is handled.
abbrev pub IsWatched : Option ℕ → ℕ → Bool → Option ℕ → Bool → Type 0
IsWatched none mask linked interest busy = (linked ≡ false) × (interest ≡ none) × (busy ≡ true)
IsWatched (some cb) mask linked interest busy = interest ≡ some (watched mask)

abbrev pub Settled : Option Entry → Bool → Option ℕ → Bool → Type 0
Settled none linked interest busy = (linked ≡ false) × (interest ≡ none) × (busy ≡ false)
Settled (some e) linked interest busy =
    (e.in_use ≡ busy) × IsWatched e.cb e.event_mask linked interest busy

abbrev pub IsSettled : Option ℕ → EventLoop → ℕ → Type 0
IsSettled busy l fd =
    Settled (find fd l.cb_map) (is_linked fd l) (find fd l.interest) (is_busy fd busy)

pub record IsTidy (busy : Option ℕ) (l : EventLoop) : Type 0 where
  pub descriptors : Distinct l.cb_map
  pub interests : Distinct l.interest
  pub once : IsOnce l.ready_list l.tmp_list
  pub settled : (fd : ℕ) → IsSettled busy l fd

-- The lists, changed at one descriptor.
abbrev pub IsRelinked : ℕ → EventLoop → EventLoop → Type 0
IsRelinked fd l l' =
    IsOnce l'.ready_list l'.tmp_list × ((j : ℕ) → fd ≢ j → is_linked j l' ≡ is_linked j l)

is_member-without_other :
    (fd j : ℕ) (xs : List ℕ) → fd ≢ j → is_member j (without fd xs) ≡ is_member j xs
is_member-without_other fd j [] other = refl
is_member-without_other fd j (x ∷ xs) other = ground (arith, is_member-without_other fd j xs other)

is_member-without_le :
    (fd j : ℕ) (xs : List ℕ) → is_member j (without fd xs) ≡ true → is_member j xs ≡ true
is_member-without_le fd j [] h = h
is_member-without_le fd j (x ∷ xs) h = ground (arith, is_member-without_le fd j xs)

is_member-without_self : (fd : ℕ) (xs : List ℕ) → Once xs → is_member fd (without fd xs) ≡ false
is_member-without_self fd [] o = refl
is_member-without_self fd (x ∷ xs) o = ground (arith, o, is_member-without_self fd xs)

is_member-without_absent :
    (fd j : ℕ) (xs : List ℕ) → is_member j xs ≡ false → is_member j (without fd xs) ≡ false
is_member-without_absent fd j [] h = h
is_member-without_absent fd j (x ∷ xs) h = ground (arith, is_member-without_absent fd j xs)

without-Once : (fd : ℕ) (xs : List ℕ) → Once xs → Once (without fd xs)
without-Once fd [] o = tt
without-Once fd (x ∷ xs) o =
    ground (arith, o, is_member-without_absent fd x xs, without-Once fd xs o.1)

pub removed :
    (fd : ℕ) (l : EventLoop)
    → IsOnce l.ready_list l.tmp_list
    → IsRelinked fd l (remove_from_ready_list fd l)
      × (is_linked fd (remove_from_ready_list fd l) ≡ false)
unfolding remove_from_ready_list
removed fd l (ready, tmp, apart) = (
  (
    (
      without-Once fd l.ready_list ready,
      without-Once fd l.tmp_list tmp,
      λ j h.
          is_member-without_absent fd j l.tmp_list
            (apart j (is_member-without_le fd j l.ready_list h)),
    ),
    λ j other. simp (
      is_member-without_other fd j l.ready_list other,
      is_member-without_other fd j l.tmp_list other,
    ),
  ),
  simp (is_member-without_self fd l.ready_list ready, is_member-without_self fd l.tmp_list tmp),
)

or_false : (a b : Bool) → (a || b) ≡ false → (a ≡ false) × (b ≡ false)
or_false true b h = cc
or_false false b h = (refl, h)

add_linked : (fd : ℕ) (l : EventLoop) → is_linked fd l ≡ true → add_to_ready_list fd l ≡ l
unfolding add_to_ready_list
add_linked fd l h = rw h refl

add_free :
    (fd : ℕ) (l : EventLoop)
    → is_linked fd l ≡ false
    → add_to_ready_list fd l ≡ record l { ready_list = fd ∷ l.ready_list }
unfolding add_to_ready_list
add_free fd l h = rw h refl

pub added :
    (fd : ℕ) (l : EventLoop)
    → IsOnce l.ready_list l.tmp_list
    → IsRelinked fd l (add_to_ready_list fd l) × (is_linked fd (add_to_ready_list fd l) ≡ true)
added fd l (ready, tmp, apart) = elim (Bool-cases (is_linked fd l)) [
  | inl already ↦ rw (add_linked fd l already) (((ready, tmp, apart), λ j other. refl), already)
  | inr free ↦
      let (out, out_tmp) = or_false (is_member fd l.ready_list) (is_member fd l.tmp_list) free in
      rw (add_free fd l free) (
        (
          ((out, ready), tmp, λ j h. ground (arith, h, out_tmp, apart j)),
          λ j other. ground (arith, other),
        ),
        ground arith,
      )
]

pub IsTidy-at :
    (fd : ℕ) (busy busy' : Option ℕ) (l l' : EventLoop)
    → IsTidy busy l
    → IsLocal fd l.cb_map l'.cb_map
    → IsLocal fd l.interest l'.interest
    → IsRelinked fd l l'
    → ((j : ℕ) → fd ≢ j → is_busy j busy' ≡ is_busy j busy)
    → IsSettled busy' l' fd
    → IsTidy busy' l'
IsTidy-at fd busy busy' l l' v table interest (once, links) same here = record {
  descriptors = table.0;
  interests = interest.0;
  once = once;
  settled = λ j. elim (Bool-cases (nat_beq fd j)) [
    | inl at_fd ↦ rw ((nat_eq.beq_iff fd j).0 at_fd) at here
    | inr elsewhere ↦
        let other : fd ≢ j = λ e. cc (elsewhere, (nat_eq.beq_iff fd j).1 e) in
        rw (table.1 j other, interest.1 j other, links j other, same j other) (v.settled j)
  ];
}
