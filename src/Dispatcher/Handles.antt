-- ===== src/Dispatcher/Handles.antt =====
-- Sessions found by the address of their connection.
use quic_toy.Dispatcher.{find_handle}
use quic_toy.Base.LinkedMap.Laws.{beq_self, contains_of_find}
use quic_toy.Base.{
  Bool-cases, inl, inr, ℕ, ◌≡◌, ◌≢◌, refl, List, [], ◌∷◌, ◌++◌, Bool, true, false, some, arith,
  nat_beq, nat_eq, if◌then◌else◌,
}
use quic_toy.Base.LinkedMap.{Distinct, find, erase, assign}
use quic_toy.Session.{Session}

module _ {Conn : Type 0} where
  unfoldable pub has_handle : ℕ → List (ℕ × Session Conn) → Bool
  has_handle h [] = false
  has_handle h ((id, s) ∷ m) = if nat_beq s.handle h then true else has_handle h m

  pub has_handle_of_find :
      (id : ℕ) (m : List (ℕ × Session Conn)) (s : Session Conn)
      → find id m ≡ some s
      → has_handle s.handle m ≡ true
  unfolding find has_handle
  has_handle_of_find id [] s e = cc
  has_handle_of_find id ((j, r) ∷ m) s e = ground (arith, has_handle_of_find id m s)

  pub has_handle-erase :
      (h id : ℕ) (m : List (ℕ × Session Conn)) (s : Session Conn)
      → find id m ≡ some s
      → s.handle ≢ h
      → has_handle h m ≡ true
      → has_handle h (erase id m) ≡ true
  unfolding find has_handle erase
  has_handle-erase h id [] s e n p = p
  has_handle-erase h id ((j, r) ∷ m) s e n p = ground (arith, has_handle-erase h id m s)

  pub has_handle-assign :
      (h id : ℕ) (m : List (ℕ × Session Conn)) (s s' : Session Conn)
      → find id m ≡ some s
      → s'.handle ≡ s.handle
      → has_handle h (assign id s' m) ≡ has_handle h m
  unfolding find has_handle assign
  has_handle-assign h id [] s s' e n = refl
  has_handle-assign h id ((j, r) ∷ m) s s' e n = ground (arith, has_handle-assign h id m s s')

  pub has_handle-append :
      (h id : ℕ) (m : List (ℕ × Session Conn)) (s : Session Conn)
      → has_handle h m ≡ true
      → has_handle h (m ++ (id, s) ∷ []) ≡ true
  unfolding has_handle
  has_handle-append h id [] s p = cc
  has_handle-append h id ((j, r) ∷ m) s p = ground (arith, has_handle-append h id m s)

  -- An address that is in use leads to a session and the id that it is filed under.
  pub find_handle_of_has_handle :
      (h : ℕ) (m : List (ℕ × Session Conn))
      → Distinct m
      → has_handle h m ≡ true
      → (id : ℕ) × (s : Session Conn) × (find_handle h m ≡ some (id, s))
        × (s.handle ≡ h)
        × (find id m ≡ some s)
  unfolding find has_handle find_handle
  find_handle_of_has_handle h [] u e = cc
  find_handle_of_has_handle h ((j, r) ∷ m) u e = elim (Bool-cases (nat_beq r.handle h)) [
    | inl here ↦ (j, r, rw here, ground arith, rw (beq_self j))
    | inr on ↦
        let (id, s, found, same, filed) = find_handle_of_has_handle h m u.1 (rw on at e) in
        (
          id,
          s,
          rw on found,
          same,
          ground (arith, nat_eq.beq_iff j id, contains_of_find id m s filed, u.0),
        )
  ]
