-- ===== src/EventLoop/Answers.antt =====
-- The rounds of CallReadyListCallbacks of net/tools/epoll_server/epoll_server.cc for a callback that
-- asks for another call.
use quic_toy.EventLoop.Round.{at_work, in_events, first_called}
use quic_toy.Base.LinkedMap.Local.{find-assign_self}
use quic_toy.EventLoop.Tables.{add_to_ready_list-keeps}
use quic_toy.Base.LinkedMap.{assign, find}
use quic_toy.EventLoop.Tidy.{Once, removed, IsTidy}
use quic_toy.EventLoop.Loop.{call_loop-next, quiet_round, IsQuiet}
use quic_toy.EventLoop.Callbacks.{call_loop, make_calls, call_first, after_event, OnEvent}
use quic_toy.EventLoop.{
  is_member, remove_from_ready_list, is_linked, Entry, add_to_ready_list, EventLoop,
}
use mathlib.Core.Path.{subst}
use quic_toy.Base.{
  Bool-cases, List-cases, sym, Option, refl, ◌∙◌, ap, ◌≢◌, nat_beq, arith, ◌≡◌, List, ℕ, nat_eq,
  zero, suc, ◌∷◌, inl, inr, none, some, true, false,
}
use quic_toy.EventLoop.Asked.{IsAsked, add_to_ready_list-links}

module _ (on_event : OnEvent) (quiet : IsQuiet on_event) where
  after_event-linked :
      (fd out j : ℕ) (l : EventLoop)
      → is_linked j l ≡ true
      → is_linked j (after_event on_event fd out l) ≡ true
  unfolding after_event add_to_ready_list
  after_event-linked fd out j l h = ground (arith, h)

  after_event-IsAsked :
      (fd cb out : ℕ) (e : Entry) (l : EventLoop)
      → find fd l.cb_map ≡ some e
      → e.cb ≡ some cb
      → nat_beq out 0 ≡ false
      → IsAsked fd cb out (after_event on_event fd out l)
  unfolding after_event
  after_event-IsAsked fd cb out e l found has asks =
      let e' = record e { cb = some cb; in_use = false; events_to_fake = out } in
      let l' = record l { cb_map = assign fd e' l.cb_map } in
      rw (found, after_event)
        (simp (has, asks)
          (
            e',
            ap (find fd) (add_to_ready_list-keeps fd l').0
                ∙ find-assign_self fd e' e l.cb_map found,
            refl,
            refl,
            add_to_ready_list-links fd l',
          ))

  -- What a round does for the descriptor `fd`, which makes no calls.
  at_rest :
      (fd cb : ℕ) (e : Entry) (log : List (ℕ × ℕ)) (events : ℕ) (l : EventLoop)
      → make_calls (on_event log cb fd events).0 (at_work on_event fd e l) ≡ at_work on_event fd e l
  unfolding make_calls
  at_rest fd cb e log events l =
      ap (λ cs. make_calls cs (at_work on_event fd e l)) (quiet log cb fd events)

  at_work-linked :
      (fd j : ℕ) (e : Entry) (l : EventLoop)
      → IsTidy none l
      → fd ≢ j
      → is_linked j l ≡ true
      → is_linked j (at_work on_event fd e l) ≡ true
  unfolding remove_from_ready_list
  at_work-linked fd j e l v other linked = (removed fd l v.once).0.1 j other ∙ linked

  -- A round for one descriptor leaves another as it is.
  other_round :
      (fd : ℕ) (rest : List ℕ) (l : EventLoop) (j cb out : ℕ)
      → IsTidy none l
      → l.tmp_list ≡ fd ∷ rest
      → fd ≢ j
      → IsAsked j cb out l
      → (l' : EventLoop) × (call_first on_event fd l ≡ some l')
        × IsTidy none l'
        × (l'.tmp_list ≡ rest)
        × IsAsked j cb out l'
  other_round fd rest l j cb out v head other (e, found, has, fake, linked) =
      let (l1, eq1, v1, tmp, log, others) = quiet_round on_event quiet fd rest l v head in
      let (e0, cb0, found0, has0, (eq, v', less)) = first_called on_event fd rest l v head in
      let w = at_work on_event fd e0 l in
      let (calls, asked) = on_event l.called cb0 fd (in_events on_event (some e0)) in
      let link : is_linked j (after_event on_event fd asked (make_calls calls w)) ≡ true =
        after_event-linked fd asked j _ (
          ap (is_linked j) (at_rest fd cb0 e0 l.called _ l)
          ∙ at_work-linked fd j e0 l v other linked) in
      (l1, eq1, v1, tmp, (e, others j other ∙ found, has, fake, cc (link, eq, eq1)))

  -- A round for a descriptor, which asks for another call if its out_ready_mask is not 0.
  abbrev pub IsAnswered : ℕ → Option Entry → EventLoop → Type 0
  IsAnswered fd entry l =
      (log : List (ℕ × ℕ)) × (cb : ℕ) × (e : Entry) × (entry ≡ some e)
      × (e.cb ≡ some cb)
      × (let out = (on_event log cb fd (in_events on_event (some e))).1 in
          nat_beq out 0 ≡ false → IsAsked fd cb out l)

  own_round :
      (fd : ℕ) (rest : List ℕ) (l : EventLoop)
      → IsTidy none l
      → l.tmp_list ≡ fd ∷ rest
      → (l' : EventLoop) × (call_first on_event fd l ≡ some l')
        × IsTidy none l'
        × (l'.tmp_list ≡ rest)
        × IsAnswered fd (find fd l.cb_map) l'
  own_round fd rest l v head =
      let (l1, eq1, v1, tmp, log, others) = quiet_round on_event quiet fd rest l v head in
      let (e, cb, found, has, (eq, v', less)) = first_called on_event fd rest l v head in
      let w = at_work on_event fd e l in
      let (calls, out) = on_event l.called cb fd (in_events on_event (some e)) in
      let busy = record e { events_asserted = 0; events_to_fake = 0; in_use = true } in
      let same : l1 ≡ after_event on_event fd out w = cc (
        eq,
        eq1,
        ap (after_event on_event fd out) (at_rest fd cb e l.called (in_events on_event (some e)) l),
      ) in
      (
        l1,
        eq1,
        v1,
        tmp,
        (
          l.called,
          cb,
          e,
          found,
          has,
          (λ asks. subst (IsAsked fd cb out) (sym same) (
              after_event-IsAsked fd cb out busy w (find-assign_self fd busy e l.cb_map found) has
                asks)),
        ),
      )

  kept_loop :
      (fuel : ℕ) (l l' : EventLoop) (j cb out : ℕ)
      → IsTidy none l
      → is_member j l.tmp_list ≡ false
      → IsAsked j cb out l
      → call_loop on_event fuel l ≡ some l'
      → IsAsked j cb out l'
  unfolding call_loop
  kept_loop zero l l' j cb out v out_of asked eq = cc eq
  kept_loop (suc fuel) l l' j cb out v out_of asked eq = elim (List-cases l.tmp_list) [
    | inl nothing ↦
        let done : call_loop on_event (suc fuel) l ≡ some l = rw nothing refl in
        let same : l ≡ l' = cc (done, eq) in subst (IsAsked j cb out) same asked
    | inr (fd, rest, head) ↦
        let apart : is_member j (fd ∷ rest) ≡ false = rw head at out_of in
        let other : fd ≢ j = λ p. ground (arith, apart, p) in
        let (l1, eq1, v1, tmp, asked1) = other_round fd rest l j cb out v head other asked in
        let out_of1 : is_member j l1.tmp_list ≡ false = rw tmp (ground (arith, apart)) in
        kept_loop fuel l1 l' j cb out v1 out_of1 asked1
          (sym (call_loop-next on_event fuel fd rest l l1 head eq1) ∙ eq)
  ]

  pub call_loop-IsAnswered :
      (fuel : ℕ) (l l' : EventLoop) (j : ℕ)
      → IsTidy none l
      → is_member j l.tmp_list ≡ true
      → call_loop on_event fuel l ≡ some l'
      → IsAnswered j (find j l.cb_map) l'
  unfolding call_loop
  call_loop-IsAnswered zero l l' j v there eq = cc eq
  call_loop-IsAnswered (suc fuel) l l' j v there eq = elim (List-cases l.tmp_list) [
    | inl nothing ↦ cc (rw nothing at there)
    | inr (fd, rest, head) ↦
        let member : is_member j (fd ∷ rest) ≡ true = rw head at there in
        let once : Once (fd ∷ rest) = rw head at v.once.1 in
        elim (Bool-cases (nat_beq fd j)) [
          | inl same ↦
              let p : fd ≡ j = (nat_eq.beq_iff fd j).0 same in
              let (l1, eq1, v1, tmp, (log, cb, e, found, has, answer)) =
                own_round fd rest l v head in
              let eq2 = sym (call_loop-next on_event fuel fd rest l l1 head eq1) ∙ eq in
              subst (λ k. IsAnswered k (find k l.cb_map) l') p
                (
                  log,
                  cb,
                  e,
                  found,
                  has,
                  λ asks. kept_loop fuel l1 l' fd cb _ v1 (rw tmp once.0) (answer asks) eq2,
                )
          | inr apart ↦
              let other : fd ≢ j = λ p. ground (arith, apart, p) in
              let (l1, eq1, v1, tmp, log, others) = quiet_round on_event quiet fd rest l v head in
              let eq2 = sym (call_loop-next on_event fuel fd rest l l1 head eq1) ∙ eq in
              let member1 : is_member j l1.tmp_list ≡ true =
                rw tmp (ground (arith, member, apart)) in
              subst (λ entry. IsAnswered j entry l') (others j other)
                (call_loop-IsAnswered fuel l1 l' j v1 member1 eq2)
        ]
  ]
