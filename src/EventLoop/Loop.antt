-- ===== src/EventLoop/Loop.antt =====
-- CallReadyListCallbacks of net/tools/epoll_server/epoll_server.cc on tidy tables.
use mathlib.Core.List.{append-nil, append_assoc}
use quic_toy.EventLoop.Tidy.{Once}
use quic_toy.Base.{
  ◌>>=◌, ap, ℕ, zero, suc, List, [], ◌∷◌, ◌++◌, none, some, false, ◌≡◌, ◌≢◌, refl, sym, ◌∙◌, arith,
  ◌<◌, length, Option-cases, List-cases, Bool-cases, inl, inr, nat_beq, nat_eq,
}
use quic_toy.EventLoop.Tables.{add_to_ready_list-keeps}
use quic_toy.Base.LinkedMap.Local.{find-erase_other, find-assign_other}
use quic_toy.Base.LinkedMap.{find, assign}
use quic_toy.EventLoop.{EventLoop, Entry, is_linked, is_member, remove_from_ready_list}
use quic_toy.EventLoop.Callbacks.{
  OnEvent, make_calls, after_event, call_first, call_loop, call_ready_list_callbacks,
}
use quic_toy.EventLoop.Tidy.{IsTidy}
use quic_toy.EventLoop.Round.{without_head, first_called, after_event-keeps, at_work, in_events}

module _ (on_event : OnEvent) where
  swapped : (l : EventLoop) (fd : ℕ) → l.tmp_list ≡ [] → is_member fd l.ready_list ≡ is_linked fd l
  swapped l fd idle = ground (arith, idle)

  pub call_loop-next :
      (fuel fd : ℕ) (rest : List ℕ) (l l' : EventLoop)
      → l.tmp_list ≡ fd ∷ rest
      → call_first on_event fd l ≡ some l'
      → call_loop on_event (suc fuel) l ≡ call_loop on_event fuel l'
  unfolding call_loop
  call_loop-next fuel fd rest l l' head eq =
      ap
        (λ m. elim m [
          | [] ↦ some l
          | fd ∷ _ ↦ call_first on_event fd l >>= λ l'. call_loop on_event fuel l'
        ])
        head
      ∙ rw eq refl

  loop_ends :
      (fuel : ℕ) (l : EventLoop)
      → IsTidy none l
      → length l.tmp_list < fuel
      → (l' : EventLoop) × (call_loop on_event fuel l ≡ some l')
        × IsTidy none l'
        × (l'.tmp_list ≡ [])
  unfolding call_loop
  loop_ends zero l v enough = absurd (omega arith)
  loop_ends (suc fuel) l v enough = elim (List-cases l.tmp_list) [
    | inl nothing ↦ (l, rw nothing refl, v, nothing)
    | inr (fd, rest, head) ↦
        let (e, cb, found, has, (eq, v', less)) = first_called on_event fd rest l v head in
        let before : length l.tmp_list ≡ suc (length rest) = rw head refl in
        let (l'', eq', v'', done) = loop_ends fuel _ v' (omega (arith, less, enough, before)) in
        (l'', call_loop-next fuel fd rest l _ head eq ∙ eq', v'', done)
  ]

  abbrev pub swap : EventLoop → EventLoop
  swap l = record l { ready_list = []; tmp_list = l.ready_list }

  pub swap-IsTidy : (l : EventLoop) → IsTidy none l → l.tmp_list ≡ [] → IsTidy none (swap l)
  swap-IsTidy l v idle = record {
    descriptors = v.descriptors;
    interests = v.interests;
    once = (tt, v.once.0, λ j h. cc h);
    settled = λ fd. rw (swapped l fd idle) (v.settled fd);
  }

  -- CallReadyListCallbacks returns, on the fuel it is given, whatever the callbacks do: they may
  -- register, unregister and modify any descriptor, their own included, and make any ready or not
  -- ready. No missing callback is called. The tables are tidy if they were before, and the list that
  -- was worked off is empty.
  pub call_ready_list_callbacks-IsTidy :
      (l : EventLoop)
      → IsTidy none l
      → l.tmp_list ≡ []
      → (l' : EventLoop) × (call_ready_list_callbacks on_event l ≡ some l')
        × IsTidy none l'
        × (l'.tmp_list ≡ [])
  unfolding call_ready_list_callbacks
  call_ready_list_callbacks-IsTidy l v idle =
      loop_ends (suc (length l.ready_list)) (swap l) (swap-IsTidy l v idle) (omega arith)

  -- What a list of descriptors is called for.
  abbrev pub reports : List (ℕ × Entry) → List ℕ → List (ℕ × ℕ)
  reports m [] = []
  reports m (fd ∷ fds) = (fd, in_events on_event (find fd m)) ∷ reports m fds

  -- A callback makes no calls on the event loop, as QuicServer::OnEvent.
  abbrev pub IsQuiet : Type 0
  IsQuiet = (log : List (ℕ × ℕ)) (cb fd events : ℕ) → (on_event log cb fd events).0 ≡ []

  reports-eq :
      (fd : ℕ) (m n : List (ℕ × Entry)) (fds : List ℕ)
      → is_member fd fds ≡ false
      → ((j : ℕ) → fd ≢ j → find j n ≡ find j m)
      → reports n fds ≡ reports m fds
  reports-eq fd m n [] out same = refl
  reports-eq fd m n (x ∷ fds) out same =
      let here : find x n ≡ find x m = same x (λ e. ground (arith, out, e)) in
      rw (here, reports-eq fd m n fds (ground (arith, out)) same) refl

  after_event-others :
      (fd out j : ℕ) (l : EventLoop)
      → fd ≢ j
      → find j (after_event on_event fd out l).cb_map ≡ find j l.cb_map
  unfolding after_event
  after_event-others fd out j l other = elim (Option-cases (find fd l.cb_map)) [
    | inl missing ↦ rw (missing, after_event) refl
    | inr (e, found) ↦ elim (Option-cases e.cb) [
      | inl gone ↦ rw (found, after_event) (simp (gone, find-erase_other fd j l.cb_map other))
      | inr (cb, has) ↦ elim (Bool-cases (nat_beq out 0)) [
        | inl done ↦
            rw (found, after_event)
              (simp (
                has,
                done,
                find-assign_other fd j (record e { cb = some cb; in_use = false }) l.cb_map other,
              ))
        | inr again ↦
            let e' = record e { cb = some cb; in_use = false; events_to_fake = out } in
            let l' = record l { cb_map = assign fd e' l.cb_map } in
            rw (found, after_event)
              (simp (has, again)
                (ap (find j) (add_to_ready_list-keeps fd l').0
                  ∙ find-assign_other fd j e' l.cb_map other))
      ]
    ]
  ]

  pub quiet_round :
      (quiet : IsQuiet) (fd : ℕ) (rest : List ℕ) (l : EventLoop)
      → IsTidy none l
      → l.tmp_list ≡ fd ∷ rest
      → (l' : EventLoop) × (call_first on_event fd l ≡ some l')
        × IsTidy none l'
        × (l'.tmp_list ≡ rest)
        × (l'.called ≡ l.called ++ (fd, in_events on_event (find fd l.cb_map)) ∷ [])
        × ((j : ℕ) → fd ≢ j → find j l'.cb_map ≡ find j l.cb_map)
  unfolding make_calls remove_from_ready_list
  quiet_round quiet fd rest l v head =
      let (e, cb, found, has, (eq, v', less)) = first_called on_event fd rest l v head in
      let (calls, out) = on_event l.called cb fd (in_events on_event (some e)) in
      let w = make_calls calls (at_work on_event fd e l) in
      let none_made : w ≡ at_work on_event fd e l =
        ap (λ cs. make_calls cs (at_work on_event fd e l)) (quiet l.called cb fd _) in
      (
        _,
        eq,
        v',
        (after_event-keeps on_event fd out w).0
            ∙ ap (λ x. x.tmp_list) none_made
            ∙ without_head on_event fd rest l head,
        (after_event-keeps on_event fd out w).1 ∙ ap (λ x. x.called) none_made ∙ rw found refl,
        λ j other.
            after_event-others fd out j w other
            ∙ ap (λ x. find j x.cb_map) none_made
            ∙ find-assign_other fd j _ l.cb_map other,
      )

  quiet_loop :
      (quiet : IsQuiet) (fuel : ℕ) (l l' : EventLoop)
      → IsTidy none l
      → length l.tmp_list < fuel
      → call_loop on_event fuel l ≡ some l'
      → l'.called ≡ l.called ++ reports l.cb_map l.tmp_list
  unfolding call_loop
  quiet_loop quiet zero l l' v enough eq = absurd (omega arith)
  quiet_loop quiet (suc fuel) l l' v enough eq = elim (List-cases l.tmp_list) [
    | inl nothing ↦
        let done : call_loop on_event (suc fuel) l ≡ some l = rw nothing refl in
        let same : l ≡ l' = cc (done, eq) in
        rw (nothing, append-nil) (ap (λ x. x.called) (sym same))
    | inr (fd, rest, head) ↦
        let (l1, eq1, v1, tmp, log, others) = quiet_round quiet fd rest l v head in
        let eq2 = sym (call_loop-next fuel fd rest l l1 head eq1) ∙ eq in
        let before : length l.tmp_list ≡ suc (length rest) = rw head refl in
        let after =
          quiet_loop quiet fuel l1 l' v1 (omega (arith, ap length tmp, enough, before)) eq2 in
        let once : Once (fd ∷ rest) = rw head at v.once.1 in
        after
        ∙ rw (log, tmp, head, reports-eq fd l.cb_map l1.cb_map rest once.0 others, append_assoc)
            refl
  ]

  -- CallReadyListCallbacks with callbacks that make no calls on the loop, as that of the server:
  -- each descriptor on the ready list of tidy tables is called, once, in the order of the list, for
  -- the events that were reported or faked for it; no other is called.
  pub call_ready_list_callbacks-reports :
      (l : EventLoop)
      → IsTidy none l
      → l.tmp_list ≡ []
      → IsQuiet
      → (l' : EventLoop) × (call_ready_list_callbacks on_event l ≡ some l')
        × IsTidy none l'
        × (l'.tmp_list ≡ [])
        × (l'.called ≡ l.called ++ reports l.cb_map l.ready_list)
  unfolding call_ready_list_callbacks
  call_ready_list_callbacks-reports l v idle quiet =
      let (l', eq, v', done) = call_ready_list_callbacks-IsTidy l v idle in
      (
        l',
        eq,
        v',
        done,
        quiet_loop quiet (suc (length l.ready_list)) (swap l) l' (swap-IsTidy l v idle)
            (omega arith) eq,
      )
