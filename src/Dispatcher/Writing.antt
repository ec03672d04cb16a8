-- ===== src/Dispatcher/Writing.antt =====
-- OnCanWrite of net/tools/quic/quic_dispatcher.cc: the writers that wait for the socket get their
-- turn until it is blocked again.
use quic_toy.Base.LinkedMap.Laws.{contains-insert, insert-Distinct}
use quic_toy.TimeWait.Sending.{send_pending-list, send_pending-Tried, on_can_write-IsDelivery}
use quic_toy.Writer.Laws.{Tried, Tried-trans, Tried-same, Tried-refl}
use quic_toy.Dispatcher.Events.{event}
use quic_toy.Dispatcher.Handles.{has_handle, find_handle_of_has_handle}
use quic_toy.Dispatcher.Actions.{NoGrowth}
use quic_toy.Base.LinkedMap.{insert, Distinct, contains}
use quic_toy.Dispatcher.Invariant.{IsSettled, IsConsistent}
use quic_toy.Dispatcher.{
  on_can_write, Link, write_loop, TimeWaitList, time_wait_manager, connection, resume,
  BlockedWriter, Dispatcher,
}
use quic_toy.TimeWait
use quic_toy.TimeWait.Trim.{Admits}
use quic_toy.Writer.{Platform, writer_eq, set_writable}
use quic_toy.TimeWait.{Flags}
use quic_toy.Session.{ClosesNoStream, IsLawful, Connections}
use quic_toy.Base.{
  zero, refl, Bool-cases, List-cases, suc, ◌∙◌, ◌<◌, length, sym, ◌⊎◌, nat_eq, inr, arith, false,
  inl, true, ◌∷◌, some, ◌≡◌, Bool, List, ℕ,
}

module _ (conns : Connections) (flags : Flags) (platform : Platform) (lawful : IsLawful conns)
    (admits : Admits flags.time_wait_list_max_connections) where
  open conns use {Conn}

  abbrev without_first : List (BlockedWriter × Bool) → Dispatcher Conn → Dispatcher Conn
  without_first waiting d = record d { link = record (d.link) { write_blocked_list = waiting } }

  module _ (now : ℕ) (d : Dispatcher Conn) (b : Bool) (waiting : List (BlockedWriter × Bool))
      (v : IsConsistent conns flags now d) where
    contains_rest :
        (w x : BlockedWriter)
        → d.link.write_blocked_list ≡ (w, b) ∷ waiting
        → contains x waiting ≡ true
        → contains x d.link.write_blocked_list ≡ true
    unfolding contains
    contains_rest w x e h = rw e (ground arith)

    popped-IsConsistent :
        (h : ℕ)
        → d.link.write_blocked_list ≡ (connection h, b) ∷ waiting
        → IsConsistent conns flags now (without_first waiting d)
    unfolding contains
    popped-IsConsistent h e = record {
      sessions = v.sessions;
      waiting = (rw e at v.waiting).1;
      list = v.list;
      apart = v.apart;
      filed = v.filed;
      live = λ k p. v.live k (contains_rest (connection h) (connection k) e p);
      queued = elim v.queued [ inl nothing ↦ inl nothing | inr waits ↦ inr (rw e at waits) ];
      alarmed = v.alarmed;
      supports = v.supports;
    }

    -- What a turn leaves behind.
    abbrev IsTurn : BlockedWriter → Type 0
    IsTurn w =
        (d' : Dispatcher Conn) × (resume conns flags platform w now (without_first waiting d)
          ≡ some d')
        × IsConsistent conns flags now d'
        × NoGrowth (without_first waiting d).link d'.link
        × Tried d.link d'.link
        × (ClosesNoStream conns → d'.exited ≡ d.exited)

    connection-IsTurn :
        (h : ℕ) → d.link.write_blocked_list ≡ (connection h, b) ∷ waiting → IsTurn (connection h)
    unfolding resume contains
    connection-IsTurn h e =
        let listed : contains (connection h) d.link.write_blocked_list ≡ true =
          rw e (ground (arith, nat_eq.beq_iff h h)) in
        let (id, s, found, same, filed) =
          find_handle_of_has_handle h d.session_map v.sessions (v.live h listed) in
        let outcome = conns.on_can_write d.link.attempts s.connection in
        let (d', eq, r) =
          event conns flags platform id now s outcome.0 (without_first waiting d) filed
            (lawful.write_id d.link.attempts s.connection) (popped-IsConsistent h e) admits
            outcome.1 (lawful.write_orderly d.link.attempts s.connection) in
        (
          d',
          rw found eq,
          r.consistent,
          r.growth,
          Tried-trans d.link (without_first waiting d).link d'.link
              (Tried-same d.link (without_first waiting d).link refl refl) r.tried,
          λ n. r.stays (n.1 d.link.attempts s.connection),
        )

    abbrev after_manager : TimeWaitList × Link
    after_manager = TimeWait.on_can_write platform d.time_wait_list (without_first waiting d).link

    list_kept :
        (after_manager.1.write_blocked_list ≡ waiting)
        ⊎ ((after_manager.1.write_blocked ≡ true)
            × (after_manager.1.write_blocked_list ≡ insert time_wait_manager true waiting))
    unfolding TimeWait.on_can_write
    list_kept =
        send_pending-list platform d.time_wait_list.pending_packets_queue
          (without_first waiting d).link

    manager_waiting : Distinct waiting → Distinct after_manager.1.write_blocked_list
    manager_waiting u = elim list_kept [
      | inl same ↦ rw same u
      | inr (_, more) ↦ rw more (insert-Distinct time_wait_manager true waiting u)
    ]

    manager_live :
        (h : ℕ)
        → d.link.write_blocked_list ≡ (time_wait_manager, b) ∷ waiting
        → contains (connection h) after_manager.1.write_blocked_list ≡ true
        → has_handle h d.session_map ≡ true
    manager_live h e p = elim list_kept [
      | inl same ↦ v.live h (contains_rest time_wait_manager (connection h) e (rw same at p))
      | inr (_, more) ↦ v.live h (
          contains_rest time_wait_manager (connection h) e
            (sym (contains-insert (connection h) time_wait_manager true waiting) ∙ (rw more at p)))
    ]

    manager-IsConsistent :
        d.link.write_blocked_list ≡ (time_wait_manager, b) ∷ waiting
        → IsConsistent conns flags now
            (record d { time_wait_list = after_manager.0; link = after_manager.1 })
    unfolding TimeWait.on_can_write
    manager-IsConsistent e = record {
      sessions = v.sessions;
      waiting = manager_waiting (rw e at v.waiting).1;
      list = record {
        distinct = v.list.distinct;
        in_order = v.list.in_order;
        dated = v.list.dated;
        within = v.list.within;
        armed = v.list.armed;
      };
      apart = v.apart;
      filed = v.filed;
      live = λ h p. manager_live h e p;
      queued =
          let delivery =
            on_can_write-IsDelivery platform d.time_wait_list (without_first waiting d).link in
          elim delivery.waits [ inl done ↦ inl done | inr waits ↦ inr waits.1 ];
      alarmed = v.alarmed;
      supports = v.supports;
    }

    manager-Tried : Tried d.link after_manager.1
    unfolding TimeWait.on_can_write
    manager-Tried =
        Tried-trans d.link (without_first waiting d).link after_manager.1
          (Tried-same d.link (without_first waiting d).link refl refl)
          (send_pending-Tried platform d.time_wait_list.pending_packets_queue
            (without_first waiting d).link)

    manager-IsTurn :
        d.link.write_blocked_list ≡ (time_wait_manager, b) ∷ waiting
        → d.link.write_blocked ≡ false
        → IsTurn time_wait_manager
    unfolding resume
    manager-IsTurn e free = (
      record d { time_wait_list = after_manager.0; link = after_manager.1 },
      refl,
      manager-IsConsistent e,
      elim list_kept [
        | inl same ↦ inr (free, rw same (omega arith))
        | inr (blocked, _) ↦ inl blocked
      ],
      manager-Tried,
      λ _. refl,
    )

    -- A waiting writer's turn comes to its end, and leaves a consistent dispatcher. No writer is
    -- queued in it, unless the socket is blocked again.
    every_writer-IsTurn :
        (w : BlockedWriter)
        → d.link.write_blocked_list ≡ (w, b) ∷ waiting
        → d.link.write_blocked ≡ false
        → IsTurn w
    every_writer-IsTurn time_wait_manager e free = manager-IsTurn e free
    every_writer-IsTurn (connection h) e free = connection-IsTurn h e

  -- Turns are given until the socket is blocked or nobody waits.
  write_loop_ends :
      (fuel now : ℕ) (d : Dispatcher Conn)
      → IsConsistent conns flags now d
      → (d.link.write_blocked ≡ true) ⊎ (length d.link.write_blocked_list < fuel)
      → 0 < fuel
      → (d' : Dispatcher Conn) × (write_loop conns flags platform fuel now d ≡ some d')
        × IsConsistent conns flags now d'
        × IsSettled conns flags d'
        × Tried d.link d'.link
        × (ClosesNoStream conns → d'.exited ≡ d.exited)
  unfolding write_loop
  write_loop_ends zero now d v enough some_fuel = absurd (omega arith)
  write_loop_ends (suc fuel) now d v enough some_fuel =
      elim (List-cases d.link.write_blocked_list) [
        | inl nobody ↦ (d, rw nobody refl, v, inr (inl nobody), Tried-refl d.link, λ _. refl)
        | inr ((w, b), waiting, someone) ↦ elim (Bool-cases d.exited) [
          | inl gone ↦ (d, rw (someone, gone) refl, v, inl gone, Tried-refl d.link, λ _. refl)
          | inr runs ↦ elim (Bool-cases d.link.write_blocked) [
            | inl blocked ↦ (
              d,
              rw (someone, runs, blocked) refl,
              v,
              inr (inr blocked),
              Tried-refl d.link,
              λ _. refl,
            )
            | inr free ↦
                let enough' : (d.link.write_blocked ≡ true) ⊎ (suc (length waiting) < suc fuel) =
                  rw someone at enough in
                let (d', eq, v', g, t, k) = every_writer-IsTurn now d b waiting v w someone free in
                let (d'', eq', v'', q, t', k') =
                  write_loop_ends fuel now d' v' (ground (arith, enough'))
                    (ground (arith, enough')) in
                (
                  d'',
                  rw (someone, eq, runs, free) eq',
                  v'',
                  q,
                  Tried-trans d.link d'.link d''.link t t',
                  λ n. k' n ∙ k n,
                )
          ]
        ]
      ]

  -- OnCanWrite of a consistent dispatcher comes to its end, on the fuel it is given, and leaves it
  -- consistent. Afterwards no writer is on the list, or the socket is blocked again; or exit(0) has
  -- ended the program, which does not happen in the call if no connection closes a stream. If the
  -- socket is blocked after the call, some packet was handed to it in the call. It is assumed that
  -- connections are lawful and that the limit of the time-wait list is not 0.
  pub on_can_write-IsConsistent :
      (now : ℕ) (d : Dispatcher Conn)
      → IsConsistent conns flags now d
      → (d' : Dispatcher Conn) × (on_can_write conns flags platform now d ≡ some d')
        × IsConsistent conns flags now d'
        × IsSettled conns flags d'
        × (d'.link.write_blocked ≡ true → length d.link.attempts < length d'.link.attempts)
        × (ClosesNoStream conns → d'.exited ≡ d.exited)
  unfolding on_can_write set_writable
  on_can_write-IsConsistent now d v =
      let (d', eq, v', settled, tried, kept) =
        write_loop_ends (suc (length d.link.write_blocked_list)) now
          (record d { link = set_writable d.link })
          (record {
            sessions = v.sessions;
            waiting = v.waiting;
            list = v.list;
            apart = v.apart;
            filed = v.filed;
            live = v.live;
            queued = v.queued;
            alarmed = v.alarmed;
            supports = v.supports;
          })
          (inr (omega arith)) (omega arith) in
      (d', eq, v', settled, λ blocked. ground (arith, tried, blocked), kept)
