-- ===== src/Dispatcher/Shutdown.antt =====
-- Shutdown of net/tools/quic/quic_dispatcher.cc: every session's connection is told to close.
use quic_toy.Dispatcher.Events.{event-length, event}
use quic_toy.Base.LinkedMap.Laws.{beq_self}
use quic_toy.Base.{
  true, false, if◌then◌else◌, ◌⊎◌, Bool-cases, nat_eq, ◌>>=◌, ◌∙◌, ap, ◌∷◌, List, refl, zero, ℕ,
  inr, inl, List-cases, suc, arith, [], ◌<◌, some, length, ◌≡◌,
}
use quic_toy.Dispatcher.Invariant.{IsConsistent}
use quic_toy.Dispatcher.{run_event, Dispatcher, delete_sessions, shutdown, shutdown_loop}
use quic_toy.Writer.{Platform}
use quic_toy.TimeWait.{Flags}
use quic_toy.Base.LinkedMap.{find}
use quic_toy.Session.{ClosesNoStream, Session, IsLawful, Connections}
use quic_toy.TimeWait.Trim.{Admits}

module _ (conns : Connections) (flags : Flags) (platform : Platform) (lawful : IsLawful conns)
    (admits : Admits flags.time_wait_list_max_connections) where
  open conns use {Conn}

  -- A session's connection that is told to close takes one session out of the map.
  close_first :
      (now id : ℕ) (s : Session Conn) (rest : List (ℕ × Session Conn)) (d : Dispatcher Conn)
      → IsConsistent conns flags now d
      → d.session_map ≡ (id, s) ∷ rest
      → (d' : Dispatcher Conn) × (run_event conns flags platform id s
            (conns.send_connection_close conns.quic_peer_going_away d.link.attempts s.connection)
            now
            d
          ≡ some d')
        × IsConsistent conns flags now d'
        × ((d'.exited ≡ true) ⊎ (suc (length d'.session_map) ≡ length d.session_map))
        × (ClosesNoStream conns → d'.exited ≡ d.exited)
  unfolding find
  close_first now id s rest d v first =
      let found : find id d.session_map ≡ some s = rw first (rw (beq_self id)) in
      let outcome =
        conns.send_connection_close conns.quic_peer_going_away d.link.attempts s.connection in
      let same_id = lawful.close_id conns.quic_peer_going_away d.link.attempts s.connection in
      let (d', eq, r) =
        event conns flags platform id now s outcome.0 d found same_id v admits outcome.1
          (lawful.close_orderly conns.quic_peer_going_away d.link.attempts s.connection) in
      let less =
        event-length conns flags platform id now s outcome.0 d found same_id v admits outcome.1 d'
          r in
      (
        d',
        eq,
        r.consistent,
        elim (lawful.close_reported conns.quic_peer_going_away d.link.attempts s.connection) [
          | inl closed ↦ inr (rw closed at less)
          | inr stream_closed ↦ inl (r.ended stream_closed)
        ],
        λ none_open. r.stays (none_open.2 conns.quic_peer_going_away d.link.attempts s.connection),
      )

  shutdown_loop-next :
      (fuel now id : ℕ) (s : Session Conn) (rest : List (ℕ × Session Conn)) (d d' : Dispatcher Conn)
      → d.session_map ≡ (id, s) ∷ rest
      → run_event conns flags platform id s
          (conns.send_connection_close conns.quic_peer_going_away d.link.attempts s.connection)
          now
          d
        ≡ some d'
      → d.exited ≡ false
      → shutdown_loop conns flags platform (suc fuel) now d
        ≡ shutdown_loop conns flags platform fuel now d'
  unfolding shutdown_loop
  shutdown_loop-next fuel now id s rest d d' first eq runs =
      ap
        (λ m. elim m [
          | [] ↦ some d
          | (id, s) ∷ _ ↦
              let next =
                run_event conns flags platform id s
                  (conns.send_connection_close conns.quic_peer_going_away d.link.attempts
                    s.connection)
                  now d
                >>= λ d'. shutdown_loop conns flags platform fuel now d' in
              if d.exited then some d else next
        ])
        first
      ∙ rw (eq, runs) refl

  shutdown_loop_ends :
      (fuel now : ℕ) (d : Dispatcher Conn)
      → IsConsistent conns flags now d
      → 0 < fuel
      → (d.exited ≡ true) ⊎ (length d.session_map < fuel)
      → (d' : Dispatcher Conn) × (shutdown_loop conns flags platform fuel now d ≡ some d')
        × IsConsistent conns flags now d'
        × ((d'.exited ≡ true) ⊎ (d'.session_map ≡ []))
        × (ClosesNoStream conns → d'.exited ≡ d.exited)
  unfolding shutdown_loop
  shutdown_loop_ends zero now d v some_fuel enough = absurd (omega arith)
  shutdown_loop_ends (suc fuel) now d v some_fuel enough = elim (List-cases d.session_map) [
    | inl nothing ↦ (d, rw nothing refl, v, inr nothing, λ _. refl)
    | inr ((id, s), rest, first) ↦ elim (Bool-cases d.exited) [
      | inl gone ↦ (d, rw (first, gone) refl, v, inl gone, λ _. refl)
      | inr runs ↦
          let (d', eq, v', progress, stays) = close_first now id s rest d v first in
          let room : (d.exited ≡ true) ⊎ (suc (length rest) < suc fuel) = rw first at enough in
          let (d'', eq', v'', done, stays') =
            shutdown_loop_ends fuel now d' v' (ground (arith, room, runs))
              (ground (arith, progress, enough)) in
          (
            d'',
            shutdown_loop-next fuel now id s rest d d' first eq runs ∙ eq',
            v'',
            done,
            λ n. stays' n ∙ stays n,
          )
    ]
  ]

  -- Shutdown of a consistent dispatcher comes to its end, on the fuel it is given, and leaves it
  -- consistent: it returns, and no session and no closed session is left; or exit(0) has ended the
  -- program, which does not happen in the call if no connection closes a stream. It is assumed that
  -- connections are lawful, so that each that is told to close reports that, or closes a stream,
  -- and that the limit of the time-wait list is not 0.
  pub shutdown-IsConsistent :
      (now : ℕ) (d : Dispatcher Conn)
      → IsConsistent conns flags now d
      → (d' : Dispatcher Conn) × (shutdown conns flags platform now d ≡ some d')
        × IsConsistent conns flags now d'
        × ((d'.exited ≡ true) ⊎ ((d'.session_map ≡ []) × (d'.closed_session_list ≡ [])))
        × (ClosesNoStream conns → d'.exited ≡ d.exited)
  unfolding shutdown delete_sessions
  shutdown-IsConsistent now d v =
      let (d', eq, v', done, stays) =
        shutdown_loop_ends (suc (length d.session_map)) now d v (omega arith) (inr (omega arith)) in
      elim (Bool-cases d'.exited) [
        | inl gone ↦ (d', rw (eq, gone) refl, v', inl gone, stays)
        | inr runs ↦ (
          delete_sessions conns flags d',
          rw (eq, runs) refl,
          record {
            sessions = v'.sessions;
            waiting = v'.waiting;
            list = v'.list;
            apart = v'.apart;
            filed = v'.filed;
            live = v'.live;
            queued = v'.queued;
            alarmed = inl refl;
            supports = v'.supports;
          },
          elim done [ inl gone ↦ cc (gone, runs) | inr nothing ↦ inr (nothing, refl) ],
          stays,
        )
      ]
