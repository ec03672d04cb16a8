-- ===== src/Server/Life.antt =====
-- Runs of a server: any order of the events of its socket, of its alarms and of time.
use quic_toy.Base.{
  else_branch, ap, ◌∙◌, ◌>>=◌, Option-cases, ◌⊎◌, true, if◌then◌else◌, none, nat_eq, ℕ, ◌+◌, ◌≤◌,
  ◌≡◌, some, [], ◌∷◌, List, refl, arith, Bool-cases, inl, inr,
}
use quic_toy.Session.{ClosesNoStream, Connections, IsLawful}
use quic_toy.TimeWait.{Flags}
use quic_toy.TimeWait.Trim.{Admits}
use quic_toy.TimeWait.Expiry.{clean_up_result}
use quic_toy.Dispatcher.Shutdown.{shutdown-IsConsistent}
use quic_toy.TimeWait.{ConnectionIdData}
use quic_toy.Base.LinkedMap.{find}
use quic_toy.Writer.{Platform}
use quic_toy.Dispatcher.{Dispatcher, Framer}
use quic_toy.Dispatcher.Invariant.{IsConsistent, IsQuiescent, IsSettled}
use quic_toy.Dispatcher.Routes.{IsVersioned}
use quic_toy.Server.Alarms.{
  overdue, evicted, later-IsConsistent, deleted-IsConsistent, clean_up_on_alarm-IsConsistent,
}
use quic_toy.Base.Int.{negsuc}
use quic_toy.Dispatcher.Events.{event}
use quic_toy.Dispatcher.Processing.{quiet_after}
use quic_toy.Server.{Server, shutdown_server}
use quic_toy.Server.Events.{on_event-IsReady}
use quic_toy.Server.Schedule.{
  socket_event, passes, Host, Event, step, run, serve, sessions_alarm, list_alarm, connection_alarm,
  delete_sessions_on_alarm, is_due,
}

-- The time that passes in an event, and in a run.
abbrev pub delay : Event → ℕ
delay (socket_event _ _ _) = 0
delay sessions_alarm = 0
delay list_alarm = 0
delay (connection_alarm _ _) = 0
delay (passes time) = time

abbrev pub elapsed : List Event → ℕ
elapsed [] = 0
elapsed (e ∷ es) = delay e + elapsed es

module _ (conns : Connections) (flags : Flags) (platform : Platform) (framer : Framer) where
  open conns use {Conn}

  module _ (lawful : IsLawful conns) (admits : Admits flags.time_wait_list_max_connections)
      (versioned : IsVersioned conns flags platform framer lawful admits) (port : ℕ) where
    abbrev pub IsSound : Host Conn → Type 0
    IsSound h = IsConsistent conns flags h.now h.dispatcher × IsSettled conns flags h.dispatcher

    step-IsSound :
        (e : Event) (h : Host Conn)
        → IsConsistent conns flags h.now h.dispatcher
        → IsQuiescent conns flags h.dispatcher
        → h.now + delay e ≤ flags.infinite
        → (h' : Host Conn) × (step conns flags platform framer port e h ≡ some h')
          × (h'.now ≡ h.now + delay e)
          × IsSound h'
          × (ClosesNoStream conns → h'.dispatcher.exited ≡ h.dispatcher.exited)
    unfolding step
    step-IsSound (socket_event readable writable datagrams) h v quiet k =
        let (d, dropped, out, eq, v', quiet', _, kept) =
          on_event-IsReady conns flags platform framer lawful admits versioned readable writable
            datagrams port h.now h.dropped h.dispatcher v quiet in
        (
          record h { dispatcher = d; dropped = dropped },
          rw eq refl,
          omega arith,
          (v', quiet'),
          kept,
        )
    step-IsSound sessions_alarm h v quiet k =
        elim (Bool-cases (is_due h.now h.dispatcher.delete_sessions_alarm)) [
          | inl due ↦ (
            record h {
              dispatcher = delete_sessions_on_alarm conns flags platform framer h.dispatcher;
            },
            rw due refl,
            omega arith,
            (deleted-IsConsistent conns flags platform framer h.now h.dispatcher v, inr quiet),
            unfold delete_sessions_on_alarm in λ _. refl,
          )
          | inr early ↦ (h, rw early refl, omega arith, (v, inr quiet), λ _. refl)
        ]
    step-IsSound list_alarm h v quiet k =
        elim (Bool-cases (is_due h.now h.dispatcher.time_wait_list.clean_up_alarm)) [
          | inl due ↦
              let (eq, v') =
                clean_up_on_alarm-IsConsistent conns flags platform framer h.now h.dispatcher v in
              (
                record h { dispatcher = _ },
                rw (due, eq) refl,
                omega arith,
                (v', inr quiet),
                λ _. refl,
              )
          | inr early ↦ (h, rw early refl, omega arith, (v, inr quiet), λ _. refl)
        ]
    step-IsSound (connection_alarm id which) h v quiet k =
        elim (Option-cases (find id h.dispatcher.session_map)) [
          | inl nobody ↦ (h, rw (nobody, step) refl, omega arith, (v, inr quiet), λ _. refl)
          | inr (s, found) ↦
              let log = h.dispatcher.link.attempts in
              let (d, eq, r) =
                event conns flags platform id h.now s (conns.on_alarm which log s.connection).0
                  h.dispatcher found (lawful.alarm_id which log s.connection) v admits
                  (conns.on_alarm which log s.connection).1
                  (lawful.alarm_orderly which log s.connection) in
              (
                record h { dispatcher = d },
                rw (found, step) (rw eq refl),
                omega arith,
                (r.consistent, inr (quiet_after h.dispatcher.link d.link quiet r.growth)),
                λ n. r.stays (n.3 which log s.connection),
              )
        ]
    step-IsSound (passes time) h v quiet k = (
      record h { now = h.now + time },
      refl,
      omega arith,
      (
        later-IsConsistent conns flags platform framer h.now (h.now + time) h.dispatcher v
            (omega arith) (omega (arith, k)),
        inr quiet,
      ),
      λ _. refl,
    )

    -- Every run of a server's events comes to its end: any order of readiness of its socket with
    -- any datagrams, of the alarms of its sessions' connections, of its own two alarms and of time.
    -- At the end the dispatcher is consistent. Either all of the events have been handled, and
    -- writers wait only while the socket is blocked; or exit(0) has ended the program before, which
    -- does not happen in a run if no connection closes a stream. It is assumed that the program had
    -- ended before the run or writers waited only while the socket was blocked, that the clock
    -- stays below the infinite time, that connections are lawful, that the limit of the time-wait
    -- list is not 0, and that the framer gives a version with the version flag.
    pub run-IsConsistent :
        (es : List Event) (h : Host Conn)
        → IsConsistent conns flags h.now h.dispatcher
        → IsSettled conns flags h.dispatcher
        → h.now + elapsed es ≤ flags.infinite
        → (h' : Host Conn) × (run conns flags platform framer port es h ≡ some h')
          × IsConsistent conns flags h'.now h'.dispatcher
          × ((h'.dispatcher.exited ≡ true)
              ⊎ ((h'.now ≡ h.now + elapsed es) × IsQuiescent conns flags h'.dispatcher))
          × (ClosesNoStream conns → h'.dispatcher.exited ≡ h.dispatcher.exited)
    unfolding run
    run-IsConsistent [] h v settled k = (
      h,
      refl,
      v,
      elim settled [ inl gone ↦ inl gone | inr quiet ↦ inr (omega arith, quiet) ],
      λ _. refl,
    )
    run-IsConsistent (e ∷ es) h v settled k = elim (Bool-cases h.dispatcher.exited) [
      | inl gone ↦ (h, rw gone refl, v, inl gone, λ _. refl)
      | inr runs ↦
          let quiet : IsQuiescent conns flags h.dispatcher = elim settled [
            | inl gone ↦ cc (gone, runs)
            | inr quiet ↦ quiet
          ] in
          let (h', eq, after, (v', settled'), kept) = step-IsSound e h v quiet (omega (arith, k)) in
          let (h'', eq', v'', outcome, kept') =
            run-IsConsistent es h' v' settled' (omega (arith, k, after)) in
          (
            h'',
            else_branch h.dispatcher.exited _ _ runs
                ∙ ap (λ o. o >>= λ a. run conns flags platform framer port es a) eq
                ∙ eq',
            v'',
            elim outcome [
              | inl gone ↦ inl gone
              | inr (after', quiet'') ↦ inr (omega (arith, after, after'), quiet'')
            ],
            λ n. kept' n ∙ kept n,
          )
    ]

    -- A server that is shut down after a run of its events: Shutdown comes to its end. Either no
    -- session and no closed session is left, and the server has no socket; or exit(0) has ended the
    -- program, in the run or in Shutdown, which does not happen if no connection closes a stream.
    -- What is assumed is what a run needs.
    pub serve-IsConsistent :
        (es : List Event) (s : Server Conn) (h : Host Conn)
        → IsConsistent conns flags h.now h.dispatcher
        → IsSettled conns flags h.dispatcher
        → h.now + elapsed es ≤ flags.infinite
        → (s' : Server Conn) × (d : Dispatcher Conn) × (serve conns flags platform framer port es s
              h
            ≡ some s')
          × (s'.dispatcher ≡ some d)
          × ((d.exited ≡ true)
              ⊎ ((d.session_map ≡ []) × (d.closed_session_list ≡ []) × (s'.fd ≡ negsuc 0)))
          × (ClosesNoStream conns → d.exited ≡ h.dispatcher.exited)
    unfolding serve shutdown_server
    serve-IsConsistent es s h v settled k =
        let (h', eq, v', outcome, kept) = run-IsConsistent es h v settled k in
        let (d, eq', v'', done, kept') =
          shutdown-IsConsistent conns flags platform lawful admits h'.now h'.dispatcher v' in
        (
          record s { dispatcher = some d; fd = if d.exited then s.fd else negsuc 0 },
          d,
          rw eq (rw eq' refl),
          refl,
          elim (Bool-cases d.exited) [
            | inl gone ↦ inl gone
            | inr runs ↦ elim done [
              | inl gone ↦ inl gone
              | inr (empty, deleted) ↦ inr (empty, deleted, rw runs refl)
            ]
          ],
          λ n. kept' n ∙ kept n,
        )

    -- After a run, an id whose time in time wait is over does not stay listed: the clean-up alarm is
    -- due, and its call takes the id off the list. What is assumed is what a run needs.
    pub run_evicts :
        (es : List Event) (h h' : Host Conn) (id : ℕ) (e : ConnectionIdData)
        → IsConsistent conns flags h.now h.dispatcher
        → IsSettled conns flags h.dispatcher
        → h.now + elapsed es ≤ flags.infinite
        → run conns flags platform framer port es h ≡ some h'
        → find id h'.dispatcher.time_wait_list.connection_id_map ≡ some e
        → e.time_added + h'.dispatcher.time_wait_list.time_wait_period ≤ h'.now
        → (h'' : Host Conn) × (step conns flags platform framer port list_alarm h' ≡ some h'')
          × (find id h''.dispatcher.time_wait_list.connection_id_map ≡ none)
    unfolding step
    run_evicts es h h' id e v quiet k eq found over =
        let (h1, eq1, v1, _, _) = run-IsConsistent es h v quiet k in
        let same : h1 ≡ h' = cc (eq1, eq) in
        let v' : IsConsistent conns flags h'.now h'.dispatcher = rw same at v1 in
        let d = h'.dispatcher in
        let due = overdue h'.now id d.time_wait_list e v'.list.armed found over in
        let (eq', v'') = clean_up_on_alarm-IsConsistent conns flags platform framer h'.now d v' in
        (
          record h' {
            dispatcher = record d { time_wait_list = clean_up_result h'.now d.time_wait_list };
          },
          rw (due, eq') refl,
          evicted h'.now id d.time_wait_list e v'.list.distinct found over,
        )
