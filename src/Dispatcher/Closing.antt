-- ===== src/Dispatcher/Closing.antt =====
-- OnConnectionClosed and CleanUpSession: a closed session leaves the map, its id goes to the
-- time-wait list, and the session waits to be deleted.
use quic_toy.Base.{
  Option, Option-cases, ◌≢◌, nat_beq, nat_beq_iff, ℕ, ◌≡◌, refl, ◌∙◌, sym, ◌⊎◌, List, [], ◌∷◌, ◌++◌,
  true, false, Bool-cases, some, none, arith, nat_eq, inl, inr, if◌then◌else◌,
}
use quic_toy.Base.LinkedMap.{find, contains, erase}
use quic_toy.Base.LinkedMap.Laws.{
  beq_self, contains-erase, find-erase, erase-Distinct, contains_of_find,
}
use quic_toy.Writer.{time_wait_manager, connection, writer_eq}
use quic_toy.TimeWait.{Flags, TimeWaitList}
use quic_toy.TimeWait.Trim.{Admits}
use quic_toy.TimeWait.Invariant.{IsWellFormed}
use quic_toy.TimeWait.Add.{find-result, result_absent, result-IsWellFormed, add_result, add-eq}
use quic_toy.Session.{Connections, Session}
use quic_toy.Dispatcher.{Dispatcher, on_connection_closed, is_empty}
use quic_toy.Dispatcher.Handles.{has_handle, has_handle-erase}
use quic_toy.Dispatcher.Invariant.{IsConsistent}

alarm_of :
    (now : ℕ) (xs : List ℕ) (o : Option ℕ) (deadline : ℕ)
    → o ≡ some deadline
    → (x : ℕ) × ((if is_empty xs then some now else o) ≡ some x)
alarm_of now [] o deadline e = (now, refl)
alarm_of now (x ∷ xs) o deadline e = (deadline, e)

module _ (conns : Connections) (flags : Flags) where
  open conns use {Conn}

  -- The time-wait list with the id of a closed session, which keeps the connection's version and
  -- its close packet.
  abbrev pub list_with : ℕ → Session Conn → ℕ → Dispatcher Conn → TimeWaitList
  list_with id s now d =
      add_result flags id (conns.version s.connection)
        (conns.release_connection_close_packet s.connection) now d.time_wait_list

  abbrev pub closed_state : ℕ → Session Conn → ℕ → Dispatcher Conn → Dispatcher Conn
  closed_state id s now d = record d {
    delete_sessions_alarm =
        if is_empty d.closed_session_list then some now else d.delete_sessions_alarm;
    closed_session_list = d.closed_session_list ++ s.handle ∷ [];
    link = record (d.link) {
      write_blocked_list = erase (connection s.handle) d.link.write_blocked_list;
    };
    time_wait_list = list_with id s now d;
    session_map = erase id d.session_map;
  }

  module _ (id error now : ℕ) (s : Session Conn) (d : Dispatcher Conn)
      (admits : Admits flags.time_wait_list_max_connections)
      (found : find id d.session_map ≡ some s) where
    pub closing-eq :
        (before : ℕ)
        → IsWellFormed flags before d.time_wait_list
        → on_connection_closed conns flags id error now d ≡ some (closed_state id s now d)
    unfolding on_connection_closed
    closing-eq before v =
        rw (found, on_connection_closed)
          (rw (
            add-eq flags id (conns.version s.connection)
              (conns.release_connection_close_packet s.connection) before now d.time_wait_list
              admits v))

    pub closing-listed :
        IsConsistent conns flags now d → contains id (list_with id s now d).connection_id_map ≡ true
    closing-listed v = contains_of_find id _ _ (
        find-result flags id (conns.version s.connection)
          (conns.release_connection_close_packet s.connection) now now d.time_wait_list admits
          v.list)

    absent_after :
        IsConsistent conns flags now d
        → (j : ℕ) → contains j (erase id d.session_map) ≡ true
        → contains j (list_with id s now d).connection_id_map ≡ false
    absent_after v j open_session =
        let kept : (if nat_eq.beq id j then false else contains j d.session_map) ≡ true =
          sym (contains-erase j id d.session_map v.sessions) ∙ open_session in
        elim (Bool-cases (nat_eq.beq id j)) [
          | inl same ↦ cc (rw same at kept)
          | inr other ↦
              result_absent flags id (conns.version s.connection)
                (conns.release_connection_close_packet s.connection) now now d.time_wait_list admits
                v.list j (λ e. cc ((nat_eq.beq_iff id j).1 e)) (v.apart j (rw other at kept))
        ]

    filed_after :
        IsConsistent conns flags now d
        → (j : ℕ) (r : Session Conn) → find j (erase id d.session_map) ≡ some r
        → conns.connection_id r.connection ≡ j
    filed_after v j r e =
        let kept : (if nat_eq.beq id j then none else find j d.session_map) ≡ some r =
          sym (find-erase j id d.session_map v.sessions) ∙ e in
        elim (Bool-cases (nat_eq.beq id j)) [
          | inl same ↦ cc (rw same at kept)
          | inr other ↦ v.filed j r (rw other at kept)
        ]

    live_after :
        IsConsistent conns flags now d
        → (h : ℕ)
        → contains (connection h) (erase (connection s.handle) d.link.write_blocked_list) ≡ true
        → has_handle h (erase id d.session_map) ≡ true
    live_after v h e =
        let kept : (if nat_beq s.handle h
              then false
              else contains (connection h) d.link.write_blocked_list)
            ≡ true =
          sym (
            contains-erase (connection h) (connection s.handle) d.link.write_blocked_list v.waiting)
          ∙ e in
        elim (Bool-cases (nat_beq s.handle h)) [
          | inl same ↦ cc (rw same at kept)
          | inr other ↦
              has_handle-erase h id d.session_map s found (λ p. cc ((nat_beq_iff s.handle h).1 p))
                (v.live h (rw other at kept))
        ]

    queued_after :
        IsConsistent conns flags now d
        → (d.time_wait_list.pending_packets_queue ≡ [])
          ⊎ (contains time_wait_manager (erase (connection s.handle) d.link.write_blocked_list)
              ≡ true)
    queued_after v = elim v.queued [
      | inl nothing ↦ inl nothing
      | inr waits ↦ inr (
          contains-erase time_wait_manager (connection s.handle) d.link.write_blocked_list v.waiting
          ∙ waits)
    ]

    alarm_after :
        IsConsistent conns flags now d
        → (deadline : ℕ) × ((closed_state id s now d).delete_sessions_alarm ≡ some deadline)
    alarm_after v = elim v.alarmed [
      | inl first ↦ (now, rw first)
      | inr (deadline, set) ↦
          alarm_of now d.closed_session_list d.delete_sessions_alarm deadline set
    ]

    pub closing-IsConsistent :
        IsConsistent conns flags now d → IsConsistent conns flags now (closed_state id s now d)
    closing-IsConsistent v = record {
      sessions = erase-Distinct id d.session_map v.sessions;
      waiting = erase-Distinct (connection s.handle) d.link.write_blocked_list v.waiting;
      list =
          result-IsWellFormed flags id (conns.version s.connection)
            (conns.release_connection_close_packet s.connection) now now d.time_wait_list admits
            v.list (omega arith) v.list.dated;
      apart = absent_after v;
      filed = filed_after v;
      live = live_after v;
      queued = queued_after v;
      alarmed = inr (alarm_after v);
      supports = v.supports;
    }

  module _ (id now : ℕ) (d : Dispatcher Conn) where
    -- What a reported close does with the session for the id, if there is one.
    abbrev pub IsTakenOut : Dispatcher Conn → Type 0
    IsTakenOut d' =
        ((find id d.session_map ≡ none) × (d' ≡ d))
        ⊎ ((s : Session Conn) × (find id d.session_map ≡ some s)
            × (contains id d'.time_wait_list.connection_id_map ≡ true)
            × (contains (connection s.handle) d'.link.write_blocked_list ≡ false)
            × (d'.closed_session_list ≡ d.closed_session_list ++ s.handle ∷ [])
            × ((deadline : ℕ) × (d'.delete_sessions_alarm ≡ some deadline)))

    -- OnConnectionClosed of a consistent dispatcher returns for every id, and leaves it consistent.
    -- Afterwards no session has the id, and every other session is as it was. A session that had it is
    -- queued for deletion, with the alarm for that set; its connection does not wait for the socket,
    -- and the id is on the time-wait list. If there was none, nothing is changed. The limit of the
    -- time-wait list is not 0.
    pub on_connection_closed-IsTakenOut :
        (error : ℕ)
        → Admits flags.time_wait_list_max_connections
        → IsConsistent conns flags now d
        → (d' : Dispatcher Conn) × (on_connection_closed conns flags id error now d ≡ some d')
          × IsConsistent conns flags now d'
          × (find id d'.session_map ≡ none)
          × ((j : ℕ) → id ≢ j → find j d'.session_map ≡ find j d.session_map)
          × IsTakenOut d'
    on_connection_closed-IsTakenOut error admits v = elim (Option-cases (find id d.session_map)) [
      | inl nobody ↦ (
        d,
        unfold on_connection_closed in rw (nobody, on_connection_closed) refl,
        v,
        nobody,
        λ j other. refl,
        inl (nobody, refl),
      )
      | inr (s, found) ↦ (
        closed_state id s now d,
        closing-eq id error now s d admits found now v.list,
        closing-IsConsistent id error now s d admits found v,
        find-erase id id d.session_map v.sessions ∙ rw (beq_self id) refl,
        λ j other. find-erase j id d.session_map v.sessions ∙ elim (Bool-cases (nat_beq id j)) [
          | inl same ↦ absurd (other ((nat_beq_iff id j).0 same))
          | inr apart ↦ rw apart refl
        ],
        inr (
          s,
          found,
          closing-listed id error now s d admits found v,
          contains-erase (connection s.handle) (connection s.handle) d.link.write_blocked_list
                v.waiting
              ∙ rw (beq_self s.handle) refl,
          refl,
          alarm_after id error now s d admits found v,
        ),
      )
    ]
