-- ===== src/Dispatcher/Invariant.antt =====
-- What holds of a dispatcher between two calls of it, and between the actions of a connection.
use quic_toy.Base.{List, ◌∷◌, ℕ, ◌≡◌, ◌⊎◌, [], true, false, some, nat_eq}
use quic_toy.Base.LinkedMap.{find, contains, Distinct}
use quic_toy.Writer.{time_wait_manager, connection, writer_eq}
use quic_toy.TimeWait.{Flags}
use quic_toy.TimeWait.Invariant.{IsWellFormed}
use quic_toy.Session.{Connections, Session}
use quic_toy.Dispatcher.{Dispatcher}
use quic_toy.Dispatcher.Handles.{has_handle}

module _ (conns : Connections) (flags : Flags) where
  open conns use {Conn}

  -- No id has two sessions or waits twice; no id has a session and a place on the time-wait list;
  -- a session is filed under its connection's id; a connection that waits for the socket belongs to
  -- a session; the manager waits if it has answers queued; and while closed sessions are to be
  -- deleted, the alarm for that is set. A version is supported.
  pub record IsConsistent (now : ℕ) (d : Dispatcher Conn) : Type 0 where
    pub sessions : Distinct d.session_map
    pub waiting : Distinct d.link.write_blocked_list
    pub list : IsWellFormed flags now d.time_wait_list
    pub apart :
        (id : ℕ)
        → contains id d.session_map ≡ true
        → contains id d.time_wait_list.connection_id_map ≡ false
    pub filed :
        (id : ℕ) (s : Session Conn)
        → find id d.session_map ≡ some s
        → conns.connection_id s.connection ≡ id
    pub live :
        (h : ℕ)
        → contains (connection h) d.link.write_blocked_list ≡ true
        → has_handle h d.session_map ≡ true
    pub queued :
        (d.time_wait_list.pending_packets_queue ≡ [])
        ⊎ (contains time_wait_manager d.link.write_blocked_list ≡ true)
    pub alarmed :
        (d.closed_session_list ≡ []) ⊎ ((deadline : ℕ) × (d.delete_sessions_alarm ≡ some deadline))
    pub supports : (version : ℕ) × (rest : List ℕ) × (d.supported_versions ≡ version ∷ rest)

  -- Writers wait only while the socket is blocked.
  abbrev pub IsQuiescent : Dispatcher Conn → Type 0
  IsQuiescent d = (d.link.write_blocked_list ≡ []) ⊎ (d.link.write_blocked ≡ true)

  -- The program has ended, or writers wait only while the socket is blocked.
  abbrev pub IsSettled : Dispatcher Conn → Type 0
  IsSettled d = (d.exited ≡ true) ⊎ IsQuiescent d
