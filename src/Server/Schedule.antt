-- ===== src/Server/Schedule.antt =====
-- A server between the events that its loop hands it: the socket's, of QuicServer::OnEvent, the alarms'
-- of the sessions' connections, which are the library's, and the server's own two alarms', of
-- DeleteSessionsAlarm in net/tools/quic/quic_dispatcher.cc and of ConnectionIdCleanUpAlarm in
-- net/tools/quic/quic_time_wait_list_manager.cc. An alarm of a stream only prints.
use quic_toy.Socket.{Received}
use quic_toy.Base.{
  ◌+◌, [], if◌then◌else◌, ◌>>=◌, ◌∷◌, leb, some, none, false, nat_eq, List, Bool, Option, ℕ,
}
use quic_toy.Session.{Connections}
use quic_toy.TimeWait.{Flags}
use quic_toy.TimeWait
use quic_toy.Writer.{Platform}
use quic_toy.Base.LinkedMap.{find}
use quic_toy.Dispatcher.{delete_sessions, run_event, Dispatcher, Framer}
use quic_toy.Server.{on_event, shutdown_server, Server}

-- The clock, packets_dropped_ and the dispatcher.
pub record Host (Conn : Type 0) : Type 0 where
  pub now : ℕ
  pub dropped : Option ℕ
  pub dispatcher : Dispatcher Conn

-- The socket is readable, writable, and holds datagrams; an alarm's time has come; an alarm of the
-- connection of an id's session is called, by its number; time passes.
pub data Event : Type 0 where
  socket_event : Bool → Bool → List Received → Event
  sessions_alarm : Event
  list_alarm : Event
  connection_alarm : ℕ → ℕ → Event
  passes : ℕ → Event

-- An alarm that is set, and whose time is not to come.
abbrev pub is_due : ℕ → Option ℕ → Bool
is_due now none = false
is_due now (some deadline) = leb deadline now

module _ (conns : Connections) (flags : Flags) (platform : Platform) (framer : Framer) where
  open conns use {Conn}

  -- DeleteSessionsAlarm::OnAlarm. The alarm is not set while its delegate is called, and is not set
  -- again by the time that OnAlarm returns.
  unfoldable pub delete_sessions_on_alarm : Dispatcher Conn → Dispatcher Conn
  unfolding delete_sessions
  delete_sessions_on_alarm d =
      delete_sessions conns flags (record d { delete_sessions_alarm = none })

  -- ConnectionIdCleanUpAlarm::OnAlarm, which sets the alarm anew.
  unfoldable pub clean_up_on_alarm : ℕ → Dispatcher Conn → Option (Dispatcher Conn)
  unfolding TimeWait.clean_up_old_connection_ids
  clean_up_on_alarm now d = do
    list ← TimeWait.clean_up_old_connection_ids now now now d.time_wait_list
    some (record d { time_wait_list = list })

  module _ (port : ℕ) where
    unfoldable pub step : Event → Host Conn → Option (Host Conn)
    unfolding on_event delete_sessions_on_alarm clean_up_on_alarm run_event find
    step (socket_event readable writable datagrams) h = do
      (d, dropped, _) ←
          on_event conns flags platform framer readable writable datagrams port h.now h.dropped
            h.dispatcher
      some (record h { dispatcher = d; dropped = dropped })
    step sessions_alarm h =
        if is_due h.now h.dispatcher.delete_sessions_alarm
        then some (record h { dispatcher = delete_sessions_on_alarm h.dispatcher })
        else some h
    step list_alarm h =
        if is_due h.now h.dispatcher.time_wait_list.clean_up_alarm
        then (clean_up_on_alarm h.now h.dispatcher >>= λ d. some (record h { dispatcher = d }))
        else some h
    step (connection_alarm id which) h = elim (find id h.dispatcher.session_map) [
      | none ↦ some h
      | some s ↦
          run_event conns flags platform id s
            (conns.on_alarm which h.dispatcher.link.attempts s.connection) h.now h.dispatcher
          >>= λ d. some (record h { dispatcher = d })
    ]
    step (passes time) h = some (record h { now = h.now + time })

    -- Nothing happens after the program has ended.
    unfoldable pub run : List Event → Host Conn → Option (Host Conn)
    unfolding step
    run [] h = some h
    run (e ∷ es) h =
        let rest = step e h >>= λ h'. run es h' in if h.dispatcher.exited then some h else rest

    -- QuicServer::Shutdown after a run.
    unfoldable pub serve : List Event → Server Conn → Host Conn → Option (Server Conn)
    unfolding run shutdown_server
    serve es s h = do
      h' ← run es h
      shutdown_server conns flags platform framer h'.now
          (record s { dispatcher = some h'.dispatcher })
