-- ===== src/Server/Alarms.antt =====
-- A dispatcher whose alarms are called: the clean-up alarm is due when an entry's time is over, and
-- the calls keep it consistent.
use quic_toy.Base.{◌∙◌, none, nat_eq, ℕ, ◌+◌, ◌≤◌, ◌≡◌, some, refl, arith, true, inl}
use quic_toy.Session.{Connections}
use quic_toy.TimeWait.{Flags}
use quic_toy.TimeWait.Invariant.{Between-later, IsArmed}
use quic_toy.TimeWait.Expiry.{clean_up-eq, clean_up_result, result-IsWellFormed}
use quic_toy.TimeWait.Deadline.{find-NotBefore}
use quic_toy.TimeWait.{TimeWaitList, ConnectionIdData, set_connection_id_clean_up_alarm}
use quic_toy.Base.LinkedMap.{find, Distinct}
use quic_toy.TimeWait.Fresh.{find-fresh_ones, contains-fresh_ones}
use quic_toy.Writer.{Platform}
use quic_toy.Dispatcher.{delete_sessions, Dispatcher, Framer}
use quic_toy.Dispatcher.Invariant.{IsConsistent}
use quic_toy.Server.Schedule.{delete_sessions_on_alarm, is_due, clean_up_on_alarm}

pub overdue :
    (now id : ℕ) (t : TimeWaitList) (e : ConnectionIdData)
    → IsArmed now t
    → find id t.connection_id_map ≡ some e
    → e.time_added + t.time_wait_period ≤ now
    → is_due now t.clean_up_alarm ≡ true
overdue now id t e (deadline, set, soon, due) found over =
    let before = find-NotBefore deadline t.time_wait_period id t.connection_id_map e found due in
    rw set (ground (arith, before))

pub evicted :
    (now id : ℕ) (t : TimeWaitList) (e : ConnectionIdData)
    → Distinct t.connection_id_map
    → find id t.connection_id_map ≡ some e
    → e.time_added + t.time_wait_period ≤ now
    → find id (clean_up_result now t).connection_id_map ≡ none
unfolding set_connection_id_clean_up_alarm
evicted now id t e distinct found over =
    find-fresh_ones now t.time_wait_period id t.connection_id_map distinct
    ∙ rw found (ground (arith, over))

module _ (conns : Connections) (flags : Flags) (platform : Platform) (framer : Framer) where
  open conns use {Conn}

  pub later-IsConsistent :
      (before now : ℕ) (d : Dispatcher Conn)
      → IsConsistent conns flags before d
      → before ≤ now
      → now ≤ flags.infinite
      → IsConsistent conns flags now d
  later-IsConsistent before now d v h k =
      let (deadline, set, soon, due) = v.list.armed in
      record {
        sessions = v.sessions;
        waiting = v.waiting;
        list = record {
          distinct = v.list.distinct;
          in_order =
              Between-later 0 before now d.time_wait_list.connection_id_map h v.list.in_order;
          dated = k;
          within = v.list.within;
          armed = (deadline, set, omega (arith, h, soon), due);
        };
        apart = v.apart;
        filed = v.filed;
        live = v.live;
        queued = v.queued;
        alarmed = v.alarmed;
        supports = v.supports;
      }

  pub deleted-IsConsistent :
      (now : ℕ) (d : Dispatcher Conn)
      → IsConsistent conns flags now d
      → IsConsistent conns flags now (delete_sessions_on_alarm conns flags platform framer d)
  unfolding delete_sessions_on_alarm delete_sessions
  deleted-IsConsistent now d v = record {
    sessions = v.sessions;
    waiting = v.waiting;
    list = v.list;
    apart = v.apart;
    filed = v.filed;
    live = v.live;
    queued = v.queued;
    alarmed = inl refl;
    supports = v.supports;
  }

  pub clean_up_on_alarm-IsConsistent :
      (now : ℕ) (d : Dispatcher Conn)
      → IsConsistent conns flags now d
      → (clean_up_on_alarm conns flags platform framer now d
          ≡ some (record d { time_wait_list = clean_up_result now d.time_wait_list }))
        × IsConsistent conns flags now
            (record d { time_wait_list = clean_up_result now d.time_wait_list })
  unfolding clean_up_on_alarm
  clean_up_on_alarm-IsConsistent now d v = (
    rw (clean_up-eq flags now now now now d.time_wait_list v.list) refl,
    record {
      sessions = v.sessions;
      waiting = v.waiting;
      list = result-IsWellFormed flags now now d.time_wait_list v.list (omega arith) v.list.dated;
      apart = λ id e.
          contains-fresh_ones now d.time_wait_list.time_wait_period id
            d.time_wait_list.connection_id_map (v.apart id e);
      filed = v.filed;
      live = v.live;
      queued = v.queued;
      alarmed = v.alarmed;
      supports = v.supports;
    },
  )
