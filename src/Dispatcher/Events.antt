-- ===== src/Dispatcher/Events.antt =====
-- An event at the connection of a session, and the chance to write that a waiting writer gets.
use quic_toy.Base.{
  ap, ℕ, suc, ◌≡◌, refl, ◌∙◌, sym, List, true, Bool-cases, some, nat_eq, inl, inr, if◌then◌else◌,
  length,
}
use quic_toy.Base.LinkedMap.{find, contains, assign}
use quic_toy.Base.LinkedMap.Laws.{
  contains-assign, find-assign, assign-Distinct, length-assign, length-erase, contains_of_find,
  beq_self,
}
use quic_toy.Writer.{Platform}
use quic_toy.TimeWait.{Flags}
use quic_toy.TimeWait.Trim.{Admits}
use quic_toy.Session.{Action, Connections, Session, Orderly, has_close}
use quic_toy.Dispatcher.{Dispatcher, run_event}
use quic_toy.Dispatcher.Handles.{has_handle-assign}
use quic_toy.Dispatcher.Invariant.{IsConsistent}
use quic_toy.Dispatcher.Actions.{IsActed, acts}

module _ (conns : Connections) (flags : Flags) (platform : Platform) where
  open conns use {Conn}

  module _ (id now : ℕ) (s : Session Conn) (c : Conn) (d : Dispatcher Conn)
      (found : find id d.session_map ≡ some s)
      (same_id : conns.connection_id c ≡ conns.connection_id s.connection)
      (v : IsConsistent conns flags now d) where
    abbrev pub updated : Session Conn
    updated = record s { connection = c }

    abbrev pub with_connection : Dispatcher Conn
    with_connection = record d { session_map = assign id updated d.session_map }

    listed : contains id d.session_map ≡ true
    listed = contains_of_find id d.session_map s found

    found_updated : find id (assign id updated d.session_map) ≡ some updated
    found_updated = find-assign id id updated d.session_map listed ∙ rw (beq_self id)

    filed_updated :
        (j : ℕ) (r : Session Conn)
        → find j (assign id updated d.session_map) ≡ some r
        → conns.connection_id r.connection ≡ j
    filed_updated j r e =
        let split : (if nat_eq.beq id j then some updated else find j d.session_map) ≡ some r =
          sym (find-assign j id updated d.session_map listed) ∙ e in
        elim (Bool-cases (nat_eq.beq id j)) [
          | inl same ↦
              let p : id ≡ j = (nat_eq.beq_iff id j).0 same in
              let q : some updated ≡ some r = rw same at split in
              let r_is : updated ≡ r = cc q in rw (← r_is) (same_id ∙ v.filed id s found ∙ p)
          | inr other ↦ v.filed j r (rw other at split)
        ]

    with_connection-IsConsistent : IsConsistent conns flags now with_connection
    with_connection-IsConsistent = record {
      sessions = assign-Distinct id updated d.session_map v.sessions;
      waiting = v.waiting;
      list = v.list;
      apart = λ j e. v.apart j (sym (contains-assign j id updated d.session_map) ∙ e);
      filed = filed_updated;
      live = λ h e. has_handle-assign h id d.session_map s updated found refl ∙ v.live h e;
      queued = v.queued;
      alarmed = v.alarmed;
      supports = v.supports;
    }

    module _ (admits : Admits flags.time_wait_list_max_connections) where
      -- An event at a session's connection is handled to its end. The dispatcher is consistent
      -- after it, and is what the connection's actions make of it.
      pub event :
          (actions : List Action)
          → Orderly actions
          → (d' : Dispatcher Conn) × (run_event conns flags platform id s (c, actions) now d
              ≡ some d')
            × IsActed conns flags platform id now actions with_connection d'
      unfolding run_event
      event actions o =
          acts conns flags platform id now updated admits (same_id ∙ v.filed id s found) actions
            with_connection o found_updated with_connection-IsConsistent

      -- If the connection closes, there is one session less, else as many as before.
      pub event-length :
          (actions : List Action) (d' : Dispatcher Conn)
          → IsActed conns flags platform id now actions with_connection d'
          → (if has_close actions then suc (length d'.session_map) else length d'.session_map)
            ≡ length d.session_map
      event-length actions d' r = elim (Bool-cases (has_close actions)) [
        | inl closed ↦ rw closed (
            ap (λ m. suc (length m)) (r.sessions_left ∙ rw closed)
            ∙ length-erase id (assign id updated d.session_map)
                (contains-assign id id updated d.session_map ∙ listed)
            ∙ length-assign id updated d.session_map)
        | inr open_still ↦
            rw open_still
              (ap length (r.sessions_left ∙ rw open_still) ∙ length-assign id updated d.session_map)
      ]
