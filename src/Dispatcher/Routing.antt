-- ===== src/Dispatcher/Routing.antt =====
-- What each way of a packet through the dispatcher leaves: an answer to a late packet, an id that is
-- put on the time-wait list, a new session, and a packet for a session.
use quic_toy.Dispatcher.Handles.{has_handle-append}
use quic_toy.TimeWait.Add.{result_absent, result-IsWellFormed, add_result}
use quic_toy.Dispatcher.Invariant.{IsConsistent}
use quic_toy.Base.LinkedMap.Laws.{find-insert, contains-insert, insert-Distinct}
use quic_toy.Dispatcher.{connection, Dispatcher}
use quic_toy.TimeWait.{TimeWaitList, Flags}
use quic_toy.Base.LinkedMap.{find, insert, contains, Distinct}
use quic_toy.Base.{
  Bool-cases, if◌then◌else◌, some, nat_eq, suc, none, sym, refl, false, ◌∙◌, true, ◌≡◌, inr, ℕ, inl,
  arith,
}
use quic_toy.TimeWait.Handled.{IsHandled, IsManagersTurn}
use quic_toy.Dispatcher.Actions.{NoGrowth}
use quic_toy.Session.{Session, Connections}
use quic_toy.Writer.{writer_eq, time_wait_manager, Link}
use quic_toy.TimeWait.Trim.{Admits}

pub NoGrowth-refl : (l : Link) → NoGrowth l l
NoGrowth-refl l = ground arith

pub growth_of_turn : (l l' : Link) → IsManagersTurn l l' → NoGrowth l l'
growth_of_turn l l' turn = elim turn [
  | inl (free, same) ↦ inr (free, rw same (omega arith))
  | inr (inl (blocked, _)) ↦ inl blocked
  | inr (inr same) ↦ rw same (NoGrowth-refl l)
]

turn-Distinct :
    (l l' : Link)
    → IsManagersTurn l l'
    → Distinct l.write_blocked_list
    → Distinct l'.write_blocked_list
turn-Distinct l l' turn u = elim turn [
  | inl (free, same) ↦ rw same u
  | inr (inl (_, more)) ↦ rw more (insert-Distinct time_wait_manager true l.write_blocked_list u)
  | inr (inr same) ↦ rw same u
]

turn-connection :
    (l l' : Link) (h : ℕ)
    → IsManagersTurn l l'
    → contains (connection h) l'.write_blocked_list ≡ contains (connection h) l.write_blocked_list
turn-connection l l' h turn = elim turn [
  | inl (free, same) ↦ rw same refl
  | inr (inl (_, more)) ↦
      rw more (contains-insert (connection h) time_wait_manager true l.write_blocked_list)
  | inr (inr same) ↦ rw same refl
]

module _ (conns : Connections) (flags : Flags) where
  open conns use {Conn}

  pub late-IsConsistent :
      (now : ℕ) (d : Dispatcher Conn) (t : TimeWaitList) (l : Link)
      → IsConsistent conns flags now d
      → IsHandled flags now d.time_wait_list d.link t l
      → IsConsistent conns flags now (record d { time_wait_list = t; link = l })
  late-IsConsistent now d t l v handled = record {
    sessions = v.sessions;
    waiting = turn-Distinct d.link l handled.writers v.waiting;
    list = handled.well_formed;
    apart = λ j e. handled.same_ids j ∙ v.apart j e;
    filed = v.filed;
    live = λ h e. v.live h (sym (turn-connection d.link l h handled.writers) ∙ e);
    queued = handled.queued;
    alarmed = v.alarmed;
    supports = v.supports;
  }

  -- The id of a connection that is unknown goes to the time-wait list.
  pub listed-IsConsistent :
      (now id version : ℕ) (d : Dispatcher Conn)
      → Admits flags.time_wait_list_max_connections
      → contains id d.session_map ≡ false
      → IsConsistent conns flags now d
      → IsConsistent conns flags now
          (record d { time_wait_list = add_result flags id version none now d.time_wait_list })
  listed-IsConsistent now id version d admits unknown v = record {
    sessions = v.sessions;
    waiting = v.waiting;
    list =
        result-IsWellFormed flags id version none now now d.time_wait_list admits v.list
          (omega arith) v.list.dated;
    apart = λ j e.
        result_absent flags id version none now now d.time_wait_list admits v.list j
          (λ same. cc (rw same at unknown, e)) (v.apart j e);
    filed = v.filed;
    live = v.live;
    queued = v.queued;
    alarmed = v.alarmed;
    supports = v.supports;
  }

  module _ (now id : ℕ) (s : Session Conn) (d : Dispatcher Conn)
      (unknown : contains id d.session_map ≡ false)
      (not_late : contains id d.time_wait_list.connection_id_map ≡ false)
      (named : conns.connection_id s.connection ≡ id) where
    abbrev pub with_session : Dispatcher Conn
    with_session = record d {
      session_map = insert id s d.session_map;
      next_handle = suc d.next_handle;
    }

    apart_with :
        ((j : ℕ)
          → contains j d.session_map ≡ true
          → contains j d.time_wait_list.connection_id_map ≡ false)
        → (j : ℕ) → contains j (insert id s d.session_map) ≡ true
        → contains j d.time_wait_list.connection_id_map ≡ false
    apart_with apart j e =
        ground (arith, contains-insert j id s d.session_map, apart j, nat_eq.beq_iff id j, not_late)

    filed_with :
        ((j : ℕ) (r : Session Conn)
          → find j d.session_map ≡ some r
          → conns.connection_id r.connection ≡ j)
        → (j : ℕ) (r : Session Conn) → find j (insert id s d.session_map) ≡ some r
        → conns.connection_id r.connection ≡ j
    filed_with filed j r e =
        let split : (if nat_eq.beq id j then some s else find j d.session_map) ≡ some r =
          sym (find-insert j id s d.session_map unknown) ∙ e in
        elim (Bool-cases (nat_eq.beq id j)) [
          | inl same ↦
              let p : id ≡ j = (nat_eq.beq_iff id j).0 same in
              let q : some s ≡ some r = rw same at split in
              let r_is : s ≡ r = cc q in rw (← r_is) (named ∙ p)
          | inr other ↦ filed j r (rw other at split)
        ]

    pub session-IsConsistent :
        IsConsistent conns flags now d → IsConsistent conns flags now with_session
    unfolding insert
    session-IsConsistent v = record {
      sessions = insert-Distinct id s d.session_map v.sessions;
      waiting = v.waiting;
      list = v.list;
      apart = apart_with v.apart;
      filed = filed_with v.filed;
      live = λ h e. rw unknown (has_handle-append h id d.session_map s (v.live h e));
      queued = v.queued;
      alarmed = v.alarmed;
      supports = v.supports;
    }
