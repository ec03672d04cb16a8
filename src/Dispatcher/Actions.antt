-- ===== src/Dispatcher/Actions.antt =====
-- What the dispatcher is after a connection has acted: a packet, a chance to write, or a close
-- makes the connection do a list of things, which may take its session away.
use quic_toy.Base.{
  ℕ, ◌≤◌, ◌≡◌, refl, ◌⊎◌, List, [], ◌∷◌, Bool, true, false, some, arith, nat_eq, inl, inr,
  if◌then◌else◌, length,
}
use quic_toy.Base.LinkedMap.{find, contains, erase}
use quic_toy.Base.LinkedMap.Laws.{length-erase-le}
use quic_toy.Net.{IpAddress, IpEndPoint, EncryptedPacket}
use quic_toy.Writer.{
  Platform, Link, time_wait_manager, connection, writer_eq, write_packet, on_write_blocked,
}
use quic_toy.Writer.Laws.{
  on_write_blocked-Distinct, on_write_blocked-only, on_write_blocked-keeps, Tried, Tried-refl,
  Tried-trans, Tried-same, on_write_blocked-Tried, write_packet-Tried,
}
use quic_toy.TimeWait.{Flags}
use quic_toy.TimeWait.Trim.{Admits}
use quic_toy.Session.{
  JustWrites, Orderly, has_close, has_exit, Action, writes, closes, blocks, creates_stream,
  closes_stream, Connections, Session,
}
use quic_toy.Session
use quic_toy.Dispatcher.{Dispatcher, act, act_all}
use quic_toy.Dispatcher.Handles.{has_handle_of_find}
use quic_toy.Dispatcher.Invariant.{IsConsistent}
use quic_toy.Dispatcher.Closing.{closed_state, closing-eq, closing-IsConsistent, closing-listed}

-- The socket is blocked in the end, or it never was and no writer has been queued.
abbrev pub NoGrowth : Link → Link → Type 0
NoGrowth l l' =
    (l'.write_blocked ≡ true)
    ⊎ ((l.write_blocked ≡ false) × (length l'.write_blocked_list ≤ length l.write_blocked_list))

pub NoGrowth-trans : (k l m : Link) → NoGrowth k l → NoGrowth l m → NoGrowth k m
NoGrowth-trans k l m g h = ground arith

module _ (conns : Connections) (flags : Flags) (platform : Platform) where
  open conns use {Conn}

  pub record IsActed (id now : ℕ) (actions : List Action) (d d' : Dispatcher Conn) : Type 0 where
    pub consistent : IsConsistent conns flags now d'
    pub sessions_left :
        d'.session_map ≡ (if has_close actions then erase id d.session_map else d.session_map)
    pub closed_listed :
        (has_close actions ≡ false) ⊎ (contains id d'.time_wait_list.connection_id_map ≡ true)
    pub growth : NoGrowth d.link d'.link
    pub tried : Tried d.link d'.link
    pub ended : has_exit actions ≡ true → d'.exited ≡ true
    pub stays : has_exit actions ≡ false → d'.exited ≡ d.exited

  wrote :
      (b : EncryptedPacket) (self : IpAddress) (peer : IpEndPoint) (now : ℕ) (d : Dispatcher Conn)
      → IsConsistent conns flags now d
      → IsConsistent conns flags now
          (record d { link = (write_packet platform b self peer d.link).0 })
  unfolding write_packet
  wrote b self peer now d v = record {
    sessions = v.sessions;
    waiting = v.waiting;
    list = v.list;
    apart = v.apart;
    filed = v.filed;
    live = v.live;
    queued = v.queued;
    alarmed = v.alarmed;
    supports = v.supports;
  }

  wrote-NoGrowth :
      (b : EncryptedPacket) (self : IpAddress) (peer : IpEndPoint) (l : Link)
      → NoGrowth l (write_packet platform b self peer l).0
  unfolding write_packet
  wrote-NoGrowth b self peer l = ground arith

  blocked-IsConsistent :
      (id now : ℕ) (s : Session Conn) (d : Dispatcher Conn)
      → find id d.session_map ≡ some s
      → IsConsistent conns flags now d
      → IsConsistent conns flags now
          (record d { link = on_write_blocked (connection s.handle) d.link })
  blocked-IsConsistent id now s d found v = record {
    sessions = v.sessions;
    waiting = on_write_blocked-Distinct (connection s.handle) d.link v.waiting;
    list = v.list;
    apart = v.apart;
    filed = v.filed;
    live = λ h e. elim (on_write_blocked-only (connection s.handle) (connection h) d.link e) [
      | inl same ↦
          let p : s.handle ≡ h = cc same in rw p at (has_handle_of_find id d.session_map s found)
      | inr before ↦ v.live h before
    ];
    queued = elim v.queued [
      | inl nothing ↦ inl nothing
      | inr waits ↦
          inr (on_write_blocked-keeps (connection s.handle) time_wait_manager d.link waits)
    ];
    alarmed = v.alarmed;
    supports = v.supports;
  }

  blocked-NoGrowth : (h : ℕ) (l : Link) → NoGrowth l (on_write_blocked (connection h) l)
  unfolding on_write_blocked
  blocked-NoGrowth h l = ground arith

  module _ (id now : ℕ) (s : Session Conn) (admits : Admits flags.time_wait_list_max_connections)
      (filed : conns.connection_id s.connection ≡ id) where
    writes_only :
        (actions : List Action) (d : Dispatcher Conn)
        → JustWrites actions
        → IsConsistent conns flags now d
        → (d' : Dispatcher Conn) × (act_all conns flags platform s actions now d ≡ some d')
          × IsConsistent conns flags now d'
          × (d'.session_map ≡ d.session_map)
          × (d'.time_wait_list ≡ d.time_wait_list)
          × NoGrowth d.link d'.link
          × Tried d.link d'.link
          × (d'.exited ≡ d.exited)
    unfolding act_all
    writes_only [] d j v = (d, refl, v, refl, refl, ground arith, Tried-refl d.link, refl)
    writes_only (writes b self peer ∷ rest) d j v =
        let (d', e, v', m, t, g, u, kept) = writes_only rest _ j (wrote b self peer now d v) in
        (
          d',
          e,
          v',
          m,
          t,
          NoGrowth-trans d.link (write_packet platform b self peer d.link).0 d'.link
              (wrote-NoGrowth b self peer d.link) g,
          Tried-trans d.link (write_packet platform b self peer d.link).0 d'.link
              (write_packet-Tried platform b self peer d.link) u,
          kept,
        )
    writes_only (closes e p open_streams ∷ rest) d j v = absurd j
    writes_only (blocks ∷ rest) d j v = absurd j
    writes_only (creates_stream i ∷ rest) d j v = writes_only rest d j v
    writes_only (closes_stream i ∷ rest) d j v = absurd j

    closing_step :
        (error : ℕ) (p : Bool) (d : Dispatcher Conn)
        → find id d.session_map ≡ some s
        → IsConsistent conns flags now d
        → act conns flags platform s (closes error p []) now d
          ≡ some (closed_state conns flags id s now d)
    unfolding act Session.on_connection_closed
    closing_step error p d found v =
        rw filed (closing-eq conns flags id error now s d admits found now v.list)

    closing-NoGrowth :
        (d : Dispatcher Conn) → NoGrowth d.link (closed_state conns flags id s now d).link
    closing-NoGrowth d =
        ground (arith, length-erase-le (connection s.handle) d.link.write_blocked_list)

    ended-IsConsistent :
        (d : Dispatcher Conn)
        → IsConsistent conns flags now d
        → IsConsistent conns flags now (record d { exited = true })
    ended-IsConsistent d v = record {
      sessions = v.sessions;
      waiting = v.waiting;
      list = v.list;
      apart = v.apart;
      filed = v.filed;
      live = v.live;
      queued = v.queued;
      alarmed = v.alarmed;
      supports = v.supports;
    }

    ended-IsActed :
        (actions : List Action) (d : Dispatcher Conn)
        → has_close actions ≡ false
        → has_exit actions ≡ true
        → IsConsistent conns flags now d
        → IsActed id now actions d (record d { exited = true })
    ended-IsActed actions d no_close exit v = record {
      consistent = ended-IsConsistent d v;
      sessions_left = rw no_close refl;
      closed_listed = inl no_close;
      growth = ground arith;
      tried = Tried-refl d.link;
      ended = λ _. refl;
      stays = λ e. cc (e, exit);
    }

    -- A list of actions of a session's connection is carried out, and leaves the dispatcher
    -- consistent. If the connection closes, its session is gone and its id is on the time-wait list,
    -- and if a stream closes, the program has ended.
    pub acts :
        (actions : List Action) (d : Dispatcher Conn)
        → Orderly actions
        → find id d.session_map ≡ some s
        → IsConsistent conns flags now d
        → (d' : Dispatcher Conn) × (act_all conns flags platform s actions now d ≡ some d')
          × IsActed id now actions d d'
    unfolding act_all act Session.on_connection_closed
    acts [] d o found v = (
      d,
      refl,
      record {
        consistent = v;
        sessions_left = refl;
        closed_listed = inl refl;
        growth = ground arith;
        tried = Tried-refl d.link;
        ended = λ e. cc;
        stays = λ _. refl;
      },
    )
    acts (writes b self peer ∷ rest) d o found v =
        let (d', e, r) = acts rest _ o found (wrote b self peer now d v) in
        (
          d',
          e,
          record {
            consistent = r.consistent;
            sessions_left = r.sessions_left;
            closed_listed = r.closed_listed;
            growth =
                NoGrowth-trans d.link (write_packet platform b self peer d.link).0 d'.link
                  (wrote-NoGrowth b self peer d.link) r.growth;
            tried =
                Tried-trans d.link (write_packet platform b self peer d.link).0 d'.link
                  (write_packet-Tried platform b self peer d.link) r.tried;
            ended = r.ended;
            stays = r.stays;
          },
        )
    acts (closes error p [] ∷ rest) d o found v =
        let (d', e, v', m, t, g, u, kept) =
          writes_only rest (closed_state conns flags id s now d) o
            (closing-IsConsistent conns flags id error now s d admits found v) in
        (
          d',
          rw (closing_step error p d found v) e,
          record {
            consistent = v';
            sessions_left = m;
            closed_listed = inr (rw t (closing-listed conns flags id error now s d admits found v));
            growth =
                NoGrowth-trans d.link (closed_state conns flags id s now d).link d'.link
                  (closing-NoGrowth d) g;
            tried =
                Tried-trans d.link (closed_state conns flags id s now d).link d'.link
                  (Tried-same d.link (closed_state conns flags id s now d).link refl refl) u;
            ended = λ e. cc;
            stays = λ _. kept;
          },
        )
    acts (blocks ∷ rest) d o found v =
        let (d', e, r) = acts rest _ o found (blocked-IsConsistent id now s d found v) in
        (
          d',
          e,
          record {
            consistent = r.consistent;
            sessions_left = r.sessions_left;
            closed_listed = r.closed_listed;
            growth =
                NoGrowth-trans d.link (on_write_blocked (connection s.handle) d.link) d'.link
                  (blocked-NoGrowth s.handle d.link) r.growth;
            tried =
                Tried-trans d.link (on_write_blocked (connection s.handle) d.link) d'.link
                  (on_write_blocked-Tried (connection s.handle) d.link) r.tried;
            ended = r.ended;
            stays = r.stays;
          },
        )
    acts (creates_stream i ∷ rest) d o found v =
        let (d', e, r) = acts rest d o found v in
        (
          d',
          e,
          record {
            consistent = r.consistent;
            sessions_left = r.sessions_left;
            closed_listed = r.closed_listed;
            growth = r.growth;
            tried = r.tried;
            ended = r.ended;
            stays = r.stays;
          },
        )
    acts (closes error p (i ∷ is) ∷ rest) d o found v = (
      record d { exited = true },
      refl,
      ended-IsActed (closes error p (i ∷ is) ∷ rest) d refl refl v,
    )
    acts (closes_stream i ∷ rest) d o found v =
        (record d { exited = true }, refl, ended-IsActed (closes_stream i ∷ rest) d refl refl v)
