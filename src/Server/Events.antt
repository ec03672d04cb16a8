-- ===== src/Server/Events.antt =====
-- OnEvent of net/tools/quic/quic_server.cc: datagrams that are read, and the socket's writability.
use quic_toy.Socket.{read_packet, Received}
use quic_toy.Dispatcher.Invariant.{IsQuiescent, IsSettled, IsConsistent}
use quic_toy.Server.{on_event, read_loop, read_and_dispatch_single_packet}
use quic_toy.Dispatcher.Routes.{IsVersioned}
use quic_toy.Dispatcher.{has_pending_writes, Dispatcher, Framer}
use quic_toy.Writer.{Platform}
use quic_toy.TimeWait.{Flags}
use quic_toy.Base.{
  else_branch, ap, ◌∙◌, ◌>>=◌, not, ◌&&◌, length, ◌<◌, false, take, Bool-cases, [], if◌then◌else◌,
  true, ◌∷◌, some, refl, Bool, Option, inr, List, inl, ◌⊎◌, ◌≡◌, ℕ,
}
use quic_toy.Session.{ClosesNoStream, IsLawful, Connections}
use quic_toy.Base.Int.{negsuc, pos, ℤ}
use quic_toy.TimeWait.Trim.{Admits}
use quic_toy.Dispatcher.Writing.{on_can_write-IsConsistent}
use quic_toy.Dispatcher.Processing.{process_packet-IsConsistent}

pub ℤ-cases : (z : ℤ) → ((n : ℕ) × (z ≡ pos n)) ⊎ ((n : ℕ) × (z ≡ negsuc n))
ℤ-cases (pos n) = inl (n, refl)
ℤ-cases (negsuc n) = inr (n, refl)

idle_mask : (exited : Bool) → (not exited && false) ≡ true → ⊥
idle_mask true e = cc
idle_mask false e = cc

module _ (conns : Connections) (flags : Flags) (platform : Platform) (framer : Framer)
    (lawful : IsLawful conns) (admits : Admits flags.time_wait_list_max_connections)
    (versioned : IsVersioned conns flags platform framer lawful admits) where
  open conns use {Conn}

  -- The dispatcher between two events.
  abbrev IsReady : ℕ → Dispatcher Conn → Type 0
  IsReady now d = IsConsistent conns flags now d × IsQuiescent conns flags d

  read_once :
      (r : Received) (port : ℕ) (dropped : Option ℕ) (now : ℕ) (d : Dispatcher Conn)
      → IsReady now d
      → (d' : Dispatcher Conn) × (dropped' : Option ℕ) × (more : Bool)
        × (read_and_dispatch_single_packet conns flags platform framer r port dropped now d
            ≡ some (d', dropped', more))
        × IsReady now d'
        × (ClosesNoStream conns → d'.exited ≡ d.exited)
  unfolding read_and_dispatch_single_packet
  read_once r port dropped now d (v, quiet) =
      let result = read_packet r dropped [] (record { address = []; port = 0 }) in
      elim (ℤ-cases result.bytes_read) [
        | inl (n, got) ↦
            let (d', eq, v', quiet', kept) =
              process_packet-IsConsistent conns flags platform framer lawful admits
                (record { address = result.self_address; port = port }) result.peer_address
                (take n r.header.msg_iov) now d v versioned quiet in
            (
              d',
              result.dropped_packets,
              true,
              rw (got, read_and_dispatch_single_packet) (simp eq),
              (v', quiet'),
              kept,
            )
        | inr (n, failed) ↦ (
          d,
          result.dropped_packets,
          false,
          rw (failed, read_and_dispatch_single_packet) refl,
          (v, quiet),
          λ _. refl,
        )
      ]

  read_all :
      (rs : List Received) (port : ℕ) (dropped : Option ℕ) (now : ℕ) (d : Dispatcher Conn)
      → IsReady now d
      → (d' : Dispatcher Conn) × (dropped' : Option ℕ) × (read_loop conns flags platform framer rs
            port dropped now d
          ≡ some (d', dropped'))
        × IsReady now d'
        × (ClosesNoStream conns → d'.exited ≡ d.exited)
  unfolding read_loop
  read_all [] port dropped now d ready = (d, dropped, refl, ready, λ _. refl)
  read_all (r ∷ rs) port dropped now d ready =
      let (d', dropped', more, eq, ready', kept) = read_once r port dropped now d ready in
      let (d'', dropped'', eq', ready'', kept') = read_all rs port dropped' now d' ready' in
      elim (Bool-cases more) [
        | inl on ↦ elim (Bool-cases d'.exited) [
          | inl gone ↦ (d', dropped', simp (eq, on, gone), ready', kept)
          | inr runs ↦ (d'', dropped'', simp (eq, on, runs, eq'), ready'', λ n. kept' n ∙ kept n)
        ]
        | inr done ↦ (d', dropped', simp (eq, done), ready', kept)
      ]

  -- The datagrams are read, if there are any to read.
  abbrev pub reading :
      Bool
      → List Received
      → ℕ
      → Option ℕ
      → ℕ
      → Dispatcher Conn
      → Option (Dispatcher Conn × Option ℕ)
  reading readable rs port dropped now d =
      if readable
      then read_loop conns flags platform framer rs port dropped now d
      else some (d, dropped)

  arrived :
      (readable : Bool) (rs : List Received) (port : ℕ) (dropped : Option ℕ) (now : ℕ)
      (d : Dispatcher Conn)
      → IsReady now d
      → (d' : Dispatcher Conn) × (dropped' : Option ℕ) × (reading readable rs port dropped now d
          ≡ some (d', dropped'))
        × IsReady now d'
        × (ClosesNoStream conns → d'.exited ≡ d.exited)
  arrived true rs port dropped now d ready = read_all rs port dropped now d ready
  arrived false rs port dropped now d ready = (d, dropped, refl, ready, λ _. refl)

  pending :
      (d : Dispatcher Conn)
      → IsSettled conns flags d
      → (not d.exited && has_pending_writes conns flags d) ≡ true
      → d.link.write_blocked ≡ true
  unfolding has_pending_writes
  pending d settled e = elim settled [
    | inl gone ↦ cc (rw gone at e)
    | inr (inl nobody) ↦ absurd (idle_mask d.exited (rw nobody at e))
    | inr (inr blocked) ↦ blocked
  ]

  -- EPOLLOUT is asked for only if it was reported and the socket is blocked again: some packet was
  -- handed to it after the datagrams had been read.
  abbrev pub AsksAgain :
      Bool → Bool → Option (Dispatcher Conn × Option ℕ) → Dispatcher Conn → Type 0
  AsksAgain writable out read d' =
      out ≡ true
      → (writable ≡ true)
        × (d'.link.write_blocked ≡ true)
        × ((d1 : Dispatcher Conn) × (dropped1 : Option ℕ) × (read ≡ some (d1, dropped1))
            × (length d1.link.attempts < length d'.link.attempts))

  -- An event of the server's socket, with any datagrams and any readiness, comes to its end on a
  -- dispatcher that is consistent and in which writers wait only while the socket is blocked. The
  -- dispatcher is so again, or it is consistent and exit(0) has ended the program, which does not
  -- happen if no connection closes a stream. The server asks for another EPOLLOUT only if the event
  -- reported that the socket is writable and the socket is blocked again, as a packet that was
  -- handed to it after the reading has shown. It is assumed that connections are lawful, that the
  -- limit of the time-wait list is not 0, and that the framer gives a version with the version
  -- flag.
  pub on_event-IsReady :
      (readable writable : Bool) (rs : List Received) (port now : ℕ) (dropped : Option ℕ)
      (d : Dispatcher Conn)
      → IsConsistent conns flags now d
      → IsQuiescent conns flags d
      → (d' : Dispatcher Conn) × (dropped' : Option ℕ) × (out : Bool) × (on_event conns flags
            platform framer readable writable rs port now dropped d
          ≡ some (d', dropped', out))
        × IsConsistent conns flags now d'
        × IsSettled conns flags d'
        × AsksAgain writable out (reading readable rs port dropped now d) d'
        × (ClosesNoStream conns → d'.exited ≡ d.exited)
  unfolding on_event
  on_event-IsReady readable writable rs port now dropped d v quiet =
      let (d', dropped', eq, (v', quiet'), kept) =
        arrived readable rs port dropped now d (v, quiet) in
      elim (Bool-cases writable) [
        | inr no_room ↦ (d', dropped', false, simp (eq, no_room), v', inr quiet', λ e. cc, kept)
        | inl room ↦ elim (Bool-cases d'.exited) [
          | inl gone ↦ (d', dropped', false, simp (eq, room, gone), v', inl gone, λ e. cc, kept)
          | inr runs ↦
              let (d'', eq', v'', settled, tried, kept') =
                on_can_write-IsConsistent conns flags platform lawful admits now d' v' in
              (
                d'',
                dropped',
                not d''.exited && has_pending_writes conns flags d'',
                simp (eq, room)
                    (else_branch d'.exited _ _ runs
                      ∙ ap
                          (λ o. o >>= λ a.
                            some (a, dropped', not a.exited && has_pending_writes conns flags a))
                          eq'),
                v'',
                settled,
                λ e.
                    let blocked = pending d'' settled e in
                    (room, blocked, (d', dropped', eq, tried blocked)),
                λ n. kept' n ∙ kept n,
              )
        ]
      ]
