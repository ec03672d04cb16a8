-- ===== src/Dispatcher/Processing.antt =====
-- ProcessPacket of net/tools/quic/quic_dispatcher.cc, on a dispatcher that is consistent.
use quic_toy.Dispatcher.Choice.{routed}
use quic_toy.Dispatcher.Routes.{handled_late, IsRouted, IsVersioned}
use quic_toy.TimeWait.Handled.{process_packet-IsHandled}
use quic_toy.Net.{IpEndPoint, EncryptedPacket}
use quic_toy.Dispatcher.Routing.{growth_of_turn, late-IsConsistent, NoGrowth-refl}
use quic_toy.Base.LinkedMap.Laws.{find-some, contains_of_find}
use quic_toy.Dispatcher.Actions.{NoGrowth-trans, NoGrowth}
use quic_toy.Dispatcher.Invariant.{IsQuiescent, IsConsistent}
use quic_toy.Base.LinkedMap.{find, contains}
use quic_toy.Base.{
  arith, ◌≤◌, length, suc, List-cases, ◌⊎◌, [], if◌then◌else◌, nat_beq, ◌∙◌, Option-cases, inr, inl,
  Bool-cases, refl, nat_eq, false, some, true, ◌≡◌, Bool, ℕ,
}
use quic_toy.Dispatcher.{PublicHeader, Dispatcher, Framer}
use quic_toy.Writer.{Link, Platform}
use quic_toy.TimeWait.{Flags}
use quic_toy.Session.{ClosesNoStream, IsLawful, Connections}
use quic_toy.TimeWait
use quic_toy.TimeWait.Trim.{Admits}
use quic_toy.Dispatcher.Packets.{
  process_packet, on_protocol_version_mismatch, on_unauthenticated_header, parse_on,
  on_unauthenticated_public_header,
}

pub quiet_after :
    (l l' : Link)
    → (l.write_blocked_list ≡ []) ⊎ (l.write_blocked ≡ true)
    → NoGrowth l l'
    → (l'.write_blocked_list ≡ []) ⊎ (l'.write_blocked ≡ true)
quiet_after l l' quiet g = elim (List-cases l'.write_blocked_list) [
  | inl nobody ↦ inl nobody
  | inr (w, rest, someone) ↦ elim g [
    | inl blocked ↦ inr blocked
    | inr (free, no_more) ↦ elim quiet [
      | inl nobody ↦
          let fewer : suc (length rest) ≤ 0 = rw (someone, nobody) at no_more in
          absurd (omega (arith, fewer))
      | inr blocked ↦ cc (free, blocked)
    ]
  ]
]

module _ (conns : Connections) (flags : Flags) (platform : Platform) (framer : Framer)
    (lawful : IsLawful conns) (admits : Admits flags.time_wait_list_max_connections) where
  open conns use {Conn}

  proceeds :
      (header : PublicHeader) (d : Dispatcher Conn)
      → contains header.connection_id d.time_wait_list.connection_id_map ≡ true
      → (if framer.is_version_mismatch d.framer_version header
          then on_protocol_version_mismatch conns flags platform framer header d
          else true)
        ≡ true
  unfolding on_protocol_version_mismatch TimeWait.is_connection_id_in_time_wait
  proceeds header d late = elim (Bool-cases (framer.is_version_mismatch d.framer_version header)) [
    | inl other ↦ rw other late
    | inr same ↦ rw same refl
  ]

  -- The rest of a packet for an id on the time-wait list.
  abbrev IsParsed : ℕ → EncryptedPacket → PublicHeader → Dispatcher Conn → Type 0
  IsParsed now packet header d =
      (d' : Dispatcher Conn) × (parse_on conns flags platform framer packet header d ≡ some d')
      × IsConsistent conns flags now d'
      × NoGrowth d.link d'.link
      × (d'.session_map ≡ d.session_map)
      × (d'.exited ≡ d.exited)

  parsed :
      (now : ℕ) (packet : EncryptedPacket) (header : PublicHeader) (d : Dispatcher Conn)
      → contains header.connection_id d.time_wait_list.connection_id_map ≡ true
      → IsConsistent conns flags now d
      → IsParsed now packet header d
  unfolding parse_on on_unauthenticated_header
  parsed now packet header d late v =
      let (e, found) = find-some header.connection_id d.time_wait_list.connection_id_map late in
      elim (Option-cases (framer.sequence_number d.framer_version packet)) [
        | inl broken ↦
            (d, simp (proceeds header d late, broken), v, NoGrowth-refl d.link, refl, refl)
        | inr (n, read) ↦
            let ((t, l), eq, handled) =
              process_packet-IsHandled platform framer.build_public_reset_packet flags now
                d.current_server_address d.current_client_address header.connection_id n e
                d.time_wait_list d.link found v.list v.queued in
            (
              record d { time_wait_list = t; link = l },
              simp (proceeds header d late, read, eq),
              late-IsConsistent conns flags now d t l v handled,
              growth_of_turn d.link l handled.writers,
              refl,
              refl,
            )
      ]

  module _ (server client : IpEndPoint) (packet : EncryptedPacket) (now : ℕ) (d : Dispatcher Conn)
      (v : IsConsistent conns flags now d) where
    -- The dispatcher with the packet at hand.
    abbrev at_hand : Dispatcher Conn
    at_hand = record d {
      current_server_address = server;
      current_client_address = client;
      current_packet = packet;
    }

    at_hand-IsConsistent : IsConsistent conns flags now at_hand
    at_hand-IsConsistent = record {
      sessions = v.sessions;
      waiting = v.waiting;
      list = v.list;
      apart = v.apart;
      filed = v.filed;
      live = v.live;
      queued = v.queued;
      alarmed = v.alarmed;
      supports = v.supports;
    }

    processed :
        IsVersioned conns flags platform framer lawful admits
        → (d' : Dispatcher Conn) × (process_packet conns flags platform framer server client packet
              now d
            ≡ some d')
          × IsConsistent conns flags now d'
          × NoGrowth d.link d'.link
          × (ClosesNoStream conns → d'.exited ≡ d.exited)
    unfolding process_packet
    processed versioned = elim (Option-cases (framer.public_header packet)) [
      | inl garbage ↦ (
        at_hand,
        rw (garbage, process_packet) refl,
        at_hand-IsConsistent,
        NoGrowth-refl d.link,
        λ _. refl,
      )
      | inr (header, read) ↦
          let (d', proceed, eq, r) =
            routed conns flags platform framer lawful admits now header at_hand
              (versioned packet header read) at_hand-IsConsistent in
          elim (Bool-cases proceed) [
            | inl on ↦
                let (d'', eq', v'', g, _, after) =
                  parsed now packet header d' (r.listed on) r.consistent in
                (
                  d'',
                  rw (read, process_packet) (simp (eq, on, eq')),
                  v'',
                  NoGrowth-trans d.link d'.link d''.link r.growth g,
                  λ n. after ∙ r.kept n,
                )
            | inr done ↦
                (d', rw (read, process_packet) (simp (eq, done)), r.consistent, r.growth, r.kept)
          ]
    ]

    -- ProcessPacket comes to its end for every packet to a consistent dispatcher, whatever the
    -- packet: it returns, or exit(0) ends the program, which does not happen if no connection
    -- closes a stream. It leaves the dispatcher consistent; and if no writer waited without the
    -- socket being blocked, then none does after it. It is assumed that connections are lawful,
    -- that the limit of the time-wait list is not 0, and that the framer gives a version with the
    -- version flag.
    pub process_packet-IsConsistent :
        IsVersioned conns flags platform framer lawful admits
        → IsQuiescent conns flags d
        → (d' : Dispatcher Conn) × (process_packet conns flags platform framer server client packet
              now d
            ≡ some d')
          × IsConsistent conns flags now d'
          × IsQuiescent conns flags d'
          × (ClosesNoStream conns → d'.exited ≡ d.exited)
    process_packet-IsConsistent versioned quiet =
        let (d', eq, v', g, kept) = processed versioned in
        (d', eq, v', quiet_after d.link d'.link quiet g, kept)

    late_route :
        (header : PublicHeader)
        → contains header.connection_id d.time_wait_list.connection_id_map ≡ true
        → (d' : Dispatcher Conn) × (proceed : Bool) × (on_unauthenticated_public_header conns flags
              platform framer header now at_hand
            ≡ some (d', proceed))
          × IsRouted conns flags platform framer lawful admits now header.connection_id at_hand d'
              proceed
          × (d'.session_map ≡ d.session_map)
    unfolding on_unauthenticated_public_header TimeWait.is_connection_id_in_time_wait
    late_route header late = elim (Bool-cases (nat_beq client.port 0)) [
      | inl no_port ↦ (
        at_hand,
        false,
        simp no_port,
        record {
          consistent = at_hand-IsConsistent;
          growth = NoGrowth-refl d.link;
          kept = λ _. refl;
          listed = λ e. cc;
        },
        refl,
      )
      | inr from_port ↦ elim (Option-cases (find header.connection_id d.session_map)) [
        | inr (s, found) ↦ cc (
          late,
          v.apart header.connection_id
              (contains_of_find header.connection_id d.session_map s found),
        )
        | inl no_session ↦
            let (d', proceed, eq, r, same) =
              handled_late conns flags platform framer lawful admits now header at_hand late
                at_hand-IsConsistent in
            (d', proceed, simp (from_port, no_session, late, eq), r, same)
      ]
    ]

    -- A packet for an id on the time-wait list of a consistent dispatcher reaches no session and
    -- opens none: ProcessPacket returns with the sessions as they were, and the dispatcher
    -- consistent. It is assumed that connections are lawful and that the limit of the time-wait
    -- list is not 0.
    pub process_packet-late :
        (header : PublicHeader)
        → framer.public_header packet ≡ some header
        → contains header.connection_id d.time_wait_list.connection_id_map ≡ true
        → (d' : Dispatcher Conn) × (process_packet conns flags platform framer server client packet
              now d
            ≡ some d')
          × (d'.session_map ≡ d.session_map)
          × IsConsistent conns flags now d'
    unfolding process_packet
    process_packet-late header read late =
        let (d', proceed, eq, r, same) = late_route header late in
        elim (Bool-cases proceed) [
          | inl on ↦
              let (d'', eq', v'', g, same', _) =
                parsed now packet header d' (r.listed on) r.consistent in
              (d'', rw (read, process_packet) (simp (eq, on, eq')), same' ∙ same, v'')
          | inr done ↦ (d', rw (read, process_packet) (simp (eq, done)), same, r.consistent)
        ]
