-- ===== src/Dispatcher/Routes.antt =====
-- The ways of a packet through the dispatcher: to a session, to the time-wait list, or to a session
-- that is opened for it.
use quic_toy.Net.{EncryptedPacket}
use quic_toy.Dispatcher.Routing.{
  session-IsConsistent, with_session, listed-IsConsistent, NoGrowth-refl,
}
use quic_toy.Base.LinkedMap.Laws.{beq_self, find-insert, find-some, contains_of_find}
use quic_toy.TimeWait.Add.{add-eq, find-result, add_result}
use quic_toy.Dispatcher.Events.{event}
use quic_toy.Dispatcher.Actions.{NoGrowth}
use quic_toy.Dispatcher.Invariant.{IsConsistent}
use quic_toy.Base.LinkedMap.{find, contains}
use quic_toy.Base.{
  ◌∙◌, Option-cases, Option, ◌∷◌, List, inr, inl, none, Bool-cases, refl, nat_eq, false, some, true,
  ◌≡◌, Bool, ℕ,
}
use quic_toy.Dispatcher.{PublicHeader, Dispatcher, Framer}
use quic_toy.Writer.{Platform}
use quic_toy.TimeWait.{Flags}
use quic_toy.Session.{ClosesNoStream, Session, IsLawful, Connections}
use quic_toy.TimeWait
use quic_toy.TimeWait.Trim.{Admits}
use quic_toy.Dispatcher.Packets.{
  additional_validity_checks_then_create_session, reject, deliver, handle_packet_for_time_wait,
}

module _ (conns : Connections) (flags : Flags) (platform : Platform) (framer : Framer)
    (lawful : IsLawful conns) (admits : Admits flags.time_wait_list_max_connections) where
  open conns use {Conn}

  -- What a packet's way to its destination has come to: the framer goes on only for an id that is
  -- on the time-wait list.
  pub record IsRouted (now id : ℕ) (d d' : Dispatcher Conn) (proceed : Bool) : Type 0 where
    pub consistent : IsConsistent conns flags now d'
    pub growth : NoGrowth d.link d'.link
    pub kept : ClosesNoStream conns → d'.exited ≡ d.exited
    pub listed : (proceed ≡ true) → contains id d'.time_wait_list.connection_id_map ≡ true

  pub delivered :
      (now id : ℕ) (s : Session Conn) (d : Dispatcher Conn)
      → find id d.session_map ≡ some s
      → IsConsistent conns flags now d
      → (d' : Dispatcher Conn) × (deliver conns flags platform framer id s now d ≡ some (d', false))
        × IsRouted now id d d' false
  unfolding deliver
  delivered now id s d found v =
      let outcome =
        conns.process_udp_packet d.current_server_address d.current_client_address d.current_packet
          d.link.attempts s.connection in
      let (d', eq, r) =
        event conns flags platform id now s outcome.0 d found
          (lawful.packet_id d.current_server_address d.current_client_address d.current_packet
            d.link.attempts s.connection)
          v admits outcome.1
          (lawful.packet_orderly d.current_server_address d.current_client_address d.current_packet
            d.link.attempts s.connection) in
      (
        d',
        rw eq refl,
        record {
          consistent = r.consistent;
          growth = r.growth;
          kept = λ n. r.stays (
              n.0 d.current_server_address d.current_client_address d.current_packet d.link.attempts
                s.connection);
          listed = λ e. cc;
        },
      )

  pub handled_late :
      (now : ℕ) (header : PublicHeader) (d : Dispatcher Conn)
      → contains header.connection_id d.time_wait_list.connection_id_map ≡ true
      → IsConsistent conns flags now d
      → (d' : Dispatcher Conn) × (proceed : Bool) × (handle_packet_for_time_wait conns flags
            platform framer header d
          ≡ some (d', proceed))
        × IsRouted now header.connection_id d d' proceed
        × (d'.session_map ≡ d.session_map)
  unfolding handle_packet_for_time_wait TimeWait.get_quic_version_from_connection_id
  handled_late now header d late v = elim (Bool-cases header.reset_flag) [
    | inl reset ↦ (
      d,
      false,
      rw reset refl,
      record { consistent = v; growth = NoGrowth-refl d.link; kept = λ _. refl; listed = λ e. cc },
      refl,
    )
    | inr answered ↦
        let (e, found) = find-some header.connection_id d.time_wait_list.connection_id_map late in
        (
          record d { framer_version = e.version },
          true,
          rw answered (rw found refl),
          record {
            consistent = record {
              sessions = v.sessions;
              waiting = v.waiting;
              list = v.list;
              apart = v.apart;
              filed = v.filed;
              live = v.live;
              queued = v.queued;
              alarmed = v.alarmed;
              supports = v.supports;
            };
            growth = NoGrowth-refl d.link;
            kept = λ _. refl;
            listed = λ _. late;
          },
          refl,
        )
  ]

  pub rejected :
      (now version : ℕ) (header : PublicHeader) (d : Dispatcher Conn)
      → contains header.connection_id d.session_map ≡ false
      → IsConsistent conns flags now d
      → (d' : Dispatcher Conn) × (proceed : Bool) × (reject conns flags platform framer version
            header now d
          ≡ some (d', proceed))
        × IsRouted now header.connection_id d d' proceed
        × (d'.session_map ≡ d.session_map)
  unfolding reject
  rejected now version header d unknown v =
      let id = header.connection_id in
      let (d', proceed, eq, r, same) =
        handled_late now header
          (record d { time_wait_list = add_result flags id version none now d.time_wait_list })
          (contains_of_find id _ _
            (find-result flags id version none now now d.time_wait_list admits v.list))
          (listed-IsConsistent conns flags now id version d admits unknown v) in
      (
        d',
        proceed,
        rw (add-eq flags id version none now now d.time_wait_list admits v.list) eq,
        record { consistent = r.consistent; growth = r.growth; kept = r.kept; listed = r.listed },
        same,
      )

  -- A framer gives a header with the version flag at least one version.
  abbrev pub IsVersioned : Type 0
  IsVersioned =
      (packet : EncryptedPacket) (header : PublicHeader)
      → framer.public_header packet ≡ some header
      → header.version_flag ≡ true
      → (version : ℕ) × (rest : List ℕ) × (header.versions ≡ version ∷ rest)

  abbrev first_session : Dispatcher Conn → Conn → Session Conn
  first_session d c = record { handle = d.next_handle; connection = c; crypto_stream = some false }

  named :
      (d : Dispatcher Conn) (header : PublicHeader) (c : Conn)
      → conns.create header.connection_id d.current_server_address d.current_client_address ≡ some c
      → conns.connection_id (first_session d c).connection ≡ header.connection_id
  named d header c created =
      lawful.create_id header.connection_id d.current_server_address d.current_client_address c
        created

  pub opened :
      (now : ℕ) (header : PublicHeader) (d : Dispatcher Conn)
      → ((version : ℕ) × (rest : List ℕ) × (header.versions ≡ version ∷ rest))
      → contains header.connection_id d.session_map ≡ false
      → contains header.connection_id d.time_wait_list.connection_id_map ≡ false
      → IsConsistent conns flags now d
      → (d' : Dispatcher Conn) × (o : Option (Session Conn))
        × (additional_validity_checks_then_create_session conns flags platform framer header now d
            ≡ some (d', o))
        × IsConsistent conns flags now d'
        × NoGrowth d.link d'.link
        × (ClosesNoStream conns → d'.exited ≡ d.exited)
        × ((s : Session Conn) → o ≡ some s → find header.connection_id d'.session_map ≡ some s)
  unfolding additional_validity_checks_then_create_session
  opened now header d (version, rest, versions) unknown not_late v =
      elim (Option-cases
        (conns.create header.connection_id d.current_server_address d.current_client_address)) [
          | inl refused ↦ elim (Bool-cases (framer.is_supported_version version)) [
            | inl supported ↦
                let (d', proceed, eq, r, _) = rejected now version header d unknown v in
                (
                  d',
                  none,
                  rw (refused, additional_validity_checks_then_create_session)
                      (simp (versions, supported, eq)),
                  r.consistent,
                  r.growth,
                  r.kept,
                  λ s e. cc e,
                )
            | inr unsupported ↦ (
              d,
              none,
              rw (refused, additional_validity_checks_then_create_session)
                  (simp (versions, unsupported)),
              v,
              NoGrowth-refl d.link,
              λ _. refl,
              λ s e. cc e,
            )
          ]
          | inr (c, created) ↦ (
            with_session conns flags now header.connection_id (first_session d c) d unknown not_late
                (named d header c created),
            some (first_session d c),
            rw (created, additional_validity_checks_then_create_session) refl,
            session-IsConsistent conns flags now header.connection_id (first_session d c) d unknown
                not_late (named d header c created) v,
            NoGrowth-refl d.link,
            λ _. refl,
            λ s e.
                find-insert header.connection_id header.connection_id (first_session d c)
                  d.session_map unknown
                ∙ rw (beq_self header.connection_id) e,
          )
        ]
