-- ===== src/Dispatcher/Choice.antt =====
-- The choice that OnUnauthenticatedPublicHeader makes among a packet's ways.
use quic_toy.Dispatcher.Routes.{delivered, rejected, opened, handled_late, IsRouted}
use quic_toy.Dispatcher.Routing.{NoGrowth-refl}
use quic_toy.Base.LinkedMap.Laws.{find-some}
use quic_toy.Dispatcher.Actions.{NoGrowth-trans}
use quic_toy.Dispatcher.Invariant.{IsConsistent}
use quic_toy.Base.LinkedMap.{find, contains}
use quic_toy.Base.{
  ◌∙◌, nat_beq, Option-cases, ◌∷◌, List, inr, inl, none, Bool-cases, refl, nat_eq, false, some,
  true, ◌≡◌, Bool, ℕ,
}
use quic_toy.Dispatcher.{PublicHeader, Dispatcher, Framer}
use quic_toy.Writer.{Platform}
use quic_toy.TimeWait.{Flags}
use quic_toy.Session.{IsLawful, Connections}
use mathlib.Core.List.{head?}
use quic_toy.TimeWait
use quic_toy.TimeWait.Trim.{Admits}
use quic_toy.Dispatcher.Packets.{on_unauthenticated_public_header, reject}

module _ (conns : Connections) (flags : Flags) (platform : Platform) (framer : Framer)
    (lawful : IsLawful conns) (admits : Admits flags.time_wait_list_max_connections) where
  open conns use {Conn}

  -- Where a packet goes, and what it leaves.
  abbrev pub IsRoutedBy : ℕ → PublicHeader → Dispatcher Conn → Type 0
  IsRoutedBy now header d =
      (d' : Dispatcher Conn) × (proceed : Bool) × (on_unauthenticated_public_header conns flags
          platform framer header now d
        ≡ some (d', proceed))
      × IsRouted conns flags platform framer lawful admits now header.connection_id d d' proceed

  module _ (now : ℕ) (header : PublicHeader) (d : Dispatcher Conn)
      (v : IsConsistent conns flags now d)
      (from_port : nat_beq d.current_client_address.port 0 ≡ false)
      (no_session : find header.connection_id d.session_map ≡ none) where
    unknown : contains header.connection_id d.session_map ≡ false
    unknown = elim (Bool-cases (contains header.connection_id d.session_map)) [
      | inl here ↦ let (s, found) = find-some header.connection_id d.session_map here in cc
      | inr gone ↦ gone
    ]

    routed_late :
        contains header.connection_id d.time_wait_list.connection_id_map ≡ true
        → IsRoutedBy now header d
    unfolding on_unauthenticated_public_header TimeWait.is_connection_id_in_time_wait
    routed_late late =
        let (d', proceed, eq, r, _) =
          handled_late conns flags platform framer lawful admits now header d late v in
        (d', proceed, simp (from_port, no_session, late, eq), r)

    module _ (not_late : contains header.connection_id d.time_wait_list.connection_id_map ≡ false)
        (no_reset : header.reset_flag ≡ false) where
      routed_away : header.version_flag ≡ false → IsRoutedBy now header d
      unfolding reject on_unauthenticated_public_header TimeWait.is_connection_id_in_time_wait
      routed_away plain =
          let (version, rest, versions) = v.supports in
          let (d', proceed, eq, r, _) =
            rejected conns flags platform framer lawful admits now version header d unknown v in
          let offered : head? d.supported_versions ≡ some version = rw versions refl in
          (
            d',
            proceed,
            simp (from_port, no_session, not_late, no_reset, plain, offered)
                (simp (no_reset, reject) at eq),
            r,
          )

      routed_first :
          ((version : ℕ) × (rest : List ℕ) × (header.versions ≡ version ∷ rest))
          → header.version_flag ≡ true
          → IsRoutedBy now header d
      unfolding on_unauthenticated_public_header TimeWait.is_connection_id_in_time_wait
      routed_first versions flagged =
          let (d', o, eq, v', g, kept, created) =
            opened conns flags platform framer lawful admits now header d versions unknown not_late
              v in
          elim (Option-cases o) [
            | inl nothing ↦ (
              d',
              false,
              simp (from_port, no_session, not_late, no_reset, flagged, eq, nothing),
              record { consistent = v'; growth = g; kept = kept; listed = λ e. cc e },
            )
            | inr (s, something) ↦
                let (d'', eq', r) =
                  delivered conns flags platform framer lawful admits now header.connection_id s d'
                    (created s something) v' in
                (
                  d'',
                  false,
                  simp (from_port, no_session, not_late, no_reset, flagged, eq, something, eq'),
                  record {
                    consistent = r.consistent;
                    growth = NoGrowth-trans d.link d'.link d''.link g r.growth;
                    kept = λ n. r.kept n ∙ kept n;
                    listed = r.listed;
                  },
                )
          ]

  pub routed :
      (now : ℕ) (header : PublicHeader) (d : Dispatcher Conn)
      → (header.version_flag ≡ true
          → (version : ℕ) × (rest : List ℕ) × (header.versions ≡ version ∷ rest))
      → IsConsistent conns flags now d
      → IsRoutedBy now header d
  unfolding on_unauthenticated_public_header TimeWait.is_connection_id_in_time_wait
  routed now header d versions v = elim (Bool-cases (nat_beq d.current_client_address.port 0)) [
    | inl no_port ↦ (
      d,
      false,
      simp no_port,
      record {
        consistent = v;
        growth = NoGrowth-refl d.link;
        kept = λ _. refl;
        listed = λ e. cc e;
      },
    )
    | inr from_port ↦ elim (Option-cases (find header.connection_id d.session_map)) [
      | inr (s, found) ↦
          let (d', eq, r) =
            delivered conns flags platform framer lawful admits now header.connection_id s d found
              v in
          (d', false, simp (from_port, found, eq), r)
      | inl no_session ↦
          elim (Bool-cases (contains header.connection_id d.time_wait_list.connection_id_map)) [
            | inl late ↦ routed_late now header d v from_port no_session late
            | inr not_late ↦ elim (Bool-cases header.reset_flag) [
              | inl reset ↦ (
                d,
                false,
                simp (from_port, no_session, not_late, reset),
                record {
                  consistent = v;
                  growth = NoGrowth-refl d.link;
                  kept = λ _. refl;
                  listed = λ e. cc e;
                },
              )
              | inr no_reset ↦ elim (Bool-cases header.version_flag) [
                | inl flagged ↦
                    routed_first now header d v from_port no_session not_late no_reset
                      (versions flagged) flagged
                | inr plain ↦
                    routed_away now header d v from_port no_session not_late no_reset plain
              ]
            ]
          ]
    ]
  ]
