-- ===== src/Perf/QuicServer.antt =====
-- quic_perf_server.cc: a server that listens on port 1337 of every address, and handles its events for
-- ever.
--
-- What the server's event loop hands it is a list of events; `none` is a call that does not return. A
-- stream's OnClose ends the program by exit(0).
use quic_toy.Server.Starting.{IsFailing, listen-IsStart}
use quic_toy.Dispatcher.Invariant.{IsQuiescent, IsConsistent}
use quic_toy.Server.Life.{run-IsConsistent, elapsed}
use quic_toy.Perf.{exits, goes_on, Outcome}
use quic_toy.Dispatcher.Routes.{IsVersioned}
use quic_toy.TimeWait.Trim.{Admits}
use quic_toy.Dispatcher.{Dispatcher, Framer}
use quic_toy.Writer.{Platform}
use quic_toy.TimeWait.{Flags}
use quic_toy.Session
use quic_toy.Session.{IsLawful, Connections}
use quic_toy.Net.{IpEndPoint}
use quic_toy.Base.{
  true, false, Bool-cases, refl, inl, inr, arith, ◌⊎◌, ◌≡◌, not, ◌≤◌, ◌+◌, Option, if◌then◌else◌,
  List, ℕ, none, some, [], ◌∷◌, ◌>>=◌,
}
use quic_toy.Server.{Windows, Server, System, new_server, listen}
use quic_toy.Server.Schedule.{Event, Host, run}

-- The address that it listens on.
abbrev pub listen_address : IpEndPoint
listen_address = record { address = 0 ∷ 0 ∷ 0 ∷ 0 ∷ []; port = 1_337 }

module _ (conns : Connections) (flags : Flags) (platform : Platform) (framer : Framer)
    (system : System) (buffer initial_version minimum now later : ℕ) where
  open conns use {Conn}

  -- What OnEvent works on; the counter is passed on where the socket supports it.
  abbrev pub host_of : Server Conn → Dispatcher Conn → Host Conn
  host_of s d = record {
    now = later;
    dropped = if s.overflow_supported then some s.packets_dropped else none;
    dispatcher = d;
  }

  -- main up to the end of some events. A server without a dispatcher would be a null pointer.
  unfoldable pub main : Windows → List ℕ → List Event → Option (Outcome (Host Conn))
  unfolding new_server listen run
  main config versions events =
      let (s, listening) =
        listen conns flags platform framer system buffer initial_version now later listen_address
          (new_server conns flags platform framer minimum config versions) in
      let serving : Option (Outcome (Host Conn)) = elim s.dispatcher [
        | none ↦ none
        | some d ↦ run conns flags platform framer s.port events (host_of s d) >>= λ h.
            some (if h.dispatcher.exited then exits Session.on_close_code else goes_on h)
      ] in
      if not listening then some (exits 1) else serving

  abbrev pub dated :
      (events : List Event) → later + elapsed events ≤ flags.infinite → later ≤ flags.infinite
  dated events early = omega (arith, early)

  -- What main comes to after Listen has returned true: all the events are handled, or a stream's
  -- OnClose ends the program with exit code 0.
  abbrev pub IsServed : Server Conn → List Event → Option (Outcome (Host Conn)) → Host Conn → Type 0
  IsServed s events result h =
      (d : Dispatcher Conn) × (s.dispatcher ≡ some d)
      × (run conns flags platform framer s.port events (host_of s d) ≡ some h)
      × IsConsistent conns flags h.now h.dispatcher
      × (((h.dispatcher.exited ≡ true) × (result ≡ some (exits 0)))
          ⊎ ((h.dispatcher.exited ≡ false)
              × (result ≡ some (goes_on h))
              × IsQuiescent conns flags h.dispatcher))

  -- quic_perf_server exits with 1 exactly where Listen returns false, and then a call of the kernel
  -- fails in it. Otherwise it handles the events that come, in any order, until all are handled or
  -- a stream's OnClose ends the program with exit code 0: no call fails to return, and the
  -- dispatcher is consistent after them; while the program runs, writers wait only while the socket
  -- is blocked. The library supports a version, the clock stays below the infinite time,
  -- connections are lawful, the limit of the time-wait list is not 0, and the framer gives a
  -- version with the version flag.
  pub main-IsServing :
      (lawful : IsLawful conns) (admits : Admits flags.time_wait_list_max_connections)
      → IsVersioned conns flags platform framer lawful admits
      → (config : Windows) (version : ℕ) (rest : List ℕ) (events : List Event)
        (early : later + elapsed events ≤ flags.infinite)
      → let result = main config (version ∷ rest) events in
        let listening =
          listen conns flags platform framer system buffer initial_version now later listen_address
            (new_server conns flags platform framer minimum config (version ∷ rest)) in
        ((listening.1 ≡ false)
          × (result ≡ some (exits 1))
          × IsFailing conns flags platform framer system buffer initial_version now later version
              rest
              (dated events early)
              listen_address)
        ⊎ ((listening.1 ≡ true) × ((h : Host Conn) × IsServed listening.0 events result h))
  unfolding main
  main-IsServing lawful admits versioned config version rest events early =
      let s0 = new_server conns flags platform framer minimum config (version ∷ rest) in
      let (s, listening) =
        listen conns flags platform framer system buffer initial_version now later listen_address
          s0 in
      elim (listen-IsStart conns flags platform framer system buffer initial_version now later
        version rest (dated events early) listen_address s0 (unfold new_server in refl)) [
          | inr (failed, _, failing) ↦ inl (failed, rw (main, failed) refl, failing)
          | inl (started, (fd, _, open_server, _, _)) ↦
              let (d, made, v, quiet) = open_server.ready in
              let (h, eq, v', outcome, _) =
                run-IsConsistent conns flags platform framer lawful admits versioned s.port events
                  (host_of s d) v (inr quiet) early in
              inr (
                started,
                (
                  h,
                  (
                    d,
                    made,
                    eq,
                    v',
                    elim (Bool-cases h.dispatcher.exited) [
                      | inl gone ↦ inl (gone, rw (main, started, made, eq, gone) refl)
                      | inr runs ↦ inr (
                        runs,
                        rw (main, started, made, eq, runs) refl,
                        elim outcome [ inl gone ↦ cc (gone, runs) | inr (_, quiet') ↦ quiet' ],
                      )
                    ],
                  ),
                ),
              )
        ]
