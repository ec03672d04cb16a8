-- ===== src/Server/Starting.antt =====
-- Listen of net/tools/quic/quic_server.cc.
use quic_toy.Base.{
  ℕ, List, [], ◌∷◌, ◌++◌, some, none, Bool, true, false, ◌≡◌, refl, ◌⊎◌, inl, inr, ◌≤◌, Bool-cases,
  if◌then◌else◌, Option-cases, nat_beq,
}
use quic_toy.Base.Int.{pos, negsuc, ltb_ℤ}
use quic_toy.Net.{IpEndPoint}
use quic_toy.Session.{Connections}
use quic_toy.TimeWait.{Flags}
use quic_toy.Writer.{Platform}
use quic_toy.Socket.{
  sol_socket, so_rxq_ovfl, set_get_address_info, set_receive_buffer_size, set_send_buffer_size,
}
use quic_toy.Dispatcher.{Dispatcher, Framer}
use quic_toy.Dispatcher.Packets.{new_dispatcher}
use quic_toy.Dispatcher.Initial.{new_dispatcher-IsConsistent}
use quic_toy.Dispatcher.Invariant.{IsConsistent, IsQuiescent}
use quic_toy.Server.Events.{ℤ-cases}
use quic_toy.Server.{Server, System, start, listen_at, listen_on, listen}

module _ (conns : Connections) (flags : Flags) (platform : Platform) (framer : Framer)
    (system : System) (buffer initial_version now later version : ℕ) (rest : List ℕ)
    (dated : later ≤ flags.infinite) where
  open conns use {Conn}

  -- A server that was started on a socket: it is registered for the socket's events, and its
  -- dispatcher is ready for them.
  pub record IsListening (fd : ℕ) (s s' : Server Conn) : Type 0 where
    pub socket : s'.fd ≡ pos fd
    pub registered : s'.registered ≡ s.registered ++ fd ∷ []
    pub ready :
        (d : Dispatcher Conn) × (s'.dispatcher ≡ some d)
        × IsConsistent conns flags later d
        × IsQuiescent conns flags d

  -- A server that was not: nothing is registered, and its dispatcher is what it was.
  pub record IsRefused (s s' : Server Conn) : Type 0 where
    pub registered : s'.registered ≡ s.registered
    pub dispatcher : s'.dispatcher ≡ s.dispatcher

  -- bind succeeds, and getsockname where the port is to be chosen.
  abbrev pub IsBound : ℕ → IpEndPoint → ℕ → Type 0
  IsBound fd address port =
      (ltb_ℤ (system.bind fd address) (pos 0) ≡ false)
      × ((nat_beq port 0 ≡ false) ⊎ ((name : IpEndPoint) × (system.getsockname fd ≡ some name)))

  abbrev pub IsUnbound : ℕ → IpEndPoint → ℕ → Type 0
  IsUnbound fd address port =
      (ltb_ℤ (system.bind fd address) (pos 0) ≡ true)
      ⊎ ((nat_beq port 0 ≡ true) × (system.getsockname fd ≡ none))

  -- The options of the socket can be set.
  abbrev pub IsConfigured : ℕ → IpEndPoint → Type 0
  IsConfigured fd address =
      (ltb_ℤ (set_get_address_info system.setsockopt fd (system.address_family address.address))
          (pos 0)
        ≡ false)
      × (set_receive_buffer_size system.setsockopt fd buffer ≡ true)
      × (set_send_buffer_size system.setsockopt fd buffer ≡ true)

  abbrev pub IsUnconfigured : ℕ → IpEndPoint → Type 0
  IsUnconfigured fd address =
      (ltb_ℤ (set_get_address_info system.setsockopt fd (system.address_family address.address))
          (pos 0)
        ≡ true)
      ⊎ (set_receive_buffer_size system.setsockopt fd buffer ≡ false)
      ⊎ (set_send_buffer_size system.setsockopt fd buffer ≡ false)

  -- Some call of the kernel fails.
  abbrev pub IsFailing : IpEndPoint → Type 0
  IsFailing address =
      ((e : ℕ) × (system.socket (system.address_family address.address) ≡ negsuc e))
      ⊎ ((fd : ℕ) × (system.socket (system.address_family address.address) ≡ pos fd)
          × (IsUnconfigured fd address ⊎ IsUnbound fd address address.port))

  abbrev StartsAt : ℕ → IpEndPoint → ℕ → Server Conn → Server Conn × Bool → Type 0
  StartsAt fd address port s (s', started) =
      ((started ≡ true) × IsListening fd s s' × IsBound fd address port)
      ⊎ ((started ≡ false) × IsRefused s s' × IsUnbound fd address port)

  abbrev StartsOn : ℕ → IpEndPoint → ℕ → Server Conn → Server Conn × Bool → Type 0
  StartsOn fd address port s (s', started) =
      ((started ≡ true) × IsListening fd s s' × IsConfigured fd address × IsBound fd address port)
      ⊎ ((started ≡ false)
          × IsRefused s s'
          × (IsUnconfigured fd address ⊎ IsUnbound fd address port))

  abbrev pub IsStart : IpEndPoint → Server Conn → Server Conn × Bool → Type 0
  IsStart address s (s', started) =
      ((started ≡ true)
        × ((fd : ℕ) × (system.socket (system.address_family address.address) ≡ pos fd)
            × IsListening fd s s'
            × IsConfigured fd address
            × IsBound fd address address.port))
      ⊎ ((started ≡ false) × IsRefused s s' × IsFailing address)

  refused : (s : Server Conn) → IsRefused s s
  refused s = record { registered = refl; dispatcher = refl }

  made :
      (fd : ℕ) (versions : List ℕ)
      → versions ≡ version ∷ rest
      → let d =
          new_dispatcher conns flags platform framer fd versions initial_version now later
            (record { address = []; port = 0 }) in
        IsConsistent conns flags later d × IsQuiescent conns flags d
  made fd versions e = rw e (
      new_dispatcher-IsConsistent conns flags platform framer fd version rest initial_version now
        later (record { address = []; port = 0 }) dated)

  started :
      (fd : ℕ) (s t : Server Conn)
      → t.fd ≡ pos fd
      → t.supported_versions ≡ version ∷ rest
      → t.registered ≡ s.registered
      → IsListening fd s
          (start conns flags platform framer system buffer initial_version now later fd t)
  unfolding start
  started fd s t open_fd versions same =
      let (v, quiet) = made fd t.supported_versions versions in
      record { socket = open_fd; registered = rw same refl; ready = (_, refl, v, quiet) }

  listen_at-IsStart :
      (fd : ℕ) (address : IpEndPoint) (s t : Server Conn)
      → t.fd ≡ pos fd
      → t.supported_versions ≡ version ∷ rest
      → t.registered ≡ s.registered
      → t.dispatcher ≡ s.dispatcher
      → StartsAt fd address t.port s (
          listen_at conns flags platform framer system buffer initial_version now later fd address
            t)
  unfolding listen_at
  listen_at-IsStart fd address s t open_fd versions same same_dispatcher =
      let stays : IsRefused s t = record { registered = same; dispatcher = same_dispatcher } in
      elim (Bool-cases (ltb_ℤ (system.bind fd address) (pos 0))) [
        | inl unbound ↦ rw unbound (inr (refl, stays, inl refl))
        | inr bound ↦ elim (Bool-cases (nat_beq t.port 0)) [
          | inr given ↦
              rw (bound, given) (inl (refl, started fd s t open_fd versions same, (refl, inl refl)))
          | inl any_port ↦ elim (Option-cases (system.getsockname fd)) [
            | inl unknown ↦ rw (bound, any_port, unknown) (inr (refl, stays, inr (refl, refl)))
            | inr (name, known) ↦
                rw (bound, any_port, known)
                  (inl (
                    refl,
                    started fd s (record t { port = name.port }) open_fd versions same,
                    (refl, inr (name, refl)),
                  ))
          ]
        ]
      ]

  listen_on-IsStart :
      (fd : ℕ) (address : IpEndPoint) (s t : Server Conn)
      → t.fd ≡ pos fd
      → t.supported_versions ≡ version ∷ rest
      → t.registered ≡ s.registered
      → t.dispatcher ≡ s.dispatcher
      → StartsOn fd address t.port s (
          listen_on conns flags platform framer system buffer initial_version now later fd address
            t)
  unfolding listen_on
  listen_on-IsStart fd address s t open_fd versions same same_dispatcher =
      let family = system.address_family address.address in
      let stays : (o : Bool) → IsRefused s (record t { overflow_supported = o }) =
        λ o. record { registered = same; dispatcher = same_dispatcher } in
      elim (Bool-cases (ltb_ℤ (set_get_address_info system.setsockopt fd family) (pos 0))) [
        | inl no_info ↦ rw no_info (inr (refl, stays t.overflow_supported, inl (inl refl)))
        | inr info ↦ elim (Bool-cases (set_receive_buffer_size system.setsockopt fd buffer)) [
          | inr small ↦ rw (info, small) (inr (refl, stays _, inl (inr (inl refl))))
          | inl large ↦ elim (Bool-cases (set_send_buffer_size system.setsockopt fd buffer)) [
            | inr small ↦ rw (info, large, small) (inr (refl, stays _, inl (inr (inr refl))))
            | inl both ↦
                rw (info, large, both)
                  (elim (listen_at-IsStart fd address s
                    (record t {
                      overflow_supported =
                          if ltb_ℤ (system.setsockopt fd sol_socket so_rxq_ovfl 1) (pos 0)
                          then t.overflow_supported
                          else true;
                    })
                    open_fd versions same same_dispatcher) [
                      | inl (on, listening, bound) ↦ inl (on, listening, (refl, refl, refl), bound)
                      | inr (off, stays', unbound) ↦ inr (off, stays', inr unbound)
                    ])
          ]
        ]
      ]

  -- Listen either returns true, and then every call of the kernel that it needs has succeeded, the
  -- socket is open and registered with the event loop, and the dispatcher is consistent with no
  -- writer waiting; or it returns false, and then one of the calls fails, nothing is registered and
  -- no dispatcher made: socket, an option of the socket or the size of its buffers, bind, or
  -- getsockname where the port is to be chosen. The server supports a version, and the clock is
  -- below the infinite time.
  pub listen-IsStart :
      (address : IpEndPoint) (s : Server Conn)
      → s.supported_versions ≡ version ∷ rest
      → IsStart address s
          (listen conns flags platform framer system buffer initial_version now later address s)
  unfolding listen
  listen-IsStart address s versions =
      elim (ℤ-cases (system.socket (system.address_family address.address))) [
        | inr (e, failed) ↦
            rw (failed, listen)
              (inr (refl, record { registered = refl; dispatcher = refl }, inl (e, refl)))
        | inl (fd, opened) ↦
            rw (opened, listen)
              (elim (listen_on-IsStart fd address s (record s { port = address.port; fd = pos fd })
                refl versions refl refl) [
                  | inl (on, listening, set, bound) ↦ inl (on, (fd, refl, listening, set, bound))
                  | inr (off, stays, failing) ↦ inr (off, stays, inr (fd, refl, failing))
                ])
      ]
