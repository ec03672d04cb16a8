-- ===== src/Client/Opening.antt =====
-- Initialize of net/tools/quic/quic_client.cc on all of its branches.
use quic_toy.Base.LinkedMap.Laws.{beq_self}
use quic_toy.EventLoop.{is_member}
use quic_toy.Socket.{
  so_rxq_ovfl, sol_socket, set_get_address_info, set_send_buffer_size, set_receive_buffer_size,
}
use quic_toy.Net.{IpEndPoint}
use quic_toy.Base.Int.{negsuc, ltb_ℤ, pos}
use quic_toy.Server.{System}
use quic_toy.Base.{
  nat_eq, arith, sym, List, ◌∙◌, if◌then◌else◌, refl, Option-cases, Bool-cases, inl, inr, ◌⊎◌, Bool,
  ◌≡◌, ℕ, none, true, false, [], ◌∷◌,
}
use quic_toy.Client.{
  register, remove_fd, disconnect, bind_address, client_windows, Client, ClientSession, initialize,
  create_udp_socket, bind_socket,
}
use quic_toy.Server.Events.{ℤ-cases}

module _ (sessions : ClientSession) (system : System)
    (af_inet default_socket_receive_buffer minimum_window : ℕ) where
  open sessions use {Conn}

  -- The client apart from its socket.
  abbrev pub IsSame : Client Conn → Client Conn → Type 0
  IsSame c c' =
      (c'.registered ≡ c.registered)
      × (c'.initialized ≡ c.initialized)
      × (c'.session ≡ c.session)
      × (c'.server_address ≡ c.server_address)
      × (c'.windows ≡ c.windows)

  -- Where the socket is bound.
  abbrev pub local_of : Client Conn → IpEndPoint
  local_of c = record {
    address = bind_address sessions system af_inet default_socket_receive_buffer minimum_window c;
    port = c.local_port;
  }

  -- The options of the socket can be set, and bind succeeds.
  abbrev pub IsWorking : ℕ → Client Conn → Type 0
  IsWorking fd c =
      (set_receive_buffer_size system.setsockopt fd default_socket_receive_buffer ≡ true)
      × (set_send_buffer_size system.setsockopt fd default_socket_receive_buffer ≡ true)
      × (ltb_ℤ
            (set_get_address_info system.setsockopt fd
              (system.address_family c.server_address.address))
            (pos 0)
          ≡ false)
      × (ltb_ℤ (system.bind fd (local_of c)) (pos 0) ≡ false)

  -- One of the calls fails.
  abbrev pub IsFailing : Client Conn → Type 0
  IsFailing c =
      ((e : ℕ) × (system.socket (system.address_family c.server_address.address) ≡ negsuc e))
      ⊎ ((fd : ℕ) × (system.socket (system.address_family c.server_address.address) ≡ pos fd)
          × ((set_receive_buffer_size system.setsockopt fd default_socket_receive_buffer ≡ false)
              ⊎ (set_send_buffer_size system.setsockopt fd default_socket_receive_buffer ≡ false)
              ⊎ (ltb_ℤ
                    (set_get_address_info system.setsockopt fd
                      (system.address_family c.server_address.address))
                    (pos 0)
                  ≡ true)
              ⊎ (ltb_ℤ (system.bind fd (local_of c)) (pos 0) ≡ true)))

  abbrev pub IsCreated : Client Conn → Client Conn × Bool → Type 0
  IsCreated c (c', created) =
      IsSame c c'
      × (c'.fd ≡ system.socket (system.address_family c.server_address.address))
      × (((created ≡ true) × ((fd : ℕ) × (c'.fd ≡ pos fd) × IsWorking fd c))
          ⊎ ((created ≡ false) × IsFailing c))

  abbrev BindsTo : ℕ → Client Conn → Client Conn → Client Conn × Bool → Type 0
  BindsTo fd c t (c', created) =
      IsSame c c'
      × (c'.fd ≡ pos fd)
      × (((created ≡ true) × (ltb_ℤ (system.bind fd (local_of t)) (pos 0) ≡ false))
          ⊎ ((created ≡ false) × (ltb_ℤ (system.bind fd (local_of t)) (pos 0) ≡ true)))

  bind_socket-BindsTo :
      (fd : ℕ) (c t : Client Conn)
      → t.fd ≡ pos fd
      → IsSame c t
      → BindsTo fd c t
          (bind_socket sessions system af_inet default_socket_receive_buffer minimum_window fd t)
  unfolding bind_socket
  bind_socket-BindsTo fd c t its same =
      elim (Bool-cases (ltb_ℤ (system.bind fd (local_of t)) (pos 0))) [
        | inl unbound ↦ rw (bind_socket, unbound) (same, its, inr (refl, refl))
        | inr bound ↦ elim (Option-cases (system.getsockname fd)) [
          | inl unknown ↦ rw (bind_socket, bound, unknown) (same, its, inl (refl, refl))
          | inr (name, known) ↦ rw (bind_socket, bound, known) (same, its, inl (refl, refl))
        ]
      ]

  create_udp_socket-IsCreated :
      (c : Client Conn)
      → IsCreated c
          (create_udp_socket sessions system af_inet default_socket_receive_buffer minimum_window c)
  unfolding create_udp_socket
  create_udp_socket-IsCreated c =
      let family = system.address_family c.server_address.address in
      elim (ℤ-cases (system.socket family)) [
        | inr (e, failed) ↦
            rw (create_udp_socket, failed)
              ((refl, refl, refl, refl, refl), refl, inr (refl, inl (e, refl)))
        | inl (fd, opened) ↦
            elim (Bool-cases
              (set_receive_buffer_size system.setsockopt fd default_socket_receive_buffer)) [
                | inr small ↦
                    rw (create_udp_socket, opened, small)
                      ((refl, refl, refl, refl, refl), refl, inr (refl, inr (fd, refl, inl small)))
                | inl large ↦
                    elim (Bool-cases
                      (set_send_buffer_size system.setsockopt fd default_socket_receive_buffer)) [
                        | inr small ↦
                            rw (create_udp_socket, opened, large, small)
                              (
                                (refl, refl, refl, refl, refl),
                                refl,
                                inr (refl, inr (fd, refl, inr (inl small))),
                              )
                        | inl both ↦
                            elim (Bool-cases
                              (ltb_ℤ (set_get_address_info system.setsockopt fd family) (pos 0))) [
                                | inl no_info ↦
                                    rw (create_udp_socket, opened, large, both, no_info)
                                      (
                                        (refl, refl, refl, refl, refl),
                                        refl,
                                        inr (refl, inr (fd, refl, inr (inr (inl no_info)))),
                                      )
                                | inr info ↦
                                    let t = record c {
                                      fd = pos fd;
                                      overflow_supported =
                                          if ltb_ℤ (system.setsockopt fd sol_socket so_rxq_ovfl 1)
                                            (pos 0)
                                          then c.overflow_supported
                                          else true;
                                    } in
                                    let (same, its, bound) =
                                      bind_socket-BindsTo fd c t refl
                                        (refl, refl, refl, refl, refl) in
                                    rw (create_udp_socket, opened, large, both, info)
                                      (
                                        same,
                                        its,
                                        elim bound [
                                          | inl (yes_bound, works) ↦
                                              inl (yes_bound, (fd, its, (large, both, info, works)))
                                          | inr (not_bound, fails) ↦
                                              inr (not_bound, inr (fd, refl, inr (inr (inr fails))))
                                        ],
                                      )
                              ]
                      ]
              ]
      ]

-- Removing a descriptor that is not there.
remove_fd_absent : (fd : ℕ) (xs : List ℕ) → is_member fd xs ≡ false → remove_fd fd xs ≡ xs
remove_fd_absent fd [] h = refl
remove_fd_absent fd (x ∷ xs) h = ground (arith, h, remove_fd_absent fd xs)

module _ (sessions : ClientSession) (system : System)
    (af_inet default_socket_receive_buffer minimum_window : ℕ) where
  open sessions use {Conn}

  -- The client after Initialize: registered on a new socket, or, if a call failed, as it was.
  abbrev pub IsOpened : Client Conn → Client Conn × Bool → Type 0
  IsOpened c (c', opened) =
      ((opened ≡ true)
        × ((fd : ℕ) × (c'.fd ≡ pos fd)
            × (c'.registered ≡ fd ∷ c.registered)
            × IsWorking sessions system af_inet default_socket_receive_buffer minimum_window fd c)
        × (c'.initialized ≡ true))
      ⊎ ((opened ≡ false)
          × (c'.registered ≡ c.registered)
          × (c'.initialized ≡ c.initialized)
          × IsFailing sessions system af_inet default_socket_receive_buffer minimum_window c)

  -- Back where it was, without a socket.
  abbrev pub IsUndone : Client Conn → Client Conn → Type 0
  IsUndone c c' =
      (c'.registered ≡ c.registered) × (c'.initialized ≡ false) × ((e : ℕ) × (c'.fd ≡ negsuc e))

  abbrev pub IsFresh : Client Conn → Type 0
  IsFresh c =
      (fd : ℕ)
      → system.socket (system.address_family c.server_address.address) ≡ pos fd
      → is_member fd c.registered ≡ false

  abbrev enrolled : Client Conn × Bool → Client Conn × Bool
  enrolled r = register sessions system af_inet default_socket_receive_buffer minimum_window r

  enrolled-IsOpened :
      (c c' : Client Conn) (created : Bool)
      → IsCreated sessions system af_inet default_socket_receive_buffer minimum_window c
          (c', created)
      → c.session ≡ none
      → IsFresh c
      → IsOpened c (enrolled (c', created))
        × IsUndone c (disconnect sessions (enrolled (c', created)).0)
  unfolding disconnect
  enrolled-IsOpened c c' created ((loop, state, its_session, server, limits), its_fd, result)
        none_yet fresh =
      let idle : c'.session ≡ none = its_session ∙ none_yet in
      elim (ℤ-cases c'.fd) [
        | inr (e, none_open) ↦
            let stays : enrolled (c', created) ≡ (c', false) = simp none_open in
            rw stays (
              inr (refl, loop, state, inl (e, sym its_fd ∙ none_open)),
              simp (disconnect, idle, none_open) (loop, refl, (e, refl)),
            )
        | inl (fd, is_open) ↦
            let apart = remove_fd_absent fd c.registered (fresh fd (sym its_fd ∙ is_open)) in
            elim (Bool-cases created) [
              | inr failed ↦
                  let stays : enrolled (c', created) ≡ (c', false) = simp (is_open, failed) in
                  rw stays (
                    inr (
                      refl,
                      loop,
                      state,
                      elim result [ inl (on, _) ↦ cc (on, failed) | inr (_, f) ↦ f ],
                    ),
                    simp (disconnect, idle, is_open) (rw loop apart, refl, (0, refl)),
                  )
              | inl done ↦
                  let joins : enrolled (c', created)
                      ≡ (record c' { registered = fd ∷ c'.registered; initialized = true }, true) =
                    simp (is_open, done) in
                  rw joins (
                    inl (
                      refl,
                      (
                        fd,
                        is_open,
                        rw loop refl,
                        elim result [
                          | inl (_, (fd', is_fd', works)) ↦
                              let same : fd' ≡ fd = cc (is_fd', is_open) in rw same at works
                          | inr (off, _) ↦ cc (off, done)
                        ],
                      ),
                      refl,
                    ),
                    simp (disconnect, idle, is_open)
                        (rw loop (ground (arith, apart, beq_self fd)), refl, (0, refl)),
                  )
            ]
      ]

  -- Initialize returns true with a socket that is registered with the event loop, and then the options
  -- of the socket, the sizes of its buffers and bind have succeeded; or it returns false, and then
  -- one of these or socket has failed, nothing new is registered, and whether the client is initialized
  -- is unchanged. In both cases Disconnect undoes it: the event loop's registrations are what they were before, the client is
  -- not initialized, and it has no socket. The client has no session yet, and the kernel gives a socket
  -- a descriptor that is not registered.
  pub initialize-IsOpened :
      (c : Client Conn)
      → c.session ≡ none
      → IsFresh c
      → let result =
          initialize sessions system af_inet default_socket_receive_buffer minimum_window c in
        IsOpened c result × IsUndone c (disconnect sessions result.0)
  unfolding initialize
  initialize-IsOpened c none_yet fresh =
      let c0 = record c { windows = client_windows minimum_window c.windows } in
      let (c', created) =
        create_udp_socket sessions system af_inet default_socket_receive_buffer minimum_window c0 in
      enrolled-IsOpened c0 c' created
        (create_udp_socket-IsCreated sessions system af_inet default_socket_receive_buffer
          minimum_window c0)
        none_yet fresh
