-- ===== src/Client/Laws.antt =====
-- Connect of net/tools/quic/quic_client.cc: the client that its loop leaves.
use quic_toy.Base.Int.{pos}
use quic_toy.Base.{
  ℕ, Option, Bool, [], ◌∷◌, Bool-cases, inr, arith, inl, false, ◌&&◌, Option-cases, not, true, List,
  some, ◌≡◌,
}
use quic_toy.Client.{connect, on_event, Client, ClientSession, Event, connect_loop}

module _ (sessions : ClientSession) where
  open sessions use {Conn}

  -- The client's session has finished its handshake and is connected.
  abbrev pub IsEstablished : Client Conn → Type 0
  IsEstablished c =
      (s : Conn) × (c.session ≡ some s)
      × (sessions.is_encryption_established s ≡ true)
      × (sessions.connected s ≡ true)

  abbrev pub outcome : Client Conn → Bool → Option (Client Conn × Bool)
  outcome c result = some (c, result)

  -- The loop's end, where the session does not keep it waiting.
  ended :
      (s : Conn) (c c' : Client Conn)
      → c.session ≡ some s
      → (not (sessions.is_encryption_established s) && sessions.connected s) ≡ false
      → outcome c (sessions.connected s) ≡ outcome c' true
      → IsEstablished c'
  ended s c c' is_s over e =
      let same : c ≡ c' = cc e in
      let up : sessions.connected s ≡ true = cc e in
      (s, rw same at is_s, ground (arith, over, up), up)

  loop_established :
      (events : List Event) (c c' : Client Conn)
      → connect_loop sessions events c ≡ outcome c' true
      → IsEstablished c'
  unfolding connect_loop
  loop_established [] c c' e = elim (Option-cases c.session) [
    | inl nothing ↦ cc (simp (nothing, connect_loop) at e)
    | inr (s, is_s) ↦
        elim (Bool-cases (not (sessions.is_encryption_established s) && sessions.connected s)) [
          | inl waits ↦ cc (simp (is_s, waits, connect_loop) at e)
          | inr over ↦ ended s c c' is_s over (simp (is_s, over, connect_loop) at e)
        ]
  ]
  loop_established (event ∷ events) c c' e = elim (Option-cases c.session) [
    | inl nothing ↦ cc (simp (nothing, connect_loop) at e)
    | inr (s, is_s) ↦
        elim (Bool-cases (not (sessions.is_encryption_established s) && sessions.connected s)) [
          | inl waits ↦
              loop_established events (on_event sessions event c) c'
                (simp (is_s, waits, connect_loop) at e)
          | inr over ↦ ended s c c' is_s over (simp (is_s, over, connect_loop) at e)
        ]
  ]

  -- If Connect of a client with a socket returns true, then the client's session has finished its
  -- handshake and is connected.
  pub connect-IsEstablished :
      (events : List Event) (fd : ℕ) (c c' : Client Conn)
      → c.fd ≡ pos fd
      → connect sessions events c ≡ outcome c' true
      → IsEstablished c'
  unfolding connect
  connect-IsEstablished events fd c c' open_socket e =
      loop_established events _ c' (simp (open_socket, connect) at e)
