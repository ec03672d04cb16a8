-- ===== src/Tests/Starts.antt =====
-- A concrete client that opens its socket, and the server's program.
use quic_toy.Server.Starting.{IsFailing}
use quic_toy.Base.Int.{pos, negsuc}
use quic_toy.Perf.{exits}
use quic_toy.Client.Opening.{initialize-IsOpened, IsUndone, IsOpened, IsFresh}
use quic_toy.Base.{
  refl, length, ◌⊎◌, List, arith, nat_beq, ◌≡◌, if◌then◌else◌, ℕ, none, some, true, false, [], ◌∷◌,
}
use quic_toy.Tests.{
  echo, flags, platform, framer, echo-IsLawful, versioned, counting, new_client, datagram,
}
use quic_toy.Server.{System, Windows, new_server, listen}
use quic_toy.Perf.QuicServer.{main, main-IsServing, listen_address, IsServed}
use quic_toy.Client.{disconnect, Client, initialize}
use quic_toy.Server.Schedule.{sessions_alarm, list_alarm, passes, Host, socket_event, Event}

abbrev kernel : System
kernel = record {
  address_family = λ a. if nat_beq (length a) 4 then 2 else 10;
  socket = λ family. pos 4;
  setsockopt = λ fd level option value. pos 0;
  bind = λ fd address. pos 0;
  getsockname = λ fd. none;
}

abbrev fresh_client : Client ℕ
fresh_client = record new_client { fd = negsuc 0; initialized = false; registered = 3 ∷ [] }

fresh_client-IsFresh : IsFresh counting kernel 2 100 16_384 fresh_client
fresh_client-IsFresh fd eq = ground (arith, eq)

initialize-IsOpened_example :
    let result = initialize counting kernel 2 100 16_384 fresh_client in
    IsOpened counting kernel 2 100 16_384 fresh_client result
    × IsUndone counting kernel 2 100 16_384 fresh_client (disconnect counting result.0)
initialize-IsOpened_example =
    initialize-IsOpened counting kernel 2 100 16_384 fresh_client refl fresh_client-IsFresh

abbrev day : List Event
day = socket_event true true (datagram ∷ []) ∷ passes 700 ∷ list_alarm ∷ sessions_alarm ∷ []

abbrev config : Windows
config = record { stream = 16_384; session = 16_384 }

main-IsServing_example :
    let result =
      main echo flags platform framer kernel 100 24 16_384 1_000 1_001 config (24 ∷ []) day in
    let listening =
      listen echo flags platform framer kernel 100 24 1_000 1_001 listen_address
        (new_server echo flags platform framer 16_384 config (24 ∷ [])) in
    ((listening.1 ≡ false)
      × (result ≡ some (exits 1))
      × IsFailing echo flags platform framer kernel 100 24 1_000 1_001 24 []
          (omega arith)
          listen_address)
    ⊎ ((listening.1 ≡ true)
        × ((h : Host ℕ) × IsServed echo flags platform framer kernel 100 24 16_384 1_000 1_001
              listening.0 day result h))
main-IsServing_example =
    main-IsServing echo flags platform framer kernel 100 24 16_384 1_000 1_001 echo-IsLawful
      (omega arith) versioned config 24 [] day (omega arith)
