-- ===== src/Tests/Listening.antt =====
-- A concrete server that starts.
use quic_toy.Base.{false, nat_beq, if◌then◌else◌, ℕ, refl, arith, some, none, [], ◌∷◌, length}
use quic_toy.Base.Int.{pos, negsuc}
use quic_toy.Server.{System, Server, listen}
use quic_toy.Server.Starting.{listen-IsStart, IsStart}
use quic_toy.Tests.{echo, flags, platform, framer, peer}

abbrev system : System
system = record {
  address_family = λ a. if nat_beq (length a) 4 then 2 else 10;
  socket = λ family. pos 3;
  setsockopt = λ fd level option value. pos 0;
  bind = λ fd address. pos 0;
  getsockname = λ fd. some peer;
}

abbrev idle_server : Server ℕ
idle_server = record {
  port = 0;
  fd = negsuc 0;
  packets_dropped = 0;
  overflow_supported = false;
  windows = record { stream = 30_720; session = 1_048_576 };
  supported_versions = 24 ∷ [];
  registered = [];
  dispatcher = none;
}

listen-IsStart_example :
    IsStart echo flags platform framer system 100 24 1_000 1_001 24 []
      (omega arith)
      peer
      idle_server
      (listen echo flags platform framer system 100 24 1_000 1_001 peer idle_server)
listen-IsStart_example =
    listen-IsStart echo flags platform framer system 100 24 1_000 1_001 24 [] (omega arith) peer
      idle_server refl
