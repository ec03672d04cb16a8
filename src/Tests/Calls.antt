-- ===== src/Tests/Calls.antt =====
-- The client, alarms and messages, applied.
use quic_toy.Socket.Laws.{get_address-make_msghdr, get_overflow-counter, counter_message}
use quic_toy.Client.Laws.{connect-IsEstablished, IsEstablished}
use quic_toy.Socket.{space_for_ip, make_msghdr, get_overflow_from_msghdr, get_address_from_msghdr}
use quic_toy.Base.{nat_eq, ◌≤◌, ◌≡◌, arith, some, [], ◌∷◌, refl}
use quic_toy.Tests.{
  peer, platform, counting, new_client, arrival, connected_client, connected_at_once, loopback6,
}

connect-IsEstablished_example : IsEstablished counting connected_client
connect-IsEstablished_example =
    connect-IsEstablished counting (arrival ∷ []) 3 new_client connected_client refl
      connected_at_once

get_address-make_msghdr_example :
    (get_address_from_msghdr (make_msghdr platform.is_ipv4 (1 ∷ []) loopback6 peer) ≡ loopback6)
    × ((make_msghdr platform.is_ipv4 (1 ∷ []) loopback6 peer).msg_controllen ≤ space_for_ip)
get_address-make_msghdr_example =
    get_address-make_msghdr platform.is_ipv4 (1 ∷ []) loopback6 peer refl refl

get_overflow-counter_example :
    get_overflow_from_msghdr (record {
      msg_name = peer;
      msg_iov = [];
      msg_control = counter_message 2_147_483_648 ∷ [];
      msg_controllen = 24;
    })
    ≡ some 18_446_744_071_562_067_968
get_overflow-counter_example = get_overflow-counter 2_147_483_648 peer [] [] (omega arith)
