-- ===== src/Tests/Replay.antt =====
-- A concrete time-wait list without a limit.
use quic_toy.Base.{◌≡◌, refl, arith, some, none, [], ◌∷◌, List, inl, nat_eq}
use quic_toy.Base.Int.{negsuc}
use quic_toy.Base.LinkedMap.{contains}
use quic_toy.TimeWait.{Flags}
use quic_toy.TimeWait.Abstract.{Op, adds, cleans_up, receives, passes, Manager, perform_all, replay}
use quic_toy.TimeWait.Performed.{table, IsSound}
use quic_toy.TimeWait.Refines.{perform_all-replay}
use quic_toy.Tests.{flags, platform, framer, peer, ended_list, free_link}

abbrev endless : Flags
endless = record flags { time_wait_list_max_connections = negsuc 0 }

abbrev manager : Manager
manager = record { now = 1_000; list = ended_list; link = free_link }

abbrev calls : List Op
calls =
    adds 5 24 none ∷ receives peer peer 8 1 ∷ receives peer peer 6 1 ∷ passes 450 ∷ cleans_up ∷ []

manager-IsSound : IsSound endless 0 refl platform framer.build_public_reset_packet 500 manager
unfolding contains
manager-IsSound = record {
  list = record {
    distinct = (refl, tt);
    in_order = (omega arith, omega arith);
    dated = omega arith;
    within = tt;
    armed = (1_400, refl, omega arith, (omega arith, tt));
  };
  queued = inl refl;
  same_period = refl;
}

perform_all-replay_example :
    (m' : Manager) × (perform_all platform framer.build_public_reset_packet endless calls manager
      ≡ some m')
    × IsSound endless 0 refl platform framer.build_public_reset_packet 500 m'
    × (table m' ≡ replay 500 1_000 calls (table manager))
perform_all-replay_example =
    perform_all-replay endless 0 refl platform framer.build_public_reset_packet 500 calls manager
      manager-IsSound (omega arith)
