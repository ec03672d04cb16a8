-- ===== src/Dispatcher/Initial.antt =====
-- The dispatcher that InitializeWithWriter leaves.
use quic_toy.Dispatcher.Invariant.{IsQuiescent, IsConsistent}
use quic_toy.Net.{IpEndPoint}
use quic_toy.Base.{refl, inl, ◌∷◌, ◌≤◌, List, arith, ℕ, []}
use quic_toy.TimeWait.Invariant.{Within}
use quic_toy.Dispatcher.{Framer}
use quic_toy.Writer.{Platform}
use quic_toy.TimeWait.{Flags}
use quic_toy.Session.{Connections}
use quic_toy.Dispatcher.Packets.{new_dispatcher}
use quic_toy.TimeWait
use quic_toy.Base.LinkedMap.{find, contains}
use quic_toy.Base.Int.{pos, negsuc, ℤ}

module _ (conns : Connections) (flags : Flags) (platform : Platform) (framer : Framer) where
  open conns use {Conn}

  room : (limit : ℤ) → Within limit []
  room (pos max) = omega arith
  room (negsuc n) = tt

  -- A new dispatcher that supports a version is consistent at the
  -- time at which its clean-up alarm is set, and no writer waits in it.
  pub new_dispatcher-IsConsistent :
      (fd version : ℕ) (rest : List ℕ) (framer_version now later : ℕ) (nowhere : IpEndPoint)
      → later ≤ flags.infinite
      → let d =
          new_dispatcher conns flags platform framer fd
            (version ∷ rest)
            framer_version
            now
            later
            nowhere in
        IsConsistent conns flags later d × IsQuiescent conns flags d
  unfolding find contains new_dispatcher TimeWait.new_time_wait_list
      TimeWait.set_connection_id_clean_up_alarm
  new_dispatcher-IsConsistent fd version rest framer_version now later nowhere dated = (
    record {
      sessions = tt;
      waiting = tt;
      list = record {
        distinct = tt;
        in_order = omega arith;
        dated = dated;
        within = room flags.time_wait_list_max_connections;
        armed = (_, refl, omega arith, tt);
      };
      apart = λ id e. refl;
      filed = λ id s e. cc;
      live = λ h e. cc;
      queued = inl refl;
      alarmed = inl refl;
      supports = (version, rest, refl);
    },
    inl refl,
  )
