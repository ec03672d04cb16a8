-- ===== src/TimeWait/Refines.antt =====
-- Any sequence of operations of net/tools/quic/quic_time_wait_list_manager.cc on the list, and on a table
-- of ids.
use quic_toy.Base.{ℕ, List, [], ◌∷◌, some, ◌≡◌, refl, ◌∙◌, ◌+◌, ◌≤◌, arith, nat_eq}
use quic_toy.Base.Int.{negsuc}
use quic_toy.Net.{EncryptedPacket}
use quic_toy.Writer.{writer_eq, Platform}
use quic_toy.TimeWait.{Flags, PublicResetPacket}
use quic_toy.TimeWait.Abstract.{
  Op, adds, cleans_up, receives, passes, duration, Manager, perform_all, replay_one, replay,
}
use quic_toy.TimeWait.Performed.{
  table, IsSound, Refines, adds-Refines, cleans_up-Refines, receives-Refines, passes-Refines,
}

module _ (flags : Flags) (n : ℕ) (unlimited : flags.time_wait_list_max_connections ≡ negsuc n)
    (platform : Platform) (build : PublicResetPacket → EncryptedPacket) (period : ℕ) where
  performs :
      (o : Op) (m : Manager)
      → IsSound flags n unlimited platform build period m
      → m.now + duration (o ∷ []) ≤ flags.infinite
      → (m' : Manager) × Refines flags n unlimited platform build period o m m'
  performs (adds id version close_packet) m v k =
      adds-Refines flags n unlimited platform build period id version close_packet m v
  performs cleans_up m v k = cleans_up-Refines flags n unlimited platform build period m v
  performs (receives server client id sequence_number) m v k =
      receives-Refines flags n unlimited platform build period server client id sequence_number m v
  performs (passes time) m v k =
      passes-Refines flags n unlimited platform build period time m v (omega (arith, k))

  duration-cons : (o : Op) (os : List Op) → duration (o ∷ os) ≡ duration (o ∷ []) + duration os
  duration-cons (adds id version close_packet) os = omega arith
  duration-cons cleans_up os = omega arith
  duration-cons (receives server client id sequence_number) os = omega arith
  duration-cons (passes time) os = omega arith

  -- A time-wait list without a limit implements a table from ids to their data: any sequence of
  -- closes, clean-ups, packets for any ids, and passing time, from a list that is well formed and
  -- whose queued answers wait for the socket, is performed to its end, and leaves a list that reads,
  -- at every id, as the same sequence performed on the table that the list was. The clock stays
  -- below the infinite time.
  pub perform_all-replay :
      (os : List Op) (m : Manager)
      → IsSound flags n unlimited platform build period m
      → m.now + duration os ≤ flags.infinite
      → (m' : Manager) × (perform_all platform build flags os m ≡ some m')
        × IsSound flags n unlimited platform build period m'
        × (table m' ≡ replay period m.now os (table m))
  unfolding perform_all
  perform_all-replay [] m v k = (m, refl, v, refl)
  perform_all-replay (o ∷ os) m v k =
      let split = duration-cons o os in
      let (m1, r) = performs o m v (omega (arith, k, split)) in
      let same : table m1 ≡ replay_one period m.now o (table m) = λ i j. r.reads j i in
      let (m2, eq, v2, reads) =
        perform_all-replay os m1 r.sound (omega (arith, k, split, r.timed)) in
      (m2, rw r.performed eq, v2, reads ∙ rw (r.timed, same) refl)
