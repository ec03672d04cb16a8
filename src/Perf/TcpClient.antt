-- ===== src/Perf/TcpClient.antt =====
-- tcp_perf_client.cc. Its state is the lengths that it has asked to be written, and a program's end is its
-- exit code.
use quic_toy.Base.{
  zero, suc, ℕ, List, Option, some, none, if◌then◌else◌, Bool, nat_beq, not, ◌+◌, ◌++◌, [], ◌∷◌,
  ltb,
}
use quic_toy.Base.Int.{ℤ, pos, ltb_ℤ}
use quic_toy.Perf.{advance, CommandLine, Options, exits, goes_on, parse_options}

-- The calls of the kernel and of the C library. What `write` returns may depend on the lengths that
-- were written before.
pub record Network (Text : Type 0) : Type 0 where
  pub socket : ℤ
  pub inet_aton : Text → Bool
  pub connect : Text → ℤ
  pub write : List ℕ → ℕ → ℤ

module _ {Text : Type 0} (network : Network Text) where
  -- The loop over the bytes, on fuel.
  unfoldable pub tcp_transfer_loop : ℕ → ℕ → Options → List ℕ → Option (List ℕ × ℕ)
  tcp_transfer_loop zero i o written = none
  tcp_transfer_loop (suc fuel) i o written =
      let written' = written ++ o.chunk_size ∷ [] in
      let rest = tcp_transfer_loop fuel (advance i o.chunk_size) o written' in
      if not (ltb i o.total_transfer)
      then some (written, 0)
      else if ltb_ℤ (network.write written o.chunk_size) (pos 0)
      then some (written', 1)
      else rest

  -- The loop over the time, by the readings of time(NULL) in its condition.
  unfoldable pub tcp_timed_loop : List ℕ → ℕ → ℕ → List ℕ → Option (List ℕ × ℕ)
  tcp_timed_loop [] dest chunk written = none
  tcp_timed_loop (now ∷ later) dest chunk written =
      let written' = written ++ chunk ∷ [] in
      let rest = tcp_timed_loop later dest chunk written' in
      if not (ltb now dest)
      then some (written, 0)
      else if ltb_ℤ (network.write written chunk) (pos 0)
      then some (written', 1)
      else rest

  unfoldable pub tcp_main :
      (Text → Option ℕ) → ℕ → ℕ → List ℕ → CommandLine Text → Option (List ℕ × ℕ)
  unfolding tcp_transfer_loop tcp_timed_loop parse_options
  tcp_main string_to_uint64 fuel start readings line = elim (parse_options string_to_uint64 line) [
    | exits code ↦ some ([], code)
    | goes_on (address, o) ↦
        if ltb_ℤ network.socket (pos 0)
        then some ([], 1)
        else if not (network.inet_aton address)
        then some ([], 1)
        else if ltb_ℤ (network.connect address) (pos 0)
        then some ([], 1)
        else if nat_beq o.duration 0
        then tcp_transfer_loop fuel 0 o []
        else tcp_timed_loop readings (start + o.duration) o.chunk_size []
  ]
