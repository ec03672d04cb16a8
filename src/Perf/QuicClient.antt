-- ===== src/Perf/QuicClient.antt =====
-- quic_perf_client.cc.
use quic_toy.Base.{
  ℕ, List, Option, some, none, zero, suc, if◌then◌else◌, ◌%◌, Bool, ◌>>=◌, nat_beq, not, ◌+◌,
}
use quic_toy.Perf.{CommandLine, Options, exits, goes_on, parse_options, transfer_loop, timed_loop}

-- What the program calls: QuicClient, and the QuicClientStream that it makes. `wait_for_events` is none
-- where it does not return.
pub record Calls (S : Type 0) : Type 0 where
  pub initialize : S → S × Bool
  pub connect : S → S × Bool
  pub create_client_stream : S → S
  pub write_string_piece : ℕ → S → S
  pub has_buffered_data : S → Bool
  pub wait_for_events : S → Option S
  pub close_connection : S → S
  pub disconnect : S → S

module _ {S : Type 0} (calls : Calls S) where
  -- randomString takes a uint, to which a chunk size of 64 bits is cut down.
  abbrev pub random_string_length : ℕ → ℕ
  random_string_length length = length % 4_294_967_296

  -- The body of both loops.
  unfoldable pub send_chunk : ℕ → S → Option S
  send_chunk chunk s =
      let s' = calls.write_string_piece (random_string_length chunk) s in
      if calls.has_buffered_data s' then calls.wait_for_events s' else some s'

  -- The loop that waits for the stream's buffer, on fuel.
  unfoldable pub drain_loop : ℕ → S → Option S
  drain_loop zero s = none
  drain_loop (suc fuel) s =
      let rest = calls.wait_for_events s >>= λ s'. drain_loop fuel s' in
      if calls.has_buffered_data s then rest else some s

  -- The part of main with the stream, on fuel for its loops, with the readings of the clock.
  unfoldable pub send_all : ℕ → ℕ → ℕ → List ℕ → Options → S → Option S
  unfolding send_chunk drain_loop transfer_loop timed_loop
  send_all fuel drain_fuel start readings o s =
      if nat_beq o.duration 0
      then (transfer_loop (send_chunk o.chunk_size) fuel 0 o s >>= λ s'. drain_loop drain_fuel s')
      else timed_loop (send_chunk o.chunk_size) readings (start + o.duration) s

  module _ {Text : Type 0} (string_to_uint64 : Text → Option ℕ) where
    -- main: what is left of the state, and the exit code.
    unfoldable pub main : ℕ → ℕ → ℕ → List ℕ → CommandLine Text → S → Option (S × ℕ)
    unfolding send_all parse_options
    main fuel drain_fuel start readings line s = elim (parse_options string_to_uint64 line) [
      | exits code ↦ some (s, code)
      | goes_on (address, o) ↦
          let (s1, initialized) = calls.initialize s in
          let (s2, connected) = calls.connect s1 in
          let sent = send_all fuel drain_fuel start readings o (calls.create_client_stream s2) in
          if not initialized
          then some (s1, 1)
          else if not connected
          then some (s2, 1)
          else (sent >>= λ s3. some (calls.disconnect (calls.close_connection s3), 0))
    ]
