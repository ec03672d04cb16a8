-- ===== src/Perf/Failures.antt =====
-- The exit codes of quic_perf_client.cc.
use quic_toy.Base.{ℕ, List, Option, some, false, ◌≡◌, ◌⊎◌}
use quic_toy.Perf.{CommandLine, Options, exits, goes_on, parse_options}
use quic_toy.Perf.QuicClient.{Calls, send_all}

module _ {S Text : Type 0} (calls : Calls S) (string_to_uint64 : Text → Option ℕ)
    (line : CommandLine Text) where
  -- The states after Initialize and after Connect.
  abbrev initialized : S → S
  initialized s = (calls.initialize s).0

  abbrev connected : S → S
  connected s = (calls.connect (initialized s)).0

  -- The options cannot be read, the client cannot be initialized, or it cannot connect.
  abbrev pub IsFailure : S → S → Type 0
  IsFailure s s' =
      ((parse_options string_to_uint64 line ≡ exits 1) × (s' ≡ s))
      ⊎ ((calls.initialize s).1 ≡ false × (s' ≡ initialized s))
      ⊎ ((calls.connect (initialized s)).1 ≡ false × (s' ≡ connected s))

  module _ (fuel drain_fuel start : ℕ) (readings : List ℕ) (s s' : S) where
    -- The loops have come to their end, nothing is left in the stream's buffer unless the transfer is
    -- by time, and the connection is closed.
    abbrev pub IsSent : Type 0
    IsSent =
        (address : Text) × (o : Options) × (s3 : S) × (parse_options string_to_uint64 line
          ≡ goes_on (address, o))
        × (send_all calls fuel drain_fuel start readings o
              (calls.create_client_stream (connected s))
            ≡ some s3)
        × (o.duration ≡ 0 → calls.has_buffered_data s3 ≡ false)
        × (s' ≡ calls.disconnect (calls.close_connection s3))
