-- ===== src/Perf.antt =====
-- The performance programs quic_perf_client.cc and tcp_perf_client.cc: their options, and the loops that
-- send a stream of bytes in chunks.
--
-- A program ends with an exit code. uint64 is written out. The bytes of a chunk are random, and only
-- their number is kept.
pub mod QuicClient
pub mod TcpClient
pub mod TcpServer
pub mod QuicServer
pub mod Transfer
pub mod Failures
pub mod Counting
use quic_toy.Base.{
  ◌*◌, ℕ, List, [], ◌∷◌, Option, none, some, Bool, true, false, if◌then◌else◌, ltb, zero, suc, ◌+◌,
  ◌%◌, ◌>>=◌,
}

-- base::CommandLine: the arguments, and the value of a switch that is there.
pub record CommandLine (Text : Type 0) : Type 0 where
  pub args : List Text
  pub t : Option Text
  pub c : Option Text
  pub d : Option Text

-- FLAGS_total_transfer, FLAGS_chunk_size, FLAGS_duration.
pub record Options : Type 0 where
  pub total_transfer : ℕ
  pub chunk_size : ℕ
  pub duration : ℕ

abbrev pub default_options : Options
default_options = record { total_transfer = 10 * 1000 * 1000; chunk_size = 1000; duration = 0 }

-- The end of a program, or what it goes on with.
pub data Outcome (A : Type 0) : Type 0 where
  exits : ℕ → Outcome A
  goes_on : A → Outcome A

module _ {Text : Type 0} (string_to_uint64 : Text → Option ℕ) where
  -- A switch: its default where it is missing, and none where it is no number.
  abbrev pub switch_value : Option Text → ℕ → Option ℕ
  switch_value none default = some default
  switch_value (some text) default = string_to_uint64 text

  -- The start of main.
  unfoldable pub parse_options : CommandLine Text → Outcome (Text × Options)
  parse_options line = elim line.args [
    | [] ↦ exits 1
    | address ∷ _ ↦ elim (switch_value line.t default_options.total_transfer) [
      | none ↦ exits 1
      | some total ↦ elim (switch_value line.c default_options.chunk_size) [
        | none ↦ exits 1
        | some chunk ↦ elim (switch_value line.d default_options.duration) [
          | none ↦ exits 1
          | some duration ↦
              goes_on (
                address,
                record { total_transfer = total; chunk_size = chunk; duration = duration },
              )
        ]
      ]
    ]
  ]

-- `i += chunk` of uint64.
abbrev pub advance : ℕ → ℕ → ℕ
advance i chunk = (i + chunk) % 18_446_744_073_709_551_616

module _ {S : Type 0} (send : S → Option S) where
  -- The loop over the bytes, on fuel. `none` is a loop that does not end, or a call in it.
  unfoldable pub transfer_loop : ℕ → ℕ → Options → S → Option S
  transfer_loop zero i o s = none
  transfer_loop (suc fuel) i o s =
      let rest = send s >>= λ s'. transfer_loop fuel (advance i o.chunk_size) o s' in
      if ltb i o.total_transfer then rest else some s

  -- The loop over the time, by the readings of time(NULL) in its condition.
  unfoldable pub timed_loop : List ℕ → ℕ → S → Option S
  timed_loop [] dest s = none
  timed_loop (now ∷ later) dest s =
      let rest = send s >>= λ s'. timed_loop later dest s' in if ltb now dest then rest else some s
