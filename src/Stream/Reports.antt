-- ===== src/Stream/Reports.antt =====
-- What a stream of the server counts and prints.
use quic_toy.Base.{ℕ, List, [], ◌∷◌, ◌++◌, Option, some, ◌+◌, ◌%◌, ◌≡◌, refl, ◌∙◌, arith}
use mathlib.Core.List.{append-nil, append_assoc}
use quic_toy.Stream.{
  StreamEvent, arrives, fires, handle_all, process_raw_data, on_alarm, uint64,
  create_incoming_dynamic_stream, setup_performance_alarm,
}

-- All the data of a run.
abbrev pub total : List StreamEvent → ℕ
total [] = 0
total (arrives data_len ∷ es) = data_len + total es
total (fires now ∷ es) = total es

-- The data up to each call of the alarm, after `before` bytes.
abbrev pub totals : ℕ → List StreamEvent → List ℕ
totals before [] = []
totals before (arrives data_len ∷ es) = totals (before + data_len) es
totals before (fires now ∷ es) = before % uint64 ∷ totals before es

-- The next time that the alarm is set for.
abbrev pub next_alarm : Option ℕ → List StreamEvent → Option ℕ
next_alarm alarm [] = alarm
next_alarm alarm (arrives data_len ∷ es) = next_alarm alarm es
next_alarm alarm (fires now ∷ es) = next_alarm (some (now + 1_000_000)) es

handled :
    (es : List StreamEvent) (before : ℕ) (alarm : Option ℕ) (printed : List ℕ)
    → handle_all es (record { bytes_received = before % uint64; alarm = alarm; printed = printed })
      ≡ record {
        bytes_received = (before + total es) % uint64;
        alarm = next_alarm alarm es;
        printed = printed ++ totals before es;
      }
unfolding handle_all process_raw_data on_alarm
handled [] before alarm printed =
    let none_more : before % uint64 ≡ (before + 0) % uint64 = omega arith in
    rw (none_more, append-nil) refl
handled (arrives data_len ∷ es) before alarm printed =
    let counted : (before % uint64 + data_len) % uint64 ≡ (before + data_len) % uint64 =
      omega arith in
    let regrouped : before + data_len + total es ≡ before + (data_len + total es) = omega arith in
    rw counted (handled es (before + data_len) alarm printed ∙ rw regrouped refl)
handled (fires now ∷ es) before alarm printed =
    handled es before (some (now + 1_000_000)) (printed ++ before % uint64 ∷ [])
    ∙ rw append_assoc refl

-- A stream that the server makes counts all the data that comes, modulo 2^64, and prints at each call
-- of its alarm the count of the data so far; the alarm is set for one second after its last call, or
-- after the stream was made.
pub handle_all-totals :
    (es : List StreamEvent) (now : ℕ)
    → handle_all es (create_incoming_dynamic_stream now) ≡ record {
      bytes_received = total es % uint64;
      alarm = next_alarm (some (now + 1_000_000)) es;
      printed = totals 0 es;
    }
unfolding create_incoming_dynamic_stream setup_performance_alarm
handle_all-totals es now =
    let from_zero : 0 + total es ≡ total es = omega arith in
    handled es 0 (some (now + 1_000_000)) [] ∙ rw from_zero refl
