-- ===== src/Perf/Transfer.antt =====
-- How much the performance programs send, and what they count.
use quic_toy.Base.{
  ap, ◌∙◌, ◌%◌, false, if◌then◌else◌, ℕ, zero, suc, List, [], ◌∷◌, ◌++◌, Option, none, some, true,
  ◌≡◌, refl, arith, ◌≤◌, ◌<◌, ◌+◌, ◌⊎◌, inl, inr, ltb, Bool-cases, Option-cases, ◌>>=◌,
}
use quic_toy.Base.Int.{pos, ltb_ℤ}
use quic_toy.Perf.{Options, transfer_loop, advance}
use quic_toy.Perf.QuicClient.{Calls, send_chunk}
use quic_toy.Perf.TcpClient.{Network, tcp_transfer_loop}

-- The bytes of k chunks.
abbrev pub bytes : ℕ → ℕ → ℕ
bytes zero chunk = 0
bytes (suc k) chunk = chunk + bytes k chunk

module _ {S : Type 0} (send : S → Option S) (o : Options) where
  abbrev pub repeat : ℕ → S → Option S
  repeat zero s = some s
  repeat (suc k) s = send s >>= λ s'. repeat k s'

  transfer_from :
      (fuel i : ℕ)
      → 0 < o.chunk_size
      → o.total_transfer + o.chunk_size ≤ 18_446_744_073_709_551_616
      → o.total_transfer ≤ i + fuel
      → (k : ℕ) × (o.total_transfer ≤ i + bytes k o.chunk_size)
        × ((k ≡ 0) ⊎ (i + bytes k o.chunk_size < o.total_transfer + o.chunk_size))
        × ((s : S) → transfer_loop send (suc fuel) i o s ≡ repeat k s)
  unfolding transfer_loop
  transfer_from zero i p small enough =
      (0, omega (arith, enough), inl refl, λ s. ground (arith, enough))
  transfer_from (suc fuel) i p small enough = elim (Bool-cases (ltb i o.total_transfer)) [
    | inr done ↦ (0, ground (arith, done), inl refl, λ s. rw done refl)
    | inl more ↦
        let less : i < o.total_transfer = ground (arith, more) in
        let exact : advance i o.chunk_size ≡ i + o.chunk_size = omega (arith, less, small) in
        let (k, all, short, eq) =
          transfer_from fuel (advance i o.chunk_size) p small (omega (arith, exact, p, enough)) in
        (
          suc k,
          omega (arith, exact, all),
          inr (ground (arith, exact, short, less)),
          λ s. rw more (λ j. send s >>= λ s'. eq s' j),
        )
  ]

  -- With a chunk of 0 bytes, which the command line allows, the loop does not end, if there is
  -- anything to send.
  pub transfer_loop_diverges :
      (fuel : ℕ) (s : S)
      → o.chunk_size ≡ 0
      → 0 < o.total_transfer
      → transfer_loop send fuel 0 o s ≡ none
  unfolding transfer_loop
  transfer_loop_diverges zero s empty some_bytes = refl
  transfer_loop_diverges (suc fuel) s empty some_bytes =
      let more : ltb 0 o.total_transfer ≡ true = ground (arith, some_bytes) in
      let stuck : advance 0 o.chunk_size ≡ 0 = rw empty refl in
      elim (Option-cases (send s)) [
        | inl never ↦ rw (more, never) refl
        | inr (s', sent) ↦ rw (more, stuck, sent) (transfer_loop_diverges fuel s' empty some_bytes)
      ]

-- A chunk of exactly this many bytes is written, and the client waits if they are buffered.
abbrev pub write_chunk : {S : Type 0} → Calls S → ℕ → S → Option S
write_chunk calls n s =
    let s' = calls.write_string_piece n s in
    if calls.has_buffered_data s' then calls.wait_for_events s' else some s'

send_chunk-exact :
    {S : Type 0} (calls : Calls S) (n : ℕ)
    → n < 4_294_967_296
    → send_chunk calls n ≡ write_chunk calls n
unfolding send_chunk
send_chunk-exact calls n small =
    let whole : n % 4_294_967_296 ≡ n = omega (arith, small) in ap (write_chunk calls) whole

-- The loop of the client over its bytes ends, on one round more than there are bytes, if the chunk is
-- not 0 and less than 2^32, and the counter cannot wrap around, unless a wait for events does not
-- return: it writes k chunks of the size asked for and does no more than that, where k chunks are
-- the bytes asked for, rounded up by less than a chunk.
pub transfer_loop-eq :
    {S : Type 0} (calls : Calls S) (o : Options) (s : S)
    → 0 < o.chunk_size
    → o.chunk_size < 4_294_967_296
    → o.total_transfer + o.chunk_size ≤ 18_446_744_073_709_551_616
    → (k : ℕ) × (o.total_transfer ≤ bytes k o.chunk_size)
      × ((k ≡ 0) ⊎ (bytes k o.chunk_size < o.total_transfer + o.chunk_size))
      × (transfer_loop (send_chunk calls o.chunk_size) (suc o.total_transfer) 0 o s
          ≡ repeat (write_chunk calls o.chunk_size) o k s)
transfer_loop-eq calls o s p fits small =
    let (k, all, short, eq) =
      transfer_from (send_chunk calls o.chunk_size) o o.total_transfer 0 p small (omega arith) in
    (
      k,
      omega (arith, all),
      ground (arith, short),
      eq s ∙ ap (λ f. repeat f o k s) (send_chunk-exact calls o.chunk_size fits),
    )

-- The chunks that the TCP client has asked to be written.
abbrev pub copies : ℕ → ℕ → List ℕ
copies zero chunk = []
copies (suc k) chunk = copies k chunk ++ chunk ∷ []

module _ {Text : Type 0} (network : Network Text) (o : Options) where
  -- The first n writes have not failed.
  abbrev pub AllWritten : ℕ → Type 0
  AllWritten zero = Unit
  AllWritten (suc n) =
      AllWritten n × (ltb_ℤ (network.write (copies n o.chunk_size) o.chunk_size) (pos 0) ≡ false)

  -- How the loop ends after n writes: all have succeeded and are the bytes asked for, rounded up by
  -- less than a chunk; or the last has failed, and those before it have not.
  abbrev pub IsTcpOutcome : ℕ → ℕ → Type 0
  IsTcpOutcome n code =
      ((code ≡ 0)
        × AllWritten n
        × (o.total_transfer ≤ bytes n o.chunk_size)
        × ((n ≡ 0) ⊎ (bytes n o.chunk_size < o.total_transfer + o.chunk_size)))
      ⊎ ((code ≡ 1)
          × ((j : ℕ) × (n ≡ suc j)
              × AllWritten j
              × (bytes j o.chunk_size < o.total_transfer)
              × (ltb_ℤ (network.write (copies j o.chunk_size) o.chunk_size) (pos 0) ≡ true)))

  tcp_from :
      (fuel i k : ℕ)
      → 0 < o.chunk_size
      → o.total_transfer + o.chunk_size ≤ 18_446_744_073_709_551_616
      → o.total_transfer ≤ i + fuel
      → i ≡ bytes k o.chunk_size
      → AllWritten k
      → (k ≡ 0) ⊎ (bytes k o.chunk_size < o.total_transfer + o.chunk_size)
      → (n : ℕ) × (code : ℕ) × (tcp_transfer_loop network (suc fuel) i o (copies k o.chunk_size)
          ≡ some (copies n o.chunk_size, code))
        × IsTcpOutcome n code
  unfolding tcp_transfer_loop
  tcp_from zero i k p small enough at before short =
      (k, 0, ground (arith, enough), inl (refl, before, omega (arith, enough, at), short))
  tcp_from (suc fuel) i k p small enough at before short =
      elim (Bool-cases (ltb i o.total_transfer)) [
        | inr done ↦ (k, 0, rw done refl, inl (refl, before, ground (arith, done, at), short))
        | inl more ↦
            let less : i < o.total_transfer = ground (arith, more) in
            elim (Bool-cases (ltb_ℤ (network.write (copies k o.chunk_size) o.chunk_size) (pos 0))) [
              | inl failed ↦ (
                suc k,
                1,
                rw (more, failed) refl,
                inr (refl, (k, refl, before, omega (arith, less, at), failed)),
              )
              | inr written ↦
                  let exact : advance i o.chunk_size ≡ i + o.chunk_size =
                    omega (arith, less, small) in
                  let (n, code, eq, outcome) =
                    tcp_from fuel (advance i o.chunk_size) (suc k) p small
                      (omega (arith, exact, p, enough)) (omega (arith, exact, at)) (before, written)
                      (inr (omega (arith, less, at))) in
                  (n, code, rw (more, written) eq, outcome)
            ]
      ]

  -- The TCP client's loop ends, if the chunk is not 0 and the counter cannot wrap around: it has
  -- asked n chunks to be written. It exits with 0 if no write has failed and the chunks are the bytes
  -- asked for, rounded up by less than a chunk; and with 1 if the last of the writes has failed and
  -- none before it, with bytes left to send.
  pub tcp_transfer_loop-IsTcpOutcome :
      0 < o.chunk_size
      → o.total_transfer + o.chunk_size ≤ 18_446_744_073_709_551_616
      → (n : ℕ) × (code : ℕ) × (tcp_transfer_loop network (suc o.total_transfer) 0 o []
          ≡ some (copies n o.chunk_size, code))
        × IsTcpOutcome n code
  tcp_transfer_loop-IsTcpOutcome p small =
      tcp_from o.total_transfer 0 0 p small (omega arith) refl tt (inl refl)
