-- ===== src/Perf/Counting.antt =====
-- What the server of tcp_perf_server.cc counts and prints.
use quic_toy.Perf.{advance}
use mathlib.Core.List.{append-nil, append_assoc}
use quic_toy.Base.{
  Bool-cases, refl, ◌||◌, arith, nat_beq, if◌then◌else◌, ◌∙◌, All, ◌%◌, ◌+◌, List, ◌≡◌, ◌<◌, ℕ, [],
  ◌∷◌, ◌++◌, some, false, inl, inr,
}
use quic_toy.Base.Int.{ltb_ℤ, pos, negsuc}
use quic_toy.Perf.TcpServer.{Sockets, receive_loop, tcp_server_main, reads, rings, Happening}

abbrev pub uint64 : ℕ
uint64 = 18_446_744_073_709_551_616

-- Bytes are read, or the alarm rings.
abbrev pub IsGoing : Happening → Type 0
IsGoing rings = Unit
IsGoing (reads (pos n)) = 0 < n
IsGoing (reads (negsuc e)) = ⊥

-- The peer has closed the connection, with exit code 0, or read fails, with exit code 1.
abbrev pub IsLast : ℕ → Happening → Type 0
IsLast code rings = ⊥
IsLast code (reads (pos n)) = (n ≡ 0) × (code ≡ 0)
IsLast code (reads (negsuc e)) = code ≡ 1

-- All the bytes, and what had come at each ring.
abbrev pub total : ℕ → List Happening → ℕ
total sum [] = sum
total sum (rings ∷ es) = total sum es
total sum (reads (pos n) ∷ es) = total (sum + n) es
total sum (reads (negsuc e) ∷ es) = total sum es

abbrev pub at_rings : ℕ → List Happening → List ℕ
at_rings sum [] = []
at_rings sum (rings ∷ es) = sum % uint64 ∷ at_rings sum es
at_rings sum (reads (pos n) ∷ es) = at_rings (sum + n) es
at_rings sum (reads (negsuc e) ∷ es) = at_rings sum es

counted :
    (es rest : List Happening) (end : Happening) (code sum : ℕ) (printed : List ℕ)
    → All IsGoing es
    → IsLast code end
    → receive_loop (es ++ end ∷ rest) (sum % uint64) printed
      ≡ some (record {
        code = code;
        received = total sum es % uint64;
        printed = printed ++ at_rings sum es;
      })
unfolding receive_loop
counted [] rest rings code sum printed going last = absurd last
counted [] rest (reads (negsuc e)) code sum printed going last = rw (last, append-nil) refl
counted [] rest (reads (pos n)) code sum printed going last = rw (last.0, last.1, append-nil) refl
counted (rings ∷ es) rest end code sum printed going last =
    counted es rest end code sum (printed ++ sum % uint64 ∷ []) going.1 last ∙ rw append_assoc refl
counted (reads (negsuc e) ∷ es) rest end code sum printed going last = absurd going.0
counted (reads (pos n) ∷ es) rest end code sum printed going last =
    let more : nat_beq n 0 ≡ false = ground (arith, going.0) in
    let step : advance (sum % uint64) n ≡ (sum + n) % uint64 = omega arith in
    rw (more, step) (counted es rest end code (sum + n) printed going.1 last)

-- tcp_perf_server exits with 1, and has printed nothing, if a socket cannot be opened, bound or
-- accepted. Otherwise it counts every byte that it reads until its peer closes, when it exits with 0, or read
-- fails, when it exits with 1; and at each ring of the alarm it has printed the sum of the bytes that had
-- come, modulo 2^64.
pub tcp_server_main-eq :
    (sockets : Sockets) (es rest : List Happening) (end : Happening) (code : ℕ)
    → All IsGoing es
    → IsLast code end
    → tcp_server_main sockets (es ++ end ∷ rest)
      ≡ some (
          if ltb_ℤ sockets.socket (pos 0)
            || (ltb_ℤ sockets.bind (pos 0) || ltb_ℤ sockets.accept (pos 0))
          then record { code = 1; received = 0; printed = [] }
          else record { code = code; received = total 0 es % uint64; printed = at_rings 0 es })
unfolding tcp_server_main
tcp_server_main-eq sockets es rest end code going last =
    let run = counted es rest end code 0 [] going last in
    elim (Bool-cases (ltb_ℤ sockets.socket (pos 0))) [
      | inl no_socket ↦ rw no_socket refl
      | inr opened ↦ elim (Bool-cases (ltb_ℤ sockets.bind (pos 0))) [
        | inl unbound ↦ rw (opened, unbound) refl
        | inr bound ↦ elim (Bool-cases (ltb_ℤ sockets.accept (pos 0))) [
          | inl refused ↦ rw (opened, bound, refused) refl
          | inr accepted ↦ rw (opened, bound, accepted) run
        ]
      ]
    ]
