-- ===== src/TimeWait/Throttle.antt =====
-- ShouldSendResponse of net/tools/quic/quic_time_wait_list_manager.cc: which of an id's late packets
-- are answered, by their number.
use Prim.Native.Nat.{bit_and}
use native.Mathlib.Nat.{two-pow-succ, pow-le-pow_right, one-le-pow}
use native.Mathlib.Decide.{dec_le, ℕ_discrete}
use quic_toy.Base.{
  nat_beq, Bool, sym, ◌≢◌, nat_beq_iff, ℕ, zero, suc, ◌+◌, ◌-◌, ◌*◌, ◌/◌, ◌%◌, ◌^◌, ◌≤◌, ◌<◌, ◌≡◌,
  ◌↔◌, refl, ◌∙◌, ◌⊎◌, inl, inr, arith, true, Bool-cases, if◌then◌else◌,
}
use quic_toy.Base.Bits.{bit_and_step, bit_and_self}
use quic_toy.TimeWait.{should_send_response}

abbrev pub IsPowerOfTwo : ℕ → Type 0
IsPowerOfTwo n = (k : ℕ) × (n ≡ 2 ^ k)

even_digits : (m : ℕ) → 0 < m → bit_and (2 * m) (2 * m - 1) ≡ 2 * bit_and m (m - 1)
even_digits m h =
    let half : 2 * m / 2 ≡ m = omega arith in
    let half_pred : (2 * m - 1) / 2 ≡ m - 1 = omega arith in
    bit_and_step (2 * m) (2 * m - 1) ∙ rw (half, half_pred) (omega arith)

odd_digits : (m : ℕ) → bit_and (2 * m + 1) (2 * m + 1 - 1) ≡ 2 * m
odd_digits m =
    let half : (2 * m + 1) / 2 ≡ m = omega arith in
    let half_pred : (2 * m + 1 - 1) / 2 ≡ m = omega arith in
    bit_and_step (2 * m + 1) (2 * m + 1 - 1)
    ∙ rw (half, half_pred) (omega (arith, bit_and_self m m (omega arith)))

abbrev Parity : ℕ → Type 0
Parity n = ((m : ℕ) × (n ≡ 2 * m)) ⊎ ((m : ℕ) × (n ≡ 2 * m + 1))

parity : (n : ℕ) → Parity n
parity n = elim (ℕ_discrete (n % 2) 0) [
  | yes even ↦ inl (n / 2, omega arith)
  | no odd ↦ inr (n / 2, omega arith)
]

power_of_zero_digits : (fuel n : ℕ) → n ≤ fuel → 0 < n → bit_and n (n - 1) ≡ 0 → IsPowerOfTwo n
power_of_zero_digits zero n h p e = absurd (omega arith)
power_of_zero_digits (suc fuel) n h p e = elim (parity n) [
  | inl (m, two) ↦
      let (k, q) =
        power_of_zero_digits fuel m (omega arith) (omega arith)
          (omega (arith, even_digits m (omega arith), rw two at e)) in
      (suc k, omega (arith, two-pow-succ k))
  | inr (m, odd) ↦ (0, omega (arith, odd_digits m, rw odd at e))
]

zero_digits_of_power : (k : ℕ) → bit_and (2 ^ k) (2 ^ k - 1) ≡ 0
zero_digits_of_power zero = refl
zero_digits_of_power (suc k) =
    let double : 2 ^ suc k ≡ 2 * 2 ^ k = omega (arith, two-pow-succ k) in
    rw double
      (omega (arith, even_digits (2 ^ k) (one-le-pow k 2 (omega arith)), zero_digits_of_power k))

-- For a count of at least 1 the bit trick is the test for a power of two.
pub should_send_response_iff : (n : ℕ) → 0 < n → (should_send_response n ≡ true) ↔ IsPowerOfTwo n
unfolding should_send_response
should_send_response_iff n h = (
  λ e. power_of_zero_digits n n (omega arith) h ((nat_beq_iff _ 0).0 e),
  λ (k, e). (nat_beq_iff (bit_and n (n - 1)) 0).1 (rw e (zero_digits_of_power k)),
)

-- How many of the packets numbered `count + 1` to `count + n` are answered.
unfoldable pub answer : ℕ → ℕ
answer n = if should_send_response n then 1 else 0

unfoldable pub answers : ℕ → ℕ → ℕ
answers count zero = 0
answers count (suc n) = answer (suc count) + answers (suc count) n

answers-last : (count n : ℕ) → answers count (suc n) ≡ answers count n + answer (suc (count + n))
unfolding answers
answers-last count zero = let here : count + 0 ≡ count = omega arith in rw here (omega arith)
answers-last count (suc n) =
    let shifted : count + suc n ≡ suc count + n = omega arith in
    rw shifted (omega (arith, answers-last (suc count) n))

-- Strictly between two neighbouring powers of two there is none.
not-IsPowerOfTwo : (k n : ℕ) → 2 ^ k < n → n < 2 ^ suc k → ¬ IsPowerOfTwo n
not-IsPowerOfTwo k n low high (j, e) = elim (dec_le j k) [
  | yes h ↦ let below : 2 ^ j ≤ 2 ^ k = pow-le-pow_right (omega arith) h in absurd (omega arith)
  | no h ↦
      let above : 2 ^ suc k ≤ 2 ^ j = pow-le-pow_right (omega arith) (omega arith) in
      absurd (omega arith)
]

answer_of_power : (k : ℕ) → answer (2 ^ k) ≡ 1
unfolding answer
answer_of_power k =
    rw ((should_send_response_iff (2 ^ k) (one-le-pow k 2 (omega arith))).1 (k, refl))

answer_between : (k n : ℕ) → 2 ^ k < n → n < 2 ^ suc k → answer n ≡ 0
unfolding answer
answer_between k n low high = elim (Bool-cases (should_send_response n)) [
  | inl sent ↦
      absurd (not-IsPowerOfTwo k n low high ((should_send_response_iff n (omega arith)).0 sent))
  | inr silent ↦ rw silent
]

-- Of n late packets, where 2 ^ k ≤ n < 2 ^ (k + 1), exactly k + 1 are answered.
pub answers-log : (n k : ℕ) → 2 ^ k ≤ n → n < 2 ^ suc k → answers 0 n ≡ suc k
answers-log zero k low high = absurd (omega (arith, one-le-pow k 2 (omega arith)))
answers-log (suc n) zero low high =
    let one_packet : n ≡ 0 = omega arith in
    rw one_packet (unfold answers answer should_send_response in refl)
answers-log (suc n) (suc k) low high = elim (ℕ_discrete (suc n) (2 ^ suc k)) [
  | yes new ↦
      let power : suc (0 + n) ≡ 2 ^ suc k = omega arith in
      answers-last 0 n
      ∙ rw power (
          omega (
            arith,
            answers-log n k (omega (arith, two-pow-succ k, one-le-pow k 2 (omega arith)))
                (omega arith),
            answer_of_power (suc k),
          ))
  | no old ↦
      answers-last 0 n
      ∙ omega (
        arith,
        answers-log n (suc k) (omega arith) (omega arith),
        answer_between (suc k) (suc (0 + n)) (omega arith) (omega arith),
      )
]

-- A number is 2 ^ k for some k up to a bound, by trying them.
abbrev is_power_up_to : ℕ → ℕ → Bool
is_power_up_to zero n = nat_beq 1 n
is_power_up_to (suc k) n = if nat_beq (2 ^ suc k) n then true else is_power_up_to k n

-- A power of two is found among as many as it says.
unfoldable pub is_power : ℕ → Bool
is_power n = is_power_up_to n n

-- How many powers of two there are among count + 1, …, count + n.
unfoldable pub powers : ℕ → ℕ → ℕ
powers count zero = 0
powers count (suc n) = (if is_power (suc count) then 1 else 0) + powers (suc count) n

power_up_to : (bound n : ℕ) → is_power_up_to bound n ≡ true → IsPowerOfTwo n
power_up_to zero n e = (0, sym ((nat_beq_iff 1 n).0 e))
power_up_to (suc k) n e = elim (Bool-cases (nat_beq (2 ^ suc k) n)) [
  | inl here ↦ (suc k, sym ((nat_beq_iff (2 ^ suc k) n).0 here))
  | inr other ↦ power_up_to k n (rw other at e)
]

le_of_other : (bound k n : ℕ) → k ≤ suc bound → n ≡ 2 ^ k → 2 ^ suc bound ≢ n → k ≤ bound
le_of_other bound k n h e other = elim (ℕ_discrete k (suc bound)) [
  | yes last ↦ absurd (other (sym (e ∙ rw last refl)))
  | no less ↦ omega (arith, h)
]

power_found : (bound k n : ℕ) → k ≤ bound → n ≡ 2 ^ k → is_power_up_to bound n ≡ true
power_found zero k n h e =
    let first : k ≡ 0 = omega (arith, h) in (nat_beq_iff 1 n).1 (sym (e ∙ rw first refl))
power_found (suc bound) k n h e = elim (Bool-cases (nat_beq (2 ^ suc bound) n)) [
  | inl here ↦ rw here refl
  | inr other ↦ rw other (
      power_found bound k n
        (le_of_other bound k n h e (λ same. cc (other, (nat_beq_iff (2 ^ suc bound) n).1 same))) e)
]

le-two_pow : (k : ℕ) → k ≤ 2 ^ k
le-two_pow zero = omega arith
le-two_pow (suc k) = omega (arith, two-pow-succ k, le-two_pow k, one-le-pow k 2 (omega arith))

should_send_response-eq : (n : ℕ) → 0 < n → should_send_response n ≡ is_power n
unfolding is_power
should_send_response-eq n h = elim (Bool-cases (should_send_response n)) [
  | inl sent ↦
      let (k, e) = (should_send_response_iff n h).0 sent in
      sent ∙ sym (power_found n k n (omega (arith, le-two_pow k)) e)
  | inr silent ↦ elim (Bool-cases (is_power_up_to n n)) [
    | inl power ↦ cc (silent, (should_send_response_iff n h).1 (power_up_to n n power))
    | inr other ↦ silent ∙ sym other
  ]
]

pub answers-eq-powers : (count n : ℕ) → answers count n ≡ powers count n
unfolding answers answer powers
answers-eq-powers count zero = refl
answers-eq-powers count (suc n) =
    rw (should_send_response-eq (suc count) (omega arith))
      (omega (arith, answers-eq-powers (suc count) n))
