-- ===== src/Base/Bits.antt =====
-- The bitwise "and" of two numbers, digit by digit.
use Prim.Native.Nat.{
  ℕ, zero, suc, ◌+◌, ◌*◌, ◌/◌, ◌%◌, ◌≤◌, min, max, bit_and, bit_or, digits, bit_and-bitwise,
  bit_or-bitwise,
}
use mathlib.Core.Path.{◌≡◌, refl, ap}
use native.Mathlib.Omega.{arith}

abbrev meet_digits : ℕ → ℕ → ℕ → ℕ
meet_digits fuel a b = digits (λ b. zero) min fuel a b

-- Any two amounts of fuel that cover the first number agree.
meet_digits-eq : (m n a b : ℕ) → a ≤ m → a ≤ n → meet_digits m a b ≡ meet_digits n a b
meet_digits-eq zero zero a b p q = refl
meet_digits-eq zero (suc n) zero b p q = refl
meet_digits-eq zero (suc n) (suc a) b p q = absurd (omega arith)
meet_digits-eq (suc m) zero zero b p q = refl
meet_digits-eq (suc m) zero (suc a) b p q = absurd (omega arith)
meet_digits-eq (suc m) (suc n) zero b p q = refl
meet_digits-eq (suc m) (suc n) (suc a) b p q =
    omega (arith, meet_digits-eq m n (suc a / 2) (b / 2) (omega arith) (omega arith))

bit_and_zero_left : (b : ℕ) → bit_and 0 b ≡ 0
bit_and_zero_left b = bit_and-bitwise 0 b

-- The lowest digit apart.
pub bit_and_step : (x y : ℕ) → bit_and x y ≡ min (x % 2) (y % 2) + bit_and (x / 2) (y / 2) * 2
bit_and_step zero y = omega (arith, bit_and_zero_left (y / 2), bit_and_zero_left y)
bit_and_step (suc x) y =
    let agree = meet_digits-eq x (suc x / 2) (suc x / 2) (y / 2) (omega arith) (omega arith) in
    omega (arith, agree, bit_and-bitwise (suc x / 2) (y / 2), bit_and-bitwise (suc x) y)

-- A number meets itself in itself.
pub bit_and_self : (fuel a : ℕ) → a ≤ fuel → bit_and a a ≡ a
bit_and_self fuel zero h = refl
bit_and_self zero (suc a) h = absurd (omega arith)
bit_and_self (suc fuel) (suc a) h =
    omega (arith, bit_and_step (suc a) (suc a), bit_and_self fuel (suc a / 2) (omega arith))

abbrev join_digits : ℕ → ℕ → ℕ → ℕ
join_digits fuel a b = digits (λ b. b) max fuel a b

join_digits-eq : (m n a b : ℕ) → a ≤ m → a ≤ n → join_digits m a b ≡ join_digits n a b
join_digits-eq zero zero a b p q = refl
join_digits-eq zero (suc n) zero b p q = refl
join_digits-eq zero (suc n) (suc a) b p q = absurd (omega arith)
join_digits-eq (suc m) zero zero b p q = refl
join_digits-eq (suc m) zero (suc a) b p q = absurd (omega arith)
join_digits-eq (suc m) (suc n) zero b p q = refl
join_digits-eq (suc m) (suc n) (suc a) b p q =
    omega (arith, join_digits-eq m n (suc a / 2) (b / 2) (omega arith) (omega arith))

pub bit_or_zero_left : (b : ℕ) → bit_or 0 b ≡ b
bit_or_zero_left b = bit_or-bitwise 0 b

pub bit_or_step : (x y : ℕ) → bit_or x y ≡ max (x % 2) (y % 2) + bit_or (x / 2) (y / 2) * 2
bit_or_step zero y = omega (arith, bit_or_zero_left (y / 2), bit_or_zero_left y)
bit_or_step (suc x) y =
    let agree = join_digits-eq x (suc x / 2) (suc x / 2) (y / 2) (omega arith) (omega arith) in
    omega (arith, agree, bit_or-bitwise (suc x / 2) (y / 2), bit_or-bitwise (suc x) y)

bit_and_zero_right : (fuel a : ℕ) → a ≤ fuel → bit_and a 0 ≡ 0
bit_and_zero_right fuel zero h = refl
bit_and_zero_right zero (suc a) h = absurd (omega arith)
bit_and_zero_right (suc fuel) (suc a) h =
    omega (arith, bit_and_step (suc a) 0, bit_and_zero_right fuel (suc a / 2) (omega arith))

-- The digits of 4, whatever else they are joined with.
digit_of_one : (y : ℕ) → bit_or y 1 % 2 ≡ 1
digit_of_one y = omega (arith, bit_or_step y 1)

half_joined : (x y : ℕ) → bit_or x (2 * y) / 2 ≡ bit_or (x / 2) y
half_joined x y =
    let p : 2 * y / 2 ≡ y = omega arith in
    omega (arith, bit_or_step x (2 * y), ap (bit_or (x / 2)) p)

met_one : (y : ℕ) → y % 2 ≡ 1 → bit_and y 1 ≡ 1
met_one y h = omega (arith, h, bit_and_step y 1, bit_and_zero_right (y / 2) (y / 2) (omega arith))

met_twice : (y z : ℕ) → bit_and y (2 * z) ≡ 2 * bit_and (y / 2) z
met_twice y z =
    let p : 2 * z / 2 ≡ z = omega arith in
    omega (arith, bit_and_step y (2 * z), ap (bit_and (y / 2)) p)

-- The bit of 4 is set in whatever is joined with 4.
pub bit_and-bit_or_four : (x : ℕ) → bit_and (bit_or x 4) 4 ≡ 4
bit_and-bit_or_four x =
    let h1 = half_joined x 2 in
    let h2 = half_joined (x / 2) 1 in
    let top : bit_or x 4 / 2 / 2 % 2 ≡ 1 = rw (h1, h2) (digit_of_one (x / 2 / 2)) in
    omega (
      arith,
      met_twice (bit_or x 4) 2,
      met_twice (bit_or x 4 / 2) 1,
      met_one (bit_or x 4 / 2 / 2) top,
    )
