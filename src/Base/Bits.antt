-- ===== src/Base/Bits.antt =====
-- `|` of a shifted number with a short one, and `&` with a mask of 16 ones, as arithmetic.
use Prim.Native.Nat.{
  ℕ, zero, suc, ◌+◌, ◌*◌, ◌/◌, ◌%◌, ◌≤◌, ◌<◌, min, max, bit_and, bit_or, digits, bit_and-bitwise,
  bit_or-bitwise,
}
use mathlib.Core.Path.{◌≡◌, refl, ap}
use native.Mathlib.Nat.{le_refl}
use native.Mathlib.Omega.{arith}

-- Both operations are `digits` of some `z` and `f`; what holds of them holds for all such.
module _ (z : ℕ → ℕ) (f : ℕ → ℕ → ℕ) where
  enough_digits : (n m a b : ℕ) → a ≤ n → a ≤ m → digits z f n a b ≡ digits z f m a b
  enough_digits zero zero a b p q = refl
  enough_digits zero (suc m) zero b p q = refl
  enough_digits zero (suc m) (suc a) b p q = absurd (omega arith)
  enough_digits (suc n) zero zero b p q = refl
  enough_digits (suc n) zero (suc a) b p q = absurd (omega arith)
  enough_digits (suc n) (suc m) zero b p q = refl
  enough_digits (suc n) (suc m) (suc a) b p q =
      omega (arith, enough_digits n m (suc a / 2) (b / 2) (omega arith) (omega arith))

  lowest_digit :
      ((b : ℕ) → z b ≡ z (b / 2) * 2 + f 0 (b % 2))
      → (a b : ℕ) → digits z f a a b ≡ digits z f (a / 2) (a / 2) (b / 2) * 2 + f (a % 2) (b % 2)
  lowest_digit base zero b = base b
  lowest_digit base (suc a) b =
      omega (arith, enough_digits a (suc a / 2) (suc a / 2) (b / 2) (omega arith) (omega arith))

or_digit : (a b : ℕ) → bit_or a b ≡ bit_or (a / 2) (b / 2) * 2 + max (a % 2) (b % 2)
or_digit a b = omega (
  arith,
  bit_or-bitwise a b,
  bit_or-bitwise (a / 2) (b / 2),
  lowest_digit (λ b. b) max (λ b. omega arith) a b,
)

and_digit : (a b : ℕ) → bit_and a b ≡ bit_and (a / 2) (b / 2) * 2 + min (a % 2) (b % 2)
and_digit a b = omega (
  arith,
  bit_and-bitwise a b,
  bit_and-bitwise (a / 2) (b / 2),
  lowest_digit (λ b. 0) min (λ b. omega arith) a b,
)

or-zero_below : (n a : ℕ) → a ≤ n → bit_or a 0 ≡ a
or-zero_below n zero h = refl
or-zero_below zero (suc a) h = absurd (omega arith)
or-zero_below (suc n) (suc a) h =
    omega (arith, or_digit (suc a) 0, or-zero_below n (suc a / 2) (omega arith))

and-zero_below : (n a : ℕ) → a ≤ n → bit_and a 0 ≡ 0
and-zero_below n zero h = refl
and-zero_below zero (suc a) h = absurd (omega arith)
and-zero_below (suc n) (suc a) h =
    omega (arith, and_digit (suc a) 0, and-zero_below n (suc a / 2) (omega arith))

or_double : (h l : ℕ) → bit_or (h * 2) l ≡ bit_or h (l / 2) * 2 + l % 2
or_double h l =
    let half : h * 2 / 2 ≡ h = omega arith in
    omega (arith, or_digit (h * 2) l, ap (λ x. bit_or x (l / 2)) half)

and_odd : (a m : ℕ) → bit_and a (m * 2 + 1) ≡ bit_and (a / 2) m * 2 + a % 2
and_odd a m =
    let half : (m * 2 + 1) / 2 ≡ m = omega arith in
    omega (arith, and_digit a (m * 2 + 1), ap (λ x. bit_and (a / 2) x) half)

-- Four digits at a time.
or_nibble : (h l : ℕ) → bit_or (h * 16) l ≡ bit_or h (l / 16) * 16 + l % 16
or_nibble h l =
    let high : h * 16 ≡ h * 2 * 2 * 2 * 2 = omega arith in
    let low : l / 2 / 2 / 2 / 2 ≡ l / 16 = omega arith in
    omega (
      arith,
      ap (λ x. bit_or x l) high,
      or_double (h * 2 * 2 * 2) l,
      or_double (h * 2 * 2) (l / 2),
      or_double (h * 2) (l / 2 / 2),
      or_double h (l / 2 / 2 / 2),
      ap (λ x. bit_or h x) low,
    )

and_nibble : (a m : ℕ) → bit_and a (m * 16 + 15) ≡ bit_and (a / 16) m * 16 + a % 16
and_nibble a m =
    let mask : m * 16 + 15 ≡ (((m * 2 + 1) * 2 + 1) * 2 + 1) * 2 + 1 = omega arith in
    let high : a / 2 / 2 / 2 / 2 ≡ a / 16 = omega arith in
    omega (
      arith,
      ap (λ x. bit_and a x) mask,
      and_odd a (((m * 2 + 1) * 2 + 1) * 2 + 1),
      and_odd (a / 2) ((m * 2 + 1) * 2 + 1),
      and_odd (a / 2 / 2) (m * 2 + 1),
      and_odd (a / 2 / 2 / 2) m,
      ap (λ x. bit_and x m) high,
    )

pub bit_or_shl16 : (h l : ℕ) → l < 65536 → bit_or (h * 65536) l ≡ h * 65536 + l
bit_or_shl16 h l p =
    let high : h * 65536 ≡ h * 16 * 16 * 16 * 16 = omega arith in
    let low : l / 16 / 16 / 16 / 16 ≡ 0 = omega arith in
    omega (
      arith,
      ap (λ x. bit_or x l) high,
      or_nibble (h * 16 * 16 * 16) l,
      or_nibble (h * 16 * 16) (l / 16),
      or_nibble (h * 16) (l / 16 / 16),
      or_nibble h (l / 16 / 16 / 16),
      ap (λ x. bit_or h x) low,
      or-zero_below h h (omega arith),
    )

pub bit_and_mask16 : (a : ℕ) → bit_and a 0xFFFF ≡ a % 65536
bit_and_mask16 a = omega (
  arith,
  and_nibble a 0xFFF,
  and_nibble (a / 16) 0xFF,
  and_nibble (a / 16 / 16) 0xF,
  and_nibble (a / 16 / 16 / 16) 0,
  and-zero_below _ (a / 16 / 16 / 16 / 16) (le_refl (a / 16 / 16 / 16 / 16)),
)
