-- ===== src/Base/Bits.antt =====
-- Bitwise `and` and `or`, digit by digit.
use Prim.Native.Nat.{
  ℕ, zero, suc, ◌+◌, ◌*◌, ◌/◌, ◌%◌, ◌^◌, ◌≤◌, ◌<◌, min, max, digits, bit_and, bit_or,
  bit_and-bitwise, bit_or-bitwise,
}
use mathlib.Core.Path.{◌≡◌, refl, ap, sym, ◌∙◌}
use native.Mathlib.Omega.{arith}

module _ (z : ℕ → ℕ) (f : ℕ → ℕ → ℕ) where
  -- The digits do not depend on the count, if there are no more of them.
  same_digits : (a b n k : ℕ) → a ≤ n → a ≤ k → digits z f n a b ≡ digits z f k a b
  same_digits zero b zero zero p q = refl
  same_digits zero b zero (suc k) p q = refl
  same_digits zero b (suc n) zero p q = refl
  same_digits zero b (suc n) (suc k) p q = refl
  same_digits (suc a) b zero k p q = absurd (omega arith)
  same_digits (suc a) b (suc n) zero p q = absurd (omega arith)
  same_digits (suc a) b (suc n) (suc k) p q =
      ap (λ d. d * 2 + f (suc a % 2) (b % 2))
        (same_digits (suc a / 2) (b / 2) n k (omega arith) (omega arith))

zero-bit_and : (b : ℕ) → bit_and 0 b ≡ 0
zero-bit_and b = bit_and-bitwise 0 b

zero-bit_or : (b : ℕ) → bit_or 0 b ≡ b
zero-bit_or b = bit_or-bitwise 0 b

-- The lowest digit, and the others.
bit_and_digit : (a b : ℕ) → bit_and a b ≡ bit_and (a / 2) (b / 2) * 2 + min (a % 2) (b % 2)
bit_and_digit zero b = omega (arith, zero-bit_and b, zero-bit_and (b / 2))
bit_and_digit (suc a) b =
    bit_and-bitwise (suc a) b
    ∙ ap (λ d. d * 2 + min (suc a % 2) (b % 2))
        (same_digits (λ c. 0) min (suc a / 2) (b / 2) a (suc a / 2) (omega arith) (omega arith)
          ∙ sym (bit_and-bitwise (suc a / 2) (b / 2)))

bit_or_digit : (a b : ℕ) → bit_or a b ≡ bit_or (a / 2) (b / 2) * 2 + max (a % 2) (b % 2)
bit_or_digit zero b = omega (arith, zero-bit_or b, zero-bit_or (b / 2))
bit_or_digit (suc a) b =
    bit_or-bitwise (suc a) b
    ∙ ap (λ d. d * 2 + max (suc a % 2) (b % 2))
        (same_digits (λ c. c) max (suc a / 2) (b / 2) a (suc a / 2) (omega arith) (omega arith)
          ∙ sym (bit_or-bitwise (suc a / 2) (b / 2)))

or-half : (a b : ℕ) → bit_or a b / 2 ≡ bit_or (a / 2) (b / 2)
or-half a b = omega (arith, bit_or_digit a b)

or-digit : (a b : ℕ) → bit_or a b % 2 ≡ max (a % 2) (b % 2)
or-digit a b = omega (arith, bit_or_digit a b)

-- Both numbers below a bound; it falls by half.
absorb_below : (n a b : ℕ) → a ≤ n → b ≤ n → bit_and (bit_or a b) b ≡ b
absorb_below zero zero zero p q = ap (λ x. bit_and x 0) (zero-bit_or 0) ∙ zero-bit_and 0
absorb_below zero (suc a) b p q = absurd (omega arith)
absorb_below zero zero (suc b) p q = absurd (omega arith)
absorb_below (suc n) a b p q =
    let rest =
      ap (λ x. bit_and x (b / 2)) (or-half a b)
      ∙ absorb_below n (a / 2) (b / 2) (omega arith) (omega arith) in
    omega (arith, bit_and_digit (bit_or a b) b, or-digit a b, rest)

-- A mask that was put into a number is found in it.
pub bit_and-bit_or : (a b : ℕ) → bit_and (bit_or a b) b ≡ b
bit_and-bit_or a b = absorb_below (a + b) a b (omega arith) (omega arith)

-- `or` stays within as many digits as its arguments.
pub bit_or_bound : (n a b : ℕ) → a < 2 ^ n → b < 2 ^ n → bit_or a b < 2 ^ n
bit_or_bound zero a b p q =
    let a0 : a ≡ 0 = omega arith in omega (arith, ap (λ x. bit_or x b) a0 ∙ zero-bit_or b)
bit_or_bound (suc n) a b p q =
    omega (arith, bit_or_digit a b, bit_or_bound n (a / 2) (b / 2) (omega arith) (omega arith))
