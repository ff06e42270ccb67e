-- ===== src/Base/Bits/Step.antt =====
-- One equation for the lowest digit of each bitwise operation: the recursion of `bitwise` with its
-- count of digits dropped.
use Prim.Native.Nat.{ℕ, zero, suc, ◌+◌, ◌*◌, ◌/◌, ◌%◌, ◌≤◌, ◌<◌, min, max, digits, bitwise, differ}
use Prim.Native.Nat.{bit_and, bit_or, bit_xor, bit_and-bitwise, bit_or-bitwise, bit_xor-bitwise}
use mathlib.Core.Path.{◌≡◌, refl, ap}
use native.Mathlib.Omega.{arith}

module _ (z : ℕ → ℕ) (f : ℕ → ℕ → ℕ) where
  -- Any count that is at least the number gives the same digits.
  digits_count : (a b n m : ℕ) → a ≤ n → a ≤ m → digits z f n a b ≡ digits z f m a b
  digits_count zero b zero zero h k = refl
  digits_count zero b zero (suc m) h k = refl
  digits_count zero b (suc n) zero h k = refl
  digits_count zero b (suc n) (suc m) h k = refl
  digits_count (suc a) b zero m h k = absurd (omega arith)
  digits_count (suc a) b (suc n) zero h k = absurd (omega arith)
  digits_count (suc a) b (suc n) (suc m) h k =
      let low = f (suc a % 2) (b % 2) in
      ap (λ (t : ℕ). t * 2 + low) (digits_count (suc a / 2) (b / 2) n m (omega arith) (omega arith))

  bitwise_step :
      (a b : ℕ)
      → let high = bitwise z f (suc a / 2) (b / 2) in
        bitwise z f (suc a) b ≡ high * 2 + f (suc a % 2) (b % 2)
  bitwise_step a b =
      omega (arith, digits_count (suc a / 2) (b / 2) a (suc a / 2) (omega arith) (omega arith))

pub bit_and_step : (x y : ℕ) → bit_and x y ≡ min (x % 2) (y % 2) + bit_and (x / 2) (y / 2) * 2
bit_and_step zero y = simp bit_and-bitwise (omega arith)
bit_and_step (suc x) y = simp bit_and-bitwise (omega (arith, bitwise_step (λ rest. 0) min x y))

pub bit_or_step : (x y : ℕ) → bit_or x y ≡ max (x % 2) (y % 2) + bit_or (x / 2) (y / 2) * 2
bit_or_step zero y = simp bit_or-bitwise (omega arith)
bit_or_step (suc x) y = simp bit_or-bitwise (omega (arith, bitwise_step (λ rest. rest) max x y))

-- Exclusive or of two digits is their sum modulo 2.
differ_digits : (x y : ℕ) → x < 2 → y < 2 → differ x y ≡ (x + y) % 2
differ_digits zero y p q = omega arith
differ_digits (suc zero) zero p q = refl
differ_digits (suc zero) (suc zero) p q = refl
differ_digits (suc zero) (suc (suc y)) p q = absurd (omega arith)
differ_digits (suc (suc x)) y p q = absurd (omega arith)

pub bit_xor_step : (a b : ℕ) → bit_xor a b ≡ bit_xor (a / 2) (b / 2) * 2 + (a + b) % 2
bit_xor_step zero b = simp bit_xor-bitwise (omega arith)
bit_xor_step (suc a) b = simp bit_xor-bitwise (
    omega (
      arith,
      bitwise_step (λ y. y) differ a b,
      differ_digits (suc a % 2) (b % 2) (omega arith) (omega arith),
    ))
