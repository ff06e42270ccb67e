-- ===== src/Base/Bits.antt =====
-- Laws of `&`, `|` and `^` at variables, by the recursion on binary digits.
mod Step
use Step.{bit_and_step, bit_or_step, bit_xor_step}
use cputwo.Base.Tests.{◌==◌, if◌then◌else◌, bit}
use cputwo.Base.Words.{test}
use Prim.Native.Nat.{ℕ, zero, suc, ◌+◌, ◌-◌, ◌*◌, ◌/◌, ◌%◌, ◌^◌, ◌≤◌, ◌<◌, bit_and, bit_or, bit_xor}
use Prim.Native.Nat.{bit_and-bitwise, bit_or-bitwise}
use mathlib.Core.Path.{◌≡◌, refl, sym, ap}
use mathlib.Core.Bool.{Bool, true, false}
use native.Mathlib.Nat.{
  pow-suc, one-le-pow, div-div-eq-div-mul, mod-eq-sub-div-mul, div-mul-le_self, mul_comm,
}
use native.Mathlib.Omega.{arith}

-- Nothing in the second operand, by halving the first at most `n` times.
nothing_right : (n a : ℕ) → a ≤ n → (bit_and a 0 ≡ 0) × (bit_or a 0 ≡ a)
nothing_right n zero h = (refl, refl)
nothing_right zero (suc a) h = absurd (omega arith)
nothing_right (suc n) (suc a) h =
    let (none_left, all_left) = nothing_right n (suc a / 2) (omega arith) in
    (omega (arith, bit_and_step (suc a) 0), omega (arith, bit_or_step (suc a) 0))

pub bit_and-zero : (a : ℕ) → bit_and a 0 ≡ 0
bit_and-zero a = (nothing_right a a (omega arith)).0

pub bit_or-zero : (a : ℕ) → bit_or a 0 ≡ a
bit_or-zero a = (nothing_right a a (omega arith)).1

zero-bit_and : (b : ℕ) → bit_and 0 b ≡ 0
zero-bit_and b = bit_and-bitwise 0 b

zero-bit_or : (b : ℕ) → bit_or 0 b ≡ b
zero-bit_or b = bit_or-bitwise 0 b

mul-two-pow : (q k : ℕ) → q * 2 ^ suc k ≡ 2 * (q * 2 ^ k)
mul-two-pow q k = omega (arith, ap (λ (t : ℕ). q * t) (pow-suc 2 k))

div-two-pow : (a k : ℕ) → a / 2 ^ suc k ≡ a / 2 / 2 ^ k
div-two-pow a k = sym (rw (div-div-eq-div-mul a 2 (2 ^ k), pow-suc 2 k, mul_comm 2 (2 ^ k)))

mod-two-pow : (a k : ℕ) → a % 2 ^ suc k ≡ a / 2 % 2 ^ k * 2 + a % 2
mod-two-pow a k = omega (
  arith,
  mod-eq-sub-div-mul a (2 ^ suc k),
  mod-eq-sub-div-mul (a / 2) (2 ^ k),
  div-mul-le_self a (2 ^ suc k),
  div-mul-le_self (a / 2) (2 ^ k),
  div-two-pow a k,
  mul-two-pow (a / 2 / 2 ^ k) k,
  ap (λ (t : ℕ). t * 2 ^ suc k) (div-two-pow a k),
)

-- `a & (2^k - 1)` keeps the low `k` digits.
pub bit_and_mask : (k a : ℕ) → bit_and a (2 ^ k - 1) ≡ a % 2 ^ k
bit_and_mask zero a = ground (arith, bit_and-zero a)
bit_and_mask (suc k) a = ground (
  arith,
  bit_and_step a (2 ^ suc k - 1),
  pow-suc 2 k,
  one-le-pow k 2,
  bit_and_mask k (a / 2),
  mod-two-pow a k,
)

-- `a & (1 << k)` is digit `k`, at its place.
pub bit_and_pow : (k a : ℕ) → bit_and a (2 ^ k) ≡ a / 2 ^ k % 2 * 2 ^ k
bit_and_pow zero a = omega (arith, bit_and_step a 1, bit_and-zero (a / 2))
bit_and_pow (suc k) a = ground (
  arith,
  bit_and_step a (2 ^ suc k),
  pow-suc 2 k,
  bit_and_pow k (a / 2),
  div-two-pow a k,
  mul-two-pow (a / 2 / 2 ^ k % 2) k,
)

-- `x & (1 << k)` tests digit `k`.
pub test_pow : (k x : ℕ) → test x (2 ^ k) ≡ (x / 2 ^ k % 2 == 1)
test_pow k x = by_digit (x / 2 ^ k % 2) (omega arith) (bit_and_pow k x)
  where
    by_digit : (d : ℕ) → d < 2 → bit_and x (2 ^ k) ≡ d * 2 ^ k → test x (2 ^ k) ≡ (d == 1)
    by_digit zero h e = ground arith
    by_digit (suc zero) h e = ground (arith, one-le-pow k 2)
    by_digit (suc (suc d)) h e = absurd (omega arith)

-- A field above `k` zero digits, with anything below them.
pub bit_and_shift : (k a m : ℕ) → bit_and a (m * 2 ^ k) ≡ bit_and (a / 2 ^ k) m * 2 ^ k
bit_and_shift zero a m = ground arith
bit_and_shift (suc k) a m = ground (
  arith,
  bit_and_step a (m * 2 ^ suc k),
  mul-two-pow m k,
  bit_and_shift k (a / 2) m,
  div-two-pow a k,
  mul-two-pow (bit_and (a / 2 / 2 ^ k) m) k,
)

-- `(q << k) | r` is a sum where `r` fits `k` digits, in both orders.
pub bit_or_fields : (k q r : ℕ) → r < 2 ^ k → bit_or (q * 2 ^ k) r ≡ q * 2 ^ k + r
bit_or_fields zero q r h = ground (arith, bit_or-zero q)
bit_or_fields (suc k) q r h = ground (
  arith,
  bit_or_step (q * 2 ^ suc k) r,
  mul-two-pow q k,
  pow-suc 2 k,
  bit_or_fields k q (r / 2) (omega (arith, pow-suc 2 k)),
)

pub bit_or_fields_low : (k q r : ℕ) → r < 2 ^ k → bit_or r (q * 2 ^ k) ≡ r + q * 2 ^ k
bit_or_fields_low zero q zero h = ground (arith, zero-bit_or q)
bit_or_fields_low zero q (suc r) h = absurd (omega arith)
bit_or_fields_low (suc k) q r h = ground (
  arith,
  bit_or_step r (q * 2 ^ suc k),
  mul-two-pow q k,
  pow-suc 2 k,
  bit_or_fields_low k q (r / 2) (omega (arith, pow-suc 2 k)),
)

-- Setting a digit that is clear adds it.
pub bit_or_clear : (k a b : ℕ) → b < 2 → a / 2 ^ k % 2 ≡ 0 → bit_or a (b * 2 ^ k) ≡ a + b * 2 ^ k
bit_or_clear zero a zero h e = ground (arith, bit_or-zero a)
bit_or_clear zero a (suc zero) h e = omega (arith, bit_or_step a 1, bit_or-zero (a / 2))
bit_or_clear zero a (suc (suc b)) h e = absurd (omega arith)
bit_or_clear (suc k) a b h e = ground (
  arith,
  bit_or_step a (b * 2 ^ suc k),
  mul-two-pow b k,
  bit_or_clear k (a / 2) b h (omega (arith, div-two-pow a k)),
)

pub bit_or_flag :
    (k a : ℕ) (b : Bool) → a / 2 ^ k % 2 ≡ 0 → bit_or a (if b then 2 ^ k else 0) ≡ a + bit b * 2 ^ k
bit_or_flag k a true h = ground (arith, bit_or_clear k a 1)
bit_or_flag k a false h = ground (arith, bit_or-zero a)

-- Digit `k` of an exclusive or.
pub bit_xor_digit : (k a b : ℕ) → bit_xor a b / 2 ^ k % 2 ≡ (a / 2 ^ k + b / 2 ^ k) % 2
bit_xor_digit zero a b = omega (arith, bit_xor_step a b)
bit_xor_digit (suc k) a b = ground (
  arith,
  bit_xor_step a b,
  div-two-pow (bit_xor a b) k,
  div-two-pow a k,
  div-two-pow b k,
  bit_xor_digit k (a / 2) (b / 2),
)

-- None of the operations leaves the width of its arguments.
pub bit_and-le : (n a b : ℕ) → a ≤ n → bit_and a b ≤ a
bit_and-le n zero b h = omega (arith, zero-bit_and b)
bit_and-le zero (suc a) b h = absurd (omega arith)
bit_and-le (suc n) (suc a) b h =
    omega (arith, bit_and_step (suc a) b, bit_and-le n (suc a / 2) (b / 2) (omega arith))

pub bit_or-lt : (k a b : ℕ) → a < 2 ^ k → b < 2 ^ k → bit_or a b < 2 ^ k
bit_or-lt zero zero zero p q = omega arith
bit_or-lt zero (suc a) b p q = absurd (omega arith)
bit_or-lt zero zero (suc b) p q = absurd (omega arith)
bit_or-lt (suc k) a b p q = omega (
  arith,
  bit_or_step a b,
  pow-suc 2 k,
  bit_or-lt k (a / 2) (b / 2) (omega (arith, pow-suc 2 k)) (omega (arith, pow-suc 2 k)),
)

pub bit_xor-lt : (k a b : ℕ) → a < 2 ^ k → b < 2 ^ k → bit_xor a b < 2 ^ k
bit_xor-lt zero zero zero p q = omega arith
bit_xor-lt zero (suc a) b p q = absurd (omega arith)
bit_xor-lt zero zero (suc b) p q = absurd (omega arith)
bit_xor-lt (suc k) a b p q = omega (
  arith,
  bit_xor_step a b,
  pow-suc 2 k,
  bit_xor-lt k (a / 2) (b / 2) (omega (arith, pow-suc 2 k)) (omega (arith, pow-suc 2 k)),
)
