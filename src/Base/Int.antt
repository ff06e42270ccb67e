-- ===== src/Base/Int.antt =====
-- Signed integers over the native numbers, and the integer that an `int32_t` pattern stands for.
use mathlib.Core.Bool.{Bool, true}
use cputwo.Base.Tests.{ltb, leb, if◌then◌else◌}
use Prim.Native.Nat.{ℕ, suc, ◌+◌, ◌-◌, ◌*◌, ◌/◌, ◌%◌, ◌<◌, ◌^◌}
use native.Mathlib.Omega.{arith}

-- `negsuc n` is -(n + 1).
pub data ℤ : Type 0 where
  pos : ℕ → ℤ
  negsuc : ℕ → ℤ

abbrev pub pos_part : ℤ → ℕ
pos_part (pos n) = n
pos_part (negsuc n) = 0

abbrev pub neg_part : ℤ → ℕ
neg_part (pos n) = 0
neg_part (negsuc n) = suc n

-- a - b, as an integer.
abbrev pub sub_ℕ : ℕ → ℕ → ℤ
sub_ℕ a b = if leb b a then pos (a - b) else negsuc (b - a - 1)

infixl 65 ◌+ℤ◌
infixl 70 ◌*ℤ◌
unfoldable pub ◌+ℤ◌ : ℤ → ℤ → ℤ
a +ℤ b = sub_ℕ (pos_part a + pos_part b) (neg_part a + neg_part b)

unfoldable pub ◌*ℤ◌ : ℤ → ℤ → ℤ
a *ℤ b =
    sub_ℕ (pos_part a * pos_part b + neg_part a * neg_part b)
      (pos_part a * neg_part b + neg_part a * pos_part b)

infix 50 ◌<ℤ◌
abbrev pub ◌<ℤ◌ : ℤ → ℤ → Type 0
a <ℤ b = pos_part a + neg_part b < pos_part b + neg_part a

-- The integer of a two's-complement pattern below 2 ^ 32.
abbrev pub signed32 : ℕ → ℤ
signed32 w = if ltb w (2 ^ 31) then pos w else negsuc (2 ^ 32 - w - 1)

abbrev pub ltb_ℤ : ℤ → ℤ → Bool
ltb_ℤ a b = ltb (pos_part a + neg_part b) (pos_part b + neg_part a)

infixl 65 ◌-ℤ◌
abbrev pub ◌-ℤ◌ : ℤ → ℤ → ℤ
a -ℤ b = sub_ℕ (pos_part a + neg_part b) (neg_part a + pos_part b)

-- The integer of a two's-complement pattern below 2 ^ 64.
abbrev pub signed64 : ℕ → ℤ
signed64 w = if ltb w (2 ^ 63) then pos w else negsuc (2 ^ 64 - w - 1)

-- The low `k` digits of an integer's two's-complement pattern, `x & (2^k - 1)`.
abbrev pub low_bits : ℕ → ℤ → ℕ
low_bits k (pos n) = n % 2 ^ k
low_bits k (negsuc n) = 2 ^ k - 1 - n % 2 ^ k

-- `x >> k`, with the sign kept.
abbrev pub shift_ℤ : ℤ → ℕ → ℤ
shift_ℤ (pos n) k = pos (n / 2 ^ k)
shift_ℤ (negsuc n) k = negsuc (n / 2 ^ k)

pub low_bits-lt : (k : ℕ) (v : ℤ) → 0 < 2 ^ k → low_bits k v < 2 ^ k
low_bits-lt k (pos n) h = omega arith
low_bits-lt k (negsuc n) h = omega arith

-- The sum of two `int32_t`, given as their patterns, does not fit an `int32_t`, which C leaves
-- undefined.
unfoldable pub sum_overflows : ℕ → ℕ → Bool
sum_overflows a b =
    let sum = signed32 a +ℤ signed32 b in
    if ltb (pos_part sum) (2 ^ 31) then ltb (2 ^ 31) (neg_part sum) else true
