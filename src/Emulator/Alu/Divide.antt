-- ===== src/Emulator/Alu/Divide.antt =====
-- DIV and MOD against the division of integers that rounds to zero.
use cputwo.Base.{
  ℕ, ◌+◌, ◌*◌, ◌/◌, ◌%◌, ◌^◌, ◌≤◌, ◌<◌, ◌≡◌, ◌≢◌, Bool, true, false, xor, u32, if◌then◌else◌, refl,
  arith,
}
use cputwo.Base.Int.{ℤ, pos, sub_ℕ, signed32, ◌+ℤ◌, ◌*ℤ◌, pos_part, neg_part}
use cputwo.Emulator.Alu.{div_signed, rem_signed, div_undefined, abs32, neg32, is_neg}
use native.Mathlib.Nat.{div-add-mod', mod-lt, div-mul-le_self}

-- The integer of a magnitude and a sign.
abbrev with_sign : Bool → ℕ → ℤ
with_sign true n = sub_ℕ 0 n
with_sign false n = pos n

signed_of_abs : (a : ℕ) → a < 2 ^ 32 → signed32 a ≡ with_sign (is_neg a) (abs32 a)
signed_of_abs a h = ground arith

signed-u32 : (n : ℕ) → n < 2 ^ 31 → signed32 (u32 n) ≡ pos n
signed-u32 n h = ground arith

signed-neg32 : (n : ℕ) → n ≤ 2 ^ 31 → signed32 (neg32 n) ≡ sub_ℕ 0 n
signed-neg32 n h = ground arith

-- A quotient that needs 31 digits comes from the division that overflows.
quotient_bound :
    (a b q : ℕ)
    → a < 2 ^ 32
    → b < 2 ^ 32
    → q * abs32 b ≤ abs32 a
    → b ≢ 0
    → div_undefined a b ≡ false
    → (q ≤ 2 ^ 31) × (is_neg a ≡ is_neg b → q < 2 ^ 31)
unfolding div_undefined
quotient_bound a b q ha hb le nz def =
    let one_or_more : q ≤ q * abs32 b = let p : 1 ≤ abs32 b = ground arith in grind arith in
    let two_or_more : 2 ≤ abs32 b → q * 2 ≤ q * abs32 b = λ p. grind arith in
    (ground arith, λ e. ground arith)

sign_law :
    (na nb : Bool) (q b r : ℕ)
    → with_sign (xor na nb) q *ℤ with_sign nb b +ℤ with_sign na r ≡ with_sign na (q * b + r)
unfolding ◌*ℤ◌ ◌+ℤ◌
sign_law true true q b r = ground arith
sign_law true false q b r = ground arith
sign_law false true q b r = ground arith
sign_law false false q b r = ground arith

module _ (a b : ℕ) (ha : a < 2 ^ 32) (hb : b < 2 ^ 32) (nz : b ≢ 0)
    (def : div_undefined a b ≡ false) where
  positive : 0 < abs32 b
  positive = ground arith

  bounded : (abs32 a / abs32 b ≤ 2 ^ 31) × (is_neg a ≡ is_neg b → abs32 a / abs32 b < 2 ^ 31)
  bounded =
      quotient_bound a b (abs32 a / abs32 b) ha hb (div-mul-le_self (abs32 a) (abs32 b)) nz def

  rem_small : abs32 a % abs32 b < abs32 b
  rem_small = mod-lt (abs32 a) positive

  signed-div : signed32 (div_signed a b) ≡ with_sign (xor (is_neg a) (is_neg b)) (abs32 a / abs32 b)
  unfolding div_signed
  signed-div = by_signs (is_neg a) (is_neg b) (abs32 a / abs32 b) bounded
    where
      by_signs :
          (na nb : Bool) (q : ℕ)
          → (q ≤ 2 ^ 31) × (na ≡ nb → q < 2 ^ 31)
          → signed32 (if xor na nb then neg32 q else u32 q) ≡ with_sign (xor na nb) q
      by_signs true true q h = signed-u32 q (h.1 refl)
      by_signs true false q h = signed-neg32 q h.0
      by_signs false true q h = signed-neg32 q h.0
      by_signs false false q h = signed-u32 q (h.1 refl)

  signed-rem : signed32 (rem_signed a b) ≡ with_sign (is_neg a) (abs32 a % abs32 b)
  unfolding rem_signed
  signed-rem = by_sign (is_neg a) (abs32 a % abs32 b) (ground (arith, rem_small))
    where
      by_sign :
          (na : Bool) (r : ℕ)
          → r < 2 ^ 31
          → signed32 (if na then neg32 r else u32 r) ≡ with_sign na r
      by_sign true r h = signed-neg32 r (omega arith)
      by_sign false r h = signed-u32 r h

no_other_sign :
    (s : Bool) (n : ℕ) → (if s then pos_part (with_sign s n) else neg_part (with_sign s n)) ≡ 0
no_other_sign true n = ground arith
no_other_sign false n = refl

-- For a divisor that is not zero, and but for the overflow of the least word by -1, DIV and MOD
-- give the quotient and the remainder that C defines: they add up to the dividend as integers, the
-- remainder is smaller than the divisor in absolute value and has the sign of the dividend.
pub div_signed-rem_signed :
    (a b : ℕ)
    → a < 2 ^ 32
    → b < 2 ^ 32
    → b ≢ 0
    → div_undefined a b ≡ false
    → let q = signed32 (div_signed a b) in
      let r = signed32 (rem_signed a b) in
      (q *ℤ signed32 b +ℤ r ≡ signed32 a)
      × (pos_part r + neg_part r < abs32 b)
      × ((if is_neg a then pos_part r else neg_part r) ≡ 0)
div_signed-rem_signed a b ha hb nz def =
    rw (signed-div a b ha hb nz def, signed-rem a b ha hb nz def, signed_of_abs a ha)
      (
        rw (
          signed_of_abs b hb,
          sign_law (is_neg a) (is_neg b) (abs32 a / abs32 b) (abs32 b) (abs32 a % abs32 b),
          div-add-mod' (abs32 a) (abs32 b),
        ),
        ground (arith, rem_small a b ha hb nz def),
        no_other_sign (is_neg a) (abs32 a % abs32 b),
      )
