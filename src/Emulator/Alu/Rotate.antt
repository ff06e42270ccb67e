-- ===== src/Emulator/Alu/Rotate.antt =====
-- The rotations, digit by digit and as inverses of one another.
use cputwo.Base.{
  ℕ, ◌+◌, ◌-◌, ◌*◌, ◌/◌, ◌%◌, ◌^◌, ◌<◌, ◌≡◌, ◌==◌, Bool-cases, inl, inr, refl, sym, ap, ◌∙◌, ==_iff,
  bit_or, arith,
}
use cputwo.Base.Powers.{
  two_pow_pos, two_pow_add, mul-mod_split, fields_div, fields_mod, div-lt_split,
}
use cputwo.Base.Bits.{bit_or_fields, bit_or_fields_low}
use cputwo.Emulator.Alu.{shift_left, shift_right, rotate_left, rotate_right}
use native.Mathlib.Nat.{mod-lt, div-add-mod', mul_comm}

-- `p` and `t` are the values of the two parts of a word that is split at digit `32 - s`.
module _ (s : ℕ) (small : s < 32) where
  abbrev p : ℕ
  p = 2 ^ s

  abbrev t : ℕ
  t = 2 ^ (32 - s)

  whole : 2 ^ 32 ≡ p * t
  whole =
      let e : s + (32 - s) ≡ 32 = omega arith in
      sym (sym (two_pow_add s (32 - s)) ∙ ap (λ k. 2 ^ k) e)

  shift_left_sum : (x : ℕ) → shift_left x s ≡ x % t * p
  unfolding shift_left
  shift_left_sum x = rw whole (mul-mod_split p t x (two_pow_pos s) (two_pow_pos (32 - s)))

  shift_left_other_sum : (x : ℕ) → shift_left x (32 - s) ≡ x % p * t
  unfolding shift_left
  shift_left_other_sum x =
      rw (whole, mul_comm p t) (mul-mod_split t p x (two_pow_pos (32 - s)) (two_pow_pos s))

  top_lt : (x : ℕ) → x < 2 ^ 32 → x / t < p
  top_lt x h = div-lt_split p t x (two_pow_pos (32 - s)) (rw whole at h)

  low_lt : (x : ℕ) → x % t < t
  low_lt x = mod-lt x (two_pow_pos (32 - s))

  join_left :
      (x : ℕ) → x < 2 ^ 32 → bit_or (shift_left x s) (shift_right x (32 - s)) ≡ x % t * p + x / t
  unfolding shift_right
  join_left x h = rw (shift_left_sum x) (bit_or_fields s (x % t) (x / t) (top_lt x h))

  -- The right rotation of the two exchanged parts puts them back.
  join_right :
      (x : ℕ)
      → x < 2 ^ 32
      → let y = x % t * p + x / t in bit_or (shift_right y s) (shift_left y (32 - s)) ≡ x
  unfolding shift_right
  join_right x h =
      let y = x % t * p + x / t in
      rw
        (
          shift_left_other_sum y,
          fields_div p (x % t) (x / t) (top_lt x h),
          fields_mod p (x % t) (x / t) (top_lt x h),
          bit_or_fields_low (32 - s) (x / t) (x % t) (low_lt x),
        )
        (omega (arith, div-add-mod' x t))

-- A left rotation by `s` below 32 takes the digits from `32 - s` on to the bottom and moves the
-- others up by `s`; the right rotation by the same amount undoes it.
pub rotate_right-rotate_left :
    (s x : ℕ)
    → s < 32
    → x < 2 ^ 32
    → (rotate_left x s ≡ x % 2 ^ (32 - s) * 2 ^ s + x / 2 ^ (32 - s))
      × (rotate_right (rotate_left x s) s ≡ x)
unfolding rotate_left rotate_right
rotate_right-rotate_left s x small h = elim (Bool-cases (s == 0)) [
  | inl e ↦ (rw ((==_iff s 0).0 e) (omega arith), rw e refl)
  | inr e ↦ (rw e (join_left s small x h), rw (e, join_left s small x h) (join_right s small x h))
]
