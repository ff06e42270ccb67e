-- ===== src/Base/Powers.antt =====
-- Numbers split at a power of two.
use Prim.Native.Nat.{ℕ, zero, suc, ◌+◌, ◌*◌, ◌/◌, ◌%◌, ◌^◌, ◌<◌}
use mathlib.Core.Path.{◌≡◌, ap, ◌∙◌}
use native.Mathlib.Nat.{
  add-mul-mod_self_right, mod-eq_of_lt, div-add-mod', mod-lt, div-lt_iff_lt-mul, mul-add-div_right,
  one-le-pow, pow-suc,
}
use native.Mathlib.Omega.{arith}

pub two_pow_pos : (k : ℕ) → 0 < 2 ^ k
two_pow_pos k = one-le-pow k 2 (omega arith)

pub two_pow_add : (a b : ℕ) → 2 ^ (a + b) ≡ 2 ^ a * 2 ^ b
two_pow_add zero b = let e : zero + b ≡ b = omega arith in rw e (omega arith)
two_pow_add (suc a) b =
    let e : suc a + b ≡ suc (a + b) = omega arith in
    rw e (
      omega (
        arith,
        pow-suc 2 (a + b),
        pow-suc 2 a,
        two_pow_add a b,
        ap (λ (v : ℕ). v * 2 ^ b) (pow-suc 2 a),
      ))

-- A product that is cut at `p * t` keeps the remainder by `t`.
pub mul-mod_split : (p t x : ℕ) → 0 < p → 0 < t → (x * p) % (p * t) ≡ x % t * p
mul-mod_split p t x hp ht =
    rw split (add-mul-mod_self_right (x % t * p) (x / t) (p * t) ∙ mod-eq_of_lt small)
  where
    split : x * p ≡ x % t * p + x / t * (p * t)
    split = omega (arith, ap (λ (v : ℕ). v * p) (div-add-mod' x t))

    small : x % t * p < p * t
    small = let h : x % t < t = mod-lt x ht in grind arith

-- Two fields, the lower one below `p`.
pub fields_div : (p q r : ℕ) → r < p → (q * p + r) / p ≡ q
fields_div p q r h =
    let hp : 0 < p = omega arith in
    let e : r / p ≡ 0 =
      omega (arith, (div-lt_iff_lt-mul {k = p} {x = r} {y = 1} hp).1 (omega arith)) in
    omega (arith, mul-add-div_right hp q r)

pub fields_mod : (p q r : ℕ) → r < p → (q * p + r) % p ≡ r
fields_mod p q r h =
    let e : q * p + r ≡ r + q * p = omega arith in
    rw e (add-mul-mod_self_right r q p ∙ mod-eq_of_lt h)

pub div-lt_split : (p t x : ℕ) → 0 < t → x < p * t → x / t < p
div-lt_split p t x ht h = (div-lt_iff_lt-mul ht).1 h
