-- ===== src/Emulator/Mmu/Bits.antt =====
-- The permission bits of an entry, through the dirty bit and through the cut to its low 12 bits.
use cputwo.Base.{
  ℕ, ◌+◌, ◌/◌, ◌%◌, ◌^◌, ◌≡◌, true, false, not, ◌&&◌, test, bit_and, bit_or, if_intro, refl, ◌∙◌,
  arith,
}
use cputwo.Base.Bits.{test_pow, bit_and_mask, bit_or_clear}
use cputwo.Emulator.Mmu.{Access, fetch, load, store, permitted, dirtied, is_store}

-- Setting bit 1 where it is clear changes no other bit.
set_dirty : (x : ℕ) → test x 2 ≡ false → bit_or x 2 ≡ x + 2
set_dirty x e = bit_or_clear 1 x 1 (omega arith) (ground (arith, test_pow 1 x))

-- Two words with the same R, W, X and U bits.
pub record SameBits (x y : ℕ) : Type 0 where
  pub r_bit : test x 0x20 ≡ test y 0x20
  pub w_bit : test x 0x40 ≡ test y 0x40
  pub x_bit : test x 0x80 ≡ test y 0x80
  pub u_bit : test x 0x100 ≡ test y 0x100

same_digits :
    {x y : ℕ}
    → x / 2 ^ 5 % 2 ≡ y / 2 ^ 5 % 2
    → x / 2 ^ 6 % 2 ≡ y / 2 ^ 6 % 2
    → x / 2 ^ 7 % 2 ≡ y / 2 ^ 7 % 2
    → x / 2 ^ 8 % 2 ≡ y / 2 ^ 8 % 2
    → SameBits x y
same_digits {x} {y} a b c d = record {
  r_bit = rw (test_pow 5 x, test_pow 5 y, a);
  w_bit = rw (test_pow 6 x, test_pow 6 y, b);
  x_bit = rw (test_pow 7 x, test_pow 7 y, c);
  u_bit = rw (test_pow 8 x, test_pow 8 y, d);
}

pub low_bits-SameBits : (x : ℕ) → SameBits (bit_and x 0xfff) x
low_bits-SameBits x =
    rw (bit_and_mask 12 x) (same_digits (omega arith) (omega arith) (omega arith) (omega arith))

pub dirty-SameBits : (x : ℕ) → test x 2 ≡ false → SameBits (bit_or x 2) x
dirty-SameBits x e =
    let clear : x / 2 % 2 ≡ 0 = ground (arith, test_pow 1 x) in
    rw (set_dirty x e) (same_digits (omega arith) (omega arith) (omega arith) (omega arith))

pub dirty_set : (x : ℕ) → test x 2 ≡ false → test (bit_or x 2) 2 ≡ true
dirty_set x e =
    let clear : x / 2 % 2 ≡ 0 = ground (arith, test_pow 1 x) in
    rw (set_dirty x e, test_pow 1 (x + 2)) (ground arith)

pub low_bits_dirty : (x : ℕ) → test (bit_and x 0xfff) 2 ≡ test x 2
low_bits_dirty x = rw (bit_and_mask 12 x, test_pow 1 x, test_pow 1 (x % 2 ^ 12)) (ground arith)

pub permitted-SameBits :
    (status : ℕ) (access : Access) {x y : ℕ}
    → SameBits x y
    → permitted status access x ≡ permitted status access y
unfolding permitted
permitted-SameBits status fetch s = rw (s.u_bit, s.x_bit)
permitted-SameBits status load s = rw (s.u_bit, s.r_bit)
permitted-SameBits status store s = rw (s.u_bit, s.w_bit)

pub permitted-dirtied :
    (status : ℕ) (access : Access) (pte : ℕ)
    → permitted status access (bit_and (dirtied access pte) 0xfff) ≡ permitted status access pte
unfolding dirtied
permitted-dirtied status access pte =
    permitted-SameBits status access (low_bits-SameBits _)
    ∙ if_intro (λ w. permitted status access w ≡ permitted status access pte)
        (is_store access && not (test pte 2))
        (λ e. permitted-SameBits status access (dirty-SameBits pte (clear e))) (λ e. refl)
  where
    clear : (is_store access && not (test pte 2)) ≡ true → test pte 2 ≡ false
    clear e = ground arith

-- After a store the dirty bit is set.
pub dirtied_store : (pte : ℕ) → test (bit_and (dirtied store pte) 0xfff) 2 ≡ true
unfolding dirtied
dirtied_store pte = rw (low_bits_dirty (dirtied store pte)) (
    if_intro (λ w. test w 2 ≡ true) (not (test pte 2)) (λ e. dirty_set pte (ground arith))
      (λ e. ground arith))
