-- ===== src/Emulator/Alu/Compare.antt =====
-- A comparison followed by a branch, against the order of the operands.
use cputwo.Base.{ℕ, ◌^◌, ◌<◌, ◌≡◌, true, not, xor, ◌==◌, ltb, test, sub32, bit_xor, refl, arith}
use cputwo.Base.Bits.{test_pow, bit_xor_digit}
use cputwo.Base.Int.{ltb_ℤ, signed32}
use cputwo.Emulator.Machine.{Cpu, set_flags}
use cputwo.Emulator.Flags.{flag_n, flag_z, flag_c, flag_v, sub_overflow, update_flags_sub}
use cputwo.Emulator.Flags.Word.{test-nzcv}
use cputwo.Emulator.Alu.{exec_cmp, taken}

-- The sign bit of a word, and of an exclusive or.
pub sign_bit : (x : ℕ) → x < 2 ^ 32 → test x 0x80000000 ≡ not (ltb x (2 ^ 31))
sign_bit x h = rw (test_pow 31 x) (ground arith)

pub sign_bit_xor :
    (a b : ℕ)
    → a < 2 ^ 32
    → b < 2 ^ 32
    → test (bit_xor a b) 0x80000000 ≡ xor (ltb a (2 ^ 31)) (ltb b (2 ^ 31))
sign_bit_xor a b ha hb = rw (test_pow 31 (bit_xor a b), bit_xor_digit 31 a b) (ground arith)

-- `N != V` after a subtraction is the signed order.
pub sub_signed :
    (a b : ℕ)
    → a < 2 ^ 32
    → b < 2 ^ 32
    → xor (test (sub32 a b) 0x80000000) (sub_overflow a b (sub32 a b))
      ≡ ltb_ℤ (signed32 a) (signed32 b)
unfolding sub_overflow
sub_signed a b ha hb =
    rw
      (
        sign_bit (sub32 a b) (omega arith),
        sign_bit_xor a b ha hb,
        sign_bit_xor (sub32 a b) a (omega arith) ha,
      )
      (ground arith)

sub_zero : (a b : ℕ) → a < 2 ^ 32 → b < 2 ^ 32 → (sub32 a b == 0) ≡ (a == b)
sub_zero a b ha hb = ground arith

-- The flags that a comparison of `a` with `b` leaves.
record AreCompared (flags a b : ℕ) : Type 0 where
  zero_flag : test flags flag_z ≡ (a == b)
  carry_flag : test flags flag_c ≡ ltb a b
  sign_flags : xor (test flags flag_n) (test flags flag_v) ≡ ltb_ℤ (signed32 a) (signed32 b)

cmp-AreCompared :
    (c : Cpu) (a b : ℕ) → a < 2 ^ 32 → b < 2 ^ 32 → AreCompared (exec_cmp c a b).flags a b
unfolding exec_cmp update_flags_sub set_flags
cmp-AreCompared c a b ha hb =
    let flags = test-nzcv c.flags (sub32 a b) (ltb a b) (sub_overflow a b (sub32 a b)) in
    record {
      zero_flag = rw flags.1 (sub_zero a b ha hb);
      carry_flag = flags.2;
      sign_flags = rw (flags.0, flags.3) (sub_signed a b ha hb);
    }

-- After a comparison of two words each of the eleven conditions of a branch is taken exactly when
-- the order that it is named for holds: equality, the signed orders of the two's-complement
-- values (also where the subtraction overflows), always, and the unsigned orders.
pub taken-exec_cmp :
    (c : Cpu) (a b : ℕ)
    → a < 2 ^ 32
    → b < 2 ^ 32
    → let flags = (exec_cmp c a b).flags in
      let less = ltb_ℤ (signed32 a) (signed32 b) in
      let greater = ltb_ℤ (signed32 b) (signed32 a) in
      (taken flags 0 ≡ (a == b))
      × (taken flags 1 ≡ not (a == b))
      × (taken flags 2 ≡ less)
      × (taken flags 3 ≡ not less)
      × (taken flags 4 ≡ ltb a b)
      × (taken flags 5 ≡ not (ltb a b))
      × (taken flags 6 ≡ true)
      × (taken flags 7 ≡ greater)
      × (taken flags 8 ≡ not greater)
      × (taken flags 9 ≡ ltb b a)
      × (taken flags 10 ≡ not (ltb b a))
unfolding taken
taken-exec_cmp c a b ha hb =
    let f = cmp-AreCompared c a b ha hb in
    (
      f.zero_flag,
      rw f.zero_flag,
      f.sign_flags,
      rw f.sign_flags,
      f.carry_flag,
      rw f.carry_flag,
      refl,
      rw (f.zero_flag, f.sign_flags) (ground arith),
      rw (f.zero_flag, f.sign_flags) (ground arith),
      rw (f.zero_flag, f.carry_flag) (ground arith),
      rw (f.zero_flag, f.carry_flag) (ground arith),
    )
