-- ===== src/Emulator/Flags/Word.antt =====
-- The flags word as a sum of its bits, and each flag read back.
use cputwo.Base.{
  ℕ, ◌+◌, ◌*◌, ◌%◌, ◌^◌, ◌<◌, ◌≡◌, Bool, bit, bit_and, bit_or, test, ◌==◌, if◌then◌else◌, arith,
}
use cputwo.Base.Bits.{bit_and_mask, bit_or_flag, test_pow}
use cputwo.Emulator.Flags.{flag_n, flag_z, flag_c, flag_v, nz, nzcv}

pub nzcv_sum :
    (flags result : ℕ) (c v : Bool)
    → nzcv flags result c v
      ≡ flags % 2 ^ 28
        + bit (test result 0x80000000) * 2 ^ 31
        + bit (result == 0) * 2 ^ 30
        + bit c * 2 ^ 29
        + bit v * 2 ^ 28
unfolding nzcv
nzcv_sum flags result c v = join (test result 0x80000000) (result == 0)
  where
    join :
        (n z : Bool)
        → bit_or
            (bit_or
              (bit_or
                (bit_or (bit_and flags 0x0fffffff) (if n then flag_n else 0))
                (if z then flag_z else 0))
              (if c then flag_c else 0))
            (if v then flag_v else 0)
          ≡ flags % 2 ^ 28 + bit n * 2 ^ 31 + bit z * 2 ^ 30 + bit c * 2 ^ 29 + bit v * 2 ^ 28
    join n z =
        let low = flags % 2 ^ 28 in
        let with_n = low + bit n * 2 ^ 31 in
        let with_z = with_n + bit z * 2 ^ 30 in
        rw (
          bit_and_mask 28 flags,
          bit_or_flag 31 low n (omega arith),
          bit_or_flag 30 with_n z (ground arith),
          bit_or_flag 29 with_z c (ground arith),
          bit_or_flag 28 (with_z + bit c * 2 ^ 29) v (ground arith),
        )

pub nz_sum :
    (flags result : ℕ)
    → nz flags result
      ≡ flags % 2 ^ 30 + bit (test result 0x80000000) * 2 ^ 31 + bit (result == 0) * 2 ^ 30
unfolding nz
nz_sum flags result = join (test result 0x80000000) (result == 0)
  where
    join :
        (n z : Bool)
        → bit_or
            (bit_or (bit_and flags 0x3fffffff) (if n then flag_n else 0))
            (if z then flag_z else 0)
          ≡ flags % 2 ^ 30 + bit n * 2 ^ 31 + bit z * 2 ^ 30
    join n z =
        let low = flags % 2 ^ 30 in
        rw (
          bit_and_mask 30 flags,
          bit_or_flag 31 low n (omega arith),
          bit_or_flag 30 (low + bit n * 2 ^ 31) z (ground arith),
        )

pub nzcv-lt : (flags result : ℕ) (c v : Bool) → nzcv flags result c v < 2 ^ 32
nzcv-lt flags result c v = ground (arith, nzcv_sum flags result c v)

pub nz-lt : (flags result : ℕ) → nz flags result < 2 ^ 32
nz-lt flags result = ground (arith, nz_sum flags result)

-- A flag, of a word that is such a sum.
pub test_flags :
    (low : ℕ) (n z c v : Bool) {f : ℕ}
    → low < 2 ^ 28
    → f ≡ low + bit n * 2 ^ 31 + bit z * 2 ^ 30 + bit c * 2 ^ 29 + bit v * 2 ^ 28
    → (test f flag_n ≡ n) × (test f flag_z ≡ z) × (test f flag_c ≡ c) × (test f flag_v ≡ v)
test_flags low n z c v {f} h e = (
  rw (test_pow 31 f) (ground arith),
  rw (test_pow 30 f) (ground arith),
  rw (test_pow 29 f) (ground arith),
  rw (test_pow 28 f) (ground arith),
)

-- The four flags that an addition or a subtraction leaves.
pub test-nzcv :
    (flags result : ℕ) (c v : Bool)
    → let f = nzcv flags result c v in
      (test f flag_n ≡ test result 0x80000000)
      × (test f flag_z ≡ (result == 0))
      × (test f flag_c ≡ c)
      × (test f flag_v ≡ v)
test-nzcv flags result c v =
    test_flags (flags % 2 ^ 28) (test result 0x80000000) (result == 0) c v (omega arith)
      (nzcv_sum flags result c v)
