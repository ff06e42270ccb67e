-- ===== src/Emulator/Flags.antt =====
-- The flag helpers of emulator.c.
pub mod Word
use cputwo.Base.{
  ℕ, ◌+◌, ◌^◌, ltb, ◌==◌, if◌then◌else◌, Bool, not, ◌&&◌, bit_and, bit_or, bit_xor, not32, test,
}
use cputwo.Emulator.Machine.{Cpu, set_flags}

abbrev pub flag_n : ℕ
flag_n = 2 ^ 31

abbrev pub flag_z : ℕ
flag_z = 2 ^ 30

abbrev pub flag_c : ℕ
flag_c = 2 ^ 29

abbrev pub flag_v : ℕ
flag_v = 2 ^ 28

-- The new flags word of `update_flags_nz`.
unfoldable pub nz : ℕ → ℕ → ℕ
nz flags result =
    bit_or
      (bit_or (bit_and flags (not32 (bit_or flag_n flag_z)))
        (if test result 0x80000000 then flag_n else 0))
      (if result == 0 then flag_z else 0)

-- The new flags word that `update_flags_add`, `update_flags_sub`, ADDC and SUBC write.
unfoldable pub nzcv : ℕ → ℕ → Bool → Bool → ℕ
nzcv flags result carry overflow =
    bit_or
      (bit_or
        (bit_or
          (bit_or (bit_and flags (not32 (bit_or (bit_or (bit_or flag_n flag_z) flag_c) flag_v)))
            (if test result 0x80000000 then flag_n else 0))
          (if result == 0 then flag_z else 0))
        (if carry then flag_c else 0))
      (if overflow then flag_v else 0)

-- Signed overflow of `a + b` and of `a - b`, where `result` is the wrapped sum or difference.
unfoldable pub add_overflow : ℕ → ℕ → ℕ → Bool
add_overflow a b result = not (test (bit_xor a b) 0x80000000) && test (bit_xor result a) 0x80000000

unfoldable pub sub_overflow : ℕ → ℕ → ℕ → Bool
sub_overflow a b result = test (bit_xor a b) 0x80000000 && test (bit_xor result a) 0x80000000

unfoldable pub update_flags_nz : Cpu → ℕ → Cpu
update_flags_nz c result = set_flags c (nz c.flags result)

unfoldable pub clear_cv : Cpu → Cpu
clear_cv c = set_flags c (bit_and c.flags (not32 (bit_or flag_c flag_v)))

unfoldable pub update_flags_add : Cpu → ℕ → ℕ → ℕ → Cpu
update_flags_add c a b result =
    set_flags c (nzcv c.flags result (ltb 0xffffffff (a + b)) (add_overflow a b result))

unfoldable pub update_flags_sub : Cpu → ℕ → ℕ → ℕ → Cpu
update_flags_sub c a b result =
    set_flags c (nzcv c.flags result (ltb a b) (sub_overflow a b result))
