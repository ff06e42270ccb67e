-- ===== src/Emulator/Alu.antt =====
-- The instructions that touch registers and flags only. A value is its `uint32_t` pattern.
pub mod Compare
pub mod Wide
pub mod Rotate
pub mod Divide
use cputwo.Base.{
  ℕ, ◌+◌, ◌-◌, ◌*◌, ◌/◌, ◌%◌, ◌^◌, Bool, true, false, ◌&&◌, ◌||◌, xor, not, bit, ltb, ◌==◌,
  if◌then◌else◌, bit_and, bit_or, bit_xor, ◌<<<◌, ◌>>>◌, u32, add32, sub32, not32, test,
}
use cputwo.Emulator.Machine.{Cpu, set_reg, set_flags}
use cputwo.Emulator.Flags.{
  flag_n, flag_z, flag_c, flag_v, nzcv, add_overflow, sub_overflow, update_flags_nz, clear_cv,
  update_flags_add, update_flags_sub,
}

-- `uint32_t r = …; update_flags_nz(cpu,r); clear_cv(cpu); cpu->r[rd]=r;`
unfoldable pub logic_result : Cpu → ℕ → ℕ → Cpu
logic_result c rd r = set_reg (clear_cv (update_flags_nz c r)) rd r

-- `uint32_t r = …; update_flags_nz(cpu,r); cpu->r[rd]=r;`
unfoldable pub mul_result : Cpu → ℕ → ℕ → Cpu
mul_result c rd r = set_reg (update_flags_nz c r) rd r

-- ADD and ADDI, SUB and SUBI, CMP and CMPI: `a` and `b` are the operands.
unfoldable pub exec_add : Cpu → ℕ → ℕ → ℕ → Cpu
exec_add c rd a b = let r = add32 a b in set_reg (update_flags_add c a b r) rd r

unfoldable pub exec_sub : Cpu → ℕ → ℕ → ℕ → Cpu
exec_sub c rd a b = let r = sub32 a b in set_reg (update_flags_sub c a b r) rd r

unfoldable pub exec_cmp : Cpu → ℕ → ℕ → Cpu
exec_cmp c a b = update_flags_sub c a b (sub32 a b)

unfoldable pub exec_addc : Cpu → ℕ → ℕ → ℕ → Cpu
exec_addc c rd a b =
    let cin = bit (test c.flags flag_c) in
    let sum = a + b + cin in
    let r = u32 sum in
    set_reg (set_flags c (nzcv c.flags r (ltb 0xffffffff sum) (add_overflow a b r))) rd r

unfoldable pub exec_subc : Cpu → ℕ → ℕ → ℕ → Cpu
exec_subc c rd a b =
    let bin = bit (test c.flags flag_c) in
    let r = sub32 (sub32 a b) bin in
    set_reg (set_flags c (nzcv c.flags r (ltb a (b + bin)) (sub_overflow a b r))) rd r

-- `x << s`, `x >> s` and `(int32_t)x >> s`, for `s` below 32.
unfoldable pub shift_left : ℕ → ℕ → ℕ
shift_left x s = u32 (x <<< s)

unfoldable pub shift_right : ℕ → ℕ → ℕ
shift_right x s = x >>> s

unfoldable pub shift_right_signed : ℕ → ℕ → ℕ
shift_right_signed x s = if ltb x (2 ^ 31) then x >>> s else not32 (not32 x >>> s)

-- ROLR and ROLI, RORR and RORI.
unfoldable pub rotate_left : ℕ → ℕ → ℕ
rotate_left x s = if s == 0 then x else bit_or (shift_left x s) (shift_right x (32 - s))

unfoldable pub rotate_right : ℕ → ℕ → ℕ
rotate_right x s = if s == 0 then x else bit_or (shift_right x s) (shift_left x (32 - s))

-- MUL, MULHU, and MULH: the pattern of an `int64_t` product is the product of the patterns.
unfoldable pub mul_low : ℕ → ℕ → ℕ
mul_low a b = u32 (a * b)

unfoldable pub mul_high : ℕ → ℕ → ℕ
mul_high a b = u32 ((a * b) >>> 32)

abbrev pub sext64 : ℕ → ℕ
sext64 x = if ltb x (2 ^ 31) then x else x + (2 ^ 64 - 2 ^ 32)

unfoldable pub mul_high_signed : ℕ → ℕ → ℕ
mul_high_signed a b = u32 (((sext64 a * sext64 b) % 2 ^ 64) >>> 32)

-- DIV and MOD on signed operands: C rounds to zero and the remainder has the sign of `a`.
-- `INT_MIN / -1` and `INT_MIN % -1` overflow, which C leaves undefined.
abbrev pub abs32 : ℕ → ℕ
abs32 x = if ltb x (2 ^ 31) then x else 2 ^ 32 - x

abbrev pub neg32 : ℕ → ℕ
neg32 x = u32 (2 ^ 32 - x)

abbrev pub is_neg : ℕ → Bool
is_neg x = not (ltb x (2 ^ 31))

unfoldable pub div_signed : ℕ → ℕ → ℕ
div_signed a b = let q = abs32 a / abs32 b in if xor (is_neg a) (is_neg b) then neg32 q else u32 q

unfoldable pub rem_signed : ℕ → ℕ → ℕ
rem_signed a b = let r = abs32 a % abs32 b in if is_neg a then neg32 r else u32 r

unfoldable pub div_undefined : ℕ → ℕ → Bool
div_undefined a b = a == 0x80000000 && b == 0xffffffff

-- The conditions of a branch, 0 to 10, from the flags.
unfoldable pub taken : ℕ → ℕ → Bool
taken flags cond =
    let n = test flags flag_n in
    let z = test flags flag_z in
    let c = test flags flag_c in
    let v = test flags flag_v in
    if cond == 0
    then z
    else if cond == 1
    then not z
    else if cond == 2
    then xor n v
    else if cond == 3
    then not (xor n v)
    else if cond == 4
    then c
    else if cond == 5
    then not c
    else if cond == 6
    then true
    else if cond == 7
    then not z && not (xor n v)
    else if cond == 8
    then z || xor n v
    else if cond == 9
    then not c && not z
    else c || z
