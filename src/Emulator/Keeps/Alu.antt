-- ===== src/Emulator/Keeps/Alu.antt =====
-- The instructions that touch registers and flags keep every width.
use cputwo.Base.{ℕ, ◌-◌, ◌^◌, ◌<◌, Option, none, some, bit_and, u32, ◌<<<◌, arith}
use cputwo.Base.Bits.{bit_and_mask, bit_or-lt, bit_xor-lt}
use cputwo.Emulator.Machine.{Cpu}
use cputwo.Emulator.Flags.{update_flags_nz, clear_cv, update_flags_add, update_flags_sub}
use cputwo.Emulator.Flags.Word.{nz-lt, nzcv-lt}
use cputwo.Emulator.Decode.{
  Opcode, add, sub, and, or, xor, lsl, lsr, asr, mul, jmp, movi, halt, movhi, addi, subi, andi, ori,
  xori, lsli, lsri, asri, mulh, mulhu, mov, cmp, cmpi, callr, addc, subc, lslr, lsrr, asrr, lui,
  rolr, rorr, roli, rori, Fields, decode, sext16, sext8, sext20,
}
use cputwo.Emulator.Alu.{
  logic_result, mul_result, exec_add, exec_sub, exec_cmp, exec_addc, exec_subc, shift_left,
  shift_right, shift_right_signed, rotate_left, rotate_right, mul_low, mul_high, mul_high_signed,
}
use cputwo.Emulator.Run.{execute_cpu}
use cputwo.Emulator.Keeps.Invariant.{IsCpu, set_reg-IsCpu, set_flags-IsCpu}
use cputwo.Emulator.Keeps.Trap.{and-lt}
use native.Mathlib.Nat.{div-le_self}

-- The operands that the fields of an instruction give.
pub record IsFields (d : Fields) : Type 0 where
  pub imm16 : d.imm16 < 2 ^ 16
  pub simm : d.simm < 2 ^ 32
  pub soff : d.soff < 2 ^ 32

pub sext16-lt : (x : ℕ) → x < 2 ^ 16 → sext16 x < 2 ^ 32
unfolding sext16
sext16-lt x h = ground arith

pub sext8-lt : (x : ℕ) → x < 2 ^ 8 → sext8 x < 2 ^ 32
unfolding sext8
sext8-lt x h = ground arith

sext20-lt : (x : ℕ) → x < 2 ^ 20 → sext20 x < 2 ^ 32
unfolding sext20
sext20-lt x h = ground (arith, bit_or-lt 32 x 0xfff00000 (omega arith) (omega arith))

pub decode-IsFields : (instr : ℕ) → IsFields (decode instr)
unfolding decode
decode-IsFields instr =
    let low16 : bit_and instr 0xffff < 2 ^ 16 = omega (arith, bit_and_mask 16 instr) in
    let low20 : bit_and instr 0xfffff < 2 ^ 20 = omega (arith, bit_and_mask 20 instr) in
    record { imm16 = low16; simm = sext16-lt _ low16; soff = sext20-lt _ low20 }

u32-lt : (a : ℕ) → u32 a < 2 ^ 32
u32-lt a = omega arith

shift_left-lt : (x s : ℕ) → shift_left x s < 2 ^ 32
unfolding shift_left
shift_left-lt x s = u32-lt (x <<< s)

shift_right-lt : (x s : ℕ) → x < 2 ^ 32 → shift_right x s < 2 ^ 32
unfolding shift_right
shift_right-lt x s h = omega (arith, div-le_self x (2 ^ s))

shift_right_signed-lt : (x s : ℕ) → x < 2 ^ 32 → shift_right_signed x s < 2 ^ 32
unfolding shift_right_signed
shift_right_signed-lt x s h = ground (arith, div-le_self x (2 ^ s))

rotate_left-lt : (x s : ℕ) → x < 2 ^ 32 → rotate_left x s < 2 ^ 32
unfolding rotate_left
rotate_left-lt x s h = ground (
  arith,
  bit_or-lt 32 (shift_left x s) (shift_right x (32 - s)) (shift_left-lt x s)
      (shift_right-lt x (32 - s) h),
)

rotate_right-lt : (x s : ℕ) → x < 2 ^ 32 → rotate_right x s < 2 ^ 32
unfolding rotate_right
rotate_right-lt x s h = ground (
  arith,
  bit_or-lt 32 (shift_right x s) (shift_left x (32 - s)) (shift_right-lt x s h)
      (shift_left-lt x (32 - s)),
)

module _ {c : Cpu} (v : IsCpu c) where
  flags_nz : (r : ℕ) → IsCpu (update_flags_nz c r)
  unfolding update_flags_nz
  flags_nz r = set_flags-IsCpu v (nz-lt c.flags r)

  logic : (rd : ℕ) {r : ℕ} → r < 2 ^ 32 → IsCpu (logic_result c rd r)
  unfolding logic_result clear_cv
  logic rd {r} h =
      let w = flags_nz r in set_reg-IsCpu rd (set_flags-IsCpu w (and-lt _ _ w.words.flags)) h

  pub mul_result-IsCpu : (rd : ℕ) {r : ℕ} → r < 2 ^ 32 → IsCpu (mul_result c rd r)
  unfolding mul_result
  mul_result-IsCpu rd {r} h = set_reg-IsCpu rd (flags_nz r) h

  add_lem : (rd a b : ℕ) → IsCpu (exec_add c rd a b)
  unfolding exec_add update_flags_add
  add_lem rd a b = set_reg-IsCpu rd (set_flags-IsCpu v (nzcv-lt _ _ _ _)) (u32-lt _)

  sub_lem : (rd a b : ℕ) → IsCpu (exec_sub c rd a b)
  unfolding exec_sub update_flags_sub
  sub_lem rd a b = set_reg-IsCpu rd (set_flags-IsCpu v (nzcv-lt _ _ _ _)) (u32-lt _)

  cmp_lem : (a b : ℕ) → IsCpu (exec_cmp c a b)
  unfolding exec_cmp update_flags_sub
  cmp_lem a b = set_flags-IsCpu v (nzcv-lt _ _ _ _)

  addc_lem : (rd a b : ℕ) → IsCpu (exec_addc c rd a b)
  unfolding exec_addc
  addc_lem rd a b = set_reg-IsCpu rd (set_flags-IsCpu v (nzcv-lt _ _ _ _)) (u32-lt _)

  subc_lem : (rd a b : ℕ) → IsCpu (exec_subc c rd a b)
  unfolding exec_subc
  subc_lem rd a b = set_reg-IsCpu rd (set_flags-IsCpu v (nzcv-lt _ _ _ _)) (u32-lt _)

-- The predicate on the value, if there is one.
abbrev pub OnSome : Option Cpu → Type 0
OnSome none = Unit
OnSome (some c) = IsCpu c

pub execute_cpu-IsCpu :
    (op : Opcode) (d : Fields) (pc : ℕ) {c : Cpu}
    → IsFields d
    → IsCpu c
    → OnSome (execute_cpu op d pc c)
unfolding execute_cpu mul_low mul_high mul_high_signed
execute_cpu-IsCpu add d pc f v = add_lem v d.rd _ _
execute_cpu-IsCpu sub d pc f v = sub_lem v d.rd _ _
execute_cpu-IsCpu and d pc f v = logic v d.rd (and-lt _ _ (v.regs d.rs1))
execute_cpu-IsCpu or d pc f v = logic v d.rd (bit_or-lt 32 _ _ (v.regs d.rs1) (v.regs d.rs2))
execute_cpu-IsCpu xor d pc f v = logic v d.rd (bit_xor-lt 32 _ _ (v.regs d.rs1) (v.regs d.rs2))
execute_cpu-IsCpu Opcode.not d pc f v = logic v d.rd (omega arith)
execute_cpu-IsCpu lsl d pc f v = logic v d.rd (shift_left-lt _ _)
execute_cpu-IsCpu lsr d pc f v = logic v d.rd (shift_right-lt _ _ (v.regs d.rs1))
execute_cpu-IsCpu asr d pc f v = logic v d.rd (shift_right_signed-lt _ _ (v.regs d.rs1))
execute_cpu-IsCpu mov d pc f v = set_reg-IsCpu d.rd v (v.regs d.rs1)
execute_cpu-IsCpu cmp d pc f v = cmp_lem v _ _
execute_cpu-IsCpu cmpi d pc f v = cmp_lem v _ _
execute_cpu-IsCpu callr d pc f v =
    set_reg-IsCpu 15 (set_reg-IsCpu d.rd v (v.regs 15)) (v.regs d.rs1)
execute_cpu-IsCpu addc d pc f v = addc_lem v d.rd _ _
execute_cpu-IsCpu subc d pc f v = subc_lem v d.rd _ _
execute_cpu-IsCpu lui d pc f v = set_reg-IsCpu d.rd v (u32-lt _)
execute_cpu-IsCpu rolr d pc f v = logic v d.rd (rotate_left-lt _ _ (v.regs d.rs1))
execute_cpu-IsCpu rorr d pc f v = logic v d.rd (rotate_right-lt _ _ (v.regs d.rs1))
execute_cpu-IsCpu roli d pc f v = logic v d.rd (rotate_left-lt _ _ (v.regs d.rs1))
execute_cpu-IsCpu rori d pc f v = logic v d.rd (rotate_right-lt _ _ (v.regs d.rs1))
execute_cpu-IsCpu lslr d pc f v = logic v d.rd (shift_left-lt _ _)
execute_cpu-IsCpu lsrr d pc f v = logic v d.rd (shift_right-lt _ _ (v.regs d.rs1))
execute_cpu-IsCpu asrr d pc f v = logic v d.rd (shift_right_signed-lt _ _ (v.regs d.rs1))
execute_cpu-IsCpu mul d pc f v = mul_result-IsCpu v d.rd (u32-lt _)
execute_cpu-IsCpu mulh d pc f v = mul_result-IsCpu v d.rd (u32-lt _)
execute_cpu-IsCpu mulhu d pc f v = mul_result-IsCpu v d.rd (u32-lt _)
execute_cpu-IsCpu addi d pc f v = add_lem v d.rd _ _
execute_cpu-IsCpu subi d pc f v = sub_lem v d.rd _ _
execute_cpu-IsCpu andi d pc f v = logic v d.rd (and-lt _ _ (v.regs d.rs1))
execute_cpu-IsCpu ori d pc f v =
    logic v d.rd (bit_or-lt 32 _ _ (v.regs d.rs1) (let h = f.imm16 in omega arith))
execute_cpu-IsCpu xori d pc f v =
    logic v d.rd (bit_xor-lt 32 _ _ (v.regs d.rs1) (let h = f.imm16 in omega arith))
execute_cpu-IsCpu lsli d pc f v = logic v d.rd (shift_left-lt _ _)
execute_cpu-IsCpu lsri d pc f v = logic v d.rd (shift_right-lt _ _ (v.regs d.rs1))
execute_cpu-IsCpu asri d pc f v = logic v d.rd (shift_right_signed-lt _ _ (v.regs d.rs1))
execute_cpu-IsCpu movi d pc f v = set_reg-IsCpu d.rd v (let h = f.imm16 in omega arith)
execute_cpu-IsCpu movhi d pc f v =
    set_reg-IsCpu d.rd v (bit_or-lt 32 _ _ (and-lt _ _ (v.regs d.rd)) (u32-lt _))
execute_cpu-IsCpu jmp d pc f v = set_reg-IsCpu 15 (set_reg-IsCpu d.rd v (v.regs 15)) (u32-lt _)
execute_cpu-IsCpu halt d pc f v = record { regs = v.regs; words = let w = v.words in ground arith }
execute_cpu-IsCpu op d pc f v = tt
