-- ===== src/Emulator/Run.antt =====
-- `cpu_run` without the debugger: the `switch`, one round of the loop, and the loop.
use cputwo.Base.{
  ℕ, Bool, true, false, ◌||◌, Option, none, some, List, [], ◌∷◌, if◌then◌else◌, bit_and, bit_or,
  bit_xor, ◌<<<◌, u32, add32, not32, test,
}
use cputwo.Emulator.Machine.{Cpu, Machine, Host, set_reg, with_cpu}
use cputwo.Emulator.Exception.{fault}
use cputwo.Emulator.Mmu.{tlb_flush_all}
use cputwo.Emulator.Access.{
  cpu_read32, cpu_read16, cpu_read8, cpu_write32, cpu_write16, cpu_write8, cpu_fetch,
}
use cputwo.Emulator.Device.{tick_and_poll, housekeeping}
use cputwo.Emulator.Decode.{
  Opcode, add, sub, and, or, xor, lsl, lsr, asr, mul, div, lw, sw, branch, jmp, movi, syscall,
  sysret, halt, movhi, addi, subi, andi, ori, xori, lsli, lsri, asri, lh, lhu, lb, lbu, sh, sb,
  mulh, mulhu, divu, rem, remu, mov, cmp, cmpi, callr, addc, subc, lslr, lsrr, asrr, lwx, lbx, lbux,
  swx, sbx, lhx, lhux, shx, lui, rolr, rorr, roli, rori, cas, sfence, kret, Fields, opcode_of,
  decode, sext16, sext8,
}
use cputwo.Emulator.Alu.{
  logic_result, mul_result, exec_add, exec_sub, exec_cmp, exec_addc, exec_subc, shift_left,
  shift_right, shift_right_signed, rotate_left, rotate_right, mul_low, mul_high, mul_high_signed,
  div_signed, rem_signed,
}
use Prim.Native.Nat.{◌/◌, ◌%◌}
use cputwo.Emulator.Execute.{
  load_result, at_offset, exec_div, exec_div_signed, exec_cas, exec_sfence, exec_branch,
  exec_syscall, exec_sysret, exec_kret,
}

-- The cases that touch registers and flags only; `pc` is the instruction's own address.
unfoldable pub execute_cpu : Opcode → Fields → ℕ → Cpu → Option Cpu
execute_cpu add d pc c = some (exec_add c d.rd (c.r d.rs1) (c.r d.rs2))
execute_cpu sub d pc c = some (exec_sub c d.rd (c.r d.rs1) (c.r d.rs2))
execute_cpu and d pc c = some (logic_result c d.rd (bit_and (c.r d.rs1) (c.r d.rs2)))
execute_cpu or d pc c = some (logic_result c d.rd (bit_or (c.r d.rs1) (c.r d.rs2)))
execute_cpu xor d pc c = some (logic_result c d.rd (bit_xor (c.r d.rs1) (c.r d.rs2)))
execute_cpu Opcode.not d pc c = some (logic_result c d.rd (not32 (c.r d.rs1)))
execute_cpu lsl d pc c = some (logic_result c d.rd (shift_left (c.r d.rs1) d.shift))
execute_cpu lsr d pc c = some (logic_result c d.rd (shift_right (c.r d.rs1) d.shift))
execute_cpu asr d pc c = some (logic_result c d.rd (shift_right_signed (c.r d.rs1) d.shift))
execute_cpu mov d pc c = some (set_reg c d.rd (c.r d.rs1))
execute_cpu cmp d pc c = some (exec_cmp c (c.r d.rs1) (c.r d.rs2))
execute_cpu cmpi d pc c = some (exec_cmp c (c.r d.rs1) d.imm16)
execute_cpu callr d pc c = some (set_reg (set_reg c d.rd (c.r 15)) 15 (c.r d.rs1))
execute_cpu addc d pc c = some (exec_addc c d.rd (c.r d.rs1) (c.r d.rs2))
execute_cpu subc d pc c = some (exec_subc c d.rd (c.r d.rs1) (c.r d.rs2))
execute_cpu lui d pc c = some (set_reg c d.rd (u32 (d.imm16 <<< 16)))
execute_cpu rolr d pc c =
    some (logic_result c d.rd (rotate_left (c.r d.rs1) (bit_and (c.r d.rs2) 0x1f)))
execute_cpu rorr d pc c =
    some (logic_result c d.rd (rotate_right (c.r d.rs1) (bit_and (c.r d.rs2) 0x1f)))
execute_cpu roli d pc c = some (logic_result c d.rd (rotate_left (c.r d.rs1) d.shift))
execute_cpu rori d pc c = some (logic_result c d.rd (rotate_right (c.r d.rs1) d.shift))
execute_cpu lslr d pc c =
    some (logic_result c d.rd (shift_left (c.r d.rs1) (bit_and (c.r d.rs2) 0x1f)))
execute_cpu lsrr d pc c =
    some (logic_result c d.rd (shift_right (c.r d.rs1) (bit_and (c.r d.rs2) 0x1f)))
execute_cpu asrr d pc c =
    some (logic_result c d.rd (shift_right_signed (c.r d.rs1) (bit_and (c.r d.rs2) 0x1f)))
execute_cpu mul d pc c = some (mul_result c d.rd (mul_low (c.r d.rs1) (c.r d.rs2)))
execute_cpu mulh d pc c = some (mul_result c d.rd (mul_high_signed (c.r d.rs1) (c.r d.rs2)))
execute_cpu mulhu d pc c = some (mul_result c d.rd (mul_high (c.r d.rs1) (c.r d.rs2)))
execute_cpu addi d pc c = some (exec_add c d.rd (c.r d.rs1) d.simm)
execute_cpu subi d pc c = some (exec_sub c d.rd (c.r d.rs1) d.simm)
execute_cpu andi d pc c = some (logic_result c d.rd (bit_and (c.r d.rs1) d.imm16))
execute_cpu ori d pc c = some (logic_result c d.rd (bit_or (c.r d.rs1) d.imm16))
execute_cpu xori d pc c = some (logic_result c d.rd (bit_xor (c.r d.rs1) d.imm16))
execute_cpu lsli d pc c = some (logic_result c d.rd (shift_left (c.r d.rs1) (bit_and d.imm16 0x1f)))
execute_cpu lsri d pc c =
    some (logic_result c d.rd (shift_right (c.r d.rs1) (bit_and d.imm16 0x1f)))
execute_cpu asri d pc c =
    some (logic_result c d.rd (shift_right_signed (c.r d.rs1) (bit_and d.imm16 0x1f)))
execute_cpu movi d pc c = some (set_reg c d.rd d.imm16)
execute_cpu movhi d pc c =
    some (set_reg c d.rd (bit_or (bit_and (c.r d.rd) 0xffff) (u32 (d.imm16 <<< 16))))
execute_cpu jmp d pc c = some (set_reg (set_reg c d.rd (c.r 15)) 15 (add32 pc d.soff))
execute_cpu halt d pc c = some (record c { halted = true })
execute_cpu op d pc c = none

-- The other cases.
unfoldable pub execute_memory : Host → Opcode → Fields → ℕ → Machine → Machine
execute_memory h lw d pc m = at_offset m d (λ a. load_result (λ v. v) d.rd (cpu_read32 m a))
execute_memory h lh d pc m = at_offset m d (λ a. load_result sext16 d.rd (cpu_read16 m a))
execute_memory h lhu d pc m = at_offset m d (λ a. load_result (λ v. v) d.rd (cpu_read16 m a))
execute_memory h lb d pc m = at_offset m d (λ a. load_result sext8 d.rd (cpu_read8 m a))
execute_memory h lbu d pc m = at_offset m d (λ a. load_result (λ v. v) d.rd (cpu_read8 m a))
execute_memory h sw d pc m = at_offset m d (λ a. cpu_write32 h m a (m.cpu.r d.rd))
execute_memory h sh d pc m = at_offset m d (λ a. cpu_write16 h m a (bit_and (m.cpu.r d.rd) 0xffff))
execute_memory h sb d pc m = at_offset m d (λ a. cpu_write8 h m a (bit_and (m.cpu.r d.rd) 0xff))
execute_memory h lwx d pc m =
    load_result (λ v. v) d.rd (cpu_read32 m (add32 (m.cpu.r d.rs1) (m.cpu.r d.rs2)))
execute_memory h lbx d pc m =
    load_result sext8 d.rd (cpu_read8 m (add32 (m.cpu.r d.rs1) (m.cpu.r d.rs2)))
execute_memory h lbux d pc m =
    load_result (λ v. v) d.rd (cpu_read8 m (add32 (m.cpu.r d.rs1) (m.cpu.r d.rs2)))
execute_memory h lhx d pc m =
    load_result sext16 d.rd (cpu_read16 m (add32 (m.cpu.r d.rs1) (m.cpu.r d.rs2)))
execute_memory h lhux d pc m =
    load_result (λ v. v) d.rd (cpu_read16 m (add32 (m.cpu.r d.rs1) (m.cpu.r d.rs2)))
execute_memory h swx d pc m = cpu_write32 h m (add32 (m.cpu.r d.rs1) (m.cpu.r d.rs2)) (m.cpu.r d.rd)
execute_memory h sbx d pc m =
    cpu_write8 h m (add32 (m.cpu.r d.rs1) (m.cpu.r d.rs2)) (bit_and (m.cpu.r d.rd) 0xff)
execute_memory h shx d pc m =
    cpu_write16 h m (add32 (m.cpu.r d.rs1) (m.cpu.r d.rs2)) (bit_and (m.cpu.r d.rd) 0xffff)
execute_memory h div d pc m = exec_div_signed div_signed m d.rd (m.cpu.r d.rs1) (m.cpu.r d.rs2)
execute_memory h rem d pc m = exec_div_signed rem_signed m d.rd (m.cpu.r d.rs1) (m.cpu.r d.rs2)
execute_memory h divu d pc m = exec_div ◌/◌ m d.rd (m.cpu.r d.rs1) (m.cpu.r d.rs2)
execute_memory h remu d pc m = exec_div ◌%◌ m d.rd (m.cpu.r d.rs1) (m.cpu.r d.rs2)
execute_memory h cas d pc m = exec_cas h m d
execute_memory h sfence d pc m = exec_sfence m
execute_memory h branch d pc m = exec_branch m d pc
execute_memory h syscall d pc m = exec_syscall m
execute_memory h sysret d pc m = exec_sysret m
execute_memory h kret d pc m = exec_kret m
execute_memory h op d pc m = fault m 0x00

unfoldable pub execute : Host → Opcode → Fields → ℕ → Machine → Machine
execute h op d pc m = elim (execute_cpu op d pc m.cpu) [
  | some c ↦ with_cpu m c
  | none ↦ execute_memory h op d pc m
]

-- KRET in supervisor mode goes on to the next round with no interrupt check.
unfoldable pub skips_check : Opcode → Cpu → Bool
skips_check kret c = test c.status 1
skips_check op c = false

-- The rest of a round, once `instr` is fetched.
unfoldable pub dispatch : Host → ℕ → ℕ → Machine → Machine
dispatch h pc instr m =
    let d = decode instr in
    let m0 = with_cpu m (set_reg m.cpu 15 (add32 pc 4)) in
    let m' = execute h (opcode_of d.op) d pc m0 in
    if m'.exited
    then m'
    else if skips_check (opcode_of d.op) m0.cpu
    then tick_and_poll h m'
    else housekeeping h m'

unfoldable pub after_fetch : Host → ℕ → Option ℕ × Machine → Machine
after_fetch h pc (none, m) = housekeeping h m
after_fetch h pc (some instr, m) = dispatch h pc instr m

-- One round of the loop.
unfoldable pub cpu_step : Host → Machine → Machine
cpu_step h m =
    let pc = m.cpu.r 15 in
    after_fetch h pc (cpu_fetch (with_cpu m (record (m.cpu) { faulting_pc = pc })) pc)

-- The loop, for as many rounds as there are answers of the host.
unfoldable pub cpu_run : List Host → Machine → Machine
cpu_run [] m = m
cpu_run (h ∷ hs) m =
    let rest = cpu_run hs (cpu_step h m) in if m.cpu.halted || m.exited then m else rest

-- `cpu_reset`: everything is 0 but the two status words.
unfoldable pub cpu_reset : Machine → Machine
cpu_reset m = record m {
  cpu = record {
    r = λ i. 0;
    flags = 0;
    epc = 0;
    eflags = 0;
    evec = 0;
    cause = 0;
    status = 1;
    halted = false;
    estatus = 2;
    uart_poll_divider = 0;
    faulting_pc = 0;
    satp = 0;
    badaddr = 0;
    uart_control = 0;
    uart_rx_ready = false;
    uart_rx_byte = 0;
    timer_period = 0;
    timer_count = 0;
    timer_control = 0;
    ic_pending = 0;
    ic_mask = 0;
    blk_sector = 0;
    blk_buffer = 0;
    blk_status = 0;
    blk_control = 0;
    blk_file = false;
  };
  tlb = tlb_flush_all m.tlb;
}
