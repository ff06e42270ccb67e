-- ===== src/Emulator/Keeps/Step.antt =====
-- A whole round of `cpu_run`.
use cputwo.Base.{◌≢◌, ℕ, ◌^◌, ◌<◌, Option, none, some, add32, bit_and, if_intro, refl, arith}
use cputwo.Base.Bits.{bit_and_mask}
use cputwo.Emulator.Machine.{Cpu, Machine, Host, set_reg, with_cpu}
use cputwo.Emulator.Access.{cpu_read32, cpu_read16, cpu_read8, cpu_fetch}
use cputwo.Emulator.Decode.{
  Opcode, div, lw, sw, branch, syscall, sysret, lh, lhu, lb, lbu, sh, sb, divu, rem, remu, lwx, lbx,
  lbux, swx, sbx, lhx, lhux, shx, cas, sfence, kret, Fields, opcode_of, decode, sext16, sext8,
}
use cputwo.Emulator.Alu.{div_signed, rem_signed}
use cputwo.Emulator.Execute.{load_result}
use cputwo.Emulator.Run.{
  execute_cpu, execute_memory, execute, skips_check, dispatch, after_fetch, cpu_step,
}
use cputwo.Emulator.Keeps.Invariant.{
  SameOutside, wrapping_buffer, IsValid, IsHost, Quiet, Keeps, Quiet-trans, Quiet-Keeps,
  Quiet-Keeps-trans, Keeps-Quiet-trans, with_cpu-Keeps, with_cpu-Quiet, set_reg-IsCpu,
}
use cputwo.Emulator.Keeps.Trap.{
  fault-Quiet, exec_syscall-Quiet, exec_sysret-Quiet, exec_kret-Quiet, tick_and_poll-Quiet,
  housekeeping-Quiet,
}
use cputwo.Emulator.Keeps.Alu.{
  IsFields, decode-IsFields, sext16-lt, sext8-lt, OnSome, execute_cpu-IsCpu,
}
use cputwo.Emulator.Keeps.Access.{
  cpu_read32-Reads, cpu_read16-Reads, cpu_read8-Reads, cpu_write32-Keeps, cpu_write16-Keeps,
  cpu_write8-Keeps, cpu_fetch-Quiet,
}
use cputwo.Emulator.Keeps.Execute.{
  load_result-Keeps, at_offset-Keeps, exec_div-Keeps, exec_div_signed-Keeps, div_signed-lt,
  rem_signed-lt, exec_sfence-Keeps, exec_branch-Keeps, exec_cas-Keeps,
}
use native.Mathlib.Nat.{div-le_self, mod-le}
use Prim.Native.Nat.{◌/◌, ◌%◌}

add32-lt : (a b : ℕ) → add32 a b < 2 ^ 32
add32-lt a b = omega arith

byte_of : (x : ℕ) → bit_and x 0xff < 2 ^ 8
byte_of x = omega (arith, bit_and_mask 8 x)

half_of : (x : ℕ) → bit_and x 0xffff < 2 ^ 32
half_of x = omega (arith, bit_and_mask 16 x)

-- The loads, by the width of the access and the extension of the value.
module _ {m : Machine} (v : IsValid m) (rd : ℕ) {a : ℕ} (small : a < 2 ^ 32) where
  load_word : Keeps m (load_result (λ x. x) rd (cpu_read32 m a))
  load_word = load_result-Keeps (λ x. x) rd _ (λ x h. h) (cpu_read32-Reads a small v)

  load_half : Keeps m (load_result (λ x. x) rd (cpu_read16 m a))
  load_half = load_result-Keeps (λ x. x) rd _ (λ x h. omega arith) (cpu_read16-Reads a small v)

  load_half_signed : Keeps m (load_result sext16 rd (cpu_read16 m a))
  load_half_signed = load_result-Keeps sext16 rd _ sext16-lt (cpu_read16-Reads a small v)

  load_byte : Keeps m (load_result (λ x. x) rd (cpu_read8 m a))
  load_byte = load_result-Keeps (λ x. x) rd _ (λ x h. omega arith) (cpu_read8-Reads a small v)

  load_byte_signed : Keeps m (load_result sext8 rd (cpu_read8 m a))
  load_byte_signed = load_result-Keeps sext8 rd _ sext8-lt (cpu_read8-Reads a small v)

module _ (h : Host) (answers : IsHost h) where
  execute_memory-Keeps :
      (op : Opcode) (d : Fields) (pc : ℕ) {m : Machine}
      → IsValid m
      → Keeps m (execute_memory h op d pc m)
  unfolding execute_memory
  execute_memory-Keeps lw d pc v = at_offset-Keeps d _ v (λ a small. load_word v d.rd small)
  execute_memory-Keeps lh d pc v = at_offset-Keeps d _ v (λ a small. load_half_signed v d.rd small)
  execute_memory-Keeps lhu d pc v = at_offset-Keeps d _ v (λ a small. load_half v d.rd small)
  execute_memory-Keeps lb d pc v = at_offset-Keeps d _ v (λ a small. load_byte_signed v d.rd small)
  execute_memory-Keeps lbu d pc v = at_offset-Keeps d _ v (λ a small. load_byte v d.rd small)
  execute_memory-Keeps lwx d pc v = load_word v d.rd (add32-lt _ _)
  execute_memory-Keeps lbx d pc v = load_byte_signed v d.rd (add32-lt _ _)
  execute_memory-Keeps lbux d pc v = load_byte v d.rd (add32-lt _ _)
  execute_memory-Keeps lhx d pc v = load_half_signed v d.rd (add32-lt _ _)
  execute_memory-Keeps lhux d pc v = load_half v d.rd (add32-lt _ _)
  execute_memory-Keeps sw d pc v =
      at_offset-Keeps d _ v (λ a small. cpu_write32-Keeps h answers _ _ small v (v.cpu.regs d.rd))
  execute_memory-Keeps sh d pc v =
      at_offset-Keeps d _ v (λ a small. cpu_write16-Keeps h answers _ _ small v (half_of _))
  execute_memory-Keeps sb d pc v =
      at_offset-Keeps d _ v (λ a small. cpu_write8-Keeps h answers _ _ small v (byte_of _))
  execute_memory-Keeps swx d pc v =
      cpu_write32-Keeps h answers _ _ (add32-lt _ _) v (v.cpu.regs d.rd)
  execute_memory-Keeps sbx d pc v = cpu_write8-Keeps h answers _ _ (add32-lt _ _) v (byte_of _)
  execute_memory-Keeps shx d pc v = cpu_write16-Keeps h answers _ _ (add32-lt _ _) v (half_of _)
  execute_memory-Keeps div d pc v = exec_div_signed-Keeps div_signed d.rd _ _ (div_signed-lt _ _) v
  execute_memory-Keeps rem d pc v = exec_div_signed-Keeps rem_signed d.rd _ _ (rem_signed-lt _ _) v
  execute_memory-Keeps divu d pc {m} v =
      let x = v.cpu.regs d.rs1 in
      exec_div-Keeps ◌/◌ d.rd _ _ (λ nz. omega (arith, div-le_self (m.cpu.r d.rs1) (m.cpu.r d.rs2)))
        v
  execute_memory-Keeps remu d pc {m} v =
      let x = v.cpu.regs d.rs1 in
      exec_div-Keeps ◌%◌ d.rd _ _ (λ nz. omega (arith, mod-le (m.cpu.r d.rs1) (m.cpu.r d.rs2))) v
  execute_memory-Keeps cas d pc v = exec_cas-Keeps h answers d v
  execute_memory-Keeps sfence d pc v = exec_sfence-Keeps v
  execute_memory-Keeps branch d pc v = exec_branch-Keeps d pc v
  execute_memory-Keeps syscall d pc v = Quiet-Keeps (exec_syscall-Quiet v)
  execute_memory-Keeps sysret d pc v = Quiet-Keeps (exec_sysret-Quiet v)
  execute_memory-Keeps kret d pc v = Quiet-Keeps (exec_kret-Quiet v)
  execute_memory-Keeps op d pc v = Quiet-Keeps (fault-Quiet 0x00 (omega arith) v)

  execute-Keeps :
      (op : Opcode) (d : Fields) (pc : ℕ) {m : Machine}
      → IsFields d
      → IsValid m
      → Keeps m (execute h op d pc m)
  unfolding execute
  execute-Keeps op d pc {m} f v =
      by_case (execute_cpu op d pc m.cpu) (execute_cpu-IsCpu op d pc f v.cpu)
    where
      by_case :
          (o : Option Cpu)
          → OnSome o
          → Keeps m (elim o [ some c ↦ with_cpu m c | none ↦ execute_memory h op d pc m ])
      by_case none w = execute_memory-Keeps op d pc v
      by_case (some c) w = with_cpu-Keeps v w

  dispatch-Keeps : (pc instr : ℕ) {m : Machine} → IsValid m → Keeps m (dispatch h pc instr m)
  unfolding dispatch set_reg
  dispatch-Keeps pc instr {m} v =
      let d = decode instr in
      let next = with_cpu-Quiet v (set_reg-IsCpu 15 v.cpu (add32-lt pc 4)) refl in
      let m0 = with_cpu m (set_reg m.cpu 15 (add32 pc 4)) in
      let k =
        Quiet-Keeps-trans next
          (execute-Keeps (opcode_of d.op) d pc (decode-IsFields instr) next.valid) in
      let m' = execute h (opcode_of d.op) d pc m0 in
      if_intro (Keeps m) m'.exited (λ e. k)
        λ e.
          if_intro (Keeps m) (skips_check (opcode_of d.op) m0.cpu)
            (λ e'. Keeps-Quiet-trans k (tick_and_poll-Quiet h k.valid))
            (λ e'. Keeps-Quiet-trans k (housekeeping-Quiet h k.valid))

  -- A whole round.
  pub cpu_step-Keeps : {m : Machine} → IsValid m → Keeps m (cpu_step h m)
  unfolding cpu_step
  cpu_step-Keeps {m} v =
      let pc = m.cpu.r 15 in
      let word = v.cpu.regs 15 in
      let started =
        with_cpu-Quiet {c = record (m.cpu) { faulting_pc = pc }} v
          (record { regs = v.cpu.regs; words = let w = v.cpu.words in ground arith }) refl in
      Quiet-Keeps-trans started (
        fetched pc (cpu_fetch (with_cpu m (record (m.cpu) { faulting_pc = pc })) pc)
          (cpu_fetch-Quiet pc word started.valid))
    where
      fetched :
          {m0 : Machine} (pc : ℕ) (t : Option ℕ × Machine)
          → Quiet m0 t.1
          → Keeps m0 (after_fetch h pc t)
      fetched pc (none, m') q =
          unfold after_fetch in Quiet-Keeps (Quiet-trans q (housekeeping-Quiet h q.valid))
      fetched pc (some instr, m') q =
          unfold after_fetch in Quiet-Keeps-trans q (dispatch-Keeps pc instr q.valid)

-- One round of the loop, from any state of the C types' widths and with answers of the host that
-- are bytes (at most 512 of them from a read), whatever the instruction, the page tables and the
-- devices: every word and byte of the machine stays in its C type, and no byte outside the 64 MB
-- array `mem` is written, if the block device's buffer register does not hold 0xfffffe00.
pub cpu_step-IsValid :
    (h : Host) (m : Machine)
    → IsHost h
    → IsValid m
    → m.cpu.blk_buffer ≢ wrapping_buffer
    → IsValid (cpu_step h m) × SameOutside m.mem (cpu_step h m).mem
cpu_step-IsValid h m answers v buffer =
    let k = cpu_step-Keeps h answers v in (k.valid, k.outside buffer)
