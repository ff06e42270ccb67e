-- ===== src/Emulator/Execute.antt =====
-- The cases of the `switch` in `cpu_run` that touch more than registers and flags.
pub mod Resume
pub mod Division
use cputwo.Base.{
  ℕ, true, not, ltb, leb, ◌==◌, if◌then◌else◌, bit_and, bit_or, add32, not32, test, update,
}
use cputwo.Base.Int.{sum_overflows}
use cputwo.Emulator.Machine.{
  Cpu, Machine, Host, undefined, mem_size, mmio_base, set_reg, set_flags, with_cpu, emit,
}
use cputwo.Emulator.Memory.{mem_read32, mem_write32}
use cputwo.Emulator.Exception.{handler, fault}
use cputwo.Emulator.Flags.{flag_z}
use cputwo.Emulator.Mmu.{tlb_flush_non_global}
use cputwo.Emulator.Mmio.{mmio_write}
use cputwo.Emulator.Access.{device_read}
use cputwo.Emulator.Decode.{Fields}
use cputwo.Emulator.Alu.{mul_result, div_undefined, taken}

-- `cpu->r[rd] = f(cpu_readN(cpu,a))`: the assignment comes after the access, also after a fault.
unfoldable pub load_result : (ℕ → ℕ) → ℕ → ℕ × Machine → Machine
load_result extend rd (v, m) = with_cpu m (set_reg m.cpu rd (extend v))

-- A load or a store at `(int32_t)cpu->r[rs1]+simm`, a sum of two `int32_t`.
unfoldable pub at_offset : Machine → Fields → (ℕ → Machine) → Machine
at_offset m d access =
    if sum_overflows (m.cpu.r d.rs1) d.simm
    then emit (record m { exited = true }) undefined
    else access (add32 (m.cpu.r d.rs1) d.simm)

-- DIVU and MODU, then DIV and MOD: a zero divisor is exception 0x04.
unfoldable pub exec_div : (ℕ → ℕ → ℕ) → Machine → ℕ → ℕ → ℕ → Machine
exec_div quotient m rd a b =
    if b == 0 then fault m 0x04 else with_cpu m (mul_result m.cpu rd (quotient a b))

unfoldable pub exec_div_signed : (ℕ → ℕ → ℕ) → Machine → ℕ → ℕ → ℕ → Machine
exec_div_signed quotient m rd a b =
    if b == 0
    then fault m 0x04
    else if div_undefined a b
    then emit (record m { exited = true }) undefined
    else with_cpu m (mul_result m.cpu rd (quotient a b))

-- `mmio_write` or `mem_write32`, as CAS chooses.
unfoldable pub cas_store : Host → Machine → ℕ → ℕ → Machine
cas_store h m addr val =
    if leb mmio_base addr
    then mmio_write h m addr val
    else record m { mem = mem_write32 m.mem addr val }

-- CAS on the value `cur` that it has read.
unfoldable pub cas_swap : Host → ℕ → ℕ → ℕ → ℕ × Machine → Machine
cas_swap h rd rs2 addr (cur, m) =
    let m' = cas_store h m addr (m.cpu.r rs2) in
    let c = set_reg m.cpu rd cur in
    if cur == m.cpu.r rd
    then with_cpu m' (set_flags m'.cpu (bit_or m'.cpu.flags flag_z))
    else with_cpu m (set_flags c (bit_and c.flags (not32 flag_z)))

-- CAS uses the address as a physical one.
unfoldable pub exec_cas : Host → Machine → Fields → Machine
exec_cas h m d =
    let addr = m.cpu.r d.rs1 in
    if test addr 3
    then fault m 0x01
    else if leb mem_size addr
    then fault m 0x02
    else cas_swap h d.rd d.rs2 addr
        (if leb mmio_base addr then device_read m addr else (mem_read32 m.mem addr, m))

unfoldable pub exec_sfence : Machine → Machine
exec_sfence m =
    if not (test m.cpu.status 1)
    then fault m 0x00
    else record m { tlb = tlb_flush_non_global m.tlb }

-- A reserved condition is an illegal instruction.
unfoldable pub exec_branch : Machine → Fields → ℕ → Machine
exec_branch m d pc =
    if ltb 10 d.rd
    then fault m 0x00
    else if taken m.cpu.flags d.rd
    then with_cpu m (set_reg m.cpu 15 (add32 pc d.soff))
    else m

unfoldable pub exec_syscall : Machine → Machine
exec_syscall m =
    let c = m.cpu in
    with_cpu m (record c {
      estatus = c.status;
      epc = c.r 15;
      eflags = c.flags;
      cause = 0x03;
      status = 0x01;
      r = update c.r 15 (handler m.mem c 3);
    })

-- The return from a handler, with the status that it leaves.
unfoldable pub return_to : Cpu → ℕ → Cpu
return_to c status = record c { r = update c.r 15 c.epc; flags = c.eflags; status = status }

unfoldable pub exec_sysret : Machine → Machine
exec_sysret m =
    if not (test m.cpu.status 1)
    then fault m 0x00
    else with_cpu m (return_to m.cpu (bit_and m.cpu.estatus (not32 1)))

unfoldable pub exec_kret : Machine → Machine
exec_kret m =
    if not (test m.cpu.status 1) then fault m 0x00 else with_cpu m (return_to m.cpu m.cpu.estatus)
