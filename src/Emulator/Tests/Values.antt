-- ===== src/Emulator/Tests/Values.antt =====
-- The theorems on words, traps and the timer of emulator.c at concrete values.
use cputwo.Base.{
  ℕ, ◌≢◌, ◌%◌, ◌/◌, ◌+◌, ◌*◌, ◌^◌, ◌-◌, ◌≡◌, inl, true, false, not, ◌↔◌, refl, test, update, arith,
  bit_and, ltb, ◌==◌, not32,
}
use cputwo.Base.Int.{pos, negsuc, ltb_ℤ, signed32, ◌+ℤ◌}
use cputwo.Emulator.Machine.{Machine, Cpu, with_cpu}
use cputwo.Emulator.Memory.{mem_read32, mem_read16, mem_read8, mem_write32, mem_write16, mem_write8}
use cputwo.Emulator.Memory.Words.{mem_write32-IsBytes}
use cputwo.Emulator.Memory.RoundTrip.{mem_read-mem_write}
use cputwo.Emulator.Exception.{raise_exception, fault}
use cputwo.Emulator.Flags.{flag_c, flag_v}
use cputwo.Emulator.Device.{interrupt_check}
use cputwo.Emulator.Device.Timer.{ticks, expired, timer_tick-period}
use cputwo.Emulator.Alu.{
  exec_add, exec_sub, exec_addc, exec_subc, rotate_left, rotate_right, exec_cmp, taken,
}
use cputwo.Emulator.Alu.Compare.{taken-exec_cmp}
use cputwo.Emulator.Alu.Wide.{exec_addc-exec_add, exec_subc-exec_sub, overflow_flag_iff}
use cputwo.Emulator.Alu.Rotate.{rotate_right-rotate_left}
use cputwo.Emulator.Execute.Division.{Quotient, execute_division}
use cputwo.Emulator.Decode.{Fields, decode, opcode_of}
use cputwo.Emulator.Run.{execute}
use cputwo.Emulator.Execute.{exec_syscall, exec_sysret, exec_kret}
use cputwo.Emulator.Execute.Resume.{
  Untouched, resumed, exec_kret-fault, exec_kret-interrupt_check, exec_sysret-exec_syscall,
}
use cputwo.Emulator.Tests.{blank, idle, adding_memory}
use cputwo.Emulator.Tests.Witnesses.{zero-IsBytes}

mem_read-mem_write_example :
    (mem_read32 (mem_write32 adding_memory 2 0x12345678) 2 ≡ 0x12345678)
    × (mem_read16 (mem_write16 adding_memory 2 0xbeef) 2 ≡ 0xbeef)
    × (mem_read8 (mem_write8 adding_memory 2 0x7f) 2 ≡ 0x7f)
    × (mem_write32 adding_memory 2 0x12345678 1 ≡ adding_memory 1)
mem_read-mem_write_example =
    mem_read-mem_write adding_memory 2 0x12345678 0xbeef 0x7f 1
      (mem_write32-IsBytes (λ i. 0) 0 0x00112000 zero-IsBytes) (omega arith) (omega arith)
      (omega arith) (inl (omega arith))

timer_tick-period_example :
    let c = record (blank.cpu) { timer_control = 3; timer_period = 10; timer_count = 4 } in
    ticks 4 c ≡ expired c
timer_tick-period_example =
    timer_tick-period (record (blank.cpu) { timer_control = 3; timer_period = 10; timer_count = 4 })
      4 refl (omega arith) (omega arith)

-- The low words of 0x1_ffffffff and 0x0_00000001 carry into the high words.
exec_addc-exec_add_example :
    let c = exec_addc (exec_add blank.cpu 0 0xffffffff 1) 1 1 0 in
    let sum = (0xffffffff + 1 * 2 ^ 32) + (1 + 0 * 2 ^ 32) in
    (c.r 0 + c.r 1 * 2 ^ 32 ≡ sum % 2 ^ 64) × (test c.flags flag_c ≡ ltb 0xffffffffffffffff sum)
exec_addc-exec_add_example =
    exec_addc-exec_add blank.cpu 0 1 0xffffffff 1 1 0 (λ e. absurd (ground arith)) (omega arith)
      (omega arith)

rotate_right-rotate_left_example :
    (rotate_left 0x80000001 4 ≡ 0x80000001 % 2 ^ (32 - 4) * 2 ^ 4 + 0x80000001 / 2 ^ (32 - 4))
    × (rotate_right (rotate_left 0x80000001 4) 4 ≡ 0x80000001)
rotate_right-rotate_left_example = rotate_right-rotate_left 4 0x80000001 (omega arith) (omega arith)

-- A load that has faulted at 0x100, and a handler that has changed r3.
abbrev faulting : Machine
faulting = record blank {
  cpu = record (blank.cpu) { faulting_pc = 0x100; flags = 0x80000000; status = 2 };
}

abbrev handled : Machine → Machine
handled m = record m { cpu = record (m.cpu) { r = update m.cpu.r 3 9; flags = 0; faulting_pc = 8 } }

fault-Untouched : Untouched (fault faulting 8).cpu (handled (fault faulting 8)).cpu
unfolding fault raise_exception with_cpu
fault-Untouched = record { epc = refl; eflags = refl; estatus = refl; supervisor = refl }

exec_kret-fault_example :
    exec_kret (handled (fault faulting 8)) ≡ resumed (handled (fault faulting 8)) 0x100 0x80000000 2
exec_kret-fault_example = exec_kret-fault faulting (handled (fault faulting 8)) 8 fault-Untouched

abbrev interrupted : Cpu
interrupted = record (blank.cpu) {
  status = 2;
  ic_pending = 1;
  ic_mask = 1;
  flags = 0x40000000;
  r = λ i. 0x200;
}

abbrev interrupt_handled : Machine
interrupt_handled = handled (record blank { cpu = interrupt_check (λ i. 0) interrupted })

interrupt_check-Untouched : Untouched (interrupt_check (λ i. 0) interrupted) interrupt_handled.cpu
unfolding interrupt_check raise_exception
interrupt_check-Untouched = record { epc = refl; eflags = refl; estatus = refl; supervisor = refl }

exec_kret-interrupt_check_example :
    exec_kret interrupt_handled ≡ resumed interrupt_handled 0x200 0x40000000 2
exec_kret-interrupt_check_example =
    exec_kret-interrupt_check (λ i. 0) interrupted interrupt_handled refl
      (λ e. absurd (ground arith)) interrupt_check-Untouched

exec_syscall-Untouched : Untouched (exec_syscall faulting).cpu (handled (exec_syscall faulting)).cpu
unfolding exec_syscall with_cpu
exec_syscall-Untouched = record { epc = refl; eflags = refl; estatus = refl; supervisor = refl }

exec_sysret-exec_syscall_example :
    exec_sysret (handled (exec_syscall faulting))
    ≡ resumed (handled (exec_syscall faulting)) 0 0x80000000 (bit_and 2 (not32 1))
exec_sysret-exec_syscall_example =
    exec_sysret-exec_syscall faulting (handled (exec_syscall faulting)) exec_syscall-Untouched

exec_subc-exec_sub_example :
    let c = exec_subc (exec_sub blank.cpu 0 0 1) 1 2 0 in
    let a = 0 + 2 * 2 ^ 32 in
    let b = 1 + 0 * 2 ^ 32 in
    (c.r 0 + c.r 1 * 2 ^ 32 ≡ (a + 2 ^ 64 - b) % 2 ^ 64) × (test c.flags flag_c ≡ ltb a b)
exec_subc-exec_sub_example =
    exec_subc-exec_sub blank.cpu 0 1 0 2 1 0 (λ e. absurd (ground arith)) (omega arith)
      (omega arith) (omega arith) (omega arith)

overflow_flag_iff_example :
    let s = exec_add blank.cpu 3 0x7fffffff 1 in
    let d = exec_sub blank.cpu 3 0x7fffffff 1 in
    ((test s.flags flag_v ≡ false) ↔ (signed32 (s.r 3) ≡ signed32 0x7fffffff +ℤ signed32 1))
    × ((test d.flags flag_v ≡ false) ↔ (signed32 (d.r 3) +ℤ signed32 1 ≡ signed32 0x7fffffff))
overflow_flag_iff_example = overflow_flag_iff blank.cpu 3 0x7fffffff 1 (omega arith) (omega arith)

-- The least word and 1, whose signed difference overflows.
taken-exec_cmp_example :
    let flags = (exec_cmp blank.cpu 0x80000000 1).flags in
    let less = ltb_ℤ (signed32 0x80000000) (signed32 1) in
    let greater = ltb_ℤ (signed32 1) (signed32 0x80000000) in
    (taken flags 0 ≡ (0x80000000 == 1))
    × (taken flags 1 ≡ not (0x80000000 == 1))
    × (taken flags 2 ≡ less)
    × (taken flags 3 ≡ not less)
    × (taken flags 4 ≡ ltb 0x80000000 1)
    × (taken flags 5 ≡ not (ltb 0x80000000 1))
    × (taken flags 6 ≡ true)
    × (taken flags 7 ≡ greater)
    × (taken flags 8 ≡ not greater)
    × (taken flags 9 ≡ ltb 1 0x80000000)
    × (taken flags 10 ≡ not (ltb 1 0x80000000))
taken-exec_cmp_example = taken-exec_cmp blank.cpu 0x80000000 1 (omega arith) (omega arith)

-- The fields of DIV r3, r1, r2, and a machine with -7 and 2 in r1 and r2.
abbrev quotient_fields : Fields
quotient_fields = decode 0x0a312000

abbrev dividing : Machine
dividing = with_cpu blank (record (blank.cpu) { r = update (update (λ i. 0) 1 0xfffffff9) 2 2 })

execute_division_example :
    let m1 = execute idle (opcode_of 0x0a) quotient_fields 0 dividing in
    let m2 = execute idle (opcode_of 0x25) quotient_fields 0 dividing in
    Quotient (negsuc 6) (pos 2) (signed32 (m1.cpu.r 3)) (signed32 (m2.cpu.r 3))
    × ((j : ℕ) → 3 ≢ j → (m1.cpu.r j ≡ dividing.cpu.r j) × (m2.cpu.r j ≡ dividing.cpu.r j))
    × (m1.mem ≡ dividing.mem)
    × (m2.mem ≡ dividing.mem)
unfolding decode update with_cpu
execute_division_example =
    execute_division idle dividing quotient_fields 0 (omega arith) (omega arith)
      (λ e. absurd (ground arith)) (λ e. absurd (ground arith))
