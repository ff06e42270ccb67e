-- ===== src/Emulator/Tests.antt =====
-- Small runs of the model on inputs that can be followed in emulator.c.
mod Witnesses
mod Values
use cputwo.Base.{ℕ, ◌+◌, ◌≡◌, refl, true, false, none, List, [], ◌∷◌, update}
use cputwo.Base.Int.{sum_overflows, ◌+ℤ◌}
use cputwo.Emulator.Machine.{
  undefined, Machine, Host, TlbEntry, Memory, set_reg, set_flags, with_cpu, emit,
}
use cputwo.Emulator.Memory.{mem_read32, mem_read16, mem_read8, mem_write32, mem_write16, mem_write8}
use cputwo.Emulator.Exception.{handler, raise_exception, fault}
use cputwo.Emulator.Flags.{
  nz, nzcv, add_overflow, sub_overflow, update_flags_nz, clear_cv, update_flags_add,
  update_flags_sub,
}
use cputwo.Emulator.Mmu.{
  page_fault, permitted, page_address, superpage_address, hit_address, tlb_hit, dirtied,
  write_dirty, walk_leaf, bad_pte_address, l1_pte_address, l2_pte_address, walk_l2, page_walk,
  mmu_translate, tlb_flush_non_global, tlb_flush_all,
}
use cputwo.Emulator.Mmio.{
  sv_register, uart_read, timer_read, ic_read, blk_read, mmio_read, sv_write, uart_write,
  timer_write, ic_write, store_bytes, bytes_at, transfer_ok, blk_transfer_read, blk_transfer_write,
  blk_interrupt, blk_command, blk_write, mmio_write,
}
use cputwo.Emulator.Access.{
  device_read, read32_at, read16_at, read8_at, write32_at, write16_at, write8_at, after_load,
  after_store, cpu_read32, cpu_read16, cpu_read8, cpu_write32, cpu_write16, cpu_write8, fetch_at,
  cpu_fetch,
}
use cputwo.Emulator.Device.{
  timer_tick, interrupt_check, read_one, deliver, receive, receive_escaped, receive_option,
  uart_poll, tick_and_poll, housekeeping,
}
use cputwo.Emulator.Decode.{opcode_of, decode, sext16, sext8, sext20}
use cputwo.Emulator.Alu.{
  logic_result, mul_result, exec_add, exec_sub, exec_cmp, exec_addc, exec_subc, shift_left,
  shift_right, shift_right_signed, rotate_left, rotate_right, mul_low, mul_high, mul_high_signed,
  div_signed, rem_signed, div_undefined, taken,
}
use cputwo.Emulator.Execute.{
  load_result, at_offset, exec_div, exec_div_signed, cas_store, cas_swap, exec_cas, exec_sfence,
  exec_branch, exec_syscall, return_to, exec_sysret, exec_kret,
}
use cputwo.Emulator.Run.{
  execute_cpu, execute_memory, execute, skips_check, dispatch, after_fetch, cpu_step, cpu_run,
  cpu_reset,
}

abbrev pub no_entry : TlbEntry
no_entry = record {
  va_tag = 0;
  pa = 0;
  flags = 0;
  valid = false;
  global = false;
  superpage = false;
  sp_pa_base = 0;
}

abbrev pub idle : Host
idle = record { seek_ok = true; fread = []; fwrite = 0; input_ready = false; input = none }

abbrev pub rounds : ℕ → List Host
rounds = elim [ ℕ.zero ↦ [] | ℕ.suc (n → hs) ↦ idle ∷ hs ]

-- A program as words from address 0 on.
store_words : Memory → ℕ → List ℕ → Memory
store_words mem addr [] = mem
store_words mem addr (w ∷ ws) = store_words (mem_write32 mem addr w) (addr + 4) ws

abbrev pub blank : Machine
blank = record {
  cpu = record {
    r = λ i. 0;
    flags = 0;
    epc = 0;
    eflags = 0;
    evec = 0;
    cause = 0;
    status = 0;
    halted = false;
    estatus = 0;
    uart_poll_divider = 0;
    faulting_pc = 0;
    satp = 0;
    badaddr = 0;
    uart_control = 0;
    uart_rx_ready = false;
    uart_rx_byte = 0;
    timer_period = 0;
    timer_count = 0;
    timer_control = 0;
    ic_pending = 0;
    ic_mask = 0;
    blk_sector = 0;
    blk_buffer = 0;
    blk_status = 0;
    blk_control = 0;
    blk_file = false;
  };
  mem = λ i. 0;
  tlb = λ i. no_entry;
  escape_pending = false;
  exited = false;
  trace = [];
}

-- What a run computes with.
unfoldable run_program : List ℕ → ℕ → Machine
unfolding update set_reg set_flags with_cpu emit mem_read32 mem_read16 mem_read8 mem_write32
    mem_write16 mem_write8 handler raise_exception fault nz nzcv add_overflow sub_overflow
    update_flags_nz clear_cv update_flags_add update_flags_sub page_fault permitted page_address
    superpage_address hit_address tlb_hit dirtied write_dirty walk_leaf bad_pte_address
    l1_pte_address l2_pte_address walk_l2 page_walk mmu_translate tlb_flush_non_global tlb_flush_all
    sv_register uart_read timer_read ic_read blk_read mmio_read sv_write uart_write timer_write
    ic_write store_bytes bytes_at transfer_ok blk_transfer_read blk_transfer_write blk_interrupt
    blk_command blk_write mmio_write device_read read32_at read16_at read8_at write32_at write16_at
    write8_at after_load after_store cpu_read32 cpu_read16 cpu_read8 cpu_write32 cpu_write16
    cpu_write8 fetch_at cpu_fetch timer_tick interrupt_check read_one deliver receive
    receive_escaped receive_option uart_poll tick_and_poll housekeeping opcode_of decode sext16
    sext8 sext20 logic_result mul_result exec_add exec_sub exec_cmp exec_addc exec_subc shift_left
    shift_right shift_right_signed rotate_left rotate_right mul_low mul_high mul_high_signed
    div_signed rem_signed div_undefined taken load_result at_offset sum_overflows ◌+ℤ◌ exec_div
    exec_div_signed cas_store cas_swap exec_cas exec_sfence exec_branch exec_syscall return_to
    exec_sysret exec_kret execute_cpu execute_memory execute skips_check dispatch after_fetch
    cpu_step cpu_run cpu_reset store_words
run_program ws n = cpu_run (rounds n) (record (cpu_reset blank) { mem = store_words (λ i. 0) 0 ws })

-- MOVI r0, 5; MOVI r1, 7; ADD r2, r0, r1; HALT
add_runs :
    let c = (run_program (0x0f000005 ∷ 0x0f100007 ∷ 0x00201000 ∷ 0x12000000 ∷ []) 9).cpu in
    (c.r 2 ≡ 12) × (c.halted ≡ true) × (c.r 15 ≡ 16)
unfolding run_program
add_runs = (refl, refl, refl)

-- MOVI r1, 0xffff; MOVHI r1, 0x7fff; LW r0, [r1+4]: the address overflows an `int32_t`.
address_overflows :
    let m = run_program (0x0f10ffff ∷ 0x13107fff ∷ 0x0b010004 ∷ []) 9 in
    (m.exited ≡ true) × (m.trace ≡ undefined ∷ [])
unfolding run_program
address_overflows = (refl, refl)

-- The word ADD r1, r1, r2 at address 0, and registers that hold 5.
abbrev pub adding_memory : Memory
adding_memory = mem_write32 (λ i. 0) 0 0x00112000

abbrev pub adding : Machine
adding = record blank { mem = adding_memory; cpu = record (blank.cpu) { r = update (λ i. 5) 15 0 } }

-- One round leaves the buffer register of the block device alone.
pub adding_buffer : (cpu_step idle adding).cpu.blk_buffer ≡ 0
unfolding run_program
adding_buffer = refl
