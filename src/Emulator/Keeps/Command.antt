-- ===== src/Emulator/Keeps/Command.antt =====
-- The registers that a store to a device changes, the block command included.
use cputwo.Base.{
  ℕ, ◌-◌, ◌^◌, ◌<◌, ◌≡◌, false, not, ◌==◌, if◌then◌else◌, bit_and, not32, test, if_intro, refl,
  arith,
}
use cputwo.Base.Bits.{bit_or-lt}
use cputwo.Emulator.Machine.{
  Cpu, Machine, Host, uart_base, timer_base, ic_base, blk_base, sv_base, with_cpu, emit,
  no_block_file, wait_input, put_char,
}
use cputwo.Emulator.Mmu.{tlb_flush_non_global}
use cputwo.Emulator.Mmio.{
  within, sv_write, uart_write, timer_write, ic_write, blk_transfer_read, blk_transfer_write,
  blk_interrupt, blk_command, blk_write, mmio_write,
}
use cputwo.Emulator.Keeps.Invariant.{
  IsCpu, IsValid, IsHost, Keeps, Quiet-refl, Quiet-Keeps, with_cpu-Keeps, emit-Keeps,
}
use cputwo.Emulator.Keeps.Trap.{fault-Quiet, and-lt}
use cputwo.Emulator.Keeps.Mmu.{tlb_flush_non_global-entries}
use cputwo.Emulator.Keeps.Mmio.{status_cpu, blk_transfer_read-Keeps, blk_transfer_write-Keeps}

blk_interrupt-IsCpu : {c : Cpu} → IsCpu c → IsCpu (blk_interrupt c)
unfolding blk_interrupt
blk_interrupt-IsCpu {c} v =
    let w = v.words in
    let up = bit_or-lt 32 c.ic_pending 8 w.ic_pending (omega arith) in
    if_intro IsCpu (test c.blk_control 1)
      (λ e. record { regs = v.regs; words = ground (arith, up) }) (λ e. v)

-- A later state with one more change of the processor alone.
Keeps-with_cpu : {m m' : Machine} {c : Cpu} → Keeps m m' → IsCpu c → Keeps m (with_cpu m' c)
unfolding with_cpu
Keeps-with_cpu k w = record {
  valid = record { cpu = w; bytes = k.valid.bytes; entries = k.valid.entries };
  outside = k.outside;
}

module _ (h : Host) (answers : IsHost h) {m : Machine} (v : IsValid m) where
  busy : Machine
  busy = with_cpu m (record (m.cpu) { blk_status = 1 })

  busy-IsValid : IsValid busy
  unfolding busy with_cpu
  busy-IsValid = record {
    cpu = status_cpu h answers v (omega arith);
    bytes = v.bytes;
    entries = v.entries;
  }

  -- What holds from the busy state on holds from the state before.
  from_busy : {m' : Machine} → Keeps busy m' → Keeps m m'
  unfolding busy with_cpu
  from_busy k = record { valid = k.valid; outside = k.outside }

  transfer-Keeps :
      (val : ℕ)
      → test m.cpu.blk_buffer 0x1ff ≡ false
      → Keeps m (
          if val == 1
          then blk_transfer_read h busy
          else if val == 2
          then blk_transfer_write h busy
          else busy)
  unfolding busy with_cpu
  transfer-Keeps val aligned =
      if_intro (Keeps m) (val == 1)
        (λ e. from_busy (blk_transfer_read-Keeps h answers busy-IsValid aligned))
        λ e.
          if_intro (Keeps m) (val == 2)
            (λ e'. from_busy (blk_transfer_write-Keeps h answers busy-IsValid))
            (λ e'. from_busy (Quiet-Keeps (Quiet-refl busy-IsValid)))

  blk_command-Keeps : (val : ℕ) → Keeps m (blk_command h m val)
  unfolding blk_command busy
  blk_command-Keeps val =
      if_intro (Keeps m) (not m.cpu.blk_file)
        (λ e. emit-Keeps no_block_file (with_cpu-Keeps v (status_cpu h answers v (omega arith))))
        λ e.
          if_intro (Keeps m) (test m.cpu.blk_buffer 0x1ff)
            (λ e'. with_cpu-Keeps v (status_cpu h answers v (omega arith)))
            λ aligned.
              let k = transfer-Keeps val aligned in
              Keeps-with_cpu k (blk_interrupt-IsCpu k.valid.cpu)

  module _ (val : ℕ) (word : val < 2 ^ 32) where
    blk_write-Keeps : (off : ℕ) → Keeps m (blk_write h m off val)
    unfolding blk_write
    blk_write-Keeps off =
        let w = v.cpu.words in
        if_intro (Keeps m) (off == 0x00)
          (λ a. with_cpu-Keeps v (record { regs = v.cpu.regs; words = ground arith }))
          λ a.
            if_intro (Keeps m) (off == 0x04)
              (λ b. with_cpu-Keeps v (record { regs = v.cpu.regs; words = ground arith }))
              λ b.
                if_intro (Keeps m) (off == 0x08) (λ c. blk_command-Keeps val)
                  λ c.
                    if_intro (Keeps m) (off == 0x10)
                      (λ d. with_cpu-Keeps v (record { regs = v.cpu.regs; words = ground arith }))
                      (λ d. Quiet-Keeps (Quiet-refl v))

    timer_write-IsCpu : (off : ℕ) → IsCpu (timer_write m.cpu off val)
    unfolding timer_write
    timer_write-IsCpu off =
        let w = v.cpu.words in
        if_intro IsCpu (off == 0x00) (λ a. record { regs = v.cpu.regs; words = ground arith })
          λ a.
            if_intro IsCpu (off == 0x04) (λ b. record { regs = v.cpu.regs; words = ground arith })
              (λ b. v.cpu)

    ic_write-IsCpu : (off : ℕ) → IsCpu (ic_write m.cpu off val)
    unfolding ic_write
    ic_write-IsCpu off =
        let w = v.cpu.words in
        let down = and-lt m.cpu.ic_pending (not32 val) w.ic_pending in
        if_intro IsCpu (off == 0x04) (λ a. record { regs = v.cpu.regs; words = ground arith })
          λ a.
            if_intro IsCpu (off == 0x08)
              (λ b. record { regs = v.cpu.regs; words = ground (arith, down) }) (λ b. v.cpu)

    uart_write-Keeps : (off : ℕ) → Keeps m (uart_write m off val)
    unfolding uart_write
    uart_write-Keeps off =
        let w = v.cpu.words in
        let up = bit_or-lt 32 m.cpu.ic_pending 4 w.ic_pending (omega arith) in
        if_intro (Keeps m) (off == 0x04)
          (λ a. emit-Keeps (put_char (bit_and val 0xff)) (
            with_cpu-Keeps v (
              if_intro IsCpu (test m.cpu.uart_control 2)
                (λ t. record { regs = v.cpu.regs; words = ground (arith, up) }) (λ t. v.cpu))))
          λ a.
            if_intro (Keeps m) (off == 0x0c)
              (λ b. with_cpu-Keeps v (record { regs = v.cpu.regs; words = ground arith }))
              (λ b. Quiet-Keeps (Quiet-refl v))

    -- One register of the supervisor replaced.
    sv_write-Keeps : (off : ℕ) → Keeps m (sv_write m off val)
    unfolding sv_write
    sv_write-Keeps off =
        let w = v.cpu.words in
        let P = Keeps m in
        if_intro P (off == 0x00)
          (λ a. with_cpu-Keeps v (record { regs = v.cpu.regs; words = ground arith }))
          λ a.
            if_intro P (off == 0x04)
              (λ b. with_cpu-Keeps v (record { regs = v.cpu.regs; words = ground arith }))
              λ b.
                if_intro P (off == 0x08)
                  (λ c. with_cpu-Keeps v (record { regs = v.cpu.regs; words = ground arith }))
                  λ c.
                    if_intro P (off == 0x10)
                      (λ d. with_cpu-Keeps v (record { regs = v.cpu.regs; words = ground arith }))
                      (λ d. sv_write_rest off)
      where
        satp_written :
            Keeps m
              (record m { cpu = record (m.cpu) { satp = val }; tlb = tlb_flush_non_global m.tlb })
        satp_written = record {
          valid = record {
            cpu = record { regs = v.cpu.regs; words = let w = v.cpu.words in ground arith };
            bytes = v.bytes;
            entries = tlb_flush_non_global-entries v.entries;
          };
          outside = λ ok a far. refl;
        }

        sv_write_rest :
            (off : ℕ)
            → Keeps m (
                if off == 0x14
                then with_cpu m (record (m.cpu) { estatus = val })
                else if off == 0x18
                then record m {
                  cpu = record (m.cpu) { satp = val };
                  tlb = tlb_flush_non_global m.tlb;
                }
                else if off == 0x20
                then emit m wait_input
                else m)
        sv_write_rest off =
            let w = v.cpu.words in
            if_intro (Keeps m) (off == 0x14)
              (λ a. with_cpu-Keeps v (record { regs = v.cpu.regs; words = ground arith }))
              λ a.
                if_intro (Keeps m) (off == 0x18) (λ b. satp_written)
                  λ b.
                    if_intro (Keeps m) (off == 0x20)
                      (λ c. emit-Keeps wait_input (Quiet-Keeps (Quiet-refl v)))
                      (λ c. Quiet-Keeps (Quiet-refl v))

    pub mmio_write-Keeps : (addr : ℕ) → Keeps m (mmio_write h m addr val)
    unfolding mmio_write
    mmio_write-Keeps addr =
        let P = Keeps m in
        if_intro P (within sv_base 0x21 addr)
          (λ a.
            if_intro P (not (test m.cpu.status 1))
              (λ b. Quiet-Keeps (fault-Quiet 0x02 (omega arith) v))
              (λ b. sv_write-Keeps (addr - sv_base)))
          λ a.
            if_intro P (within uart_base 0x10 addr) (λ b. uart_write-Keeps (addr - uart_base))
              λ b.
                if_intro P (within timer_base 0x08 addr)
                  (λ c. with_cpu-Keeps v (timer_write-IsCpu (addr - timer_base)))
                  λ c.
                    if_intro P (within ic_base 0x0c addr)
                      (λ d. with_cpu-Keeps v (ic_write-IsCpu (addr - ic_base)))
                      λ d.
                        if_intro P (within blk_base 0x14 addr)
                          (λ e. blk_write-Keeps (addr - blk_base)) (λ e. Quiet-Keeps (Quiet-refl v))
