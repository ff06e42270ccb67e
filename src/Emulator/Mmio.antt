-- ===== src/Emulator/Mmio.antt =====
-- `mmio_read` and `mmio_write`: the supervisor registers and the devices. Of the switches, an
-- offset that has no case reads 0 and writes nothing.
use cputwo.Base.{
  ℕ, zero, suc, ◌+◌, ◌-◌, ◌*◌, Bool, false, not, ◌&&◌, List, [], ◌∷◌, length, ltb, leb, ◌==◌,
  if◌then◌else◌, bit_and, bit_or, not32, add32, test, update,
}
use cputwo.Emulator.Machine.{
  Memory, Cpu, Machine, Host, put_char, wait_input, no_block_file, seek, read_sector, write_sector,
  mem_size, uart_base, timer_base, ic_base, blk_base, sv_base, with_cpu, emit,
}
use cputwo.Emulator.Exception.{raise_exception, fault}
use cputwo.Emulator.Mmu.{tlb_flush_non_global}

-- `first <= addr && addr < first + size`
abbrev pub within : ℕ → ℕ → ℕ → Bool
within first size addr = leb first addr && ltb addr (first + size)

unfoldable pub sv_register : Cpu → ℕ → ℕ
sv_register c off =
    if off == 0x00
    then c.epc
    else if off == 0x04
    then c.eflags
    else if off == 0x08
    then c.evec
    else if off == 0x0c
    then c.cause
    else if off == 0x10
    then c.status
    else if off == 0x14
    then c.estatus
    else if off == 0x18
    then c.satp
    else if off == 0x1c
    then c.badaddr
    else 0

-- Reading RX takes the buffered byte.
unfoldable pub uart_read : Cpu → ℕ → ℕ × Cpu
uart_read c off =
    if off == 0x00
    then (bit_or 1 (if c.uart_rx_ready then 2 else 0), c)
    else if off == 0x08
    then (if c.uart_rx_ready then (c.uart_rx_byte, record c { uart_rx_ready = false }) else (0, c))
    else if off == 0x0c
    then (c.uart_control, c)
    else (0, c)

unfoldable pub timer_read : Cpu → ℕ → ℕ
timer_read c off = if off == 0x00 then c.timer_count else if off == 0x04 then c.timer_control else 0

unfoldable pub ic_read : Cpu → ℕ → ℕ
ic_read c off = if off == 0x00 then c.ic_pending else if off == 0x04 then c.ic_mask else 0

unfoldable pub blk_read : Cpu → ℕ → ℕ
blk_read c off =
    if off == 0x00
    then c.blk_sector
    else if off == 0x04
    then c.blk_buffer
    else if off == 0x0c
    then c.blk_status
    else if off == 0x10
    then c.blk_control
    else 0

unfoldable pub mmio_read : Memory → Cpu → ℕ → ℕ × Cpu
mmio_read mem c addr =
    if within sv_base 0x1d addr
    then (if not (test c.status 1)
        then (0, raise_exception mem c 0x02)
        else (sv_register c (addr - sv_base), c))
    else if within uart_base 0x10 addr
    then uart_read c (addr - uart_base)
    else if within timer_base 0x08 addr
    then (timer_read c (addr - timer_base), c)
    else if within ic_base 0x0c addr
    then (ic_read c (addr - ic_base), c)
    else if within blk_base 0x14 addr
    then (blk_read c (addr - blk_base), c)
    else (0, c)

-- Writing SATP flushes the entries that are not global; offset 0x20 waits for input.
unfoldable pub sv_write : Machine → ℕ → ℕ → Machine
sv_write m off val =
    let c = m.cpu in
    if off == 0x00
    then with_cpu m (record c { epc = val })
    else if off == 0x04
    then with_cpu m (record c { eflags = val })
    else if off == 0x08
    then with_cpu m (record c { evec = val })
    else if off == 0x10
    then with_cpu m (record c { status = val })
    else if off == 0x14
    then with_cpu m (record c { estatus = val })
    else if off == 0x18
    then record m { cpu = record c { satp = val }; tlb = tlb_flush_non_global m.tlb }
    else if off == 0x20
    then emit m wait_input
    else m

unfoldable pub uart_write : Machine → ℕ → ℕ → Machine
uart_write m off val =
    let c = m.cpu in
    if off == 0x04
    then emit
        (with_cpu m
          (if test c.uart_control 2 then record c { ic_pending = bit_or c.ic_pending 4 } else c))
        (put_char (bit_and val 0xff))
    else if off == 0x0c
    then with_cpu m (record c { uart_control = val })
    else m

unfoldable pub timer_write : Cpu → ℕ → ℕ → Cpu
timer_write c off val =
    if off == 0x00
    then record c { timer_period = val; timer_count = val }
    else if off == 0x04
    then record c { timer_control = val }
    else c

unfoldable pub ic_write : Cpu → ℕ → ℕ → Cpu
ic_write c off val =
    if off == 0x04
    then record c { ic_mask = val }
    else if off == 0x08
    then record c { ic_pending = bit_and c.ic_pending (not32 val) }
    else c

-- `fread(mem + addr, 1, 512, file)`: the bytes that the host delivers go to memory. The pointer
-- is not a `uint32_t`: it does not wrap.
unfoldable pub store_bytes : Memory → ℕ → List ℕ → Memory
store_bytes mem addr [] = mem
store_bytes mem addr (b ∷ bs) = store_bytes (update mem addr b) (addr + 1) bs

-- The bytes that `fwrite(mem + addr, 1, n, file)` is given.
unfoldable pub bytes_at : Memory → ℕ → ℕ → List ℕ
bytes_at mem addr zero = []
bytes_at mem addr (suc n) = mem addr ∷ bytes_at mem (addr + 1) n

-- Both `fseek` succeeds and the buffer's end, as a `uint32_t`, is in memory. `fseek` runs first.
unfoldable pub transfer_ok : Host → Cpu → Bool
transfer_ok h c = h.seek_ok && leb (add32 c.blk_buffer 512) mem_size

unfoldable pub blk_transfer_read : Host → Machine → Machine
blk_transfer_read h m =
    let c = m.cpu in
    let m' = emit m (seek (c.blk_sector * 512)) in
    if transfer_ok h c
    then emit
        (record m' {
          mem = store_bytes m.mem c.blk_buffer h.fread;
          cpu = record c { blk_status = if length h.fread == 512 then 0 else 2 };
        })
        read_sector
    else with_cpu m' (record c { blk_status = 2 })

unfoldable pub blk_transfer_write : Host → Machine → Machine
blk_transfer_write h m =
    let c = m.cpu in
    let m' = emit m (seek (c.blk_sector * 512)) in
    if transfer_ok h c
    then emit (with_cpu m' (record c { blk_status = if h.fwrite == 512 then 0 else 2 }))
        (write_sector (bytes_at m.mem c.blk_buffer 512))
    else with_cpu m' (record c { blk_status = 2 })

-- `if (cpu->blk_control & 1) cpu->ic_pending |= 0x08;`
unfoldable pub blk_interrupt : Cpu → Cpu
blk_interrupt c =
    if test c.blk_control 1 then record c { ic_pending = bit_or c.ic_pending 8 } else c

-- The command register. With no file, or a buffer that is not aligned, it stops before the
-- interrupt.
unfoldable pub blk_command : Host → Machine → ℕ → Machine
blk_command h m val =
    let c = m.cpu in
    if not c.blk_file
    then emit (with_cpu m (record c { blk_status = 2 })) no_block_file
    else if test c.blk_buffer 0x1ff
    then with_cpu m (record c { blk_status = 2 })
    else let busy = with_cpu m (record c { blk_status = 1 }) in
      let m' =
        if val == 1
        then blk_transfer_read h busy
        else if val == 2
        then blk_transfer_write h busy
        else busy in
      with_cpu m' (blk_interrupt m'.cpu)

unfoldable pub blk_write : Host → Machine → ℕ → ℕ → Machine
blk_write h m off val =
    let c = m.cpu in
    if off == 0x00
    then with_cpu m (record c { blk_sector = val })
    else if off == 0x04
    then with_cpu m (record c { blk_buffer = val })
    else if off == 0x08
    then blk_command h m val
    else if off == 0x10
    then with_cpu m (record c { blk_control = val })
    else m

unfoldable pub mmio_write : Host → Machine → ℕ → ℕ → Machine
mmio_write h m addr val =
    if within sv_base 0x21 addr
    then (if not (test m.cpu.status 1) then fault m 0x02 else sv_write m (addr - sv_base) val)
    else if within uart_base 0x10 addr
    then uart_write m (addr - uart_base) val
    else if within timer_base 0x08 addr
    then with_cpu m (timer_write m.cpu (addr - timer_base) val)
    else if within ic_base 0x0c addr
    then with_cpu m (ic_write m.cpu (addr - ic_base) val)
    else if within blk_base 0x14 addr
    then blk_write h m (addr - blk_base) val
    else m
