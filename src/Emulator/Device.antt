-- ===== src/Emulator/Device.antt =====
-- What runs between two instructions: the timer, the poll of the terminal, the interrupt check.
pub mod Timer
use cputwo.Base.{
  ℕ, ◌-◌, true, false, not, ◌||◌, Option, none, some, ltb, leb, ◌==◌, if◌then◌else◌, bit_and,
  bit_or, test, add32, u8,
}
use cputwo.Emulator.Machine.{Memory, Cpu, Machine, Host, suspend, quit, with_cpu, emit}
use cputwo.Emulator.Exception.{raise_exception}

unfoldable pub timer_tick : Cpu → Cpu
timer_tick c =
    if not (test c.timer_control 1)
    then c
    else let count = if ltb 0 c.timer_count then c.timer_count - 1 else c.timer_count in
      if count == 0
      then record c {
        timer_count = c.timer_period;
        ic_pending = if test c.timer_control 2 then bit_or c.ic_pending 1 else c.ic_pending;
      }
      else record c { timer_count = count }

-- The interrupt is taken before the next instruction, so that is the address to come back to.
unfoldable pub interrupt_check : Memory → Cpu → Cpu
interrupt_check mem c =
    if not (test c.status 2)
    then c
    else if bit_and c.ic_pending c.ic_mask == 0
    then c
    else let saved = c.faulting_pc in
      let entered = raise_exception mem (record c { faulting_pc = c.r 15 }) 0x06 in
      record entered { faulting_pc = saved }

-- `read_one`: a byte of input, or none for its -1.
unfoldable pub read_one : Host → Option ℕ
read_one h = if h.input_ready then h.input else none

-- `cpu->uart_rx_byte = c` and its interrupt.
unfoldable pub deliver : Machine → ℕ → Machine
deliver m ch =
    let c = m.cpu in
    with_cpu m (record c {
      uart_rx_byte = u8 ch;
      uart_rx_ready = true;
      ic_pending = if test c.uart_control 1 then bit_or c.ic_pending 2 else c.ic_pending;
    })

-- The byte behind a Ctrl-A.
unfoldable pub receive_escaped : Machine → ℕ → Machine
receive_escaped m ch =
    if ch == b'z' || ch == b'Z'
    then emit m suspend
    else if ch == b'x' || ch == b'X'
    then emit (record m { exited = true }) quit
    else deliver m (if ch == b'a' then 1 else ch)

-- A byte that was read: Ctrl-A is the prefix of a command to the emulator.
unfoldable pub receive : Machine → ℕ → Machine
receive m ch =
    if m.escape_pending
    then receive_escaped (record m { escape_pending = false }) ch
    else if ch == 1
    then record m { escape_pending = true }
    else deliver m ch

unfoldable pub receive_option : Machine → Option ℕ → Machine
receive_option m none = m
receive_option m (some ch) = receive m ch

unfoldable pub uart_poll : Host → Machine → Machine
uart_poll h m = if m.cpu.uart_rx_ready then m else receive_option m (read_one h)

-- `timer_tick(cpu); if (++cpu->uart_poll_divider >= 1000) { … uart_poll(cpu); }`
unfoldable pub tick_and_poll : Host → Machine → Machine
tick_and_poll h m =
    let c = timer_tick m.cpu in
    let n = add32 c.uart_poll_divider 1 in
    if leb 1000 n
    then uart_poll h (with_cpu m (record c { uart_poll_divider = 0 }))
    else with_cpu m (record c { uart_poll_divider = n })

-- The housekeeping after an instruction. A process that called `exit` does nothing more.
unfoldable pub housekeeping : Host → Machine → Machine
housekeeping h m =
    let m' = tick_and_poll h m in
    if m'.exited || m'.cpu.halted then m' else with_cpu m' (interrupt_check m'.mem m'.cpu)
