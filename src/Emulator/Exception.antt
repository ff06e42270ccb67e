-- ===== src/Emulator/Exception.antt =====
-- `raise_exception`: entry to a handler through the vector table in memory.
use cputwo.Base.{ℕ, ◌*◌, ltb, if◌then◌else◌, update, add32, u32}
use cputwo.Emulator.Machine.{Memory, Cpu, Machine, mem_size, with_cpu}
use cputwo.Emulator.Memory.{mem_read32}

-- The handler's address, `mem32[evec + cause * 4]`, or 0 for a vector behind the memory.
unfoldable pub handler : Memory → Cpu → ℕ → ℕ
handler mem c cause =
    let hvec = add32 c.evec (u32 (cause * 4)) in
    if ltb hvec mem_size then mem_read32 mem hvec else 0

unfoldable pub raise_exception : Memory → Cpu → ℕ → Cpu
raise_exception mem c cause = record c {
  estatus = c.status;
  epc = c.faulting_pc;
  eflags = c.flags;
  cause = cause;
  status = 1;
  r = update c.r 15 (handler mem c cause);
}

-- `raise_exception` on the machine.
unfoldable pub fault : Machine → ℕ → Machine
fault m cause = with_cpu m (raise_exception m.mem m.cpu cause)
