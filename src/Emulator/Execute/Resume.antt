-- ===== src/Emulator/Execute/Resume.antt =====
-- Back from a handler by KRET or SYSRET, after a fault, an interrupt or a system call.
use cputwo.Base.{◌≢◌, ℕ, ◌≡◌, true, false, ◌==◌, bit_and, test, update, not32, refl, arith}
use cputwo.Emulator.Machine.{Memory, Cpu, Machine, with_cpu}
use cputwo.Emulator.Exception.{raise_exception, fault}
use cputwo.Emulator.Device.{interrupt_check}
use cputwo.Emulator.Execute.{exec_syscall, exec_sysret, exec_kret, return_to}

-- What a handler that was entered with `entered` has to leave alone to return from `c`.
pub record Untouched (entered c : Cpu) : Type 0 where
  pub epc : c.epc ≡ entered.epc
  pub eflags : c.eflags ≡ entered.eflags
  pub estatus : c.estatus ≡ entered.estatus
  pub supervisor : test c.status 1 ≡ true

-- The machine `m`, resumed at `pc` with these flags and this status.
abbrev pub resumed : Machine → ℕ → ℕ → ℕ → Machine
resumed m pc flags status =
    with_cpu m (record (m.cpu) { r = update m.cpu.r 15 pc; flags = flags; status = status })

exec_kret-resumed :
    (m : Machine) {entered : Cpu}
    → Untouched entered m.cpu
    → exec_kret m ≡ resumed m entered.epc entered.eflags entered.estatus
unfolding exec_kret return_to
exec_kret-resumed m u = rw (u.supervisor, u.epc, u.eflags, u.estatus) refl

-- After a fault of any cause, KRET in a handler that has left the saved registers alone and is
-- still in supervisor mode goes back to the instruction that faulted, with the flags and the status
-- of the moment of the fault, and with the other registers, the memory, the TLB and the devices as
-- the handler has left them.
pub exec_kret-fault :
    (m m' : Machine) (cause : ℕ)
    → Untouched (fault m cause).cpu m'.cpu
    → exec_kret m' ≡ resumed m' m.cpu.faulting_pc m.cpu.flags m.cpu.status
unfolding fault raise_exception with_cpu
exec_kret-fault m m' cause u = exec_kret-resumed m' u

-- An interrupt that the status enables and the mask lets through is taken between two
-- instructions; KRET in a handler that has left the saved registers alone and is still in
-- supervisor mode then goes on with the instruction that was next, with the flags and the status as
-- they were.
pub exec_kret-interrupt_check :
    (mem : Memory) (c : Cpu) (m' : Machine)
    → test c.status 2 ≡ true
    → bit_and c.ic_pending c.ic_mask ≢ 0
    → Untouched (interrupt_check mem c) m'.cpu
    → exec_kret m' ≡ resumed m' (c.r 15) c.flags c.status
unfolding interrupt_check raise_exception
exec_kret-interrupt_check mem c m' on waiting =
    let some_pending : (bit_and c.ic_pending c.ic_mask == 0) ≡ false = ground arith in
    rw (on, some_pending) (λ u. exec_kret-resumed m' u)

-- After SYSCALL, SYSRET in a handler that has left the saved registers alone and is still in
-- supervisor mode goes on behind the SYSCALL, in user mode, with the flags of the moment of the call and
-- the other bits of its status.
pub exec_sysret-exec_syscall :
    (m m' : Machine)
    → Untouched (exec_syscall m).cpu m'.cpu
    → exec_sysret m' ≡ resumed m' (m.cpu.r 15) m.cpu.flags (bit_and m.cpu.status (not32 1))
unfolding exec_syscall exec_sysret return_to with_cpu
exec_sysret-exec_syscall m m' u = rw (u.supervisor, u.epc, u.eflags, u.estatus) refl
