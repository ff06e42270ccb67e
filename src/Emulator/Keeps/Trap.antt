-- ===== src/Emulator/Keeps/Trap.antt =====
-- Entering a handler and coming back from it, the timer, the terminal and the interrupt check.
use cputwo.Base.{
  ℕ, ◌+◌, ◌*◌, ◌^◌, ◌<◌, ◌≡◌, Bool, true, false, ◌||◌, Option, none, some, ltb, leb, ◌==◌,
  if◌then◌else◌, bit_and, u32, update_all, refl, arith, not32, if_intro, add32,
}
use cputwo.Base.Bits.{bit_or-lt, bit_and-le}
use cputwo.Emulator.Machine.{Cpu, Machine, Host, Memory, mem_size, with_cpu, suspend, quit}
use cputwo.Emulator.Memory.Words.{IsBytes, mem_read32-lt}
use cputwo.Emulator.Exception.{handler, raise_exception, fault}
use cputwo.Emulator.Device.{
  timer_tick, interrupt_check, read_one, deliver, receive, receive_escaped, receive_option,
  uart_poll, tick_and_poll, housekeeping,
}
use cputwo.Emulator.Execute.{exec_syscall, return_to, exec_sysret, exec_kret}
use cputwo.Emulator.Keeps.Invariant.{
  IsCpu, IsValid, Quiet, Quiet-refl, Quiet-trans, with_cpu-Quiet, emit-Quiet,
}

pub and-lt : (a b : ℕ) → a < 2 ^ 32 → bit_and a b < 2 ^ 32
and-lt a b h = omega (arith, bit_and-le a a b)

pub handler-lt : (mem : Memory) (c : Cpu) (cause : ℕ) → IsBytes mem → handler mem c cause < 2 ^ 32
unfolding handler
handler-lt mem c cause h =
    if_intro (λ (w : ℕ). w < 2 ^ 32) (ltb (add32 c.evec (u32 (cause * 4))) mem_size)
      (λ e. mem_read32-lt mem _ h) (λ e. omega arith)

pub raise_exception-IsCpu :
    (mem : Memory) {c : Cpu} (cause : ℕ)
    → IsBytes mem
    → cause < 2 ^ 32
    → IsCpu c
    → IsCpu (raise_exception mem c cause)
unfolding raise_exception
raise_exception-IsCpu mem {c} cause h small v = record {
  regs = update_all (λ (w : ℕ). w < 2 ^ 32) c.r 15 _ (handler-lt mem c cause h) v.regs;
  words = let w = v.words in ground arith;
}

pub fault-Quiet : {m : Machine} (cause : ℕ) → cause < 2 ^ 32 → IsValid m → Quiet m (fault m cause)
unfolding fault raise_exception
fault-Quiet {m} cause small v =
    with_cpu-Quiet v (raise_exception-IsCpu m.mem cause v.bytes small v.cpu) refl

pub exec_syscall-Quiet : {m : Machine} → IsValid m → Quiet m (exec_syscall m)
unfolding exec_syscall
exec_syscall-Quiet {m} v =
    let c = v.cpu in
    with_cpu-Quiet v
      (record {
        regs =
            update_all (λ (w : ℕ). w < 2 ^ 32) m.cpu.r 15 _ (handler-lt m.mem m.cpu 3 v.bytes)
              c.regs;
        words = let w = c.words in let pc = c.regs 15 in ground arith;
      })
      refl

return_to-IsCpu : {c : Cpu} {s : ℕ} → IsCpu c → s < 2 ^ 32 → IsCpu (return_to c s)
unfolding return_to
return_to-IsCpu {c} v h = record {
  regs = update_all (λ (w : ℕ). w < 2 ^ 32) c.r 15 _ (v.words.epc) v.regs;
  words = let w = v.words in ground arith;
}

return_to-Quiet :
    {m : Machine} {s : ℕ} → IsValid m → s < 2 ^ 32 → Quiet m (with_cpu m (return_to m.cpu s))
unfolding return_to
return_to-Quiet v h = with_cpu-Quiet v (return_to-IsCpu v.cpu h) refl

pub exec_sysret-Quiet : {m : Machine} → IsValid m → Quiet m (exec_sysret m)
unfolding exec_sysret
exec_sysret-Quiet {m} v =
    if_intro (Quiet m) _ (λ e. fault-Quiet 0x00 (omega arith) v)
      λ e. return_to-Quiet v (and-lt m.cpu.estatus (not32 1) v.cpu.words.estatus)

pub exec_kret-Quiet : {m : Machine} → IsValid m → Quiet m (exec_kret m)
unfolding exec_kret
exec_kret-Quiet {m} v =
    if_intro (Quiet m) _ (λ e. fault-Quiet 0x00 (omega arith) v)
      λ e. return_to-Quiet v v.cpu.words.estatus

timer_tick-IsCpu :
    {c : Cpu} → IsCpu c → IsCpu (timer_tick c) × ((timer_tick c).blk_buffer ≡ c.blk_buffer)
unfolding timer_tick
timer_tick-IsCpu {c} v =
    let w = v.words in
    let up = bit_or-lt 32 c.ic_pending 1 w.ic_pending (omega arith) in
    (record { regs = by_cases; words = ground (arith, up) }, ground arith)
  where
    by_cases : (i : ℕ) → (timer_tick c).r i < 2 ^ 32
    by_cases i = ground (arith, v.regs i)

interrupt_check-IsCpu :
    (mem : Memory) {c : Cpu}
    → IsBytes mem
    → IsCpu c
    → IsCpu (interrupt_check mem c) × ((interrupt_check mem c).blk_buffer ≡ c.blk_buffer)
unfolding interrupt_check raise_exception
interrupt_check-IsCpu mem {c} h v =
    let w = v.words in
    let pc = v.regs 15 in (record { regs = by_cases; words = ground arith }, ground arith)
  where
    entered : (i : ℕ) → (raise_exception mem (record c { faulting_pc = c.r 15 }) 6).r i < 2 ^ 32
    entered =
        update_all (λ (w : ℕ). w < 2 ^ 32) c.r 15 _
          (handler-lt mem (record c { faulting_pc = c.r 15 }) 6 h) v.regs

    by_cases : (i : ℕ) → (interrupt_check mem c).r i < 2 ^ 32
    by_cases i = ground (arith, v.regs i, entered i)

deliver-Quiet : {m : Machine} (ch : ℕ) → IsValid m → Quiet m (deliver m ch)
unfolding deliver
deliver-Quiet {m} ch v =
    let w = v.cpu.words in
    let up = bit_or-lt 32 m.cpu.ic_pending 2 w.ic_pending (omega arith) in
    with_cpu-Quiet v (record { regs = v.cpu.regs; words = ground (arith, up) }) refl

-- A change of the two flags outside the processor.
marks-Quiet :
    {m m' : Machine} (pending ended : Bool)
    → Quiet m m'
    → Quiet m (record m' { escape_pending = pending; exited = ended })
marks-Quiet pending ended q = record {
  valid = record { cpu = q.valid.cpu; bytes = q.valid.bytes; entries = q.valid.entries };
  outside = q.outside;
  buffer = q.buffer;
}

receive_escaped-Quiet : {m : Machine} (ch : ℕ) → IsValid m → Quiet m (receive_escaped m ch)
unfolding receive_escaped
receive_escaped-Quiet {m} ch v =
    if_intro (Quiet m) (ch == b'z' || ch == b'Z') (λ e. emit-Quiet suspend (Quiet-refl v))
      λ e.
        if_intro (Quiet m) (ch == b'x' || ch == b'X')
          (λ e'. emit-Quiet quit (marks-Quiet m.escape_pending true (Quiet-refl v)))
          (λ e'. deliver-Quiet (if ch == b'a' then 1 else ch) v)

receive-Quiet : {m : Machine} (ch : ℕ) → IsValid m → Quiet m (receive m ch)
unfolding receive
receive-Quiet {m} ch v =
    if_intro (Quiet m) _
      (λ e.
        let q = marks-Quiet false m.exited (Quiet-refl v) in
        Quiet-trans q (receive_escaped-Quiet ch q.valid))
      λ e.
        if_intro (Quiet m) (ch == 1) (λ e'. marks-Quiet true m.exited (Quiet-refl v))
          (λ e'. deliver-Quiet ch v)

uart_poll-Quiet : (h : Host) {m : Machine} → IsValid m → Quiet m (uart_poll h m)
unfolding uart_poll
uart_poll-Quiet h {m} v = if_intro (Quiet m) _ (λ e. Quiet-refl v) (λ e. of_option (read_one h))
  where
    of_option : (o : Option ℕ) → Quiet m (receive_option m o)
    of_option none = unfold receive_option in Quiet-refl v
    of_option (some ch) = unfold receive_option in receive-Quiet ch v

pub tick_and_poll-Quiet : (h : Host) {m : Machine} → IsValid m → Quiet m (tick_and_poll h m)
unfolding tick_and_poll
tick_and_poll-Quiet h {m} v =
    let (t, same) = timer_tick-IsCpu v.cpu in
    let n = u32 ((timer_tick m.cpu).uart_poll_divider + 1) in
    let divided : (k : ℕ)
        → k < 2 ^ 32
        → Quiet m (with_cpu m (record (timer_tick m.cpu) { uart_poll_divider = k })) =
      λ k small.
        with_cpu-Quiet v (record { regs = t.regs; words = let w = t.words in ground arith }) same in
    if_intro (Quiet m) (leb 1000 n)
      (λ e. let q = divided 0 (omega arith) in Quiet-trans q (uart_poll-Quiet h q.valid))
      (λ e. divided n (omega arith))

pub housekeeping-Quiet : (h : Host) {m : Machine} → IsValid m → Quiet m (housekeeping h m)
unfolding housekeeping
housekeeping-Quiet h {m} v =
    let q = tick_and_poll-Quiet h v in
    let m' = tick_and_poll h m in
    let i = interrupt_check-IsCpu m'.mem q.valid.bytes q.valid.cpu in
    if_intro (Quiet m) (m'.exited || m'.cpu.halted) (λ e. q)
      (λ e. Quiet-trans q (with_cpu-Quiet q.valid i.0 i.1))
