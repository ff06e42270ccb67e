-- ===== src/Emulator/Machine.antt =====
-- The state of emulator.c: `CPU`, the arrays `mem` and `tlb`, and what a step asks of the host.
use cputwo.Base.{ℕ, Bool, Option, List, ◌∷◌, update}

abbrev pub mem_size : ℕ
mem_size = 0x04000000

abbrev pub mmio_base : ℕ
mmio_base = 0x03f00000

abbrev pub uart_base : ℕ
uart_base = 0x03f00000

abbrev pub timer_base : ℕ
timer_base = 0x03f01000

abbrev pub ic_base : ℕ
ic_base = 0x03f02000

abbrev pub blk_base : ℕ
blk_base = 0x03f03000

abbrev pub sv_base : ℕ
sv_base = 0x03fff000

abbrev pub tlb_size : ℕ
tlb_size = 64

-- `mem[i]`. The array has `mem_size` bytes: an index from there on stands for the memory of the
-- emulator's own process behind the array, where C leaves an access undefined.
abbrev pub Memory : Type 0
Memory = ℕ → ℕ

pub record TlbEntry : Type 0 where
  pub va_tag : ℕ
  pub pa : ℕ
  pub flags : ℕ
  pub valid : Bool
  pub global : Bool
  pub superpage : Bool
  pub sp_pa_base : ℕ

-- `CPU`, with `blk_file` as whether a file is open.
pub record Cpu : Type 0 where
  pub r : ℕ → ℕ
  pub flags : ℕ
  pub epc : ℕ
  pub eflags : ℕ
  pub evec : ℕ
  pub cause : ℕ
  pub status : ℕ
  pub halted : Bool
  pub estatus : ℕ
  pub uart_poll_divider : ℕ
  pub faulting_pc : ℕ
  pub satp : ℕ
  pub badaddr : ℕ
  pub uart_control : ℕ
  pub uart_rx_ready : Bool
  pub uart_rx_byte : ℕ
  pub timer_period : ℕ
  pub timer_count : ℕ
  pub timer_control : ℕ
  pub ic_pending : ℕ
  pub ic_mask : ℕ
  pub blk_sector : ℕ
  pub blk_buffer : ℕ
  pub blk_status : ℕ
  pub blk_control : ℕ
  pub blk_file : Bool

-- The calls of the C library and of the system that a run makes, as events; `undefined` is an
-- operation that C leaves undefined.
pub data Effect : Type 0 where
  put_char : ℕ → Effect
  wait_input : Effect
  no_block_file : Effect
  seek : ℕ → Effect
  read_sector : Effect
  write_sector : List ℕ → Effect
  suspend : Effect
  quit : Effect
  undefined : Effect

-- The whole state: `cpu`, `mem`, `tlb`, `escape_pending`, whether the process has ended, by
-- `exit` or by an undefined operation, and the calls made so far, the latest first.
pub record Machine : Type 0 where
  pub cpu : Cpu
  pub mem : Memory
  pub tlb : ℕ → TlbEntry
  pub escape_pending : Bool
  pub exited : Bool
  pub trace : List Effect

-- What the host answers to the calls of one step: whether `fseek` returns 0, the bytes that
-- `fread` stores, the count that `fwrite` returns, whether `select` finds input, and the byte
-- that `read` returns.
pub record Host : Type 0 where
  pub seek_ok : Bool
  pub fread : List ℕ
  pub fwrite : ℕ
  pub input_ready : Bool
  pub input : Option ℕ

-- `cpu->r[i] = v`
unfoldable pub set_reg : Cpu → ℕ → ℕ → Cpu
set_reg c i v = record c { r = update c.r i v }

-- `cpu->flags = v`
unfoldable pub set_flags : Cpu → ℕ → Cpu
set_flags c v = record c { flags = v }

unfoldable pub with_cpu : Machine → Cpu → Machine
with_cpu m c = record m { cpu = c }

unfoldable pub emit : Machine → Effect → Machine
emit m e = record m { trace = e ∷ m.trace }
