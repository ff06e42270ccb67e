-- ===== src/Emulator/Keeps/Invariant.antt =====
-- The invariant, and the two relations between a state and a later one.
use cputwo.Base.{
  ℕ, ◌^◌, ◌≤◌, ◌<◌, ◌≡◌, ◌≢◌, List, [], ◌∷◌, refl, sym, ◌∙◌, update_all, length, arith,
}
use cputwo.Emulator.Machine.{
  Cpu, Machine, TlbEntry, Memory, Host, mem_size, set_reg, set_flags, with_cpu, emit, Effect,
}
use cputwo.Emulator.Memory.Words.{IsBytes}

-- Every `uint32_t` of the processor but the registers, and the buffered byte.
pub record IsWords (c : Cpu) : Type 0 where
  pub flags : c.flags < 2 ^ 32
  pub epc : c.epc < 2 ^ 32
  pub eflags : c.eflags < 2 ^ 32
  pub evec : c.evec < 2 ^ 32
  pub cause : c.cause < 2 ^ 32
  pub status : c.status < 2 ^ 32
  pub estatus : c.estatus < 2 ^ 32
  pub uart_poll_divider : c.uart_poll_divider < 2 ^ 32
  pub faulting_pc : c.faulting_pc < 2 ^ 32
  pub satp : c.satp < 2 ^ 32
  pub badaddr : c.badaddr < 2 ^ 32
  pub uart_control : c.uart_control < 2 ^ 32
  pub uart_rx_byte : c.uart_rx_byte < 2 ^ 8
  pub timer_period : c.timer_period < 2 ^ 32
  pub timer_count : c.timer_count < 2 ^ 32
  pub timer_control : c.timer_control < 2 ^ 32
  pub ic_pending : c.ic_pending < 2 ^ 32
  pub ic_mask : c.ic_mask < 2 ^ 32
  pub blk_sector : c.blk_sector < 2 ^ 32
  pub blk_buffer : c.blk_buffer < 2 ^ 32
  pub blk_status : c.blk_status < 2 ^ 32
  pub blk_control : c.blk_control < 2 ^ 32

pub record IsCpu (c : Cpu) : Type 0 where
  pub regs : (i : ℕ) → c.r i < 2 ^ 32
  pub words : IsWords c

pub record IsEntry (te : TlbEntry) : Type 0 where
  pub va_tag : te.va_tag < 2 ^ 32
  pub pa : te.pa < 2 ^ 32
  pub flags : te.flags < 2 ^ 32
  pub sp_pa_base : te.sp_pa_base < 2 ^ 32

pub record IsValid (m : Machine) : Type 0 where
  pub cpu : IsCpu m.cpu
  pub bytes : IsBytes m.mem
  pub entries : (i : ℕ) → IsEntry (m.tlb i)

-- What the host answers are bytes, and `fread` delivers at most the 512 that it is asked for.
abbrev pub AllBytes : List ℕ → Type 0
AllBytes [] = Unit {0}
AllBytes (b ∷ bs) = (b < 256) × AllBytes bs

pub record IsHost (h : Host) : Type 0 where
  pub bytes : AllBytes h.fread
  pub count : length h.fread ≤ 512

-- The memory behind the array is as it was.
abbrev pub SameOutside : Memory → Memory → Type 0
SameOutside mem mem' = (a : ℕ) → mem_size ≤ a → mem' a ≡ mem a

-- A later state that is valid, with nothing written outside the array, and the block device's
-- buffer as it was.
pub record Quiet (m m' : Machine) : Type 0 where
  pub valid : IsValid m'
  pub outside : SameOutside m.mem m'.mem
  pub buffer : m'.cpu.blk_buffer ≡ m.cpu.blk_buffer

-- The address that is a multiple of 512 and whose end wraps to 0.
abbrev pub wrapping_buffer : ℕ
wrapping_buffer = 0xfffffe00

-- A later state that is valid, with nothing written outside the array unless the buffer's end
-- wraps.
pub record Keeps (m m' : Machine) : Type 0 where
  pub valid : IsValid m'
  pub outside : m.cpu.blk_buffer ≢ wrapping_buffer → SameOutside m.mem m'.mem

pub Quiet-refl : {m : Machine} → IsValid m → Quiet m m
Quiet-refl v = record { valid = v; outside = λ a h. refl; buffer = refl }

pub Quiet-trans : {m m' m'' : Machine} → Quiet m m' → Quiet m' m'' → Quiet m m''
Quiet-trans p q = record {
  valid = q.valid;
  outside = λ a h. q.outside a h ∙ p.outside a h;
  buffer = q.buffer ∙ p.buffer;
}

pub Quiet-Keeps : {m m' : Machine} → Quiet m m' → Keeps m m'
Quiet-Keeps p = record { valid = p.valid; outside = λ ok. p.outside }

pub Quiet-Keeps-trans : {m m' m'' : Machine} → Quiet m m' → Keeps m' m'' → Keeps m m''
Quiet-Keeps-trans p q = record {
  valid = q.valid;
  outside = λ ok a h. q.outside (λ e. ok (sym p.buffer ∙ e)) a h ∙ p.outside a h;
}

pub Keeps-Quiet-trans : {m m' m'' : Machine} → Keeps m m' → Quiet m' m'' → Keeps m m''
Keeps-Quiet-trans p q = record {
  valid = q.valid;
  outside = λ ok a h. q.outside a h ∙ p.outside ok a h;
}

-- A change of the processor alone.
pub with_cpu-Keeps : {m : Machine} {c : Cpu} → IsValid m → IsCpu c → Keeps m (with_cpu m c)
unfolding with_cpu
with_cpu-Keeps v w = record {
  valid = record { cpu = w; bytes = v.bytes; entries = v.entries };
  outside = λ ok a h. refl;
}

pub with_cpu-Quiet :
    {m : Machine} {c : Cpu}
    → IsValid m
    → IsCpu c
    → c.blk_buffer ≡ m.cpu.blk_buffer
    → Quiet m (with_cpu m c)
unfolding with_cpu
with_cpu-Quiet v w e = record {
  valid = record { cpu = w; bytes = v.bytes; entries = v.entries };
  outside = λ a h. refl;
  buffer = e;
}

pub set_reg-IsCpu : {c : Cpu} (i : ℕ) {x : ℕ} → IsCpu c → x < 2 ^ 32 → IsCpu (set_reg c i x)
unfolding set_reg
set_reg-IsCpu {c} i {x} v h = record {
  regs = update_all (λ (w : ℕ). w < 2 ^ 32) c.r i x h v.regs;
  words = let w = v.words in ground arith;
}

pub set_flags-IsCpu : {c : Cpu} {x : ℕ} → IsCpu c → x < 2 ^ 32 → IsCpu (set_flags c x)
unfolding set_flags
set_flags-IsCpu v h = record { regs = v.regs; words = let w = v.words in ground arith }

pub emit-Keeps : {m m' : Machine} (e : Effect) → Keeps m m' → Keeps m (emit m' e)
unfolding emit
emit-Keeps e k = record {
  valid = record { cpu = k.valid.cpu; bytes = k.valid.bytes; entries = k.valid.entries };
  outside = k.outside;
}

pub emit-Quiet : {m m' : Machine} (e : Effect) → Quiet m m' → Quiet m (emit m' e)
unfolding emit
emit-Quiet e k = record {
  valid = record { cpu = k.valid.cpu; bytes = k.valid.bytes; entries = k.valid.entries };
  outside = k.outside;
  buffer = k.buffer;
}
