-- ===== src/Emulator/Keeps/Access.antt =====
-- Loads, stores and fetches keep every width and stay inside the memory.
use cputwo.Base.{ℕ, ◌^◌, ◌<◌, Option, none, some, leb, test, if_intro, inr, arith}
use cputwo.Emulator.Machine.{Machine, Host, mem_size, mmio_base}
use cputwo.Emulator.Memory.{mem_read16, mem_read8}
use cputwo.Emulator.Memory.Words.{
  mem_read32-lt, mem_write16-IsBytes, mem_write8-IsBytes, mem_write16_frame, mem_write8_frame,
}
use cputwo.Emulator.Exception.{fault}
use cputwo.Emulator.Mmu.{fetch, load, store, mmu_translate}
use cputwo.Emulator.Access.{
  device_read, read32_at, read16_at, read8_at, write32_at, write16_at, write8_at, after_load,
  after_store, cpu_read32, cpu_read16, cpu_read8, cpu_write32, cpu_write16, cpu_write8, fetch_at,
  cpu_fetch,
}
use cputwo.Emulator.Keeps.Invariant.{
  IsValid, IsHost, Quiet, Keeps, Quiet-refl, Quiet-trans, Quiet-Keeps, Quiet-Keeps-trans,
  with_cpu-Quiet,
}
use cputwo.Emulator.Keeps.Trap.{fault-Quiet}
use cputwo.Emulator.Keeps.Mmu.{mmu_translate-Quiet, write32-Quiet}
use cputwo.Emulator.Keeps.Mmio.{mmio_read-ReadsWord}
use cputwo.Emulator.Keeps.Command.{mmio_write-Keeps}

-- A value below a bound, and a quiet state.
pub record Reads (bound : ℕ) (m : Machine) (out : ℕ × Machine) : Type 0 where
  pub value : out.0 < bound
  pub quiet : Quiet m out.1

faulted :
    {m : Machine} {bound : ℕ} (cause : ℕ)
    → 0 < bound
    → cause < 2 ^ 32
    → IsValid m
    → Reads bound m (0, fault m cause)
faulted cause pos small v = record { value = pos; quiet = fault-Quiet cause small v }

pub device_read-Reads : {m : Machine} (pa : ℕ) → IsValid m → Reads (2 ^ 32) m (device_read m pa)
unfolding device_read
device_read-Reads {m} pa v =
    let r = mmio_read-ReadsWord m.mem pa v.bytes v.cpu in
    record { value = r.value; quiet = with_cpu-Quiet v r.cpu r.buffer }

read32_at-Reads : {m : Machine} (pa : ℕ) → IsValid m → Reads (2 ^ 32) m (read32_at m pa)
unfolding read32_at
read32_at-Reads {m} pa v =
    let P = Reads (2 ^ 32) m in
    if_intro P (leb mem_size pa) (λ a. faulted 0x02 (omega arith) (omega arith) v)
      λ a.
        if_intro P (test pa 3) (λ b. faulted 0x01 (omega arith) (omega arith) v)
          λ b.
            if_intro P (leb mmio_base pa) (λ c. device_read-Reads pa v)
              (λ c. record { value = mem_read32-lt m.mem pa v.bytes; quiet = Quiet-refl v })

read16_at-Reads : {m : Machine} (pa : ℕ) → IsValid m → Reads (2 ^ 16) m (read16_at m pa)
unfolding read16_at mem_read16
read16_at-Reads {m} pa v =
    let P = Reads (2 ^ 16) m in
    if_intro P (leb mem_size pa) (λ a. faulted 0x02 (omega arith) (omega arith) v)
      λ a.
        if_intro P (test pa 1) (λ b. faulted 0x01 (omega arith) (omega arith) v)
          λ b.
            if_intro P (leb mmio_base pa)
              (λ c. record { value = omega arith; quiet = (device_read-Reads pa v).quiet })
              (λ c. record { value = omega arith; quiet = Quiet-refl v })

read8_at-Reads : {m : Machine} (pa : ℕ) → IsValid m → Reads (2 ^ 8) m (read8_at m pa)
unfolding read8_at mem_read8
read8_at-Reads {m} pa v =
    let P = Reads (2 ^ 8) m in
    if_intro P (leb mem_size pa) (λ a. faulted 0x02 (omega arith) (omega arith) v)
      λ a.
        if_intro P (leb mmio_base pa)
          (λ c. record { value = omega arith; quiet = (device_read-Reads pa v).quiet })
          (λ c. record { value = v.bytes pa; quiet = Quiet-refl v })

after_load-Reads :
    {m : Machine} (bound : ℕ) (read : Machine → ℕ → ℕ × Machine) (t : Option ℕ × Machine)
    → 0 < bound
    → ((m' : Machine) (pa : ℕ) → IsValid m' → Reads bound m' (read m' pa))
    → Quiet m t.1
    → Reads bound m (after_load read t)
unfolding after_load
after_load-Reads bound read (none, m') pos h q = record { value = pos; quiet = q }
after_load-Reads bound read (some pa, m') pos h q =
    let r = h m' pa q.valid in record { value = r.value; quiet = Quiet-trans q r.quiet }

pub cpu_read32-Reads :
    {m : Machine} (addr : ℕ) → addr < 2 ^ 32 → IsValid m → Reads (2 ^ 32) m (cpu_read32 m addr)
unfolding cpu_read32
cpu_read32-Reads {m} addr small v =
    after_load-Reads (2 ^ 32) read32_at (mmu_translate m addr load) (omega arith)
      (λ m' pa w. read32_at-Reads pa w) (mmu_translate-Quiet addr load small v)

pub cpu_read16-Reads :
    {m : Machine} (addr : ℕ) → addr < 2 ^ 32 → IsValid m → Reads (2 ^ 16) m (cpu_read16 m addr)
unfolding cpu_read16
cpu_read16-Reads {m} addr small v =
    after_load-Reads (2 ^ 16) read16_at (mmu_translate m addr load) (omega arith)
      (λ m' pa w. read16_at-Reads pa w) (mmu_translate-Quiet addr load small v)

pub cpu_read8-Reads :
    {m : Machine} (addr : ℕ) → addr < 2 ^ 32 → IsValid m → Reads (2 ^ 8) m (cpu_read8 m addr)
unfolding cpu_read8
cpu_read8-Reads {m} addr small v =
    after_load-Reads (2 ^ 8) read8_at (mmu_translate m addr load) (omega arith)
      (λ m' pa w. read8_at-Reads pa w) (mmu_translate-Quiet addr load small v)

module _ (h : Host) (answers : IsHost h) where
  write32_at-Keeps :
      (val : ℕ)
      → val < 2 ^ 32
      → {m : Machine} (pa : ℕ) → IsValid m
      → Keeps m (write32_at h val m pa)
  unfolding write32_at
  write32_at-Keeps val word {m} pa v =
      let P = Keeps m in
      if_intro P (leb mem_size pa) (λ a. Quiet-Keeps (fault-Quiet 0x02 (omega arith) v))
        λ a.
          if_intro P (test pa 3) (λ b. Quiet-Keeps (fault-Quiet 0x01 (omega arith) v))
            λ b.
              if_intro P (leb mmio_base pa) (λ c. mmio_write-Keeps h answers v val word pa)
                (λ c. Quiet-Keeps (write32-Quiet pa val v (ground arith)))

  write16_at-Keeps :
      (val : ℕ)
      → val < 2 ^ 32
      → {m : Machine} (pa : ℕ) → IsValid m
      → Keeps m (write16_at h val m pa)
  unfolding write16_at
  write16_at-Keeps val word {m} pa v =
      let P = Keeps m in
      if_intro P (leb mem_size pa) (λ a. Quiet-Keeps (fault-Quiet 0x02 (omega arith) v))
        λ a.
          if_intro P (test pa 1) (λ b. Quiet-Keeps (fault-Quiet 0x01 (omega arith) v))
            λ b.
              if_intro P (leb mmio_base pa) (λ c. mmio_write-Keeps h answers v val word pa)
                (λ c. record {
                  valid = record {
                    cpu = v.cpu;
                    bytes = mem_write16-IsBytes m.mem pa val v.bytes;
                    entries = v.entries;
                  };
                  outside = λ ok j far.
                      mem_write16_frame m.mem pa val j (ground arith) (inr (ground arith));
                })

  write8_at-Keeps :
      (val : ℕ) → val < 2 ^ 8 → {m : Machine} (pa : ℕ) → IsValid m → Keeps m (write8_at h val m pa)
  unfolding write8_at
  write8_at-Keeps val byte {m} pa v =
      let P = Keeps m in
      if_intro P (leb mem_size pa) (λ a. Quiet-Keeps (fault-Quiet 0x02 (omega arith) v))
        λ a.
          if_intro P (leb mmio_base pa) (λ c. mmio_write-Keeps h answers v val (omega arith) pa)
            (λ c. record {
              valid = record {
                cpu = v.cpu;
                bytes = mem_write8-IsBytes m.mem pa val byte v.bytes;
                entries = v.entries;
              };
              outside = λ ok j far. mem_write8_frame m.mem pa val j (ground arith);
            })

  after_store-Keeps :
      {m : Machine} (write : Machine → ℕ → Machine) (t : Option ℕ × Machine)
      → ((m' : Machine) (pa : ℕ) → IsValid m' → Keeps m' (write m' pa))
      → Quiet m t.1
      → Keeps m (after_store write t)
  unfolding after_store
  after_store-Keeps write (none, m') k q = Quiet-Keeps q
  after_store-Keeps write (some pa, m') k q = Quiet-Keeps-trans q (k m' pa q.valid)

  module _ {m : Machine} (addr val : ℕ) (small : addr < 2 ^ 32) (v : IsValid m) where
    pub cpu_write32-Keeps : val < 2 ^ 32 → Keeps m (cpu_write32 h m addr val)
    unfolding cpu_write32
    cpu_write32-Keeps word =
        after_store-Keeps (write32_at h val) (mmu_translate m addr store)
          (λ m' pa w. write32_at-Keeps val word pa w) (mmu_translate-Quiet addr store small v)

    pub cpu_write16-Keeps : val < 2 ^ 32 → Keeps m (cpu_write16 h m addr val)
    unfolding cpu_write16
    cpu_write16-Keeps word =
        after_store-Keeps (write16_at h val) (mmu_translate m addr store)
          (λ m' pa w. write16_at-Keeps val word pa w) (mmu_translate-Quiet addr store small v)

    pub cpu_write8-Keeps : val < 2 ^ 8 → Keeps m (cpu_write8 h m addr val)
    unfolding cpu_write8
    cpu_write8-Keeps byte =
        after_store-Keeps (write8_at h val) (mmu_translate m addr store)
          (λ m' pa w. write8_at-Keeps val byte pa w) (mmu_translate-Quiet addr store small v)

pub cpu_fetch-Quiet : {m : Machine} (pc : ℕ) → pc < 2 ^ 32 → IsValid m → Quiet m (cpu_fetch m pc).1
unfolding cpu_fetch
cpu_fetch-Quiet {m} pc small v =
    checked (mmu_translate m pc fetch) (mmu_translate-Quiet pc fetch small v)
  where
    checked : (t : Option ℕ × Machine) → Quiet m t.1 → Quiet m (fetch_at t).1
    checked (none, m') q = unfold fetch_at in q
    checked (some pa, m') q =
        unfold fetch_at in
        if_intro (λ (r : Option ℕ × Machine). Quiet m r.1) (leb mem_size pa)
          (λ e. Quiet-trans q (fault-Quiet 0x02 (omega arith) q.valid)) (λ e. q)
