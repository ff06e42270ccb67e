-- ===== src/Emulator/Access.antt =====
-- `cpu_read32` to `cpu_write8` and `cpu_fetch`: translation, the faults, then memory or a device.
use cputwo.Base.{ℕ, Option, none, some, leb, if◌then◌else◌, test, u16, u8}
use cputwo.Emulator.Machine.{Machine, Host, mem_size, mmio_base, with_cpu}
use cputwo.Emulator.Memory.{mem_read32, mem_read16, mem_read8, mem_write32, mem_write16, mem_write8}
use cputwo.Emulator.Exception.{fault}
use cputwo.Emulator.Mmu.{fetch, load, store, mmu_translate}
use cputwo.Emulator.Mmio.{mmio_read, mmio_write}

-- A device register's value, with the state that the read leaves.
unfoldable pub device_read : Machine → ℕ → ℕ × Machine
device_read m pa = let (v, c) = mmio_read m.mem m.cpu pa in (v, with_cpu m c)

-- The accesses to a physical address.
unfoldable pub read32_at : Machine → ℕ → ℕ × Machine
read32_at m pa =
    if leb mem_size pa
    then (0, fault m 0x02)
    else if test pa 3
    then (0, fault m 0x01)
    else if leb mmio_base pa
    then device_read m pa
    else (mem_read32 m.mem pa, m)

unfoldable pub read16_at : Machine → ℕ → ℕ × Machine
read16_at m pa =
    if leb mem_size pa
    then (0, fault m 0x02)
    else if test pa 1
    then (0, fault m 0x01)
    else if leb mmio_base pa
    then (let (v, m') = device_read m pa in (u16 v, m'))
    else (mem_read16 m.mem pa, m)

unfoldable pub read8_at : Machine → ℕ → ℕ × Machine
read8_at m pa =
    if leb mem_size pa
    then (0, fault m 0x02)
    else if leb mmio_base pa
    then (let (v, m') = device_read m pa in (u8 v, m'))
    else (mem_read8 m.mem pa, m)

unfoldable pub write32_at : Host → ℕ → Machine → ℕ → Machine
write32_at h val m pa =
    if leb mem_size pa
    then fault m 0x02
    else if test pa 3
    then fault m 0x01
    else if leb mmio_base pa
    then mmio_write h m pa val
    else record m { mem = mem_write32 m.mem pa val }

unfoldable pub write16_at : Host → ℕ → Machine → ℕ → Machine
write16_at h val m pa =
    if leb mem_size pa
    then fault m 0x02
    else if test pa 1
    then fault m 0x01
    else if leb mmio_base pa
    then mmio_write h m pa val
    else record m { mem = mem_write16 m.mem pa val }

unfoldable pub write8_at : Host → ℕ → Machine → ℕ → Machine
write8_at h val m pa =
    if leb mem_size pa
    then fault m 0x02
    else if leb mmio_base pa
    then mmio_write h m pa val
    else record m { mem = mem_write8 m.mem pa val }

-- What follows a translation: a load that faulted reads 0, a store that faulted is dropped.
unfoldable pub after_load : (Machine → ℕ → ℕ × Machine) → Option ℕ × Machine → ℕ × Machine
after_load read (none, m) = (0, m)
after_load read (some pa, m) = read m pa

unfoldable pub after_store : (Machine → ℕ → Machine) → Option ℕ × Machine → Machine
after_store write (none, m) = m
after_store write (some pa, m) = write m pa

unfoldable pub cpu_read32 : Machine → ℕ → ℕ × Machine
cpu_read32 m addr = after_load read32_at (mmu_translate m addr load)

unfoldable pub cpu_read16 : Machine → ℕ → ℕ × Machine
cpu_read16 m addr = after_load read16_at (mmu_translate m addr load)

unfoldable pub cpu_read8 : Machine → ℕ → ℕ × Machine
cpu_read8 m addr = after_load read8_at (mmu_translate m addr load)

unfoldable pub cpu_write32 : Host → Machine → ℕ → ℕ → Machine
cpu_write32 h m addr val = after_store (write32_at h val) (mmu_translate m addr store)

unfoldable pub cpu_write16 : Host → Machine → ℕ → ℕ → Machine
cpu_write16 h m addr val = after_store (write16_at h val) (mmu_translate m addr store)

unfoldable pub cpu_write8 : Host → Machine → ℕ → ℕ → Machine
cpu_write8 h m addr val = after_store (write8_at h val) (mmu_translate m addr store)

unfoldable pub fetch_at : Option ℕ × Machine → Option ℕ × Machine
fetch_at (none, m) = (none, m)
fetch_at (some pa, m) =
    if leb mem_size pa then (none, fault m 0x02) else (some (mem_read32 m.mem pa), m)

-- The instruction, or none where a page fault or a bus error has entered the handler.
unfoldable pub cpu_fetch : Machine → ℕ → Option ℕ × Machine
cpu_fetch m pc = fetch_at (mmu_translate m pc fetch)
