-- ===== src/Emulator/Mmu.antt =====
-- `mmu_translate`, with the TLB. A fault has no address and has entered the handler.
pub mod Bits
pub mod Outcome
pub mod Again
use cputwo.Base.{
  ℕ, ◌*◌, ◌%◌, ◌-◌, Bool, true, false, not, ◌&&◌, ◌||◌, Option, none, some, ltb, leb, ◌==◌,
  if◌then◌else◌, bit_and, bit_or, ◌<<<◌, ◌>>>◌, u32, add32, test, update,
}
use cputwo.Emulator.Machine.{TlbEntry, Machine, mem_size, mmio_base, tlb_size, with_cpu}
use cputwo.Emulator.Memory.{mem_read32, mem_write32}
use cputwo.Emulator.Exception.{fault}

-- `access_type`: 0, 1 or 2.
pub data Access : Type 0 where
  fetch load store : Access

abbrev pub fault_cause : Access → ℕ
fault_cause fetch = 0x07
fault_cause load = 0x08
fault_cause store = 0x09

-- The bit of a page-table entry that an access needs: X, R or W.
abbrev pub access_bit : Access → ℕ
access_bit fetch = 0x80
access_bit load = 0x20
access_bit store = 0x40

abbrev pub is_store : Access → Bool
is_store store = true
is_store _ = false

-- `cpu->badaddr = va; raise_exception(cpu, cause); return 0;`
unfoldable pub page_fault : Machine → ℕ → Access → Option ℕ × Machine
page_fault m va access =
    (none, fault (with_cpu m (record (m.cpu) { badaddr = va })) (fault_cause access))

-- The permission checks, for the low bits of an entry: U in user mode, then X, R or W.
unfoldable pub permitted : ℕ → Access → ℕ → Bool
permitted status access flags =
    if not (test status 1) && not (test flags 0x100) then false else test flags (access_bit access)

-- The 4 KB or 4 MB page of an entry, with the offset of the address in it.
unfoldable pub page_address : ℕ → ℕ → ℕ
page_address pte va = bit_or (u32 (bit_and (pte >>> 12) 0xfffff <<< 12)) (bit_and va 0xfff)

unfoldable pub superpage_address : ℕ → ℕ → ℕ
superpage_address pte va =
    bit_or (u32 (bit_and (bit_and (pte >>> 12) 0xfffff) 0xffc00 <<< 12)) (bit_and va 0x3fffff)

-- The physical address that a hit in the TLB gives. For a superpage the code takes
-- `sp_pa_base`, which holds the address of the page-table entry.
unfoldable pub hit_address : TlbEntry → ℕ → ℕ
hit_address te va =
    if te.superpage
    then bit_or te.sp_pa_base (bit_and va 0x3fffff)
    else bit_or te.pa (bit_and va 0xfff)

-- A hit: the permissions, the D bit of the entry and of the page table on a store, the address.
unfoldable pub tlb_hit : Machine → ℕ → Access → ℕ → TlbEntry → Option ℕ × Machine
tlb_hit m va access idx te =
    if not (permitted m.cpu.status access te.flags)
    then page_fault m va access
    else if is_store access && not (test te.flags 2)
    then (
      some (hit_address te va),
      record m {
        tlb = update m.tlb idx (record te { flags = bit_or te.flags 2 });
        mem =
            if ltb te.sp_pa_base (mem_size - 3)
            then mem_write32 m.mem te.sp_pa_base (bit_or (mem_read32 m.mem te.sp_pa_base) 2)
            else m.mem;
      },
    )
    else (some (hit_address te va), m)

-- The D bit that a store sets in a leaf entry.
unfoldable pub dirtied : Access → ℕ → ℕ
dirtied access pte = if is_store access && not (test pte 2) then bit_or pte 2 else pte

unfoldable pub write_dirty : Machine → Access → ℕ → ℕ → Machine
write_dirty m access pte_addr pte =
    if is_store access && not (test pte 2)
    then record m { mem = mem_write32 m.mem pte_addr (bit_or pte 2) }
    else m

-- A leaf entry of the walk: permissions, D bit, and the new TLB entry.
unfoldable pub walk_leaf : Machine → ℕ → Access → ℕ → ℕ → Bool → Option ℕ × Machine
walk_leaf m va access pte_addr pte superpage =
    if not (permitted m.cpu.status access pte)
    then page_fault m va access
    else let pte' = dirtied access pte in
      let m' = write_dirty m access pte_addr pte in
      let entry : TlbEntry = record {
        va_tag = va >>> 12;
        pa = if superpage then 0 else u32 (bit_and (pte' >>> 12) 0xfffff <<< 12);
        flags = bit_and pte' 0xfff;
        valid = true;
        global = test (pte' >>> 9) 1;
        superpage = superpage;
        sp_pa_base = pte_addr;
      } in
      (
        some (if superpage then superpage_address pte va else page_address pte' va),
        record m' { tlb = update m'.tlb ((va >>> 12) % tlb_size) entry },
      )

-- A page-table entry must lie in memory, below the devices.
unfoldable pub bad_pte_address : ℕ → Bool
bad_pte_address addr = leb mem_size (add32 addr 3) || leb mmio_base addr

unfoldable pub l1_pte_address : ℕ → ℕ → ℕ
l1_pte_address satp va =
    add32 (u32 (bit_and satp 0x000fffff <<< 12)) (bit_and (va >>> 22) 0x3ff * 4)

unfoldable pub l2_pte_address : ℕ → ℕ → ℕ
l2_pte_address l1_pte va =
    add32 (u32 (bit_and (l1_pte >>> 12) 0xfffff <<< 12)) (bit_and (va >>> 12) 0x3ff * 4)

-- The second level of the walk.
unfoldable pub walk_l2 : Machine → ℕ → Access → ℕ → Option ℕ × Machine
walk_l2 m va access l1_pte =
    let addr = l2_pte_address l1_pte va in
    if bad_pte_address addr
    then page_fault m va access
    else let pte = mem_read32 m.mem addr in
      if not (test pte 1) then page_fault m va access else walk_leaf m va access addr pte false

-- The walk from the first level. R, W or X there makes the entry a superpage.
unfoldable pub page_walk : Machine → ℕ → Access → Option ℕ × Machine
page_walk m va access =
    let addr = l1_pte_address m.cpu.satp va in
    if bad_pte_address addr
    then page_fault m va access
    else let pte = mem_read32 m.mem addr in
      if not (test pte 1)
      then page_fault m va access
      else if test pte 0xe0
      then walk_leaf m va access addr pte true
      else walk_l2 m va access pte

unfoldable pub mmu_translate : Machine → ℕ → Access → Option ℕ × Machine
mmu_translate m va access =
    if not (test m.cpu.satp 0x80000000)
    then (some va, m)
    else if leb mmio_base va
    then (some va, m)
    else let idx = (va >>> 12) % tlb_size in
      let te = m.tlb idx in
      if te.valid && te.va_tag == (va >>> 12)
      then tlb_hit m va access idx te
      else page_walk m va access

-- `tlb_flush_non_global` and `tlb_flush_all`.
unfoldable pub tlb_flush_non_global : (ℕ → TlbEntry) → ℕ → TlbEntry
tlb_flush_non_global tlb i =
    if ltb i tlb_size && not (tlb i).global then record (tlb i) { valid = false } else tlb i

unfoldable pub tlb_flush_all : (ℕ → TlbEntry) → ℕ → TlbEntry
tlb_flush_all tlb i = if ltb i tlb_size then record (tlb i) { valid = false } else tlb i
