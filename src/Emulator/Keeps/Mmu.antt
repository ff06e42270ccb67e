-- ===== src/Emulator/Keeps/Mmu.antt =====
-- Translation writes page-table entries inside the memory only, and keeps every width.
use cputwo.Base.{
  ℕ, ◌+◌, ◌-◌, ◌%◌, ◌^◌, ◌<◌, ◌≡◌, Bool, true, false, not, ◌&&◌, Option, ltb, leb, ◌==◌,
  if◌then◌else◌, bit_or, ◌>>>◌, test, update, update_all, if_intro, inr, refl, arith,
}
use cputwo.Base.Bits.{bit_or-lt}
use cputwo.Emulator.Machine.{TlbEntry, Machine, mem_size, mmio_base, tlb_size}
use cputwo.Emulator.Memory.{mem_read32, mem_write32}
use cputwo.Emulator.Memory.Words.{mem_read32-lt, mem_write32-IsBytes, mem_write32_frame}
use cputwo.Emulator.Mmu.{
  Access, fetch, load, store, fault_cause, is_store, page_fault, permitted, tlb_hit, dirtied,
  write_dirty, walk_leaf, bad_pte_address, l1_pte_address, l2_pte_address, walk_l2, page_walk,
  mmu_translate, tlb_flush_non_global,
}
use cputwo.Emulator.Keeps.Invariant.{
  IsEntry, IsValid, Quiet, Quiet-refl, Quiet-trans, with_cpu-Quiet,
}
use cputwo.Emulator.Keeps.Trap.{fault-Quiet, and-lt}
use native.Mathlib.Nat.{div-le_self}

fault_cause-lt : (access : Access) → fault_cause access < 2 ^ 32
fault_cause-lt fetch = omega arith
fault_cause-lt load = omega arith
fault_cause-lt store = omega arith

page_fault-Quiet :
    {m : Machine} (va : ℕ) (access : Access)
    → va < 2 ^ 32
    → IsValid m
    → Quiet m (page_fault m va access).1
unfolding page_fault
page_fault-Quiet {m} va access small v =
    let bad =
      with_cpu-Quiet {c = record (m.cpu) { badaddr = va }} v
        (record { regs = v.cpu.regs; words = let w = v.cpu.words in ground arith }) refl in
    Quiet-trans bad (fault-Quiet (fault_cause access) (fault_cause-lt access) bad.valid)

-- A word written inside the memory.
pub write32-Quiet :
    {m : Machine} (addr x : ℕ)
    → IsValid m
    → addr + 3 < mem_size
    → Quiet m (record m { mem = mem_write32 m.mem addr x })
write32-Quiet {m} addr x v h = record {
  valid = record {
    cpu = v.cpu;
    bytes = mem_write32-IsBytes m.mem addr x v.bytes;
    entries = v.entries;
  };
  outside = λ a far. mem_write32_frame m.mem addr x a (omega arith) (inr (omega arith));
  buffer = refl;
}

-- A TLB entry replaced.
tlb-Quiet :
    {m m' : Machine} (idx : ℕ) {te : TlbEntry}
    → Quiet m m'
    → IsEntry te
    → Quiet m (record m' { tlb = update m'.tlb idx te })
tlb-Quiet {m} {m'} idx {te} q e = record {
  valid = record {
    cpu = q.valid.cpu;
    bytes = q.valid.bytes;
    entries = update_all IsEntry m'.tlb idx te e q.valid.entries;
  };
  outside = q.outside;
  buffer = q.buffer;
}

-- The memory after the D bit of a hit.
hit_write-Quiet :
    {m : Machine} (te : TlbEntry)
    → IsValid m
    → Quiet m (record m {
      mem =
          if ltb te.sp_pa_base (mem_size - 3)
          then mem_write32 m.mem te.sp_pa_base (bit_or (mem_read32 m.mem te.sp_pa_base) 2)
          else m.mem;
    })
hit_write-Quiet {m} te v =
    if_intro (λ mem. Quiet m (record m { mem = mem })) (ltb te.sp_pa_base (mem_size - 3))
      (λ e.
        write32-Quiet te.sp_pa_base (bit_or (mem_read32 m.mem te.sp_pa_base) 2) v (ground arith))
      (λ e. Quiet-refl v)

tlb_hit-Quiet :
    {m : Machine} (va : ℕ) (access : Access) (idx : ℕ) (te : TlbEntry)
    → va < 2 ^ 32
    → IsEntry te
    → IsValid m
    → Quiet m (tlb_hit m va access idx te).1
unfolding tlb_hit
tlb_hit-Quiet {m} va access idx te small t v =
    if_intro (λ (r : Option ℕ × Machine). Quiet m r.1)
      (not (permitted m.cpu.status access te.flags)) (λ e. page_fault-Quiet va access small v)
      λ e.
        if_intro (λ (r : Option ℕ × Machine). Quiet m r.1)
          (is_store access && not (test te.flags 2))
          (λ e'. tlb-Quiet idx (hit_write-Quiet te v) (record {
            va_tag = t.va_tag;
            pa = t.pa;
            flags = bit_or-lt 32 te.flags 2 t.flags (omega arith);
            sp_pa_base = t.sp_pa_base;
          }))
          (λ e'. Quiet-refl v)

dirtied-lt : (access : Access) (pte : ℕ) → pte < 2 ^ 32 → dirtied access pte < 2 ^ 32
unfolding dirtied
dirtied-lt access pte h =
    if_intro (λ (w : ℕ). w < 2 ^ 32) (is_store access && not (test pte 2))
      (λ e. bit_or-lt 32 pte 2 h (omega arith)) (λ e. h)

write_dirty-Quiet :
    {m : Machine} (access : Access) (addr pte : ℕ)
    → addr + 3 < mem_size
    → IsValid m
    → Quiet m (write_dirty m access addr pte)
unfolding write_dirty
write_dirty-Quiet {m} access addr pte h v =
    if_intro (Quiet m) (is_store access && not (test pte 2))
      (λ e. write32-Quiet addr (bit_or pte 2) v h) (λ e. Quiet-refl v)

walk_leaf-Quiet :
    {m : Machine} (va : ℕ) (access : Access) (addr pte : ℕ) (superpage : Bool)
    → va < 2 ^ 32
    → addr + 3 < mem_size
    → pte < 2 ^ 32
    → IsValid m
    → Quiet m (walk_leaf m va access addr pte superpage).1
unfolding walk_leaf
walk_leaf-Quiet {m} va access addr pte superpage small fits word v =
    if_intro (λ (r : Option ℕ × Machine). Quiet m r.1) (not (permitted m.cpu.status access pte))
      (λ e. page_fault-Quiet va access small v)
      λ e. tlb-Quiet ((va >>> 12) % tlb_size) (write_dirty-Quiet access addr pte fits v) (record {
        va_tag = omega (arith, div-le_self va (2 ^ 12));
        pa = if_intro (λ (w : ℕ). w < 2 ^ 32) superpage (λ e'. omega arith) (λ e'. omega arith);
        flags = and-lt _ 0xfff (dirtied-lt access pte word);
        sp_pa_base = omega arith;
      })

pte_inside : (addr : ℕ) → addr < 2 ^ 32 → bad_pte_address addr ≡ false → addr + 3 < mem_size
unfolding bad_pte_address
pte_inside addr h e = ground arith

l1_pte_address-lt : (satp va : ℕ) → l1_pte_address satp va < 2 ^ 32
unfolding l1_pte_address
l1_pte_address-lt satp va = omega arith

l2_pte_address-lt : (pte va : ℕ) → l2_pte_address pte va < 2 ^ 32
unfolding l2_pte_address
l2_pte_address-lt pte va = omega arith

walk_l2-Quiet :
    {m : Machine} (va : ℕ) (access : Access) (pte : ℕ)
    → va < 2 ^ 32
    → IsValid m
    → Quiet m (walk_l2 m va access pte).1
unfolding walk_l2
walk_l2-Quiet {m} va access l1 small v =
    let addr = l2_pte_address l1 va in
    let pte = mem_read32 m.mem addr in
    if_intro (λ (r : Option ℕ × Machine). Quiet m r.1) (bad_pte_address addr)
      (λ e. page_fault-Quiet va access small v)
      λ e.
        if_intro (λ (r : Option ℕ × Machine). Quiet m r.1) (not (test pte 1))
          (λ e'. page_fault-Quiet va access small v)
          (λ e'.
            walk_leaf-Quiet va access addr pte false small
              (pte_inside addr (l2_pte_address-lt l1 va) e) (mem_read32-lt m.mem addr v.bytes) v)

page_walk-Quiet :
    {m : Machine} (va : ℕ) (access : Access)
    → va < 2 ^ 32
    → IsValid m
    → Quiet m (page_walk m va access).1
unfolding page_walk
page_walk-Quiet {m} va access small v =
    let addr = l1_pte_address m.cpu.satp va in
    let pte = mem_read32 m.mem addr in
    if_intro (λ (r : Option ℕ × Machine). Quiet m r.1) (bad_pte_address addr)
      (λ e. page_fault-Quiet va access small v)
      λ e.
        if_intro (λ (r : Option ℕ × Machine). Quiet m r.1) (not (test pte 1))
          (λ e'. page_fault-Quiet va access small v)
          λ e'.
            if_intro (λ (r : Option ℕ × Machine). Quiet m r.1) (test pte 0xe0)
              (λ e''.
                walk_leaf-Quiet va access addr pte true small
                  (pte_inside addr (l1_pte_address-lt m.cpu.satp va) e)
                  (mem_read32-lt m.mem addr v.bytes) v)
              (λ e''. walk_l2-Quiet va access pte small v)

-- Whatever a translation does, it stays inside.
pub mmu_translate-Quiet :
    {m : Machine} (va : ℕ) (access : Access)
    → va < 2 ^ 32
    → IsValid m
    → Quiet m (mmu_translate m va access).1
unfolding mmu_translate
mmu_translate-Quiet {m} va access small v =
    let idx = (va >>> 12) % tlb_size in
    let te = m.tlb idx in
    if_intro (λ (r : Option ℕ × Machine). Quiet m r.1) (not (test m.cpu.satp 0x80000000))
      (λ e. Quiet-refl v)
      λ e.
        if_intro (λ (r : Option ℕ × Machine). Quiet m r.1) (leb mmio_base va) (λ e'. Quiet-refl v)
          λ e'.
            if_intro (λ (r : Option ℕ × Machine). Quiet m r.1)
              (te.valid && te.va_tag == (va >>> 12))
              (λ e''. tlb_hit-Quiet va access idx te small (v.entries idx) v)
              (λ e''. page_walk-Quiet va access small v)

pub tlb_flush_non_global-entries :
    {tlb : ℕ → TlbEntry}
    → ((i : ℕ) → IsEntry (tlb i))
    → (i : ℕ) → IsEntry (tlb_flush_non_global tlb i)
unfolding tlb_flush_non_global
tlb_flush_non_global-entries {tlb} h i =
    if_intro IsEntry (ltb i tlb_size && not (tlb i).global) (λ e. let t = h i in ground arith)
      (λ e. h i)
