-- ===== src/Emulator/Mmu/Outcome.antt =====
-- What a translation with the MMU on leaves behind, on every path.
use cputwo.Base.{
  ◌*◌, ◌≢◌, add32, u32, ltb, if◌then◌else◌, update_ne, ◌||◌, bit_and, ℕ, ◌%◌, ◌<◌, ◌≡◌, Bool, true,
  false, not, ◌&&◌, Option, none, some, test, ◌>>>◌, leb, ◌==◌, if_intro, update_self, refl, arith,
}
use cputwo.Emulator.Machine.{Machine, TlbEntry, tlb_size, mem_size, mmio_base, with_cpu}
use cputwo.Emulator.Memory.{mem_read32}
use cputwo.Emulator.Exception.{fault, raise_exception, handler}
use cputwo.Emulator.Mmu.{
  access_bit, Access, fetch, load, store, dirtied, Access, store, fault_cause, is_store, page_fault,
  permitted, tlb_hit, write_dirty, walk_leaf, bad_pte_address, l1_pte_address, l2_pte_address,
  walk_l2, page_walk, mmu_translate,
}
use cputwo.Emulator.Mmu.Bits.{
  permitted-SameBits, dirty-SameBits, dirty_set, permitted-dirtied, dirtied_store,
}

-- A page fault: the program counter holds the word of the vector table for the cause, or 0 where
-- that word lies behind the memory, and no other register, nor the memory, nor the TLB has changed.
pub record Faulted (m : Machine) (va : ℕ) (access : Access) (m' : Machine) : Type 0 where
  pub badaddr : m'.cpu.badaddr ≡ va
  pub cause : m'.cpu.cause ≡ fault_cause access
  pub status : m'.cpu.status ≡ 1
  pub epc : m'.cpu.epc ≡ m.cpu.faulting_pc
  pub estatus : m'.cpu.estatus ≡ m.cpu.status
  pub eflags : m'.cpu.eflags ≡ m.cpu.flags
  pub pc : m'.cpu.r 15 ≡ (
      let vector = add32 m.cpu.evec (u32 (fault_cause access * 4)) in
      if ltb vector mem_size then mem_read32 m.mem vector else 0)
  pub registers : (i : ℕ) → i ≢ 15 → m'.cpu.r i ≡ m.cpu.r i
  pub mem : m'.mem ≡ m.mem
  pub tlb : m'.tlb ≡ m.tlb

-- A success: the TLB holds an entry for the page that permits the access in the mode of the
-- processor, dirty after a store, and the processor has not changed.
pub record Granted (m : Machine) (va : ℕ) (access : Access) (m' : Machine) : Type 0 where
  pub valid : (m'.tlb ((va >>> 12) % tlb_size)).valid ≡ true
  pub tag : (m'.tlb ((va >>> 12) % tlb_size)).va_tag ≡ va >>> 12
  pub mode : (test m.cpu.status 1 || test (m'.tlb ((va >>> 12) % tlb_size)).flags 0x100) ≡ true
  pub allowed : test (m'.tlb ((va >>> 12) % tlb_size)).flags (access_bit access) ≡ true
  pub dirty : (is_store access && not (test (m'.tlb ((va >>> 12) % tlb_size)).flags 2)) ≡ false
  pub cpu : m'.cpu ≡ m.cpu

abbrev pub Outcome : Machine → ℕ → Access → Option ℕ × Machine → Type 0
Outcome m va access (none, m') = Faulted m va access m'
Outcome m va access (some pa, m') = Granted m va access m'

page_fault-Outcome :
    (m : Machine) (va : ℕ) (access : Access) → Outcome m va access (page_fault m va access)
unfolding page_fault fault raise_exception with_cpu handler
page_fault-Outcome m va access = record {
  badaddr = refl;
  cause = refl;
  status = refl;
  epc = refl;
  estatus = refl;
  eflags = refl;
  pc = update_self m.cpu.r 15 _;
  registers = λ i ne. update_ne m.cpu.r 15 i _ (ground arith);
  mem = refl;
  tlb = refl;
}

permitted-mode :
    (status : ℕ) (access : Access) (flags : ℕ)
    → permitted status access flags ≡ true
    → (test status 1 || test flags 0x100) ≡ true
unfolding permitted
permitted-mode status access flags p = ground arith

permitted-bit :
    (status : ℕ) (access : Access) (flags : ℕ)
    → permitted status access flags ≡ true
    → test flags (access_bit access) ≡ true
unfolding permitted
permitted-bit status access flags p = ground arith

-- Both together permit the access.
pub permitted_intro :
    (status : ℕ) (access : Access) (flags : ℕ)
    → (test status 1 || test flags 0x100) ≡ true
    → test flags (access_bit access) ≡ true
    → permitted status access flags ≡ true
unfolding permitted
permitted_intro status access flags mode allowed = ground arith

-- An entry put into the slot of the page.
slot-Granted :
    (m m' : Machine) (va : ℕ) (access : Access) (te : TlbEntry)
    → m'.tlb ((va >>> 12) % tlb_size) ≡ te
    → te.valid ≡ true
    → te.va_tag ≡ va >>> 12
    → permitted m.cpu.status access te.flags ≡ true
    → (is_store access && not (test te.flags 2)) ≡ false
    → m'.cpu ≡ m.cpu
    → Granted m va access m'
slot-Granted m m' va access te e a b c d f = record {
  valid = rw e a;
  tag = rw e b;
  mode = rw e (permitted-mode _ access _ c);
  allowed = rw e (permitted-bit _ access _ c);
  dirty = rw e d;
  cpu = f;
}

now_dirty : (b : Bool) {x : Bool} → x ≡ true → (b && not x) ≡ false
now_dirty true e = rw e refl
now_dirty false e = refl

stored_dirty :
    (access : Access) (pte : ℕ)
    → (is_store access && not (test (bit_and (dirtied access pte) 0xfff) 2)) ≡ false
stored_dirty fetch pte = refl
stored_dirty load pte = refl
stored_dirty store pte = rw (dirtied_store pte) refl

walk_leaf-Outcome :
    (m : Machine) (va : ℕ) (access : Access) (addr pte : ℕ) (superpage : Bool)
    → Outcome m va access (walk_leaf m va access addr pte superpage)
unfolding walk_leaf write_dirty
walk_leaf-Outcome m va access addr pte superpage =
    if_intro (Outcome m va access) (not (permitted m.cpu.status access pte))
      (λ e. page_fault-Outcome m va access)
      λ e.
        slot-Granted m _ va access _ (update_self _ ((va >>> 12) % tlb_size) _) refl refl
          (rw (permitted-dirtied m.cpu.status access pte) (ground arith)) (stored_dirty access pte)
          (if_intro (λ (m' : Machine). m'.cpu ≡ m.cpu) (is_store access && not (test pte 2))
            (λ e'. refl) (λ e'. refl))

walk_l2-Outcome :
    (m : Machine) (va : ℕ) (access : Access) (l1 : ℕ) → Outcome m va access (walk_l2 m va access l1)
unfolding walk_l2
walk_l2-Outcome m va access l1 =
    let addr = l2_pte_address l1 va in
    let pte = mem_read32 m.mem addr in
    if_intro (Outcome m va access) (bad_pte_address addr) (λ e. page_fault-Outcome m va access)
      λ e.
        if_intro (Outcome m va access) (not (test pte 1)) (λ e'. page_fault-Outcome m va access)
          (λ e'. walk_leaf-Outcome m va access addr pte false)

page_walk-Outcome :
    (m : Machine) (va : ℕ) (access : Access) → Outcome m va access (page_walk m va access)
unfolding page_walk
page_walk-Outcome m va access =
    let addr = l1_pte_address m.cpu.satp va in
    let pte = mem_read32 m.mem addr in
    if_intro (Outcome m va access) (bad_pte_address addr) (λ e. page_fault-Outcome m va access)
      λ e.
        if_intro (Outcome m va access) (not (test pte 1)) (λ e'. page_fault-Outcome m va access)
          λ e'.
            if_intro (Outcome m va access) (test pte 0xe0)
              (λ e''. walk_leaf-Outcome m va access addr pte true)
              (λ e''. walk_l2-Outcome m va access pte)

tlb_hit-Outcome :
    (m : Machine) (va : ℕ) (access : Access) (te : TlbEntry)
    → m.tlb ((va >>> 12) % tlb_size) ≡ te
    → te.valid ≡ true
    → te.va_tag ≡ va >>> 12
    → Outcome m va access (tlb_hit m va access ((va >>> 12) % tlb_size) te)
unfolding tlb_hit
tlb_hit-Outcome m va access te slot valid tag =
    if_intro (Outcome m va access) (not (permitted m.cpu.status access te.flags))
      (λ e. page_fault-Outcome m va access)
      λ e.
        if_intro (Outcome m va access) (is_store access && not (test te.flags 2))
          (λ e'.
            slot-Granted m _ va access _ (update_self _ ((va >>> 12) % tlb_size) _) valid tag
              (rw (permitted-SameBits m.cpu.status access (dirty-SameBits te.flags (ground arith)))
                (ground arith))
              (now_dirty (is_store access) (dirty_set te.flags (ground arith))) refl)
          (λ e'. slot-Granted m m va access te slot valid tag (ground arith) (ground arith) refl)

-- With the MMU on and an address below the devices, by the TLB or by the page tables: a translation
-- that succeeds leaves in the TLB an entry for that page whose U bit (in user mode) and X, R or W
-- bit permit the access, with the D bit set after a store, and the processor as it was; one that
-- fails has recorded the address and the cause of that kind of access, saved the status, the flags
-- and the address of the instruction, entered supervisor mode, gone to the address that the vector
-- table has for that cause (to 0 where the vector lies behind the memory), and changed no other
-- register, nor the memory, nor the TLB.
pub mmu_translate-Outcome :
    (m : Machine) (va : ℕ) (access : Access)
    → test m.cpu.satp 0x80000000 ≡ true
    → va < mmio_base
    → Outcome m va access (mmu_translate m va access)
unfolding mmu_translate
mmu_translate-Outcome m va access on low =
    let idx = (va >>> 12) % tlb_size in
    let te = m.tlb idx in
    if_intro (Outcome m va access) (not (test m.cpu.satp 0x80000000)) (λ e. absurd (ground arith))
      λ e.
        if_intro (Outcome m va access) (leb mmio_base va) (λ e'. absurd (ground arith))
          λ e'.
            if_intro (Outcome m va access) (te.valid && te.va_tag == (va >>> 12))
              (λ hit. tlb_hit-Outcome m va access te refl (ground arith) (ground arith))
              (λ miss. page_walk-Outcome m va access)
