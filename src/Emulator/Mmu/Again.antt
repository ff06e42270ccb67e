-- ===== src/Emulator/Mmu/Again.antt =====
-- A page that has been walked, accessed again through the TLB.
use cputwo.Base.{
  ℕ, ◌+◌, ◌*◌, ◌/◌, ◌%◌, ◌^◌, ◌<◌, ◌≡◌, ◌⊎◌, inl, inr, true, false, not, ◌&&◌, Option, none, some,
  test, bit_and, bit_or, u32, ◌<<<◌, ◌>>>◌, leb, ◌==◌, if_intro, update_self, refl, ap, ◌∙◌, subst,
  ==_iff, arith,
}
use cputwo.Base.Bits.{bit_and_mask, bit_or_fields}
use cputwo.Emulator.Machine.{Machine, TlbEntry, tlb_size, mmio_base}
use cputwo.Emulator.Memory.{mem_read32}
use cputwo.Emulator.Mmu.{
  is_store, Access, page_fault, permitted, hit_address, tlb_hit, dirtied, page_address,
  superpage_address, walk_leaf, bad_pte_address, l1_pte_address, l2_pte_address, walk_l2, page_walk,
  mmu_translate,
}
use cputwo.Emulator.Mmu.Outcome.{permitted_intro, Outcome, Granted, mmu_translate-Outcome}

-- The slot of the TLB for an address.
abbrev pub slot : Machine → ℕ → TlbEntry
slot m va = m.tlb ((va >>> 12) % tlb_size)

-- What a walk has put into the slot, beside the address that it gives: a 4 KB page with its frame,
-- or a superpage with the address of its entry in the page table.
abbrev pub Walked : Machine → ℕ → Option ℕ × Machine → Type 0
Walked m va (none, m') = Unit
Walked m va (some pa, m') =
    (((slot m' va).superpage ≡ false)
      × ((q : ℕ) × ((slot m' va).pa ≡ q * 2 ^ 12) × (pa ≡ q * 2 ^ 12 + va % 2 ^ 12)))
    ⊎ (((slot m' va).superpage ≡ true)
        × ((slot m' va).sp_pa_base ≡ l1_pte_address m.cpu.satp va)
        × (pa ≡ superpage_address (mem_read32 m.mem (l1_pte_address m.cpu.satp va)) va))

page_fault-Walked : (m : Machine) (va : ℕ) (access : Access) → Walked m va (page_fault m va access)
unfolding page_fault
page_fault-Walked m va access = tt

page_offset : (q va : ℕ) → bit_or (q * 2 ^ 12) (bit_and va 0xfff) ≡ q * 2 ^ 12 + va % 2 ^ 12
page_offset q va = rw (bit_and_mask 12 va) (bit_or_fields 12 q (va % 2 ^ 12) (omega arith))

-- The frame of an entry is a multiple of 4 KB.
frame_lem : (pte : ℕ) → u32 (bit_and (pte >>> 12) 0xfffff <<< 12) ≡ pte / 2 ^ 12 % 2 ^ 20 * 2 ^ 12
frame_lem pte = omega (arith, bit_and_mask 20 (pte >>> 12))

page_address_sum : (pte va : ℕ) → page_address pte va ≡ pte / 2 ^ 12 % 2 ^ 20 * 2 ^ 12 + va % 2 ^ 12
unfolding page_address
page_address_sum pte va = rw (frame_lem pte) (page_offset (pte / 2 ^ 12 % 2 ^ 20) va)

-- The entry that a leaf leaves in the slot of the page.
page_leaf-Walked :
    (m : Machine) (va : ℕ) (access : Access) (addr pte : ℕ)
    → Walked m va (walk_leaf m va access addr pte false)
unfolding walk_leaf
page_leaf-Walked m va access addr pte =
    if_intro (Walked m va) (not (permitted m.cpu.status access pte))
      (λ e. page_fault-Walked m va access)
      λ e. inl (
        ap (λ (te : TlbEntry). te.superpage) (update_self _ ((va >>> 12) % tlb_size) _),
        (
          dirtied access pte / 2 ^ 12 % 2 ^ 20,
          ap (λ (te : TlbEntry). te.pa) (update_self _ ((va >>> 12) % tlb_size) _)
              ∙ frame_lem (dirtied access pte),
          page_address_sum (dirtied access pte) va,
        ),
      )

superpage_leaf-Walked :
    (m : Machine) (va : ℕ) (access : Access)
    → let addr = l1_pte_address m.cpu.satp va in
      Walked m va (walk_leaf m va access addr (mem_read32 m.mem addr) true)
unfolding walk_leaf
superpage_leaf-Walked m va access =
    let addr = l1_pte_address m.cpu.satp va in
    if_intro (Walked m va) (not (permitted m.cpu.status access (mem_read32 m.mem addr)))
      (λ e. page_fault-Walked m va access)
      λ e. inr (
        ap (λ (te : TlbEntry). te.superpage) (update_self _ ((va >>> 12) % tlb_size) _),
        ap (λ (te : TlbEntry). te.sp_pa_base) (update_self _ ((va >>> 12) % tlb_size) _),
        refl,
      )

page_walk-Walked : (m : Machine) (va : ℕ) (access : Access) → Walked m va (page_walk m va access)
unfolding page_walk walk_l2
page_walk-Walked m va access =
    let l1 = l1_pte_address m.cpu.satp va in
    let pte1 = mem_read32 m.mem l1 in
    let l2 = l2_pte_address pte1 va in
    let pte2 = mem_read32 m.mem l2 in
    let failed = page_fault-Walked m va access in
    if_intro (Walked m va) (bad_pte_address l1) (λ a. failed)
      λ a.
        if_intro (Walked m va) (not (test pte1 1)) (λ b. failed)
          λ b.
            if_intro (Walked m va) (test pte1 0xe0) (λ c. superpage_leaf-Walked m va access)
              λ c.
                if_intro (Walked m va) (bad_pte_address l2) (λ d. failed)
                  λ d.
                    if_intro (Walked m va) (not (test pte2 1)) (λ e. failed)
                      (λ e. page_leaf-Walked m va access l2 pte2)

-- A hit on an entry that grants the access changes nothing.
tlb_hit_again :
    (m : Machine) (va : ℕ) (access : Access) (idx : ℕ) (te : TlbEntry)
    → permitted m.cpu.status access te.flags ≡ true
    → (is_store access && not (test te.flags 2)) ≡ false
    → tlb_hit m va access idx te ≡ (some (hit_address te va), m)
unfolding tlb_hit
tlb_hit_again m va access idx te p d = rw (p, d) refl

-- The address that a hit gives after a walk.
page_hit :
    (m m' : Machine) (va va2 pa : ℕ)
    → Walked m va (some pa, m')
    → (slot m' va).superpage ≡ false
    → hit_address (slot m' va) va2 ≡ pa / 4096 * 4096 + va2 % 4096
unfolding hit_address
page_hit m m' va va2 pa (inl (s, (q, frame, sum))) page =
    rw (page, frame, page_offset q va2) (omega (arith, sum))
page_hit m m' va va2 pa (inr (s, base, sum)) page = absurd (ground arith)

superpage_hit :
    (m m' : Machine) (va va2 pa : ℕ)
    → Walked m va (some pa, m')
    → (slot m' va).superpage ≡ true
    → (pa ≡ superpage_address (mem_read32 m.mem (l1_pte_address m.cpu.satp va)) va)
      × (hit_address (slot m' va) va2
          ≡ bit_or (l1_pte_address m.cpu.satp va) (bit_and va2 0x3fffff))
unfolding hit_address
superpage_hit m m' va va2 pa (inl (s, rest)) big = absurd (ground arith)
superpage_hit m m' va va2 pa (inr (s, base, sum)) big = (sum, rw (big, base) refl)

again :
    (m m' : Machine) (va va2 : ℕ) (access : Access)
    → test m.cpu.satp 0x80000000 ≡ true
    → va2 < mmio_base
    → va2 >>> 12 ≡ va >>> 12
    → Granted m va access m'
    → mmu_translate m' va2 access ≡ (some (hit_address (slot m' va) va2), m')
unfolding mmu_translate
again m m' va va2 access on low2 same g =
    let te = slot m' va in
    let still_on : test m'.cpu.satp 0x80000000 ≡ true = rw g.cpu on in
    let below : leb mmio_base va2 ≡ false = ground arith in
    let hit : (te.valid && te.va_tag == (va >>> 12)) ≡ true =
      rw g.valid ((==_iff te.va_tag (va >>> 12)).1 g.tag) in
    let permits : permitted m'.cpu.status access te.flags ≡ true =
      rw g.cpu (permitted_intro m.cpu.status access te.flags g.mode g.allowed) in
    rw (still_on, below, same, hit)
      (tlb_hit_again m' va2 access ((va >>> 12) % tlb_size) te permits g.dirty)

-- A miss walks the tables.
miss-Walked :
    (m : Machine) (va : ℕ) (access : Access)
    → test m.cpu.satp 0x80000000 ≡ true
    → va < mmio_base
    → ((slot m va).valid && (slot m va).va_tag == (va >>> 12)) ≡ false
    → Walked m va (mmu_translate m va access)
unfolding mmu_translate
miss-Walked m va access on low miss =
    let below : leb mmio_base va ≡ false = ground arith in
    rw (on, below, miss) (page_walk-Walked m va access)

-- With the MMU on, when a translation that missed the TLB has succeeded through a 4 KB page, the
-- same kind of access to any address of that page right after it hits the TLB, changes nothing
-- and gives the offset of the new address in the same physical page.
pub page_again :
    (m m' : Machine) (va va2 pa : ℕ) (access : Access)
    → test m.cpu.satp 0x80000000 ≡ true
    → va < mmio_base
    → va2 < mmio_base
    → va2 >>> 12 ≡ va >>> 12
    → ((slot m va).valid && (slot m va).va_tag == (va >>> 12)) ≡ false
    → mmu_translate m va access ≡ (some pa, m')
    → (slot m' va).superpage ≡ false
    → mmu_translate m' va2 access ≡ (some (pa / 4096 * 4096 + va2 % 4096), m')
page_again m m' va va2 pa access on low low2 same miss e page =
    let walked : Walked m va (some pa, m') =
      subst (Walked m va) e (miss-Walked m va access on low miss) in
    let granted : Granted m va access m' =
      subst (Outcome m va access) e (mmu_translate-Outcome m va access on low) in
    again m m' va va2 access on low2 same granted
    ∙ ap (λ a. (some a, m')) (page_hit m m' va va2 pa walked page)

-- With the MMU on, when a translation that missed the TLB has succeeded through a superpage, it
-- gave the offset in the 4 MB page that the first-level entry names; but the same kind of access
-- to any address of that 4 KB page right after it hits the TLB and gives that offset combined
-- with the address of the page-table entry itself.
pub superpage_again :
    (m m' : Machine) (va va2 pa : ℕ) (access : Access)
    → test m.cpu.satp 0x80000000 ≡ true
    → va < mmio_base
    → va2 < mmio_base
    → va2 >>> 12 ≡ va >>> 12
    → ((slot m va).valid && (slot m va).va_tag == (va >>> 12)) ≡ false
    → mmu_translate m va access ≡ (some pa, m')
    → (slot m' va).superpage ≡ true
    → (pa ≡ superpage_address (mem_read32 m.mem (l1_pte_address m.cpu.satp va)) va)
      × (mmu_translate m' va2 access
          ≡ (some (bit_or (l1_pte_address m.cpu.satp va) (bit_and va2 0x3fffff)), m'))
superpage_again m m' va va2 pa access on low low2 same miss e big =
    let walked : Walked m va (some pa, m') =
      subst (Walked m va) e (miss-Walked m va access on low miss) in
    let granted : Granted m va access m' =
      subst (Outcome m va access) e (mmu_translate-Outcome m va access on low) in
    let (walk, hit) = superpage_hit m m' va va2 pa walked big in
    (walk, again m m' va va2 access on low2 same granted ∙ ap (λ a. (some a, m')) hit)
