-- ===== src/Emulator/Tests/Witnesses.antt =====
-- The theorems on runs and on the MMU of emulator.c at concrete machines.
use cputwo.Base.{
  ℕ, zero, suc, ◌≢◌, ◌^◌, ◌<◌, ◌≡◌, true, false, some, [], ◌∷◌, refl, update, arith, bit_and,
  bit_or, ◌==◌, if_intro,
}
use cputwo.Emulator.Machine.{Machine}
use cputwo.Emulator.Memory.{mem_read32, mem_write32}
use cputwo.Emulator.Memory.Words.{IsBytes, mem_write32-IsBytes}
use cputwo.Emulator.Mmu.{
  load, store, page_fault, permitted, page_address, superpage_address, dirtied, write_dirty,
  walk_leaf, bad_pte_address, l1_pte_address, l2_pte_address, walk_l2, page_walk, mmu_translate,
}
use cputwo.Emulator.Mmu.Outcome.{Outcome, mmu_translate-Outcome}
use cputwo.Emulator.Mmu.Again.{page_again, superpage_again}
use cputwo.Emulator.Run.{cpu_step, cpu_run}
use cputwo.Emulator.Keeps.Invariant.{IsValid, IsHost, SameOutside, wrapping_buffer}
use cputwo.Base.Text.{take}
use cputwo.Emulator.Keeps.Step.{cpu_step-IsValid}
use cputwo.Emulator.Keeps.Run.{Ran, cpu_run-Ran}
use cputwo.Emulator.Tests.{blank, idle, adding_memory, adding, adding_buffer}

pub zero-IsBytes : IsBytes (λ i. 0)
zero-IsBytes i = omega arith

adding-IsValid : IsValid adding
unfolding update
adding-IsValid = record {
  cpu = record {
    regs = λ i. if_intro (λ (x : ℕ). x < 2 ^ 32) (15 == i) (λ e. omega arith) (λ e. omega arith);
    words = record {
      flags = omega arith;
      epc = omega arith;
      eflags = omega arith;
      evec = omega arith;
      cause = omega arith;
      status = omega arith;
      estatus = omega arith;
      uart_poll_divider = omega arith;
      faulting_pc = omega arith;
      satp = omega arith;
      badaddr = omega arith;
      uart_control = omega arith;
      uart_rx_byte = omega arith;
      timer_period = omega arith;
      timer_count = omega arith;
      timer_control = omega arith;
      ic_pending = omega arith;
      ic_mask = omega arith;
      blk_sector = omega arith;
      blk_buffer = omega arith;
      blk_status = omega arith;
      blk_control = omega arith;
    };
  };
  bytes = mem_write32-IsBytes (λ i. 0) 0 0x00112000 zero-IsBytes;
  entries = λ i. record {
    va_tag = omega arith;
    pa = omega arith;
    flags = omega arith;
    sp_pa_base = omega arith;
  };
}

idle-IsHost : IsHost idle
idle-IsHost = record { bytes = tt; count = omega arith }

cpu_step-IsValid_example :
    IsValid (cpu_step idle adding) × SameOutside adding_memory (cpu_step idle adding).mem
cpu_step-IsValid_example =
    cpu_step-IsValid idle adding idle-IsHost adding-IsValid (λ e. absurd (ground arith))

adding_buffers : (j : ℕ) → (cpu_run (take j (idle ∷ [])) adding).cpu.blk_buffer ≢ wrapping_buffer
unfolding cpu_run take
adding_buffers zero = λ e. absurd (ground arith)
adding_buffers (suc zero) = λ e. absurd (omega (arith, e, adding_buffer))
adding_buffers (suc (suc j)) = λ e. absurd (omega (arith, e, adding_buffer))

cpu_run-Ran_example : (k : ℕ) × Ran (idle ∷ []) adding k
cpu_run-Ran_example = cpu_run-Ran (idle ∷ []) adding (idle-IsHost, tt) adding-IsValid adding_buffers

-- The MMU on, with its first table at 0x1000: a table of pages, or a superpage, for 0x00400000.
abbrev paged : Machine
paged = record blank {
  cpu = record (blank.cpu) { satp = 0x80000001; status = 1 };
  mem = mem_write32 (mem_write32 (λ i. 0) 0x1004 0x2001) 0x2000 0x51e1;
}

abbrev superpaged : Machine
superpaged = record blank {
  cpu = record (blank.cpu) { satp = 0x80000001; status = 1 };
  mem = mem_write32 (λ i. 0) 0x1004 0x4001e1;
}

mmu_translate-Outcome_example : Outcome paged 0x400123 store (mmu_translate paged 0x400123 store)
mmu_translate-Outcome_example = mmu_translate-Outcome paged 0x400123 store refl (omega arith)

abbrev after_page : Machine
after_page = (mmu_translate paged 0x400123 load).1

page_found : mmu_translate paged 0x400123 load ≡ (some 0x5123, after_page)
unfolding page_fault permitted page_address superpage_address dirtied write_dirty walk_leaf
    bad_pte_address l1_pte_address l2_pte_address walk_l2 page_walk mmu_translate mem_read32
    mem_write32 update
page_found = refl

page_small : (after_page.tlb 0).superpage ≡ false
unfolding page_fault permitted page_address superpage_address dirtied write_dirty walk_leaf
    bad_pte_address l1_pte_address l2_pte_address walk_l2 page_walk mmu_translate mem_read32
    mem_write32 update
page_small = refl

page_again_example : mmu_translate after_page 0x400ffc load ≡ (some 0x5ffc, after_page)
page_again_example =
    page_again paged after_page 0x400123 0x400ffc 0x5123 load refl (omega arith) (omega arith) refl
      refl page_found page_small

abbrev after_superpage : Machine
after_superpage = (mmu_translate superpaged 0x400123 load).1

superpage_found : mmu_translate superpaged 0x400123 load ≡ (some 0x400123, after_superpage)
unfolding page_fault permitted page_address superpage_address dirtied write_dirty walk_leaf
    bad_pte_address l1_pte_address l2_pte_address walk_l2 page_walk mmu_translate mem_read32
    mem_write32 update
superpage_found = refl

superpage_large : (after_superpage.tlb 0).superpage ≡ true
unfolding page_fault permitted page_address superpage_address dirtied write_dirty walk_leaf
    bad_pte_address l1_pte_address l2_pte_address walk_l2 page_walk mmu_translate mem_read32
    mem_write32 update
superpage_large = refl

-- The second load of one word of a superpage, at 0x400123, goes to 0x1127.
superpage_again_example :
    (0x400123
      ≡ superpage_address
          (mem_read32 superpaged.mem (l1_pte_address superpaged.cpu.satp 0x400123))
          0x400123)
    × (mmu_translate after_superpage 0x400123 load ≡ (
      some (bit_or (l1_pte_address superpaged.cpu.satp 0x400123) (bit_and 0x400123 0x3fffff)),
      after_superpage,
    ))
superpage_again_example =
    superpage_again superpaged after_superpage 0x400123 0x400123 0x400123 load refl (omega arith)
      (omega arith) refl refl superpage_found superpage_large
