-- ===== src/Emulator/Keeps/Execute.antt =====
-- The cases of the `switch` that touch more than registers and flags.
use cputwo.Base.{ℕ, ◌^◌, ◌<◌, ◌≢◌, true, not, ltb, leb, ◌==◌, test, not32, if_intro, refl, arith}
use cputwo.Base.Bits.{bit_or-lt}
use cputwo.Base.Int.{sum_overflows}
use cputwo.Emulator.Machine.{Machine, Host, undefined, mem_size, mmio_base, with_cpu}
use cputwo.Emulator.Memory.Words.{mem_read32-lt}
use cputwo.Emulator.Flags.{flag_z}
use cputwo.Emulator.Decode.{Fields}
use cputwo.Emulator.Alu.{div_signed, rem_signed, div_undefined, taken}
use cputwo.Emulator.Execute.{
  load_result, at_offset, exec_div, exec_div_signed, cas_store, cas_swap, exec_cas, exec_sfence,
  exec_branch,
}
use cputwo.Emulator.Keeps.Invariant.{
  IsValid, IsHost, Keeps, Quiet-refl, Quiet-Keeps, Quiet-Keeps-trans, with_cpu-Keeps, set_reg-IsCpu,
  set_flags-IsCpu, emit-Keeps,
}
use cputwo.Emulator.Keeps.Trap.{and-lt, fault-Quiet}
use cputwo.Emulator.Keeps.Alu.{mul_result-IsCpu}
use cputwo.Emulator.Keeps.Mmu.{write32-Quiet, tlb_flush_non_global-entries}
use cputwo.Emulator.Keeps.Command.{mmio_write-Keeps}
use cputwo.Emulator.Keeps.Access.{Reads, device_read-Reads}

pub load_result-Keeps :
    {m : Machine} {bound : ℕ} (extend : ℕ → ℕ) (rd : ℕ) (out : ℕ × Machine)
    → ((x : ℕ) → x < bound → extend x < 2 ^ 32)
    → Reads bound m out
    → Keeps m (load_result extend rd out)
unfolding load_result
load_result-Keeps extend rd (x, m') h r =
    let q = r.quiet in
    Quiet-Keeps-trans q (with_cpu-Keeps q.valid (set_reg-IsCpu rd q.valid.cpu (h x r.value)))

pub exec_div-Keeps :
    {m : Machine} (quotient : ℕ → ℕ → ℕ) (rd a b : ℕ)
    → (b ≢ 0 → quotient a b < 2 ^ 32)
    → IsValid m
    → Keeps m (exec_div quotient m rd a b)
unfolding exec_div
exec_div-Keeps {m} quotient rd a b h v =
    if_intro (Keeps m) (b == 0) (λ e. Quiet-Keeps (fault-Quiet 0x04 (omega arith) v))
      (λ e. with_cpu-Keeps v (mul_result-IsCpu v.cpu rd (h (ground arith))))

ended : {m : Machine} → IsValid m → Keeps m (record m { exited = true })
ended v = record {
  valid = record { cpu = v.cpu; bytes = v.bytes; entries = v.entries };
  outside = λ ok a far. refl;
}

pub at_offset-Keeps :
    {m : Machine} (d : Fields) (access : ℕ → Machine)
    → IsValid m
    → ((a : ℕ) → a < 2 ^ 32 → Keeps m (access a))
    → Keeps m (at_offset m d access)
unfolding at_offset
at_offset-Keeps {m} d access v h =
    if_intro (Keeps m) (sum_overflows (m.cpu.r d.rs1) d.simm) (λ e. emit-Keeps undefined (ended v))
      (λ e. h _ (omega arith))

pub exec_div_signed-Keeps :
    {m : Machine} (quotient : ℕ → ℕ → ℕ) (rd a b : ℕ)
    → quotient a b < 2 ^ 32
    → IsValid m
    → Keeps m (exec_div_signed quotient m rd a b)
unfolding exec_div_signed
exec_div_signed-Keeps {m} quotient rd a b h v =
    if_intro (Keeps m) (b == 0) (λ e. Quiet-Keeps (fault-Quiet 0x04 (omega arith) v))
      λ e.
        if_intro (Keeps m) (div_undefined a b) (λ e'. emit-Keeps undefined (ended v))
          (λ e'. with_cpu-Keeps v (mul_result-IsCpu v.cpu rd h))

pub div_signed-lt : (a b : ℕ) → div_signed a b < 2 ^ 32
unfolding div_signed
div_signed-lt a b = ground arith

pub rem_signed-lt : (a b : ℕ) → rem_signed a b < 2 ^ 32
unfolding rem_signed
rem_signed-lt a b = ground arith

pub exec_sfence-Keeps : {m : Machine} → IsValid m → Keeps m (exec_sfence m)
unfolding exec_sfence
exec_sfence-Keeps {m} v =
    if_intro (Keeps m) (not (test m.cpu.status 1))
      (λ e. Quiet-Keeps (fault-Quiet 0x00 (omega arith) v))
      (λ e. record {
        valid = record {
          cpu = v.cpu;
          bytes = v.bytes;
          entries = tlb_flush_non_global-entries v.entries;
        };
        outside = λ ok a far. refl;
      })

pub exec_branch-Keeps :
    {m : Machine} (d : Fields) (pc : ℕ) → IsValid m → Keeps m (exec_branch m d pc)
unfolding exec_branch
exec_branch-Keeps {m} d pc v =
    if_intro (Keeps m) (ltb 10 d.rd) (λ e. Quiet-Keeps (fault-Quiet 0x00 (omega arith) v))
      λ e.
        if_intro (Keeps m) (taken m.cpu.flags d.rd)
          (λ e'. with_cpu-Keeps v (set_reg-IsCpu 15 v.cpu (omega arith)))
          (λ e'. Quiet-Keeps (Quiet-refl v))

module _ (h : Host) (answers : IsHost h) where
  cas_store-Keeps :
      {m : Machine} (addr val : ℕ) → val < 2 ^ 32 → IsValid m → Keeps m (cas_store h m addr val)
  unfolding cas_store
  cas_store-Keeps {m} addr val word v =
      if_intro (Keeps m) (leb mmio_base addr) (λ e. mmio_write-Keeps h answers v val word addr)
        (λ e. Quiet-Keeps (write32-Quiet addr val v (ground arith)))

  cas_swap-Keeps :
      {m : Machine} (rd rs2 addr : ℕ) (out : ℕ × Machine)
      → Reads (2 ^ 32) m out
      → Keeps m (cas_swap h rd rs2 addr out)
  unfolding cas_swap with_cpu
  cas_swap-Keeps {m} rd rs2 addr (cur, m') r =
      let q = r.quiet in
      if_intro (Keeps m) (cur == m'.cpu.r rd)
        (λ e.
          let k = cas_store-Keeps addr (m'.cpu.r rs2) (q.valid.cpu.regs rs2) q.valid in
          let flags = k.valid.cpu.words.flags in
          Quiet-Keeps-trans q (record {
            valid = record {
              cpu = set_flags-IsCpu k.valid.cpu (bit_or-lt 32 _ flag_z flags (omega arith));
              bytes = k.valid.bytes;
              entries = k.valid.entries;
            };
            outside = k.outside;
          }))
        λ e.
          let c = set_reg-IsCpu rd q.valid.cpu r.value in
          Quiet-Keeps-trans q
            (with_cpu-Keeps q.valid (set_flags-IsCpu c (and-lt _ (not32 flag_z) c.words.flags)))

  pub exec_cas-Keeps : {m : Machine} (d : Fields) → IsValid m → Keeps m (exec_cas h m d)
  unfolding exec_cas
  exec_cas-Keeps {m} d v =
      let addr = m.cpu.r d.rs1 in
      if_intro (Keeps m) (test addr 3) (λ e. Quiet-Keeps (fault-Quiet 0x01 (omega arith) v))
        λ e.
          if_intro (Keeps m) (leb mem_size addr)
            (λ e'. Quiet-Keeps (fault-Quiet 0x02 (omega arith) v))
            (λ e'. cas_swap-Keeps d.rd d.rs2 addr _ (
              if_intro (Reads (2 ^ 32) m) (leb mmio_base addr) (λ e''. device_read-Reads addr v)
                (λ e''. record { value = mem_read32-lt m.mem addr v.bytes; quiet = Quiet-refl v })))
