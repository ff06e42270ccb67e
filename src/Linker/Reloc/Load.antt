-- ===== src/Linker/Reloc/Load.antt =====
-- MOVI and MOVHI with the two halves of an address, as the linker patches them.
use cputwo.Base.{
  ap, sym, ◌∙◌, ℕ, ◌+◌, ◌*◌, ◌/◌, ◌%◌, ◌^◌, ◌<◌, ◌≡◌, some, bit_and, bit_or, ◌<<<◌, ◌>>>◌, u32,
  update_self, refl, arith,
}
use cputwo.Base.Bits.{bit_and_mask, bit_and_shift, bit_or_fields, bit_or_fields_low}
use cputwo.Emulator.Machine.{Machine, Host, set_reg, with_cpu}
use cputwo.Emulator.Decode.{decode, opcode_of, movi, movhi}
use cputwo.Emulator.Run.{execute, execute_cpu}
use cputwo.Linker.Reloc.{reloc_movi32_lo, reloc_movi32_hi, patch}
use cputwo.Linker.Reloc.Jump.{field_op, field_rd}

-- A word with its low 16 digits replaced.
replaced16 :
    (w x : ℕ)
    → w < 2 ^ 32
    → bit_or (bit_and w 0xffff0000) (bit_and x 0xffff) ≡ w / 2 ^ 16 * 2 ^ 16 + x % 2 ^ 16
replaced16 w x h =
    rw
      (
        bit_and_shift 16 w 0xffff,
        bit_and_mask 16 (w / 2 ^ 16),
        bit_and_mask 16 x,
        bit_or_fields 16 (w / 2 ^ 16 % 2 ^ 16) (x % 2 ^ 16) (omega arith),
      )
      (omega arith)

half : ℕ → ℕ → ℕ
half instr x = bit_or (bit_and instr 0xffff0000) (bit_and x 0xffff)

-- What a patch of the low 16 bits leaves of an instruction.
record Patched16 (instr x w : ℕ) : Type 0 where
  opcode : opcode_of (decode w).op ≡ opcode_of (decode instr).op
  rd : (decode w).rd ≡ (decode instr).rd
  imm : (decode w).imm16 ≡ x % 2 ^ 16

half-Patched16 : (instr x : ℕ) → instr < 2 ^ 32 → Patched16 instr x (half instr x)
unfolding decode half
half-Patched16 instr x h =
    let w = instr / 2 ^ 16 * 2 ^ 16 + x % 2 ^ 16 in
    let e = replaced16 instr x h in
    let fits : w < 2 ^ 32 = omega arith in
    let same_op : w / 2 ^ 24 ≡ instr / 2 ^ 24 = omega arith in
    let same_rd : w / 2 ^ 20 % 2 ^ 4 ≡ instr / 2 ^ 20 % 2 ^ 4 = omega arith in
    record {
      opcode = ap opcode_of (
          ap (λ v. bit_and (v >>> 24) 0xff) e ∙ field_op w fits ∙ same_op ∙ sym (field_op instr h));
      rd = ap (λ v. bit_and (v >>> 20) 0x0f) e ∙ field_rd w ∙ same_rd ∙ sym (field_rd instr);
      imm = ap (λ v. bit_and v 0xffff) e ∙ bit_and_mask 16 w ∙ (omega arith);
    }

-- The two halves of a word, put together.
pub join_halves :
    (s : ℕ)
    → s < 2 ^ 32
    → bit_or (bit_and (s % 2 ^ 16) 0xffff) (u32 ((s / 2 ^ 16 % 2 ^ 16) <<< 16)) ≡ s
join_halves s h =
    rw
      (
        bit_and_mask 16 (s % 2 ^ 16),
        bit_or_low_high (s % 2 ^ 16 % 2 ^ 16) (s / 2 ^ 16 % 2 ^ 16) (omega arith) (omega arith),
      )
      (omega arith)
  where
    bit_or_low_high :
        (low high : ℕ)
        → low < 2 ^ 16
        → high < 2 ^ 16
        → bit_or low (u32 (high <<< 16)) ≡ low + high * 2 ^ 16
    bit_or_low_high low high a b =
        ap (bit_or low) {x = u32 (high <<< 16)} {y = high * 2 ^ 16} (omega arith)
        ∙ bit_or_fields_low 16 high low a

-- Relocations of the kinds MOVI32_LO and MOVI32_HI on two instructions with the same register
-- succeed and keep the opcode and the register of both, and the emulator, when it runs the first
-- patched word as MOVI and then the second as MOVHI, has the symbol's address in that register.
pub execute-patch_movi32 :
    (h : Host) (m : Machine) (low high s site site2 : ℕ)
    → low < 2 ^ 32
    → high < 2 ^ 32
    → s < 2 ^ 32
    → (decode high).rd ≡ (decode low).rd
    → (w w2 : ℕ) × (patch reloc_movi32_lo low s site ≡ some w)
      × (patch reloc_movi32_hi high s site2 ≡ some w2)
      × (opcode_of (decode w).op ≡ opcode_of (decode low).op)
      × (opcode_of (decode w2).op ≡ opcode_of (decode high).op)
      × ((execute h movhi (decode w2) site2 (execute h movi (decode w) site m)).cpu.r
            (decode low).rd
          ≡ s)
unfolding patch half execute execute_cpu set_reg with_cpu
execute-patch_movi32 h m low high s site site2 hl hh hs same =
    let p = half-Patched16 low s hl in
    let q = half-Patched16 high (s >>> 16) hh in
    (
      half low s,
      half high (s >>> 16),
      refl,
      refl,
      p.opcode,
      q.opcode,
      rw
          (
            q.rd,
            same,
            p.rd,
            p.imm,
            q.imm,
            update_self _ (decode low).rd _,
            update_self m.cpu.r (decode low).rd (s % 2 ^ 16),
          )
          (join_halves s hs),
    )
