-- ===== src/Linker/Reloc/Jump.antt =====
-- What the emulator does with the words that the linker has patched.
use cputwo.Base.{
  ◌-◌, ap, sym, ◌∙◌, ℕ, ◌+◌, ◌*◌, ◌/◌, ◌%◌, ◌^◌, ◌<◌, ◌≤◌, ◌≡◌, true, false, some, ltb,
  if◌then◌else◌, bit_and, bit_or, ◌>>>◌, add32, sub32, update_self, refl, arith,
}
use cputwo.Base.Bits.{test_pow, bit_and_mask, bit_and_shift, bit_or_fields, bit_or_fields_low}
use cputwo.Emulator.Machine.{Machine, Host, set_reg, with_cpu}
use cputwo.Emulator.Decode.{decode, sext20, opcode_of, jmp}
use cputwo.Emulator.Run.{execute, execute_cpu}
use cputwo.Linker.Reloc.{reloc_jump20, reloc_branch20, patch, out_of_range}
use cputwo.Emulator.Alu.{taken}
use cputwo.Emulator.Execute.{exec_branch}

-- A word with its low 20 digits replaced.
replaced20 :
    (w x : ℕ)
    → w < 2 ^ 32
    → bit_or (bit_and w 0xfff00000) (bit_and x 0xfffff) ≡ w / 2 ^ 20 * 2 ^ 20 + x % 2 ^ 20
replaced20 w x h =
    rw
      (
        bit_and_shift 20 w 0xfff,
        bit_and_mask 12 (w / 2 ^ 20),
        bit_and_mask 20 x,
        bit_or_fields 20 (w / 2 ^ 20 % 2 ^ 12) (x % 2 ^ 20) (omega arith),
      )
      (omega arith)

pub sext20_lem :
    (x : ℕ) → x < 2 ^ 20 → sext20 x ≡ (if ltb x (2 ^ 19) then x else x + (2 ^ 32 - 2 ^ 20))
unfolding sext20
sext20_lem x h = rw (test_pow 19 x) (ground (arith, bit_or_fields_low 20 0xfff x h))

-- A word of which the low 20 digits are the distance reaches the address.
pub reaches :
    (s site x : ℕ)
    → s < 2 ^ 32
    → site < 2 ^ 32
    → out_of_range s site ≡ false
    → x ≡ sub32 s site % 2 ^ 20
    → add32 site (sext20 x) ≡ s
unfolding out_of_range
reaches s site x hs hp near e =
    rw (e, sext20_lem (sub32 s site % 2 ^ 20) (omega arith)) (ground arith)

pub field_op : (w : ℕ) → w < 2 ^ 32 → bit_and (w >>> 24) 0xff ≡ w / 2 ^ 24
field_op w h = omega (arith, bit_and_mask 8 (w >>> 24))

pub field_rd : (w : ℕ) → bit_and (w >>> 20) 0x0f ≡ w / 2 ^ 20 % 2 ^ 4
field_rd w = bit_and_mask 4 (w >>> 20)

-- What a patch of the low 20 bits leaves of an instruction.
pub record Patched20 (instr s site w : ℕ) : Type 0 where
  pub opcode : opcode_of (decode w).op ≡ opcode_of (decode instr).op
  pub rd : (decode w).rd ≡ (decode instr).rd
  pub target : add32 site (decode w).soff ≡ s

patched : ℕ → ℕ → ℕ → ℕ
patched instr s site = bit_or (bit_and instr 0xfff00000) (bit_and (sub32 s site) 0xfffff)

patched-Patched20 :
    (instr s site : ℕ)
    → instr < 2 ^ 32
    → s < 2 ^ 32
    → site < 2 ^ 32
    → out_of_range s site ≡ false
    → Patched20 instr s site (patched instr s site)
unfolding decode patched
patched-Patched20 instr s site hi hs hp near =
    let x = sub32 s site in
    let w = instr / 2 ^ 20 * 2 ^ 20 + x % 2 ^ 20 in
    let e = replaced20 instr x hi in
    record {
      opcode = ap opcode_of (
          ap (λ v. bit_and (v >>> 24) 0xff) e
          ∙ field_op w (omega arith)
          ∙ the_same (omega arith)
          ∙ sym (field_op instr hi));
      rd =
          ap (λ v. bit_and (v >>> 20) 0x0f) e
          ∙ field_rd w
          ∙ the_same (omega arith)
          ∙ sym (field_rd instr);
      target =
          ap (λ v. add32 site (sext20 (bit_and v 0xfffff))) e
          ∙ reaches s site (bit_and w 0xfffff) hs hp near (omega (arith, bit_and_mask 20 w));
    }
  where
    the_same : {x y : ℕ} → x ≡ y → x ≡ y
    the_same e = e

-- A relocation of the kind JUMP20 whose target is in range succeeds, keeps the opcode and the
-- register of the instruction, and the emulator, when it runs the patched word as a jump at the
-- site, goes to the symbol's address.
pub execute-patch_jump :
    (h : Host) (m : Machine) (instr s site : ℕ)
    → instr < 2 ^ 32
    → s < 2 ^ 32
    → site < 2 ^ 32
    → out_of_range s site ≡ false
    → (w : ℕ) × (patch reloc_jump20 instr s site ≡ some w)
      × (opcode_of (decode w).op ≡ opcode_of (decode instr).op)
      × ((decode w).rd ≡ (decode instr).rd)
      × ((execute h jmp (decode w) site m).cpu.r 15 ≡ s)
unfolding patch patched execute execute_cpu set_reg with_cpu
execute-patch_jump h m instr s site hi hs hp near =
    let p = patched-Patched20 instr s site hi hs hp near in
    (patched instr s site, rw near refl, p.opcode, p.rd, update_self _ 15 _ ∙ p.target)

-- A relocation of the kind BRANCH20 whose target is in range succeeds, keeps the opcode and the
-- condition of the instruction, and the emulator, when it runs the patched word as a branch at the
-- site with one of the eleven conditions and that condition is taken, goes to the symbol's
-- address.
pub exec_branch-patch_branch :
    (m : Machine) (instr s site : ℕ)
    → instr < 2 ^ 32
    → s < 2 ^ 32
    → site < 2 ^ 32
    → out_of_range s site ≡ false
    → (decode instr).rd ≤ 10
    → taken m.cpu.flags (decode instr).rd ≡ true
    → (w : ℕ) × (patch reloc_branch20 instr s site ≡ some w)
      × (opcode_of (decode w).op ≡ opcode_of (decode instr).op)
      × ((decode w).rd ≡ (decode instr).rd)
      × ((exec_branch m (decode w) site).cpu.r 15 ≡ s)
unfolding patch patched exec_branch set_reg with_cpu
exec_branch-patch_branch m instr s site hi hs hp near cond holds =
    let p = patched-Patched20 instr s site hi hs hp near in
    let defined : ltb 10 (decode instr).rd ≡ false = ground arith in
    (
      patched instr s site,
      rw near refl,
      p.opcode,
      p.rd,
      rw (p.rd, defined, holds) (update_self _ 15 _ ∙ p.target),
    )
