-- ===== src/Assembler/Encode.antt =====
-- The `switch` over the formats in `assemble_line`: what an instruction emits.
pub mod Fields
pub mod Immediate
pub mod Target
pub mod Range
use cputwo.Base.{
  ℕ, ◌+◌, ◌*◌, Bool, true, false, not, ◌&&◌, ◌||◌, Option, none, some, List, [], ◌∷◌, ltb, leb,
  ◌==◌, if◌then◌else◌, bit_or, ◌<<<◌,
}
use cputwo.Base.Int.{ℤ, pos, negsuc, ◌-ℤ◌, low_bits, shift_ℤ}
use cputwo.Assembler.Token.{Token}
use cputwo.Assembler.Parse.{Parse, ok, bad}
use cputwo.Assembler.Parser.{Parser, pure, ◌>>=◌, ◌>>◌, lift}
use cputwo.Assembler.State.{Asm}
use cputwo.Assembler.Expr.{Pass, is_second, checked}
use cputwo.Assembler.Opcodes.{
  InstrFmt, fmt_r3, fmt_r2, fmt_rshift, fmt_i_signed, fmt_i_unsigned, fmt_i_shift, fmt_mem,
  fmt_branch, fmt_jump, fmt_movi, fmt_movhi, fmt_none, fmt_movi32, fmt_cmp, fmt_cmpi, fmt_ret,
  fmt_br, fmt_call, fmt_push, fmt_pop, fmt_mem_idx, OpcodeEntry,
}
use cputwo.Assembler.Operands.{
  register, expect_comma, expect_lbracket, expect_rbracket, expression, parse_mem_operand,
  index_register, peek_sym_ref,
}
use cputwo.Linker.Reloc.{reloc_movi32_lo, reloc_movi32_hi, reloc_branch20, reloc_jump20}

-- A call of `emit_word`, of `emit_reloc`, or of `asm_error` after which the line goes on.
pub data Item : Type 0 where
  word : ℕ → Item
  reloc : ℕ → ℕ → ℕ → Item
  complain : Item

-- `opcode << 24 | rd << 20 | rs1 << 16 | rs2 << 12`
unfoldable pub enc_r : ℕ → ℕ → ℕ → ℕ → ℕ
enc_r opcode rd rs1 rs2 =
    bit_or (bit_or (bit_or (opcode <<< 24) (rd <<< 20)) (rs1 <<< 16)) (rs2 <<< 12)

-- `opcode << 24 | rd << 20 | rs1 << 16 | imm`
unfoldable pub enc_i : ℕ → ℕ → ℕ → ℕ → ℕ
enc_i opcode rd rs1 imm = bit_or (bit_or (bit_or (opcode <<< 24) (rd <<< 20)) (rs1 <<< 16)) imm

-- `opcode << 24 | rd << 20 | low`
unfoldable pub enc_j : ℕ → ℕ → ℕ → ℕ
enc_j opcode rd low = bit_or (bit_or (opcode <<< 24) (rd <<< 20)) low

-- `lo <= v && v <= hi` for a range from `- low` to `high`.
unfoldable pub in_range : ℕ → ℕ → ℤ → Bool
in_range low high (pos n) = leb n high
in_range low high (negsuc n) = ltb n low

-- `if (pass == 2 && …) { asm_error(…); return; }`
unfoldable pub check_range : Pass → ℕ → ℕ → ℤ → Parser (Unit {0})
check_range pass low high v ts =
    if is_second pass && not (in_range low high v) then bad else ok (tt, ts)

-- The same in both passes.
unfoldable pub check_always : ℕ → ℕ → ℤ → Parser (Unit {0})
check_always low high v ts = if not (in_range low high v) then bad else ok (tt, ts)

unfoldable pub one_word : ℕ → Parser (List Item)
one_word w = pure (word w ∷ [])

unfoldable pub two_words : ℕ → ℕ → Parser (List Item)
two_words w w2 = pure (word w ∷ word w2 ∷ [])

-- `rd, rs1, imm` with the range of the immediate.
unfoldable pub encode_imm : Asm → Pass → ℕ → ℕ → ℕ → Parser (List Item)
encode_imm st pass opcode low high = do
  rd ← register
  expect_comma
  rs1 ← register
  expect_comma
  imm ← expression pass st.symtab
  check_range pass low high imm
  one_word (enc_i opcode rd rs1 (low_bits 16 imm))

-- `rd, imm16`
unfoldable pub encode_movi : Asm → Pass → ℕ → Parser (List Item)
encode_movi st pass opcode = do
  rd ← register
  expect_comma
  imm ← expression pass st.symtab
  check_range pass 0 65535 imm
  one_word (enc_j opcode rd (low_bits 16 imm))

-- A target relative to the instruction's address.
unfoldable pub encode_relative : Asm → Pass → ℕ → ℕ → Parser (List Item)
encode_relative st pass opcode rd = do
  target ← expression pass st.symtab
  offset ← lift (checked (target -ℤ pos st.org_addr))
  check_range pass 524288 524287 offset
  one_word (enc_j opcode rd (low_bits 20 offset))

-- In an object file, a target in another object is a relocation.
unfoldable pub encode_target : Asm → Pass → ℕ → ℕ → ℕ → Parser (List Item)
encode_target st pass kind opcode rd ts =
    if st.object_mode && is_second pass
    then elim (peek_sym_ref st.symtab ts) [
      | some (i, ext, addend) ↦
          if ext
          then ok (reloc kind i addend ∷ word (enc_j opcode rd 0) ∷ [], ts)
          else encode_relative st pass opcode rd ts
      | none ↦ encode_relative st pass opcode rd ts
    ]
    else encode_relative st pass opcode rd ts

-- The two halves of a 32-bit value.
unfoldable pub encode_halves : Asm → Pass → ℕ → Parser (List Item)
encode_halves st pass rd = do
  v ← expression pass st.symtab
  two_words (enc_j 0x0f rd (low_bits 16 v)) (enc_j 0x13 rd (low_bits 16 (shift_ℤ v 16)))

unfoldable pub encode_movi32 : Asm → Pass → ℕ → Parser (List Item)
encode_movi32 st pass rd ts =
    if st.object_mode && is_second pass
    then elim (peek_sym_ref st.symtab ts) [
      | some (i, ext, addend) ↦ ok (
        reloc reloc_movi32_lo i addend
            ∷ word (enc_j 0x0f rd 0)
            ∷ reloc reloc_movi32_hi i addend
            ∷ word (enc_j 0x13 rd 0)
            ∷ [],
        ts,
      )
      | none ↦ encode_halves st pass rd ts
    ]
    else encode_halves st pass rd ts

-- CMPI reports an immediate out of range and goes on.
unfoldable pub cmpi_items : Pass → ℕ → ℤ → List Item
cmpi_items pass w imm =
    if is_second pass && not (in_range 0 65535 imm) then complain ∷ word w ∷ [] else word w ∷ []

unfoldable pub encode : Asm → Pass → OpcodeEntry → InstrFmt → Parser (List Item)
encode st pass e fmt_none = one_word (e.opcode <<< 24)
encode st pass e fmt_r3 = do
  rd ← register
  expect_comma
  rs1 ← register
  expect_comma
  rs2 ← register
  one_word (enc_r e.opcode rd rs1 rs2)
encode st pass e fmt_r2 = do
  rd ← register
  expect_comma
  rs1 ← register
  one_word (enc_r e.opcode rd rs1 0)
encode st pass e fmt_rshift = do
  rd ← register
  expect_comma
  rs1 ← register
  expect_comma
  shval ← expression pass st.symtab
  check_always 0 31 shval
  one_word (enc_i e.opcode rd rs1 (low_bits 32 shval <<< 7))
encode st pass e fmt_i_signed = encode_imm st pass e.opcode 32768 32767
encode st pass e fmt_i_unsigned = encode_imm st pass e.opcode 0 65535
encode st pass e fmt_i_shift = encode_imm st pass e.opcode 0 31
encode st pass e fmt_movi = encode_movi st pass e.opcode
encode st pass e fmt_movhi = encode_movi st pass e.opcode
encode st pass e fmt_mem = do
  rd ← register
  expect_comma
  (rs1, imm) ← parse_mem_operand pass st.symtab
  one_word (enc_i e.opcode rd rs1 (low_bits 16 imm))
encode st pass e fmt_branch = encode_target st pass reloc_branch20 0x0d e.cond
encode st pass e fmt_jump = do
  rd ← register
  expect_comma
  encode_target st pass reloc_jump20 0x0e rd
encode st pass e fmt_call = encode_target st pass reloc_jump20 0x0e 14
encode st pass e fmt_movi32 = do rd ← register; expect_comma; encode_movi32 st pass rd
encode st pass e fmt_cmp = do
  rs1 ← register
  expect_comma
  rs2 ← register
  one_word (enc_r e.opcode 0 rs1 rs2)
encode st pass e fmt_cmpi = do
  rs1 ← register
  expect_comma
  imm ← expression pass st.symtab
  pure (cmpi_items pass (enc_i e.opcode 0 rs1 (low_bits 16 imm)) imm)
encode st pass e fmt_ret = one_word (enc_r 0x27 15 14 0)
encode st pass e fmt_br = do rs1 ← register; one_word (enc_r 0x27 15 rs1 0)
encode st pass e fmt_push = do
  rd ← register
  two_words (enc_i 0x14 13 13 0xfffc) (enc_i 0x0c rd 13 0)
encode st pass e fmt_pop = do rd ← register; two_words (enc_i 0x0b rd 13 0) (enc_i 0x14 13 13 4)
encode st pass e fmt_mem_idx = do
  rd ← register
  expect_comma
  expect_lbracket
  rs1 ← register
  rs2 ← index_register
  expect_rbracket
  one_word (enc_r e.opcode rd rs1 rs2)
