-- ===== src/Assembler/Listing/Registers.antt =====
-- What the assembler encodes for printed registers, shifts and memory operands.
use cputwo.Base.{ℕ, ◌%◌, ◌^◌, ◌<◌, ◌≡◌, refl, List, [], ◌∷◌, arith}
use cputwo.Assembler.Parse.{ok}
use cputwo.Assembler.State.{Asm}
use cputwo.Assembler.Expr.{second, operand, first_operand, eval_tail, eval_expr}
use cputwo.Assembler.Operands.{
  expect_comma, expect_lbracket, expect_rbracket, expression, bracket_offset, parse_mem_operand,
  index_register,
}
use cputwo.Assembler.Encode.{word, in_range, check_always, one_word, encode}
use cputwo.Emulator.Decode.{decode}
use cputwo.Emulator.Disasm.{Shape, regs3, regs2, regs_cmp, shift5, mem, idx}
use cputwo.Assembler.Listing.Rows.{fmt_of, entry_of}
use cputwo.Assembler.Listing.Tokens.{operands, decode-Fits}
use cputwo.Assembler.Listing.Words.{
  register-reg, low_bits-signed16, signed_bracket, in_bounds, low_small, word_r, word_r2, word_cmp,
  word_shift, word_i,
}

-- What the assembler makes of an instruction.
abbrev pub Encodes : Shape → List ℕ → Asm → ℕ → Type 0
Encodes s name st w =
    let op = (decode w).op in
    encode st second (entry_of name op (fmt_of op s) 0) (fmt_of op s)
      (operands s st.org_addr (decode w))
    ≡ ok (word w ∷ [], [])

module _ (name : List ℕ) (st : Asm) (w : ℕ) (h : w < 2 ^ 32) where
  pub Encodes-regs3 : w % 2 ^ 12 ≡ 0 → Encodes regs3 name st w
  unfolding encode expect_comma one_word
  Encodes-regs3 low =
      let f = decode-Fits w in
      rw
        (
          register-reg (decode w).rd _ f.rd,
          register-reg (decode w).rs1 _ f.rs1,
          register-reg (decode w).rs2 [] f.rs2,
          word_r w h low,
        )
        refl

  pub Encodes-regs2 : w % 2 ^ 16 ≡ 0 → Encodes regs2 name st w
  unfolding encode expect_comma one_word
  Encodes-regs2 low =
      let f = decode-Fits w in
      rw (register-reg (decode w).rd _ f.rd, register-reg (decode w).rs1 [] f.rs1, word_r2 w h low)
        refl

  pub Encodes-regs_cmp : (decode w).rd ≡ 0 → w % 2 ^ 12 ≡ 0 → Encodes regs_cmp name st w
  unfolding encode expect_comma one_word
  Encodes-regs_cmp no_rd low =
      let f = decode-Fits w in
      rw
        (
          register-reg (decode w).rs1 _ f.rs1,
          register-reg (decode w).rs2 [] f.rs2,
          word_cmp w h no_rd low,
        )
        refl

  pub Encodes-shift5 : w % 2 ^ 7 ≡ 0 → (decode w).rs2 ≡ 0 → Encodes shift5 name st w
  unfolding encode expect_comma one_word expression eval_expr eval_tail first_operand operand
      check_always in_range
  Encodes-shift5 low no_rs2 =
      let f = decode-Fits w in
      rw
        (
          register-reg (decode w).rd _ f.rd,
          register-reg (decode w).rs1 _ f.rs1,
          in_bounds 31 (decode w).shift (omega (arith, f.shift)),
          low_small 32 (decode w).shift (omega (arith, f.shift)),
          word_shift w h low no_rs2,
        )
        refl

  pub Encodes-mem : Encodes mem name st w
  unfolding encode expect_comma expect_rbracket one_word expression parse_mem_operand bracket_offset
  Encodes-mem =
      let f = decode-Fits w in
      rw
        (
          register-reg (decode w).rd _ f.rd,
          register-reg (decode w).rs1 _ f.rs1,
          signed_bracket st.symtab (decode w).imm16 f.imm16,
          low_bits-signed16 (decode w).imm16 f.imm16,
          word_i w h,
        )
        refl

  pub Encodes-idx : w % 2 ^ 12 ≡ 0 → Encodes idx name st w
  unfolding encode expect_comma expect_lbracket expect_rbracket one_word index_register
  Encodes-idx low =
      let f = decode-Fits w in
      rw
        (
          register-reg (decode w).rd _ f.rd,
          register-reg (decode w).rs1 _ f.rs1,
          register-reg (decode w).rs2 _ f.rs2,
          word_r w h low,
        )
        refl
